-- ===== src/Http/Touches.antt =====
-- What a request does to the cache: at most one call of `Store` or of `Get`.
use mcp_content_guard.Base.{
  ℕ, Bool, true, false, ◌||◌, Option, none, some, List, [], ltb, leb, if◌then◌else◌,
}
use mcp_content_guard.Base.Bytes.{Bytes, codes, bytes_eq}
use mcp_content_guard.Json.{Result, ok, err, Message, CallParams}
use mcp_content_guard.Rpc.{is_response}
use mcp_content_guard.Schema.{inject_seek_result}
use mcp_content_guard.Intercept.{State, Environment, maybe_cache, seek_result}
use mcp_content_guard.Intercept.Touches.{
  Touches, untouched, if-Touches, content_size, maybe_cache-Touches, seek_result-Touches,
}
use mcp_content_guard.Http.{
  Request, Reply, Outgoing, Network, Outcome, Read, too_large, unread, complete, read_body,
  copy_response, write_json, http_error, direct,
}
use mcp_content_guard.Http.Handlers.{
  Context, Collected, do_upstream, forward_raw, seek_request, intercept_response, finish_post,
  post_upstream, post_message, handle_mcp_post, is_mcp_post, serve_http,
}
use mcp_content_guard.Http.Sizes.{
  collected_size, message_size, read_size, request_size, sought_size,
}

module _ (context : Context) where
  open context use {setup, seek_result_tool, canonical, server}
  open setup use {codec}

  module _ (env : Environment) (s : State) where
    list-Touches :
        (resp : Message) (body : Bytes) (modified : Result Bytes) (size : ℕ)
        → Touches env.random size s.cache
            (elim modified as (λ x. State × Bytes) [
              | err e ↦ (s, body)
              | ok result ↦ elim (codec.encode_message (record resp { result = result })) [
                | none ↦ (s, body)
                | some b ↦ (s, b)
              ]
            ]).0.cache
    list-Touches resp body (err e) size = untouched
    list-Touches resp body (ok result) size =
        encoded (codec.encode_message (record resp { result = result }))
      where
        encoded :
            (b : Option Bytes)
            → Touches env.random size s.cache
                (elim b as (λ x. State × Bytes) [ none ↦ (s, body) | some b' ↦ (s, b') ]).0.cache
        encoded none = untouched
        encoded (some b) = untouched

    stub-Touches :
        (s' : State) (body : Bytes) (stub : Option Bytes) (size : ℕ)
        → Touches env.random size s.cache s'.cache
        → Touches env.random size s.cache
            (elim stub as (λ x. State × Bytes) [ none ↦ (s', body) | some b ↦ (s', b) ]).0.cache
    stub-Touches s' body none size t = t
    stub-Touches s' body (some b) size t = t

    intercept_response-Touches :
        (msg resp : Message) (body : Bytes)
        → Touches env.random
            (content_size setup resp)
            s.cache
            (intercept_response context env msg resp body s).0.cache
    unfolding intercept_response
    intercept_response-Touches msg resp body =
        let size = content_size setup resp in
        let (s', stub) = maybe_cache setup env resp s in
        if-Touches env.random size s.cache (λ (x : State × Bytes). x.0.cache)
          (bytes_eq msg.method (codes "tools/list")) _ _
          (list-Touches resp body (inject_seek_result codec seek_result_tool resp.result) size)
          (if-Touches env.random size s.cache (λ (x : State × Bytes). x.0.cache)
            (bytes_eq msg.method (codes "tools/call")) _ _
            (stub-Touches s' body stub size (maybe_cache-Touches setup env resp s)) untouched)

    decoded-Touches :
        (msg : Message) (body : Bytes) (copied : Reply) (decoded : Option Message)
        → Touches env.random
            (elim decoded [ none ↦ 0 | some m ↦ content_size setup m ])
            s.cache
            (elim decoded as (λ x. State × Reply) [
              | none ↦ (s, copied)
              | some resp_msg ↦
                  let (s', b) = intercept_response context env msg resp_msg body s in
                  if is_response resp_msg
                  then (s', write_json canonical b)
                  else (s, write_json canonical body)
            ]).0.cache
    decoded-Touches msg body copied none = untouched
    decoded-Touches msg body copied (some resp) =
        if-Touches env.random (content_size setup resp) s.cache (λ (x : State × Reply). x.0.cache)
          (is_response resp) _ _ (intercept_response-Touches msg resp body) untouched

    finish_post-Touches :
        (msg : Message) (resp : Collected)
        → Touches env.random
            (collected_size context (ok resp))
            s.cache
            (finish_post context env msg resp s).0.cache
    unfolding finish_post collected_size
    finish_post-Touches msg resp =
        if-Touches env.random (collected_size context (ok resp)) s.cache
          (λ (x : State × Reply). x.0.cache) (ltb resp.status 200 || leb 300 resp.status) _ _
          untouched
          (decoded-Touches msg resp.body (copy_response canonical resp.status resp.header resp.body)
            (codec.decode_message resp.body))

    post_upstream-Touches :
        (net : Network) (r : Request) (msg : Message) (body : Bytes)
        → Touches env.random
            (collected_size context (do_upstream context net r body).0)
            s.cache
            (post_upstream context env net r msg body s).shared.cache
    unfolding post_upstream
    post_upstream-Touches net r msg body =
        collected (do_upstream context net r body).0 (do_upstream context net r body).1
      where
        collected :
            (c : Result Collected) (sent : List Outgoing)
            → Touches env.random
                (collected_size context c)
                s.cache
                (elim c as (λ x. Outcome) [
                  | err e ↦ record { shared = s; reply = http_error canonical 502 e; sent = sent }
                  | ok resp ↦
                      let (s', reply) = finish_post context env msg resp s in
                      record { shared = s'; reply = reply; sent = sent }
                ]).shared.cache
        collected (err e) sent = untouched
        collected (ok resp) sent = finish_post-Touches msg resp

    post_message-Touches :
        (net : Network) (r : Request) (msg : Message) (body : Bytes)
        → Touches env.random
            (message_size context net r body (some msg))
            s.cache
            (post_message context env net r msg body s).shared.cache
    unfolding post_message message_size sought_size
    post_message-Touches net r msg body = sought (seek_request context msg)
      where
        sought :
            (found : Option CallParams)
            → Touches env.random
                (sought_size context net r body found)
                s.cache
                (elim found as (λ x. Outcome) [
                  | some params ↦
                      let (s', b) = seek_result setup env msg params.id params.filter s in
                      record { shared = s'; reply = write_json canonical b; sent = [] }
                  | none ↦ post_upstream context env net r msg body s
                ]).shared.cache
        sought none = post_upstream-Touches net r msg body
        sought (some params) =
            seek_result-Touches setup env msg params.id params.filter s env.random 0

    decoded_post-Touches :
        (net : Network) (r : Request) (body : Bytes) (found : Option Message)
        → Touches env.random
            (message_size context net r body found)
            s.cache
            (elim found as (λ x. Outcome) [
              | none ↦
                  let (reply, sent) = forward_raw context net r body in
                  record { shared = s; reply = reply; sent = sent }
              | some msg ↦ post_message context env net r msg body s
            ]).shared.cache
    decoded_post-Touches net r body none = untouched
    decoded_post-Touches net r body (some msg) = post_message-Touches net r msg body

    read-Touches :
        (net : Network) (r : Request) (got : Read)
        → Touches env.random
            (read_size context net r got)
            s.cache
            (elim got as (λ x. Outcome) [
              | too_large ↦ record {
                shared = s;
                reply = http_error canonical 413 (codes "request body too large");
                sent = [];
              }
              | unread ↦ record {
                shared = s;
                reply = http_error canonical 400 (codes "read body");
                sent = [];
              }
              | complete body ↦ elim (codec.decode_message body) [
                | none ↦
                    let (reply, sent) = forward_raw context net r body in
                    record { shared = s; reply = reply; sent = sent }
                | some msg ↦ post_message context env net r msg body s
              ]
            ]).shared.cache
    unfolding read_size
    read-Touches net r too_large = untouched
    read-Touches net r unread = untouched
    read-Touches net r (complete body) = decoded_post-Touches net r body (codec.decode_message body)

    routed-Touches :
        (net : Network) (r : Request) (routed : Bool)
        → Touches env.random
            (if routed then read_size context net r (read_body server.max_body_bytes r.body) else 0)
            s.cache
            (if routed then handle_mcp_post context env net r s else record {
              shared = s;
              reply = net.relay (record r { header = direct canonical server.headers r.header });
              sent = [];
            }).shared.cache
    unfolding handle_mcp_post
    routed-Touches net r true = read-Touches net r (read_body server.max_body_bytes r.body)
    routed-Touches net r false = untouched

    pub serve_http-Touches :
        (net : Network) (r : Request)
        → Touches env.random
            (request_size context net r)
            s.cache
            (serve_http context env net r s).shared.cache
    unfolding serve_http request_size
    serve_http-Touches net r = routed-Touches net r (is_mcp_post context r)
