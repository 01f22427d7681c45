-- ===== src/Http/Posts.antt =====
-- POSTs of the MCP endpoint: `seek_result` calls, and whole exchanges over HTTP.
use mcp_content_guard.Base.{◌≡◌, ◌≢◌, ap, ◌∙◌, true, false, ◌||◌, none, some, [], ltb, leb}
use mcp_content_guard.Base.Bytes.{Bytes, codes, bytes_eq}
use mcp_content_guard.Base.Dictionary.{Dictionary}
use mcp_content_guard.Json.{ok, Message, CallParams}
use mcp_content_guard.Cache.{hex}
use mcp_content_guard.Cache.Calls.{CanStore}
use mcp_content_guard.Filter.Total.{apply}
use mcp_content_guard.Rpc.{is_response}
use mcp_content_guard.Intercept.{State, Environment, maybe_cache, seek_result, stub_message}
use mcp_content_guard.Intercept.Cached.{IsLarge}
use mcp_content_guard.Intercept.Seek.{answer, retrieval}
use mcp_content_guard.Http.{
  Request, Network, Outcome, complete, read_body, copy_response, write_json,
}
use mcp_content_guard.Http.Handlers.{
  Context, Collected, do_upstream, seek_request, intercept_response, finish_post, post_upstream,
  post_message, handle_mcp_post, is_mcp_post, serve_http,
}

module _ (context : Context) where
  open context use {setup, seek_result_tool, canonical, server}
  open setup use {codec}

  -- A POST of the endpoint whose body is a message.
  pub record IsPost (r : Request) (body : Bytes) (msg : Message) : Type 0 where
    pub routed : is_mcp_post context r ≡ true
    pub read : read_body server.max_body_bytes r.body ≡ complete body
    pub decoded : codec.decode_message body ≡ some msg

  serve_http-IsPost :
      (env : Environment) (net : Network) (r : Request) (body : Bytes) (msg : Message) (s : State)
      → IsPost r body msg
      → serve_http context env net r s ≡ post_message context env net r msg body s
  unfolding serve_http handle_mcp_post
  serve_http-IsPost env net r body msg s h =
      rw (h.routed) (rw (h.read, handle_mcp_post) (rw (h.decoded, handle_mcp_post)))

  -- A `seek_result` call is answered from the cache, and nothing is sent upstream.
  pub serve_http-seek :
      (env : Environment) (net : Network) (r : Request) (body : Bytes) (msg : Message)
      (params : CallParams) (s : State)
      → IsPost r body msg
      → seek_request context msg ≡ some params
      → serve_http context env net r s ≡ record {
        shared = (seek_result setup env msg params.id params.filter s).0;
        reply = write_json canonical (seek_result setup env msg params.id params.filter s).1;
        sent = [];
      }
  unfolding post_message
  serve_http-seek env net r body msg params s h p =
      serve_http-IsPost env net r body msg s h ∙ rw (p, post_message)

  pub serve_http-other :
      (env : Environment) (net : Network) (r : Request) (body : Bytes) (msg : Message)
      (resp : Collected) (s : State)
      → IsPost r body msg
      → seek_request context msg ≡ none
      → (do_upstream context net r body).0 ≡ ok resp
      → serve_http context env net r s ≡ record {
        shared = (finish_post context env msg resp s).0;
        reply = (finish_post context env msg resp s).1;
        sent = (do_upstream context net r body).1;
      }
  unfolding post_message post_upstream
  serve_http-other env net r body msg resp s h p d =
      serve_http-IsPost env net r body msg s h ∙ rw (p, post_message) (rw (d, post_upstream))

  -- For a POST of a message that is no `seek_result` call, an answer outside 2xx that is
  -- collected from upstream, a 401 among them, reaches the client with its status, its header and
  -- its body, and neither the cache nor the statistics change.
  pub serve_http-failed :
      (env : Environment) (net : Network) (r : Request) (body : Bytes) (msg : Message)
      (resp : Collected) (s : State)
      → IsPost r body msg
      → seek_request context msg ≡ none
      → (do_upstream context net r body).0 ≡ ok resp
      → (ltb resp.status 200 || leb 300 resp.status) ≡ true
      → ((serve_http context env net r s).shared ≡ s)
        × ((serve_http context env net r s).reply
            ≡ copy_response canonical resp.status resp.header resp.body)
  unfolding finish_post
  serve_http-failed env net r body msg resp s h p d failed =
      let e = serve_http-other env net r body msg resp s h p d in
      (ap (λ (o : Outcome). o.shared) e ∙ rw failed, ap (λ (o : Outcome). o.reply) e ∙ rw failed)

  -- A response to a `tools/call` request.
  pub record IsCalled (msg : Message) (resp : Collected) (resp_msg : Message) : Type 0 where
    pub method : msg.method ≡ codes "tools/call"
    pub other : seek_request context msg ≡ none
    pub success : (ltb resp.status 200 || leb 300 resp.status) ≡ false
    pub decoded : codec.decode_message resp.body ≡ some resp_msg
    pub response : is_response resp_msg ≡ true

  intercept_call :
      (env : Environment) (msg resp : Message) (body stub : Bytes) (s : State)
      → msg.method ≡ codes "tools/call"
      → (maybe_cache setup env resp s).1 ≡ some stub
      → intercept_response context env msg resp body s ≡ ((maybe_cache setup env resp s).0, stub)
  unfolding intercept_response bytes_eq
  intercept_call env msg resp body stub s m p = rw m (rw (p, intercept_response))

  pub finish_call :
      (env : Environment) (msg resp_msg : Message) (resp : Collected) (stub : Bytes) (s : State)
      → IsCalled msg resp resp_msg
      → (maybe_cache setup env resp_msg s).1 ≡ some stub
      → finish_post context env msg resp s
        ≡ ((maybe_cache setup env resp_msg s).0, write_json canonical stub)
  unfolding finish_post
  finish_call env msg resp_msg resp stub s c p =
      let i = intercept_call env msg resp_msg resp.body stub s c.method p in
      rw (c.success) (
        rw (c.decoded, finish_post)
          (rw (c.response) (ap (λ (o : State × Bytes). (o.0, write_json canonical o.1)) i)))

  -- Over HTTP, a client that calls a tool gets a stub for the large response that is collected
  -- from upstream; and a `seek_result` call with the id in the stub gets the filter applied to
  -- the whole content, with no request upstream; from a valid cache, if the id that is drawn is
  -- not empty and unused, there is memory for the entry, and the stub can be encoded.
  pub serve_http-retrieval :
      (env env' : Environment) (net net' : Network) (r r' : Request) (body body' : Bytes)
      (call seek resp_msg : Message) (params : CallParams) (resp : Collected) (s : State)
      (result : Dictionary Bytes) (content random stub : Bytes)
      → IsPost r body call
      → (do_upstream context net r body).0 ≡ ok resp
      → IsCalled call resp resp_msg
      → IsLarge setup resp_msg result content
      → env.random ≡ some random
      → random ≢ []
      → CanStore random content s.cache
      → stub_message setup resp_msg result (hex random) content ≡ some stub
      → IsPost r' body' seek
      → seek_request context seek ≡ some params
      → params.id ≡ hex random
      → ((serve_http context env net r s).reply ≡ write_json canonical stub)
        × ((serve_http context env' net' r' (serve_http context env net r s).shared).reply
            ≡ write_json canonical (
                answer setup seek.id
                  (apply codec setup.engines setup.limit env'.expired content params.filter)))
        × ((serve_http context env' net' r' (serve_http context env net r s).shared).sent ≡ [])
  serve_http-retrieval env env' net net' r r' body body' call seek resp_msg params resp s result
        content random stub post up called large drawn some_bytes can stubbed post' sought same =
      let (replied, answered) =
        retrieval setup env env' resp_msg seek s result content random params.filter large drawn
          some_bytes can in
      let first = serve_http-other env net r body call resp s post called.other up in
      let finished = finish_call env call resp_msg resp stub s called (replied ∙ stubbed) in
      let shared : (serve_http context env net r s).shared ≡ (maybe_cache setup env resp_msg s).0 =
        ap (λ (o : Outcome). o.shared) first ∙ ap (λ o. o.0) finished in
      let second =
        serve_http-seek env' net' r' body' seek params (serve_http context env net r s).shared post'
          sought in
      (
        ap (λ (o : Outcome). o.reply) first ∙ ap (λ o. o.1) finished,
        ap (λ (o : Outcome). o.reply) second
            ∙ ap
                (λ t.
                  write_json canonical (seek_result setup env' seek params.id params.filter t).1)
                shared
            ∙ ap
                (λ i.
                  write_json canonical
                    (seek_result setup env' seek i params.filter
                      (maybe_cache setup env resp_msg s).0).1)
                same
            ∙ ap (write_json canonical) answered,
        ap (λ (o : Outcome). o.sent) second,
      )
