-- ===== src/Proxy/Touches.antt =====
-- What the handlers do to the cache: at most one call of `Store` or of `Get`.
use mcp_content_guard.Base.{
  ℕ, ◌≡◌, sym, subst, true, Option, none, some, arith, inl, inr, Bool-cases, Option-cases,
  if◌then◌else◌,
}
use mcp_content_guard.Base.Bytes.{Bytes, codes, bytes_eq}
use mcp_content_guard.Base.Dictionary.{lookup, delete}
use mcp_content_guard.Json.{Result, ok, err, Message}
use mcp_content_guard.Cache.{Cache}
use mcp_content_guard.Rpc.{is_notification, is_response}
use mcp_content_guard.Schema.{inject_seek_result}
use mcp_content_guard.Intercept.{State, Environment, Setup, maybe_cache}
use mcp_content_guard.Intercept.Touches.{
  Touches, untouched, if-Touches, content_size, maybe_cache-Touches, seek_result-Touches,
}
use mcp_content_guard.Proxy.{
  Proxy, send, id_key, handle_request, handle_client_message, handle_response,
  handle_upstream_message,
}
use mcp_content_guard.Proxy.Traffic.{
  is_seek, is_seek_request, seek_request-params, handle_request_seek, handle_client_message_request,
  request-of_seek, handle_client_message-Forwarded,
}

abbrev cache_of : Proxy → Cache
cache_of p = p.shared.cache

module _ (setup : Setup) (tool : Bytes) where
  -- The bytes of the content of a line's result.
  unfoldable pub line_size : Option Message → ℕ
  unfolding content_size
  line_size none = 0
  line_size (some msg) = content_size setup msg

  module _ (env : Environment) (line : Bytes) where
    list-Touches :
        (msg : Message) (p : Proxy) (modified : Result Bytes) (size : ℕ)
        → Touches env.random size p.shared.cache (
            cache_of (elim modified as (λ x. Proxy) [
              | err e ↦ send line p
              | ok result ↦ elim (setup.codec.encode_message (record msg { result = result })) [
                | none ↦ send line p
                | some b ↦ send b p
              ]
            ]))
    unfolding send
    list-Touches msg p (err e) size = untouched
    list-Touches msg p (ok result) size =
        encoded (setup.codec.encode_message (record msg { result = result }))
      where
        encoded :
            (b : Option Bytes)
            → Touches env.random size p.shared.cache
                (cache_of (elim b as (λ x. Proxy) [ none ↦ send line p | some b' ↦ send b' p ]))
        encoded none = untouched
        encoded (some b) = untouched

    stub-Touches :
        (p : Proxy) (s : State) (stub : Option Bytes) (size : ℕ)
        → Touches env.random size p.shared.cache s.cache
        → Touches env.random size p.shared.cache (
            cache_of (elim stub as (λ x. Proxy) [
              | none ↦ send line (record p { shared = s })
              | some b ↦ send b (record p { shared = s })
            ]))
    unfolding send
    stub-Touches p s none size t = t
    stub-Touches p s (some b) size t = t

    handle_response-Touches :
        (msg req : Message) (p : Proxy)
        → Touches env.random
            (content_size setup msg)
            p.shared.cache
            (handle_response setup tool env line msg req p).shared.cache
    unfolding handle_response
    handle_response-Touches msg req p =
        let size = content_size setup msg in
        let (shared', stub) = maybe_cache setup env msg p.shared in
        if-Touches env.random size p.shared.cache cache_of
          (bytes_eq req.method (codes "tools/list")) _ _
          (list-Touches msg p (inject_seek_result setup.codec tool msg.result) size)
          (if-Touches env.random size p.shared.cache cache_of
            (bytes_eq req.method (codes "tools/call")) _ _
            (stub-Touches p shared' stub size (maybe_cache-Touches setup env msg p.shared))
            (unfold send in untouched))

    pending-Touches :
        (msg : Message) (p : Proxy) (found : Option Message)
        → Touches env.random (content_size setup msg) p.shared.cache (
            cache_of (elim found as (λ x. Proxy) [
              | none ↦ send line p
              | some req ↦
                  handle_response setup tool env line msg req
                    (record p { pending = delete (id_key setup tool msg.id) p.pending })
            ]))
    unfolding send
    pending-Touches msg p none = untouched
    pending-Touches msg p (some req) =
        handle_response-Touches msg req
          (record p { pending = delete (id_key setup tool msg.id) p.pending })

    decoded-Touches :
        (p : Proxy) (decoded : Option Message)
        → Touches env.random (line_size decoded) p.shared.cache (
            cache_of (elim decoded as (λ x. Proxy) [
              | none ↦ send line p
              | some msg ↦
                  if is_notification msg
                  then send line p
                  else if is_response msg
                  then (elim (lookup (id_key setup tool msg.id) p.pending) [
                    | none ↦ send line p
                    | some req ↦
                        handle_response setup tool env line msg req
                          (record p { pending = delete (id_key setup tool msg.id) p.pending })
                  ])
                  else send line p
            ]))
    unfolding send line_size
    decoded-Touches p none = untouched
    decoded-Touches p (some msg) =
        let size = content_size setup msg in
        if-Touches env.random size p.shared.cache cache_of (is_notification msg) _ _ untouched (
          if-Touches env.random size p.shared.cache cache_of (is_response msg) _ _
            (pending-Touches msg p (lookup (id_key setup tool msg.id) p.pending)) untouched)

    pub handle_upstream_message-Touches :
        (p : Proxy)
        → Touches env.random
            (line_size (setup.codec.decode_message line))
            p.shared.cache
            (handle_upstream_message setup tool env line p).shared.cache
    unfolding handle_upstream_message
    handle_upstream_message-Touches p = decoded-Touches p (setup.codec.decode_message line)

    request-Touches :
        (msg : Message) (p : Proxy)
        → is_seek_request setup tool msg ≡ true
        → Touches none 0 p.shared.cache (handle_request setup tool env line msg p).shared.cache
    unfolding send
    request-Touches msg p h =
        let (params, m, s) = seek_request-params setup tool msg h in
        subst (λ (q : Proxy). Touches none 0 p.shared.cache q.shared.cache)
          (sym (handle_request_seek setup tool env line msg p params m s))
          (seek_result-Touches setup env msg params.id params.filter p.shared none 0)

    seek-Touches :
        (p : Proxy)
        → is_seek setup tool line ≡ true
        → Touches none 0 p.shared.cache (handle_client_message setup tool env line p).shared.cache
    unfolding is_seek
    seek-Touches p h = elim (Option-cases (setup.codec.decode_message line)) [
      | inl junk ↦ absurd (ground arith)
      | inr (msg, d) ↦
          let seek : is_seek_request setup tool msg ≡ true = rw (d, is_seek) at h in
          subst (λ (q : Proxy). Touches none 0 p.shared.cache q.shared.cache)
            (sym (
              handle_client_message_request setup tool env line msg p d
                (request-of_seek setup tool msg seek)))
            (request-Touches msg p seek)
    ]

    pub handle_client_message-Touches :
        (p : Proxy)
        → Touches none 0 p.shared.cache (handle_client_message setup tool env line p).shared.cache
    handle_client_message-Touches p = elim (Bool-cases (is_seek setup tool line)) [
      | inl seek ↦ seek-Touches p seek
      | inr other ↦
          subst (λ (s : State). Touches none 0 p.shared.cache s.cache)
            (sym (handle_client_message-Forwarded setup tool env line p other).shared) untouched
    ]
