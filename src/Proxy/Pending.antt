-- ===== src/Proxy/Pending.antt =====
-- The table of requests that wait for a response.
use mcp_content_guard.Base.{
  ◌≡◌, ap, ◌∙◌, true, false, none, some, [], ◌∷◌, ◌++◌, arith, if◌then◌else◌,
}
use mcp_content_guard.Base.Bytes.{Bytes, codes, bytes_eq}
use mcp_content_guard.Base.Dictionary.{lookup, delete, put, lookup-delete}
use mcp_content_guard.Json.{Message}
use mcp_content_guard.Rpc.{is_request, is_notification, is_response}
use mcp_content_guard.Intercept.{Environment, Setup}
use mcp_content_guard.Proxy.{
  Proxy, forward, id_key, handle_request, handle_client_message, handle_response,
  handle_upstream_message,
}
use mcp_content_guard.Proxy.Traffic.{is_seek_request, handle_client_message_request}

module _ (setup : Setup) (tool : Bytes) where
  handle_request_other :
      (env : Environment) (line : Bytes) (msg : Message) (p : Proxy)
      → is_request msg ≡ true
      → is_seek_request setup tool msg ≡ false
      → handle_request setup tool env line msg p
        ≡ forward line (record p { pending = put (id_key setup tool msg.id) msg p.pending })
  unfolding handle_request is_seek_request
  handle_request_other env line msg p r h = ground arith

  -- A request that is passed on waits under the key of its id, and nothing else that waits changes.
  pub request-pending :
      (env : Environment) (line : Bytes) (msg : Message) (p : Proxy)
      → setup.codec.decode_message line ≡ some msg
      → is_request msg ≡ true
      → is_seek_request setup tool msg ≡ false
      → handle_client_message setup tool env line p
        ≡ forward line (record p { pending = put (id_key setup tool msg.id) msg p.pending })
  request-pending env line msg p d r h =
      handle_client_message_request setup tool env line msg p d r
      ∙ handle_request_other env line msg p r h

  response-not-notification : (m : Message) → is_response m ≡ true → is_notification m ≡ false
  unfolding is_response is_notification
  response-not-notification m h = ground arith

  pub handle_upstream_message_found :
      (env : Environment) (line : Bytes) (msg req : Message) (p : Proxy)
      → setup.codec.decode_message line ≡ some msg
      → is_response msg ≡ true
      → lookup (id_key setup tool msg.id) p.pending ≡ some req
      → handle_upstream_message setup tool env line p
        ≡ handle_response setup tool env line msg req
            (record p { pending = delete (id_key setup tool msg.id) p.pending })
  unfolding handle_upstream_message
  handle_upstream_message_found env line msg req p d r f =
      rw (d, handle_upstream_message)
        (rw (response-not-notification msg r) (rw r (rw (f, handle_upstream_message))))

  pending-handle_response :
      (env : Environment) (line : Bytes) (msg req : Message) (p : Proxy)
      → (handle_response setup tool env line msg req p).pending ≡ p.pending
  unfolding handle_response
  pending-handle_response env line msg req p = ground arith

  -- A response to a request that waits takes that request out of the table, and no other: a
  -- second response with the same id finds nothing.
  pub response-pending :
      (env : Environment) (line : Bytes) (msg req : Message) (p : Proxy) (k : Bytes)
      → setup.codec.decode_message line ≡ some msg
      → is_response msg ≡ true
      → lookup (id_key setup tool msg.id) p.pending ≡ some req
      → lookup k (handle_upstream_message setup tool env line p).pending
        ≡ (if bytes_eq (id_key setup tool msg.id) k then none else lookup k p.pending)
  response-pending env line msg req p k d r f =
      ap (λ q. lookup k q.pending) (handle_upstream_message_found env line msg req p d r f)
      ∙ ap (lookup k) (
          pending-handle_response env line msg req
            (record p { pending = delete (id_key setup tool msg.id) p.pending }))
      ∙ lookup-delete (id_key setup tool msg.id) k p.pending

  -- What is no response to a waiting `tools/list` or `tools/call` request.
  pub data IsPlain (line : Bytes) (p : Proxy) : Type 0 where
    junk : setup.codec.decode_message line ≡ none → IsPlain line p
    other :
        (msg : Message)
        → setup.codec.decode_message line ≡ some msg
        → is_response msg ≡ false
        → IsPlain line p
    unknown :
        (msg : Message)
        → setup.codec.decode_message line ≡ some msg
        → lookup (id_key setup tool msg.id) p.pending ≡ none
        → IsPlain line p
    plain :
        (msg req : Message)
        → setup.codec.decode_message line ≡ some msg
        → lookup (id_key setup tool msg.id) p.pending ≡ some req
        → bytes_eq req.method (codes "tools/list") ≡ false
        → bytes_eq req.method (codes "tools/call") ≡ false
        → IsPlain line p

  -- A line that is no response to a waiting `tools/list` or `tools/call` request reaches the
  -- client as it is, and neither the cache nor the statistics change.
  pub IsPlain-sent :
      (env : Environment) (line : Bytes) (p : Proxy)
      → IsPlain line p
      → ((handle_upstream_message setup tool env line p).to_client ≡ p.to_client ++ (line ∷ []))
        × ((handle_upstream_message setup tool env line p).shared ≡ p.shared)
  unfolding handle_upstream_message
  IsPlain-sent env line p (junk d) = (ground arith, ground arith)
  IsPlain-sent env line p (other msg d r) = (ground arith, ground arith)
  IsPlain-sent env line p (unknown msg d f) = (ground arith, ground arith)
  IsPlain-sent env line p (plain msg req d f l c) = (ground arith, ground arith)
