-- ===== src/Proxy/Retrieve.antt =====
-- A whole exchange over stdio: a call, its large response, and a `seek_result` call for the content.
use mcp_content_guard.Base.{
  ◌≡◌, ◌≢◌, sym, subst, ap, ◌∙◌, true, false, some, [], ◌∷◌, ◌++◌, append_assoc,
}
use mcp_content_guard.Base.Bytes.{Bytes, codes, bytes_eq, bytes_eq_refl}
use mcp_content_guard.Base.Dictionary.{Dictionary, lookup, delete, put, lookup-put_self}
use mcp_content_guard.Json.{Message, CallParams}
use mcp_content_guard.Cache.{hex}
use mcp_content_guard.Cache.Calls.{CanStore}
use mcp_content_guard.Filter.Total.{apply}
use mcp_content_guard.Rpc.{is_request, is_response}
use mcp_content_guard.Intercept.{Environment, Setup, maybe_cache, seek_result, stub_message}
use mcp_content_guard.Intercept.Cached.{IsLarge}
use mcp_content_guard.Intercept.Seek.{answer, retrieval}
use mcp_content_guard.Proxy.{
  Proxy, send, forward, id_key, seek_params, handle_client_message, handle_response,
  handle_upstream_message,
}
use mcp_content_guard.Proxy.Traffic.{
  is_seek_request, handle_client_message_request, handle_request_seek,
}
use mcp_content_guard.Proxy.Pending.{request-pending, handle_upstream_message_found}

module _ (setup : Setup) (tool : Bytes) where
  -- A line of the client that calls a tool of the upstream server.
  pub record IsToolCall (line : Bytes) (msg : Message) : Type 0 where
    pub decoded : setup.codec.decode_message line ≡ some msg
    pub request : is_request msg ≡ true
    pub method : msg.method ≡ codes "tools/call"
    pub other : is_seek_request setup tool msg ≡ false

  -- A line of the client that calls `seek_result`.
  pub record IsSeekCall (line : Bytes) (msg : Message) (params : CallParams) : Type 0 where
    pub decoded : setup.codec.decode_message line ≡ some msg
    pub request : is_request msg ≡ true
    pub method : msg.method ≡ codes "tools/call"
    pub params_of : seek_params setup tool msg ≡ some params

  -- A line of the upstream server that responds to a request.
  pub record IsResponse (line : Bytes) (msg req : Message) : Type 0 where
    pub decoded : setup.codec.decode_message line ≡ some msg
    pub response : is_response msg ≡ true
    pub same_id : id_key setup tool msg.id ≡ id_key setup tool req.id

  call_response :
      (env : Environment) (line : Bytes) (msg req : Message) (p : Proxy) (stub : Bytes)
      → req.method ≡ codes "tools/call"
      → (maybe_cache setup env msg p.shared).1 ≡ some stub
      → handle_response setup tool env line msg req p
        ≡ send stub (record p { shared = (maybe_cache setup env msg p.shared).0 })
  unfolding handle_response bytes_eq
  call_response env line msg req p stub m b = rw m (rw (b, handle_response))

  -- The proxy after a response that was cached.
  unfoldable pub after_response : Environment → Message → Proxy → Bytes → Proxy
  after_response env msg p stub = send stub (record p {
    shared = (maybe_cache setup env msg p.shared).0;
    pending = delete (id_key setup tool msg.id) p.pending;
  })

  pub upstream_call :
      (env : Environment) (line : Bytes) (msg req : Message) (p : Proxy) (stub : Bytes)
      → setup.codec.decode_message line ≡ some msg
      → is_response msg ≡ true
      → lookup (id_key setup tool msg.id) p.pending ≡ some req
      → req.method ≡ codes "tools/call"
      → (maybe_cache setup env msg p.shared).1 ≡ some stub
      → handle_upstream_message setup tool env line p ≡ after_response env msg p stub
  unfolding after_response
  upstream_call env line msg req p stub d r f m b =
      handle_upstream_message_found setup tool env line msg req p d r f
      ∙ call_response env line msg req
          (record p { pending = delete (id_key setup tool msg.id) p.pending }) stub m b

  pub seek_response :
      (env : Environment) (line : Bytes) (msg : Message) (params : CallParams) (p : Proxy)
      → IsSeekCall line msg params
      → handle_client_message setup tool env line p
        ≡ send
            (seek_result setup env msg params.id params.filter p.shared).1
            (record p { shared = (seek_result setup env msg params.id params.filter p.shared).0 })
  seek_response env line msg params p h =
      handle_client_message_request setup tool env line msg p h.decoded h.request
      ∙ handle_request_seek setup tool env line msg p params
          (subst (λ m. bytes_eq m (codes "tools/call") ≡ true) (sym h.method)
            (bytes_eq_refl (codes "tools/call")))
          h.params_of

  -- A client that calls a tool, gets a stub for the large response, and calls `seek_result` with
  -- the id in the stub, receives the stub and then the filter applied to the whole content; from
  -- a valid cache, if the id that is drawn is not empty and unused, there is memory for the
  -- entry, and the stub can be encoded.
  pub exchange :
      (env env' env'' : Environment) (call_line response_line seek_line : Bytes)
      (call response seek : Message) (params : CallParams) (p : Proxy) (result : Dictionary Bytes)
      (content random stub : Bytes)
      → IsToolCall call_line call
      → IsResponse response_line response call
      → IsLarge setup response result content
      → env'.random ≡ some random
      → random ≢ []
      → CanStore random content p.shared.cache
      → stub_message setup response result (hex random) content ≡ some stub
      → IsSeekCall seek_line seek params
      → params.id ≡ hex random
      → (handle_client_message setup tool env'' seek_line (
          handle_upstream_message setup tool env' response_line
            (handle_client_message setup tool env call_line p))).to_client
        ≡ p.to_client
          ++ (stub
              ∷ answer setup seek.id
                  (apply setup.codec setup.engines setup.limit env''.expired content params.filter)
              ∷ [])
  unfolding forward send after_response
  exchange env env' env'' l l' l'' call response seek params p result content random stub c r large
        drawn some_bytes can stubbed s same =
      let (replied, answered) =
        retrieval setup env' env'' response seek p.shared result content random params.filter large
          drawn some_bytes can in
      let waiting = put (id_key setup tool call.id) call p.pending in
      let p' = forward l (record p { pending = waiting }) in
      let called : handle_client_message setup tool env l p ≡ p' =
        request-pending setup tool env l call p c.decoded c.request c.other in
      let found : lookup (id_key setup tool response.id) waiting ≡ some call =
        ap (λ k. lookup k waiting) r.same_id
        ∙ lookup-put_self (id_key setup tool call.id) call p.pending in
      let p'' = after_response env' response p' stub in
      let responded : handle_upstream_message setup tool env' l' p' ≡ p'' =
        upstream_call env' l' response call p' stub r.decoded r.response found c.method
          (replied ∙ stubbed) in
      ap
        (λ q.
          (handle_client_message setup tool env'' l''
            (handle_upstream_message setup tool env' l' q)).to_client)
        called
      ∙ ap (λ q. (handle_client_message setup tool env'' l'' q).to_client) responded
      ∙ ap (λ (q : Proxy). q.to_client) (seek_response env'' l'' seek params p'' s)
      ∙ ap
          (λ i.
            (p.to_client ++ (stub ∷ []))
            ++ ((seek_result setup env'' seek i params.filter
                  (maybe_cache setup env' response p.shared).0).1
                ∷ []))
          same
      ∙ ap (λ b. (p.to_client ++ (stub ∷ [])) ++ (b ∷ [])) answered
      ∙ append_assoc p.to_client (stub ∷ []) _
