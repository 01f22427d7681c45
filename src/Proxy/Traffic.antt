-- ===== src/Proxy/Traffic.antt =====
-- Which line goes where: every line is forwarded or answered once, in order.
use mcp_content_guard.Base.{
  ◌≡◌, refl, sym, subst, Bool, true, false, ◌&&◌, none, some, [], ◌∷◌, ◌++◌, arith, inl, inr,
  Bool-cases, Option-cases,
}
use mcp_content_guard.Base.Bytes.{Bytes, codes, bytes_eq}
use mcp_content_guard.Json.{Message, CallParams}
use mcp_content_guard.Rpc.{is_request, is_notification}
use mcp_content_guard.Intercept.{Environment, Setup, seek_result}
use mcp_content_guard.Proxy.{Proxy, send, seek_params, handle_request, handle_client_message}

module _ (setup : Setup) (tool : Bytes) where
  -- A request to call the tool `seek_result`.
  unfoldable pub is_seek_request : Message → Bool
  is_seek_request msg =
      is_request msg
      && (bytes_eq msg.method (codes "tools/call")
          && (elim (seek_params setup tool msg) [ none ↦ false | some params ↦ true ]))

  unfoldable pub is_seek : Bytes → Bool
  unfolding is_seek_request
  is_seek line = elim (setup.codec.decode_message line) [
    | none ↦ false
    | some msg ↦ is_seek_request msg
  ]

  request-not-notification : (m : Message) → is_request m ≡ true → is_notification m ≡ false
  unfolding is_request is_notification
  request-not-notification m h = ground arith

  -- What a line of the client leads to: a reply to a `seek_result` call, which the upstream server
  -- does not see, or the same line for the upstream server, with the cache and the statistics as
  -- they were.
  pub record Answered (p q : Proxy) : Type 0 where
    pub reply : Bytes
    pub to_client : q.to_client ≡ p.to_client ++ (reply ∷ [])
    pub to_upstream : q.to_upstream ≡ p.to_upstream
    pub pending : q.pending ≡ p.pending

  pub record Forwarded (line : Bytes) (p q : Proxy) : Type 0 where
    pub to_client : q.to_client ≡ p.to_client
    pub to_upstream : q.to_upstream ≡ p.to_upstream ++ (line ∷ [])
    pub shared : q.shared ≡ p.shared

  pub seek_request-params :
      (msg : Message)
      → is_seek_request msg ≡ true
      → (params : CallParams) × (bytes_eq msg.method (codes "tools/call") ≡ true)
        × (seek_params setup tool msg ≡ some params)
  unfolding is_seek_request
  seek_request-params msg h = elim (Option-cases (seek_params setup tool msg)) [
    | inl other ↦ absurd (ground arith)
    | inr (params, p) ↦ (params, ground arith, p)
  ]

  pub handle_request_seek :
      (env : Environment) (line : Bytes) (msg : Message) (p : Proxy) (params : CallParams)
      → bytes_eq msg.method (codes "tools/call") ≡ true
      → seek_params setup tool msg ≡ some params
      → handle_request setup tool env line msg p
        ≡ send
            (seek_result setup env msg params.id params.filter p.shared).1
            (record p { shared = (seek_result setup env msg params.id params.filter p.shared).0 })
  unfolding handle_request
  handle_request_seek env line msg p params m s = rw (m, handle_request) (rw (s, handle_request))

  handle_request-Answered :
      (env : Environment) (line : Bytes) (msg : Message) (p : Proxy)
      → is_seek_request msg ≡ true
      → Answered p (handle_request setup tool env line msg p)
  unfolding send
  handle_request-Answered env line msg p h =
      let (params, m, s) = seek_request-params msg h in
      subst (Answered p) (sym (handle_request_seek env line msg p params m s)) (record {
        reply = (seek_result setup env msg params.id params.filter p.shared).1;
        to_client = refl;
        to_upstream = refl;
        pending = refl;
      })

  handle_request-Forwarded :
      (env : Environment) (line : Bytes) (msg : Message) (p : Proxy)
      → is_request msg ≡ true
      → is_seek_request msg ≡ false
      → Forwarded line p (handle_request setup tool env line msg p)
  unfolding is_seek_request handle_request
  handle_request-Forwarded env line msg p r h = record {
    to_client = ground arith;
    to_upstream = ground arith;
    shared = ground arith;
  }

  pub request-of_seek : (msg : Message) → is_seek_request msg ≡ true → is_request msg ≡ true
  unfolding is_seek_request
  request-of_seek msg h = ground arith

  pub handle_client_message_request :
      (env : Environment) (line : Bytes) (msg : Message) (p : Proxy)
      → setup.codec.decode_message line ≡ some msg
      → is_request msg ≡ true
      → handle_client_message setup tool env line p ≡ handle_request setup tool env line msg p
  unfolding handle_client_message
  handle_client_message_request env line msg p d r =
      rw (d, handle_client_message) (rw (request-not-notification msg r) (rw r))

  -- A `seek_result` call is answered with one reply, and no other part of the traffic changes.
  pub handle_client_message-Answered :
      (env : Environment) (line : Bytes) (p : Proxy)
      → is_seek line ≡ true
      → Answered p (handle_client_message setup tool env line p)
  unfolding is_seek
  handle_client_message-Answered env line p h =
      elim (Option-cases (setup.codec.decode_message line)) [
        | inl junk ↦ absurd (ground arith)
        | inr (msg, d) ↦
            let seek : is_seek_request msg ≡ true = rw (d, is_seek) at h in
            subst (Answered p)
              (sym (handle_client_message_request env line msg p d (request-of_seek msg seek)))
              (handle_request-Answered env line msg p seek)
      ]

  not_request-Forwarded :
      (env : Environment) (line : Bytes) (msg : Message) (p : Proxy)
      → setup.codec.decode_message line ≡ some msg
      → is_request msg ≡ false
      → Forwarded line p (handle_client_message setup tool env line p)
  unfolding handle_client_message
  not_request-Forwarded env line msg p d r = record {
    to_client = ground arith;
    to_upstream = ground arith;
    shared = ground arith;
  }

  junk-Forwarded :
      (env : Environment) (line : Bytes) (p : Proxy)
      → setup.codec.decode_message line ≡ none
      → Forwarded line p (handle_client_message setup tool env line p)
  unfolding handle_client_message
  junk-Forwarded env line p d = record {
    to_client = ground arith;
    to_upstream = ground arith;
    shared = ground arith;
  }

  -- Any other line goes to the upstream server as it is, with no reply, and neither the cache nor the
  -- statistics change.
  pub handle_client_message-Forwarded :
      (env : Environment) (line : Bytes) (p : Proxy)
      → is_seek line ≡ false
      → Forwarded line p (handle_client_message setup tool env line p)
  unfolding is_seek
  handle_client_message-Forwarded env line p h =
      elim (Option-cases (setup.codec.decode_message line)) [
        | inl junk ↦ junk-Forwarded env line p junk
        | inr (msg, d) ↦
            let other : is_seek_request msg ≡ false = rw (d, is_seek) at h in
            elim (Bool-cases (is_request msg)) [
              | inr r ↦ not_request-Forwarded env line msg p d r
              | inl r ↦
                  subst (Forwarded line p) (sym (handle_client_message_request env line msg p d r))
                    (handle_request-Forwarded env line msg p r other)
            ]
      ]
