-- ===== src/Proxy/Replies.antt =====
-- A response of the upstream server reaches the client as a response with the same id.
use mcp_content_guard.Base.{
  ◌≡◌, refl, ap₂, ◌∙◌, Bool, true, false, not, ◌&&◌, Option, none, some, [], ◌∷◌, ◌++◌,
  if◌then◌else◌,
}
use mcp_content_guard.Base.Bytes.{Bytes, codes, bytes_eq}
use mcp_content_guard.Base.Dictionary.{lookup, delete}
use mcp_content_guard.Json.{Result, ok, err, Message, Codec}
use mcp_content_guard.Rpc.{is_nil, is_notification, is_response}
use mcp_content_guard.Schema.{inject_seek_result}
use mcp_content_guard.Intercept.{State, Environment, Setup, maybe_cache}
use mcp_content_guard.Intercept.Changed.{IsChanged, maybe_cache-IsChanged}
use mcp_content_guard.Proxy.{Proxy, send, id_key, handle_response, handle_upstream_message}

module _ (codec : Codec) where
  -- A line that decodes to a response with the id of a message.
  pub record IsReply (line : Bytes) (msg : Message) : Type 0 where
    pub reply : Message
    pub decoded : codec.decode_message line ≡ some reply
    pub same_id : reply.id ≡ msg.id
    pub response : is_response reply ≡ true

  -- What json.Marshal writes for a decoded message with another result is read back with the same
  -- id and the same method.
  abbrev pub ReadsMessages : Type 0
  ReadsMessages =
      (read line result : Bytes) (m : Message)
      → codec.decode_message read ≡ some m
      → codec.encode_message (record m { result = result }) ≡ some line
      → (m' : Message) × (codec.decode_message line ≡ some m')
        × (m'.id ≡ m.id)
        × (m'.method ≡ m.method)

  is_response_same :
      (m m' : Message)
      → m'.id ≡ m.id
      → m'.method ≡ m.method
      → is_response m ≡ true
      → is_response m' ≡ true
  unfolding is_response
  is_response_same m m' i k h = ap₂ (λ method id. bytes_eq method [] && not (is_nil id)) k i ∙ h

  pub itself-IsReply :
      (line : Bytes) (msg : Message)
      → codec.decode_message line ≡ some msg
      → is_response msg ≡ true
      → IsReply line msg
  itself-IsReply line msg d r = record { reply = msg; decoded = d; same_id = refl; response = r }

  -- Another result in a response.
  pub encoded-IsReply :
      ReadsMessages
      → (read line result : Bytes) (msg : Message) → codec.decode_message read ≡ some msg
      → is_response msg ≡ true
      → codec.encode_message (record msg { result = result }) ≡ some line
      → IsReply line msg
  encoded-IsReply reads read line result msg d r e =
      let (m, d', i, k) = reads read line result msg d e in
      record { reply = m; decoded = d'; same_id = i; response = is_response_same msg m i k r }

module _ (setup : Setup) (tool : Bytes) where
  -- One more line for the client, which replies to a message.
  pub record Replied (p q : Proxy) (msg : Message) : Type 0 where
    pub line : Bytes
    pub to_client : q.to_client ≡ p.to_client ++ (line ∷ [])
    pub reply : IsReply setup.codec line msg

  module _ (reads : ReadsMessages setup.codec) (line : Bytes) (msg : Message)
      (decoded : setup.codec.decode_message line ≡ some msg)
      (response : is_response msg ≡ true) where
    same-Replied : (p : Proxy) (s : State) → Replied p (send line (record p { shared = s })) msg
    unfolding send
    same-Replied p s = record {
      line = line;
      to_client = refl;
      reply = itself-IsReply setup.codec line msg decoded response;
    }

    changed-Replied :
        (p : Proxy) (s : State) (b result : Bytes)
        → setup.codec.encode_message (record msg { result = result }) ≡ some b
        → Replied p (send b (record p { shared = s })) msg
    unfolding send
    changed-Replied p s b result e = record {
      line = b;
      to_client = refl;
      reply = encoded-IsReply setup.codec reads line b result msg decoded response e;
    }

    if-Replied :
        (b : Bool) (p q r : Proxy)
        → Replied p q msg
        → Replied p r msg
        → Replied p (if b then q else r) msg
    if-Replied true p q r h k = h
    if-Replied false p q r h k = k

    stub-Replied :
        (p : Proxy) (s : State) (stub : Option Bytes)
        → IsChanged setup msg stub
        → Replied p
            (elim stub [
              | none ↦ send line (record p { shared = s })
              | some b ↦ send b (record p { shared = s })
            ])
            msg
    stub-Replied p s none h = same-Replied p s
    stub-Replied p s (some b) h = let (result, e) = h b refl in changed-Replied p s b result e

    list-Replied :
        (p : Proxy) (result : Bytes) (encoded : Option Bytes)
        → setup.codec.encode_message (record msg { result = result }) ≡ encoded
        → Replied p (elim encoded [ none ↦ send line p | some b ↦ send b p ]) msg
    list-Replied p result none e = same-Replied p p.shared
    list-Replied p result (some b) e = changed-Replied p p.shared b result e

    injected-Replied :
        (p : Proxy) (modified : Result Bytes)
        → Replied p
            (elim modified [
              | err e ↦ send line p
              | ok result ↦ elim (setup.codec.encode_message (record msg { result = result })) [
                | none ↦ send line p
                | some b ↦ send b p
              ]
            ])
            msg
    injected-Replied p (err e) = same-Replied p p.shared
    injected-Replied p (ok result) = list-Replied p result _ refl

    handle_response-Replied :
        (env : Environment) (req : Message) (p : Proxy)
        → Replied p (handle_response setup tool env line msg req p) msg
    unfolding handle_response
    handle_response-Replied env req p =
        let (shared', stub) = maybe_cache setup env msg p.shared in
        if-Replied (bytes_eq req.method (codes "tools/list")) p _ _
          (injected-Replied p (inject_seek_result setup.codec tool msg.result))
          (if-Replied (bytes_eq req.method (codes "tools/call")) p _ _
            (stub-Replied p shared' stub (maybe_cache-IsChanged setup env msg p.shared))
            (same-Replied p p.shared))

    pending-Replied :
        (env : Environment) (p : Proxy) (found : Option Message)
        → Replied p
            (elim found [
              | none ↦ send line p
              | some req ↦
                  handle_response setup tool env line msg req
                    (record p { pending = delete (id_key setup tool msg.id) p.pending })
            ])
            msg
    pending-Replied env p none = same-Replied p p.shared
    pending-Replied env p (some req) =
        let r =
          handle_response-Replied env req
            (record p { pending = delete (id_key setup tool msg.id) p.pending }) in
        record { line = r.line; to_client = r.to_client; reply = r.reply }

    -- Every response of the upstream server reaches the client as one line that decodes to a
    -- response with the same id, whatever the proxy makes of it: with an injected tool, with a
    -- stub, or as it is. The hypothesis is that json.Unmarshal reads the id and the method back
    -- from what json.Marshal writes for the decoded message with another result.
    pub handle_upstream_message-Replied :
        (env : Environment) (p : Proxy)
        → Replied p (handle_upstream_message setup tool env line p) msg
    unfolding handle_upstream_message
    handle_upstream_message-Replied env p =
        rw (decoded, handle_upstream_message)
          (if-Replied (is_notification msg) p _ _ (same-Replied p p.shared) (
            if-Replied (is_response msg) p _ _
              (pending-Replied env p (lookup (id_key setup tool msg.id) p.pending))
              (same-Replied p p.shared)))
