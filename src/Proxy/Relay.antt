-- ===== src/Proxy/Relay.antt =====
-- The lines of the upstream server: each makes one line for the client.
use mcp_content_guard.Base.{
  ◌≡◌, refl, Bool, true, false, Option, none, some, [], ◌∷◌, ◌++◌, if◌then◌else◌,
}
use mcp_content_guard.Base.Bytes.{Bytes, codes, bytes_eq}
use mcp_content_guard.Base.Dictionary.{lookup, delete}
use mcp_content_guard.Json.{Result, ok, err, Message}
use mcp_content_guard.Rpc.{is_notification, is_response}
use mcp_content_guard.Schema.{inject_seek_result}
use mcp_content_guard.Intercept.{State, Environment, Setup, maybe_cache}
use mcp_content_guard.Proxy.{Proxy, send, id_key, handle_response, handle_upstream_message}

-- One more line for the client, none for the server.
pub record Relayed (p q : Proxy) : Type 0 where
  pub line : Bytes
  pub to_client : q.to_client ≡ p.to_client ++ (line ∷ [])
  pub to_upstream : q.to_upstream ≡ p.to_upstream

module _ (line : Bytes) (p : Proxy) where
  send-Relayed : (s : State) (b : Bytes) → Relayed p (send b (record p { shared = s }))
  unfolding send
  send-Relayed s b = record { line = b; to_client = refl; to_upstream = refl }

  stub-Relayed :
      (s : State) (stub : Option Bytes)
      → Relayed p (elim stub [
        | none ↦ send line (record p { shared = s })
        | some b ↦ send b (record p { shared = s })
      ])
  stub-Relayed s none = send-Relayed s line
  stub-Relayed s (some b) = send-Relayed s b

  encoded-Relayed :
      (b : Option Bytes) → Relayed p (elim b [ none ↦ send line p | some b' ↦ send b' p ])
  encoded-Relayed none = send-Relayed p.shared line
  encoded-Relayed (some b) = send-Relayed p.shared b

module _ (setup : Setup) (tool : Bytes) where
  list-Relayed :
      (line : Bytes) (msg : Message) (p : Proxy) (modified : Result Bytes)
      → Relayed p (elim modified [
        | err e ↦ send line p
        | ok result ↦ elim (setup.codec.encode_message (record msg { result = result })) [
          | none ↦ send line p
          | some b ↦ send b p
        ]
      ])
  list-Relayed line msg p (err e) = send-Relayed line p p.shared line
  list-Relayed line msg p (ok result) = encoded-Relayed line p _

  if-Relayed :
      (b : Bool) (p q r : Proxy) → Relayed p q → Relayed p r → Relayed p (if b then q else r)
  if-Relayed true p q r h k = h
  if-Relayed false p q r h k = k

  handle_response-Relayed :
      (env : Environment) (line : Bytes) (msg req : Message) (p : Proxy)
      → Relayed p (handle_response setup tool env line msg req p)
  unfolding handle_response
  handle_response-Relayed env line msg req p =
      let (shared', stub) = maybe_cache setup env msg p.shared in
      if-Relayed (bytes_eq req.method (codes "tools/list")) p _ _
        (list-Relayed line msg p (inject_seek_result setup.codec tool msg.result))
        (if-Relayed (bytes_eq req.method (codes "tools/call")) p _ _
          (stub-Relayed line p shared' stub) (send-Relayed line p p.shared line))

  pending-Relayed :
      (env : Environment) (line : Bytes) (msg : Message) (p : Proxy) (found : Option Message)
      → Relayed p (elim found [
        | none ↦ send line p
        | some req ↦
            handle_response setup tool env line msg req
              (record p { pending = delete (id_key setup tool msg.id) p.pending })
      ])
  pending-Relayed env line msg p none = send-Relayed line p p.shared line
  pending-Relayed env line msg p (some req) =
      let r =
        handle_response-Relayed env line msg req
          (record p { pending = delete (id_key setup tool msg.id) p.pending }) in
      record { line = r.line; to_client = r.to_client; to_upstream = r.to_upstream }

  decoded-Relayed :
      (env : Environment) (line : Bytes) (p : Proxy) (decoded : Option Message)
      → Relayed p (elim decoded [
        | none ↦ send line p
        | some msg ↦
            if is_notification msg
            then send line p
            else if is_response msg
            then (elim (lookup (id_key setup tool msg.id) p.pending) [
              | none ↦ send line p
              | some req ↦
                  handle_response setup tool env line msg req
                    (record p { pending = delete (id_key setup tool msg.id) p.pending })
            ])
            else send line p
      ])
  decoded-Relayed env line p none = send-Relayed line p p.shared line
  decoded-Relayed env line p (some msg) =
      if-Relayed (is_notification msg) p _ _ (send-Relayed line p p.shared line) (
        if-Relayed (is_response msg) p _ _
          (pending-Relayed env line msg p (lookup (id_key setup tool msg.id) p.pending))
          (send-Relayed line p p.shared line))

  -- Every line of the upstream server makes one line for the client, and none for the server.
  pub handle_upstream_message-Relayed :
      (env : Environment) (line : Bytes) (p : Proxy)
      → Relayed p (handle_upstream_message setup tool env line p)
  unfolding handle_upstream_message
  handle_upstream_message-Relayed env line p =
      decoded-Relayed env line p (setup.codec.decode_message line)
