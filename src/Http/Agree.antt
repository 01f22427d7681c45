-- ===== src/Http/Agree.antt =====
-- The two transports agree on responses: internal/httpserver/server.go against
-- internal/proxy/proxy.go.
use mcp_content_guard.Base.{
  ◌≡◌, refl, Bool, true, false, Option, none, some, [], ◌∷◌, ◌++◌, if◌then◌else◌,
}
use mcp_content_guard.Base.Bytes.{Bytes, codes, bytes_eq}
use mcp_content_guard.Json.{Result, ok, err, Message}
use mcp_content_guard.Schema.{inject_seek_result}
use mcp_content_guard.Intercept.{State, Environment, maybe_cache}
use mcp_content_guard.Proxy.{Proxy, send, handle_response}
use mcp_content_guard.Http.Handlers.{Context, intercept_response}

-- A line for the client, and the state behind it.
record Sends (p q : Proxy) (r : State × Bytes) : Type 0 where
  pub to_client : q.to_client ≡ p.to_client ++ (r.1 ∷ [])
  pub shared : q.shared ≡ r.0

module _ (line : Bytes) (p : Proxy) where
  send-Sends : (s : State) (b : Bytes) → Sends p (send b (record p { shared = s })) (s, b)
  unfolding send
  send-Sends s b = record { to_client = refl; shared = refl }

  stub-Sends :
      (s : State) (stub : Option Bytes)
      → Sends p
          (elim stub [
            | none ↦ send line (record p { shared = s })
            | some b ↦ send b (record p { shared = s })
          ])
          (elim stub [ none ↦ (s, line) | some b ↦ (s, b) ])
  stub-Sends s none = send-Sends s line
  stub-Sends s (some b) = send-Sends s b

  encoded-Sends :
      (encoded : Option Bytes)
      → Sends p
          (elim encoded [ none ↦ send line p | some b ↦ send b p ])
          (elim encoded [ none ↦ (p.shared, line) | some b ↦ (p.shared, b) ])
  encoded-Sends none = send-Sends p.shared line
  encoded-Sends (some b) = send-Sends p.shared b

  list-Sends :
      (encode : Bytes → Option Bytes) (modified : Result Bytes)
      → Sends p
          (elim modified [
            | err e ↦ send line p
            | ok result ↦ elim (encode result) [ none ↦ send line p | some b ↦ send b p ]
          ])
          (elim modified [
            | err e ↦ (p.shared, line)
            | ok result ↦ elim (encode result) [ none ↦ (p.shared, line) | some b ↦ (p.shared, b) ]
          ])
  list-Sends encode (err e) = send-Sends p.shared line
  list-Sends encode (ok result) = encoded-Sends (encode result)

  if-Sends :
      (b : Bool) (q q' : Proxy) (r r' : State × Bytes)
      → Sends p q r
      → Sends p q' r'
      → Sends p (if b then q else q') (if b then r else r')
  if-Sends true q q' r r' h k = h
  if-Sends false q q' r r' h k = k

module _ (context : Context) where
  open context use {setup, seek_result_tool}

  response-Sends :
      (env : Environment) (line : Bytes) (resp req : Message) (p : Proxy)
      → Sends p
          (handle_response setup seek_result_tool env line resp req p)
          (intercept_response context env req resp line p.shared)
  unfolding handle_response intercept_response
  response-Sends env line resp req p =
      let (shared', stub) = maybe_cache setup env resp p.shared in
      if-Sends line p (bytes_eq req.method (codes "tools/list")) _ _ _ _
        (list-Sends line p (λ m. setup.codec.encode_message (record resp { result = m }))
          (inject_seek_result setup.codec seek_result_tool resp.result))
        (if-Sends line p (bytes_eq req.method (codes "tools/call")) _ _ _ _
          (stub-Sends line p shared' stub) (send-Sends line p p.shared line))

  -- For the same request and response the body of an HTTP reply is the line that the stdio proxy sends
  -- to the client, and the cache and the statistics are the same behind both.
  pub handle_response-intercept_response :
      (env : Environment) (body : Bytes) (resp req : Message) (p : Proxy)
      → ((handle_response setup seek_result_tool env body resp req p).to_client
          ≡ p.to_client ++ ((intercept_response context env req resp body p.shared).1 ∷ []))
        × ((handle_response setup seek_result_tool env body resp req p).shared
            ≡ (intercept_response context env req resp body p.shared).0)
  handle_response-intercept_response env body resp req p =
      let r = response-Sends env body resp req p in (r.to_client, r.shared)
