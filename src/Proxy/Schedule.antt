-- ===== src/Proxy/Schedule.antt =====
-- Whole executions: any interleaving of the two goroutines' handler calls.
use mcp_content_guard.Base.{
  ℕ, suc, ◌+◌, ◌≡◌, sym, ap, ◌∙◌, List, [], ◌∷◌, ◌++◌, append_assoc, append-nil, arith, inl, inr,
  Bool-cases, length, length-append, if◌then◌else◌,
}
use mcp_content_guard.Base.Bytes.{Bytes}
use mcp_content_guard.Intercept.{Environment, Setup}
use mcp_content_guard.Proxy.{Proxy, handle_client_message, handle_upstream_message}
use mcp_content_guard.Proxy.Traffic.{
  is_seek, handle_client_message-Answered, handle_client_message-Forwarded,
}
use mcp_content_guard.Proxy.Relay.{handle_upstream_message-Relayed}

-- A line that one of the goroutines has read, with what its handler meets.
pub data Event : Type 0 where
  from_client from_upstream : Environment → Bytes → Event

module _ (setup : Setup) (tool : Bytes) where
  unfoldable pub step : Event → Proxy → Proxy
  step (from_client env line) p = handle_client_message setup tool env line p
  step (from_upstream env line) p = handle_upstream_message setup tool env line p

  unfoldable pub run : List Event → Proxy → Proxy
  unfolding step
  run [] p = p
  run (e ∷ es) p = run es (step e p)

  -- The client's lines that are no `seek_result` calls, in order.
  pub passed_on : List Event → List Bytes
  passed_on [] = []
  passed_on (from_client env line ∷ es) =
      let rest = passed_on es in if is_seek setup tool line then rest else line ∷ rest
  passed_on (from_upstream env line ∷ es) = passed_on es

  -- How many lines the client is owed.
  pub owed : List Event → ℕ
  owed [] = 0
  owed (from_client env line ∷ es) =
      let rest = owed es in if is_seek setup tool line then suc rest else rest
  owed (from_upstream env line ∷ es) = suc (owed es)

  -- However the goroutines interleave, the upstream server gets the client's lines as they are and
  -- in order, without the `seek_result` calls; and the client gets one line for each line of the
  -- server and for each `seek_result` call.
  pub run-traffic :
      (es : List Event) (p : Proxy)
      → ((run es p).to_upstream ≡ p.to_upstream ++ passed_on es)
        × (length (run es p).to_client ≡ length p.to_client + owed es)
  unfolding run passed_on owed
  run-traffic [] p = (sym (append-nil p.to_upstream), omega arith)
  run-traffic (from_upstream env line ∷ es) p =
      let r = handle_upstream_message-Relayed setup tool env line p in
      let (ups, clients) = run-traffic es (handle_upstream_message setup tool env line p) in
      (
        ups ∙ ap (λ l. l ++ passed_on es) r.to_upstream,
        omega (
          arith,
          clients,
          ap (length {0}) r.to_client,
          length-append {0} p.to_client (r.line ∷ []),
        ),
      )
  run-traffic (from_client env line ∷ es) p =
      let (ups, clients) = run-traffic es (handle_client_message setup tool env line p) in
      elim (Bool-cases (is_seek setup tool line)) [
        | inl seek ↦
            let r = handle_client_message-Answered setup tool env line p seek in
            rw seek (
              ups ∙ ap (λ l. l ++ passed_on es) r.to_upstream,
              omega (
                arith,
                clients,
                ap (length {0}) r.to_client,
                length-append {0} p.to_client (r.reply ∷ []),
              ),
            )
        | inr other ↦
            let r = handle_client_message-Forwarded setup tool env line p other in
            rw other (
              ups
                  ∙ ap (λ l. l ++ passed_on es) r.to_upstream
                  ∙ append_assoc p.to_upstream (line ∷ []) (passed_on es),
              omega (arith, clients, ap (length {0}) r.to_client),
            )
      ]
