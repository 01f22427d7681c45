-- ===== src/Bench/Replies.antt =====
-- bench/run.go: which line of a process answers a call.
use mcp_content_guard.Base.{
  ℕ, ◌≡◌, refl, ap, ◌∙◌, length, true, false, Option, none, some, List, [], ◌∷◌, ◌++◌, All, map,
}
use mcp_content_guard.Base.Bytes.{Bytes, codes}
use mcp_content_guard.Json.{Result, ok, err, Members, object}
use mcp_content_guard.Bench.Connection.{
  Scanned, line, Connection, start_mcp, Sent, AnyCodec, find_member, is_present, send, recv,
  initialize, initialize_connection, round_trip, call_tool, tools_call,
}
use mcp_content_guard.Bench.Cases.{
  Runner, as_object, open_connection, result_of, measure_direct, run_direct,
}

-- The replies.
module _ (codec : AnyCodec) where
  -- A line with a method and no id.
  pub record IsNote (l : Bytes) : Type 0 where
    pub members : Members
    pub decoded : codec.decode l ≡ ok members
    pub no_id : is_present (find_member (codes "id") members) ≡ false
    pub method : is_present (find_member (codes "method") members) ≡ true

  recv-note :
      (timeout l : Bytes) (rest : List Scanned)
      → IsNote l
      → recv codec timeout (line l ∷ rest) ≡ recv codec timeout rest
  unfolding recv
  recv-note timeout l rest n = rw (n.decoded, recv) (rw (n.no_id) (rw (n.method) refl))

  recv-notes :
      (timeout : Bytes) (notes : List Bytes) (rest : List Scanned)
      → All IsNote notes
      → recv codec timeout (map line notes ++ rest) ≡ recv codec timeout rest
  recv-notes timeout [] rest h = refl
  recv-notes timeout (l ∷ notes) rest (n, h) =
      recv-note timeout l (map line notes ++ rest) n ∙ recv-notes timeout notes rest h

  recv_id :
      (timeout l : Bytes) (rest : List Scanned) (msg : Members)
      → codec.decode l ≡ ok msg
      → is_present (find_member (codes "id") msg) ≡ true
      → recv codec timeout (line l ∷ rest) ≡ (rest, ok msg)
  unfolding recv
  recv_id timeout l rest msg h k = rw (h, recv) (rw k refl)

  -- Notifications, and then a reply.
  pub record Turn (before : List Scanned) (reply : Members) (behind : List Scanned) : Type 0 where
    pub notes : List Bytes
    pub are_notes : All IsNote notes
    pub last : Bytes
    pub lines : before ≡ map line notes ++ (line last ∷ behind)
    pub decoded : codec.decode last ≡ ok reply
    pub id : is_present (find_member (codes "id") reply) ≡ true

  pub recv-Turn :
      (timeout : Bytes) (before behind : List Scanned) (reply : Members)
      → Turn before reply behind
      → recv codec timeout before ≡ (behind, ok reply)
  recv-Turn timeout before behind reply t =
      ap (recv codec timeout) t.lines
      ∙ (recv-notes timeout t.notes (line t.last ∷ behind) t.are_notes
          ∙ recv_id timeout t.last behind reply t.decoded t.id)

  -- A connection on which no write fails.
  abbrev pub open_on : List Scanned → List Sent → Connection
  open_on lines sent = record { write_errors = []; scanned = lines; sent = sent }

  pub round_trip-Turn :
      (timeout : Bytes) (m : Sent) (sent : List Sent) (before behind : List Scanned)
      (reply : Members)
      → Turn before reply behind
      → round_trip codec timeout m (open_on before sent)
        ≡ (open_on behind (sent ++ (m ∷ [])), ok reply)
  unfolding round_trip send
  round_trip-Turn timeout m sent before behind reply t =
      rw (recv-Turn timeout before behind reply t) refl

  initialize-Turn :
      (before behind : List Scanned) (reply : Members)
      → Turn before reply behind
      → initialize_connection codec (open_on before []) ≡ (open_on behind (initialize ∷ []), none)
  unfolding initialize_connection round_trip send
  initialize-Turn before behind reply t = rw (recv-Turn (codes "20s") before behind reply t) refl

  pub call_tool-Turn :
      (id : ℕ) (name arguments : Bytes) (sent : List Sent) (before behind : List Scanned)
      (reply : Members)
      → Turn before reply behind
      → call_tool codec id name arguments (open_on before sent)
        ≡ (open_on behind (sent ++ (tools_call id name arguments ∷ [])), ok reply)
  unfolding call_tool
  call_tool-Turn id name arguments sent before behind reply t =
      round_trip-Turn (codes "1m0s") (tools_call id name arguments) sent before behind reply t

module _ (runner : Runner) where
  open runner use {codec, quote, spawn}

  -- A process that starts, and answers `initialize`.
  pub record Starts (command : List Bytes) (lines : List Scanned) : Type 0 where
    pub scanned : List Scanned
    pub launched : start_mcp quote spawn command ≡ some (ok (open_on codec scanned []))
    pub greeting : Members
    pub greets : Turn codec scanned greeting lines

  -- What `open_connection` makes of the call of `initialize_connection`.
  opened : Connection × Option Bytes → Result Connection
  opened (c, failure) = elim failure [ none ↦ ok c | some e ↦ err (codes "initialize: " ++ e) ]

  pub open_connection-Starts :
      (command : List Bytes) (lines : List Scanned)
      → Starts command lines
      → open_connection runner command ≡ some (ok (open_on codec lines (initialize ∷ [])))
  unfolding open_connection opened
  open_connection-Starts command lines s =
      rw (s.launched, open_connection)
        (ap (λ o. some (opened o)) (initialize-Turn codec s.scanned lines s.greeting s.greets))

  -- A reply with a result.
  abbrev pub HasResult : Members → Members → Type 0
  HasResult reply result = find_member (codes "result") reply ≡ some (object result)

  pub result_of-HasResult :
      (complaint : Bytes) (reply result : Members)
      → HasResult reply result
      → result_of runner complaint reply ≡ ok result
  unfolding result_of as_object
  result_of-HasResult complaint reply result h = rw (h, result_of) refl

  -- A measurement without the proxy.
  pub run_direct_lem :
      (command : List Bytes) (tool arguments : Bytes) (lines rest : List Scanned)
      (reply result : Members)
      → Starts command lines
      → Turn codec lines reply rest
      → HasResult reply result
      → run_direct runner command tool arguments
        ≡ some (ok (length (codec.encode (find_member (codes "content") result))))
  unfolding run_direct measure_direct
  run_direct_lem command tool arguments lines rest reply result s t h =
      rw (open_connection-Starts command lines s, run_direct)
        (rw
          (
            call_tool-Turn codec 1 tool arguments (initialize ∷ []) lines rest reply t,
            measure_direct,
          )
          (rw (result_of-HasResult (codes "unexpected response: ") reply result h) refl))
