-- ===== src/Bench/Connection.antt =====
-- bench/run.go: a connection to an MCP server, and the calls over it.
--
-- What a process does is a parameter: whether it starts, which writes to it fail, and what a scanner
-- gives of what it prints. After an error of a call the benchmark makes no further call. Decoding and
-- encoding JSON are parameters as well.
use mcp_content_guard.Base.{
  ℕ, Bool, true, false, not, ◌&&◌, Option, none, some, List, [], ◌∷◌, ◌++◌, if◌then◌else◌,
}
use mcp_content_guard.Base.Bytes.{Bytes, codes, bytes_eq}
use mcp_content_guard.Json.{Result, ok, err, Value, Members, end, member}

-- One wait for the next line: a line, the end or the error of the scanner, or no line in time.
pub data Scanned : Type 0 where
  line : Bytes → Scanned
  stops : Option Bytes → Scanned
  silent : Scanned

pub data Sent : Type 0 where
  initialize : Sent
  tools_call : ℕ → Bytes → Bytes → Sent

-- A started process: the error of each write, and each wait.
pub record Connection : Type 0 where
  pub write_errors : List (Option Bytes)
  pub scanned : List Scanned
  pub sent : List Sent

-- What starting a process meets: the errors of its pipes and of the start, and what it then does.
pub record Spawned : Type 0 where
  pub stdin_error : Option Bytes
  pub stdout_error : Option Bytes
  pub start_error : Option Bytes
  pub connection : Connection

-- `startMCP`, for the verb %q and a process; `none` for the panic of a command without a name.
unfoldable pub start_mcp :
    (Bytes → Bytes) → (List Bytes → Spawned) → List Bytes → Option (Result Connection)
start_mcp quote spawn [] = none
start_mcp quote spawn (name ∷ args) =
    let p = spawn (name ∷ args) in
    some (elim p.stdin_error [
      | some e ↦ err e
      | none ↦ elim p.stdout_error [
        | some e ↦ err e
        | none ↦ elim p.start_error [
          | some e ↦ err (codes "start " ++ (quote name ++ (codes ": " ++ e)))
          | none ↦ ok p.connection
        ]
      ]
    ])

-- Encoding and decoding of the `any` values of the benchmark.
pub record AnyCodec : Type 0 where
  -- a map[string]any
  pub decode : Bytes → Result Members
  -- the bytes of json.Marshal, none for an error
  pub encode : Option Value → Bytes
  -- the verb %v on a response
  pub print : Members → Bytes

-- m[k], with its second result
unfoldable pub find_member : Bytes → Members → Option Value
find_member k end = none
find_member k (member j v ms) = let rest = find_member k ms in if bytes_eq j k then some v else rest

unfoldable pub is_present : Option Value → Bool
is_present none = false
is_present (some v) = true

-- `send`; a list of write errors that is over means that the write succeeds.
unfoldable pub send : Sent → Connection → Connection × Option Bytes
send m c =
    let c' = record c { sent = c.sent ++ (m ∷ []) } in
    elim c.write_errors [ [] ↦ (c', none) | e ∷ es ↦ (record c' { write_errors = es }, e) ]

-- `recv`, with the text of the timeout; nothing more to come is silence.
unfoldable pub recv : AnyCodec → Bytes → List Scanned → List Scanned × Result Members
unfolding find_member is_present
recv codec timeout [] = ([], err (codes "timeout after " ++ timeout))
recv codec timeout (silent ∷ rest) = (rest, err (codes "timeout after " ++ timeout))
recv codec timeout (stops none ∷ rest) = (rest, err (codes "connection closed"))
recv codec timeout (stops (some e) ∷ rest) = (rest, err e)
recv codec timeout (line l ∷ rest) =
    let later = recv codec timeout rest in
    elim (codec.decode l) [
      | err e ↦ (rest, err e)
      | ok msg ↦
          if not (is_present (find_member (codes "id") msg))
            && is_present (find_member (codes "method") msg)
          then later
          else (rest, ok msg)
    ]

-- A send, and then a `recv` if the send succeeds.
unfoldable pub round_trip : AnyCodec → Bytes → Sent → Connection → Connection × Result Members
unfolding send recv
round_trip codec timeout m c =
    let (c', failure) = send m c in
    let (rest, reply) = recv codec timeout c'.scanned in
    elim failure [ some e ↦ (c', err e) | none ↦ (record c' { scanned = rest }, reply) ]

unfoldable pub initialize_connection : AnyCodec → Connection → Connection × Option Bytes
unfolding round_trip
initialize_connection codec c =
    let (c', reply) = round_trip codec (codes "20s") initialize c in
    (c', elim reply [ ok msg ↦ none | err e ↦ some e ])

unfoldable pub call_tool : AnyCodec → ℕ → Bytes → Bytes → Connection → Connection × Result Members
unfolding round_trip
call_tool codec id name arguments c =
    round_trip codec (codes "1m0s") (tools_call id name arguments) c
