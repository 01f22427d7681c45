-- ===== src/Proxy.antt =====
-- internal/proxy/proxy.go: the stdio proxy, between the lines of the client and those of the
-- upstream server.
--
-- `to_client` is what has been sent to the channel `out`, `to_upstream` what has been written to the
-- upstream's stdin, each line without the line feed that is written behind it. The two goroutines
-- take a lock for `pending` and for the cache, and share nothing else: an execution is a sequence of
-- handler calls, one for each line.
pub mod Lines
pub mod Framing
pub mod Traffic
pub mod Relay
pub mod Schedule
pub mod Pending
pub mod Retrieve
pub mod Touches
pub mod Retention
pub mod Memory
pub mod Replies
pub mod Answers
pub mod Machine
use mathlib.Core.List.{reverse}
use mcp_content_guard.Base.{
  ℕ, Bool, true, false, ◌&&◌, ◌||◌, Option, none, some, List, [], ◌∷◌, ◌++◌, ◌==◌, if◌then◌else◌,
}
use mcp_content_guard.Base.Bytes.{Bytes, codes, bytes_eq}
use mcp_content_guard.Base.Space.{trim_newlines}
use mcp_content_guard.Base.Dictionary.{Dictionary, lookup, delete, put}
use mcp_content_guard.Json.{Result, ok, err, Value, Message, CallParams}
use mcp_content_guard.Rpc.{is_request, is_notification, is_response, encode_or_nil}
use mcp_content_guard.Schema.{inject_seek_result}
use mcp_content_guard.Intercept.{State, Environment, Setup, maybe_cache, seek_result}

pub record Proxy : Type 0 where
  pub shared : State
  pub pending : Dictionary Message
  pub to_client : List Bytes
  pub to_upstream : List Bytes

-- The reading loop of both goroutines: `current` is the part of the line that is read, reversed.
-- The last line may end with the input.
unfoldable pub read_lines : Bytes → Bytes → List Bytes
read_lines current [] =
    let line = trim_newlines (reverse current) in if bytes_eq line [] then [] else line ∷ []
read_lines current (c ∷ input) =
    let line = trim_newlines (reverse (c ∷ current)) in
    let later = read_lines [] input in
    let longer = read_lines (c ∷ current) input in
    if c == 10 then (if bytes_eq line [] then later else line ∷ later) else longer

-- What the goroutine of the client's output writes for the lines of the channel, and `forward` for
-- those of the server: a line feed behind each.
unfoldable pub write_lines : List Bytes → Bytes
write_lines [] = []
write_lines (line ∷ lines) = line ++ 10 ∷ write_lines lines

unfoldable pub send : Bytes → Proxy → Proxy
send line p = record p { to_client = p.to_client ++ (line ∷ []) }

pub forward : Bytes → Proxy → Proxy
forward line p = record p { to_upstream = p.to_upstream ++ (line ∷ []) }

module _ (setup : Setup) (seek_result_tool : Bytes) where
  open setup use {codec}

  unfoldable pub id_key : Value → Bytes
  unfolding encode_or_nil
  id_key id = encode_or_nil codec id

  -- The parameters of a call of `seek_result`.
  unfoldable pub seek_params : Message → Option CallParams
  seek_params msg = elim (codec.decode_params msg.params) [
    | none ↦ none
    | some params ↦ if bytes_eq params.name (codes "seek_result") then some params else none
  ]

  unfoldable pub handle_request : Environment → Bytes → Message → Proxy → Proxy
  unfolding send forward
  handle_request env line msg p =
      let seek = if bytes_eq msg.method (codes "tools/call") then seek_params msg else none in
      elim seek [
        | some params ↦
            let (shared', reply) = seek_result setup env msg params.id params.filter p.shared in
            send reply (record p { shared = shared' })
        | none ↦ forward line (record p { pending = put (id_key msg.id) msg p.pending })
      ]

  unfoldable pub handle_client_message : Environment → Bytes → Proxy → Proxy
  unfolding handle_request
  handle_client_message env line p = elim (codec.decode_message line) [
    | none ↦ forward line p
    | some msg ↦
        if is_notification msg
        then forward line p
        else if is_request msg
        then handle_request env line msg p
        else forward line p
  ]

  -- A response to a request that was forwarded.
  unfoldable pub handle_response : Environment → Bytes → Message → Message → Proxy → Proxy
  unfolding send
  handle_response env line msg req p =
      let (shared', stub) = maybe_cache setup env msg p.shared in
      if bytes_eq req.method (codes "tools/list")
      then (elim (inject_seek_result codec seek_result_tool msg.result) [
        | err e ↦ send line p
        | ok modified ↦ elim (codec.encode_message (record msg { result = modified })) [
          | none ↦ send line p
          | some b ↦ send b p
        ]
      ])
      else if bytes_eq req.method (codes "tools/call")
      then (elim stub [
        | none ↦ send line (record p { shared = shared' })
        | some b ↦ send b (record p { shared = shared' })
      ])
      else send line p

  unfoldable pub handle_upstream_message : Environment → Bytes → Proxy → Proxy
  unfolding handle_response
  handle_upstream_message env line p = elim (codec.decode_message line) [
    | none ↦ send line p
    | some msg ↦
        let key = id_key msg.id in
        if is_notification msg
        then send line p
        else if is_response msg
        then (elim (lookup key p.pending) [
          | none ↦ send line p
          | some req ↦
              handle_response env line msg req (record p { pending = delete key p.pending })
        ])
        else send line p
  ]
