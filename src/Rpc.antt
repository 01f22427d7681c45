-- ===== src/Rpc.antt =====
-- internal/rpc/rpc.go: what kind of message it is, and the replies that the proxy makes itself.
use mcp_content_guard.Base.{Bool, true, false, not, ◌&&◌, none, some, []}
use mcp_content_guard.Base.Bytes.{Bytes, codes, bytes_eq}
use mcp_content_guard.Json.{
  Value, Message, Codec, null, bool, string, array, object, nil, cons, end, member,
}

-- The test `v == nil` on an `any`.
unfoldable pub is_nil : Value → Bool
is_nil null = true
is_nil _ = false

unfoldable pub is_request : Message → Bool
unfolding is_nil bytes_eq
is_request m = not (bytes_eq m.method []) && not (is_nil m.id)

unfoldable pub is_notification : Message → Bool
unfolding is_nil bytes_eq
is_notification m = not (bytes_eq m.method []) && is_nil m.id

unfoldable pub is_response : Message → Bool
unfolding is_nil bytes_eq
is_response m = bytes_eq m.method [] && not (is_nil m.id)

-- A `block` struct.
text_block : Bytes → Value
text_block text =
    object (member (codes "type") (string (codes "text")) (member (codes "text") (string text) end))

-- A `resp` struct round a `result` struct.
response : Value → Value → Value
response id result = object (
    member (codes "jsonrpc") (string (codes "2.0"))
      (member (codes "id") id (member (codes "result") result end)))

unfoldable pub text_result : Value → Bytes → Value
unfolding text_block response
text_result id text =
    response id (object (member (codes "content") (array (cons (text_block text) nil)) end))

unfoldable pub error_result : Value → Bytes → Value
unfolding text_block response
error_result id text = response id (
    object (
      member (codes "content") (array (cons (text_block text) nil))
        (member (codes "isError") (bool true) end)))

-- `b, _ := json.Marshal(v)`: nil if there is an error
unfoldable pub encode_or_nil : Codec → Value → Bytes
encode_or_nil codec v = elim (codec.encode_value v) [ none ↦ [] | some b ↦ b ]

unfoldable pub encode_text_result : Codec → Value → Bytes → Bytes
unfolding encode_or_nil text_result
encode_text_result codec id text = encode_or_nil codec (text_result id text)

unfoldable pub encode_error_result : Codec → Value → Bytes → Bytes
unfolding encode_or_nil error_result
encode_error_result codec id text = encode_or_nil codec (error_result id text)
