-- ===== src/Http/Sizes.antt =====
-- The bytes of what a request has collected from upstream.
use mcp_content_guard.Base.{ℕ, Option, none, some, if◌then◌else◌}
use mcp_content_guard.Base.Bytes.{Bytes}
use mcp_content_guard.Json.{Result, ok, err, Message, CallParams}
use mcp_content_guard.Intercept.Touches.{content_size}
use mcp_content_guard.Http.{Request, Network, Read, too_large, unread, complete, read_body}
use mcp_content_guard.Http.Handlers.{Context, Collected, do_upstream, seek_request, is_mcp_post}

module _ (context : Context) where
  open context use {setup, seek_result_tool, canonical, server}
  open setup use {codec}

  -- The bytes of the content of what is collected from upstream.
  unfoldable pub collected_size : Result Collected → ℕ
  unfolding content_size
  collected_size (err e) = 0
  collected_size (ok resp) = elim (codec.decode_message resp.body) [
    | none ↦ 0
    | some msg ↦ content_size setup msg
  ]

  unfoldable pub sought_size : Network → Request → Bytes → Option CallParams → ℕ
  unfolding collected_size
  sought_size net r body (some params) = 0
  sought_size net r body none = collected_size (do_upstream context net r body).0

  unfoldable pub message_size : Network → Request → Bytes → Option Message → ℕ
  unfolding sought_size
  message_size net r body none = 0
  message_size net r body (some msg) = sought_size net r body (seek_request context msg)

  unfoldable pub read_size : Network → Request → Read → ℕ
  unfolding message_size
  read_size net r too_large = 0
  read_size net r unread = 0
  read_size net r (complete body) = message_size net r body (codec.decode_message body)

  -- The bytes of the content of the result that is collected for a request, if it is forwarded.
  unfoldable pub request_size : Network → Request → ℕ
  unfolding read_size
  request_size net r =
      if is_mcp_post context r then read_size net r (read_body server.max_body_bytes r.body) else 0
