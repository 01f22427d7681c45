-- ===== src/Proxy/Memory.antt =====
-- The memory that the stdio proxy takes for cached contents, whatever both sides send.
use mcp_content_guard.Base.{ℕ, ◌≤◌, none, List, [], ◌∷◌, arith}
use mcp_content_guard.Base.Bytes.{Bytes}
use mcp_content_guard.Cache.Memory.{IsWithin, IsAddressable}
use mcp_content_guard.Intercept.{Setup}
use mcp_content_guard.Intercept.Touches.{Touches-IsWithin}
use mcp_content_guard.Proxy.{Proxy, handle_client_message, handle_upstream_message}
use mcp_content_guard.Proxy.Touches.{
  line_size, handle_upstream_message-Touches, handle_client_message-Touches,
}
use mcp_content_guard.Proxy.Retention.{DrawsUnused}
use mcp_content_guard.Proxy.Schedule.{Event, from_client, from_upstream, step, run}

module _ (setup : Setup) (tool : Bytes) where
  -- No content of a result of the server is larger.
  abbrev pub AllAtMost : ℕ → List Event → Type 0
  AllAtMost largest [] = Unit
  AllAtMost largest (from_client env line ∷ es) = AllAtMost largest es
  AllAtMost largest (from_upstream env line ∷ es) =
      (line_size setup tool (setup.codec.decode_message line) ≤ largest) × AllAtMost largest es

  -- Whatever both sides send in any order, the cached contents of the stdio proxy take no more bytes
  -- than the budget or than the largest content that the server sends, if they do so at the start and
  -- every id that is drawn is unused.
  pub run-IsWithin :
      (budget largest : ℕ) (es : List Event) (p : Proxy)
      → IsAddressable budget largest
      → IsWithin budget largest p.shared.cache
      → DrawsUnused setup tool es p
      → AllAtMost largest es
      → IsWithin budget largest (run setup tool es p).shared.cache
  unfolding run step
  run-IsWithin budget largest [] p a w draws small = w
  run-IsWithin budget largest (from_client env line ∷ es) p a w draws small =
      let q = handle_client_message setup tool env line p in
      run-IsWithin budget largest es q a
        (Touches-IsWithin budget largest a none 0 p.shared.cache q.shared.cache
          (handle_client_message-Touches setup tool env line p) (omega arith) tt w)
        draws small
  run-IsWithin budget largest (from_upstream env line ∷ es) p a w (unused, draws) (fits, small) =
      let q = handle_upstream_message setup tool env line p in
      run-IsWithin budget largest es q a
        (Touches-IsWithin budget largest a env.random _ p.shared.cache q.shared.cache
          (handle_upstream_message-Touches setup tool env line p) fits unused w)
        draws small
