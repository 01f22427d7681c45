-- ===== src/Http/Memory.antt =====
-- The memory that the HTTP server takes for cached contents, over any requests.
use mcp_content_guard.Base.{ℕ, ◌≤◌, List, [], ◌∷◌}
use mcp_content_guard.Cache.Memory.{IsWithin, IsAddressable}
use mcp_content_guard.Intercept.{State}
use mcp_content_guard.Intercept.Touches.{Touches-IsWithin}
use mcp_content_guard.Http.Handlers.{Context, serve_http}
use mcp_content_guard.Http.Sizes.{request_size}
use mcp_content_guard.Http.Touches.{serve_http-Touches}
use mcp_content_guard.Http.Sessions.{Incoming, serve_all, DrawsUnused}

module _ (context : Context) where
  -- No content of a result that is collected is larger.
  abbrev pub AllAtMost : ℕ → List Incoming → Type 0
  AllAtMost largest [] = Unit
  AllAtMost largest (i ∷ is) =
      (request_size context i.net i.request ≤ largest) × AllAtMost largest is

  -- Over any requests, the cached contents of the HTTP server take no more bytes than the budget or
  -- than the largest content that is collected from upstream, if they do so at the start and every id
  -- that is drawn is unused.
  pub serve_all-IsWithin :
      (budget largest : ℕ) (is : List Incoming) (s : State)
      → IsAddressable budget largest
      → IsWithin budget largest s.cache
      → DrawsUnused context is s
      → AllAtMost largest is
      → IsWithin budget largest (serve_all context is s).cache
  unfolding serve_all
  serve_all-IsWithin budget largest [] s a w draws small = w
  serve_all-IsWithin budget largest (i ∷ is) s a w (unused, draws) (fits, small) =
      let t = (serve_http context i.env i.net i.request s).shared in
      serve_all-IsWithin budget largest is t a
        (Touches-IsWithin budget largest a i.env.random _ s.cache t.cache
          (serve_http-Touches context i.env s i.net i.request) fits unused w)
        draws small
