-- ===== src/Main/Program/Sessions.antt =====
-- main.go: the memory that a running program takes for cached contents.
use mcp_content_guard.Base.{ℕ, ◌<◌, ◌^◌, ◌≡◌, sym, ap, subst, some, List, [], arith}
use mcp_content_guard.Base.Bytes.{Bytes}
use mcp_content_guard.Base.Int64.{Int64}
use mcp_content_guard.Stats.{TotalsCodec}
use mcp_content_guard.Cache.Held.{AreDistinct}
use mcp_content_guard.Cache.Memory.{
  IsWithin, HoldsAtMost, IsWithin-HoldsAtMost, IsAddressable, budget_of, new_with_capacity-IsWithin,
}
use mcp_content_guard.Intercept.{Setup, State}
use mcp_content_guard.Proxy.{Proxy}
use mcp_content_guard.Proxy.Schedule.{Event, run}
use mcp_content_guard.Proxy.Retention
use mcp_content_guard.Proxy.Memory
use mcp_content_guard.Http.Construct.{Built}
use mcp_content_guard.Http.Handlers.{Context}
use mcp_content_guard.Http.Sessions.{Incoming, serve_all}
use mcp_content_guard.Http.Sessions
use mcp_content_guard.Http.Memory as HttpMemory
use mcp_content_guard.Main.{Config, Flags, override, overridden}
use mcp_content_guard.Main.Launch.{read_config}
use mcp_content_guard.Main.Program.{World, listens, pipes, state_of, main}
use mcp_content_guard.Main.Program.Expected.{read-IsExpected}
use mcp_content_guard.Main.Program.Started.{IsExpected-cache}

-- The sizes that the flags and the configuration give are int64 values.
pub record HasInt64Sizes (flags : Flags) (cfg : Config) : Type 0 where
  pub flag : flags.cache_max_bytes < 2 ^ 64
  pub configured : cfg.cache_max_bytes < 2 ^ 64

override-IsInt64 : (a b : Int64) → a < 2 ^ 64 → b < 2 ^ 64 → override a b < 2 ^ 64
unfolding override
override-IsInt64 a b h k = ground arith

-- The budget of the cache for the flags and the configuration.
abbrev pub budget : Flags → Config → ℕ
budget flags cfg = budget_of (override flags.cache_max_bytes cfg.cache_max_bytes)

-- `proxy.New`
abbrev pub at_start : State → Proxy
at_start s = record { shared = s; pending = []; to_client = []; to_upstream = [] }

-- The server with its threshold.
abbrev pub serving : Context → Built → Int64 → Context
serving context built threshold = record context {
  setup = record context.setup { threshold = threshold };
  server = built.server;
}

module _ (totals_codec : TotalsCodec) (world : World) (path : Bytes) (flags : Flags)
    (args : List Bytes) (cfg : Config)
    (read : read_config world.unmarshal path world.file ≡ some cfg)
    (sizes : HasInt64Sizes flags cfg) where
  started-IsWithin :
      (largest : ℕ) (s : State)
      → state_of (main totals_codec world path flags args) ≡ some s
      → IsWithin (budget flags cfg) largest s.cache
  unfolding overridden
  started-IsWithin largest s h =
      let e = read-IsExpected totals_codec world path flags args cfg read in
      subst (IsWithin (budget flags cfg) largest)
        (sym (IsExpected-cache totals_codec world flags args cfg _ s e h))
        (new_with_capacity-IsWithin largest (override flags.cache_max_bytes cfg.cache_max_bytes)
          (override-IsInt64 flags.cache_max_bytes cfg.cache_max_bytes sizes.flag sizes.configured))

  -- The contents that a program that proxies over pipes holds in its recency list never take more bytes
  -- than the budget, or than the largest content of a result of the server if that is more: whatever
  -- lines both sides send in any order, if every id that is drawn is unused. The contents that its map
  -- has for distinct keys are no more than those, so that no evicted content stays in it; and the byte
  -- count is their sum. The budget is that of the flag if it is
  -- positive, else that of the configuration, and 256 MiB if neither is positive; the configured sizes
  -- are int64 values, and the budget and the largest content, and twice the latter, fit into one.
  pub pipes-memory :
      (setup : Setup) (tool : Bytes) (command : List Bytes) (threshold : Int64) (s : State)
      (es : List Event) (largest : ℕ) (ids : List Bytes)
      → main totals_codec world path flags args ≡ pipes command threshold s
      → IsAddressable (budget flags cfg) largest
      → Retention.DrawsUnused (record setup { threshold = threshold }) tool es (at_start s)
      → Memory.AllAtMost (record setup { threshold = threshold }) tool largest es
      → AreDistinct ids
      → HoldsAtMost
          (budget flags cfg)
          largest
          ids
          (run (record setup { threshold = threshold }) tool es (at_start s)).shared.cache
  unfolding state_of
  pipes-memory setup tool command threshold s es largest ids started a draws small distinct =
      IsWithin-HoldsAtMost (budget flags cfg) largest ids _ distinct (
        Memory.run-IsWithin (record setup { threshold = threshold }) tool (budget flags cfg) largest
          es (at_start s) a (started-IsWithin largest s (ap state_of started)) draws small)

  -- The contents that a program that serves over HTTP holds in its recency list never take more bytes
  -- than the budget, or than the largest content that is collected from upstream if that is more, over
  -- any requests, if every id that is drawn is unused; the contents that its map has for distinct keys
  -- are no more than those, and the byte count is their sum. The budget is that of the flag, of the configuration or 256 MiB
  -- as over pipes, the configured sizes are int64 values, and the budget and the largest content, and
  -- twice the latter, fit into one.
  pub listens-memory :
      (context : Context) (addr : Bytes) (built : Built) (threshold : Int64) (s : State)
      (is : List Incoming) (largest : ℕ) (ids : List Bytes)
      → main totals_codec world path flags args ≡ listens addr built threshold s
      → IsAddressable (budget flags cfg) largest
      → Sessions.DrawsUnused (serving context built threshold) is s
      → HttpMemory.AllAtMost (serving context built threshold) largest is
      → AreDistinct ids
      → HoldsAtMost
          (budget flags cfg)
          largest
          ids
          (serve_all (serving context built threshold) is s).cache
  unfolding state_of
  listens-memory context addr built threshold s is largest ids started a draws small distinct =
      IsWithin-HoldsAtMost (budget flags cfg) largest ids _ distinct (
        HttpMemory.serve_all-IsWithin (serving context built threshold) (budget flags cfg) largest
          is s a (started-IsWithin largest s (ap state_of started)) draws small)
