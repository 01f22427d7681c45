-- ===== src/Main/Program/Started.antt =====
-- main.go: the cache that a server or a proxy starts with.
use mcp_content_guard.Base.{ap, sym, ◌≡◌, ◌∙◌, some, List}
use mcp_content_guard.Base.Bytes.{Bytes}
use mcp_content_guard.Stats.{TotalsCodec}
use mcp_content_guard.Intercept.{State}
use mcp_content_guard.Cache.{new_with_capacity}
use mcp_content_guard.Main.{Config, Flags, overridden}
use mcp_content_guard.Main.Program.{World, Outcome, state_of}
use mcp_content_guard.Main.Program.Opened.{IsFresh}
use mcp_content_guard.Main.Program.Expected.{
  IsExpected, misused, no_directory_http, no_directory_local, bad_url, not_started, printed,
  listening, piping,
}

module _ (totals_codec : TotalsCodec) (world : World) where
  open world use {file, unmarshal, join_path, directory, sha256, files, made, parse_url, started}

  state_same : (a b : State) → some a ≡ some b → a ≡ b
  state_same a b h = cc

  started-cache :
      (flags : Flags) (args : List Bytes) (cfg : Config) (s t : State)
      → IsFresh totals_codec world flags args cfg s
      → s ≡ t
      → t.cache ≡ new_with_capacity (overridden flags cfg).cache_max_bytes
  unfolding overridden
  started-cache flags args cfg s t f h = ap (λ (u : State). u.cache) (sym h) ∙ f.cache

  -- It has an empty cache of the configured size.
  pub IsExpected-cache :
      (flags : Flags) (args : List Bytes) (cfg : Config) (o : Outcome) (s : State)
      → IsExpected totals_codec world flags args cfg o
      → state_of o ≡ some s
      → s.cache ≡ new_with_capacity (overridden flags cfg).cache_max_bytes
  unfolding state_of
  IsExpected-cache flags args cfg _ s (misused m) h = cc
  IsExpected-cache flags args cfg _ s (no_directory_http hs a c m) h = cc
  IsExpected-cache flags args cfg _ s (no_directory_local a c m) h = cc
  IsExpected-cache flags args cfg _ s (bad_url hs e a u) h = cc
  IsExpected-cache flags args cfg _ s (not_started a p) h = cc
  IsExpected-cache flags args cfg _ s (printed k a) h = cc
  IsExpected-cache flags args cfg _ s (listening headers built s' a o u) h =
      started-cache flags args cfg s' s o (state_same s' s h)
  IsExpected-cache flags args cfg _ s (piping s' a o p) h =
      started-cache flags args cfg s' s o (state_same s' s h)
