-- ===== src/Main/Program/Opened.antt =====
-- main.go: the state that a session starts with, and why there may be none.
use mcp_content_guard.Base.{
  ◌++◌, ◌≡◌, refl, Bool, true, false, none, some, List, arith, if◌then◌else◌,
}
use mcp_content_guard.Base.Bytes.{Bytes, codes}
use mcp_content_guard.Base.Dictionary.{Dictionary}
use mcp_content_guard.Json.{Result, ok, err}
use mcp_content_guard.Stats.{no_totals, Files, TotalsCodec}
use mcp_content_guard.Intercept.{State}
use mcp_content_guard.Http.Construct
use mcp_content_guard.Http.Construct.{Url, Built}
use mcp_content_guard.Main.{
  Config, Flags, arguments, effective_url, override, config_key, overridden,
}
use mcp_content_guard.Main.Modes.{session_key}
use mcp_content_guard.Cache.{new_with_capacity}
use mcp_content_guard.Main.Launch.{open_state, open_server, new_session}
use mcp_content_guard.Main.Program.{World, files_of, opened}

module _ (totals_codec : TotalsCodec) (world : World) where
  open world use {file, unmarshal, join_path, directory, sha256, files, made, parse_url, started}

  -- The state that a session starts with: an empty cache of the size that the flag or the configuration
  -- gives, and with --collect-stats no counts yet over the file of the key.
  pub record IsFresh (flags : Flags) (args : List Bytes) (cfg : Config) (s : State) : Type 0 where
    pub cache : s.cache ≡ new_with_capacity (override flags.cache_max_bytes cfg.cache_max_bytes)
    pub stats : s.stats ≡ (
        if flags.enable_stats
        then some (record {
          counters = no_totals;
          files =
              files_of totals_codec world
                (config_key flags.listen_addr (effective_url flags cfg) (arguments args).command);
        })
        else none)

  -- Without a URL there is no server.
  unfoldable pub IsParsed : Bytes → Result Built → Type 0
  IsParsed url (ok built) = Unit
  IsParsed url (err e) = (e' : Bytes) × (parse_url url ≡ err e')

  parse_url-IsParsed :
      (url : Bytes) (build : Url → Built) (context : Bytes → Bytes) (r : Result Url)
      → parse_url url ≡ r
      → IsParsed url (elim r [ err e ↦ err (context e) | ok u ↦ ok (build u) ])
  unfolding IsParsed
  parse_url-IsParsed url build context (err e) h = (e, h)
  parse_url-IsParsed url build context (ok u) h = tt

  pub open_server-IsParsed :
      (url : Bytes) (headers : Dictionary Bytes) (cfg : Config)
      → IsParsed url (open_server parse_url url headers cfg)
  unfolding open_server Construct.new
  open_server-IsParsed url headers cfg =
      parse_url-IsParsed url _ (λ e. codes "httpserver: parse upstream URL: " ++ e) (parse_url url)
        refl

  -- For whether the directory can be made.
  open_state_files :
      (cfg : Config) (b : Bool) (of_key : Files) (s : State)
      → open_state cfg b (some of_key) ≡ some s
      → (s.cache ≡ new_with_capacity cfg.cache_max_bytes)
        × (s.stats ≡ some (record { counters = no_totals; files = of_key }))
  unfolding open_state new_session
  open_state_files cfg true of_key s h = (cc, cc)
  open_state_files cfg false of_key s h = absurd (none_some s h)
    where
      none_some : (s : State) → ¬ (none ≡ some s)
      none_some s h = cc

  opened_parts :
      (cfg : Config) (collects : Bool) (key : Bytes) (s : State)
      → opened totals_codec world cfg (if collects then some key else none) ≡ some s
      → (s.cache ≡ new_with_capacity cfg.cache_max_bytes)
        × (s.stats ≡ (
            if collects
            then some (record { counters = no_totals; files = files_of totals_codec world key })
            else none))
  unfolding opened open_state new_session
  opened_parts cfg false key s h = (cc, cc)
  opened_parts cfg true key s h = open_state_files cfg made (files_of totals_codec world key) s h

  opened_unless :
      (cfg : Config) (collects : Bool) (key : Bytes)
      → opened totals_codec world cfg (if collects then some key else none) ≡ none
      → (collects ≡ true) × (made ≡ false)
  unfolding opened open_state new_session
  opened_unless cfg false key h = cc
  opened_unless cfg true key h = (refl, ground arith)

  module _ (flags : Flags) (args : List Bytes) (cfg : Config) where
    pub unopened :
        opened totals_codec world (overridden flags cfg) (session_key flags args cfg) ≡ none
        → (flags.enable_stats ≡ true) × (made ≡ false)
    unopened h = opened_unless (overridden flags cfg) flags.enable_stats _ h

    pub opened-IsFresh :
        (s : State)
        → opened totals_codec world (overridden flags cfg) (session_key flags args cfg) ≡ some s
        → IsFresh flags args cfg s
    unfolding overridden
    opened-IsFresh s h =
        let (cache', stats') = opened_parts (overridden flags cfg) flags.enable_stats _ s h in
        record { cache = cache'; stats = stats' }
