-- ===== src/Main/Program.antt =====
-- main.go as a whole: from the arguments to a failure, a line of statistics, an HTTP server or a
-- proxy over pipes.
pub mod Opened
pub mod Expected
pub mod Started
pub mod Sessions
use mathlib.Core.Option
use mcp_content_guard.Base.{
  ◌⊎◌, ◌++◌, ◌≡◌, refl, sym, ap, ◌∙◌, Bool, true, false, Option, none, some, List, inl, inr, arith,
  if◌then◌else◌,
}
use mcp_content_guard.Base.Bytes.{Bytes, codes, bytes_eq}
use mcp_content_guard.Base.Int64.{Int64}
use mcp_content_guard.Base.Dictionary.{Dictionary}
use mcp_content_guard.Json.{Result, ok, err}
use mcp_content_guard.Stats.{TotalsCodec, Files}
use mcp_content_guard.Stats.Report.{path_for_key, load, format}
use mcp_content_guard.Intercept.{State}
use mcp_content_guard.Cache.{new_with_capacity}
use mcp_content_guard.Http.Construct
use mcp_content_guard.Http.Construct.{Url, Built}
use mcp_content_guard.Main.{
  Config, Flags, Decision, exits, prints_stats, serves, runs, arguments, effective_url, overridden,
  choose,
}
use mcp_content_guard.Main.Modes.{
  IsMisuse, IsAllowed, exit, stats, http, local, session_key, choose-IsAllowed,
}
use mcp_content_guard.Main.Launch.{read_config, open_state, open_server, print_stats, new_session}

-- What the program meets: what can be read of the configuration file, json.Unmarshal over a
-- configuration, the path of a key's file, what that file holds, whether its directory can be made,
-- url.Parse, and whether the process starts.
pub record World : Type 0 where
  pub file : Option Bytes
  pub unmarshal : Bytes → Config → Option Config
  pub join_path : Bytes → Bytes → Bytes
  pub directory : Bytes
  pub sha256 : Bytes → Bytes
  pub files : Bytes → Files
  pub made : Bool
  pub parse_url : Bytes → Result Url
  pub started : Bool

-- A failure is log.Fatalf, or os.Exit(1) behind a message. A server has its address and its threshold,
-- a proxy its command and its threshold, and both have the state that they start with.
pub data Outcome : Type 0 where
  fails : Outcome
  prints : Bytes → Outcome
  listens : Bytes → Built → Int64 → State → Outcome
  pipes : List Bytes → Int64 → State → Outcome

-- The state that a server or a proxy starts with.
unfoldable pub state_of : Outcome → Option State
state_of fails = none
state_of (prints text) = none
state_of (listens addr built threshold s) = some s
state_of (pipes command threshold s) = some s

module _ (totals_codec : TotalsCodec) (world : World) where
  open world use {file, unmarshal, join_path, directory, sha256, files, made, parse_url, started}

  unfoldable pub files_of : Bytes → Files
  files_of key = files (path_for_key join_path directory sha256 key)

  unfoldable pub opened : Config → Option Bytes → Option State
  unfolding files_of
  opened cfg key = open_state cfg made (Option.map files_of key)

  unfoldable pub launch : Decision → Outcome
  unfolding opened files_of
  launch exits = fails
  launch (prints_stats key) = prints (print_stats totals_codec (files_of key).main)
  launch (serves url addr headers cfg key) = elim (opened cfg key) [
    | none ↦ fails
    | some s ↦ elim (open_server parse_url url headers cfg) [
      | err e ↦ fails
      | ok built ↦ listens addr built cfg.threshold s
    ]
  ]
  launch (runs command cfg key) = elim (opened cfg key) [
    | none ↦ fails
    | some s ↦ if started then pipes command cfg.threshold s else fails
  ]

  unfoldable pub main : Bytes → Flags → List Bytes → Outcome
  unfolding launch
  main config_path flags args = elim (read_config unmarshal config_path file) [
    | none ↦ fails
    | some cfg ↦ launch (choose flags args cfg)
  ]
