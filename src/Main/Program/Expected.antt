-- ===== src/Main/Program/Expected.antt =====
-- main.go: what the program does for its flags, its arguments and its configuration.
use mcp_content_guard.Base.{◌≡◌, refl, Bool, true, false, Option, none, some, List, if◌then◌else◌}
use mcp_content_guard.Base.Bytes.{Bytes}
use mcp_content_guard.Base.Dictionary.{Dictionary}
use mcp_content_guard.Json.{Result, ok, err}
use mcp_content_guard.Stats.{TotalsCodec}
use mcp_content_guard.Stats.Report.{load, format}
use mcp_content_guard.Intercept.{State}
use mcp_content_guard.Http.Construct.{Built}
use mcp_content_guard.Main.{
  Config, Flags, Decision, prints_stats, serves, runs, arguments, effective_url, overridden, choose,
}
use mcp_content_guard.Main.Modes.{
  IsMisuse, IsAllowed, exit, stats, http, local, session_key, choose-IsAllowed,
}
use mcp_content_guard.Main.Launch.{read_config, open_server, print_stats}
use mcp_content_guard.Main.Program.{
  World, Outcome, fails, prints, listens, pipes, files_of, opened, launch, main,
}
use mcp_content_guard.Main.Program.Opened.{
  IsFresh, IsParsed, open_server-IsParsed, unopened, opened-IsFresh,
}

module _ (totals_codec : TotalsCodec) (world : World) where
  open world use {file, unmarshal, join_path, directory, sha256, files, made, parse_url, started}

  -- What the program may do for a configuration.
  pub data IsExpected (flags : Flags) (args : List Bytes) (cfg : Config) : Outcome → Type 0 where
    misused : IsMisuse flags args cfg → IsExpected flags args cfg fails
    no_directory_http :
        (headers : Dictionary Bytes)
        → IsAllowed flags args cfg (
            serves
              (effective_url flags cfg)
              flags.listen_addr
              headers
              (overridden flags cfg)
              (session_key flags args cfg))
        → flags.enable_stats ≡ true
        → made ≡ false
        → IsExpected flags args cfg fails
    no_directory_local :
        IsAllowed flags args cfg
          (runs (arguments args).command (overridden flags cfg) (session_key flags args cfg))
        → flags.enable_stats ≡ true
        → made ≡ false
        → IsExpected flags args cfg fails
    bad_url :
        (headers : Dictionary Bytes) (e : Bytes)
        → IsAllowed flags args cfg (
            serves
              (effective_url flags cfg)
              flags.listen_addr
              headers
              (overridden flags cfg)
              (session_key flags args cfg))
        → parse_url (effective_url flags cfg) ≡ err e
        → IsExpected flags args cfg fails
    not_started :
        IsAllowed flags args cfg
          (runs (arguments args).command (overridden flags cfg) (session_key flags args cfg))
        → started ≡ false
        → IsExpected flags args cfg fails
    printed :
        (key : Bytes)
        → IsAllowed flags args cfg (prints_stats key)
        → IsExpected flags args cfg
            (prints (format (load totals_codec (files_of totals_codec world key).main)))
    listening :
        (headers : Dictionary Bytes) (built : Built) (s : State)
        → IsAllowed flags args cfg (
            serves
              (effective_url flags cfg)
              flags.listen_addr
              headers
              (overridden flags cfg)
              (session_key flags args cfg))
        → IsFresh totals_codec world flags args cfg s
        → open_server parse_url (effective_url flags cfg) headers (overridden flags cfg) ≡ ok built
        → IsExpected flags args cfg
            (listens flags.listen_addr built (overridden flags cfg).threshold s)
    piping :
        (s : State)
        → IsAllowed flags args cfg
            (runs (arguments args).command (overridden flags cfg) (session_key flags args cfg))
        → IsFresh totals_codec world flags args cfg s
        → started ≡ true
        → IsExpected flags args cfg
            (pipes (arguments args).command (overridden flags cfg).threshold s)

  module _ (flags : Flags) (args : List Bytes) (cfg : Config) where
    listened-IsExpected :
        (headers : Dictionary Bytes) (o : Option State) (r : Result Built)
        → opened totals_codec world (overridden flags cfg) (session_key flags args cfg) ≡ o
        → open_server parse_url (effective_url flags cfg) headers (overridden flags cfg) ≡ r
        → IsAllowed flags args cfg (
            serves
              (effective_url flags cfg)
              flags.listen_addr
              headers
              (overridden flags cfg)
              (session_key flags args cfg))
        → IsParsed totals_codec world (effective_url flags cfg) r
        → IsExpected flags args cfg (elim o [
          | none ↦ fails
          | some s ↦ elim r [
            | err e ↦ fails
            | ok built ↦ listens flags.listen_addr built (overridden flags cfg).threshold s
          ]
        ])
    unfolding IsParsed
    listened-IsExpected headers none r h k a p =
        let (collects, unmade) = unopened totals_codec world flags args cfg h in
        no_directory_http headers a collects unmade
    listened-IsExpected headers (some s) (err e) h k a (e', p) = bad_url headers e' a p
    listened-IsExpected headers (some s) (ok built) h k a p =
        listening headers built s a (opened-IsFresh totals_codec world flags args cfg s h) k

    piped-IsExpected :
        (o : Option State) (b : Bool)
        → opened totals_codec world (overridden flags cfg) (session_key flags args cfg) ≡ o
        → started ≡ b
        → IsAllowed flags args cfg
            (runs (arguments args).command (overridden flags cfg) (session_key flags args cfg))
        → IsExpected flags args cfg (elim o [
          | none ↦ fails
          | some s ↦
              if b then pipes (arguments args).command (overridden flags cfg).threshold s else fails
        ])
    piped-IsExpected none b h k a =
        let (collects, unmade) = unopened totals_codec world flags args cfg h in
        no_directory_local a collects unmade
    piped-IsExpected (some s) true h k a =
        piping s a (opened-IsFresh totals_codec world flags args cfg s h) k
    piped-IsExpected (some s) false h k a = not_started a k

    launch-IsExpected :
        (d : Decision)
        → IsAllowed flags args cfg d
        → IsExpected flags args cfg (launch totals_codec world d)
    unfolding launch print_stats
    launch-IsExpected _ (exit m) = misused m
    launch-IsExpected _ (stats key s k n) = printed key (stats key s k n)
    launch-IsExpected _ (http headers s u l c m) =
        listened-IsExpected headers _ _ refl refl (http headers s u l c m) (
          open_server-IsParsed totals_codec world (effective_url flags cfg) headers
            (overridden flags cfg))
    launch-IsExpected _ (local s c l u n) = piped-IsExpected _ _ refl refl (local s c l u n)

  pub read-IsExpected :
      (config_path : Bytes) (flags : Flags) (args : List Bytes) (cfg : Config)
      → read_config unmarshal config_path file ≡ some cfg
      → IsExpected flags args cfg (main totals_codec world config_path flags args)
  unfolding main
  read-IsExpected config_path flags args cfg h =
      rw (h, main)
        (launch-IsExpected flags args cfg (choose flags args cfg) (choose-IsAllowed flags args cfg))
