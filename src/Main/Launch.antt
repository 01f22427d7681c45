-- ===== src/Main/Launch.antt =====
-- main.go: the configuration that is read, what is set up for a mode, and how the program ends.
pub mod Printed
use mcp_content_guard.Base.{ℕ, Bool, true, false, Option, none, some, List, [], ◌∷◌, if◌then◌else◌}
use mcp_content_guard.Base.Bytes.{Bytes, bytes_eq}
use mcp_content_guard.Cache.{new_with_capacity}
use mcp_content_guard.Stats.{no_totals, TotalsCodec, Files, Session}
use mcp_content_guard.Stats.Report.{load, format}
use mcp_content_guard.Intercept.{State}
use mcp_content_guard.Proxy.Machine.{Input, Machine, start}
use mcp_content_guard.Base.Dictionary.{Dictionary}
use mcp_content_guard.Json.{Result}
use mcp_content_guard.Http.Construct
use mcp_content_guard.Http.Construct.{Url, Built}
use mcp_content_guard.Main.{Config, default_threshold}

abbrev pub default_config : Config
default_config = record {
  threshold = default_threshold;
  max_body_bytes = 0;
  cache_max_bytes = 0;
  upstream_url = [];
  upstream_headers = [];
}

-- The configuration, for the path, what os.ReadFile gives of it, and json.Unmarshal over a
-- configuration; `none` for a fatal error.
unfoldable pub read_config : (Bytes → Config → Option Config) → Bytes → Option Bytes → Option Config
read_config unmarshal path file =
    if bytes_eq path []
    then some default_config
    else (elim file [ none ↦ none | some text ↦ unmarshal text default_config ])

-- `stats.New`, for whether the directory can be made, on the files of the path.
unfoldable pub new_session : Bool → Files → Option Session
new_session made files =
    if made then some (record { counters = no_totals; files = files }) else none

-- The cache and the statistics; `none` for a fatal error. The files are those of the key of the
-- statistics, `none` without --collect-stats.
unfoldable pub open_state : Config → Bool → Option Files → Option State
unfolding new_session
open_state cfg made none =
    some (record { cache = new_with_capacity cfg.cache_max_bytes; stats = none })
open_state cfg made (some files) = elim (new_session made files) [
  | none ↦ none
  | some s ↦ some (record { cache = new_with_capacity cfg.cache_max_bytes; stats = some s })
]

-- The HTTP server of a URL, with the headers and the configuration of the program.
unfoldable pub open_server : (Bytes → Result Url) → Bytes → Dictionary Bytes → Config → Result Built
open_server parse url headers cfg = Construct.new parse url headers (
    some (record {
      max_body_bytes = cfg.max_body_bytes;
      upstream_header_timeout = 0;
      upstream_dial_timeout = 0;
    }))

-- What the subcommand stats prints of the file of its key.
unfoldable pub print_stats : TotalsCodec → Option Bytes → Bytes
unfolding load format
print_stats codec main = format (load codec main)

-- `Wait` on the command: no error, an exit status, or another error.
pub data Waited : Type 0 where
  succeeded : Waited
  exited : ℕ → Waited
  broken : Waited

unfoldable pub exit_status : Waited → ℕ
exit_status succeeded = 0
exit_status (exited code) = code
exit_status broken = 1
