-- ===== src/Tests/ScenarioCases.antt =====
-- The files of scenarios of bench/run.go at concrete inputs.
use mcp_content_guard.Base.{◌≡◌, ◌≢◌, refl, subst, Option, none, some, List, [], ◌∷◌}
use mcp_content_guard.Base.Bytes.{Bytes, codes, has_prefix, has_suffix}
use mcp_content_guard.Bench.Connection.{start_mcp}
use mcp_content_guard.Bench.Cases.{Runner, run_direct, bench_case, open_connection}
use mcp_content_guard.Bench.Scenarios.{Scenario, File, scenario_of, expand_env_slice}
use mcp_content_guard.Bench.Scenarios.Rows.{
  IsCalm, NeverPanics, expected, HasRows, run_files-HasRows,
}
use mcp_content_guard.Tests.ConnectionCases.{runner, one_case}

-- No process starts.
abbrev idle : Runner
idle = record runner {
  spawn = λ command. record (runner.spawn command) { start_error = some (codes "not found") };
}

abbrev scenario : Bytes → Scenario
scenario name = record {
  name = name;
  mcp = [];
  cmd = codes "server" ∷ [];
  cases = one_case ∷ one_case ∷ [];
  notes = [];
}

abbrev decode : Bytes → Option Scenario
decode s = some (scenario s)

abbrev files : List File
files =
    record { name = codes "fs.json"; text = some (codes "fs") }
    ∷ record { name = codes "README.md"; text = some (codes "#") }
    ∷ record { name = codes "git.json"; text = none }
    ∷ record { name = codes "web.json"; text = some (codes "web") }
    ∷ []

-- A case of the command is measured with an error.
not_panics : bench_case idle (codes "proxy") 2000 (codes "server" ∷ []) one_case ≢ none
unfolding bench_case run_direct open_connection start_mcp
not_panics e = cc

scenario-IsCalm :
    (text : Bytes) (s : Scenario)
    → decode text ≡ some s
    → IsCalm idle (codes "proxy") 2000 decode s s.cases
unfolding expand_env_slice
scenario-IsCalm text s h =
    let same : scenario text ≡ s = cc in
    subst (λ t. IsCalm idle (codes "proxy") 2000 decode t t.cases) same
      (not_panics, (not_panics, tt))

idle-NeverPanics : NeverPanics idle (codes "proxy") 2000 decode files
unfolding scenario_of has_suffix has_prefix
idle-NeverPanics = (
  λ s h. scenario-IsCalm (codes "fs") s h,
  (λ s h. cc, (λ s h. cc, (λ s h. scenario-IsCalm (codes "web") s h, tt))),
)

run_files-HasRows_example : HasRows idle (codes "proxy") 2000 decode files
run_files-HasRows_example =
    run_files-HasRows idle (codes "proxy") 2000 decode files idle-NeverPanics

files_expected :
    expected (scenario_of idle decode) files
    ≡ (codes "fs", codes "read")
      ∷ (codes "fs", codes "read")
      ∷ (codes "web", codes "read")
      ∷ (codes "web", codes "read")
      ∷ []
unfolding expected scenario_of has_suffix has_prefix
files_expected = refl
