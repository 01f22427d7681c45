-- ===== src/Bench/Scenarios.antt =====
-- bench/run.go: `main`, from the files of scenarios to the report, and the binary that it runs.
--
-- Of the lines that are printed before the report, those of a measured case are part of the model.
pub mod Rows
use mcp_content_guard.Base.{
  ◌≡◌, refl, ap, ap₂, ◌∙◌, Bool, true, false, not, Option, none, some, List, [], ◌∷◌, ◌++◌, map,
  append_assoc, Bool-cases, inl, inr, if◌then◌else◌,
}
use mcp_content_guard.Base.Bytes.{Bytes, codes, bytes_eq, has_suffix}
use mcp_content_guard.Base.Float.{show_rounded}
use mcp_content_guard.Base.Int64.{Int64}
use mcp_content_guard.Bench.{
  Case, Measured, Row, has_failed, total_proxied, savings, human_bytes, print_report,
}
use mcp_content_guard.Bench.Cases.{Runner, bench_case}

pub record Scenario : Type 0 where
  pub name : Bytes
  pub mcp : Bytes
  pub cmd : List Bytes
  pub cases : List Case
  pub notes : Bytes

-- A file of the directory, `none` if it cannot be read.
pub record File : Type 0 where
  pub name : Bytes
  pub text : Option Bytes

-- The first of some paths that os.Stat finds.
unfoldable pub first_found : (Bytes → Bool) → List Bytes → Bytes
first_found exists [] = []
first_found exists (p ∷ ps) = let rest = first_found exists ps in if exists p then p else rest

unfoldable pub find_proxy : (Bytes → Bool) → Bytes → Bytes
unfolding first_found
find_proxy exists hint =
    if not (bytes_eq hint [])
    then hint
    else first_found exists (
        codes "./mcp-context-guard.exe"
        ∷ codes "./mcp-context-guard"
        ∷ codes "mcp-context-guard.exe"
        ∷ codes "mcp-context-guard"
        ∷ [])

-- A run of the benchmark: exit status 1, a panic, or what it prints behind the name of each case and
-- the two tables of the report.
pub data Outcome : Type 0 where
  fails panics : Outcome
  reports : List Bytes → List Row × List Row → Outcome

-- What is printed of a case.
unfoldable pub case_line : Measured → Bytes
unfolding has_failed total_proxied savings
case_line r =
    if has_failed r
    then codes "ERROR: " ++ r.err
    else if r.cached
    then codes "raw="
      ++ (human_bytes r.raw_bytes
          ++ (codes "  proxied="
              ++ (human_bytes (total_proxied r)
                  ++ (codes "  savings=" ++ (show_rounded (savings r) ++ codes "%")))))
    else codes "raw=" ++ (human_bytes r.raw_bytes ++ codes " (below threshold, passthrough)")

-- For what os.ExpandEnv and the processes do, and json.Unmarshal of a scenario.
module _ (runner : Runner) (decode : Bytes → Option Scenario) where
  unfoldable pub expand_env_slice : List Bytes → List Bytes
  expand_env_slice ss = map runner.expand_env ss

  -- The loop over the cases; `none` for a panic.
  unfoldable pub run_cases : Bytes → Int64 → Scenario → List Case → Option (List Measured)
  unfolding expand_env_slice
  run_cases bin threshold s [] = some []
  run_cases bin threshold s (c ∷ cs) =
      let rest = run_cases bin threshold s cs in
      elim (bench_case runner bin threshold (expand_env_slice s.cmd) c) [
        | none ↦ none
        | some r ↦ elim rest [ none ↦ none | some rs ↦ some (record r { scenario = s.name } ∷ rs) ]
      ]

  -- The scenario of a file, `none` for a file that is skipped.
  unfoldable pub scenario_of : File → Option Scenario
  unfolding has_suffix
  scenario_of f =
      if not (has_suffix f.name (codes ".json"))
      then none
      else (elim f.text [ none ↦ none | some text ↦ decode text ])

  unfoldable pub run_files : Bytes → Int64 → List File → Option (List Measured)
  unfolding run_cases scenario_of
  run_files bin threshold [] = some []
  run_files bin threshold (f ∷ fs) =
      let rest = run_files bin threshold fs in
      elim (scenario_of f) [
        | none ↦ rest
        | some s ↦ elim (run_cases bin threshold s s.cases) [
          | none ↦ none
          | some rs ↦ elim rest [ none ↦ none | some more ↦ some (rs ++ more) ]
        ]
      ]

  -- The files are `none` if the directory cannot be read.
  unfoldable pub run_benchmark :
      ((Measured → Measured → Bool) → List Measured → List Measured)
      → (Bytes → Bool)
      → Bytes
      → Int64
      → Option (List File)
      → Outcome
  unfolding find_proxy run_files
  run_benchmark sort exists hint threshold files =
      let bin = find_proxy exists hint in
      if bytes_eq bin [] then fails else (elim files [
        | none ↦ fails
        | some fs ↦ elim (run_files bin threshold fs) [
          | none ↦ panics
          | some results ↦ reports (map case_line results) (print_report sort results)
        ]
      ])
