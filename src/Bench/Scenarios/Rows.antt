-- ===== src/Bench/Scenarios/Rows.antt =====
-- The cases that the report of bench/run.go has rows for.
use mathlib.Core.List.{map-append}
use mcp_content_guard.Base.{
  ◌≡◌, ◌≢◌, refl, ap₂, ◌∙◌, Option, none, some, List, [], ◌∷◌, ◌++◌, map, All, arith,
}
use mcp_content_guard.Base.Bytes.{Bytes}
use mcp_content_guard.Base.Int64.{Int64}
use mcp_content_guard.Bench.{Case, Measured}
use mcp_content_guard.Bench.Cases.{Runner, bench_case, no_measure}
use mcp_content_guard.Bench.Scenarios.{
  Scenario, File, expand_env_slice, run_cases, scenario_of, run_files,
}

-- The scenario and the case of a result.
abbrev pub names_of : Measured → Bytes × Bytes
names_of r = (r.scenario, r.case_name)

case-bench_case :
    (runner : Runner) (bin : Bytes) (threshold : Int64) (command : List Bytes) (c : Case)
    (r : Measured)
    → bench_case runner bin threshold command c ≡ some r
    → r.case_name ≡ c.name
unfolding bench_case no_measure
case-bench_case runner bin threshold command c r h = ground arith

-- The names of the cases of some files, in order.
unfoldable pub expected : (File → Option Scenario) → List File → List (Bytes × Bytes)
expected scenario [] = []
expected scenario (f ∷ fs) =
    let rest = expected scenario fs in
    elim (scenario f) [ none ↦ rest | some s ↦ map (λ c. (s.name, c.name)) s.cases ++ rest ]

module _ (runner : Runner) (bin : Bytes) (threshold : Int64) where
  known : (o : Option Measured) → o ≢ none → (r : Measured) × (o ≡ some r)
  known none e = absurd (e refl)
  known (some r) e = (r, refl)

  module _ (decode : Bytes → Option Scenario) where
    -- No case of a scenario makes the program panic.
    abbrev pub IsCalm : Scenario → List Case → Type 0
    IsCalm s =
        All (λ c. bench_case runner bin threshold (expand_env_slice runner decode s.cmd) c ≢ none)

    -- No case of the files does.
    abbrev pub NeverPanics : List File → Type 0
    NeverPanics =
        All (λ f. (s : Scenario) → scenario_of runner decode f ≡ some s → IsCalm s s.cases)

    run_cases_step :
        (s : Scenario) (c : Case) (cs : List Case) (r : Measured) (rs : List Measured)
        → bench_case runner bin threshold (expand_env_slice runner decode s.cmd) c ≡ some r
        → run_cases runner decode bin threshold s cs ≡ some rs
        → run_cases runner decode bin threshold s (c ∷ cs)
          ≡ some (record r { scenario = s.name } ∷ rs)
    unfolding run_cases
    run_cases_step s c cs r rs h k = rw (h, run_cases) (rw (k, run_cases) refl)

    run_cases-names :
        (s : Scenario) (cs : List Case)
        → IsCalm s cs
        → (rs : List Measured) × (run_cases runner decode bin threshold s cs ≡ some rs)
          × (map names_of rs ≡ map (λ c. (s.name, c.name)) cs)
    unfolding run_cases
    run_cases-names s [] calm = ([], refl, refl)
    run_cases-names s (c ∷ cs) (quiet, calm) =
        let (r, h) =
          known (bench_case runner bin threshold (expand_env_slice runner decode s.cmd) c) quiet in
        let (rs, run, same) = run_cases-names s cs calm in
        (
          record r { scenario = s.name } ∷ rs,
          run_cases_step s c cs r rs h run,
          ap₂ (λ n rest. (s.name, n) ∷ rest) (case-bench_case runner bin threshold _ c r h) same,
        )

    run_files_skip :
        (f : File) (fs : List File)
        → scenario_of runner decode f ≡ none
        → run_files runner decode bin threshold (f ∷ fs) ≡ run_files runner decode bin threshold fs
    unfolding run_files
    run_files_skip f fs h = rw (h, run_files) refl

    run_files_step :
        (f : File) (fs : List File) (s : Scenario) (rs more : List Measured)
        → scenario_of runner decode f ≡ some s
        → run_cases runner decode bin threshold s s.cases ≡ some rs
        → run_files runner decode bin threshold fs ≡ some more
        → run_files runner decode bin threshold (f ∷ fs) ≡ some (rs ++ more)
    unfolding run_files
    run_files_step f fs s rs more h k j =
        rw (h, run_files) (rw (k, run_files) (rw (j, run_files) refl))

    -- One result for each case of each scenario.
    abbrev pub HasRows : List File → Type 0
    HasRows fs =
        (rs : List Measured) × (run_files runner decode bin threshold fs ≡ some rs)
        × (map names_of rs ≡ expected (scenario_of runner decode) fs)

    HasRows-cons :
        (f : File) (fs : List File) (o : Option Scenario)
        → scenario_of runner decode f ≡ o
        → ((s : Scenario) → scenario_of runner decode f ≡ some s → IsCalm s s.cases)
        → HasRows fs
        → HasRows (f ∷ fs)
    unfolding expected
    HasRows-cons f fs none h calm (rs, run, same) =
        (rs, run_files_skip f fs h ∙ run, rw (h, expected) same)
    HasRows-cons f fs (some s) h calm (more, runs, sames) =
        let (rs, run, same) = run_cases-names s s.cases (calm s h) in
        (
          rs ++ more,
          run_files_step f fs s rs more h run runs,
          rw (h, expected) (map-append names_of rs more ∙ ap₂ ◌++◌ same sames),
        )

    -- If no case of the files panics, the loops of `main` end with one result for each case of each file
    -- whose name ends in .json and which can be read and decoded, in the order of the files and of
    -- their cases, under the names of the scenario and of the case, whether the case failed or not.
    pub run_files-HasRows : (fs : List File) → NeverPanics fs → HasRows fs
    unfolding run_files expected
    run_files-HasRows [] calm = ([], refl, refl)
    run_files-HasRows (f ∷ fs) (here, later) =
        HasRows-cons f fs (scenario_of runner decode f) refl here (run_files-HasRows fs later)
