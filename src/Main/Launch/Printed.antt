-- ===== src/Main/Launch/Printed.antt =====
-- main.go and internal/stats: what the subcommand stats prints behind a session.
use mcp_content_guard.Base.{◌≡◌, sym, ap, ◌∙◌, true, none, some, Option, List, arith}
use mcp_content_guard.Base.Bytes.{Bytes}
use mcp_content_guard.Base.Int64.{add64}
use mcp_content_guard.Json.{Totals}
use mcp_content_guard.Stats.{
  no_totals, TotalsCodec, add_totals, Files, Disk, Session, read_totals, flush,
}
use mcp_content_guard.Stats.Merge.{
  Action, added, Works, AllWork, IsInt64, run, accounted, RoundTrips, accounted-flush,
  accounted-run,
}
use mcp_content_guard.Stats.Failure.{counters-flush}
use mcp_content_guard.Stats.Report.{load, format}
use mcp_content_guard.Main.Launch.{new_session, print_stats}

add_nothing : (t : Totals) → IsInt64 t → add_totals t no_totals ≡ t
unfolding add_totals add64
add_nothing t h = ground arith

module _ (codec : TotalsCodec) where
  -- What is decoded are four int64 values.
  abbrev pub InRange : Type 0
  InRange = (text : Bytes) → IsInt64 (codec.decode text)

  load-IsInt64 : InRange → (main : Option Bytes) → IsInt64 (load codec main)
  unfolding load read_totals
  load-IsInt64 range none = omega arith
  load-IsInt64 range (some text) = range text

  accounted_alone :
      InRange → (s : Session) → s.counters ≡ no_totals → accounted codec s ≡ load codec s.files.main
  unfolding accounted load
  accounted_alone range s h =
      ap (add_totals (load codec s.files.main)) h
      ∙ add_nothing (load codec s.files.main) (load-IsInt64 range s.files.main)

-- What a session starts with.
session_begun :
    (files : Files) (s : Session)
    → new_session true files ≡ some s
    → (s.counters ≡ no_totals) × (s.files ≡ files)
unfolding new_session
session_begun files s h =
    let same = ap (λ o. elim o [ none ↦ s | some x ↦ x ]) (sym h) in
    (ap (λ x. x.counters) same, ap (λ x. x.files) same)

-- After a session that `stats.New` starts, which adds to its counters and flushes them in any order
-- while the file system works, and flushes once more at its end, the subcommand stats prints the line
-- of the totals that the file held before with everything added that the session counted, each total
-- modulo 2 ^ 64, if totals that are written can be read back and what is decoded are int64 values.
pub print_stats-session :
    (codec : TotalsCodec)
    → RoundTrips codec
    → InRange codec
    → (files : Files) (s : Session) (actions : List Action) (disk : Disk)
    → new_session true files ≡ some s
    → AllWork actions
    → Works disk
    → print_stats codec (flush codec disk (run codec actions s)).0.files.main
      ≡ format (add_totals (load codec files.main) (added actions))
unfolding print_stats
print_stats-session codec trips range files s actions disk begins works last =
    let s' = run codec actions s in
    let f = (flush codec disk s').0 in
    let (empty, same) = session_begun files s begins in
    ap format (
      sym (accounted_alone codec range f (counters-flush codec disk s'))
      ∙ accounted-flush codec trips disk s' last
      ∙ accounted-run codec trips actions s works
      ∙ ap (λ t. add_totals t (added actions))
          (accounted_alone codec range s empty ∙ ap (λ k. load codec k.main) same))
