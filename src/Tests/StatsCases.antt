-- ===== src/Tests/StatsCases.antt =====
-- internal/stats at concrete inputs.
use mcp_content_guard.Base.{
  ℕ, ◌≡◌, ◌⊎◌, ◌<◌, ◌≤◌, ◌^◌, ◌++◌, arith, inl, refl, true, false, none, some, List, [], ◌∷◌,
}
use mcp_content_guard.Base.Bytes.{Bytes, codes, has_prefix, has_suffix}
use mcp_content_guard.Base.Decimal.{show}
use mcp_content_guard.Base.Float.{show_tenths}
use mcp_content_guard.Base.Int64.{add64, sub64, lt64}
use mcp_content_guard.Stats.{
  no_totals, bytes_saved, estimated_tokens_saved, add_totals, Files, Disk, Session, is_zero, cached,
  sent, responses, seeks, read_totals, flush, add_counter,
}
use mcp_content_guard.Stats.Merge.{Action, counts, flushes, added, run, RoundTrips}
use mcp_content_guard.Stats.Failure.{Fails, flush-Fails, flush_atomic}
use mcp_content_guard.Stats.Report.{Entry, is_stats_file, load, load_all, format_bytes, format}
use mcp_content_guard.Main.Launch.{new_session, print_stats}
use mcp_content_guard.Main.Launch.Printed.{InRange, print_stats-session}
use mcp_content_guard.Stats.Report.Rounding.{IsClose, format_bytes-IsClose}
use mcp_content_guard.Stats.Report.Directory.{load_all-flush}
use mcp_content_guard.Tests.Fixtures.{totals_codec, working}

-- Four numbers in a row are read back.
numbers-RoundTrips : RoundTrips totals_codec
numbers-RoundTrips t range = (_, refl, ground (arith, range))

abbrev fresh : Session
fresh = record { counters = no_totals; files = record { main = none; temporary = none } }

-- The disk is full.
abbrev broken : Disk
broken = record { can_read = true; write_failure = some (some (1 ∷ [])); can_rename = true }

abbrev actions : List Action
actions =
    counts (cached 4000)
    ∷ counts (sent 60)
    ∷ flushes working
    ∷ counts (responses 1)
    ∷ counts (seeks 2)
    ∷ flushes working
    ∷ []

abbrev counted : Session
counted = record fresh {
  counters = record { bytes_cached = 9; bytes_sent = 1; responses_cached = 1; seek_calls = 0 };
}

saved_example :
    (bytes_saved counted.counters ≡ 8)
    × (estimated_tokens_saved counted.counters ≡ 2)
    × (bytes_saved (record no_totals { bytes_sent = 5 }) ≡ 0)
unfolding bytes_saved estimated_tokens_saved sub64 lt64
saved_example = (refl, refl, refl)

-- The totals that stand in the file at the end.
run_fresh : (run totals_codec actions fresh).files.main ≡ some (4000 ∷ 60 ∷ 1 ∷ 2 ∷ [])
unfolding run flush add_totals add64 add_counter
run_fresh = refl

broken-Fails : Fails broken
broken-Fails = inl cc

counted_some : is_zero counted.counters ≡ false
unfolding is_zero
counted_some = refl

flush-Fails_example :
    ((flush totals_codec broken counted).1 ≡ false)
    × ((flush totals_codec broken counted).0.files.main ≡ none)
    × ((flush totals_codec broken counted).0.counters ≡ no_totals)
flush-Fails_example = flush-Fails totals_codec broken counted broken-Fails counted_some

flush_atomic_example :
    ((flush totals_codec working counted).0.files.main ≡ none)
    ⊎ ((text : Bytes) × (totals_codec.encode
            (add_totals (read_totals totals_codec true none) counted.counters)
          ≡ some text)
        × ((flush totals_codec working counted).0.files.main ≡ some text)
        × ((flush totals_codec working counted).1 ≡ true))
flush_atomic_example = flush_atomic totals_codec working counted

abbrev entry : Bytes → Entry
entry name = record { name = name; is_dir = false; text = some (5 ∷ 1 ∷ 1 ∷ 0 ∷ []) }

-- An abandoned temporary file, the file of a session, and another file.
abbrev entries : List Entry
entries = entry (codes "stats-abc.json.tmp") ∷ []

own-is_stats_file : is_stats_file (entry (codes "stats-abc.json")) ≡ true
unfolding is_stats_file has_suffix has_prefix
own-is_stats_file = refl

load_all-flush_example :
    load_all totals_codec (
      some (
        entries
        ++ (record (entry (codes "stats-abc.json")) {
          text = (flush totals_codec working counted).0.files.main;
        }
            ∷ entries)))
    ≡ add_totals
        (load_all totals_codec (
          some (
            entries
            ++ (record (entry (codes "stats-abc.json")) { text = counted.files.main } ∷ entries))))
        counted.counters
load_all-flush_example =
    load_all-flush totals_codec numbers-RoundTrips entries entries (entry (codes "stats-abc.json"))
      working counted own-is_stats_file (refl, refl, refl)

format_bytes-IsClose_example :
    ((1536000 < 2 ^ 10) × (format_bytes 1536000 ≡ show 1536000 ++ codes " B"))
    ⊎ ((2 ^ 10 ≤ 1536000)
        × (1536000 < 2 ^ 20)
        × (t : ℕ) × IsClose 1536000 (2 ^ 10) t
        × (format_bytes 1536000 ≡ show_tenths t ++ codes " KB"))
    ⊎ ((2 ^ 20 ≤ 1536000)
        × (t : ℕ) × IsClose 1536000 (2 ^ 20) t
        × (format_bytes 1536000 ≡ show_tenths t ++ codes " MB"))
format_bytes-IsClose_example = format_bytes-IsClose 1536000 (omega arith)

numbers-InRange : InRange totals_codec
numbers-InRange [] = omega arith
numbers-InRange (a ∷ []) = omega arith
numbers-InRange (a ∷ b ∷ []) = omega arith
numbers-InRange (a ∷ b ∷ c ∷ []) = omega arith
numbers-InRange (a ∷ b ∷ c ∷ d ∷ s) = omega arith

-- What was counted before.
abbrev earlier : Files
earlier = record { main = some (5 ∷ 1 ∷ 1 ∷ 0 ∷ []); temporary = none }

abbrev again : Session
again = record { counters = no_totals; files = earlier }

again_begun : new_session true earlier ≡ some again
unfolding new_session
again_begun = refl

print_stats-session_example :
    print_stats totals_codec
      (flush totals_codec working (run totals_codec actions again)).0.files.main
    ≡ format (add_totals (load totals_codec earlier.main) (added actions))
print_stats-session_example =
    print_stats-session totals_codec numbers-RoundTrips numbers-InRange earlier again actions
      working again_begun ((refl, refl, refl), ((refl, refl, refl), tt)) (refl, refl, refl)
