-- ===== src/Stats/Merge.antt =====
-- No count is lost or doubled while the disk works; the file changes in one piece; what a failed
-- write does to the counts.
use mcp_content_guard.Base.{
  ◌^◌, ◌<◌, ◌≡◌, sym, ap, ◌∙◌, true, false, none, some, List, [], ◌∷◌, arith, inl, inr, Bool-cases,
}
use mcp_content_guard.Base.Bytes.{Bytes}
use mcp_content_guard.Base.Int64.{add64}
use mcp_content_guard.Json.{Totals}
use mcp_content_guard.Stats.{
  no_totals, TotalsCodec, add_totals, Files, Disk, Session, is_zero, Add, cached, sent, responses,
  seeks, add_counter, read_totals, write_totals, flush,
}

-- A step of one of the goroutines: an atomic `Add`, or a flush, whose lock makes it one step.
pub data Action : Type 0 where
  counts : Add → Action
  flushes : Disk → Action

-- What a list of actions adds to each counter.
pub added : List Action → Totals
added [] = no_totals
added (counts a ∷ rest) = add_counter a (added rest)
added (flushes disk ∷ rest) = added rest

-- The calls of the file system that succeed.
abbrev pub Works : Disk → Type 0
Works d = (d.can_read ≡ true) × (d.write_failure ≡ none) × (d.can_rename ≡ true)

abbrev pub AllWork : List Action → Type 0
AllWork [] = Unit
AllWork (counts a ∷ rest) = AllWork rest
AllWork (flushes disk ∷ rest) = Works disk × AllWork rest

abbrev pub IsInt64 : Totals → Type 0
IsInt64 t =
    (t.bytes_cached < 2 ^ 64)
    × (t.bytes_sent < 2 ^ 64)
    × (t.responses_cached < 2 ^ 64)
    × (t.seek_calls < 2 ^ 64)

module _ (codec : TotalsCodec) where
  unfoldable pub run : List Action → Session → Session
  run [] s = s
  run (counts a ∷ rest) s = run rest (record s { counters = add_counter a s.counters })
  run (flushes disk ∷ rest) s = run rest (flush codec disk s).0

  -- The totals in the file and what the counters hold beside them.
  unfoldable pub accounted : Session → Totals
  accounted s = add_totals (read_totals codec true s.files.main) s.counters

  -- Totals of four int64 values that are written can be read back.
  abbrev pub RoundTrips : Type 0
  RoundTrips =
      (t : Totals)
      → IsInt64 t
      → (text : Bytes) × (codec.encode t ≡ some text) × (codec.decode text ≡ t)

add_totals-IsInt64 : (a b : Totals) → IsInt64 (add_totals a b)
unfolding add_totals add64
add_totals-IsInt64 a b = omega arith

add_totals-no_totals : (a b : Totals) → add_totals (add_totals a b) no_totals ≡ add_totals a b
unfolding add_totals add64
add_totals-no_totals a b = ground arith

add_totals-add_counter :
    (a : Add) (x y : Totals) → add_totals x (add_counter a y) ≡ add_totals (add_counter a x) y
unfolding add_totals add_counter add64
add_totals-add_counter (cached n) x y = ground arith
add_totals-add_counter (sent n) x y = ground arith
add_totals-add_counter (responses n) x y = ground arith
add_totals-add_counter (seeks n) x y = ground arith

add_counter-add_totals :
    (a : Add) (x y : Totals) → add_totals x (add_counter a y) ≡ add_counter a (add_totals x y)
unfolding add_totals add_counter add64
add_counter-add_totals (cached n) x y = ground arith
add_counter-add_totals (sent n) x y = ground arith
add_counter-add_totals (responses n) x y = ground arith
add_counter-add_totals (seeks n) x y = ground arith

is_zero-no_totals : (t : Totals) → is_zero t ≡ true → t ≡ no_totals
unfolding is_zero
is_zero-no_totals t h = ground arith

module _ (codec : TotalsCodec) (trips : RoundTrips codec) where
  main-write_totals :
      (disk : Disk) (t : Totals) (files : Files)
      → Works disk
      → IsInt64 t
      → read_totals codec true (write_totals codec disk t files).0.main ≡ t
  unfolding write_totals read_totals
  main-write_totals disk t files (r, w, n) range =
      let (text, e, d) = trips t range in
      rw (e, write_totals) (rw (w, write_totals) (rw (n, write_totals) d))

  flush_some :
      (disk : Disk) (s : Session)
      → is_zero s.counters ≡ false
      → (flush codec disk s).0 ≡ record {
        counters = no_totals;
        files =
            (write_totals codec disk
              (add_totals (read_totals codec disk.can_read s.files.main) s.counters)
              s.files).0;
      }
  unfolding flush
  flush_some disk s h = rw h

  flush_nothing :
      (disk : Disk) (s : Session) → is_zero s.counters ≡ true → (flush codec disk s).0 ≡ s
  unfolding flush
  flush_nothing disk s h =
      rw h (ap (λ c. record s { counters = c }) (sym (is_zero-no_totals s.counters h)))

  pub accounted-flush :
      (disk : Disk) (s : Session)
      → Works disk
      → accounted codec (flush codec disk s).0 ≡ accounted codec s
  accounted-flush disk s works = elim (Bool-cases (is_zero s.counters)) [
    | inl nothing ↦ ap (accounted codec) (flush_nothing disk s nothing)
    | inr something ↦
        let old = read_totals codec true s.files.main in
        let read : read_totals codec disk.can_read s.files.main ≡ old =
          ap (λ r. read_totals codec r s.files.main) works.0 in
        ap (accounted codec) (flush_some disk s something)
        ∙ (unfold accounted in
            ap (λ t. add_totals t no_totals)
              (main-write_totals disk _ s.files works (add_totals-IsInt64 _ s.counters)
                ∙ ap (λ t. add_totals t s.counters) read)
            ∙ add_totals-no_totals old s.counters)
  ]

  accounted-count :
      (a : Add) (s : Session)
      → accounted codec (record s { counters = add_counter a s.counters })
        ≡ add_counter a (accounted codec s)
  unfolding accounted
  accounted-count a s = add_counter-add_totals a _ s.counters

  -- While the file system works, and if totals that are written can be read back, what is in the
  -- file and in the counters is what was there before and everything that the goroutines have
  -- added since, each counter modulo 2 ^ 64, in whatever order their additions and flushes
  -- interleave.
  pub accounted-run :
      (actions : List Action) (s : Session)
      → AllWork actions
      → accounted codec (run codec actions s) ≡ add_totals (accounted codec s) (added actions)
  unfolding run added
  accounted-run [] s h = unfold accounted in sym (add_totals-no_totals _ s.counters)
  accounted-run (counts a ∷ rest) s h =
      accounted-run rest (record s { counters = add_counter a s.counters }) h
      ∙ ap (λ t. add_totals t (added rest)) (accounted-count a s)
      ∙ sym (add_totals-add_counter a (accounted codec s) (added rest))
  accounted-run (flushes disk ∷ rest) s h =
      accounted-run rest (flush codec disk s).0 h.1
      ∙ ap (λ t. add_totals t (added rest)) (accounted-flush disk s h.0)
