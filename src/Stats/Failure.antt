-- ===== src/Stats/Failure.antt =====
-- A flush when the file system fails.
use mcp_content_guard.Base.{
  ◌≡◌, ◌≢◌, ◌⊎◌, ◌∙◌, Bool, true, false, none, some, arith, inl, inr, Bool-cases, Option-cases,
}
use mcp_content_guard.Base.Bytes.{Bytes}
use mcp_content_guard.Json.{Totals}
use mcp_content_guard.Stats.{
  no_totals, TotalsCodec, add_totals, Files, Disk, Session, is_zero, read_totals, write_totals,
  flush,
}

-- The temporary file cannot be written, or cannot be renamed.
abbrev pub Fails : Disk → Type 0
Fails d = (d.write_failure ≢ none) ⊎ (d.can_rename ≡ false)

module _ (codec : TotalsCodec) where
  -- The file is left alone, or becomes the encoding of the totals.
  data Written (t : Totals) (files : Files) (r : Files × Bool) : Type 0 where
    kept : r.0.main ≡ files.main → Written t files r
    replaced :
        (text : Bytes)
        → codec.encode t ≡ some text
        → r.0.main ≡ some text
        → r.1 ≡ true
        → Written t files r

  write_totals-Written :
      (disk : Disk) (t : Totals) (files : Files) → Written t files (write_totals codec disk t files)
  unfolding write_totals
  write_totals-Written disk t files = elim (Option-cases (codec.encode t)) [
    | inl none_encoded ↦ kept (rw (none_encoded, write_totals))
    | inr (text, e) ↦ elim (Option-cases disk.write_failure) [
      | inr (left, w) ↦ kept (ground arith)
      | inl w ↦ elim (Bool-cases disk.can_rename) [
        | inl n ↦ replaced text e (ground arith) (ground arith)
        | inr n ↦ kept (ground arith)
      ]
    ]
  ]

  flush_main :
      (disk : Disk) (s : Session)
      → is_zero s.counters ≡ false
      → (flush codec disk s).0.files.main
        ≡ (write_totals codec disk
            (add_totals (read_totals codec disk.can_read s.files.main) s.counters)
            s.files).0.main
  unfolding flush
  flush_main disk s h = rw h

  flush_flag :
      (disk : Disk) (s : Session)
      → is_zero s.counters ≡ false
      → (flush codec disk s).1
        ≡ (write_totals codec disk
            (add_totals (read_totals codec disk.can_read s.files.main) s.counters)
            s.files).1
  unfolding flush
  flush_flag disk s h = rw h

  pub counters-flush : (disk : Disk) (s : Session) → (flush codec disk s).0.counters ≡ no_totals
  unfolding flush
  counters-flush disk s = elim (Bool-cases (is_zero s.counters)) [
    | inl nothing ↦ rw nothing
    | inr something ↦ rw something
  ]

  write_totals-Fails :
      (disk : Disk) (t : Totals) (files : Files)
      → Fails disk
      → ((write_totals codec disk t files).0.main ≡ files.main)
        × ((write_totals codec disk t files).1 ≡ false)
  unfolding write_totals
  write_totals-Fails disk t files h = elim (Option-cases (codec.encode t)) [
    | inl unencoded ↦ (rw (unencoded, write_totals), rw (unencoded, write_totals))
    | inr (text, e) ↦ elim (Option-cases disk.write_failure) [
      | inr (left, w) ↦ (ground arith, ground arith)
      | inl w ↦ (ground arith, ground arith)
    ]
  ]

  -- A flush of counts that are not all zero, which cannot write or rename the file, reports the
  -- error and leaves the file as it was, but the counters are zero behind it: the counts are in
  -- neither.
  pub flush-Fails :
      (disk : Disk) (s : Session)
      → Fails disk
      → is_zero s.counters ≡ false
      → ((flush codec disk s).1 ≡ false)
        × ((flush codec disk s).0.files.main ≡ s.files.main)
        × ((flush codec disk s).0.counters ≡ no_totals)
  flush-Fails disk s h some_counts =
      let w = write_totals-Fails disk _ s.files h in
      (
        flush_flag disk s some_counts ∙ w.1,
        flush_main disk s some_counts ∙ w.0,
        counters-flush disk s,
      )

  -- A flush never leaves the file in part: it is as it was, or it is the whole encoding of the totals
  -- that were read with the counters added; and then there is no error.
  pub flush_atomic :
      (disk : Disk) (s : Session)
      → ((flush codec disk s).0.files.main ≡ s.files.main)
        ⊎ ((text : Bytes) × (codec.encode
                (add_totals (read_totals codec disk.can_read s.files.main) s.counters)
              ≡ some text)
            × ((flush codec disk s).0.files.main ≡ some text)
            × ((flush codec disk s).1 ≡ true))
  flush_atomic disk s = elim (Bool-cases (is_zero s.counters)) [
    | inl nothing ↦ inl (unfold flush in rw nothing)
    | inr something ↦
        elim (write_totals-Written disk
          (add_totals (read_totals codec disk.can_read s.files.main) s.counters) s.files) [
            | kept p ↦ inl (flush_main disk s something ∙ p)
            | replaced text e p q ↦
                inr (text, e, flush_main disk s something ∙ p, flush_flag disk s something ∙ q)
          ]
  ]
