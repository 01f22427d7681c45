-- ===== src/Stats/Report/Directory.antt =====
-- The totals of a directory, and what a flush adds to them.
use mcp_content_guard.Base.{
  ◌≡◌, refl, sym, ap, ◌∙◌, true, false, Option, some, List, [], ◌∷◌, ◌++◌, arith, inl, inr,
  Bool-cases,
}
use mathlib.Core.List.{reverse-append}
use mcp_content_guard.Base.Bytes.{Bytes, codes, has_suffix, has_prefix}
use mcp_content_guard.Base.Int64.{add64}
use mcp_content_guard.Json.{Totals}
use mcp_content_guard.Stats.{no_totals, TotalsCodec, add_totals, Disk, Session, read_totals, flush}
use mcp_content_guard.Stats.Merge.{Works, accounted, RoundTrips, accounted-flush}
use mcp_content_guard.Stats.Failure.{counters-flush}
use mcp_content_guard.Stats.Report.{Entry, is_stats_file, load, add_files, load_all}

add_totals_assoc : (a b c : Totals) → add_totals (add_totals a b) c ≡ add_totals a (add_totals b c)
unfolding add_totals add64
add_totals_assoc a b c = ground arith

add_totals_comm : (a b : Totals) → add_totals a b ≡ add_totals b a
unfolding add_totals add64
add_totals_comm a b = ground arith

-- Another order of the sum.
add_totals_right : (a b c : Totals) → add_totals (add_totals a b) c ≡ add_totals (add_totals a c) b
add_totals_right a b c =
    add_totals_assoc a b c ∙ ap (add_totals a) (add_totals_comm b c) ∙ sym (add_totals_assoc a c b)

-- The file that a flush writes first has the name of the file of totals with ".tmp" behind it.
tmp_suffix : (name : Bytes) → has_suffix (name ++ codes ".tmp") (codes ".json") ≡ false
unfolding has_suffix has_prefix
tmp_suffix name = rw (reverse-append name (codes ".tmp")) refl

tmp_other : (e : Entry) (name : Bytes) → e.name ≡ name ++ codes ".tmp" → is_stats_file e ≡ false
unfolding is_stats_file
tmp_other e name h = rw (h, tmp_suffix name) (ground arith)

module _ (codec : TotalsCodec) where
  add_files-append :
      (es fs : List Entry) (total : Totals)
      → add_files codec (es ++ fs) total ≡ add_files codec fs (add_files codec es total)
  unfolding add_files
  add_files-append [] fs total = refl
  add_files-append (e ∷ es) fs total = elim (Bool-cases (is_stats_file e)) [
    | inl stats ↦ rw stats (add_files-append es fs (add_totals total (load codec e.text)))
    | inr other ↦ rw other (add_files-append es fs total)
  ]

  add_files-add_totals :
      (es : List Entry) (total more : Totals)
      → add_files codec es (add_totals total more) ≡ add_totals (add_files codec es total) more
  unfolding add_files
  add_files-add_totals [] total more = refl
  add_files-add_totals (e ∷ es) total more = elim (Bool-cases (is_stats_file e)) [
    | inl stats ↦ rw stats (
        ap (add_files codec es) (add_totals_right total more (load codec e.text))
        ∙ add_files-add_totals es (add_totals total (load codec e.text)) more)
    | inr other ↦ rw other (add_files-add_totals es total more)
  ]

  -- The files before and behind one file of statistics.
  add_files-middle :
      (es fs : List Entry) (e : Entry) (text : Option Bytes) (total : Totals)
      → is_stats_file e ≡ true
      → add_files codec (es ++ (record e { text = text } ∷ fs)) total
        ≡ add_files codec fs (add_totals (add_files codec es total) (load codec text))
  unfolding add_files is_stats_file
  add_files-middle es fs e text total h =
      add_files-append es (record e { text = text } ∷ fs) total ∙ rw h

  -- Wherever that file stands in the directory, and whatever is in it, `LoadAll` does not count it.
  load_all-tmp :
      (es fs : List Entry) (e : Entry) (name : Bytes)
      → e.name ≡ name ++ codes ".tmp"
      → load_all codec (some (es ++ (e ∷ fs))) ≡ load_all codec (some (es ++ fs))
  unfolding load_all add_files
  load_all-tmp es fs e name h =
      add_files-append es (e ∷ fs) no_totals
      ∙ rw (tmp_other e name h) (sym (add_files-append es fs no_totals))

add_totals-read : (a b : Totals) → add_totals a (add_totals b no_totals) ≡ add_totals a b
unfolding add_totals add64
add_totals-read a b = ground arith

module _ (codec : TotalsCodec) (trips : RoundTrips codec) where
  -- What a flush leaves to be read, beside any sum.
  read-flush :
      (disk : Disk) (s : Session) (a : Totals)
      → Works disk
      → add_totals a (read_totals codec true (flush codec disk s).0.files.main)
        ≡ add_totals (add_totals a (read_totals codec true s.files.main)) s.counters
  unfolding accounted
  read-flush disk s a works =
      let old = read_totals codec true s.files.main in
      let new = read_totals codec true (flush codec disk s).0.files.main in
      sym (add_totals-read a new)
      ∙ ap (λ c. add_totals a (add_totals new c)) (sym (counters-flush codec disk s))
      ∙ ap (add_totals a) (accounted-flush codec trips disk s works)
      ∙ sym (add_totals_assoc a old s.counters)

  -- While the file system works, and if totals that are written can be read back, a flush of a session
  -- adds its counters to the totals of the directory in which its file stands, among any others.
  pub load_all-flush :
      (es fs : List Entry) (e : Entry) (disk : Disk) (s : Session)
      → is_stats_file e ≡ true
      → Works disk
      → load_all codec (some (es ++ (record e { text = (flush codec disk s).0.files.main } ∷ fs)))
        ≡ add_totals
            (load_all codec (some (es ++ (record e { text = s.files.main } ∷ fs))))
            s.counters
  unfolding load_all load
  load_all-flush es fs e disk s h works =
      let a = add_files codec es no_totals in
      add_files-middle codec es fs e (flush codec disk s).0.files.main no_totals h
      ∙ ap (add_files codec fs) (read-flush disk s a works)
      ∙ add_files-add_totals codec fs (add_totals a (read_totals codec true s.files.main))
          s.counters
      ∙ ap (λ t. add_totals t s.counters)
          (sym (add_files-middle codec es fs e s.files.main no_totals h))
