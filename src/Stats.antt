-- ===== src/Stats.antt =====
-- internal/stats/stats.go: the counters of a session, and their merge into the totals on disk.
--
-- The disk is what stands under the path; what the system calls of one flush return is an argument.
-- `flushMu` makes a flush one step of its process.
pub mod Merge
pub mod Failure
pub mod Report
use mcp_content_guard.Base.{
  ℕ, zero, suc, ◌+◌, ◌/◌, ◌^◌, Bool, true, false, not, ◌&&◌, ◌||◌, Option, none, some, List, [],
  ◌∷◌, ◌++◌, ◌==◌, if◌then◌else◌,
}
use mcp_content_guard.Base.Bytes.{Bytes, codes, has_prefix}
use mcp_content_guard.Base.Int64.{Int64, add64, sub64, lt64}
use mcp_content_guard.Json.{Totals}

abbrev pub no_totals : Totals
no_totals = record { bytes_cached = 0; bytes_sent = 0; responses_cached = 0; seek_calls = 0 }

-- How totals are written to the file, and what is read back from a file, which need not be one that
-- was written so: json.Unmarshal fills what it can, and its error is dropped.
pub record TotalsCodec : Type 0 where
  pub encode : Totals → Option Bytes
  pub decode : Bytes → Totals

unfoldable pub bytes_saved : Totals → Int64
bytes_saved t = let saved = sub64 t.bytes_cached t.bytes_sent in if lt64 saved 0 then 0 else saved

-- `/ 4`, of a number that is not negative
unfoldable pub estimated_tokens_saved : Totals → Int64
unfolding bytes_saved
estimated_tokens_saved t = bytes_saved t / 4

unfoldable pub add_totals : Totals → Totals → Totals
unfolding add64
add_totals a b = record {
  bytes_cached = add64 a.bytes_cached b.bytes_cached;
  bytes_sent = add64 a.bytes_sent b.bytes_sent;
  responses_cached = add64 a.responses_cached b.responses_cached;
  seek_calls = add64 a.seek_calls b.seek_calls;
}

-- The path's file, and the file with `.tmp` behind its name.
pub record Files : Type 0 where
  pub main : Option Bytes
  pub temporary : Option Bytes

-- What one flush meets: whether the file can be read, what a failed write leaves in the temporary
-- file (`none` for a write that succeeds), and whether that file can be renamed.
pub record Disk : Type 0 where
  pub can_read : Bool
  pub write_failure : Option (Option Bytes)
  pub can_rename : Bool

-- A `*Stats` that is not nil: its four atomic counters, and the disk.
pub record Session : Type 0 where
  pub counters : Totals
  pub files : Files

unfoldable pub is_zero : Totals → Bool
is_zero t =
    (t.bytes_cached == 0) && (t.bytes_sent == 0) && (t.responses_cached == 0) && (t.seek_calls == 0)

-- One atomic `Add` on a counter.
pub data Add : Type 0 where
  cached sent responses seeks : Int64 → Add

unfoldable pub add_counter : Add → Totals → Totals
unfolding add64
add_counter (cached n) t = record t { bytes_cached = add64 t.bytes_cached n }
add_counter (sent n) t = record t { bytes_sent = add64 t.bytes_sent n }
add_counter (responses n) t = record t { responses_cached = add64 t.responses_cached n }
add_counter (seeks n) t = record t { seek_calls = add64 t.seek_calls n }

module _ (codec : TotalsCodec) where
  unfoldable pub read_totals : Bool → Option Bytes → Totals
  read_totals false main = no_totals
  read_totals true none = no_totals
  read_totals true (some text) = codec.decode text

  -- The second component is whether there was no error.
  unfoldable pub write_totals : Disk → Totals → Files → Files × Bool
  write_totals disk t files = elim (codec.encode t) [
    | none ↦ (files, false)
    | some text ↦ elim disk.write_failure [
      | some left ↦ (record files { temporary = left }, false)
      | none ↦
          if disk.can_rename
          then (record { main = some text; temporary = none }, true)
          else (record files { temporary = some text }, false)
    ]
  ]

  unfoldable pub flush : Disk → Session → Session × Bool
  unfolding is_zero add_totals read_totals write_totals
  flush disk s =
      let merged = add_totals (read_totals disk.can_read s.files.main) s.counters in
      let (files', fine) = write_totals disk merged s.files in
      if is_zero s.counters
      then (record s { counters = no_totals }, true)
      else (record { counters = no_totals; files = files' }, fine)

  -- The methods of a `*Stats`; `none` is the nil pointer.
  unfoldable pub record_cache : Disk → Int64 → Int64 → Option Session → Option Session
  unfolding add_counter flush
  record_cache disk bytes_cached bytes_sent none = none
  record_cache disk bytes_cached bytes_sent (some s) =
      let t = add_counter (cached bytes_cached) s.counters in
      let t' = add_counter (sent bytes_sent) t in
      let t'' = add_counter (responses 1) t' in some (flush disk (record s { counters = t'' })).0

  unfoldable pub record_seek : Disk → Option Session → Option Session
  unfolding add_counter flush
  record_seek disk none = none
  record_seek disk (some s) =
      some (flush disk (record s { counters = add_counter (seeks 1) s.counters })).0

  unfoldable pub save : Disk → Option Session → Option Session × Bool
  unfolding flush
  save disk none = (none, true)
  save disk (some s) = let (s', fine) = flush disk s in (some s', fine)
