-- ===== src/Stats/Report.antt =====
-- internal/stats/stats.go: the files of a directory, their totals, and the line that is printed.
pub mod Rounding
pub mod Directory
use mcp_content_guard.Base.{
  ℕ, ◌-◌, ◌^◌, Bool, true, false, not, ◌&&◌, ◌||◌, Option, none, some, List, [], ◌∷◌, ◌++◌, ◌==◌,
  if◌then◌else◌, ltb, take,
}
use mcp_content_guard.Base.Bytes.{Bytes, codes, has_prefix, has_suffix}
use mcp_content_guard.Base.Int64.{Int64, lt64, le64}
use mcp_content_guard.Base.Decimal.{show64}
use mcp_content_guard.Base.Float.{tenths, show_tenths}
use mcp_content_guard.Cache.{hex}
use mcp_content_guard.Json.{Totals}
use mcp_content_guard.Stats.{
  no_totals, TotalsCodec, add_totals, bytes_saved, estimated_tokens_saved, read_totals,
}

-- The path of a key's file, for what `filepath.Join`, the cache directory and SHA-256 give.
unfoldable pub path_for_key : (Bytes → Bytes → Bytes) → Bytes → (Bytes → Bytes) → Bytes → Bytes
path_for_key join_path dir sha256 key =
    join_path dir (codes "stats-" ++ (hex (take 8 (sha256 key)) ++ codes ".json"))

-- `os.UserCacheDir`, and `os.TempDir` if that fails.
unfoldable pub default_dir : (Bytes → Bytes → Bytes) → Option Bytes → Bytes → Bytes
default_dir join_path user_cache temp =
    join_path (elim user_cache [ none ↦ temp | some d ↦ d ]) (codes "mcp-context-guard")

-- An entry of a directory. What can be read of it is `none` if that fails.
pub record Entry : Type 0 where
  pub name : Bytes
  pub is_dir : Bool
  pub text : Option Bytes

unfoldable pub is_stats_file : Entry → Bool
unfolding has_suffix
is_stats_file e = not (
    e.is_dir
    || (not (has_prefix e.name (codes "stats-")) || not (has_suffix e.name (codes ".json"))))

module _ (codec : TotalsCodec) where
  unfoldable pub load : Option Bytes → Totals
  unfolding read_totals
  load text = read_totals codec true text

  -- The loop of `LoadAll`.
  unfoldable pub add_files : List Entry → Totals → Totals
  unfolding is_stats_file add_totals load
  add_files [] total = total
  add_files (e ∷ es) total =
      let skipped = add_files es total in
      let added = add_files es (add_totals total (load e.text)) in
      if is_stats_file e then added else skipped

  -- The entries are `none` if the directory cannot be read.
  unfoldable pub load_all : Option (List Entry) → Totals
  unfolding add_files
  load_all none = no_totals
  load_all (some entries) = add_files entries no_totals

unfoldable pub format_bytes : Int64 → Bytes
format_bytes n =
    if le64 (2 ^ 20) n
    then show_tenths (tenths n (2 ^ 20)) ++ codes " MB"
    else if le64 (2 ^ 10) n
    then show_tenths (tenths n (2 ^ 10)) ++ codes " KB"
    else show64 n ++ codes " B"

unfoldable pub format : Totals → Bytes
unfolding format_bytes bytes_saved estimated_tokens_saved
format t =
    if (t.responses_cached == 0) && (t.seek_calls == 0)
    then codes "No stats recorded yet."
    else codes "responses cached: "
      ++ (show64 t.responses_cached
          ++ (codes " | intercepted: "
              ++ (format_bytes t.bytes_cached
                  ++ (codes " | saved: "
                      ++ (format_bytes (bytes_saved t)
                          ++ (codes " (~"
                              ++ (show64 (estimated_tokens_saved t)
                                  ++ (codes " tokens) | seek_result calls: "
                                      ++ show64 t.seek_calls))))))))
