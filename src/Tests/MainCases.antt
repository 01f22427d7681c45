-- ===== src/Tests/MainCases.antt =====
-- main.go at concrete inputs.
use mcp_content_guard.Base.{◌≡◌, refl, false, none, some, List, [], ◌∷◌}
use mcp_content_guard.Base.Bytes.{Bytes, codes, bytes_eq}
use mcp_content_guard.Base.Int64.{lt64}
use mcp_content_guard.Base.Space.{trim_space, is_space}
use mcp_content_guard.Base.Dictionary.{lookup, put}
use mcp_content_guard.Main.{
  Config, Flags, runs, arguments, merge_headers, choose, default_threshold,
}
use mcp_content_guard.Main.HeaderFlags.{last_value, or_else, merge_headers-last_value}

abbrev config : Config
config = record {
  threshold = default_threshold;
  max_body_bytes = 0;
  cache_max_bytes = 0;
  upstream_url = [];
  upstream_headers = (codes "A", codes "config") ∷ [];
}

abbrev flags : Flags
flags = record {
  threshold = 5;
  max_body_bytes = 0;
  cache_max_bytes = 0;
  upstream_url = [];
  listen_addr = [];
  raw_headers = codes "A: one" ∷ codes "B:x:y" ∷ codes " A :two " ∷ [];
  enable_stats = false;
}

abbrev args : List Bytes
args = codes "start" ∷ codes "--" ∷ codes "server" ∷ codes "-v" ∷ []

chosen :
    choose flags args config
    ≡ runs (codes "server" ∷ codes "-v" ∷ []) (record config { threshold = 5 }) none
unfolding choose merge_headers trim_space is_space put bytes_eq arguments lt64
chosen = refl

merged :
    merge_headers flags.raw_headers config.upstream_headers
    ≡ some ((codes "A", codes "two") ∷ (codes "B", codes "x:y") ∷ [])
unfolding merge_headers trim_space is_space put bytes_eq
merged = refl

merge_headers-last_value_example :
    lookup (codes "A") ((codes "A", codes "two") ∷ (codes "B", codes "x:y") ∷ [])
    ≡ or_else
        (last_value (codes "A") flags.raw_headers)
        (lookup (codes "A") config.upstream_headers)
merge_headers-last_value_example =
    merge_headers-last_value flags.raw_headers config.upstream_headers
      ((codes "A", codes "two") ∷ (codes "B", codes "x:y") ∷ []) (codes "A") merged
