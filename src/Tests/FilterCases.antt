-- ===== src/Tests/FilterCases.antt =====
-- internal/filter and internal/schema at concrete inputs.
use mcp_content_guard.Base.{
  ℕ, ◌+◌, ◌≤◌, ◌≡◌, ◌⊎◌, refl, Option, none, some, List, [], ◌∷◌, ◌++◌, length, get_elem?, arith,
}
use mcp_content_guard.Base.Bytes.{Bytes, codes, bytes_eq, has_prefix}
use mcp_content_guard.Base.Int64.{lt64}
use mcp_content_guard.Base.Lines.{split, join}
use mcp_content_guard.Base.Space.{trim_space, is_space}
use mcp_content_guard.Base.Decimal.{atoi, show}
use mcp_content_guard.Base.Dictionary.{lookup}
use mcp_content_guard.Json.{Result, ok, err}
use mcp_content_guard.Filter.{
  mode_head, mode_tail, mode_line, newline, all_lines, select_lines, line_count, out_of_range,
  apply_full, apply_grep, apply_lines, apply_context, strip_jq_shell_syntax,
}
use mcp_content_guard.Filter.Total.{apply, apply_context-Returns}
use mcp_content_guard.Filter.Select.{head-tail_partition, apply_line_lem}
use mcp_content_guard.Filter.Grep.{matching, apply_grep_lem}
use mcp_content_guard.Filter.Syntax.{apply_counted}
use mcp_content_guard.Schema.{inject_seek_result}
use mcp_content_guard.Schema.Inject.{IsInjected, inject_seek_result-IsInjected}
use mcp_content_guard.Tests.Fixtures.{content, blocks, codec, engines}

abbrev in_time : ℕ → Option Bytes
in_time k = none

abbrev lines : List Bytes
lines = codes "a" ∷ codes "b" ∷ codes "c" ∷ []

lines_of_blocks : all_lines blocks ≡ lines
unfolding all_lines split bytes_eq
lines_of_blocks = refl

counts :
    (line_count (codes " 1 ") ≡ some 1)
    × (line_count (codes "+2") ≡ some 2)
    × (line_count (codes "-1") ≡ none)
    × (line_count (codes "x") ≡ none)
unfolding line_count trim_space is_space atoi lt64
counts = (refl, refl, refl, refl)

stripped :
    (strip_jq_shell_syntax (codes " jq '.a' ") ≡ codes ".a")
    × (strip_jq_shell_syntax (codes "jq .a") ≡ codes ".a")
    × (strip_jq_shell_syntax (codes "jq '") ≡ codes "'")
unfolding strip_jq_shell_syntax trim_space is_space has_prefix
stripped = (refl, refl, refl)

decoded : codec.decode_blocks content ≡ ok blocks
unfolding bytes_eq
decoded = refl

three : line_count (codes "3") ≡ some 3
unfolding line_count trim_space is_space atoi lt64
three = refl

all_three : length (all_lines blocks) ≤ 3
unfolding all_lines split bytes_eq
all_three = omega arith

three_lines : 1 + 2 ≡ length (all_lines blocks)
unfolding all_lines split bytes_eq
three_lines = refl

head-tail_partition_example :
    (first : Bytes) × (last : Bytes) × (apply_lines codec engines content (codes " 1 ") mode_head
      ≡ ok first)
    × (apply_lines codec engines content (codes "+2") mode_tail ≡ ok last)
    × (apply_full codec engines content ≡ ok (first ++ (newline ∷ last)))
head-tail_partition_example =
    head-tail_partition codec engines content (codes " 1 ") (codes "+2") 1 2 blocks counts.0
      counts.1 decoded (omega arith) (omega arith) three_lines

apply_line_lem_example :
    ((line : Bytes) × (get_elem? (all_lines blocks) 1 ≡ some line)
      × (apply_lines codec engines content (codes " 1 ") mode_line ≡ ok line))
    ⊎ ((length (all_lines blocks) ≤ 1)
        × (apply_lines codec engines content (codes " 1 ") mode_line
            ≡ err (out_of_range 1 (length (all_lines blocks)))))
apply_line_lem_example =
    apply_line_lem codec engines content (codes " 1 ") 1 blocks counts.0 decoded

apply_grep_lem_example :
    (apply_grep codec engines in_time content (codes "b")
      ≡ ok (join newline (matching (λ line. bytes_eq line (codes "b")) (all_lines blocks))))
    ⊎ ((k : ℕ) × (e : Bytes) × (in_time k ≡ some e)
        × (apply_grep codec engines in_time content (codes "b") ≡ err (codes "grep: " ++ e)))
apply_grep_lem_example = apply_grep_lem codec engines content (codes "b") in_time refl decoded

apply_counted_example :
    apply codec engines 100 in_time content (codes "head:" ++ show 2)
    ≡ select_lines mode_head 2 (all_lines blocks)
apply_counted_example =
    apply_counted codec engines 100 in_time content mode_head 2 blocks (omega arith) decoded

plain_jq : strip_jq_shell_syntax (codes ".a") ≡ codes ".a"
unfolding strip_jq_shell_syntax trim_space is_space has_prefix
plain_jq = refl

apply_context-Returns_example :
    (r : Result Bytes) × (apply_context codec engines 100 in_time content (codes "jq .a") ≡ some r)
apply_context-Returns_example =
    apply_context-Returns codec engines 100 in_time content (codes "jq .a")

listed : codec.decode_map (codes "R") ≡ ok (some ((codes "content", content) ∷ []))
unfolding bytes_eq
listed = refl

injected : inject_seek_result codec (codes "{}") (codes "R") ≡ ok (codes "map")
unfolding inject_seek_result lookup bytes_eq
injected = refl

inject_seek_result-IsInjected_example :
    IsInjected codec (codes "{}") ((codes "content", content) ∷ []) (codes "map")
inject_seek_result-IsInjected_example =
    inject_seek_result-IsInjected codec (codes "{}") (codes "R") (codes "map")
      (some ((codes "content", content) ∷ [])) listed injected
