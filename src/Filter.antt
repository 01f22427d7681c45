-- ===== src/Filter.antt =====
-- internal/filter/filter.go: jq shell syntax, the dispatch on the prefix, and the filters.
--
-- Regular expressions, the jq interpreter (a third-party package) and the quoting of %q are
-- parameters, and so is what `ctx.Err()` returns at each check.
mod Blocks
mod Jq
pub mod Total
pub mod Select
pub mod Syntax
pub mod Grep
pub use Blocks.{newline, not_blocks}
unfoldable pub use Blocks.{text_parts, all_lines}
pub use Jq.{Item, done, failed, emitted, Engines, try, invalid_jq, invalid_code}
unfoldable pub use Jq.{jq_item, jq_loop, jq_output, unwrapped, jq_input, jq_finish, apply_jq}
use mcp_content_guard.Base.{
  ℕ, zero, suc, ◌+◌, ◌-◌, ◌%◌, ◌^◌, Bool, true, false, ◌&&◌, ◌||◌, Option, none, some, List, [],
  ◌∷◌, ◌++◌, ltb, leb, ◌==◌, if◌then◌else◌, length, take, drop, get_elem?,
}
use mcp_content_guard.Base.Bytes.{Bytes, codes, bytes_eq, has_prefix}
use mcp_content_guard.Base.Int64.{Int64, lt64}
use mcp_content_guard.Base.Lines.{split, join}
use mcp_content_guard.Base.Space.{trim_space}
use mcp_content_guard.Base.Decimal.{atoi, show}
use mcp_content_guard.Json.{
  Result, ok, err, ◌>>=◌, wrap, Value, Values, Block, Codec, null, array, nil, cons,
}

pub data LineMode : Type 0 where
  mode_head mode_tail mode_line : LineMode

-- The byte at an index of a text; the source looks only at indices in range.
last_byte : Bytes → ℕ → ℕ
last_byte [] d = d
last_byte (c ∷ s) d = last_byte s c

-- `s[1 : len(s)-1]` for a text of two bytes or more
unfoldable pub strip_ends : Bytes → Bytes
strip_ends s = drop 1 (take (length s - 1) s)

-- A text of two bytes or more in a pair of single or of double quotes.
is_quoted : Bytes → Bool
unfolding last_byte
is_quoted [] = false
is_quoted (c ∷ s) =
    leb 2 (length (c ∷ s))
    && (((c == b'\'') && (last_byte s c == b'\'')) || ((c == b'"') && (last_byte s c == b'"')))

unfoldable pub strip_jq_shell_syntax : Bytes → Bytes
unfolding is_quoted strip_ends
strip_jq_shell_syntax expr =
    let s = trim_space expr in
    let t = trim_space (drop 3 s) in
    if has_prefix s (codes "jq ") then (if is_quoted t then strip_ends t else t) else expr

-- The lines of one block, from index `i` on; `checks` counts the calls of `ctx.Err()`.
unfoldable pub grep_block :
    (Bytes → Bool) → (ℕ → Option Bytes) → ℕ → ℕ → List Bytes → List Bytes → Result (ℕ × List Bytes)
grep_block matches expired i checks [] lines = ok (checks, lines)
grep_block matches expired i checks (line ∷ rest) lines =
    let lines' = if matches line then lines ++ (line ∷ []) else lines in
    let checks' = if i % 1024 == 0 then suc checks else checks in
    let later = grep_block matches expired (suc i) checks' rest lines' in
    if i % 1024 == 0
    then (elim (expired checks) [ none ↦ later | some e ↦ err (codes "grep: " ++ e) ])
    else later

unfoldable pub grep_blocks :
    (Bytes → Bool) → (ℕ → Option Bytes) → ℕ → List Block → List Bytes → Result (List Bytes)
unfolding grep_block
grep_blocks matches expired checks [] lines = ok lines
grep_blocks matches expired checks (b ∷ bs) lines =
    let skipped = grep_blocks matches expired checks bs lines in
    let searched = grep_block matches expired 0 checks (split newline b.text) lines in
    if bytes_eq b.type (codes "text")
    then (elim searched [
      | ok (checks', lines') ↦ grep_blocks matches expired checks' bs lines'
      | err e ↦ err e
    ])
    else skipped

pub out_of_range : ℕ → ℕ → Bytes
out_of_range n lines =
    codes "line "
    ++ (show n ++ (codes " out of range (content has " ++ (show lines ++ codes " lines)")))

unfoldable pub select_lines : LineMode → ℕ → List Bytes → Result Bytes
select_lines mode_head n all =
    let n' = if ltb (length all) n then length all else n in ok (join newline (take n' all))
select_lines mode_tail n all =
    let n' = if ltb (length all) n then length all else n in
    ok (join newline (drop (length all - n') all))
select_lines mode_line n all = elim (get_elem? all n) [
  | some line ↦ ok line
  | none ↦ err (out_of_range n (length all))
]

-- A non-negative count.
unfoldable pub line_count : Bytes → Option ℕ
line_count n_str = elim (atoi (trim_space n_str)) [
  | none ↦ none
  | some n ↦ if lt64 n 0 then none else some n
]

module _ (codec : Codec) (engines : Engines) where
  open codec use {decode_blocks, decode_value, encode_indented}
  open engines use {compile_regexp, parse_jq, quote}

  unfoldable pub apply_full : Bytes → Result Bytes
  apply_full content = do
    blocks ← wrap not_blocks (decode_blocks content)
    ok (join newline (text_parts blocks))

  unfoldable pub apply_grep : (ℕ → Option Bytes) → Bytes → Bytes → Result Bytes
  apply_grep expired content pattern_text = do
    matches ← wrap (λ e. codes "invalid grep pattern: " ++ e) (compile_regexp pattern_text)
    blocks ← wrap not_blocks (decode_blocks content)
    lines ← grep_blocks matches expired 0 blocks []
    ok (join newline lines)

  unfoldable pub apply_lines : Bytes → Bytes → LineMode → Result Bytes
  apply_lines content n_str mode = elim (line_count n_str) [
    | none ↦
        err
          (codes "invalid line count " ++ (quote n_str ++ codes ": must be a non-negative integer"))
    | some n ↦ do
      blocks ← wrap not_blocks (decode_blocks content)
      select_lines mode n (all_lines blocks)
  ]

  unfoldable pub apply_context : ℕ → (ℕ → Option Bytes) → Bytes → Bytes → Option (Result Bytes)
  unfolding strip_jq_shell_syntax
  apply_context limit expired content filter_expr =
      let e = strip_jq_shell_syntax filter_expr in
      if bytes_eq e []
      then some (apply_full content)
      else if has_prefix e (codes "grep:")
      then some (apply_grep expired content (drop 5 e))
      else if has_prefix e (codes "head:")
      then some (apply_lines content (drop 5 e) mode_head)
      else if has_prefix e (codes "tail:")
      then some (apply_lines content (drop 5 e) mode_tail)
      else if has_prefix e (codes "line:")
      then some (apply_lines content (drop 5 e) mode_line)
      else apply_jq codec engines limit content e
