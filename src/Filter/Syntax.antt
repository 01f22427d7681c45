-- ===== src/Filter/Syntax.antt =====
-- The syntax of filter expressions: the shell wrapper round jq, and counts behind a prefix.
use mcp_content_guard.Base.{
  ℕ, zero, suc, ◌-◌, ◌^◌, ◌<◌, ◌≡◌, refl, sym, ap, ◌∙◌, ◌⊎◌, true, false, Option, some, List, [],
  ◌∷◌, ◌++◌, arith, length, length-append, take, drop, All,
}
use mcp_content_guard.Base.Bytes.{Bytes, bytes_eq, codes, has_prefix, has_prefix-append}
use mcp_content_guard.Base.Int64.{lt64}
use mcp_content_guard.Base.Space.{trim_space, trim_space_ink, trim_space-All, IsInk, is_space}
use mcp_content_guard.Base.Decimal.{show, IsDigit, show-IsDigit, atoi-show}
use mcp_content_guard.Json.{ok, Block, Codec}
use mcp_content_guard.Filter.{
  Engines, LineMode, mode_head, mode_tail, mode_line, last_byte, strip_ends, is_quoted,
  strip_jq_shell_syntax, all_lines, select_lines, line_count, apply_lines, apply_full,
  apply_context,
}
use mcp_content_guard.Filter.Total.{apply, apply_lem, apply-of_eq}
use mcp_content_guard.Filter.Select.{apply_lines-select_lines}

last_byte-snoc : (s : Bytes) (c d : ℕ) → last_byte (s ++ (c ∷ [])) d ≡ c
unfolding last_byte
last_byte-snoc [] c d = refl
last_byte-snoc (e ∷ s) c d = last_byte-snoc s c e

take-snoc : (s : Bytes) (c : ℕ) (n : ℕ) → n ≡ length s → take n (s ++ (c ∷ [])) ≡ s
take-snoc [] c zero h = refl
take-snoc [] c (suc n) h = absurd (omega arith)
take-snoc (e ∷ s) c zero h = absurd (omega arith)
take-snoc (e ∷ s) c (suc n) h = ap (◌∷◌ e) (take-snoc s c n (omega arith))

-- A text in quotes, and what is between them.
strip_ends-quoted : (q : ℕ) (e : Bytes) → strip_ends (q ∷ e ++ (q ∷ [])) ≡ e
unfolding strip_ends
strip_ends-quoted q e = ap (drop 1) (
    take-snoc (q ∷ e) q (length (q ∷ e ++ (q ∷ [])) - 1)
      (omega (arith, length-append {0} e (q ∷ []))))

abbrev pub IsQuote : ℕ → Type 0
IsQuote q = (q ≡ b'\'') ⊎ (q ≡ b'"')

is_quoted-quoted : (q : ℕ) (e : Bytes) → IsQuote q → is_quoted (q ∷ e ++ (q ∷ [])) ≡ true
unfolding is_quoted
is_quoted-quoted q e h = ground (arith, last_byte-snoc e q q, length-append {0} e (q ∷ []))

quote-IsInk : (q : ℕ) → IsQuote q → IsInk q
unfolding is_space
quote-IsInk q h = (ground arith, ground arith)

-- A jq expression in the shell wrapper, `jq 'e'` or `jq "e"`, is the expression itself, whatever
-- bytes it holds.
pub strip_jq_shell_syntax-quoted :
    (q : ℕ) (e : Bytes) → IsQuote q → strip_jq_shell_syntax (codes "jq " ++ (q ∷ e ++ (q ∷ []))) ≡ e
unfolding strip_jq_shell_syntax is_space
strip_jq_shell_syntax-quoted q e h =
    let ink = quote-IsInk q h in
    let whole : trim_space (codes "jq " ++ (q ∷ e ++ (q ∷ [])))
        ≡ codes "jq " ++ (q ∷ e ++ (q ∷ [])) =
      trim_space_ink b'j' q (b'q' ∷ 32 ∷ q ∷ e) (refl, refl) ink in
    let inner : trim_space (q ∷ e ++ (q ∷ [])) ≡ q ∷ e ++ (q ∷ []) = trim_space_ink q q e ink ink in
    rw (whole, has_prefix-append (codes "jq ") (q ∷ e ++ (q ∷ [])), inner, is_quoted-quoted q e h)
      (strip_ends-quoted q e)

-- An expression whose first bytes are not "jq " behind white space is left as it is.
pub strip_jq_shell_syntax_plain :
    (e : Bytes) → has_prefix (trim_space e) (codes "jq ") ≡ false → strip_jq_shell_syntax e ≡ e
unfolding strip_jq_shell_syntax
strip_jq_shell_syntax_plain e h = rw h

-- The prefix of a line filter.
abbrev pub prefix_of : LineMode → Bytes
prefix_of mode_head = codes "head:"
prefix_of mode_tail = codes "tail:"
prefix_of mode_line = codes "line:"

digits-IsInk : (s : Bytes) → All IsDigit s → All IsInk s
unfolding is_space
digits-IsInk [] h = tt
digits-IsInk (c ∷ s) h = ((ground arith, ground arith), digits-IsInk s h.1)

-- A printed count is read back as it is.
pub line_count-show : (n : ℕ) → n < 2 ^ 63 → line_count (show n) ≡ some n
unfolding line_count lt64
line_count-show n h =
    let trimmed = trim_space-All (show n) (digits-IsInk (show n) (show-IsDigit n)) in
    rw (trimmed, atoi-show n h, line_count) (ground arith)

prefix_of-IsInk : (mode : LineMode) (s : Bytes) → All IsInk s → All IsInk (prefix_of mode ++ s)
unfolding is_space
prefix_of-IsInk mode_head s h =
    ((refl, refl), ((refl, refl), ((refl, refl), ((refl, refl), ((refl, refl), h)))))
prefix_of-IsInk mode_tail s h =
    ((refl, refl), ((refl, refl), ((refl, refl), ((refl, refl), ((refl, refl), h)))))
prefix_of-IsInk mode_line s h =
    ((refl, refl), ((refl, refl), ((refl, refl), ((refl, refl), ((refl, refl), h)))))

strip_prefix_of :
    (mode : LineMode) (s : Bytes)
    → All IsInk s
    → strip_jq_shell_syntax (prefix_of mode ++ s) ≡ prefix_of mode ++ s
unfolding has_prefix
strip_prefix_of mode s h =
    strip_jq_shell_syntax_plain (prefix_of mode ++ s)
      (rw (trim_space-All (prefix_of mode ++ s) (prefix_of-IsInk mode s h)) (no_jq mode s))
  where
    no_jq : (m : LineMode) (t : Bytes) → has_prefix (prefix_of m ++ t) (codes "jq ") ≡ false
    no_jq mode_head t = refl
    no_jq mode_tail t = refl
    no_jq mode_line t = refl

module _ (codec : Codec) (engines : Engines) (limit : ℕ) (expired : ℕ → Option Bytes)
    (content : Bytes) where
  apply_context-prefix_of :
      (mode : LineMode) (s : Bytes)
      → All IsInk s
      → apply_context codec engines limit expired content (prefix_of mode ++ s)
        ≡ some (apply_lines codec engines content s mode)
  unfolding apply_context bytes_eq has_prefix
  apply_context-prefix_of mode_head s h = rw (strip_prefix_of mode_head s h)
  apply_context-prefix_of mode_tail s h = rw (strip_prefix_of mode_tail s h)
  apply_context-prefix_of mode_line s h = rw (strip_prefix_of mode_line s h)

  apply_context-strip :
      (e f : Bytes)
      → strip_jq_shell_syntax e ≡ strip_jq_shell_syntax f
      → apply_context codec engines limit expired content e
        ≡ apply_context codec engines limit expired content f
  unfolding apply_context
  apply_context-strip e f h = rw h

  -- For content that decodes, `head:`, `tail:` and `line:` with a printed count below 2 ^ 63
  -- select that many lines, or that line, from the lines of the text blocks.
  pub apply_counted :
      (mode : LineMode) (n : ℕ) (blocks : List Block)
      → n < 2 ^ 63
      → codec.decode_blocks content ≡ ok blocks
      → apply codec engines limit expired content (prefix_of mode ++ show n)
        ≡ select_lines mode n (all_lines blocks)
  apply_counted mode n blocks fits d =
      apply-of_eq codec engines limit expired content _ _
        (apply_context-prefix_of mode (show n) (digits-IsInk (show n) (show-IsDigit n)))
      ∙ apply_lines-select_lines codec engines content (show n) n blocks mode
          (line_count-show n fits) d

  -- The empty filter is the full text.
  pub apply-nil : apply codec engines limit expired content [] ≡ apply_full codec engines content
  apply-nil =
      apply-of_eq codec engines limit expired content [] _
        (unfold apply_context trim_space has_prefix bytes_eq in refl)

  -- A jq expression in quotes behind "jq " runs as the expression between the quotes does, if
  -- that is not in such a wrapper itself.
  pub apply-quoted :
      (q : ℕ) (e : Bytes)
      → IsQuote q
      → strip_jq_shell_syntax e ≡ e
      → apply codec engines limit expired content (codes "jq " ++ (q ∷ e ++ (q ∷ [])))
        ≡ apply codec engines limit expired content e
  apply-quoted q e h plain = apply-of_eq codec engines limit expired content _ _ (
      apply_context-strip _ e (strip_jq_shell_syntax-quoted q e h ∙ sym plain)
      ∙ apply_lem codec engines limit expired content e)
