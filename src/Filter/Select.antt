-- ===== src/Filter/Select.antt =====
-- The line filters: what head, tail and line select, against the full text.
use mcp_content_guard.Base.{
  ℕ, zero, suc, ◌+◌, ◌-◌, ◌≤◌, ◌<◌, ◌≡◌, ◌≢◌, ◌⊎◌, refl, sym, ap, ◌∙◌, false, some, none, List, [],
  ◌∷◌, ◌++◌, arith, Bool-cases, inl, inr, length, take, drop, get_elem?, ltb, take-append-drop,
  take_of_length-le, length-take, length-drop,
}
use mcp_content_guard.Base.Bytes.{Bytes}
use mcp_content_guard.Base.Lines.{join, join-append, split_all, join-split_all}
use mcp_content_guard.Json.{Result, ok, err, Block, Codec}
use mcp_content_guard.Filter.{
  Engines, LineMode, mode_head, mode_tail, mode_line, newline, text_parts, all_lines, out_of_range,
  select_lines, line_count, apply_full, apply_lines,
}

all_lines-split_all : (bs : List Block) → all_lines bs ≡ split_all newline (text_parts bs)
unfolding all_lines text_parts split_all
all_lines-split_all [] = refl
all_lines-split_all (b ∷ bs) = ground (arith, all_lines-split_all bs)

-- The lines of all blocks, joined again, are the full text.
pub join-all_lines : (bs : List Block) → join newline (all_lines bs) ≡ join newline (text_parts bs)
join-all_lines bs =
    ap (join newline) (all_lines-split_all bs) ∙ join-split_all newline (text_parts bs)

-- `head:n` of `n` lines or fewer is all of them, and so is `tail:n`.
select_all :
    (n : ℕ) (all : List Bytes)
    → length all ≤ n
    → (select_lines mode_head n all ≡ ok (join newline all))
      × (select_lines mode_tail n all ≡ ok (join newline all))
unfolding select_lines
select_all n all h = (
  ground (arith, take_of_length-le (length all) all, take_of_length-le n all),
  elim (Bool-cases (ltb (length all) n)) [
    | inl less ↦ rw less (drop_nothing all (length all - length all) (omega arith))
    | inr same ↦ rw same (drop_nothing all (length all - n) (omega arith))
  ],
)
  where
    drop_nothing :
        (l : List Bytes) (k : ℕ)
        → k ≡ 0
        → ◌≡◌ {A = Result Bytes} (ok (join newline (drop k l))) (ok (join newline l))
    drop_nothing l k p = rw p

select_head :
    (n : ℕ) (all : List Bytes)
    → n ≤ length all
    → select_lines mode_head n all ≡ ok (join newline (take n all))
unfolding select_lines
select_head n all h = ground arith

select_tail :
    (n m : ℕ) (all : List Bytes)
    → n + m ≡ length all
    → select_lines mode_tail m all ≡ ok (join newline (drop n all))
unfolding select_lines
select_tail n m all h =
    let fits : ltb (length all) m ≡ false = ground arith in
    let rest : length all - m ≡ n = omega arith in
    rw fits (ap (λ k. ok (join newline (drop k all))) rest)

get_elem?_beyond : (n : ℕ) (l : List Bytes) → length l ≤ n → get_elem? l n ≡ none
get_elem?_beyond n [] h = refl
get_elem?_beyond zero (x ∷ l) h = absurd (omega arith)
get_elem?_beyond (suc n) (x ∷ l) h = get_elem?_beyond n l (omega arith)

get_elem?-cases :
    (n : ℕ) (l : List Bytes) → ((x : Bytes) × (get_elem? l n ≡ some x)) ⊎ (length l ≤ n)
get_elem?-cases n [] = inr (omega arith)
get_elem?-cases zero (x ∷ l) = inl (x, refl)
get_elem?-cases (suc n) (x ∷ l) = elim (get_elem?-cases n l) [
  | inl found ↦ inl found
  | inr beyond ↦ inr (omega arith)
]

ne-nil_of_length : (l : List Bytes) → 0 < length l → l ≢ []
ne-nil_of_length [] h = absurd (omega arith)
ne-nil_of_length (x ∷ l) h = cc

join-take-drop :
    (n : ℕ) (all : List Bytes)
    → 0 < n
    → n < length all
    → join newline all ≡ join newline (take n all) ++ (newline ∷ join newline (drop n all))
join-take-drop n all p h =
    ap (join newline) (sym (take-append-drop n all))
    ∙ join-append newline (take n all) (drop n all)
        (ne-nil_of_length (take n all) (omega (arith, length-take {0} n all)))
        (ne-nil_of_length (drop n all) (omega (arith, length-drop {0} n all)))

select_line :
    (n : ℕ) (all : List Bytes) (line : Bytes)
    → get_elem? all n ≡ some line
    → select_lines mode_line n all ≡ ok line
unfolding select_lines
select_line n all line p = rw (p, select_lines)

select_beyond :
    (n : ℕ) (all : List Bytes)
    → length all ≤ n
    → select_lines mode_line n all ≡ err (out_of_range n (length all))
unfolding select_lines
select_beyond n all h = rw (get_elem?_beyond n all h, select_lines)

module _ (codec : Codec) (engines : Engines) where
  -- With a count and content that decode, a line filter selects from the lines.
  pub apply_lines-select_lines :
      (content n_str : Bytes) (n : ℕ) (blocks : List Block) (mode : LineMode)
      → line_count n_str ≡ some n
      → codec.decode_blocks content ≡ ok blocks
      → apply_lines codec engines content n_str mode ≡ select_lines mode n (all_lines blocks)
  unfolding apply_lines
  apply_lines-select_lines content n_str n blocks mode h d = rw (h, d, apply_lines)

  apply_full_ok :
      (content : Bytes) (blocks : List Block)
      → codec.decode_blocks content ≡ ok blocks
      → apply_full codec engines content ≡ ok (join newline (all_lines blocks))
  unfolding apply_full
  apply_full_ok content blocks d = rw (d, apply_full) (ap ok (sym (join-all_lines blocks)))

  -- For content that decodes, in any number of blocks, a count that covers every line makes
  -- `head:` and `tail:` return the full text, as the empty filter does.
  pub apply_lines_covering :
      (content n_str : Bytes) (n : ℕ) (blocks : List Block)
      → line_count n_str ≡ some n
      → codec.decode_blocks content ≡ ok blocks
      → length (all_lines blocks) ≤ n
      → (apply_lines codec engines content n_str mode_head ≡ apply_full codec engines content)
        × (apply_lines codec engines content n_str mode_tail ≡ apply_full codec engines content)
  apply_lines_covering content n_str n blocks h d fits =
      let (heads, tails) = select_all n (all_lines blocks) fits in
      let full = sym (apply_full_ok content blocks d) in
      (
        apply_lines-select_lines content n_str n blocks mode_head h d ∙ heads ∙ full,
        apply_lines-select_lines content n_str n blocks mode_tail h d ∙ tails ∙ full,
      )

  -- `head:n` and `tail:m` meet: for content that decodes, where `n` and `m` are positive and add
  -- up to the number of lines, the two results around a line break are the full text.
  pub head-tail_partition :
      (content n_str m_str : Bytes) (n m : ℕ) (blocks : List Block)
      → line_count n_str ≡ some n
      → line_count m_str ≡ some m
      → codec.decode_blocks content ≡ ok blocks
      → 0 < n
      → 0 < m
      → n + m ≡ length (all_lines blocks)
      → (first : Bytes) × (last : Bytes) × (apply_lines codec engines content n_str mode_head
          ≡ ok first)
        × (apply_lines codec engines content m_str mode_tail ≡ ok last)
        × (apply_full codec engines content ≡ ok (first ++ (newline ∷ last)))
  head-tail_partition content n_str m_str n m blocks h k d pn pm sum =
      let all = all_lines blocks in
      let heads : select_lines mode_head n all ≡ ok (join newline (take n all)) =
        select_head n all (omega arith) in
      let tails : select_lines mode_tail m all ≡ ok (join newline (drop n all)) =
        select_tail n m all sum in
      (
        join newline (take n all),
        join newline (drop n all),
        apply_lines-select_lines content n_str n blocks mode_head h d ∙ heads,
        apply_lines-select_lines content m_str m blocks mode_tail k d ∙ tails,
        apply_full_ok content blocks d ∙ ap ok (join-take-drop n all pn (omega arith)),
      )

  -- For a count and content that decode, `line:n` is the line at index `n`, or an error if there
  -- is no such line.
  pub apply_line_lem :
      (content n_str : Bytes) (n : ℕ) (blocks : List Block)
      → line_count n_str ≡ some n
      → codec.decode_blocks content ≡ ok blocks
      → ((line : Bytes) × (get_elem? (all_lines blocks) n ≡ some line)
          × (apply_lines codec engines content n_str mode_line ≡ ok line))
        ⊎ ((length (all_lines blocks) ≤ n)
            × (apply_lines codec engines content n_str mode_line
                ≡ err (out_of_range n (length (all_lines blocks)))))
  apply_line_lem content n_str n blocks h d =
      let selected = apply_lines-select_lines content n_str n blocks mode_line h d in
      elim (get_elem?-cases n (all_lines blocks)) [
        | inl (line, p) ↦ inl (line, p, selected ∙ select_line n (all_lines blocks) line p)
        | inr beyond ↦ inr (beyond, selected ∙ select_beyond n (all_lines blocks) beyond)
      ]
