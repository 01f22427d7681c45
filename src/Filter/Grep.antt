-- ===== src/Filter/Grep.antt =====
-- The grep filter against the list of the lines that match.
use mcp_content_guard.Base.{
  ℕ, suc, ◌%◌, ◌≡◌, ◌⊎◌, refl, sym, subst, ap, ◌∙◌, Bool, true, false, Option, some, none, List, [],
  ◌∷◌, ◌++◌, append_assoc, append-nil, arith, Bool-cases, inl, inr, ◌==◌, if◌then◌else◌,
}
use mcp_content_guard.Base.Bytes.{Bytes, bytes_eq, codes}
use mcp_content_guard.Base.Lines.{split, join}
use mcp_content_guard.Json.{Result, ok, err, Block, Codec}
use mcp_content_guard.Filter.{Engines, newline, all_lines, grep_block, grep_blocks, apply_grep}

-- The lines that match, in order.
pub matching : (Bytes → Bool) → List Bytes → List Bytes
matching matches [] = []
matching matches (line ∷ rest) =
    let found = matching matches rest in if matches line then line ∷ found else found

-- An expired check somewhere.
abbrev pub Expires : (ℕ → Option Bytes) → Bytes → Type 0
Expires expired e = (k : ℕ) × (expired k ≡ some e)

module _ (matches : Bytes → Bool) (expired : ℕ → Option Bytes) where
  matching-append :
      (xs ys : List Bytes)
      → matching matches (xs ++ ys) ≡ matching matches xs ++ matching matches ys
  unfolding matching
  matching-append [] ys = refl
  matching-append (x ∷ xs) ys = ground (arith, matching-append xs ys)

  -- The whole result, or the error of an expired check.
  data BlockOutcome (found : List Bytes) (r : Result (ℕ × List Bytes)) : Type 0 where
    searched : (checks : ℕ) → r ≡ ok (checks, found) → BlockOutcome found r
    stopped : (e : Bytes) → Expires expired e → r ≡ err (codes "grep: " ++ e) → BlockOutcome found r

  check_outcome :
      (due : Bool) (expiry : Option Bytes) {found : List Bytes} {later : Result (ℕ × List Bytes)}
      → ((e : Bytes) → expiry ≡ some e → Expires expired e)
      → BlockOutcome found later
      → BlockOutcome found (
          if due
          then (elim expiry [ none ↦ later | some e ↦ err (codes "grep: " ++ e) ])
          else later)
  check_outcome true none h o = o
  check_outcome true (some e) h o = stopped e (h e refl) refl
  check_outcome false expiry h o = o

  grep_block-BlockOutcome :
      (ls : List Bytes) (i checks : ℕ) (lines : List Bytes)
      → BlockOutcome (lines ++ matching matches ls) (grep_block matches expired i checks ls lines)
  unfolding grep_block matching
  grep_block-BlockOutcome [] i checks lines = searched checks (rw append-nil)
  grep_block-BlockOutcome (line ∷ rest) i checks lines =
      let lines' = if matches line then lines ++ (line ∷ []) else lines in
      let checks' = if i % 1024 == 0 then suc checks else checks in
      let found : lines' ++ matching matches rest ≡ lines ++ matching matches (line ∷ rest) =
        ground (arith, append_assoc lines (line ∷ []) (matching matches rest)) in
      check_outcome (i % 1024 == 0) (expired checks) (λ e p. (checks, p))
        (subst (λ f. BlockOutcome f (grep_block matches expired (suc i) checks' rest lines')) found
          (grep_block-BlockOutcome rest (suc i) checks' lines'))

  -- The same of all blocks.
  data Outcome (found : List Bytes) (r : Result (List Bytes)) : Type 0 where
    all_searched : r ≡ ok found → Outcome found r
    all_stopped : (e : Bytes) → Expires expired e → r ≡ err (codes "grep: " ++ e) → Outcome found r

  grep_blocks-Outcome :
      (bs : List Block) (checks : ℕ) (lines : List Bytes)
      → Outcome
          (lines ++ matching matches (all_lines bs))
          (grep_blocks matches expired checks bs lines)
  unfolding grep_blocks all_lines
  grep_blocks-Outcome [] checks lines = all_searched (unfold matching in rw append-nil)
  grep_blocks-Outcome (b ∷ bs) checks lines = elim (Bool-cases (bytes_eq b.type (codes "text"))) [
    | inr other ↦ rw other (grep_blocks-Outcome bs checks lines)
    | inl text ↦ rw text (
        go (grep_block matches expired 0 checks (split newline b.text) lines)
          (grep_block-BlockOutcome (split newline b.text) 0 checks lines)
          (λ checks' lines'. grep_blocks-Outcome bs checks' lines'))
  ]
    where
      go :
          (r : Result (ℕ × List Bytes))
          → BlockOutcome (lines ++ matching matches (split newline b.text)) r
          → ((checks' : ℕ) (lines' : List Bytes)
              → Outcome
                  (lines' ++ matching matches (all_lines bs))
                  (grep_blocks matches expired checks' bs lines'))
          → Outcome (lines ++ matching matches (split newline b.text ++ all_lines bs)) (elim r [
            | ok (checks', lines') ↦ grep_blocks matches expired checks' bs lines'
            | err e ↦ err e
          ])
      go r (searched checks' p) ih = rw p (
          subst
            (λ f. Outcome f (
              grep_blocks matches expired checks' bs
                (lines ++ matching matches (split newline b.text))))
            (append_assoc lines (matching matches (split newline b.text))
                (matching matches (all_lines bs))
              ∙ ap (◌++◌ lines) (sym (matching-append (split newline b.text) (all_lines bs))))
            (ih checks' (lines ++ matching matches (split newline b.text))))
      go r (stopped e x p) ih = rw p (all_stopped e x refl)

module _ (codec : Codec) (engines : Engines) (content pattern_text : Bytes)
    (expired : ℕ → Option Bytes) {matches : Bytes → Bool} {blocks : List Block} where
  -- A grep over content that decodes, with a pattern that compiles, gives all matching lines of all
  -- text blocks in their order, or the error of a deadline that a check has found; never a part of
  -- the lines.
  pub apply_grep_lem :
      engines.compile_regexp pattern_text ≡ ok matches
      → codec.decode_blocks content ≡ ok blocks
      → (apply_grep codec engines expired content pattern_text
          ≡ ok (join newline (matching matches (all_lines blocks))))
        ⊎ ((k : ℕ) × (e : Bytes) × (expired k ≡ some e)
            × (apply_grep codec engines expired content pattern_text ≡ err (codes "grep: " ++ e)))
  unfolding apply_grep
  apply_grep_lem p d = elim (grep_blocks-Outcome matches expired blocks 0 []) [
    | all_searched q ↦ inl (rw (p, d, q))
    | all_stopped e (k, x) q ↦ inr (k, e, x, rw (p, d, q))
  ]
