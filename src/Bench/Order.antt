-- ===== src/Bench/Order.antt =====
-- The order of the rows of the report.
pub mod Groups
use mathlib.Core.List.{Perm}
use mathlib.Core.List.Perm
use mcp_content_guard.Base.{
  ℕ, ◌≤◌, ◌≡◌, ◌⊎◌, refl, sym, ap, ap₂, ◌∙◌, subst, Bool, true, false, not, ◌&&◌, ◌||◌, List, [],
  ◌∷◌, ◌++◌, append-nil, arith, inl, inr, Bool-cases, All, ltb, if◌then◌else◌,
}
use mcp_content_guard.Base.Bytes.{Bytes}
use mcp_content_guard.Bench.{
  Measured, savings, has_failed, less, Row, report_row, report_rows, token_rows, print_report,
}

-- What sort.Slice asks of a comparison.
pub record IsWeakOrder (lt : Measured → Measured → Bool) : Type 0 where
  pub irreflexive : (a : Measured) → lt a a ≡ false
  pub transitive : (a b c : Measured) → lt a b ≡ true → lt b c ≡ true → lt a c ≡ true
  pub comparable : (a b c : Measured) → lt a c ≡ true → (lt a b ≡ true) ⊎ (lt b c ≡ true)

-- No entry stands behind one that it is less than.
abbrev pub IsSortedBy : (Measured → Measured → Bool) → List Measured → Type 0
IsSortedBy lt [] = Unit
IsSortedBy lt (x ∷ l) = All (λ y. lt y x ≡ false) l × IsSortedBy lt l

-- What sort.Slice promises.
abbrev pub Sorts : ((Measured → Measured → Bool) → List Measured → List Measured) → Type 0
Sorts sort =
    (lt : Measured → Measured → Bool)
    → IsWeakOrder lt
    → (l : List Measured) → Perm (sort lt l) l × IsSortedBy lt (sort lt l)

-- The comparison on what it reads.
before : Bool → Bool → ℕ → Bool → Bool → ℕ → Bool
before f c s f' c' s' =
    if not f && f'
    then true
    else if f && not f'
    then false
    else if c && not c'
    then true
    else if not c && c'
    then false
    else ltb s' s

less-before :
    (a b : Measured)
    → less a b ≡ before (has_failed a) a.cached (savings a) (has_failed b) b.cached (savings b)
unfolding less before
less-before a b = refl

before-irreflexive : (f c : Bool) (s : ℕ) → before f c s f c s ≡ false
unfolding before
before-irreflexive f c s = ground arith

before-transitive :
    (f c : Bool) (s : ℕ) (f' c' : Bool) (s' : ℕ) (f'' c'' : Bool) (s'' : ℕ)
    → before f c s f' c' s' ≡ true
    → before f' c' s' f'' c'' s'' ≡ true
    → before f c s f'' c'' s'' ≡ true
unfolding before
before-transitive f c s f' c' s' f'' c'' s'' h k = ground arith

before-comparable :
    (f c : Bool) (s : ℕ) (f' c' : Bool) (s' : ℕ) (f'' c'' : Bool) (s'' : ℕ)
    → before f c s f'' c'' s'' ≡ true
    → (before f c s f' c' s' ≡ true) ⊎ (before f' c' s' f'' c'' s'' ≡ true)
unfolding before
before-comparable f c s f' c' s' f'' c'' s'' h = ground arith

pub less-IsWeakOrder : IsWeakOrder less
less-IsWeakOrder = record {
  irreflexive = λ a. less-before a a ∙ before-irreflexive (has_failed a) a.cached (savings a);
  transitive = λ a b c h k.
      less-before a c
      ∙ before-transitive (has_failed a) a.cached (savings a) (has_failed b) b.cached (savings b)
          (has_failed c) c.cached (savings c) (sym (less-before a b) ∙ h)
          (sym (less-before b c) ∙ k);
  comparable = λ a b c h.
      elim (before-comparable (has_failed a) a.cached (savings a) (has_failed b) b.cached
        (savings b) (has_failed c) c.cached (savings c) (sym (less-before a c) ∙ h)) [
          | inl p ↦ inl (less-before a b ∙ p)
          | inr p ↦ inr (less-before b c ∙ p)
        ];
}
