-- ===== src/Tests/BenchCases.antt =====
-- bench/run.go at concrete inputs, with an insertion sort for sort.Slice.
use mathlib.Core.List.{Perm}
use mathlib.Core.List.Perm
use mcp_content_guard.Base.{
  ◌≡◌, Bool, true, false, inl, inr, Bool-cases, List, [], ◌∷◌, All, arith, if◌then◌else◌,
}
use mcp_content_guard.Base.Bytes.{codes}
use mcp_content_guard.Bench.{Measured, print_report}
use mcp_content_guard.Bench.Order.{IsWeakOrder, IsSortedBy, Sorts}
use mcp_content_guard.Bench.Order.Groups.{Reported, print_report-Reported}

module _ (lt : Measured → Measured → Bool) where
  insert : Measured → List Measured → List Measured
  insert x [] = x ∷ []
  insert x (y ∷ l) = let rest = insert x l in if lt x y then x ∷ y ∷ l else y ∷ rest

  abbrev insertion_sort : List Measured → List Measured
  insertion_sort [] = []
  insertion_sort (x ∷ l) = insert x (insertion_sort l)

  insert-Perm : (x : Measured) (l : List Measured) → Perm (insert x l) (x ∷ l)
  unfolding insert
  insert-Perm x [] = Perm.rfl
  insert-Perm x (y ∷ l) = elim (Bool-cases (lt x y)) [
    | inl h ↦ rw h Perm.rfl
    | inr h ↦ rw h (Perm.trans (Perm.cons y (insert-Perm x l)) (Perm.swap x y l))
  ]

  insertion_sort-Perm : (l : List Measured) → Perm (insertion_sort l) l
  insertion_sort-Perm [] = Perm.nil
  insertion_sort-Perm (x ∷ l) =
      Perm.trans (insert-Perm x (insertion_sort l)) (Perm.cons x (insertion_sort-Perm l))

  insert-All :
      (P : Measured → Type 0) (x : Measured) (l : List Measured)
      → P x
      → All P l
      → All P (insert x l)
  unfolding insert
  insert-All P x [] p h = (p, tt)
  insert-All P x (y ∷ l) p (q, h) = elim (Bool-cases (lt x y)) [
    | inl k ↦ rw k (p, (q, h))
    | inr k ↦ rw k (q, insert-All P x l p h)
  ]

  module _ (o : IsWeakOrder lt) where
    not_before : (x y z : Measured) → lt x y ≡ true → lt z y ≡ false → lt z x ≡ false
    not_before x y z h k = elim (Bool-cases (lt z x)) [
      | inl b ↦ (let t = o.transitive z x y b h in grind arith)
      | inr b ↦ b
    ]

    not_before-All :
        (x y : Measured) (l : List Measured)
        → lt x y ≡ true
        → All (λ z. lt z y ≡ false) l
        → All (λ z. lt z x ≡ false) l
    not_before-All x y [] h k = tt
    not_before-All x y (z ∷ l) h (k, ks) = (not_before x y z h k, not_before-All x y l h ks)

    insert-IsSortedBy :
        (x : Measured) (l : List Measured) → IsSortedBy lt l → IsSortedBy lt (insert x l)
    unfolding insert
    insert-IsSortedBy x [] s = (tt, tt)
    insert-IsSortedBy x (y ∷ l) (k, s) = elim (Bool-cases (lt x y)) [
      | inl h ↦ rw h (not_before-All x y (y ∷ l) h (o.irreflexive y, k), (k, s))
      | inr h ↦ rw h (insert-All (λ z. lt z y ≡ false) x l h k, insert-IsSortedBy x l s)
    ]

    insertion_sort-IsSortedBy : (l : List Measured) → IsSortedBy lt (insertion_sort l)
    insertion_sort-IsSortedBy [] = tt
    insertion_sort-IsSortedBy (x ∷ l) =
        insert-IsSortedBy x (insertion_sort l) (insertion_sort-IsSortedBy l)

insertion_sort-Sorts : Sorts insertion_sort
insertion_sort-Sorts lt o l = (insertion_sort-Perm lt l, insertion_sort-IsSortedBy lt o l)

abbrev cheap : Measured
cheap = record {
  scenario = codes "fs";
  case_name = codes "read";
  raw_bytes = 4000;
  stub_bytes = 100;
  filter_bytes = 300;
  cached = true;
  err = [];
}

abbrev dear : Measured
dear = record cheap { filter_bytes = 3000 }

abbrev plain : Measured
plain = record cheap { stub_bytes = 4000; filter_bytes = 0; cached = false }

abbrev broken : Measured
broken = record plain { err = codes "direct: timeout after 1m0s" }

abbrev results : List Measured
results = broken ∷ dear ∷ plain ∷ cheap ∷ []

print_report-Reported_example : Reported results (print_report insertion_sort results)
print_report-Reported_example = print_report-Reported insertion_sort insertion_sort-Sorts results
