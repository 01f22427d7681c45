-- ===== src/Cache/Budget.antt =====
-- What stays in the cache: the longest prefix of the recency list, most recent first, that leaves
-- room for the new entry. The loop of `Store` reaches it by dropping entries from the back.
use mcp_content_guard.Base.{
  ℕ, zero, suc, ◌+◌, ◌≤◌, ◌<◌, ◌≡◌, refl, ap, List, [], ◌∷◌, leb, inl, inr, ◌⊎◌, Bool-cases,
  if◌then◌else◌, arith,
}
use mcp_content_guard.Base.{length, take}
use mcp_content_guard.Cache.{Node}

-- The sum of the payload sizes.
abbrev pub total : List Node → ℕ
total [] = 0
total (e ∷ l) = length e.content + total l

-- The entries that fit, first come first kept, into `max` bytes of which `used` are taken.
unfoldable pub fitting : ℕ → ℕ → List Node → List Node
fitting max used [] = []
fitting max used (e ∷ l) =
    let rest = fitting max (used + length e.content) l in
    if leb (used + length e.content) max then e ∷ rest else []

unfoldable pub kept : ℕ → ℕ → List Node → List Node
unfolding fitting
kept max size l = if leb size max then fitting max size l else []

-- All but the last.
unfoldable pub drop_last : List Node → List Node
drop_last [] = []
drop_last (e ∷ []) = []
drop_last (e ∷ f ∷ l) = e ∷ drop_last (f ∷ l)

pub total-drop_last-le : (l : List Node) → total (drop_last l) ≤ total l
unfolding drop_last
total-drop_last-le [] = omega arith
total-drop_last-le (e ∷ []) = omega arith
total-drop_last-le (e ∷ f ∷ l) = omega (arith, total-drop_last-le (f ∷ l))

pub length-drop_last : (l : List Node) {n : ℕ} → length l ≡ suc n → length (drop_last l) ≡ n
unfolding drop_last
length-drop_last [] h = absurd (omega arith)
length-drop_last (e ∷ []) h = omega arith
length-drop_last (e ∷ f ∷ l) {n = zero} h = absurd (omega arith)
length-drop_last (e ∷ f ∷ l) {n = suc n} h = ap suc (length-drop_last (f ∷ l) (omega arith))

fitting_all : (max used : ℕ) (l : List Node) → used + total l ≤ max → fitting max used l ≡ l
unfolding fitting
fitting_all max used [] h = refl
fitting_all max used (e ∷ l) h = ground (arith, fitting_all max (used + length e.content) l)

fitting-drop_last :
    (max used : ℕ) (l : List Node)
    → max < used + total l
    → fitting max used l ≡ fitting max used (drop_last l)
unfolding fitting drop_last
fitting-drop_last max used [] h = refl
fitting-drop_last max used (e ∷ []) h = ground arith
fitting-drop_last max used (e ∷ f ∷ l) h =
    ground (arith, fitting-drop_last max (used + length e.content) (f ∷ l))

-- If all fits, all stays.
pub kept_all : (max size : ℕ) (l : List Node) → size + total l ≤ max → kept max size l ≡ l
unfolding kept
kept_all max size l h = ground (arith, fitting_all max size l)

-- If not, the last entry does not stay.
pub kept-drop_last :
    (max size : ℕ) (l : List Node)
    → max < size + total l
    → kept max size l ≡ kept max size (drop_last l)
unfolding kept
kept-drop_last max size l h = ground (arith, fitting-drop_last max size l)

-- How many entries `fitting` keeps.
fit_count : ℕ → ℕ → List Node → ℕ
fit_count max used [] = 0
fit_count max used (e ∷ l) =
    let rest = fit_count max (used + length e.content) l in
    if leb (used + length e.content) max then suc rest else 0

fitting-take : (max used : ℕ) (l : List Node) → fitting max used l ≡ take (fit_count max used l) l
unfolding fitting fit_count
fitting-take max used [] = refl
fitting-take max used (e ∷ l) = ground (arith, fitting-take max (used + length e.content) l)

fitting_fits : (max used : ℕ) (l : List Node) → used ≤ max → used + total (fitting max used l) ≤ max
unfolding fitting
fitting_fits max used [] h = omega arith
fitting_fits max used (e ∷ l) h = ground (arith, fitting_fits max (used + length e.content) l)

fitting_longest :
    (max used : ℕ) (l : List Node) (m : ℕ)
    → fit_count max used l < m
    → m ≤ length l
    → max < used + total (take m l)
unfolding fit_count
fitting_longest max used [] m p q = absurd (omega arith)
fitting_longest max used (e ∷ l) zero p q = absurd (omega arith)
fitting_longest max used (e ∷ l) (suc m) p q =
    ground (arith, fitting_longest max (used + length e.content) l m)

pub kept_fits : (max size : ℕ) (l : List Node) → size ≤ max → size + total (kept max size l) ≤ max
unfolding kept
kept_fits max size l h = ground (arith, fitting_fits max size l)

-- The longest prefix that fits: a count, and what is true of it.
pub record IsLongestFit (max size : ℕ) (l kept_part : List Node) : Type 0 where
  pub count : ℕ
  pub prefix : kept_part ≡ take count l
  pub fits : (size + total kept_part ≤ max) ⊎ (count ≡ 0)
  pub longest : (m : ℕ) → count < m → m ≤ length l → max < size + total (take m l)

pub kept-IsLongestFit : (max size : ℕ) (l : List Node) → IsLongestFit max size l (kept max size l)
unfolding kept
kept-IsLongestFit max size l = elim (Bool-cases (leb size max)) [
  | inl room ↦ rw room (record {
    count = fit_count max size l;
    prefix = fitting-take max size l;
    fits = inl (fitting_fits max size l (ground arith));
    longest = fitting_longest max size l;
  })
  | inr full ↦
      rw full
        (record { count = 0; prefix = refl; fits = inr refl; longest = λ m p q. ground arith })
]
