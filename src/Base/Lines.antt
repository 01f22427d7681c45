-- ===== src/Base/Lines.antt =====
-- strings.Split and strings.Join with a separator of one byte.
use Prim.Native.Nat.{ℕ}
use mathlib.Core.Path.{◌≡◌, refl, sym, ap, ap₂, ◌∙◌}
use mathlib.Core.Logic.{◌≢◌, inl, inr}
use mathlib.Core.List.{List, [], ◌∷◌, ◌++◌, append_assoc, append-nil}
use native.Mathlib.Omega.{arith}
use mcp_content_guard.Base.Tests.{◌==◌, if◌then◌else◌, Bool-cases, ==_iff}
use mcp_content_guard.Base.Bytes.{Bytes}

-- One more byte in front of the first part.
abbrev pub add_front : ℕ → List Bytes → List Bytes
add_front c [] = (c ∷ []) ∷ []
add_front c (p ∷ ps) = (c ∷ p) ∷ ps

-- strings.Split
unfoldable pub split : ℕ → Bytes → List Bytes
split sep [] = [] ∷ []
split sep (c ∷ s) = let parts = split sep s in if c == sep then [] ∷ parts else add_front c parts

-- strings.Join
unfoldable pub join : ℕ → List Bytes → Bytes
join sep [] = []
join sep (p ∷ []) = p
join sep (p ∷ q ∷ ps) = p ++ (sep ∷ join sep (q ∷ ps))

pub split-ne-nil : (sep : ℕ) (s : Bytes) → split sep s ≢ []
unfolding split
split-ne-nil sep [] = cc
split-ne-nil sep (c ∷ s) = ground (arith, split-ne-nil sep s)

join-add_front : (sep c : ℕ) (ps : List Bytes) → join sep (add_front c ps) ≡ c ∷ join sep ps
unfolding join
join-add_front sep c [] = refl
join-add_front sep c (p ∷ []) = refl
join-add_front sep c (p ∷ q ∷ ps) = refl

pub join-append :
    (sep : ℕ) (ps qs : List Bytes)
    → ps ≢ []
    → qs ≢ []
    → join sep (ps ++ qs) ≡ join sep ps ++ (sep ∷ join sep qs)
unfolding join
join-append sep [] qs h k = absurd (h refl)
join-append sep (p ∷ []) [] h k = absurd (k refl)
join-append sep (p ∷ []) (q ∷ qs) h k = refl
join-append sep (p ∷ p' ∷ ps) qs h k = rw (join-append sep (p' ∷ ps) qs (cc) k) (simp append_assoc)

append-eq-nil : (xs ys : List Bytes) → xs ++ ys ≡ [] → xs ≡ []
append-eq-nil [] ys h = refl
append-eq-nil (x ∷ xs) ys h = cc

join-nil_front : (sep : ℕ) (qs : List Bytes) → qs ≢ [] → join sep ([] ∷ qs) ≡ sep ∷ join sep qs
unfolding join
join-nil_front sep [] h = absurd (h refl)
join-nil_front sep (q ∷ qs) h = refl

-- Joining what a text was split into gives the text back.
pub join-split : (sep : ℕ) (s : Bytes) → join sep (split sep s) ≡ s
unfolding split
join-split sep [] = unfold join in refl
join-split sep (c ∷ s) = elim (Bool-cases (c == sep)) [
  | inl here ↦ rw here (
      join-nil_front sep (split sep s) (split-ne-nil sep s)
      ∙ ap₂ (λ d t. d ∷ t) (sym ((==_iff c sep).0 here)) (join-split sep s))
  | inr there ↦ rw there (join-add_front sep c (split sep s) ∙ ap (◌∷◌ c) (join-split sep s))
]

-- The parts of several texts, one after the other.
unfoldable pub split_all : ℕ → List Bytes → List Bytes
split_all sep [] = []
split_all sep (s ∷ ss) = split sep s ++ split_all sep ss

split_all-ne-nil : (sep : ℕ) (s : Bytes) (ss : List Bytes) → split_all sep (s ∷ ss) ≢ []
unfolding split_all
split_all-ne-nil sep s ss h =
    ground (arith, split-ne-nil sep s, append-eq-nil (split sep s) (split_all sep ss))

-- Joining the parts of several texts joins the texts.
pub join-split_all : (sep : ℕ) (ss : List Bytes) → join sep (split_all sep ss) ≡ join sep ss
unfolding split_all
join-split_all sep [] = refl
join-split_all sep (s ∷ []) = rw append-nil (join-split sep s ∙ (unfold join in refl))
join-split_all sep (s ∷ t ∷ ss) =
    join-append sep (split sep s) (split_all sep (t ∷ ss)) (split-ne-nil sep s)
      (split_all-ne-nil sep t ss)
    ∙ ap₂ (λ x y. x ++ (sep ∷ y)) (join-split sep s) (join-split_all sep (t ∷ ss))
    ∙ (unfold join in refl)
