-- ===== src/Cache/Held.antt =====
-- The bytes that the map of the cache holds.
use mcp_content_guard.Base.{
  subst, ℕ, ◌+◌, ◌≤◌, ◌≡◌, refl, sym, ap, ap₂, false, Option, some, none, List, [], ◌∷◌, arith, inl,
  inr, Bool-cases, All, length,
}
use mcp_content_guard.Base.Bytes.{Bytes, bytes_eq, bytes_eq_iff}
use mcp_content_guard.Base.Dictionary.{Dictionary, lookup}
use mcp_content_guard.Cache.{Node}
use mcp_content_guard.Cache.Budget.{total}
use mcp_content_guard.Cache.Nodes.{find}

abbrev pub size_of : Option Node → ℕ
size_of none = 0
size_of (some e) = length e.content

-- The bytes of the contents that a map has for some keys.
unfoldable pub held : List Bytes → Dictionary Node → ℕ
held [] items = 0
held (k ∷ ks) items = size_of (lookup k items) + held ks items

-- No key stands twice.
abbrev pub AreDistinct : List Bytes → Type 0
AreDistinct [] = Unit
AreDistinct (k ∷ ks) = All (λ j. bytes_eq k j ≡ false) ks × AreDistinct ks

-- The same of a list of nodes.
found : List Bytes → List Node → ℕ
found [] l = 0
found (k ∷ ks) l = size_of (find k l) + found ks l

found-nil : (ks : List Bytes) → found ks [] ≡ 0
unfolding found find
found-nil [] = refl
found-nil (k ∷ ks) = omega (arith, found-nil ks)

found_other :
    (ks : List Bytes) (e : Node) (l : List Node)
    → All (λ j. bytes_eq e.id j ≡ false) ks
    → found ks (e ∷ l) ≡ found ks l
unfolding found find
found_other [] e l h = refl
found_other (k ∷ ks) e l (h, hs) = rw h (ap (◌+◌ (size_of (find k l))) (found_other ks e l hs))

found-cons :
    (ks : List Bytes) (e : Node) (l : List Node)
    → AreDistinct ks
    → found ks (e ∷ l) ≤ length e.content + found ks l
unfolding found find
found-cons [] e l d = omega arith
found-cons (k ∷ ks) e l (apart, d) = elim (Bool-cases (bytes_eq e.id k)) [
  | inr other ↦ rw other (omega (arith, found-cons ks e l d))
  | inl here ↦ rw here (
      let same : k ≡ e.id = sym ((bytes_eq_iff e.id k).0 here) in
      omega
        (arith, found_other ks e l (subst (λ i. All (λ j. bytes_eq i j ≡ false) ks) same apart)))
]

found_total : (ks : List Bytes) (l : List Node) → AreDistinct ks → found ks l ≤ total l
found_total ks [] d = omega (arith, found-nil ks)
found_total ks (e ∷ l) d = omega (arith, found-cons ks e l d, found_total ks l d)

held-found :
    (items : Dictionary Node) (l : List Node)
    → ((k : Bytes) → lookup k items ≡ find k l)
    → (ks : List Bytes) → held ks items ≡ found ks l
unfolding held found
held-found items l agrees [] = refl
held-found items l agrees (k ∷ ks) = ap₂ ◌+◌ (ap size_of (agrees k)) (held-found items l agrees ks)

-- A map with the nodes of a list holds no more than the list.
pub held-total :
    (items : Dictionary Node) (l : List Node)
    → ((k : Bytes) → lookup k items ≡ find k l)
    → (ks : List Bytes) → AreDistinct ks
    → held ks items ≤ total l
held-total items l agrees ks d = omega (arith, held-found items l agrees ks, found_total ks l d)
