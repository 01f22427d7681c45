-- ===== src/Cache/Nodes.antt =====
-- The recency list: nodes with distinct addresses and ids, found by id.
use mcp_content_guard.Base.{
  ℕ, ◌+◌, ◌≤◌, ◌<◌, ◌≡◌, ◌≢◌, refl, true, false, Option, none, some, List, [], ◌∷◌, ◌==◌,
  if◌then◌else◌, arith, Bool-cases, inl, inr, length,
}
use mcp_content_guard.Base.Bytes.{Bytes, bytes_eq, bytes_eq_iff}
use mcp_content_guard.Cache.{Node, back, remove_node, has_node}
use mcp_content_guard.Cache.Budget.{total, drop_last}

-- The first node with an id.
unfoldable pub find : Bytes → List Node → Option Node
find k [] = none
find k (e ∷ l) = if bytes_eq e.id k then some e else find k l

-- A node differs from all nodes of a list in address and in id.
abbrev pub Apart : Node → List Node → Type 0
Apart e [] = Unit
Apart e (f ∷ l) = (f.addr ≢ e.addr) × (bytes_eq f.id e.id ≡ false) × Apart e l

abbrev pub Distinct : List Node → Type 0
Distinct [] = Unit
Distinct (e ∷ l) = Apart e l × Distinct l

-- Every address has been given out already.
abbrev pub AddrsBelow : ℕ → List Node → Type 0
AddrsBelow n [] = Unit
AddrsBelow n (e ∷ l) = (e.addr < n) × AddrsBelow n l

pub AddrsBelow-mono : (n m : ℕ) (l : List Node) → n ≤ m → AddrsBelow n l → AddrsBelow m l
AddrsBelow-mono n m [] h b = tt
AddrsBelow-mono n m (e ∷ l) h b = (omega arith, AddrsBelow-mono n m l h b.1)

pub Apart-fresh : (e : Node) (l : List Node) → AddrsBelow e.addr l → find e.id l ≡ none → Apart e l
unfolding find
Apart-fresh e [] b h = tt
Apart-fresh e (f ∷ l) b h = (omega arith, ground arith, Apart-fresh e l b.1 (ground arith))

pub Apart-drop_last : (e : Node) (l : List Node) → Apart e l → Apart e (drop_last l)
unfolding drop_last
Apart-drop_last e [] h = tt
Apart-drop_last e (f ∷ []) h = tt
Apart-drop_last e (f ∷ g ∷ l) h = (h.0, h.1, Apart-drop_last e (g ∷ l) h.2)

pub Distinct-drop_last : (l : List Node) → Distinct l → Distinct (drop_last l)
unfolding drop_last
Distinct-drop_last [] h = tt
Distinct-drop_last (e ∷ []) h = tt
Distinct-drop_last (e ∷ f ∷ l) h = (Apart-drop_last e (f ∷ l) h.0, Distinct-drop_last (f ∷ l) h.1)

pub AddrsBelow-drop_last : (n : ℕ) (l : List Node) → AddrsBelow n l → AddrsBelow n (drop_last l)
unfolding drop_last
AddrsBelow-drop_last n [] h = tt
AddrsBelow-drop_last n (e ∷ []) h = tt
AddrsBelow-drop_last n (e ∷ f ∷ l) h = (h.0, AddrsBelow-drop_last n (f ∷ l) h.1)

module _ (e x : Node) where
  Apart-back :
      (l : List Node)
      → Apart e l
      → back l ≡ some x
      → (x.addr ≢ e.addr) × (bytes_eq x.id e.id ≡ false)
  unfolding back
  Apart-back [] a h = cc
  Apart-back (f ∷ []) a h = (λ p. a.0 (ground arith), ground arith)
  Apart-back (f ∷ g ∷ l) a h = Apart-back (g ∷ l) a.2 h

  pub Apart-find :
      (k : Bytes) (l : List Node)
      → Apart e l
      → find k l ≡ some x
      → (x.addr ≢ e.addr) × (bytes_eq x.id e.id ≡ false)
  unfolding find
  Apart-find k [] a h = cc
  Apart-find k (f ∷ l) a h = elim (Bool-cases (bytes_eq f.id k)) [
    | inl here ↦ (λ p. a.0 (ground arith), ground arith)
    | inr there ↦ Apart-find k l a.2 (ground arith)
  ]

  pub Apart-remove_node : (l : List Node) → Apart e l → Apart e (remove_node x.addr l)
  unfolding remove_node
  Apart-remove_node [] a = tt
  Apart-remove_node (f ∷ l) a = elim (Bool-cases (f.addr == x.addr)) [
    | inl here ↦ rw here a.2
    | inr there ↦ rw there (a.0, a.1, Apart-remove_node l a.2)
  ]

-- The back of the list: what removing it leaves.
pub record IsBack (l : List Node) (x : Node) : Type 0 where
  pub is_back : back l ≡ some x
  pub removed : remove_node x.addr l ≡ drop_last l
  pub bytes : total (drop_last l) + length x.content ≡ total l
  pub found : (k : Bytes) → find k (drop_last l) ≡ (if bytes_eq x.id k then none else find k l)

pub IsBack-of_cons : (e : Node) (l : List Node) → Distinct (e ∷ l) → (x : Node) × IsBack (e ∷ l) x
unfolding back remove_node drop_last find
IsBack-of_cons e [] d = (
  e,
  record { is_back = refl; removed = ground arith; bytes = omega arith; found = λ k. ground arith },
)
IsBack-of_cons e (f ∷ l) d =
    let (x, b) = IsBack-of_cons f l d.1 in
    let (other, ids) = Apart-back e x (f ∷ l) d.0 b.is_back in
    (
      x,
      record {
        is_back = b.is_back;
        removed = ground (arith, b.removed);
        bytes = omega (arith, b.bytes);
        found = λ k.
            ground
              (arith, b.found k, bytes_eq_iff x.id k, bytes_eq_iff e.id k, bytes_eq_iff x.id e.id);
      },
    )

-- A node that is found by an id: what moving it to the front gives.
module _ (k : Bytes) (e : Node) where
  pub find-id : (l : List Node) → find k l ≡ some e → bytes_eq e.id k ≡ true
  unfolding find
  find-id [] h = cc
  find-id (f ∷ l) h = ground (arith, find-id l)

  pub has_node-find : (l : List Node) → find k l ≡ some e → has_node e.addr l ≡ true
  unfolding find has_node
  has_node-find [] h = cc
  has_node-find (f ∷ l) h = ground (arith, has_node-find l)

  pub total-remove_node :
      (l : List Node)
      → Distinct l
      → find k l ≡ some e
      → total (remove_node e.addr l) + length e.content ≡ total l
  unfolding find remove_node
  total-remove_node [] d h = cc
  total-remove_node (f ∷ l) d h = elim (Bool-cases (bytes_eq f.id k)) [
    | inl here ↦ ground arith
    | inr there ↦
        let (other, _) = Apart-find f e k l d.0 (ground arith) in
        ground (arith, total-remove_node l d.1)
  ]
