-- ===== src/Cache/Front.antt =====
-- Moving a found node to the front of the recency list.
use mcp_content_guard.Base.{
  ℕ, suc, ◌≤◌, ◌≡◌, sym, subst, true, false, some, List, [], ◌∷◌, ◌==◌, if◌then◌else◌, arith,
  Bool-cases, inl, inr,
}
use mcp_content_guard.Base.Bytes.{Bytes, bytes_eq, bytes_eq_iff}
use mcp_content_guard.Cache.{Node, remove_node, move_to_front}
use mcp_content_guard.Cache.Budget.{total}
use mcp_content_guard.Cache.Nodes.{
  find, Apart, Distinct, AddrsBelow, Apart-find, Apart-remove_node, has_node-find,
  total-remove_node,
}

AddrsBelow-remove_node : (n a : ℕ) (l : List Node) → AddrsBelow n l → AddrsBelow n (remove_node a l)
unfolding remove_node
AddrsBelow-remove_node n a [] b = tt
AddrsBelow-remove_node n a (f ∷ l) b = elim (Bool-cases (f.addr == a)) [
  | inl here ↦ rw here b.1
  | inr there ↦ rw there (b.0, AddrsBelow-remove_node n a l b.1)
]

module _ (k : Bytes) (e : Node) where
  find-remove_node :
      (j : Bytes) (l : List Node)
      → Distinct l
      → find k l ≡ some e
      → find j l ≡ (if bytes_eq e.id j then some e else find j (remove_node e.addr l))
  unfolding find remove_node
  find-remove_node j [] d h = cc
  find-remove_node j (f ∷ l) d h = elim (Bool-cases (bytes_eq f.id k)) [
    | inl here ↦ ground arith
    | inr there ↦
        let (other, ids) = Apart-find f e k l d.0 (ground arith) in
        ground (
          arith,
          find-remove_node j l d.1,
          bytes_eq_iff e.id j,
          bytes_eq_iff f.id j,
          bytes_eq_iff e.id f.id,
        )
  ]

  Distinct-remove_node :
      (l : List Node) → Distinct l → find k l ≡ some e → Distinct (remove_node e.addr l)
  unfolding find remove_node
  Distinct-remove_node [] d h = cc
  Distinct-remove_node (f ∷ l) d h = elim (Bool-cases (bytes_eq f.id k)) [
    | inl here ↦ let same : (f.addr == e.addr) ≡ true = ground arith in rw same d.1
    | inr there ↦
        let (other, _) = Apart-find f e k l d.0 (ground arith) in
        let differ : (f.addr == e.addr) ≡ false = ground arith in
        rw differ (Apart-remove_node f e l d.0, Distinct-remove_node l d.1 (ground arith))
  ]

  AddrsBelow-find : (n : ℕ) (l : List Node) → AddrsBelow n l → find k l ≡ some e → suc e.addr ≤ n
  unfolding find
  AddrsBelow-find n [] b h = cc
  AddrsBelow-find n (f ∷ l) b h = ground (arith, AddrsBelow-find n l)

  -- What is left is apart from the node that was taken out.
  Apart-removed : (l : List Node) → Distinct l → find k l ≡ some e → Apart e (remove_node e.addr l)
  unfolding find remove_node
  Apart-removed [] d h = cc
  Apart-removed (f ∷ l) d h = elim (Bool-cases (bytes_eq f.id k)) [
    | inl here ↦
        let same : (f.addr == e.addr) ≡ true = ground arith in
        let p : f ≡ e = ground arith in rw same (subst (λ x. Apart x l) p d.0)
    | inr there ↦
        let (other, ids) = Apart-find f e k l d.0 (ground arith) in
        let differ : (f.addr == e.addr) ≡ false = ground arith in
        rw differ (
          λ p. other (sym p),
          ground (arith, bytes_eq_iff f.id e.id, bytes_eq_iff e.id f.id),
          Apart-removed l d.1 (ground arith),
        )
  ]

-- The list with a found node at its front, and all that `Get` needs to know of it.
pub record IsFront (n : ℕ) (e : Node) (l : List Node) : Type 0 where
  pub same_found : (j : Bytes) → find j (move_to_front e l) ≡ find j l
  pub same_total : total (move_to_front e l) ≡ total l
  pub distinct : Distinct (move_to_front e l)
  pub below : AddrsBelow n (move_to_front e l)
  pub front : move_to_front e l ≡ e ∷ remove_node e.addr l

pub move_to_front-IsFront :
    (n : ℕ) (k : Bytes) (e : Node) (l : List Node)
    → find k l ≡ some e
    → Distinct l
    → AddrsBelow n l
    → IsFront n e l
unfolding move_to_front
move_to_front-IsFront n k e l h d b =
    let p : move_to_front e l ≡ e ∷ remove_node e.addr l = ground (arith, has_node-find k e l h) in
    record {
      same_found = λ j. rw p (unfold find in ground (arith, find-remove_node k e j l d h));
      same_total = rw p (omega (arith, total-remove_node k e l d h));
      distinct = rw p (Apart-removed k e l d h, Distinct-remove_node k e l d h);
      below = rw p (AddrsBelow-find k e n l b h, AddrsBelow-remove_node n e.addr l b);
      front = p;
    }
