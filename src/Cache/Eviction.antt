-- ===== src/Cache/Eviction.antt =====
-- The eviction loop of `Store`: it ends, and what it leaves is the longest prefix that fits.
use mcp_content_guard.Base.{
  ℕ, zero, suc, ◌+◌, ◌^◌, ◌≤◌, ◌<◌, ◌≡◌, refl, sym, ap, ◌∙◌, true, false, ◌&&◌, some, List, [], ◌∷◌,
  arith, Bool-cases, inl, inr, length, ltb,
}
use mcp_content_guard.Base.Int64.{Int64, add64, lt64}
use mcp_content_guard.Cache.{Node, Cache, back, remove_node, evict_oldest, over_budget, evict_loop}
use mcp_content_guard.Cache.Budget.{total, kept, total-drop_last-le, kept_all, kept-drop_last}
use mcp_content_guard.Cache.Invariant.{IsValid, evict_oldest-IsEvicted}

length-remove_node : (a : ℕ) (l : List Node) → length (remove_node a l) ≤ length l
unfolding remove_node
length-remove_node a [] = omega arith
length-remove_node a (e ∷ l) = ground (arith, length-remove_node a l)

length-remove_back :
    (x : Node) (l : List Node) → back l ≡ some x → length (remove_node x.addr l) + 1 ≤ length l
unfolding back remove_node
length-remove_back x [] h = cc
length-remove_back x (e ∷ []) h = ground arith
length-remove_back x (e ∷ f ∷ l) h = ground (arith, length-remove_back x (f ∷ l))

back-some : (e : Node) (l : List Node) → (x : Node) × (back (e ∷ l) ≡ some x)
unfolding back
back-some e [] = (e, refl)
back-some e (f ∷ l) = back-some f l

length_of_cons : (l : List Node) → 0 < length l → (x : Node) × (back l ≡ some x)
length_of_cons [] h = absurd (omega arith)
length_of_cons (e ∷ l) h = back-some e l

length-evict_oldest :
    (c : Cache) → 0 < length c.lru → length (evict_oldest c).lru + 1 ≤ length c.lru
unfolding evict_oldest
length-evict_oldest c h =
    let (x, p) = length_of_cons c.lru h in rw (p, evict_oldest) (length-remove_back x c.lru p)

over_budget-length : (size : Int64) (c : Cache) → over_budget size c ≡ true → 0 < length c.lru
unfolding over_budget
over_budget-length size c h = ground arith

-- With fuel for every entry the loop ends by its test, from every state of the cache.
pub evict_loop_ends :
    (fuel : ℕ) (size : Int64) (c : Cache)
    → length c.lru ≤ fuel
    → over_budget size (evict_loop fuel size c) ≡ false
unfolding evict_loop
evict_loop_ends zero size c h = unfold over_budget in ground arith
evict_loop_ends (suc fuel) size c h = elim (Bool-cases (over_budget size c)) [
  | inr done ↦ rw done done
  | inl more ↦ rw more (
      evict_loop_ends fuel size (evict_oldest c)
        (omega (arith, length-evict_oldest c (over_budget-length size c more))))
]

-- What the loop makes of a valid cache.
pub record IsTrimmed (size : ℕ) (c c' : Cache) : Type 0 where
  pub valid : IsValid c'
  pub lru : c'.lru ≡ kept c.max_bytes size c.lru
  pub max_bytes : c'.max_bytes ≡ c.max_bytes
  pub next : c'.next ≡ c.next

over_budget_iff :
    (size : ℕ) (c : Cache)
    → IsValid c
    → total c.lru + size < 2 ^ 63
    → over_budget size c ≡ (ltb c.max_bytes (total c.lru + size) && ltb 0 (length c.lru))
unfolding over_budget lt64 add64
over_budget_iff size c v h = ground (arith, v.counted, v.capacity)

kept_none : (max size : ℕ) (l : List Node) → length l ≡ 0 → l ≡ kept max size l
unfolding kept
kept_none max size [] h = ground (arith, kept_all max size [])
kept_none max size (e ∷ l) h = absurd (omega arith)

trim_done :
    (size : ℕ) (c : Cache)
    → IsValid c
    → total c.lru + size < 2 ^ 63
    → over_budget size c ≡ false
    → IsTrimmed size c c
trim_done size c v h done = record {
  valid = v;
  lru = elim (Bool-cases (ltb c.max_bytes (total c.lru + size))) [
    | inl over ↦ kept_none c.max_bytes size c.lru (ground (arith, over_budget_iff size c v h))
    | inr under ↦ sym (kept_all c.max_bytes size c.lru (ground arith))
  ];
  max_bytes = refl;
  next = refl;
}

pub evict_loop-IsTrimmed :
    (fuel size : ℕ) (c : Cache)
    → IsValid c
    → length c.lru ≤ fuel
    → total c.lru + size < 2 ^ 63
    → IsTrimmed size c (evict_loop fuel size c)
unfolding evict_loop
evict_loop-IsTrimmed zero size c v h room =
    trim_done size c v room (unfold over_budget in ground arith)
evict_loop-IsTrimmed (suc fuel) size c v h room = elim (Bool-cases (over_budget size c)) [
  | inr done ↦ rw done (trim_done size c v room done)
  | inl more ↦
      let some_left = over_budget-length size c more in
      let e = evict_oldest-IsEvicted c some_left v in
      let shrunk : total (evict_oldest c).lru ≤ total c.lru = rw e.lru (total-drop_last-le c.lru) in
      let t =
        evict_loop-IsTrimmed fuel size (evict_oldest c) e.valid
          (omega (arith, length-evict_oldest c some_left)) (omega arith) in
      rw more (record {
        valid = t.valid;
        lru =
            t.lru
            ∙ ap (λ m. kept m size (evict_oldest c).lru) e.max_bytes
            ∙ ap (kept c.max_bytes size) e.lru
            ∙ sym (
                kept-drop_last c.max_bytes size c.lru
                  (ground (arith, over_budget_iff size c v room)));
        max_bytes = t.max_bytes ∙ e.max_bytes;
        next = t.next ∙ e.next;
      })
]
