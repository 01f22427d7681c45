-- ===== src/Cache/Calls.antt =====
-- What `Store` and `Get` do, call by call.
use mathlib.Core.Option
use mcp_content_guard.Base.{
  ℕ, suc, ◌+◌, ◌^◌, ◌≤◌, ◌<◌, ◌≡◌, ◌⊎◌, refl, sym, ap, ◌∙◌, subst, some, none, List, [], ◌∷◌, arith,
  Option-cases, Bool-cases, inl, inr, length, take, ltb,
}
use mcp_content_guard.Base.Bytes.{Bytes, bytes_eq_refl}
use mcp_content_guard.Base.Int64.{len64}
use mcp_content_guard.Base.Dictionary.{lookup}
use mcp_content_guard.Cache.{Node, Cache, evict_loop, new_node, admit, hex, store, get}
use mcp_content_guard.Cache.Budget.{total, fitting, kept, kept_fits, kept-IsLongestFit}
use mcp_content_guard.Cache.Nodes.{find}
use mcp_content_guard.Cache.Invariant.{IsValid, admit-IsValid}
use mcp_content_guard.Cache.Eviction.{evict_loop-IsTrimmed}

total-fitting-le : (max used : ℕ) (l : List Node) → total (fitting max used l) ≤ total l
unfolding fitting
total-fitting-le max used [] = omega arith
total-fitting-le max used (e ∷ l) = ground (arith, total-fitting-le max (used + length e.content) l)

pub total-kept-le : (max size : ℕ) (l : List Node) → total (kept max size l) ≤ total l
unfolding kept
total-kept-le max size l = ground (arith, total-fitting-le max size l)

find-fitting :
    (k : Bytes) (max used : ℕ) (l : List Node)
    → find k l ≡ none
    → find k (fitting max used l) ≡ none
unfolding find fitting
find-fitting k max used [] h = refl
find-fitting k max used (e ∷ l) h = ground (arith, find-fitting k max (used + length e.content) l)

pub find-kept :
    (k : Bytes) (max size : ℕ) (l : List Node) → find k l ≡ none → find k (kept max size l) ≡ none
unfolding kept find
find-kept k max size l h = ground (arith, find-fitting k max size l)

-- A call of `Store` that drew an unused id, with the memory for the entry.
pub record CanStore (random content : Bytes) (c : Cache) : Type 0 where
  pub valid : IsValid c
  pub fresh : lookup (hex random) c.items ≡ none
  pub room : total c.lru + length content < 2 ^ 63

pub record IsStored (random content : Bytes) (c c' : Cache) : Type 0 where
  pub valid : IsValid c'
  pub lru : c'.lru ≡ new_node (hex random) content c ∷ kept c.max_bytes (length content) c.lru
  pub max_bytes : c'.max_bytes ≡ c.max_bytes

len64_lem : (s : Bytes) → length s < 2 ^ 63 → len64 s ≡ length s
unfolding len64
len64_lem s h = omega arith

-- A `Store` that can draw an id keeps the invariant; the new entry is the most recent.
pub store-IsStored :
    (random content : Bytes) (c : Cache)
    → CanStore random content c
    → IsStored random content c (store (some random) content c).0
unfolding store admit
store-IsStored random content c h =
    let t =
      evict_loop-IsTrimmed (length c.lru) (len64 content) c h.valid (omega arith)
        (rw (len64_lem content (omega arith)) h.room) in
    let p : len64 content ≡ length content = len64_lem content (omega arith) in
    let trimmed = evict_loop (length c.lru) (len64 content) c in
    let lru : trimmed.lru ≡ kept c.max_bytes (length content) c.lru =
      t.lru ∙ ap (λ n. kept c.max_bytes n c.lru) p in
    let fresh : find (hex random) c.lru ≡ none = sym (h.valid.agrees (hex random)) ∙ h.fresh in
    record {
      valid =
          admit-IsValid (hex random) content trimmed t.valid
            (rw lru (find-kept (hex random) c.max_bytes (length content) c.lru fresh))
            (rw lru (omega (arith, total-kept-le c.max_bytes (length content) c.lru, h.room)));
      lru =
          ap (λ n. record { addr = n; id = hex random; content = content } ∷ trimmed.lru) t.next
          ∙ ap (◌∷◌ (new_node (hex random) content c)) lru;
      max_bytes = t.max_bytes;
    }

-- From a valid cache, with an unused id and memory for the entry, `Store` evicts least recently
-- used entries first, and no more of them than it must: with `n` the number of entries that stay,
-- they are the `n` most recent, in their order, behind the new entry; they fit into the budget
-- with it (or none stays), and one more of them would not have fitted (or all stay).
pub store_evicts :
    (random content : Bytes) (c : Cache)
    → CanStore random content c
    → (n : ℕ) × ((store (some random) content c).0.lru
        ≡ new_node (hex random) content c ∷ take n c.lru)
      × ((length content + total (take n c.lru) ≤ c.max_bytes) ⊎ (n ≡ 0))
      × ((length c.lru ≤ n) ⊎ (c.max_bytes < length content + total (take (suc n) c.lru)))
store_evicts random content c h =
    let s = store-IsStored random content c h in
    let k = kept-IsLongestFit c.max_bytes (length content) c.lru in
    (
      k.count,
      s.lru ∙ ap (◌∷◌ (new_node (hex random) content c)) k.prefix,
      subst (λ l. (length content + total l ≤ c.max_bytes) ⊎ (k.count ≡ 0)) k.prefix k.fits,
      elim (Bool-cases (ltb k.count (length c.lru))) [
        | inl fewer ↦ inr (k.longest (suc k.count) (omega arith) (ground arith))
        | inr all ↦ inl (ground arith)
      ],
    )

-- After `Store` on a valid cache, with an unused id and memory for the entry, the byte count is
-- within the budget, unless the new entry alone exceeds it; then it is the only entry.
pub store-within_budget :
    (random content : Bytes) (c : Cache)
    → CanStore random content c
    → ((store (some random) content c).0.cur_bytes ≤ c.max_bytes)
      ⊎ ((c.max_bytes < length content)
          × ((store (some random) content c).0.lru ≡ new_node (hex random) content c ∷ []))
store-within_budget random content c h =
    let s = store-IsStored random content c h in
    elim (Bool-cases (ltb c.max_bytes (length content))) [
      | inl big ↦ inr (
        ground arith,
        s.lru ∙ ap (◌∷◌ (new_node (hex random) content c)) (unfold kept in ground arith),
      )
      | inr small ↦ inl (
          rw (s.valid.counted, s.lru)
            (omega (arith, kept_fits c.max_bytes (length content) c.lru (ground arith))))
    ]

-- `Get` with the id that `Store` returned finds the content.
pub get-store :
    (random content : Bytes) (c : Cache)
    → CanStore random content c
    → (get (hex random) (store (some random) content c).0).1 ≡ some content
unfolding get
get-store random content c h =
    let s = store-IsStored random content c h in
    let stored = (store (some random) content c).0 in
    let p : lookup (hex random) stored.items ≡ some (new_node (hex random) content c) =
      s.valid.agrees (hex random)
      ∙ ap (find (hex random)) s.lru
      ∙ (unfold find in ground (arith, bytes_eq_refl (hex random))) in
    rw (p, get)

items-get : (id : Bytes) (c : Cache) → (get id c).0.items ≡ c.items
unfolding get
items-get id c = ground arith

-- What `Get` returns is what the map holds.
pub found-get :
    (id : Bytes) (c : Cache) → (get id c).1 ≡ Option.map (λ e. e.content) (lookup id c.items)
unfolding get
found-get id c = elim (Option-cases (lookup id c.items)) [
  | inl miss ↦ rw (miss, get)
  | inr (e, hit) ↦ rw (hit, get)
]

-- A `Get` changes nothing that a later `Get` returns: a cached entry is not consumed.
pub get-get : (i j : Bytes) (c : Cache) → (get j (get i c).0).1 ≡ (get j c).1
get-get i j c =
    found-get j (get i c).0
    ∙ ap (λ m. Option.map (λ (e : Node). e.content) (lookup j m)) (items-get i c)
    ∙ sym (found-get j c)
