-- ===== src/Cache/Invariant.antt =====
-- The invariant of the cache: the byte count is the sum of the payload sizes, the map and the
-- recency list hold the same nodes, and no two nodes share an id or an address.
use mcp_content_guard.Base.{
  suc, ◌+◌, ◌^◌, ◌<◌, ◌≡◌, refl, sym, ◌∙◌, subst, none, List, [], ◌∷◌, arith, Option-cases, inl,
  inr, length,
}
use mcp_content_guard.Base.Bytes.{Bytes}
use mcp_content_guard.Base.Int64.{Int64, add64, sub64, lt64, le64, len64}
use mcp_content_guard.Base.Dictionary.{lookup, delete, lookup-delete, lookup-put}
use mcp_content_guard.Cache.{Node, Cache, new_with_capacity, evict_oldest, new_node, admit, get}
use mcp_content_guard.Cache.Budget.{total, drop_last}
use mcp_content_guard.Cache.Nodes.{
  find, Distinct, AddrsBelow, AddrsBelow-mono, AddrsBelow-drop_last, Distinct-drop_last,
  Apart-fresh, IsBack, IsBack-of_cons,
}
use mcp_content_guard.Cache.Front.{move_to_front-IsFront}

pub record IsValid (c : Cache) : Type 0 where
  pub capacity : (0 < c.max_bytes) × (c.max_bytes < 2 ^ 63)
  pub fits : total c.lru < 2 ^ 63
  pub counted : c.cur_bytes ≡ total c.lru
  pub agrees : (k : Bytes) → lookup k c.items ≡ find k c.lru
  pub distinct : Distinct c.lru
  pub below : AddrsBelow c.next c.lru

-- An int64 argument gives an empty, valid cache.
pub new_with_capacity-IsValid : (max : Int64) → max < 2 ^ 64 → IsValid (new_with_capacity max)
unfolding new_with_capacity le64 lt64 lookup find
new_with_capacity-IsValid max h = record {
  capacity = ground arith;
  fits = omega arith;
  counted = refl;
  agrees = λ k. refl;
  distinct = tt;
  below = tt;
}

-- Taking the entry at the back out of a non-empty cache.
pub record IsEvicted (c c' : Cache) : Type 0 where
  pub valid : IsValid c'
  pub lru : c'.lru ≡ drop_last c.lru
  pub max_bytes : c'.max_bytes ≡ c.max_bytes
  pub next : c'.next ≡ c.next

evict_node : (c : Cache) (x : Node) → IsValid c → IsBack c.lru x → IsEvicted c (evict_oldest c)
unfolding evict_oldest
evict_node c x v b =
    let p : evict_oldest c ≡ record c {
      items = delete x.id c.items;
      lru = drop_last c.lru;
      cur_bytes = sub64 c.cur_bytes (len64 x.content);
    } =
      ground (arith, b.is_back, b.removed) in
    record {
      valid = rw p (record {
        capacity = v.capacity;
        fits = omega (arith, v.fits, b.bytes);
        counted = unfold sub64 len64 in omega (arith, v.fits, v.counted, b.bytes);
        agrees = λ k. ground (arith, lookup-delete x.id k c.items, v.agrees k, b.found k);
        distinct = Distinct-drop_last c.lru v.distinct;
        below = AddrsBelow-drop_last c.next c.lru v.below;
      });
      lru = rw p;
      max_bytes = rw p;
      next = rw p;
    }

evict_by_list :
    (c : Cache) (l : List Node)
    → c.lru ≡ l
    → 0 < length l
    → IsValid c
    → IsEvicted c (evict_oldest c)
evict_by_list c [] p h v = absurd (omega arith)
evict_by_list c (e ∷ l) p h v =
    let (x, b) = IsBack-of_cons e l (subst Distinct p v.distinct) in
    evict_node c x v (subst (λ m. IsBack m x) (sym p) b)

-- `evictOldestLocked` on a non-empty cache.
pub evict_oldest-IsEvicted :
    (c : Cache) → 0 < length c.lru → IsValid c → IsEvicted c (evict_oldest c)
evict_oldest-IsEvicted c = evict_by_list c c.lru refl

-- The end of `Store`, with an id that is not in use and room to count the bytes.
pub admit-IsValid :
    (id content : Bytes) (c : Cache)
    → IsValid c
    → find id c.lru ≡ none
    → total c.lru + length content < 2 ^ 63
    → IsValid (admit id content c)
unfolding admit find
admit-IsValid id content c v fresh room = record {
  capacity = v.capacity;
  fits = omega arith;
  counted = unfold add64 len64 in omega (arith, v.counted);
  agrees = λ k. ground (arith, lookup-put id k (new_node id content c) c.items, v.agrees k);
  distinct = (Apart-fresh (new_node id content c) c.lru v.below fresh, v.distinct);
  below = (omega arith, AddrsBelow-mono c.next (suc c.next) c.lru (omega arith) v.below);
}

-- `Get` keeps the invariant, on a hit and on a miss.
pub get-IsValid : (id : Bytes) (c : Cache) → IsValid c → IsValid (get id c).0
unfolding get
get-IsValid id c v = elim (Option-cases (lookup id c.items)) [
  | inl miss ↦ rw (miss, get) v
  | inr (e, hit) ↦
      let f =
        move_to_front-IsFront c.next id e c.lru (sym (v.agrees id) ∙ hit) v.distinct v.below in
      rw (hit, get)
        (record {
          capacity = v.capacity;
          fits = rw f.same_total v.fits;
          counted = v.counted ∙ sym f.same_total;
          agrees = λ k. v.agrees k ∙ sym (f.same_found k);
          distinct = f.distinct;
          below = f.below;
        })
]
