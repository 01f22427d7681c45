-- ===== src/Cache/Memory.antt =====
-- The memory that the cached contents take over any calls.
use mcp_content_guard.Base.{
  ℕ, ◌+◌, ◌^◌, ◌≤◌, ◌<◌, ◌≡◌, refl, ap, ◌∙◌, ◌⊎◌, Option, some, none, List, arith, inl, inr, length,
  if◌then◌else◌,
}
use mcp_content_guard.Base.Bytes.{Bytes}
use mcp_content_guard.Base.Int64.{Int64, le64}
use mcp_content_guard.Cache.{Cache, default_max_bytes, new_with_capacity, store, get, bytes}
use mcp_content_guard.Cache.Held.{held, AreDistinct, held-total}
use mcp_content_guard.Cache.Budget.{total}
use mcp_content_guard.Cache.Invariant.{IsValid, get-IsValid, new_with_capacity-IsValid}
use mcp_content_guard.Cache.Calls.{CanStore, store-IsStored, store-within_budget}
use mcp_content_guard.Cache.Retention.{IsUnused, get-Retains, cur_bytes-get}

-- A valid cache with a budget, which takes no more than the budget or than the largest content.
pub record IsWithin (budget largest : ℕ) (c : Cache) : Type 0 where
  pub valid : IsValid c
  pub max_bytes : c.max_bytes ≡ budget
  pub bound : (bytes c ≤ budget) ⊎ (bytes c ≤ largest)

-- The contents and the budget fit into an int64 together.
pub record IsAddressable (budget largest : ℕ) : Type 0 where
  pub with_budget : budget + largest < 2 ^ 63
  pub with_content : largest + largest < 2 ^ 63

-- The budget for a configured size.
unfoldable pub budget_of : Int64 → ℕ
budget_of max = if le64 max 0 then default_max_bytes else max

pub new_with_capacity-IsWithin :
    (largest : ℕ) (max : Int64)
    → max < 2 ^ 64
    → IsWithin (budget_of max) largest (new_with_capacity max)
unfolding new_with_capacity budget_of bytes
new_with_capacity-IsWithin largest max h = record {
  valid = new_with_capacity-IsValid max h;
  max_bytes = refl;
  bound = inl (omega arith);
}

module _ (budget largest : ℕ) (addressable : IsAddressable budget largest) where
  pub get-IsWithin :
      (id : Bytes) (c : Cache) → IsWithin budget largest c → IsWithin budget largest (get id c).0
  unfolding bytes
  get-IsWithin id c w = record {
    valid = get-IsValid id c w.valid;
    max_bytes = (get-Retains 0 id c w.valid).max_bytes ∙ w.max_bytes;
    bound = rw (cur_bytes-get id c) w.bound;
  }

  room_for :
      (content : Bytes) (c : Cache)
      → length content ≤ largest
      → IsWithin budget largest c
      → total c.lru + length content < 2 ^ 63
  unfolding bytes
  room_for content c small w = elim w.bound [
    | inl h ↦ omega (arith, w.valid.counted, addressable.with_budget)
    | inr h ↦ omega (arith, w.valid.counted, addressable.with_content)
  ]

  pub store-IsWithin :
      (random : Option Bytes) (content : Bytes) (c : Cache)
      → IsUnused random c
      → length content ≤ largest
      → IsWithin budget largest c
      → IsWithin budget largest (store random content c).0
  unfolding store bytes
  store-IsWithin none content c fresh small w = w
  store-IsWithin (some random) content c fresh small w =
      let can : CanStore random content c = record {
        valid = w.valid;
        fresh = fresh;
        room = room_for content c small w;
      } in
      let s = store-IsStored random content c can in
      record {
        valid = s.valid;
        max_bytes = s.max_bytes ∙ w.max_bytes;
        bound = elim (store-within_budget random content c can) [
          | inl h ↦ inl (omega (arith, w.max_bytes))
          | inr h ↦ inr (omega (arith, s.valid.counted, ap total h.1))
        ];
      }

-- What a cache holds: the byte count is the sum of the contents in the recency list, the contents that
-- the map has for some keys are no more than those, and they take no more than the budget or than the
-- largest content.
abbrev pub HoldsAtMost : ℕ → ℕ → List Bytes → Cache → Type 0
HoldsAtMost budget largest ids c =
    (bytes c ≡ total c.lru)
    × (held ids c.items ≤ total c.lru)
    × ((total c.lru ≤ budget) ⊎ (total c.lru ≤ largest))

pub IsWithin-HoldsAtMost :
    (budget largest : ℕ) (ids : List Bytes) (c : Cache)
    → AreDistinct ids
    → IsWithin budget largest c
    → HoldsAtMost budget largest ids c
unfolding bytes
IsWithin-HoldsAtMost budget largest ids c d w = (
  w.valid.counted,
  held-total c.items c.lru w.valid.agrees ids d,
  elim w.bound [
    | inl h ↦ inl (omega (arith, w.valid.counted))
    | inr h ↦ inr (omega (arith, w.valid.counted))
  ],
)
