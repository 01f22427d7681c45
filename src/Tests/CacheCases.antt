-- ===== src/Tests/CacheCases.antt =====
-- internal/cache at concrete inputs.
use mcp_content_guard.Base.{
  ℕ, suc, ◌+◌, ◌<◌, ◌≤◌, ◌≡◌, ◌⊎◌, refl, false, none, some, List, [], ◌∷◌, length, take, arith,
}
use mcp_content_guard.Base.Bytes.{codes, bytes_eq}
use mcp_content_guard.Base.Int64.{lt64, le64, add64, len64, sub64}
use mcp_content_guard.Base.Dictionary.{lookup, delete, put}
use mcp_content_guard.Cache.{
  Cache, new_with_capacity, new_node, hex, store, get, over_budget, evict_loop,
}
use mcp_content_guard.Cache.Budget.{total}
use mcp_content_guard.Cache.Invariant.{IsValid, new_with_capacity-IsValid}
use mcp_content_guard.Cache.Eviction.{evict_loop_ends}
use mcp_content_guard.Cache.Calls.{CanStore, store_evicts, store-within_budget}
use mcp_content_guard.Cache.Recency.{
  Call, store_call, get_call, view, step, run, recents_run, CanRun, run-refines, run-IsValid,
}

-- Room for four bytes.
abbrev small : Cache
small = new_with_capacity 4

small-IsValid : IsValid small
small-IsValid = new_with_capacity-IsValid 4 (omega arith)

abbrev calls : List Call
calls =
    store_call (some (1 ∷ [])) (codes "ab")
    ∷ store_call (some (2 ∷ [])) (codes "cd")
    ∷ get_call (codes "01")
    ∷ store_call (some (3 ∷ [])) (codes "e")
    ∷ get_call (codes "02")
    ∷ store_call none (codes "f")
    ∷ []

-- The entry that was read last survives, the other is evicted.
run-small :
    (view (run calls small).0.lru ≡ (codes "03", codes "e") ∷ (codes "01", codes "ab") ∷ [])
    × ((run calls small).1
        ≡ some (codes "01")
          ∷ some (codes "02")
          ∷ some (codes "ab")
          ∷ some (codes "03")
          ∷ none
          ∷ none
          ∷ [])
unfolding run store get new_with_capacity lookup put delete bytes_eq lt64 le64 add64 len64 sub64
run-small = (refl, refl)

calls-CanRun : CanRun calls small
unfolding step store get new_with_capacity lookup put delete bytes_eq lt64 le64 add64 len64 sub64
calls-CanRun =
    ((refl, omega arith), ((refl, omega arith), (tt, ((refl, omega arith), (tt, (tt, tt))))))

run-refines_example :
    (view (run calls small).0.lru ≡ (recents_run small.max_bytes calls (view small.lru)).0)
    × ((run calls small).1 ≡ (recents_run small.max_bytes calls (view small.lru)).1)
run-refines_example = run-refines calls small small-IsValid calls-CanRun

-- Two entries of two bytes fill the cache.
abbrev full : Cache
full = (run (take 2 calls) small).0

full-IsValid : IsValid full
full-IsValid =
    run-IsValid (take 2 calls) small small-IsValid (calls-CanRun.0, (calls-CanRun.1.0, tt))

full-CanStore : CanStore (3 ∷ []) (codes "xyz") full
unfolding run step store get new_with_capacity lookup put delete bytes_eq lt64 le64 add64 len64
    sub64
full-CanStore = record { valid = full-IsValid; fresh = refl; room = omega arith }

store_evicts_example :
    (n : ℕ) × ((store (some (3 ∷ [])) (codes "xyz") full).0.lru
      ≡ new_node (hex (3 ∷ [])) (codes "xyz") full ∷ take n full.lru)
    × ((length (codes "xyz") + total (take n full.lru) ≤ full.max_bytes) ⊎ (n ≡ 0))
    × ((length full.lru ≤ n)
        ⊎ (full.max_bytes < length (codes "xyz") + total (take (suc n) full.lru)))
store_evicts_example = store_evicts (3 ∷ []) (codes "xyz") full full-CanStore

store-within_budget_example :
    ((store (some (3 ∷ [])) (codes "xyz") full).0.cur_bytes ≤ full.max_bytes)
    ⊎ ((full.max_bytes < length (codes "xyz"))
        × ((store (some (3 ∷ [])) (codes "xyz") full).0.lru
            ≡ new_node (hex (3 ∷ [])) (codes "xyz") full ∷ []))
store-within_budget_example = store-within_budget (3 ∷ []) (codes "xyz") full full-CanStore

full-has_two : length full.lru ≤ 2
unfolding run step store get new_with_capacity lookup put delete bytes_eq lt64 le64 add64 len64
    sub64
full-has_two = omega arith

evict_loop_ends_example : over_budget 3 (evict_loop 2 3 full) ≡ false
evict_loop_ends_example = evict_loop_ends 2 3 full full-has_two
