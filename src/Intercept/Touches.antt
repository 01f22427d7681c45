-- ===== src/Intercept/Touches.antt =====
-- What the code of internal/intercept does to the cache: at most one call of `Store` or of `Get`.
use mcp_content_guard.Base.{
  ℕ, ◌+◌, ◌≤◌, sym, subst, Bool, true, false, Option, none, some, arith, inl, inr, length,
  if◌then◌else◌,
}
use mcp_content_guard.Base.Bytes.{Bytes, codes}
use mcp_content_guard.Base.Int64.{lt64, len64}
use mcp_content_guard.Base.Dictionary.{Dictionary, lookup}
use mcp_content_guard.Json.{Result, ok, err, Message}
use mcp_content_guard.Schema.{or_empty}
use mcp_content_guard.Cache
use mcp_content_guard.Cache.{Cache}
use mcp_content_guard.Cache.Budget.{total}
use mcp_content_guard.Cache.Invariant.{IsValid}
use mcp_content_guard.Cache.Memory.{IsWithin, IsAddressable, get-IsWithin, store-IsWithin}
use mcp_content_guard.Cache.Retention.{Retains, IsUnused, Retains-refl, get-Retains, store-Retains}
use mcp_content_guard.Intercept.{
  State, Environment, Setup, is_error, cache_content, maybe_cache, seek_result,
}
use mcp_content_guard.Intercept.Cached.{cache-cache_content}
use mcp_content_guard.Intercept.Seek.{cache_of}

-- No call, a `Get`, or a `Store` of at most `size` bytes.
pub data Touches (random : Option Bytes) (size : ℕ) (c : Cache) : Cache → Type 0 where
  untouched : Touches random size c c
  gets : (id : Bytes) → Touches random size c (Cache.get id c).0
  stores :
      (content : Bytes)
      → length content ≤ size
      → Touches random size c (Cache.store random content c).0

module _ (random : Option Bytes) (size : ℕ) (c : Cache) where
  -- Both branches of a test.
  pub if-Touches {ℓ} :
      {A : Type ℓ} (f : A → Cache) (b : Bool) (x y : A)
      → Touches random size c (f x)
      → Touches random size c (f y)
      → Touches random size c (f (if b then x else y))
  if-Touches f true x y h k = h
  if-Touches f false x y h k = k

module _ (setup : Setup) where
  -- The bytes of the content of a result.
  unfoldable pub map_size : Result (Option (Dictionary Bytes)) → ℕ
  map_size (err e) = 0
  map_size (ok map) = elim (lookup (codes "content") (or_empty map)) [
    | none ↦ 0
    | some content ↦ length content
  ]

  unfoldable pub content_size : Message → ℕ
  unfolding map_size
  content_size msg = map_size (setup.codec.decode_map msg.result)

  content-Touches :
      (env : Environment) (msg : Message) (s : State) (result : Dictionary Bytes)
      (found : Option Bytes)
      → Touches env.random
          (elim found [ none ↦ 0 | some content ↦ length content ])
          s.cache
          (elim found as (λ x. State × Option Bytes) [
            | none ↦ (s, none)
            | some content ↦
                if lt64 (len64 content) setup.threshold
                then (s, none)
                else cache_content setup env msg result content s
          ]).0.cache
  content-Touches env msg s result none = untouched
  content-Touches env msg s result (some content) =
      if-Touches env.random (length content) s.cache (λ (r : State × Option Bytes). r.0.cache)
        (lt64 (len64 content) setup.threshold) (s, none)
        (cache_content setup env msg result content s) untouched
        (subst (Touches env.random (length content) s.cache)
          (sym (cache-cache_content setup env msg s result content)) (stores content (omega arith)))

  map-Touches :
      (env : Environment) (msg : Message) (s : State) (decoded : Result (Option (Dictionary Bytes)))
      → Touches env.random
          (map_size decoded)
          s.cache
          (elim decoded as (λ x. State × Option Bytes) [
            | err e ↦ (s, none)
            | ok map ↦
                let result = or_empty map in
                if is_error setup result
                then (s, none)
                else (elim (lookup (codes "content") result) [
                  | none ↦ (s, none)
                  | some content ↦
                      if lt64 (len64 content) setup.threshold
                      then (s, none)
                      else cache_content setup env msg result content s
                ])
          ]).0.cache
  unfolding map_size
  map-Touches env msg s (err e) = untouched
  map-Touches env msg s (ok map) =
      if-Touches env.random (map_size (ok map)) s.cache (λ (r : State × Option Bytes). r.0.cache)
        (is_error setup (or_empty map)) (s, none) _ untouched
        (content-Touches env msg s (or_empty map) (lookup (codes "content") (or_empty map)))

  pub maybe_cache-Touches :
      (env : Environment) (msg : Message) (s : State)
      → Touches env.random (content_size msg) s.cache (maybe_cache setup env msg s).0.cache
  unfolding maybe_cache content_size
  maybe_cache-Touches env msg s = map-Touches env msg s (setup.codec.decode_map msg.result)

  pub seek_result-Touches :
      (env : Environment) (req : Message) (id filter_expr : Bytes) (s : State)
      (random : Option Bytes) (size : ℕ)
      → Touches random size s.cache (seek_result setup env req id filter_expr s).0.cache
  seek_result-Touches env req id filter_expr s random size =
      elim (cache_of setup env req id filter_expr s) [
        | inl p ↦ subst (Touches random size s.cache) (sym p) untouched
        | inr p ↦ subst (Touches random size s.cache) (sym p) (gets id)
      ]

-- While what may be stored fits into the budget, everything can be read behind the call as before.
pub Touches-Retains :
    (random : Option Bytes) (size : ℕ) (c c' : Cache)
    → Touches random size c c'
    → IsValid c
    → IsUnused random c
    → total c.lru + size ≤ c.max_bytes
    → Retains size c c'
Touches-Retains random size c _ untouched v fresh fits = Retains-refl size c v
Touches-Retains random size c _ (gets id) v fresh fits = get-Retains size id c v
Touches-Retains random size c _ (stores content small) v fresh fits =
    store-Retains size random content c v fresh small fits

-- While no content is larger, the memory of the cache stays as it is bounded.
pub Touches-IsWithin :
    (budget largest : ℕ)
    → IsAddressable budget largest
    → (random : Option Bytes) (size : ℕ) (c c' : Cache) → Touches random size c c'
    → size ≤ largest
    → IsUnused random c
    → IsWithin budget largest c
    → IsWithin budget largest c'
Touches-IsWithin budget largest a random size c _ untouched h fresh w = w
Touches-IsWithin budget largest a random size c _ (gets id) h fresh w =
    get-IsWithin budget largest a id c w
Touches-IsWithin budget largest a random size c _ (stores content small) h fresh w =
    store-IsWithin budget largest a random content c fresh (omega arith) w
