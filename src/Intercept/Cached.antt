-- ===== src/Intercept/Cached.antt =====
-- When `MaybeCache` caches, what it replies, and what it leaves alone.
use mcp_content_guard.Base.{
  ◌≡◌, ◌⊎◌, sym, subst, ap, ◌∙◌, true, false, Option, none, some, arith, inl, inr,
}
use mcp_content_guard.Base.Bytes.{Bytes, codes}
use mcp_content_guard.Base.Int64.{lt64, len64}
use mcp_content_guard.Base.Dictionary.{Dictionary, lookup}
use mcp_content_guard.Json.{ok, err, Message}
use mcp_content_guard.Cache
use mcp_content_guard.Cache.{hex}
use mcp_content_guard.Cache.Invariant.{IsValid}
use mcp_content_guard.Cache.Calls.{CanStore, store-IsStored, get-store}
use mcp_content_guard.Schema.{or_empty}
use mcp_content_guard.Intercept.{
  State, Environment, Setup, stub_message, is_error, cache_content, maybe_cache,
}

module _ (setup : Setup) where
  -- A successful result with content at or above the threshold.
  pub record IsLarge (msg : Message) (result : Dictionary Bytes) (content : Bytes) : Type 0 where
    pub decoded : setup.codec.decode_map msg.result ≡ ok (some result)
    pub no_error : is_error setup result ≡ false
    pub present : lookup (codes "content") result ≡ some content
    pub large : lt64 (len64 content) setup.threshold ≡ false

  maybe_cache-IsLarge :
      (env : Environment) (msg : Message) (s : State) (result : Dictionary Bytes) (content : Bytes)
      → IsLarge msg result content
      → maybe_cache setup env msg s ≡ cache_content setup env msg result content s
  unfolding maybe_cache
  maybe_cache-IsLarge env msg s result content h =
      rw (h.decoded, maybe_cache) (rw (h.no_error) (rw (h.present, maybe_cache) (rw (h.large))))

  pub cache-cache_content :
      (env : Environment) (msg : Message) (s : State) (result : Dictionary Bytes) (content : Bytes)
      → (cache_content setup env msg result content s).0.cache
        ≡ (Cache.store env.random content s.cache).0
  unfolding cache_content
  cache-cache_content env msg s result content = ground arith

  reply-cache_content :
      (env : Environment) (msg : Message) (s : State) (result : Dictionary Bytes)
      (content random : Bytes)
      → env.random ≡ some random
      → (cache_content setup env msg result content s).1
        ≡ stub_message setup msg result (hex random) content
  unfolding cache_content Cache.store
  reply-cache_content env msg s result content random drawn = ground arith

  -- The reply for large content is the stub message with the id of the new entry, and then the
  -- content stands in the cache under that id.
  pub maybe_cache_large :
      (env : Environment) (msg : Message) (s : State) (result : Dictionary Bytes)
      (content random : Bytes)
      → IsLarge msg result content
      → env.random ≡ some random
      → CanStore random content s.cache
      → ((maybe_cache setup env msg s).1 ≡ stub_message setup msg result (hex random) content)
        × ((Cache.get (hex random) (maybe_cache setup env msg s).0.cache).1 ≡ some content)
        × IsValid (maybe_cache setup env msg s).0.cache
  maybe_cache_large env msg s result content random h drawn can =
      let p = maybe_cache-IsLarge env msg s result content h in
      let q : (maybe_cache setup env msg s).0.cache
          ≡ (Cache.store (some random) content s.cache).0 =
        ap (λ r. r.0.cache) p
        ∙ cache-cache_content env msg s result content
        ∙ ap (λ r. (Cache.store r content s.cache).0) drawn in
      (
        ap (λ r. r.1) p ∙ reply-cache_content env msg s result content random drawn,
        ap (λ c. (Cache.get (hex random) c).1) q ∙ get-store random content s.cache can,
        subst IsValid (sym q) (store-IsStored random content s.cache can).valid,
      )

  -- A response is forwarded as it is, and the cache and the statistics stay as they are, if the
  -- result is no object, is marked as an error, has no content, or has content below the threshold.
  pub maybe_cache_forwards :
      (env : Environment) (msg : Message) (s : State)
      → ((e : Bytes) × (setup.codec.decode_map msg.result ≡ err e))
        ⊎ ((map : Option (Dictionary Bytes)) × (setup.codec.decode_map msg.result ≡ ok map)
            × ((is_error setup (or_empty map) ≡ true)
                ⊎ (lookup (codes "content") (or_empty map) ≡ none)
                ⊎ ((content : Bytes) × (lookup (codes "content") (or_empty map) ≡ some content)
                    × (lt64 (len64 content) setup.threshold ≡ true))))
      → maybe_cache setup env msg s ≡ (s, none)
  unfolding maybe_cache
  maybe_cache_forwards env msg s (inl (e, h)) = rw (h, maybe_cache)
  maybe_cache_forwards env msg s (inr (map, h, inl p)) = rw (h, maybe_cache) (rw p)
  maybe_cache_forwards env msg s (inr (map, h, inr (inl p))) = rw (h, maybe_cache) (ground arith)
  maybe_cache_forwards env msg s (inr (map, h, inr (inr (content, p, q)))) =
      rw (h, maybe_cache) (ground arith)
