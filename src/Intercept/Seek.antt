-- ===== src/Intercept/Seek.antt =====
-- What `SeekResult` answers, and that a stub's id leads back to the content that was cached.
use mcp_content_guard.Base.{
  ◌≡◌, ◌≢◌, ◌⊎◌, refl, sym, subst, ap, ◌∙◌, false, Option, none, some, [], ◌∷◌, ◌++◌, arith, inl,
  inr, Bool-cases,
}
use mcp_content_guard.Base.Bytes.{Bytes, codes, bytes_eq}
use mcp_content_guard.Base.Dictionary.{Dictionary}
use mcp_content_guard.Json.{Result, ok, err, Message, Value}
use mcp_content_guard.Cache
use mcp_content_guard.Cache.{hex}
use mcp_content_guard.Cache.Invariant.{IsValid, get-IsValid}
use mcp_content_guard.Cache.Calls.{CanStore, get-get}
use mcp_content_guard.Filter.Total.{apply}
use mcp_content_guard.Rpc.{encode_text_result, encode_error_result}
use mcp_content_guard.Intercept.{State, Environment, Setup, maybe_cache, seek_result, stub_message}
use mcp_content_guard.Intercept.Cached.{IsLarge, maybe_cache_large}

pub hex-ne-nil : (s : Bytes) → s ≢ [] → bytes_eq (hex s) [] ≡ false
unfolding hex bytes_eq
hex-ne-nil [] h = absurd (h refl)
hex-ne-nil (b ∷ s) h = refl

module _ (setup : Setup) where
  -- The reply for what a filter gives.
  abbrev pub answer : Value → Result Bytes → Bytes
  answer id (ok text) = encode_text_result setup.codec id text
  answer id (err e) = encode_error_result setup.codec id (codes "filter error: " ++ e)

  -- The reply for what `Get` gives.
  abbrev pub answer_found : Environment → Message → Bytes → Bytes → Option Bytes → Bytes
  answer_found env req id filter_expr none =
      encode_error_result setup.codec req.id
        (codes "no cached result with id " ++ setup.engines.quote id)
  answer_found env req id filter_expr (some content) =
      answer req.id (apply setup.codec setup.engines setup.limit env.expired content filter_expr)

  pub cache_of :
      (env : Environment) (req : Message) (id filter_expr : Bytes) (s : State)
      → ((seek_result setup env req id filter_expr s).0.cache ≡ s.cache)
        ⊎ ((seek_result setup env req id filter_expr s).0.cache ≡ (Cache.get id s.cache).0)
  unfolding seek_result
  cache_of env req id filter_expr s = elim (Bool-cases (bytes_eq id [])) [
    | inl empty ↦ inl (ground arith)
    | inr named ↦ inr (ground arith)
  ]

  -- Whatever becomes of a `seek_result` call on a valid cache, every cached content can be read
  -- behind it as before, and the cache stays valid.
  pub seek_result_keeps :
      (env : Environment) (req : Message) (id filter_expr : Bytes) (s : State)
      → IsValid s.cache
      → ((j : Bytes)
          → (Cache.get j (seek_result setup env req id filter_expr s).0.cache).1
            ≡ (Cache.get j s.cache).1)
        × IsValid (seek_result setup env req id filter_expr s).0.cache
  seek_result_keeps env req id filter_expr s v = elim (cache_of env req id filter_expr s) [
    | inl p ↦ (λ j. ap (λ c. (Cache.get j c).1) p, subst IsValid (sym p) v)
    | inr p ↦ (
      λ j. ap (λ c. (Cache.get j c).1) p ∙ get-get id j s.cache,
      subst IsValid (sym p) (get-IsValid id s.cache v),
    )
  ]

  -- With an id that is not empty the reply is the filtered content, or an error that names what is
  -- wrong.
  pub seek_result-answer_found :
      (env : Environment) (req : Message) (id filter_expr : Bytes) (s : State)
      → bytes_eq id [] ≡ false
      → (seek_result setup env req id filter_expr s).1
        ≡ answer_found env req id filter_expr (Cache.get id s.cache).1
  unfolding seek_result
  seek_result-answer_found env req id filter_expr s h = ground arith

  -- A stub leads back to the content: after a large response was cached, in a valid cache and
  -- under an unused id that is not empty, a `seek_result` call with that id, which is the one in
  -- the stub, answers with the filter applied to the whole original content.
  pub retrieval :
      (env env' : Environment) (msg req : Message) (s : State) (result : Dictionary Bytes)
      (content random filter_expr : Bytes)
      → IsLarge setup msg result content
      → env.random ≡ some random
      → random ≢ []
      → CanStore random content s.cache
      → ((maybe_cache setup env msg s).1 ≡ stub_message setup msg result (hex random) content)
        × ((seek_result setup env' req (hex random) filter_expr (maybe_cache setup env msg s).0).1
            ≡ answer req.id
                (apply setup.codec setup.engines setup.limit env'.expired content filter_expr))
  retrieval env env' msg req s result content random filter_expr large drawn some_bytes can =
      let (reply, found, _) =
        maybe_cache_large setup env msg s result content random large drawn can in
      (
        reply,
        seek_result-answer_found env' req (hex random) filter_expr (maybe_cache setup env msg s).0
              (hex-ne-nil random some_bytes)
            ∙ ap (answer_found env' req (hex random) filter_expr) found,
      )
