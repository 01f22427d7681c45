-- ===== src/Http/Sessions.antt =====
-- While what has been cached fits into the budget, every stub stays good, whatever requests follow.
use mcp_content_guard.Base.{
  ℕ, ◌+◌, ◌≤◌, ◌≡◌, ◌≢◌, false, subst, sym, ap, ◌∙◌, some, List, [], ◌∷◌, arith,
}
use mcp_content_guard.Base.Bytes.{Bytes, bytes_eq}
use mcp_content_guard.Base.Dictionary.{Dictionary}
use mcp_content_guard.Json.{Message, CallParams, ok}
use mcp_content_guard.Cache
use mcp_content_guard.Cache.{Cache, hex}
use mcp_content_guard.Cache.Budget.{total}
use mcp_content_guard.Cache.Calls.{CanStore}
use mcp_content_guard.Cache.Invariant.{IsValid}
use mcp_content_guard.Cache.Retention.{Retains, IsUnused, Retains-refl, Retains-trans}
use mcp_content_guard.Filter.Total.{apply}
use mcp_content_guard.Intercept.{State, Environment, stub_message, maybe_cache}
use mcp_content_guard.Intercept.Cached.{IsLarge, maybe_cache_large}
use mcp_content_guard.Intercept.Seek.{answer, answer_found, seek_result-answer_found, hex-ne-nil}
use mcp_content_guard.Intercept.Touches.{Touches-Retains}
use mcp_content_guard.Http.{Request, Network, Outcome, write_json}
use mcp_content_guard.Http.Handlers.{Context, Collected, do_upstream, seek_request, serve_http}
use mcp_content_guard.Http.Posts.{IsPost, IsCalled, serve_http-seek, serve_http-other, finish_call}
use mcp_content_guard.Http.Sizes.{request_size}
use mcp_content_guard.Http.Touches.{serve_http-Touches}

-- A request, and what its handler meets.
pub record Incoming : Type 0 where
  pub env : Environment
  pub net : Network
  pub request : Request

module _ (context : Context) where
  open context use {setup, canonical}

  -- Requests one after another, in the order of their uses of the cache.
  unfoldable pub serve_all : List Incoming → State → State
  serve_all [] s = s
  serve_all (i ∷ is) s = serve_all is (serve_http context i.env i.net i.request s).shared

  -- The bytes of the contents of the results that are collected from upstream.
  unfoldable pub arriving : List Incoming → ℕ
  unfolding request_size
  arriving [] = 0
  arriving (i ∷ is) = request_size context i.net i.request + arriving is

  -- The ids that are drawn for stubs are unused.
  abbrev pub DrawsUnused : List Incoming → State → Type 0
  DrawsUnused [] s = Unit
  DrawsUnused (i ∷ is) s =
      IsUnused i.env.random s.cache
      × DrawsUnused is (serve_http context i.env i.net i.request s).shared

  pub serve_all-Retains :
      (is : List Incoming) (s : State)
      → IsValid s.cache
      → DrawsUnused is s
      → total s.cache.lru + arriving is ≤ s.cache.max_bytes
      → Retains (arriving is) s.cache (serve_all is s).cache
  unfolding serve_all arriving
  serve_all-Retains [] s v h fits = Retains-refl 0 s.cache v
  serve_all-Retains (i ∷ is) s v (unused, h) fits =
      let t = (serve_http context i.env i.net i.request s).shared in
      let size = request_size context i.net i.request in
      let r =
        Touches-Retains i.env.random size s.cache t.cache
          (serve_http-Touches context i.env s i.net i.request) v unused (omega arith) in
      Retains-trans size (arriving is) _ s.cache t.cache _ (omega arith) r
        (serve_all-Retains is t r.valid h (omega (arith, r.bytes, r.max_bytes)))

  sought-answer :
      (env : Environment) (net : Network) (r : Request) (body : Bytes) (seek : Message)
      (params : CallParams) (s : State) (content : Bytes)
      → IsPost context r body seek
      → seek_request context seek ≡ some params
      → bytes_eq params.id [] ≡ false
      → (Cache.get params.id s.cache).1 ≡ some content
      → ((serve_http context env net r s).reply
          ≡ write_json canonical (
              answer setup seek.id
                (apply setup.codec setup.engines setup.limit env.expired content params.filter)))
        × ((serve_http context env net r s).sent ≡ [])
  sought-answer env net r body seek params s content post sought named found =
      let served = serve_http-seek context env net r body seek params s post sought in
      (
        ap (λ (o : Outcome). o.reply) served
            ∙ ap (write_json canonical) (
                seek_result-answer_found setup env seek params.id params.filter s named
                ∙ ap (answer_found setup env seek params.id params.filter) found),
        ap (λ (o : Outcome). o.sent) served,
      )

  -- A stub stays good over HTTP: the reply to a `tools/call` request with a large response is its stub,
  -- and behind any further requests a `seek_result` call with the id of the stub is answered with the
  -- filter applied to the whole content, with no request upstream; as long as everything that is
  -- cached then and everything that the further results hold fits into the budget of the cache; from a
  -- valid cache, if every id that is drawn is unused, that of the stub is not empty, there is memory
  -- for its entry, and the stub can be encoded.
  pub serve_later :
      (env env' : Environment) (net net' : Network) (r r' : Request) (body body' : Bytes)
      (is : List Incoming) (call seek resp_msg : Message) (params : CallParams) (resp : Collected)
      (s t : State) (result : Dictionary Bytes) (content random stub : Bytes)
      → IsPost context r body call
      → (do_upstream context net r body).0 ≡ ok resp
      → IsCalled context call resp resp_msg
      → IsLarge setup resp_msg result content
      → env.random ≡ some random
      → random ≢ []
      → CanStore random content s.cache
      → stub_message setup resp_msg result (hex random) content ≡ some stub
      → (serve_http context env net r s).shared ≡ t
      → DrawsUnused is t
      → total t.cache.lru + arriving is ≤ t.cache.max_bytes
      → IsPost context r' body' seek
      → seek_request context seek ≡ some params
      → params.id ≡ hex random
      → ((serve_http context env net r s).reply ≡ write_json canonical stub)
        × ((serve_http context env' net' r' (serve_all is t)).reply
            ≡ write_json canonical (
                answer setup seek.id
                  (apply setup.codec setup.engines setup.limit env'.expired content params.filter)))
        × ((serve_http context env' net' r' (serve_all is t)).sent ≡ [])
  serve_later env env' net net' r r' body body' is call seek resp_msg params resp s t result content
        random stub post up called large drawn some_bytes can stubbed is_t draws fits post' sought
        same =
      let (replied, readable, valid) =
        maybe_cache_large setup env resp_msg s result content random large drawn can in
      let first = serve_http-other context env net r body call resp s post called.other up in
      let finished = finish_call context env call resp_msg resp stub s called (replied ∙ stubbed) in
      let shared : (maybe_cache setup env resp_msg s).0 ≡ t =
        sym (ap (λ o. o.0) finished) ∙ sym (ap (λ (o : Outcome). o.shared) first) ∙ is_t in
      let kept =
        serve_all-Retains is t (subst (λ (x : State). IsValid x.cache) shared valid) draws fits in
      let readable' =
        kept.keeps (hex random) content
          (ap (λ (x : State). (Cache.get (hex random) x.cache).1) (sym shared) ∙ readable) in
      let (reply, sent) =
        sought-answer env' net' r' body' seek params (serve_all is t) content post' sought
          (ap (λ i. bytes_eq i []) same ∙ hex-ne-nil random some_bytes)
          (ap (λ i. (Cache.get i (serve_all is t).cache).1) same ∙ readable') in
      (ap (λ (o : Outcome). o.reply) first ∙ ap (λ o. o.1) finished, reply, sent)
