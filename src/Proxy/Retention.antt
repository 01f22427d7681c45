-- ===== src/Proxy/Retention.antt =====
-- While what has been cached fits into the budget, every stub stays good, whatever both sides send.
use mcp_content_guard.Base.{
  ℕ, ◌+◌, ◌≤◌, ◌≡◌, ◌≢◌, refl, false, subst, sym, ap, ◌∙◌, none, some, List, [], ◌∷◌, ◌++◌, arith,
}
use mcp_content_guard.Base.Bytes.{Bytes, codes, bytes_eq}
use mcp_content_guard.Base.Dictionary.{Dictionary, lookup}
use mcp_content_guard.Json.{Message, CallParams}
use mcp_content_guard.Cache
use mcp_content_guard.Cache.{hex}
use mcp_content_guard.Cache.Calls.{CanStore}
use mcp_content_guard.Cache.Budget.{total}
use mcp_content_guard.Cache.Invariant.{IsValid}
use mcp_content_guard.Cache.Retention.{Retains, IsUnused, Retains-refl, Retains-trans}
use mcp_content_guard.Filter.Total.{apply}
use mcp_content_guard.Intercept.{State, Environment, Setup, stub_message, maybe_cache}
use mcp_content_guard.Intercept.Cached.{IsLarge, maybe_cache_large}
use mcp_content_guard.Intercept.Seek.{answer, answer_found, seek_result-answer_found, hex-ne-nil}
use mcp_content_guard.Intercept.Touches.{Touches-Retains}
use mcp_content_guard.Proxy.Retrieve.{
  IsResponse, IsSeekCall, after_response, upstream_call, seek_response,
}
use mcp_content_guard.Proxy.{Proxy, send, id_key, handle_client_message, handle_upstream_message}
use mcp_content_guard.Proxy.Touches.{
  line_size, handle_upstream_message-Touches, handle_client_message-Touches,
}
use mcp_content_guard.Proxy.Schedule.{Event, from_client, from_upstream, step, run}

module _ (setup : Setup) (tool : Bytes) where
  -- The bytes of the contents of the server's results.
  unfoldable pub arriving : List Event → ℕ
  unfolding line_size
  arriving [] = 0
  arriving (from_client env line ∷ es) = arriving es
  arriving (from_upstream env line ∷ es) =
      line_size setup tool (setup.codec.decode_message line) + arriving es

  -- The ids that are drawn for stubs are unused.
  abbrev pub DrawsUnused : List Event → Proxy → Type 0
  DrawsUnused [] p = Unit
  DrawsUnused (from_client env line ∷ es) p =
      DrawsUnused es (handle_client_message setup tool env line p)
  DrawsUnused (from_upstream env line ∷ es) p =
      IsUnused env.random p.shared.cache
      × DrawsUnused es (handle_upstream_message setup tool env line p)

  pub run-Retains :
      (es : List Event) (p : Proxy)
      → IsValid p.shared.cache
      → DrawsUnused es p
      → total p.shared.cache.lru + arriving es ≤ p.shared.cache.max_bytes
      → Retains (arriving es) p.shared.cache (run setup tool es p).shared.cache
  unfolding run arriving step
  run-Retains [] p v h fits = Retains-refl 0 p.shared.cache v
  run-Retains (from_client env line ∷ es) p v h fits =
      let q = handle_client_message setup tool env line p in
      let r =
        Touches-Retains none 0 p.shared.cache q.shared.cache
          (handle_client_message-Touches setup tool env line p) v tt (omega arith) in
      Retains-trans 0 (arriving es) _ p.shared.cache q.shared.cache _ (omega arith) r
        (run-Retains es q r.valid h (omega (arith, r.bytes, r.max_bytes)))
  run-Retains (from_upstream env line ∷ es) p v (unused, h) fits =
      let q = handle_upstream_message setup tool env line p in
      let size = line_size setup tool (setup.codec.decode_message line) in
      let r =
        Touches-Retains env.random size p.shared.cache q.shared.cache
          (handle_upstream_message-Touches setup tool env line p) v unused (omega arith) in
      Retains-trans size (arriving es) _ p.shared.cache q.shared.cache _ (omega arith) r
        (run-Retains es q r.valid h (omega (arith, r.bytes, r.max_bytes)))

  shared_after :
      (env : Environment) (msg : Message) (p : Proxy) (stub : Bytes)
      → (after_response setup tool env msg p stub).shared ≡ (maybe_cache setup env msg p.shared).0
  unfolding after_response send
  shared_after env msg p stub = refl

  to_client_after :
      (env : Environment) (msg : Message) (p : Proxy) (stub : Bytes)
      → (after_response setup tool env msg p stub).to_client ≡ p.to_client ++ (stub ∷ [])
  unfolding after_response send
  to_client_after env msg p stub = refl

  seek_answered :
      (env : Environment) (line : Bytes) (seek : Message) (params : CallParams) (p : Proxy)
      (content : Bytes)
      → IsSeekCall setup tool line seek params
      → bytes_eq params.id [] ≡ false
      → (Cache.get params.id p.shared.cache).1 ≡ some content
      → (handle_client_message setup tool env line p).to_client
        ≡ p.to_client
          ++ (answer setup seek.id
                (apply setup.codec setup.engines setup.limit env.expired content params.filter)
              ∷ [])
  unfolding send
  seek_answered env line seek params p content s named found =
      ap (λ (q : Proxy). q.to_client) (seek_response setup tool env line seek params p s)
      ∙ ap (λ b. p.to_client ++ (b ∷ []))
          (seek_result-answer_found setup env seek params.id params.filter p.shared named
            ∙ ap (answer_found setup env seek params.id params.filter) found)

  -- A stub stays good: a large response to a pending `tools/call` request is replaced by its stub, and
  -- behind any further lines of both sides, in any order, a `seek_result` call with the id of the stub
  -- is answered with the filter applied to the whole content; as long as everything that is cached then
  -- and everything that the results of the further lines hold fits into the budget of the cache; from a
  -- valid cache, if every id that is drawn is unused, that of the stub is not empty, there is memory
  -- for its entry, and the stub can be encoded.
  pub seek_later :
      (env env' : Environment) (response_line seek_line : Bytes) (es : List Event)
      (response call seek : Message) (params : CallParams) (p : Proxy) (result : Dictionary Bytes)
      (content random stub : Bytes) (q : Proxy)
      → IsResponse setup tool response_line response call
      → lookup (id_key setup tool call.id) p.pending ≡ some call
      → call.method ≡ codes "tools/call"
      → IsLarge setup response result content
      → env.random ≡ some random
      → random ≢ []
      → CanStore random content p.shared.cache
      → stub_message setup response result (hex random) content ≡ some stub
      → handle_upstream_message setup tool env response_line p ≡ q
      → DrawsUnused es q
      → total q.shared.cache.lru + arriving es ≤ q.shared.cache.max_bytes
      → IsSeekCall setup tool seek_line seek params
      → params.id ≡ hex random
      → (q.to_client ≡ p.to_client ++ (stub ∷ []))
        × ((handle_client_message setup tool env' seek_line (run setup tool es q)).to_client
            ≡ (run setup tool es q).to_client
              ++ (answer setup seek.id
                    (apply setup.codec setup.engines setup.limit env'.expired content params.filter)
                  ∷ []))
  seek_later env env' l l' es response call seek params p result content random stub q r found
        method large drawn some_bytes can stubbed is_q draws fits s same =
      let (replied, readable, valid) =
        maybe_cache_large setup env response p.shared result content random large drawn can in
      let responded : q ≡ after_response setup tool env response p stub =
        sym is_q
        ∙ upstream_call setup tool env l response call p stub r.decoded r.response
            (ap (λ k. lookup k p.pending) r.same_id ∙ found) method (replied ∙ stubbed) in
      let shared : (maybe_cache setup env response p.shared).0 ≡ q.shared =
        sym (ap (λ (t : Proxy). t.shared) responded ∙ shared_after env response p stub) in
      let kept =
        run-Retains es q (subst (λ (t : State). IsValid t.cache) shared valid) draws fits in
      (
        ap (λ (t : Proxy). t.to_client) responded ∙ to_client_after env response p stub,
        seek_answered env' l' seek params (run setup tool es q) content s
            (ap (λ i. bytes_eq i []) same ∙ hex-ne-nil random some_bytes)
            (ap (λ i. (Cache.get i (run setup tool es q).shared.cache).1) same
              ∙ kept.keeps (hex random) content
                  (ap (λ (t : State). (Cache.get (hex random) t.cache).1) (sym shared) ∙ readable)),
      )
