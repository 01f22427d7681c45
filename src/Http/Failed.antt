-- ===== src/Http/Failed.antt =====
-- An answer of the upstream server outside 2xx, a 401 among them.
use mcp_content_guard.Base.{
  ◌≡◌, ◌≤◌, ◌<◌, ◌⊎◌, refl, sym, ap, ap₂, ◌∙◌, subst, true, false, none, some, List, [], ◌∷◌, ◌++◌,
  append-nil, arith, inl, inr, Bool-cases,
}
use mcp_content_guard.Base.Bytes.{Bytes, codes, bytes_eq, bytes_eq_iff, has_prefix}
use mcp_content_guard.Base.Int64.{Int64, lt64, len64}
use mcp_content_guard.Base.Dictionary.{lookup}
use mcp_content_guard.Json.{Result, ok, err, Message}
use mcp_content_guard.Intercept.{State, Environment}
use mcp_content_guard.Http.{
  Body, Header, Request, Answer, Network, Outcome, Reply, limited, values, header_get, add_all,
  copy_response,
}
use mcp_content_guard.Http.Handlers.{
  Context, Collected, collect, outgoing, do_upstream, seek_request, serve_http,
}
use mcp_content_guard.Http.Headers.{IsHeader, values-add_values_same, values-add_values_other}
use mcp_content_guard.Http.Posts.{IsPost, serve_http-failed, serve_http-other}

module _ (canonical : Bytes → Bytes) where
  values-absent :
      (k : Bytes) (h : Header) → canonical k ≡ k → lookup k h ≡ none → values canonical k h ≡ []
  unfolding values
  values-absent k h p f = rw (p, values) (rw (f, values) refl)

  values-rest :
      (j k : Bytes) (vs : List Bytes) (rest : Header)
      → canonical k ≡ k
      → bytes_eq j k ≡ false
      → values canonical k ((j, vs) ∷ rest) ≡ values canonical k rest
  unfolding values lookup
  values-rest j k vs rest p apart = rw (p, values) (rw apart refl)

  values-here :
      (j k : Bytes) (vs : List Bytes) (rest : Header)
      → canonical k ≡ k
      → bytes_eq j k ≡ true
      → values canonical k ((j, vs) ∷ rest) ≡ vs
  unfolding values lookup
  values-here j k vs rest p same = rw (p, values) (rw same refl)

  -- A header that is added to another one adds its values to each name.
  pub values-add_all :
      (from : Header) (k : Bytes) (h : Header)
      → IsHeader canonical from
      → canonical k ≡ k
      → values canonical k (add_all canonical from h)
        ≡ values canonical k h ++ values canonical k from
  unfolding add_all values lookup
  values-add_all [] k h c p = sym (append-nil (values canonical k h))
  values-add_all ((j, vs) ∷ rest) k h c p =
      values-add_all rest k _ c.2 p ∙ (elim (Bool-cases (bytes_eq j k)) [
        | inr apart ↦
            let other : bytes_eq (canonical j) (canonical k) ≡ false = rw (c.0, p) apart in
            ap₂ ◌++◌ (values-add_values_other canonical j k vs h other)
              (sym (values-rest j k vs rest p apart))
        | inl same ↦
            let here : j ≡ k = (bytes_eq_iff j k).0 same in
            let gone : lookup k rest ≡ none = ap (λ i. lookup i rest) (sym here) ∙ c.1 in
            ap₂ ◌++◌ (values-add_values_same canonical j k vs h (rw (c.0, p) same))
              (values-absent k rest p gone)
            ∙ append-nil (values canonical k h ++ vs)
            ∙ ap (◌++◌ (values canonical k h)) (sym (values-here j k vs rest p same))
      ])

limited-fits : (limit : Int64) (b : Body) → lt64 (len64 b.text) limit ≡ true → limited limit b ≡ b
unfolding limited
limited-fits limit b h = rw h refl

module _ (context : Context) where
  open context use {setup, canonical, server}

  -- An answer that no event stream and no limit changes: its content is not collected from events, it
  -- ends without an error, and it is shorter than the limit.
  pub record IsWhole (answer : Answer) : Type 0 where
    pub no_events :
        has_prefix
          (header_get canonical (codes "Content-Type") answer.header)
          (codes "text/event-stream")
        ≡ false
    pub ends : answer.body.failure ≡ none
    pub fits : lt64 (len64 answer.body.text) server.max_body_bytes ≡ true

  collect-IsWhole :
      (answer : Answer)
      → IsWhole answer
      → collect context answer
        ≡ ok (record { status = answer.status; header = answer.header; body = answer.body.text })
  unfolding collect
  collect-IsWhole answer h =
      rw (h.no_events, collect)
        (subst
          (λ (b : Body).
            (elim b.failure as (λ x. Result Collected) [
              | some e ↦ err e
              | none ↦ ok (record { status = answer.status; header = answer.header; body = b.text })
            ])
            ≡ ok (record {
              status = answer.status;
              header = answer.header;
              body = answer.body.text;
            }))
          (sym (limited-fits server.max_body_bytes answer.body h.fits)) (rw (h.ends) refl))

  -- `http.NewRequestWithContext` succeeds, and the upstream server answers.
  pub record IsAnswered (net : Network) (r : Request) (body : Bytes) (answer : Answer)
      : Type 0 where
    pub requested : net.request_error ≡ none
    pub answered : net.exchange (outgoing context r body) ≡ ok answer

  do_upstream-IsWhole :
      (net : Network) (r : Request) (body : Bytes) (answer : Answer)
      → IsAnswered net r body answer
      → IsWhole answer
      → do_upstream context net r body ≡ (
        ok (record { status = answer.status; header = answer.header; body = answer.body.text }),
        outgoing context r body ∷ [],
      )
  unfolding do_upstream
  do_upstream-IsWhole net r body answer a h =
      rw (a.requested, do_upstream)
        (rw (a.answered, do_upstream)
          (ap (λ o. (o, outgoing context r body ∷ [])) (collect-IsWhole answer h)))

  -- For a POST of a message that is no `seek_result` call, an answer of the upstream server outside
  -- 2xx, a 401 among them, reaches the client with its status, its body and, under every canonical
  -- name, its values in their order, after one request upstream, and neither the cache nor the
  -- statistics change; if the answer is no event stream, is read without an error and is shorter than
  -- the limit, and the names of its header are canonical and differ.
  pub serve_http-unchanged :
      (env : Environment) (net : Network) (r : Request) (body : Bytes) (msg : Message)
      (answer : Answer) (s : State) (name : Bytes)
      → IsPost context r body msg
      → seek_request context msg ≡ none
      → IsAnswered net r body answer
      → IsWhole answer
      → (answer.status < 200) ⊎ (300 ≤ answer.status)
      → IsHeader canonical answer.header
      → canonical name ≡ name
      → ((serve_http context env net r s).shared ≡ s)
        × ((serve_http context env net r s).reply.status ≡ answer.status)
        × ((serve_http context env net r s).reply.body ≡ answer.body.text)
        × (values canonical name (serve_http context env net r s).reply.header
            ≡ values canonical name answer.header)
        × ((serve_http context env net r s).sent ≡ outgoing context r body ∷ [])
  unfolding copy_response values lookup
  serve_http-unchanged env net r body msg answer s name post other a h failed names p =
      let d = do_upstream-IsWhole net r body answer a h in
      let resp : Collected = record {
        status = answer.status;
        header = answer.header;
        body = answer.body.text;
      } in
      let (shared, reply) =
        serve_http-failed context env net r body msg resp s post other (ap (λ o. o.0) d)
          (ground arith) in
      (
        shared,
        ap (λ (q : Reply). q.status) reply,
        ap (λ (q : Reply). q.body) reply,
        ap (λ (q : Reply). values canonical name q.header) reply
            ∙ values-add_all canonical answer.header name [] names p,
        ap (λ (o : Outcome). o.sent)
              (serve_http-other context env net r body msg resp s post other (ap (λ o. o.0) d))
            ∙ ap (λ o. o.1) d,
      )
