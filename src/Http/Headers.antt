-- ===== src/Http/Headers.antt =====
-- The header of a request to the upstream server, in `doUpstream`.
use mcp_content_guard.Base.{
  ◌≡◌, refl, sym, ap, ◌∙◌, true, false, none, some, List, [], ◌∷◌, ◌++◌, append_assoc, append-nil,
  arith, inl, inr, Bool-cases, if◌then◌else◌,
}
use mcp_content_guard.Base.Bytes.{Bytes, codes, bytes_eq, bytes_eq_iff}
use mcp_content_guard.Base.Dictionary.{Dictionary, lookup, put, lookup-put}
use mcp_content_guard.Http.{
  Header, is_managed, lower, values, header_get, header_set, header_add, add_values, add_client,
  add_static, upstream_header,
}

module _ (canonical : Bytes → Bytes) where
  -- Names are canonical, and none stands twice.
  abbrev pub IsHeader : Header → Type 0
  IsHeader [] = Unit
  IsHeader ((k, vs) ∷ rest) = (canonical k ≡ k) × (lookup k rest ≡ none) × IsHeader rest

  values-put :
      (j k : Bytes) (ws : List Bytes) (h : Header)
      → values canonical k (put (canonical j) ws h)
        ≡ (if bytes_eq (canonical j) (canonical k) then ws else values canonical k h)
  unfolding values
  values-put j k ws h = elim (Bool-cases (bytes_eq (canonical j) (canonical k))) [
    | inl same ↦
        rw same (rw (lookup-put (canonical j) (canonical k) ws h, values) (rw (same, values)))
    | inr other ↦
        rw other (rw (lookup-put (canonical j) (canonical k) ws h, values) (rw (other, values)))
  ]

  values_same :
      (j k : Bytes) (h : Header)
      → bytes_eq (canonical j) (canonical k) ≡ true
      → values canonical j h ≡ values canonical k h
  unfolding values
  values_same j k h e = rw ((bytes_eq_iff (canonical j) (canonical k)).0 e, values)

  pub values-add_values_same :
      (j k : Bytes) (vs : List Bytes) (h : Header)
      → bytes_eq (canonical j) (canonical k) ≡ true
      → values canonical k (add_values canonical j vs h) ≡ values canonical k h ++ vs
  unfolding add_values header_add
  values-add_values_same j k [] h e = sym (append-nil (values canonical k h))
  values-add_values_same j k (v ∷ vs) h e =
      values-add_values_same j k vs _ e
      ∙ ap (λ l. l ++ vs)
          (values-put j k (values canonical j h ++ (v ∷ [])) h
            ∙ rw e (ap (λ l. l ++ (v ∷ [])) (values_same j k h e)))
      ∙ append_assoc (values canonical k h) (v ∷ []) vs

  pub values-add_values_other :
      (j k : Bytes) (vs : List Bytes) (h : Header)
      → bytes_eq (canonical j) (canonical k) ≡ false
      → values canonical k (add_values canonical j vs h) ≡ values canonical k h
  unfolding add_values header_add
  values-add_values_other j k [] h e = refl
  values-add_values_other j k (v ∷ vs) h e =
      values-add_values_other j k vs _ e
      ∙ values-put j k (values canonical j h ++ (v ∷ [])) h
      ∙ rw e

  values-add_client_absent :
      (client : Header) (k : Bytes) (h : Header)
      → IsHeader client
      → canonical k ≡ k
      → lookup k client ≡ none
      → values canonical k (add_client canonical client h) ≡ values canonical k h
  unfolding add_client lookup
  values-add_client_absent [] k h c p absent = refl
  values-add_client_absent ((j, vs) ∷ rest) k h c p absent =
      let apart : bytes_eq j k ≡ false = ground arith in
      let other : bytes_eq (canonical j) (canonical k) ≡ false = rw (c.0, p) apart in
      let gone : lookup k rest ≡ none = ground arith in
      elim (Bool-cases (is_managed j)) [
        | inl managed ↦ rw managed (values-add_client_absent rest k h c.2 p gone)
        | inr copied ↦ rw copied (
            values-add_client_absent rest k (add_values canonical j vs h) c.2 p gone
            ∙ values-add_values_other j k vs h other)
      ]

  values-add_client_found :
      (client : Header) (k : Bytes) (ws : List Bytes) (h : Header)
      → IsHeader client
      → canonical k ≡ k
      → is_managed k ≡ false
      → lookup k client ≡ some ws
      → values canonical k (add_client canonical client h) ≡ values canonical k h ++ ws
  unfolding add_client lookup
  values-add_client_found [] k ws h c p m found = cc
  values-add_client_found ((j, vs) ∷ rest) k ws h c p m found = elim (Bool-cases (bytes_eq j k)) [
    | inl same ↦
        let here : j ≡ k = (bytes_eq_iff j k).0 same in
        let copied : is_managed j ≡ false = ap is_managed here ∙ m in
        let same_values : vs ≡ ws = ground arith in
        rw copied (
          values-add_client_absent rest k (add_values canonical j vs h) c.2 p
            (ap (λ i. lookup i rest) (sym here) ∙ c.1)
          ∙ values-add_values_same j k vs h (rw (c.0, p) same)
          ∙ ap (◌++◌ (values canonical k h)) same_values)
    | inr apart ↦
        let other : bytes_eq (canonical j) (canonical k) ≡ false = rw (c.0, p) apart in
        let later : lookup k rest ≡ some ws = ground arith in
        elim (Bool-cases (is_managed j)) [
          | inl managed ↦ rw managed (values-add_client_found rest k ws h c.2 p m later)
          | inr copied ↦ rw copied (
              values-add_client_found rest k ws (add_values canonical j vs h) c.2 p m later
              ∙ ap (λ l. l ++ ws) (values-add_values_other j k vs h other))
        ]
  ]

  header_get-of_values :
      (j k : Bytes) (h g : Header)
      → values canonical j h ≡ values canonical k g
      → header_get canonical j h ≡ header_get canonical k g
  unfolding header_get
  header_get-of_values j k h g e = ap (λ l. elim l [ [] ↦ [] | v ∷ vs ↦ v ]) e

  values-add_static :
      (headers : Dictionary Bytes) (k : Bytes) (h : Header)
      → bytes_eq (header_get canonical k h) [] ≡ false
      → values canonical k (add_static canonical headers h) ≡ values canonical k h
  unfolding add_static header_set
  values-add_static [] k h some_value = refl
  values-add_static ((j, v) ∷ rest) k h some_value =
      elim (Bool-cases (bytes_eq (header_get canonical j h) [])) [
        | inr kept ↦ rw kept (values-add_static rest k h some_value)
        | inl added ↦ elim (Bool-cases (bytes_eq (canonical j) (canonical k))) [
          | inl same ↦
              let e = header_get-of_values j k h h (values_same j k h same) in
              absurd (ground (arith, e))
          | inr other ↦
              let e : values canonical k (put (canonical j) (v ∷ []) h) ≡ values canonical k h =
                values-put j k (v ∷ []) h ∙ rw other in
              rw added (
                values-add_static rest k (put (canonical j) (v ∷ []) h)
                  (rw (header_get-of_values k k _ h e) some_value)
                ∙ e)
        ]
      ]

  managed-apart : (k j : Bytes) → is_managed k ≡ false → is_managed j ≡ true → bytes_eq j k ≡ false
  managed-apart k j m n = elim (Bool-cases (bytes_eq j k)) [
    | inr apart ↦ apart
    | inl same ↦ absurd (ground (arith, ap is_managed ((bytes_eq_iff j k).0 same)))
  ]

  -- A value that the client sends reaches the upstream server, whatever headers are configured:
  -- for a canonical name other than the four that are not copied, the values are the client's, if
  -- the first is not empty, the names of the client's header are canonical and differ, and
  -- "Accept" and "Content-Type" are canonical.
  pub values-upstream_header :
      (headers : Dictionary Bytes) (client : Header) (k v : Bytes) (vs : List Bytes)
      → canonical (codes "Accept") ≡ codes "Accept"
      → canonical (codes "Content-Type") ≡ codes "Content-Type"
      → IsHeader client
      → canonical k ≡ k
      → is_managed k ≡ false
      → lookup k client ≡ some (v ∷ vs)
      → bytes_eq v [] ≡ false
      → values canonical k (upstream_header canonical headers client) ≡ v ∷ vs
  unfolding upstream_header header_set
  values-upstream_header headers client k v vs accept type c p m found full =
      let h = put (canonical (codes "Content-Type")) (codes "application/json" ∷ []) [] in
      let h' =
        put (canonical (codes "Accept")) (codes "application/json, text/event-stream" ∷ []) h in
      let a : bytes_eq (canonical (codes "Accept")) (canonical k) ≡ false =
        rw (accept, p)
          (managed-apart k (codes "Accept") m (unfold is_managed lower bytes_eq in refl)) in
      let t : bytes_eq (canonical (codes "Content-Type")) (canonical k) ≡ false =
        rw (type, p)
          (managed-apart k (codes "Content-Type") m (unfold is_managed lower bytes_eq in refl)) in
      let start : values canonical k h' ≡ [] =
        values-put (codes "Accept") k _ h
        ∙ rw a (values-put (codes "Content-Type") k _ [] ∙ rw t (unfold values lookup in refl)) in
      let copied : values canonical k (add_client canonical client h') ≡ v ∷ vs =
        values-add_client_found client k (v ∷ vs) h' c p m found ∙ ap (λ l. l ++ (v ∷ vs)) start in
      values-add_static headers k (add_client canonical client h')
        (unfold header_get in rw (copied, header_get) full)
      ∙ copied
