-- ===== src/Http/Events.antt =====
-- What `collectSSE` collects from a stream of events.
use mcp_content_guard.Base.{
  subst, ap₂, ◌≢◌, sym, true, arith, not, Bool, ◌&&◌, Bool-cases, if◌then◌else◌, ◌==◌, ◌≡◌, ◌⊎◌,
  refl, ap, ◌∙◌, false, Option, none, some, List, [], ◌∷◌, ◌++◌, inl, inr, Option-cases, All,
}
use mcp_content_guard.Base.Bytes.{
  Bytes, codes, has_prefix, has_prefix-append, bytes_eq, bytes_eq_iff,
}
use mcp_content_guard.Base.Lines.{split}
use mcp_content_guard.Json.{ok, null, bool, number, string, array, object, Message, Value}
use mcp_content_guard.Rpc.{is_nil, is_response}
use mcp_content_guard.Http.{Body, drop_return, has_long_line}
use mcp_content_guard.Http.Handlers.{Context, response_data, collect_last, collect_sse}

both : (a b : Bool) → (a && b) ≡ true → (a ≡ true) × (b ≡ true)
both a b h = (ground arith, ground arith)

not_nil : (v : Value) → not (is_nil v) ≡ true → v ≢ null
unfolding is_nil
not_nil v h e = let k : not (is_nil null) ≡ true = subst (λ w. not (is_nil w) ≡ true) e h in cc

has_value : (v : Value) → v ≢ null → not (is_nil v) ≡ true
unfolding is_nil
has_value null h = absurd (h refl)
has_value (bool b) h = refl
has_value (number n) h = refl
has_value (string s) h = refl
has_value (array vs) h = refl
has_value (object ms) h = refl

-- What `IsResponse` tests.
is_response_iff :
    (m : Message)
    → (is_response m ≡ true → (m.method ≡ []) × (m.id ≢ null))
      × (m.method ≡ [] → m.id ≢ null → is_response m ≡ true)
unfolding is_response bytes_eq
is_response_iff m = (
  λ h.
      let (method, id) = both (bytes_eq m.method []) (not (is_nil m.id)) h in
      ((bytes_eq_iff m.method []).0 method, not_nil m.id id),
  λ h k. rw (h, is_response) (has_value m.id k),
)

-- The part behind a prefix.
behind_prefix : (p s : Bytes) → has_prefix s p ≡ true → (t : Bytes) × (s ≡ p ++ t)
unfolding has_prefix
behind_prefix [] s h = (s, refl)
behind_prefix (d ∷ p) [] h = cc
behind_prefix (d ∷ p) (c ∷ s) h =
    let (t, q) = behind_prefix p s (both (c == d) (has_prefix s p) h).1 in
    (t, ap₂ ◌∷◌ (ground (arith, both (c == d) (has_prefix s p) h)) q)

module _ (context : Context) where
  open context use {setup}
  open setup use {codec}

  -- A line of an event with data that decodes to a message with an id and without a method; a carriage
  -- return at its end is not counted.
  pub record CarriesResponse (line found : Bytes) : Type 0 where
    pub data_of : drop_return line ≡ codes "data: " ++ found
    pub message : Message
    pub decoded : codec.decode_message found ≡ some message
    pub no_method : message.method ≡ []
    pub has_id : message.id ≢ null

  -- A line that carries no response.
  abbrev pub IsOther : Bytes → Type 0
  IsOther line = (found : Bytes) → ¬ CarriesResponse line found

  -- What `collectSSE` finds in such a line.
  response_data-CarriesResponse :
      (line found : Bytes)
      → CarriesResponse line found
      → response_data context (drop_return line) ≡ some found
  unfolding response_data
  response_data-CarriesResponse line found c =
      ap (response_data context) c.data_of
      ∙ (rw (has_prefix-append (codes "data: ") found, response_data)
          (rw (c.decoded, response_data)
            (rw ((is_response_iff c.message).1 c.no_method c.has_id) refl)))

  message-CarriesResponse :
      (line t found : Bytes) (decoded : Option Message)
      → drop_return line ≡ codes "data: " ++ t
      → codec.decode_message t ≡ decoded
      → elim decoded [ none ↦ none | some probe ↦ if is_response probe then some t else none ]
        ≡ some found
      → CarriesResponse line found
  message-CarriesResponse line t found none p d h = cc
  message-CarriesResponse line t found (some probe) p d h = elim (Bool-cases (is_response probe)) [
    | inr other ↦ absurd (ground arith)
    | inl test ↦
        let same : t ≡ found = ground arith in
        let (method, id) = (is_response_iff probe).0 test in
        subst (CarriesResponse line) same
          (record { data_of = p; message = probe; decoded = d; no_method = method; has_id = id })
  ]

  -- And what it finds is carried by the line.
  CarriesResponse-of_data :
      (line found : Bytes)
      → response_data context (drop_return line) ≡ some found
      → CarriesResponse line found
  unfolding response_data
  CarriesResponse-of_data line found h =
      elim (Bool-cases (has_prefix (drop_return line) (codes "data: "))) [
        | inr other ↦ absurd (ground arith)
        | inl starts ↦
            let (t, p) = behind_prefix (codes "data: ") (drop_return line) starts in
            let h' : response_data context (codes "data: " ++ t) ≡ some found =
              ap (response_data context) (sym p) ∙ h in
            message-CarriesResponse line t found (codec.decode_message t) p refl
              (sym (rw (has_prefix-append (codes "data: ") t, response_data) refl) ∙ h')
      ]

  IsOther-of_none : (line : Bytes) → response_data context (drop_return line) ≡ none → IsOther line
  IsOther-of_none line h found c = let k = response_data-CarriesResponse line found c in cc

  -- The last line that holds a response.
  pub record LastResponse (lines : List Bytes) (found : Bytes) : Type 0 where
    pub before : List Bytes
    pub line : Bytes
    pub after : List Bytes
    pub parts : lines ≡ before ++ (line ∷ after)
    pub holds : CarriesResponse line found
    pub later : All IsOther after

  collect_last-LastResponse :
      (lines : List Bytes) (last : Option Bytes)
      → (All IsOther lines × (collect_last context lines last ≡ last))
        ⊎ ((found : Bytes) × LastResponse lines found
            × (collect_last context lines last ≡ some found))
  unfolding collect_last
  collect_last-LastResponse [] last = inl (tt, refl)
  collect_last-LastResponse (line ∷ lines) last =
      let next : Option Bytes = elim (response_data context (drop_return line)) [
        | none ↦ last
        | some d ↦ some d
      ] in
      elim (collect_last-LastResponse lines next) [
        | inr (found, l, p) ↦ inr (
          found,
          record {
            before = line ∷ l.before;
            line = l.line;
            after = l.after;
            parts = ap (◌∷◌ line) l.parts;
            holds = l.holds;
            later = l.later;
          },
          p,
        )
        | inl (others, p) ↦ elim (Option-cases (response_data context (drop_return line))) [
          | inl n ↦ inl ((IsOther-of_none line n, others), p ∙ rw n)
          | inr (d, h) ↦ inr (
            d,
            record {
              before = [];
              line = line;
              after = lines;
              parts = refl;
              holds = CarriesResponse-of_data line d h;
              later = others;
            },
            p ∙ rw h,
          )
        ]
      ]

  -- From a stream that ends without an error, and whose lines fit into the buffer, the reply is the
  -- data of the last line "data: ..." whose data decodes to a message with an id and without a method,
  -- and "{}" if there is no such line.
  pub collect_sse-LastResponse :
      (b : Body)
      → has_long_line (split 10 b.text) ≡ false
      → b.failure ≡ none
      → (All IsOther (split 10 b.text) × (collect_sse context b ≡ ok (codes "{}")))
        ⊎ ((found : Bytes) × LastResponse (split 10 b.text) found
            × (collect_sse context b ≡ ok found))
  unfolding collect_sse
  collect_sse-LastResponse b fits ends = elim (collect_last-LastResponse (split 10 b.text) none) [
    | inl (others, p) ↦ inl (others, rw fits (rw (ends, collect_sse) (rw (p, collect_sse))))
    | inr (found, l, p) ↦ inr (found, l, rw fits (rw (ends, collect_sse) (rw (p, collect_sse))))
  ]
