-- ===== src/Filter/Total.antt =====
-- The jq loop ends within the limit on results, so every filter gives a result.
use mathlib.Core.Option
use mcp_content_guard.Base.{
  ℕ, zero, suc, ◌+◌, ◌≤◌, ◌<◌, ◌≡◌, refl, Bool, true, false, Option, some, none, List, [], ◌∷◌,
  ◌++◌, arith, length, length-append, ltb, if◌then◌else◌,
}
use mcp_content_guard.Base.Bytes.{Bytes, bytes_eq, has_prefix, codes}
use mcp_content_guard.Json.{Result, ok, err, wrap, Value, Codec}
use mcp_content_guard.Filter.{
  Item, done, failed, emitted, Engines, try, jq_item, jq_loop, jq_input, jq_finish, invalid_jq,
  invalid_code, apply_jq, apply_context, strip_jq_shell_syntax,
}

abbrev Returns {ℓ} : {A : Type ℓ} → Option A → Type ℓ
Returns {A = A} o = (a : A) × (o ≡ some a)

length-snoc : (vs : List Value) (v : Value) → length (vs ++ (v ∷ [])) ≡ suc (length vs)
length-snoc vs v = omega (arith, length-append {0} vs (v ∷ []))

Returns-if {ℓ} :
    {A : Type ℓ} (b : Bool) {x y : Option A}
    → (b ≡ true → Returns x)
    → (b ≡ false → Returns y)
    → Returns (if b then x else y)
Returns-if true h k = h refl
Returns-if false h k = k refl

jq_item-Returns :
    (item : Item) (limit : ℕ) (results : List Value)
    (later : List Value → Option (Result (List Value)))
    → ((r : List Value) → length r ≡ suc (length results) → length r ≤ limit → Returns (later r))
    → Returns (jq_item item limit results later)
unfolding jq_item
jq_item-Returns done limit results later h = (_, refl)
jq_item-Returns (failed e) limit results later h = (_, refl)
jq_item-Returns (emitted v) limit results later h =
    Returns-if (ltb limit (length (results ++ (v ∷ [])))) (λ full. (_, refl))
      (λ room. h (results ++ (v ∷ [])) (length-snoc results v) (ground arith))

jq_loop-Returns :
    (fuel : ℕ) (next : ℕ → Item) (limit i : ℕ) (results : List Value)
    → length results ≤ limit
    → limit < fuel + length results
    → Returns (jq_loop fuel next limit i results)
unfolding jq_loop
jq_loop-Returns zero next limit i results h k = absurd (omega arith)
jq_loop-Returns (suc fuel) next limit i results h k =
    jq_item-Returns (next i) limit results _
      (λ r longer fits. jq_loop-Returns fuel next limit (suc i) r fits (omega arith))

Returns-try :
    {A B : Type 0} (r : Result A) (f : A → Option (Result B))
    → ((a : A) → Returns (f a))
    → Returns (try r f)
Returns-try (ok a) f h = h a
Returns-try (err e) f h = (err e, refl)

Returns-map : {A B : Type 0} (f : A → B) (o : Option A) → Returns o → Returns (Option.map f o)
Returns-map f none h = absurd (ground arith)
Returns-map f (some a) h = (f a, refl)

module _ (codec : Codec) (engines : Engines) (limit : ℕ) where
  apply_jq-Returns : (content expr : Bytes) → Returns (apply_jq codec engines limit content expr)
  unfolding apply_jq
  apply_jq-Returns content expr = Returns-try (wrap invalid_jq (engines.parse_jq expr)) _ λ query.
      Returns-try (wrap invalid_code query) _ λ run.
        Returns-try (jq_input codec engines content) _ λ input.
          Returns-map (jq_finish codec engines) _
            (jq_loop-Returns (suc limit) (run input) limit 0 [] (omega arith) (omega arith))

  -- Every filter gives a text or an error: the fuel of the jq loop is enough.
  pub apply_context-Returns :
      (expired : ℕ → Option Bytes) (content filter_expr : Bytes)
      → (r : Result Bytes) × (apply_context codec engines limit expired content filter_expr
          ≡ some r)
  unfolding apply_context
  apply_context-Returns expired content filter_expr =
      let e = strip_jq_shell_syntax filter_expr in
      Returns-if (bytes_eq e []) (λ _. (_, refl))
        λ _.
          Returns-if (has_prefix e (codes "grep:")) (λ _. (_, refl))
            λ _.
              Returns-if (has_prefix e (codes "head:")) (λ _. (_, refl))
                λ _.
                  Returns-if (has_prefix e (codes "tail:")) (λ _. (_, refl))
                    λ _.
                      Returns-if (has_prefix e (codes "line:")) (λ _. (_, refl))
                        λ _. apply_jq-Returns content e

  -- `Apply`, under its timeout: the result that `ApplyContext` gives.
  pub apply : (ℕ → Option Bytes) → Bytes → Bytes → Result Bytes
  apply expired content filter_expr = (apply_context-Returns expired content filter_expr).0

  pub apply_lem :
      (expired : ℕ → Option Bytes) (content filter_expr : Bytes)
      → apply_context codec engines limit expired content filter_expr
        ≡ some (apply expired content filter_expr)
  unfolding apply
  apply_lem expired content filter_expr = (apply_context-Returns expired content filter_expr).1

  pub apply-of_eq :
      (expired : ℕ → Option Bytes) (content filter_expr : Bytes) (r : Result Bytes)
      → apply_context codec engines limit expired content filter_expr ≡ some r
      → apply expired content filter_expr ≡ r
  apply-of_eq expired content filter_expr r h = cc (apply_lem expired content filter_expr)
