-- ===== src/Filter/Jq.antt =====
-- internal/filter/filter.go: `applyJQ`, and the engines that the filters call.
use mathlib.Core.Option
use mcp_content_guard.Base.{
  ℕ, zero, suc, Bool, true, false, Option, none, some, List, [], ◌∷◌, ◌++◌, ltb, length,
  if◌then◌else◌,
}
use mcp_content_guard.Base.Bytes.{Bytes, codes}
use mcp_content_guard.Base.Decimal.{show}
use mcp_content_guard.Json.{
  Result, ok, err, ◌>>=◌, wrap, Value, Values, Codec, null, array, nil, cons,
}
use mcp_content_guard.Filter.Blocks.{text_parts}

-- What one call of the jq iterator's `Next` gives.
pub data Item : Type 0 where
  done : Item
  failed : Bytes → Item
  emitted : Value → Item

pub record Engines : Type 0 where
  -- regexp.Compile, then MatchString
  pub compile_regexp : Bytes → Result (Bytes → Bool)
  -- gojq.Parse, then gojq.Compile, then the iterator of RunWithContext on an input
  pub parse_jq : Bytes → Result (Result (Value → ℕ → Item))
  -- the verb %q
  pub quote : Bytes → Bytes

-- The early return on an error, before a computation on fuel.
abbrev pub try : {A B : Type 0} → Result A → (A → Option (Result B)) → Option (Result B)
try (ok a) f = f a
try (err e) f = some (err e)

-- One round of the loop over the jq iterator: `later` is the rest of the loop.
unfoldable pub jq_item :
    Item
    → ℕ
    → List Value
    → (List Value → Option (Result (List Value)))
    → Option (Result (List Value))
jq_item done limit results later = some (ok results)
jq_item (failed e) limit results later = some (err (codes "jq error: " ++ e))
jq_item (emitted v) limit results later =
    let results' = results ++ (v ∷ []) in
    let more = later results' in
    if ltb limit (length results')
    then some
        (err (codes "jq error: jq produced too many results (limit " ++ (show limit ++ codes ")")))
    else more

-- The loop, with at most `fuel` calls of `Next`; `none` means that the fuel ran out.
unfoldable pub jq_loop : ℕ → (ℕ → Item) → ℕ → ℕ → List Value → Option (Result (List Value))
unfolding jq_item
jq_loop zero next limit i results = none
jq_loop (suc fuel) next limit i results =
    jq_item (next i) limit results (λ r. jq_loop fuel next limit (suc i) r)

to_values : List Value → Values
to_values [] = nil
to_values (v ∷ vs) = cons v (to_values vs)

-- One result stands alone, several are an array; no result is a nil slice, which is encoded as null.
unfoldable pub jq_output : List Value → Value
unfolding to_values
jq_output [] = null
jq_output (v ∷ []) = v
jq_output (v ∷ w ∷ vs) = array (to_values (v ∷ w ∷ vs))

abbrev pub invalid_jq : Bytes → Bytes
invalid_jq e = codes "invalid jq expression: " ++ e

abbrev pub invalid_code : Bytes → Bytes
invalid_code e = codes "compile jq expression: " ++ e

is_null : Value → Bool
is_null null = true
is_null _ = false

-- strings.Builder over the text parts
concat : List Bytes → Bytes
concat [] = []
concat (s ∷ ss) = s ++ concat ss

module _ (codec : Codec) (engines : Engines) where
  open codec use {decode_blocks, decode_value, encode_indented}
  open engines use {parse_jq}

  -- The value inside the text blocks, if they hold JSON other than null.
  unfoldable pub unwrapped : Bytes → Value
  unfolding concat
  unwrapped content = elim (decode_blocks content) [
    | err e ↦ null
    | ok blocks ↦ elim (decode_value (concat (text_parts blocks))) [ err e ↦ null | ok v ↦ v ]
  ]

  unfoldable pub jq_input : Bytes → Result Value
  unfolding unwrapped is_null
  jq_input content =
      if is_null (unwrapped content)
      then wrap (λ e. codes "failed to parse content: " ++ e) (decode_value content)
      else ok (unwrapped content)

  -- What stands behind the loop.
  unfoldable pub jq_finish : Result (List Value) → Result Bytes
  jq_finish results = do vs ← results; encode_indented (jq_output vs)

  -- `MaxJQResults` is a variable of the package.
  unfoldable pub apply_jq : ℕ → Bytes → Bytes → Option (Result Bytes)
  unfolding jq_input
  apply_jq limit content expr = try (wrap invalid_jq (parse_jq expr)) λ query.
      try (wrap invalid_code query) λ run.
        try (jq_input content)
          λ input. Option.map jq_finish (jq_loop (suc limit) (run input) limit 0 [])
