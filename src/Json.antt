-- ===== src/Json.antt =====
-- Decoded JSON values, and the calls that the source makes of encoding/json, as an interface.
use mcp_content_guard.Base.{ℕ, Bool, Option, List}
use mcp_content_guard.Base.Bytes.{Bytes}
use mcp_content_guard.Base.Dictionary.{Dictionary}
use mcp_content_guard.Base.Int64.{Int64}

-- A value with Go's `error` beside it; an error is its text.
pub data Result {ℓ} (A : Type ℓ) : Type ℓ where
  ok : A → Result A
  err : Bytes → Result A

infixl 5 ◌>>=◌
abbrev pub ◌>>=◌ {ℓ κ} : {A : Type ℓ} {B : Type κ} → Result A → (A → Result B) → Result B
ok a >>= f = f a
err e >>= f = err e

-- fmt.Errorf("context: %w", err)
abbrev pub wrap {ℓ} : {A : Type ℓ} → (Bytes → Bytes) → Result A → Result A
wrap f (ok a) = ok a
wrap f (err e) = err (f e)

-- What an `any` holds. A number is the bit pattern of its float64. The members of an object are in
-- the order in which they are written: a struct's in the order of its fields, a map's sorted.
mutual
  pub data Value : Type 0 where
    null : Value
    bool : Bool → Value
    number : ℕ → Value
    string : Bytes → Value
    array : Values → Value
    object : Members → Value

  pub data Values : Type 0 where
    nil : Values
    cons : Value → Values → Values

  pub data Members : Type 0 where
    end : Members
    member : Bytes → Value → Members → Members

-- `rpc.Message`; a `json.RawMessage` that is nil is the empty text.
pub record Message : Type 0 where
  pub jsonrpc : Bytes
  pub id : Value
  pub method : Bytes
  pub params : Bytes
  pub result : Bytes
  pub error : Bytes

-- `contentBlock` of the filter package.
pub record Block : Type 0 where
  pub type : Bytes
  pub text : Bytes

-- The parameters of a `seek_result` call, in a struct of both transports.
pub record CallParams : Type 0 where
  pub name : Bytes
  pub id : Bytes
  pub filter : Bytes

-- `stats.Totals`
pub record Totals : Type 0 where
  pub bytes_cached : Int64
  pub bytes_sent : Int64
  pub responses_cached : Int64
  pub seek_calls : Int64

-- One function for each type that the source decodes from JSON or encodes to it.
pub record Codec : Type 0 where
  pub decode_message : Bytes → Option Message
  pub encode_message : Message → Option Bytes
  -- map[string]json.RawMessage; `none` inside is the nil map that "null" gives
  pub decode_map : Bytes → Result (Option (Dictionary Bytes))
  pub encode_map : Dictionary Bytes → Option Bytes
  -- []json.RawMessage
  pub decode_array : Bytes → Result (List Bytes)
  pub encode_array : List Bytes → Option Bytes
  pub decode_bool : Bytes → Option Bool
  pub decode_blocks : Bytes → Result (List Block)
  pub decode_params : Bytes → Option CallParams
  -- `any`
  pub decode_value : Bytes → Result Value
  pub encode_value : Value → Option Bytes
  pub encode_indented : Value → Result Bytes
