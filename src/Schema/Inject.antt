-- ===== src/Schema/Inject.antt =====
-- What `InjectSeekResult` adds to a `tools/list` result.
use mcp_content_guard.Base.{
  ◌≡◌, ◌⊎◌, inl, inr, refl, sym, ap, ◌∙◌, Option, none, some, List, [], ◌∷◌, ◌++◌, arith,
  if◌then◌else◌, Option-cases,
}
use mcp_content_guard.Base.Bytes.{Bytes, codes, bytes_eq}
use mcp_content_guard.Base.Dictionary.{Dictionary, lookup, put, lookup-put}
use mcp_content_guard.Json.{Result, ok, err, ◌>>=◌, wrap, Codec}
use mcp_content_guard.Schema.{from_option, or_empty, parse_list, tools_of, inject_seek_result}

-- The tools of a result: none listed is the empty list.
abbrev pub HasTools : Codec → Dictionary Bytes → List Bytes → Type 0
HasTools codec r tools =
    ((lookup (codes "tools") r ≡ none) × (tools ≡ []))
    ⊎ ((raw : Bytes) × (lookup (codes "tools") r ≡ some raw) × (codec.decode_array raw ≡ ok tools))

-- The map that is written: its tools are the old ones with the new one behind them, and its other
-- members are the old ones.
pub record IsInjected (codec : Codec) (tool : Bytes) (old : Dictionary Bytes) (out : Bytes)
    : Type 0 where
  pub tools : List Bytes
  pub tools_json : Bytes
  pub written : Dictionary Bytes
  pub had : HasTools codec old tools
  pub encoded_tools : codec.encode_array (tools ++ (tool ∷ [])) ≡ some tools_json
  pub members :
      (k : Bytes)
      → lookup k written ≡ (if bytes_eq (codes "tools") k then some tools_json else lookup k old)
  pub encoded : codec.encode_map written ≡ some out

>>=-eq-ok :
    {A B : Type 0} (m : Result A) (f : A → Result B) (b : B)
    → (m >>= f) ≡ ok b
    → (a : A) × (m ≡ ok a) × (f a ≡ ok b)
>>=-eq-ok (ok a) f b h = (a, refl, h)
>>=-eq-ok (err e) f b h = cc

from_option-ok : (o : Option Bytes) (b : Bytes) → from_option o ≡ ok b → o ≡ some b
unfolding from_option
from_option-ok none b h = cc
from_option-ok (some c) b h = ground arith

module _ (codec : Codec) (tool : Bytes) where
  tools_of-HasTools :
      (r : Dictionary Bytes) (tools : List Bytes)
      → tools_of codec tool r ≡ ok tools
      → HasTools codec r tools
  unfolding tools_of
  tools_of-HasTools r tools h = elim (Option-cases (lookup (codes "tools") r)) [
    | inl absent ↦ inl (absent, ground arith)
    | inr (raw, present) ↦ inr (raw, present, ground arith)
  ]

  -- An injection that succeeds, on a result that decodes to a map or to null, adds the tool once,
  -- behind all tools of the upstream server, and changes no other member of the result; null
  -- counts as an empty result.
  pub inject_seek_result-IsInjected :
      (result out : Bytes) (map : Option (Dictionary Bytes))
      → codec.decode_map result ≡ ok map
      → inject_seek_result codec tool result ≡ ok out
      → IsInjected codec tool (or_empty map) out
  unfolding inject_seek_result
  inject_seek_result-IsInjected result out map d h =
      let r = or_empty map in
      let (map', p, h1) = >>=-eq-ok (wrap parse_list (codec.decode_map result)) _ out h in
      let same : map' ≡ map = ground (arith, p, d) in
      let (tools, q, h2) = >>=-eq-ok (tools_of codec tool (or_empty map')) _ out h1 in
      let (tools_json, e, h3) =
        >>=-eq-ok (from_option (codec.encode_array (tools ++ (tool ∷ [])))) _ out h2 in
      record {
        tools = tools;
        tools_json = tools_json;
        written = put (codes "tools") tools_json r;
        had = tools_of-HasTools r tools (ap (λ m. tools_of codec tool (or_empty m)) (sym same) ∙ q);
        encoded_tools = from_option-ok _ tools_json e;
        members = λ k. lookup-put (codes "tools") k tools_json r;
        encoded = from_option-ok _ out (
            ap (λ m. from_option (codec.encode_map (put (codes "tools") tools_json (or_empty m))))
              (sym same)
            ∙ h3);
      }
