-- ===== src/Main/HeaderFlags.antt =====
-- The merge of the header flags into the headers of the configuration.
use mcp_content_guard.Base.{
  ◌≡◌, ◌∙◌, refl, Option, none, some, List, [], ◌∷◌, arith, inl, inr, Option-cases, if◌then◌else◌,
}
use mcp_content_guard.Base.Bytes.{Bytes, bytes_eq}
use mcp_content_guard.Base.Dictionary.{Dictionary, lookup, put, lookup-put}
use mcp_content_guard.Main.{header_flags_set, parse_header, merge_headers}

-- The value of the last flag with a name.
pub last_value : Bytes → List Bytes → Option Bytes
last_value k [] = none
last_value k (h ∷ hs) = elim (last_value k hs) [
  | some v ↦ some v
  | none ↦ elim (parse_header h) [
    | none ↦ none
    | some (j, v) ↦ if bytes_eq j k then some v else none
  ]
]

abbrev pub or_else : Option Bytes → Option Bytes → Option Bytes
or_else none b = b
or_else (some a) b = some a

-- Where the merge does not fail, a name has the value of its last flag, and without a flag the value
-- of the configuration.
pub merge_headers-last_value :
    (hs : List Bytes) (base headers : Dictionary Bytes) (k : Bytes)
    → merge_headers hs base ≡ some headers
    → lookup k headers ≡ or_else (last_value k hs) (lookup k base)
unfolding merge_headers last_value
merge_headers-last_value [] base headers k h = ground arith
merge_headers-last_value (flag ∷ hs) base headers k h = elim (Option-cases (parse_header flag)) [
  | inl bad ↦ absurd (ground arith)
  | inr ((j, v), parsed) ↦
      let rest = merge_headers-last_value hs (put j v base) headers k (ground arith) in
      rest ∙ (ground (arith, lookup-put j k v base))
]

-- One more header flag is merged over what the earlier ones give.
merge_headers-set :
    (hs : List Bytes) (h : Bytes) (headers : Dictionary Bytes)
    → merge_headers (header_flags_set hs h) headers ≡ elim (merge_headers hs headers) [
      | none ↦ none
      | some merged ↦ elim (parse_header h) [ none ↦ none | some (k, v) ↦ some (put k v merged) ]
    ]
unfolding merge_headers header_flags_set
merge_headers-set [] h headers = elim (Option-cases (parse_header h)) [
  | inl bad ↦ rw (bad, merge_headers) refl
  | inr ((j, v), parsed) ↦ rw (parsed, merge_headers) refl
]
merge_headers-set (x ∷ hs) h headers = elim (Option-cases (parse_header x)) [
  | inl bad ↦ rw (bad, merge_headers) refl
  | inr ((j, v), parsed) ↦ rw (parsed, merge_headers) (merge_headers-set hs h (put j v headers))
]
