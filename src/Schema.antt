-- ===== src/Schema.antt =====
-- internal/schema/schema.go: the `seek_result` tool is added to the tools of a `tools/list` result.
-- The literal of its JSON schema is a parameter: no code of the program reads it.
pub mod Inject
use mcp_content_guard.Base.{Option, none, some, List, [], ◌∷◌, ◌++◌}
use mcp_content_guard.Base.Bytes.{Bytes, codes}
use mcp_content_guard.Base.Dictionary.{Dictionary, lookup, put}
use mcp_content_guard.Json.{Result, ok, err, ◌>>=◌, wrap, Codec}

-- json.Marshal, whose error the callers only look at for being there.
pub from_option : Option Bytes → Result Bytes
from_option none = err []
from_option (some b) = ok b

-- `r`, with the nil map replaced by an empty one
abbrev pub or_empty : Option (Dictionary Bytes) → Dictionary Bytes
or_empty none = []
or_empty (some r) = r

abbrev pub parse_list : Bytes → Bytes
parse_list e = codes "parse tools/list result: " ++ e

module _ (codec : Codec) (seek_result_tool : Bytes) where
  open codec use {decode_map, encode_map, decode_array, encode_array}

  tools_of : Dictionary Bytes → Result (List Bytes)
  tools_of r = elim (lookup (codes "tools") r) [
    | none ↦ ok []
    | some raw ↦ wrap (λ e. codes "parse tools array: " ++ e) (decode_array raw)
  ]

  unfoldable pub inject_seek_result : Bytes → Result Bytes
  unfolding tools_of from_option
  inject_seek_result result = do
    map ← wrap parse_list (decode_map result)
    tools ← tools_of (or_empty map)
    tools_json ← from_option (encode_array (tools ++ (seek_result_tool ∷ [])))
    from_option (encode_map (put (codes "tools") tools_json (or_empty map)))
