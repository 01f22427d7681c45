-- ===== src/Tests/Fixtures.antt =====
-- A small codec and the messages of a small exchange, for the tests.
use mcp_content_guard.Base.{◌%◌, ◌^◌, true, none, some, List, [], ◌∷◌, ◌++◌, if◌then◌else◌}
use mcp_content_guard.Base.Bytes.{Bytes, codes, bytes_eq}
use mcp_content_guard.Base.Decimal.{show}
use mcp_content_guard.Json.{
  ok, err, null, number, string, Message, Block, CallParams, Totals, Codec,
}
use mcp_content_guard.Cache.{hex}
use mcp_content_guard.Filter.{Engines, done}
use mcp_content_guard.Stats.{TotalsCodec, Disk, no_totals}

-- What `rand.Read` returns.
abbrev pub random : Bytes
random = 0x3F ∷ 0x9A ∷ []

abbrev pub content : Bytes
content = codes "C"

abbrev pub call : Message
call = record {
  jsonrpc = codes "2.0";
  id = number 1;
  method = codes "tools/call";
  params = codes "p";
  result = [];
  error = [];
}

abbrev pub response : Message
response = record {
  jsonrpc = codes "2.0";
  id = number 1;
  method = [];
  params = [];
  result = codes "R";
  error = [];
}

abbrev pub seek : Message
seek = record call { id = number 2; params = codes "q" }

abbrev pub notification : Message
notification = record call { id = null; method = codes "ping" }

abbrev pub seek_call : CallParams
seek_call = record { name = codes "seek_result"; id = hex random; filter = codes "head:2" }

abbrev pub blocks : List Block
blocks =
    record { type = codes "text"; text = codes "a\nb" }
    ∷ record { type = codes "image"; text = [] }
    ∷ record { type = codes "text"; text = codes "c" }
    ∷ []

abbrev pub codec : Codec
codec = record {
  decode_message = λ s.
      if bytes_eq s (codes "call")
      then some call
      else if bytes_eq s (codes "response")
      then some response
      else if bytes_eq s (codes "seek")
      then some seek
      else if bytes_eq s (codes "note")
      then some notification
      else none;
  encode_message = λ m. some (codes "message " ++ m.result);
  decode_map = λ s.
      if bytes_eq s (codes "R")
      then ok (some ((codes "content", content) ∷ []))
      else err (codes "no object");
  encode_map = λ m. some (codes "map");
  decode_array = λ s. ok (s ∷ []);
  encode_array = λ s. some (codes "array");
  decode_bool = λ s. some (bytes_eq s (codes "true"));
  decode_blocks = λ s. if bytes_eq s content then ok blocks else err (codes "no blocks");
  decode_params = λ s.
      if bytes_eq s (codes "q")
      then some seek_call
      else some (record { name = codes "read"; id = []; filter = [] });
  decode_value = λ s. ok (string s);
  encode_value = λ v. elim v [ number n ↦ some (show n) | _ ↦ some (codes "value") ];
  encode_indented = λ v. ok (codes "indented");
}

abbrev pub engines : Engines
engines = record {
  compile_regexp = λ s. ok (λ line. bytes_eq line s);
  parse_jq = λ s. ok (ok (λ v i. done));
  quote = λ s. b'"' ∷ s ++ (b'"' ∷ []);
}

abbrev numbers : Bytes → Totals
numbers (a ∷ b ∷ c ∷ d ∷ s) = record {
  bytes_cached = a % 2 ^ 64;
  bytes_sent = b % 2 ^ 64;
  responses_cached = c % 2 ^ 64;
  seek_calls = d % 2 ^ 64;
}
numbers _ = no_totals

-- Totals are four numbers in a row, each an int64.
abbrev pub totals_codec : TotalsCodec
totals_codec = record {
  encode = λ t. some (t.bytes_cached ∷ t.bytes_sent ∷ t.responses_cached ∷ t.seek_calls ∷ []);
  decode = numbers;
}

abbrev pub working : Disk
working = record { can_read = true; write_failure = none; can_rename = true }
