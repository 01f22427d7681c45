-- ===== src/Tests/ProxyCases.antt =====
-- internal/intercept and internal/proxy at concrete inputs.
use mcp_content_guard.Base.{
  ◌+◌, ◌≡◌, ◌≢◌, inl, refl, none, some, List, [], ◌∷◌, ◌++◌, length, All, if◌then◌else◌, arith,
}
use mcp_content_guard.Base.Bytes.{Bytes, codes, bytes_eq}
use mcp_content_guard.Base.Int64.{lt64, len64}
use mcp_content_guard.Base.Dictionary.{lookup, put}
use mcp_content_guard.Base.Decimal.{show}
use mcp_content_guard.Base.Space.{trim_newlines}
use mcp_content_guard.Json.{err, Message}
use mcp_content_guard.Cache.{new_with_capacity, hex}
use mcp_content_guard.Cache.Invariant.{IsValid, new_with_capacity-IsValid}
use mcp_content_guard.Cache.Calls.{CanStore}
use mcp_content_guard.Filter.Total.{apply}
use mcp_content_guard.Rpc.{is_request, is_response, encode_or_nil, is_nil}
use mcp_content_guard.Intercept.{
  State, Environment, Setup, stub_message, stub_text, is_error, maybe_cache,
}
use mcp_content_guard.Intercept.Cached.{IsLarge, maybe_cache_forwards}
use mcp_content_guard.Intercept.Seek.{answer}
use mcp_content_guard.Proxy.{
  Proxy, read_lines, write_lines, id_key, seek_params, handle_client_message,
  handle_upstream_message,
}
use mcp_content_guard.Proxy.Traffic.{is_seek_request}
use mcp_content_guard.Proxy.Schedule.{
  Event, from_client, from_upstream, run, passed_on, owed, run-traffic,
}
use mcp_content_guard.Proxy.Pending.{response-pending, IsPlain, IsPlain-sent, other}
use mcp_content_guard.Proxy.Lines.{ends_in, IsLine}
use mcp_content_guard.Proxy.Framing.{read_lines-write_lines}
use mcp_content_guard.Proxy.Retrieve.{IsToolCall, IsSeekCall, IsResponse, exchange}
use mcp_content_guard.Tests.Fixtures.{
  random, content, call, response, seek, notification, seek_call, codec, engines, totals_codec,
  working,
}

abbrev pub tool : Bytes
tool = codes "{}"

-- Everything of one byte or more is large.
abbrev pub setup : Setup
setup = record {
  codec = codec;
  totals_codec = totals_codec;
  engines = engines;
  limit = 100;
  threshold = 1;
}

abbrev pub env : Environment
env = record { random = some random; disk = working; expired = λ k. none }

abbrev pub state : State
state = record { cache = new_with_capacity 100; stats = none }

abbrev pub proxy : Proxy
proxy = record { shared = state; pending = []; to_client = []; to_upstream = [] }

pub state-IsValid : IsValid state.cache
state-IsValid = new_with_capacity-IsValid 100 (omega arith)

pub state-CanStore : CanStore random content state.cache
unfolding new_with_capacity lookup
state-CanStore = record { valid = state-IsValid; fresh = refl; room = omega arith }

pub response-IsLarge : IsLarge setup response ((codes "content", content) ∷ []) content
unfolding bytes_eq is_error lookup lt64 len64
response-IsLarge = record { decoded = refl; no_error = refl; present = refl; large = refl }

pub random-ne-nil : random ≢ []
random-ne-nil = cc

-- A response whose result is no object.
abbrev odd : Message
odd = record response { result = codes "odd" }

odd-undecoded : codec.decode_map odd.result ≡ err (codes "no object")
unfolding bytes_eq
odd-undecoded = refl

maybe_cache-odd : maybe_cache setup env odd state ≡ (state, none)
maybe_cache-odd = maybe_cache_forwards setup env odd state (inl (codes "no object", odd-undecoded))

call-IsToolCall : IsToolCall setup tool (codes "call") call
unfolding is_request is_nil bytes_eq is_seek_request seek_params
call-IsToolCall = record { decoded = refl; request = refl; method = refl; other = refl }

pub response-IsResponse : IsResponse setup tool (codes "response") response call
unfolding is_response is_nil bytes_eq id_key encode_or_nil
response-IsResponse = record { decoded = refl; response = refl; same_id = refl }

pub seek-IsSeekCall : IsSeekCall setup tool (codes "seek") seek seek_call
unfolding is_request is_nil bytes_eq seek_params
seek-IsSeekCall = record { decoded = refl; request = refl; method = refl; params_of = refl }

abbrev pub stub : Bytes
stub = codes "message map"

pub stubbed :
    stub_message setup response ((codes "content", content) ∷ []) (hex random) content ≡ some stub
unfolding stub_message stub_text put bytes_eq
stubbed = refl

exchange_example :
    (handle_client_message setup tool env (codes "seek") (
      handle_upstream_message setup tool env
        (codes "response")
        (handle_client_message setup tool env (codes "call") proxy))).to_client
    ≡ []
      ++ (stub
          ∷ answer setup seek.id (apply codec engines 100 env.expired content (codes "head:2"))
          ∷ [])
exchange_example =
    exchange setup tool env env env (codes "call") (codes "response") (codes "seek") call response
      seek seek_call proxy ((codes "content", content) ∷ []) content random stub call-IsToolCall
      response-IsResponse response-IsLarge refl random-ne-nil state-CanStore stubbed seek-IsSeekCall
      refl

abbrev events : List Event
events =
    from_client env (codes "call")
    ∷ from_client env (codes "note")
    ∷ from_upstream env (codes "response")
    ∷ from_client env (codes "seek")
    ∷ from_upstream env (codes "junk")
    ∷ []

run-traffic_example :
    ((run setup tool events proxy).to_upstream ≡ [] ++ passed_on setup tool events)
    × (length (run setup tool events proxy).to_client ≡ 0 + owed setup tool events)
run-traffic_example = run-traffic setup tool events proxy

-- A `tools/call` request waits.
abbrev pub waiting : Proxy
waiting = record proxy { pending = (codes "1", call) ∷ [] }

pub call_waits : lookup (id_key setup tool response.id) waiting.pending ≡ some call
unfolding lookup id_key encode_or_nil bytes_eq show
call_waits = refl

response-pending_example :
    lookup (codes "1") (handle_upstream_message setup tool env (codes "response") waiting).pending
    ≡ (if bytes_eq (id_key setup tool response.id) (codes "1")
        then none
        else lookup (codes "1") waiting.pending)
response-pending_example =
    response-pending setup tool env (codes "response") response call waiting (codes "1")
      response-IsResponse.decoded response-IsResponse.response call_waits

note-IsPlain : IsPlain setup tool (codes "note") waiting
unfolding is_response bytes_eq is_nil
note-IsPlain = other notification refl refl

IsPlain-sent_example :
    ((handle_upstream_message setup tool env (codes "note") waiting).to_client
      ≡ [] ++ (codes "note" ∷ []))
    × ((handle_upstream_message setup tool env (codes "note") waiting).shared ≡ waiting.shared)
IsPlain-sent_example = IsPlain-sent setup tool env (codes "note") waiting note-IsPlain

lines_read : read_lines [] (codes "a\r\n\n\nb\n c") ≡ codes "a" ∷ codes "b" ∷ codes " c" ∷ []
unfolding read_lines trim_newlines bytes_eq
lines_read = refl

-- A line with a blank at its end, and one with a carriage return at its start.
abbrev two_lines : List Bytes
two_lines = codes "a " ∷ codes "\rb" ∷ []

two_lines-IsLine : All IsLine two_lines
unfolding bytes_eq ends_in
two_lines-IsLine = ((refl, (refl, (refl, tt)), refl), ((refl, (refl, (refl, tt)), refl), tt))

read_lines-write_lines_example : read_lines [] (write_lines two_lines) ≡ two_lines
read_lines-write_lines_example = read_lines-write_lines two_lines two_lines-IsLine
