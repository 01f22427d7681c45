-- ===== src/Http.antt =====
-- internal/httpserver/server.go: the HTTP transport, which answers a POST of the MCP endpoint itself.
--
-- A header is a map from canonical names to values; the canonical form of a name is a parameter. A
-- range over a map takes the order of the list. A body is the bytes that a reader gives and the error
-- behind them, if there is one. What the upstream server and `httputil.ReverseProxy` reply are
-- parameters. Each call returns the state, the reply, and the requests that were sent upstream.
pub mod Construct
pub mod Handlers
pub mod Posts
pub mod Failed
pub mod Headers
pub mod Agree
pub mod Sizes
pub mod Touches
pub mod Sessions
pub mod Memory
pub mod Events
use mcp_content_guard.Base.{
  ℕ, ◌+◌, ◌*◌, ◌^◌, Bool, true, false, not, ◌&&◌, ◌||◌, Option, none, some, List, [], ◌∷◌, ◌++◌,
  ◌==◌, ltb, leb, length, take, drop, if◌then◌else◌,
}
use mcp_content_guard.Base.Bytes.{Bytes, codes, bytes_eq, has_prefix}
use mcp_content_guard.Base.Int64.{Int64, lt64, le64, len64}
use mcp_content_guard.Base.Lines.{split}
use mcp_content_guard.Base.Dictionary.{Dictionary, lookup, put}
use mcp_content_guard.Json.{Result, ok, err, Message, CallParams}
use mcp_content_guard.Rpc.{is_request, is_response}
use mcp_content_guard.Schema.{inject_seek_result}
use mcp_content_guard.Intercept.{State, Environment, Setup, maybe_cache, seek_result}

abbrev pub Header : Type 0
Header = Dictionary (List Bytes)

-- `failure` is what a read behind the bytes gives, `none` for the end.
pub record Body : Type 0 where
  pub text : Bytes
  pub failure : Option Bytes

pub record Request : Type 0 where
  pub method : Bytes
  pub path : Bytes
  pub header : Header
  pub body : Body

-- A POST to the upstream URL.
pub record Outgoing : Type 0 where
  pub header : Header
  pub body : Bytes

-- What the upstream server answers.
pub record Answer : Type 0 where
  pub status : ℕ
  pub header : Header
  pub body : Body

pub record Reply : Type 0 where
  pub status : ℕ
  pub header : Header
  pub body : Bytes

-- `http.NewRequestWithContext`, `http.Client.Do`, and the reverse proxy behind its director.
pub record Network : Type 0 where
  pub request_error : Option Bytes
  pub exchange : Outgoing → Result Answer
  pub relay : Request → Reply

pub record Server : Type 0 where
  pub mcp_path : Bytes
  pub headers : Dictionary Bytes
  pub max_body_bytes : Int64

pub record Outcome : Type 0 where
  pub shared : State
  pub reply : Reply
  pub sent : List Outgoing

pub data Read : Type 0 where
  too_large : Read
  unread : Read
  complete : Bytes → Read

-- io.ReadAll of an http.MaxBytesReader
unfoldable pub read_body : Int64 → Body → Read
read_body limit b =
    if lt64 limit (len64 b.text)
    then too_large
    else (elim b.failure [ none ↦ complete b.text | some e ↦ unread ])

-- The bytes and the error of an io.LimitReader: it ends at the limit, before any later error.
unfoldable pub limited : Int64 → Body → Body
limited limit b =
    if lt64 (len64 b.text) limit then b else record { text = take limit b.text; failure = none }

-- strings.ToLower of a header name, which is ASCII
lower : Bytes → Bytes
lower [] = []
lower (c ∷ s) = (if leb b'A' c && leb c b'Z' then c + 32 else c) ∷ lower s

-- The names that `doUpstream` does not copy.
unfoldable pub is_managed : Bytes → Bool
unfolding lower
is_managed k =
    bytes_eq (lower k) (codes "content-length")
    || (bytes_eq (lower k) (codes "content-type")
        || (bytes_eq (lower k) (codes "accept") || bytes_eq (lower k) (codes "host")))

-- bufio.ScanLines drops a carriage return at the end.
unfoldable pub drop_return : Bytes → Bytes
drop_return [] = []
drop_return (c ∷ []) = if c == 13 then [] else c ∷ []
drop_return (c ∷ d ∷ s) = c ∷ drop_return (d ∷ s)

-- A line that does not fit into the buffer of the scanner.
unfoldable pub has_long_line : List Bytes → Bool
has_long_line [] = false
has_long_line (line ∷ lines) = leb (2 ^ 20) (length line) || has_long_line lines

module _ (canonical : Bytes → Bytes) where
  unfoldable pub values : Bytes → Header → List Bytes
  values k h = elim (lookup (canonical k) h) [ none ↦ [] | some vs ↦ vs ]

  unfoldable pub header_get : Bytes → Header → Bytes
  unfolding values
  header_get k h = elim (values k h) [ [] ↦ [] | v ∷ vs ↦ v ]

  unfoldable pub header_set : Bytes → Bytes → Header → Header
  header_set k v h = put (canonical k) (v ∷ []) h

  unfoldable pub header_add : Bytes → Bytes → Header → Header
  unfolding values
  header_add k v h = put (canonical k) (values k h ++ (v ∷ [])) h

  unfoldable pub add_values : Bytes → List Bytes → Header → Header
  unfolding header_add
  add_values k [] h = h
  add_values k (v ∷ vs) h = add_values k vs (header_add k v h)

  unfoldable pub add_client : Header → Header → Header
  unfolding add_values is_managed
  add_client [] h = h
  add_client ((k, vs) ∷ rest) h =
      let copied = add_client rest (add_values k vs h) in
      let skipped = add_client rest h in if is_managed k then skipped else copied

  unfoldable pub add_static : Dictionary Bytes → Header → Header
  unfolding header_get header_set
  add_static [] h = h
  add_static ((k, v) ∷ rest) h =
      let added = add_static rest (header_set k v h) in
      let kept = add_static rest h in if bytes_eq (header_get k h) [] then added else kept

  unfoldable pub add_all : Header → Header → Header
  unfolding add_values
  add_all [] h = h
  add_all ((k, vs) ∷ rest) h = add_all rest (add_values k vs h)

  -- The header that `doUpstream` sends.
  unfoldable pub upstream_header : Dictionary Bytes → Header → Header
  unfolding header_set add_client add_static
  upstream_header headers client = add_static headers (
      add_client client (
        header_set (codes "Accept") (codes "application/json, text/event-stream")
          (header_set (codes "Content-Type") (codes "application/json") [])))

  -- The director of the reverse proxy, which replaces the headers.
  unfoldable pub direct : Dictionary Bytes → Header → Header
  unfolding header_set
  direct [] h = h
  direct ((k, v) ∷ rest) h = direct rest (header_set k v h)

  -- http.Error
  unfoldable pub http_error : ℕ → Bytes → Reply
  unfolding header_set
  http_error status msg = record {
    status = status;
    header =
        header_set (codes "X-Content-Type-Options") (codes "nosniff")
          (header_set (codes "Content-Type") (codes "text/plain; charset=utf-8") []);
    body = msg ++ (10 ∷ []);
  }

  unfoldable pub write_json : Bytes → Reply
  unfolding header_set
  write_json b = record {
    status = 200;
    header = header_set (codes "Content-Type") (codes "application/json") [];
    body = b;
  }

  unfoldable pub copy_response : ℕ → Header → Bytes → Reply
  unfolding add_all
  copy_response status header body = record {
    status = status;
    header = add_all header [];
    body = body;
  }
