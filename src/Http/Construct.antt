-- ===== src/Http/Construct.antt =====
-- internal/httpserver/server.go: `New`.
use mcp_content_guard.Base.{ℕ, ◌*◌, ◌^◌, Option, none, some, [], ◌++◌, if◌then◌else◌}
use mcp_content_guard.Base.Bytes.{Bytes, codes}
use mcp_content_guard.Base.Int64.{Int64, le64}
use mcp_content_guard.Base.Dictionary.{Dictionary}
use mcp_content_guard.Json.{Result, ok, err}
use mcp_content_guard.Http.{Server}

-- A time.Duration is a number of nanoseconds.
pub record Config : Type 0 where
  pub max_body_bytes : Int64
  pub upstream_header_timeout : Int64
  pub upstream_dial_timeout : Int64

abbrev pub seconds : ℕ → Int64
seconds n = n * 10 ^ 9

abbrev pub default_max_body_bytes : Int64
default_max_body_bytes = 64 * 2 ^ 20

abbrev pub default_upstream_header_timeout : Int64
default_upstream_header_timeout = seconds 30

abbrev pub default_upstream_dial_timeout : Int64
default_upstream_dial_timeout = seconds 10

-- A field of the configuration, if it is positive.
unfoldable pub limit_or : Int64 → Int64 → Int64
limit_or default n = if le64 n 0 then default else n

-- What url.Parse gives.
pub record Url : Type 0 where
  pub scheme : Bytes
  pub host : Bytes
  pub path : Bytes

-- The durations of the `http.Transport`.
pub record Transport : Type 0 where
  pub dial_timeout : Int64
  pub keep_alive : Int64
  pub tls_handshake_timeout : Int64
  pub response_header_timeout : Int64
  pub idle_conn_timeout : Int64
  pub expect_continue_timeout : Int64

-- A server, its transport, the URL of its requests, and the base of its reverse proxy.
pub record Built : Type 0 where
  pub server : Server
  pub transport : Transport
  pub upstream : Url
  pub base : Url

unfoldable pub transport_of : Config → Transport
unfolding limit_or
transport_of cfg =
    let dial = limit_or default_upstream_dial_timeout cfg.upstream_dial_timeout in
    record {
      dial_timeout = dial;
      keep_alive = seconds 30;
      tls_handshake_timeout = dial;
      response_header_timeout =
          limit_or default_upstream_header_timeout cfg.upstream_header_timeout;
      idle_conn_timeout = seconds 90;
      expect_continue_timeout = seconds 1;
    }

unfoldable pub server_of : Config → Url → Dictionary Bytes → Server
unfolding limit_or
server_of cfg u headers = record {
  mcp_path = u.path;
  headers = headers;
  max_body_bytes = limit_or default_max_body_bytes cfg.max_body_bytes;
}

unfoldable pub config_of : Option Config → Config
config_of none = record {
  max_body_bytes = 0;
  upstream_header_timeout = 0;
  upstream_dial_timeout = 0;
}
config_of (some cfg) = cfg

-- `New`, for what url.Parse gives. The configuration is `none` for a nil pointer.
unfoldable pub new : (Bytes → Result Url) → Bytes → Dictionary Bytes → Option Config → Result Built
unfolding transport_of server_of config_of
new parse upstream_url headers config =
    let cfg = config_of config in
    elim (parse upstream_url) [
      | err e ↦ err (codes "httpserver: parse upstream URL: " ++ e)
      | ok u ↦ ok (record {
        server = server_of cfg u headers;
        transport = transport_of cfg;
        upstream = u;
        base = record { scheme = u.scheme; host = u.host; path = [] };
      })
    ]
