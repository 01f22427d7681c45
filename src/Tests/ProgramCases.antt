-- ===== src/Tests/ProgramCases.antt =====
-- main.go as a whole at concrete inputs.
use mcp_content_guard.Base.{◌≡◌, refl, true, false, none, some, List, [], ◌∷◌, arith}
use mcp_content_guard.Base.Bytes.{Bytes, codes, bytes_eq, has_prefix}
use mcp_content_guard.Base.Int64.{lt64, le64, len64}
use mcp_content_guard.Base.Dictionary.{lookup}
use mcp_content_guard.Json.{ok}
use mcp_content_guard.Rpc.{is_request, is_notification, is_nil}
use mcp_content_guard.Cache.{hex, new_with_capacity}
use mcp_content_guard.Cache.Held.{AreDistinct}
use mcp_content_guard.Cache.Memory.{HoldsAtMost, IsAddressable, budget_of}
use mcp_content_guard.Intercept.Touches.{map_size, content_size}
use mcp_content_guard.Proxy.{handle_client_message, handle_request, seek_params}
use mcp_content_guard.Proxy.Schedule.{Event, from_client, from_upstream, run}
use mcp_content_guard.Proxy.Touches.{line_size}
use mcp_content_guard.Http.{read_body, limited, values, header_get}
use mcp_content_guard.Http.Construct
use mcp_content_guard.Http.Construct.{Built, limit_or, server_of, transport_of, config_of}
use mcp_content_guard.Http.Memory
use mcp_content_guard.Http.Handlers.{Context, collect, do_upstream, seek_request, is_mcp_post}
use mcp_content_guard.Http.Sizes.{
  collected_size, sought_size, message_size, read_size, request_size,
}
use mcp_content_guard.Http.Sessions.{Incoming, serve_all}
use mcp_content_guard.Main.{
  Flags, override, overridden, arguments, merge_headers, effective_url, config_key, choose,
}
use mcp_content_guard.Main.Launch.{default_config, read_config, open_state, open_server}
use mcp_content_guard.Main.Program.{World, listens, pipes, opened, launch, main}
use mcp_content_guard.Main.Program.Sessions.{
  HasInt64Sizes, at_start, serving, pipes-memory, listens-memory,
}
use mcp_content_guard.Tests.Fixtures.{totals_codec, random}
use mcp_content_guard.Tests.ProxyCases.{tool, setup, env, state}
use mcp_content_guard.Tests.RetentionCases.{quiet}
use mcp_content_guard.Tests.HttpCases.{context, url, post, answers, plain, refused}

abbrev world : World
world = record {
  file = none;
  unmarshal = λ text cfg. none;
  join_path = λ d f. f;
  directory = [];
  sha256 = λ s. s;
  files = λ path. record { main = none; temporary = none };
  made = true;
  parse_url = λ s. ok url;
  started = true;
}

-- Everything of one byte or more is large, and the cache takes 100 bytes.
abbrev flags : Flags
flags = record {
  threshold = 1;
  max_body_bytes = 0;
  cache_max_bytes = 100;
  upstream_url = [];
  listen_addr = [];
  raw_headers = [];
  enable_stats = false;
}

abbrev command : List Bytes
command = codes "server" ∷ []

read_default : read_config world.unmarshal [] world.file ≡ some default_config
unfolding read_config bytes_eq
read_default = refl

sizes : HasInt64Sizes flags default_config
sizes = record { flag = omega arith; configured = omega arith }

piped : main totals_codec world [] flags command ≡ pipes command 1 state
unfolding main launch opened open_state read_config choose arguments overridden override
    merge_headers effective_url config_key bytes_eq lt64
piped = refl

addressable : IsAddressable 100 1
addressable = record { with_budget = omega arith; with_content = omega arith }

abbrev events : List Event
events =
    from_client quiet (codes "call")
    ∷ from_upstream env (codes "response")
    ∷ from_client quiet (codes "seek")
    ∷ []

unused :
    lookup
      (hex random)
      (handle_client_message setup tool quiet (codes "call") (at_start state)).shared.cache.items
    ≡ none
unfolding handle_client_message handle_request seek_params is_notification is_request is_nil
    bytes_eq lookup new_with_capacity
unused = refl

abbrev ids : List Bytes
ids = hex random ∷ codes "other" ∷ []

ids-AreDistinct : AreDistinct ids
unfolding bytes_eq hex
ids-AreDistinct = ((refl, tt), (tt, tt))

pipes-memory_example : HoldsAtMost 100 1 ids (run setup tool events (at_start state)).shared.cache
unfolding line_size content_size map_size bytes_eq lookup budget_of override lt64 le64
pipes-memory_example =
    pipes-memory totals_codec world [] flags command default_config read_default sizes setup tool
      command 1 state events 1 ids piped addressable (unused, tt) (omega arith, tt) ids-AreDistinct

abbrev http_flags : Flags
http_flags = record flags {
  upstream_url = codes "https://mcp.example/mcp";
  listen_addr = codes ":8080";
}

abbrev built : Built
built = record {
  server =
      server_of
        (record { max_body_bytes = 0; upstream_header_timeout = 0; upstream_dial_timeout = 0 }) url
        [];
  transport =
      transport_of
        (record { max_body_bytes = 0; upstream_header_timeout = 0; upstream_dial_timeout = 0 });
  upstream = url;
  base = record url { path = [] };
}

listening : main totals_codec world [] http_flags [] ≡ listens (codes ":8080") built 1 state
unfolding main launch opened open_state open_server Construct.new config_of read_config choose
    arguments overridden override merge_headers effective_url config_key bytes_eq lt64
listening = refl

http_sizes : HasInt64Sizes http_flags default_config
http_sizes = record { flag = omega arith; configured = omega arith }

-- A call with a large response, a call that is refused, and a call of the stub.
abbrev incoming : List Incoming
incoming =
    record { env = env; net = answers plain; request = post (codes "call") }
    ∷ record { env = quiet; net = answers refused; request = post (codes "call") }
    ∷ record { env = quiet; net = answers plain; request = post (codes "seek") }
    ∷ []

abbrev served : Context
served = serving context built 1

small : Memory.AllAtMost served 1 incoming
unfolding request_size read_size message_size sought_size collected_size content_size map_size
    bytes_eq lookup seek_request is_request is_nil is_mcp_post header_get values has_prefix
    read_body lt64 len64 server_of limit_or le64 do_upstream collect limited
small = (omega arith, (omega arith, (omega arith, tt)))

listens-memory_example : HoldsAtMost 100 1 ids (serve_all served incoming state).cache
unfolding lookup new_with_capacity budget_of override lt64 le64
listens-memory_example =
    listens-memory totals_codec world [] http_flags [] default_config read_default http_sizes
      context (codes ":8080") built 1 state incoming 1 ids listening addressable
      (refl, (tt, (tt, tt))) small ids-AreDistinct
