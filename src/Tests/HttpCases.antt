-- ===== src/Tests/HttpCases.antt =====
-- internal/httpserver at concrete inputs.
use mcp_content_guard.Base.{inr, arith, ◌≡◌, ◌⊎◌, refl, false, none, some, List, [], ◌∷◌, ◌++◌, All}
use mcp_content_guard.Base.Bytes.{Bytes, codes, bytes_eq, has_prefix}
use mcp_content_guard.Base.Int64.{lt64, len64, le64}
use mcp_content_guard.Base.Lines.{split}
use mcp_content_guard.Base.Dictionary.{lookup}
use mcp_content_guard.Json.{ok}
use mcp_content_guard.Filter.Total.{apply}
use mcp_content_guard.Rpc.{is_request, is_response, is_nil}
use mcp_content_guard.Intercept.Seek.{answer}
use mcp_content_guard.Proxy.{handle_response}
use mcp_content_guard.Http.{
  Body, Request, Answer, Network, read_body, limited, is_managed, drop_return, has_long_line,
  values, header_get, upstream_header, write_json, copy_response,
}
use mcp_content_guard.Http.Construct.{Config, Url, limit_or, server_of}
use mcp_content_guard.Http.Handlers.{
  Context, outgoing, response_data, collect_sse, collect, do_upstream, seek_request,
  intercept_response, is_mcp_post, serve_http,
}
use mcp_content_guard.Http.Posts.{IsPost, IsCalled, serve_http-retrieval}
use mcp_content_guard.Http.Failed.{IsAnswered, IsWhole, serve_http-unchanged}
use mcp_content_guard.Http.Agree.{handle_response-intercept_response}
use mcp_content_guard.Http.Events.{IsOther, LastResponse, collect_sse-LastResponse}
use mcp_content_guard.Http.Headers.{IsHeader, values-upstream_header}
use mcp_content_guard.Tests.Fixtures.{
  random, content, call, response, seek, seek_call, codec, engines,
}
use mcp_content_guard.Tests.ProxyCases.{
  tool, setup, env, state, proxy, stub, stubbed, state-CanStore, response-IsLarge, random-ne-nil,
}

abbrev no_config : Config
no_config = record { max_body_bytes = 0; upstream_header_timeout = 0; upstream_dial_timeout = 0 }

abbrev pub url : Url
url = record { scheme = codes "https"; host = codes "mcp.example"; path = codes "/mcp" }

abbrev pub context : Context
context = record {
  setup = setup;
  seek_result_tool = tool;
  canonical = λ k. k;
  server = server_of no_config url ((codes "Authorization", codes "configured") ∷ []);
}

abbrev pub post : Bytes → Request
post text = record {
  method = codes "POST";
  path = codes "/mcp";
  header =
      (codes "Content-Type", codes "application/json" ∷ [])
      ∷ (codes "Authorization", codes "own" ∷ [])
      ∷ [];
  body = record { text = text; failure = none };
}

abbrev pub answers : Answer → Network
answers resp = record {
  request_error = none;
  exchange = λ out. ok resp;
  relay = λ r. copy_response (λ k. k) 404 [] [];
}

abbrev pub plain : Answer
plain = record {
  status = 200;
  header = [];
  body = record { text = codes "response"; failure = none };
}

abbrev pub refused : Answer
refused = record plain { status = 401 }

pub call-IsPost : IsPost context (post (codes "call")) (codes "call") call
unfolding is_mcp_post header_get values lookup bytes_eq has_prefix read_body lt64 len64 server_of
    limit_or le64
call-IsPost = record { routed = refl; read = refl; decoded = refl }

pub seek-IsPost : IsPost context (post (codes "seek")) (codes "seek") seek
unfolding is_mcp_post header_get values lookup bytes_eq has_prefix read_body lt64 len64 server_of
    limit_or le64
seek-IsPost = record { routed = refl; read = refl; decoded = refl }

call-other : seek_request context call ≡ none
unfolding seek_request is_request is_nil bytes_eq
call-other = refl

pub collected :
    (do_upstream context (answers plain) (post (codes "call")) (codes "call")).0
    ≡ ok (record { status = 200; header = []; body = codes "response" })
unfolding do_upstream collect header_get values lookup has_prefix limited lt64 len64 server_of
    limit_or le64
collected = refl

collected_refused :
    (do_upstream context (answers refused) (post (codes "call")) (codes "call")).0
    ≡ ok (record { status = 401; header = []; body = codes "response" })
unfolding do_upstream collect header_get values lookup has_prefix limited lt64 len64 server_of
    limit_or le64
collected_refused = refl

pub call-IsCalled :
    IsCalled context call (record { status = 200; header = []; body = codes "response" }) response
unfolding is_response is_nil bytes_eq
call-IsCalled = record {
  method = refl;
  other = call-other;
  success = refl;
  decoded = refl;
  response = refl;
}

pub sought : seek_request context seek ≡ some seek_call
unfolding seek_request is_request is_nil bytes_eq
sought = refl

serve_http-retrieval_example :
    ((serve_http context env (answers plain) (post (codes "call")) state).reply
      ≡ write_json (λ k. k) stub)
    × ((serve_http context env
          (answers refused)
          (post (codes "seek"))
          (serve_http context env (answers plain) (post (codes "call")) state).shared).reply
        ≡ write_json
            (λ k. k)
            (answer setup seek.id (apply codec engines 100 env.expired content (codes "head:2"))))
    × ((serve_http context env
          (answers refused)
          (post (codes "seek"))
          (serve_http context env (answers plain) (post (codes "call")) state).shared).sent
        ≡ [])
serve_http-retrieval_example =
    serve_http-retrieval context env env (answers plain) (answers refused) (post (codes "call"))
      (post (codes "seek")) (codes "call") (codes "seek") call seek response seek_call
      (record { status = 200; header = []; body = codes "response" }) state
      ((codes "content", content) ∷ []) content random stub call-IsPost collected call-IsCalled
      response-IsLarge refl random-ne-nil state-CanStore stubbed seek-IsPost sought refl

-- A 401 with the values of a header.
abbrev denied : Answer
denied = record {
  status = 401;
  header = (codes "Www-Authenticate", codes "Bearer" ∷ codes "Basic" ∷ []) ∷ [];
  body = record { text = codes "response"; failure = none };
}

denied-IsAnswered : IsAnswered context (answers denied) (post (codes "call")) (codes "call") denied
denied-IsAnswered = record { requested = refl; answered = refl }

denied-IsWhole : IsWhole context denied
unfolding header_get values lookup bytes_eq has_prefix lt64 len64 server_of limit_or le64
denied-IsWhole = record { no_events = refl; ends = refl; fits = refl }

serve_http-unchanged_example :
    ((serve_http context env (answers denied) (post (codes "call")) state).shared ≡ state)
    × ((serve_http context env (answers denied) (post (codes "call")) state).reply.status ≡ 401)
    × ((serve_http context env (answers denied) (post (codes "call")) state).reply.body
        ≡ codes "response")
    × (values
          (λ k. k)
          (codes "Www-Authenticate")
          (serve_http context env (answers denied) (post (codes "call")) state).reply.header
        ≡ values (λ k. k) (codes "Www-Authenticate") denied.header)
    × ((serve_http context env (answers denied) (post (codes "call")) state).sent
        ≡ outgoing context (post (codes "call")) (codes "call") ∷ [])
unfolding lookup
serve_http-unchanged_example =
    serve_http-unchanged context env (answers denied) (post (codes "call")) (codes "call") call
      denied state (codes "Www-Authenticate") call-IsPost call-other denied-IsAnswered
      denied-IsWhole (inr (omega arith)) (refl, refl, tt) refl

handle_response-intercept_response_example :
    ((handle_response setup tool env (codes "response") response call proxy).to_client
      ≡ [] ++ ((intercept_response context env call response (codes "response") state).1 ∷ []))
    × ((handle_response setup tool env (codes "response") response call proxy).shared
        ≡ (intercept_response context env call response (codes "response") state).0)
handle_response-intercept_response_example =
    handle_response-intercept_response context env (codes "response") response call proxy

abbrev stream : Body
stream = record { text = codes "event: x\ndata: note\n\ndata: response\r\n\n"; failure = none }

stream_fits : has_long_line (split 10 stream.text) ≡ false
unfolding has_long_line split
stream_fits = refl

collect_sse-LastResponse_example :
    (All (IsOther context) (split 10 stream.text) × (collect_sse context stream ≡ ok (codes "{}")))
    ⊎ ((found : Bytes) × LastResponse context (split 10 stream.text) found
        × (collect_sse context stream ≡ ok found))
collect_sse-LastResponse_example = collect_sse-LastResponse context stream stream_fits refl

collected_stream : collect_sse context stream ≡ ok (codes "response")
unfolding collect_sse response_data split has_long_line drop_return has_prefix bytes_eq is_response
    is_nil
collected_stream = refl

abbrev client_header : List (Bytes × List Bytes)
client_header = (post []).header

client-IsHeader : IsHeader (λ k. k) client_header
unfolding lookup bytes_eq
client-IsHeader = (refl, refl, (refl, refl, tt))

unmanaged : is_managed (codes "Authorization") ≡ false
unfolding is_managed bytes_eq
unmanaged = refl

own_value : lookup (codes "Authorization") client_header ≡ some (codes "own" ∷ [])
unfolding lookup bytes_eq
own_value = refl

full_value : bytes_eq (codes "own") [] ≡ false
unfolding bytes_eq
full_value = refl

values-upstream_header_example :
    values
      (λ k. k)
      (codes "Authorization")
      (upstream_header (λ k. k) ((codes "Authorization", codes "configured") ∷ []) client_header)
    ≡ codes "own" ∷ []
values-upstream_header_example =
    values-upstream_header (λ k. k) ((codes "Authorization", codes "configured") ∷ []) client_header
      (codes "Authorization") (codes "own") [] refl refl client-IsHeader refl unmanaged own_value
      full_value
