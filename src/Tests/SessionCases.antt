-- ===== src/Tests/SessionCases.antt =====
-- A stub that is used behind other requests over HTTP.
use mcp_content_guard.Base.{◌+◌, ◌≡◌, ◌≤◌, refl, List, [], ◌∷◌, arith}
use mcp_content_guard.Base.Bytes.{codes, bytes_eq, has_prefix}
use mcp_content_guard.Base.Int64.{lt64, len64, le64}
use mcp_content_guard.Base.Dictionary.{lookup}
use mcp_content_guard.Cache.Budget.{total}
use mcp_content_guard.Cache.Retention.{Retains}
use mcp_content_guard.Filter.Total.{apply}
use mcp_content_guard.Rpc.{is_request, is_nil}
use mcp_content_guard.Intercept.{State}
use mcp_content_guard.Intercept.Touches.{map_size, content_size}
use mcp_content_guard.Intercept.Seek.{answer}
use mcp_content_guard.Http.{read_body, limited, values, header_get, write_json}
use mcp_content_guard.Http.Construct.{limit_or, server_of}
use mcp_content_guard.Http.Handlers.{collect, do_upstream, seek_request, is_mcp_post, serve_http}
use mcp_content_guard.Http.Sizes.{
  collected_size, sought_size, message_size, read_size, request_size,
}
use mcp_content_guard.Http.Sessions.{Incoming, serve_all, arriving, serve_all-Retains, serve_later}
use mcp_content_guard.Tests.Fixtures.{
  random, content, call, response, seek, seek_call, codec, engines,
}
use mcp_content_guard.Tests.ProxyCases.{
  setup, env, state, state-IsValid, response-IsLarge, random-ne-nil, state-CanStore, stub, stubbed,
}
use mcp_content_guard.Tests.RetentionCases.{quiet, budget, empty}
use mcp_content_guard.Tests.HttpCases.{
  context, post, answers, plain, refused, call-IsPost, seek-IsPost, collected, call-IsCalled,
  sought,
}

abbrev first : Incoming
first = record { env = env; net = answers plain; request = post (codes "call") }

-- A call that is refused, a call of the stub, and a request for another path.
abbrev incoming : List Incoming
incoming =
    record { env = quiet; net = answers refused; request = post (codes "call") }
    ∷ record { env = quiet; net = answers plain; request = post (codes "seek") }
    ∷ record {
      env = quiet;
      net = answers plain;
      request = record (post []) { path = codes "/token" };
    }
    ∷ []

abbrev later : State
later = (serve_http context env (answers plain) (post (codes "call")) state).shared

first_byte : arriving context (first ∷ []) ≡ 1
unfolding arriving request_size read_size message_size sought_size collected_size content_size
    map_size bytes_eq lookup seek_request is_request is_nil is_mcp_post header_get values has_prefix
    read_body lt64 len64 server_of limit_or le64 do_upstream collect limited
first_byte = refl

one_more : arriving context incoming ≡ 1
unfolding arriving request_size read_size message_size sought_size collected_size content_size
    map_size bytes_eq lookup seek_request is_request is_nil is_mcp_post header_get values has_prefix
    read_body lt64 len64 server_of limit_or le64 do_upstream collect limited
one_more = refl

later-Retains : Retains (arriving context (first ∷ [])) state.cache later.cache
unfolding serve_all
later-Retains =
    serve_all-Retains context (first ∷ []) state state-IsValid (state-CanStore.fresh, tt)
      (omega (arith, first_byte, budget, empty))

incoming_fit : total later.cache.lru + arriving context incoming ≤ later.cache.max_bytes
incoming_fit =
    omega (arith, later-Retains.bytes, later-Retains.max_bytes, first_byte, one_more, budget, empty)

serve_later_example :
    ((serve_http context env (answers plain) (post (codes "call")) state).reply
      ≡ write_json (λ k. k) stub)
    × ((serve_http context env
          (answers refused)
          (post (codes "seek"))
          (serve_all context incoming later)).reply
        ≡ write_json
            (λ k. k)
            (answer setup seek.id (apply codec engines 100 env.expired content (codes "head:2"))))
    × ((serve_http context env
          (answers refused)
          (post (codes "seek"))
          (serve_all context incoming later)).sent
        ≡ [])
serve_later_example =
    serve_later context env env (answers plain) (answers refused) (post (codes "call"))
      (post (codes "seek")) (codes "call") (codes "seek") incoming call seek response seek_call
      (record { status = 200; header = []; body = codes "response" }) state later
      ((codes "content", content) ∷ []) content random stub call-IsPost collected call-IsCalled
      response-IsLarge refl random-ne-nil state-CanStore stubbed refl (tt, (tt, (tt, tt)))
      incoming_fit seek-IsPost sought refl
