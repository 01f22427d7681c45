-- ===== src/Tests/RetentionCases.antt =====
-- A stub that is used later, over both transports.
use mcp_content_guard.Base.{◌+◌, ◌≡◌, ◌≤◌, refl, none, List, [], ◌∷◌, ◌++◌, arith}
use mcp_content_guard.Base.Bytes.{codes, bytes_eq}
use mcp_content_guard.Base.Int64.{le64}
use mcp_content_guard.Base.Dictionary.{lookup}
use mcp_content_guard.Cache.Budget.{total}
use mcp_content_guard.Filter.Total.{apply}
use mcp_content_guard.Intercept.{Environment}
use mcp_content_guard.Intercept.Seek.{answer}
use mcp_content_guard.Proxy.{Proxy, handle_client_message, handle_upstream_message}
use mcp_content_guard.Proxy.Schedule.{Event, from_client, from_upstream, step, run}
use mcp_content_guard.Proxy.Retention.{arriving, run-Retains, seek_later}
use mcp_content_guard.Intercept.Touches.{map_size, content_size}
use mcp_content_guard.Proxy.Touches.{line_size}
use mcp_content_guard.Cache.Retention.{Retains}
use mcp_content_guard.Cache.{new_with_capacity}
use mcp_content_guard.Tests.Fixtures.{
  random, content, call, response, seek, seek_call, codec, engines,
}
use mcp_content_guard.Tests.ProxyCases.{
  tool, setup, env, state-IsValid, waiting, call_waits, response-IsResponse, response-IsLarge,
  random-ne-nil, state-CanStore, stub, stubbed, seek-IsSeekCall,
}

-- No id is drawn.
abbrev pub quiet : Environment
quiet = record env { random = none }

abbrev events : List Event
events =
    from_client quiet (codes "note")
    ∷ from_upstream quiet (codes "junk")
    ∷ from_upstream quiet (codes "response")
    ∷ from_client quiet (codes "seek")
    ∷ []

abbrev replaced : Proxy
replaced = handle_upstream_message setup tool env (codes "response") waiting

one_byte : arriving setup tool (from_upstream env (codes "response") ∷ []) ≡ 1
unfolding arriving line_size content_size map_size bytes_eq lookup
one_byte = refl

pub budget : waiting.shared.cache.max_bytes ≡ 100
unfolding new_with_capacity le64
budget = refl

pub empty : total waiting.shared.cache.lru ≡ 0
unfolding new_with_capacity
empty = refl

replaced-Retains :
    Retains
      (arriving setup tool (from_upstream env (codes "response") ∷ []))
      waiting.shared.cache
      replaced.shared.cache
unfolding run step
replaced-Retains =
    run-Retains setup tool (from_upstream env (codes "response") ∷ []) waiting state-IsValid
      (state-CanStore.fresh, tt) (omega (arith, one_byte, budget, empty))

one_more : arriving setup tool events ≡ 1
unfolding arriving line_size content_size map_size bytes_eq lookup
one_more = refl

events_fit :
    total replaced.shared.cache.lru + arriving setup tool events ≤ replaced.shared.cache.max_bytes
events_fit =
    omega
      (arith, replaced-Retains.bytes, replaced-Retains.max_bytes, one_byte, one_more, budget, empty)

seek_later_example :
    (replaced.to_client ≡ [] ++ (stub ∷ []))
    × ((handle_client_message setup tool env
          (codes "seek")
          (run setup tool events replaced)).to_client
        ≡ (run setup tool events replaced).to_client
          ++ (answer setup seek.id (apply codec engines 100 env.expired content (codes "head:2"))
              ∷ []))
seek_later_example =
    seek_later setup tool env env (codes "response") (codes "seek") events response call seek
      seek_call waiting ((codes "content", content) ∷ []) content random stub replaced
      response-IsResponse call_waits refl response-IsLarge refl random-ne-nil state-CanStore stubbed
      refl (tt, (tt, tt)) events_fit seek-IsSeekCall refl
