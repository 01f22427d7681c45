-- ===== src/Bench/Uncached.antt =====
-- bench/run.go: a case whose response the proxy replaces by a stub.
use mcp_content_guard.Base.{◌≡◌, refl, ◌∙◌, false, some, List, [], ◌∷◌}
use mcp_content_guard.Base.Bytes.{Bytes, codes}
use mcp_content_guard.Base.Int64.{Int64}
use mcp_content_guard.Json.{ok, Values, Members, string, array, object, cons}
use mcp_content_guard.Cache.{hex}
use mcp_content_guard.Intercept.{Setup, stub_text}
use mcp_content_guard.Bench.{Case}
use mcp_content_guard.Bench.Connection.{initialize, tools_call, find_member}
use mcp_content_guard.Bench.Cases.{
  Runner, not_cached, proxy_command, run_proxied, bench_case, no_measure,
}
use mcp_content_guard.Bench.Replies.{open_on}
use mcp_content_guard.Bench.Stubs.{IsQuoted, measure-stub_text}
use mcp_content_guard.Bench.Seeks.{Answers, content_length, run_direct-Answers, run_proxied-opened}

module _ (setup : Setup) (runner : Runner) where
  -- A result whose first content is the stub that the proxy writes for some content.
  pub record IsStub (result : Members) : Type 0 where
    pub random : Bytes
    pub content : Bytes
    pub quoted : IsQuoted setup (hex random)
    pub members : Members
    pub rest : Values
    pub first : find_member (codes "content") result ≡ some (array (cons (object members) rest))
    pub text :
        find_member (codes "text") members ≡ some (string (stub_text setup (hex random) content))

  run_proxied-IsStub :
      (bin : Bytes) (threshold : Int64) (command : List Bytes) (tool arguments filter : Bytes)
      (h : Answers runner (proxy_command runner bin threshold command))
      → IsStub h.result
      → run_proxied runner bin threshold command tool arguments filter
        ≡ some (ok (not_cached runner (content_length runner h.result)))
  run_proxied-IsStub bin threshold command tool arguments filter h i =
      run_proxied-opened runner bin threshold command tool arguments filter h.lines h.rest h.reply
        h.result h.starts h.replies h.has_result
      ∙ measure-stub_text setup runner filter
          (open_on runner.codec h.rest (initialize ∷ tools_call 1 tool arguments ∷ [])) h.result
          i.members i.rest i.random i.content i.quoted i.first i.text

  -- When the server answers the call, and the proxy answers it with the stub that `MaybeCache` writes,
  -- each behind any number of notifications, `benchCase` records no error but a case that is not
  -- cached: its sizes are those of the server's content and of the stub, and no `seek_result` call is
  -- measured.
  pub bench_case-IsStub :
      (bin : Bytes) (threshold : Int64) (command : List Bytes) (c : Case)
      (d : Answers runner command) (h : Answers runner (proxy_command runner bin threshold command))
      → IsStub h.result
      → bench_case runner bin threshold command c
        ≡ some (record {
          scenario = [];
          case_name = c.name;
          raw_bytes = content_length runner d.result;
          stub_bytes = content_length runner h.result;
          filter_bytes = 0;
          cached = false;
          err = [];
        })
  unfolding bench_case no_measure not_cached
  bench_case-IsStub bin threshold command c d h i =
      rw (run_direct-Answers runner command c.tool (runner.expand_env c.arguments) d, bench_case)
        (rw
          (run_proxied-IsStub bin threshold command c.tool (runner.expand_env c.arguments) c.filter
            h i)
          refl)
