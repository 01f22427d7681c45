-- ===== src/Bench/Seeks.antt =====
-- bench/run.go: the measurements of a case through the proxy.
use mcp_content_guard.Base.{
  ℕ, ◌≡◌, ◌≢◌, refl, ap, ◌∙◌, length, true, false, some, List, [], ◌∷◌, ◌++◌, ◌==◌, All, drop,
}
use mcp_content_guard.Base.Bytes.{Bytes, codes, has_prefix, has_prefix-append}
use mcp_content_guard.Base.Int64.{Int64}
use mcp_content_guard.Json.{ok, Values, Members, string, array, object, cons}
use mcp_content_guard.Bench.{Case}
use mcp_content_guard.Bench.Connection.{
  Scanned, Connection, Sent, initialize, tools_call, find_member,
}
use mcp_content_guard.Bench.Cases.{
  Runner, until_quote, id_start, find_id, first_text, run_seek, measure, proxy_command, run_proxied,
  run_direct, bench_case, no_measure,
}
use mcp_content_guard.Bench.Replies.{
  Turn, open_on, call_tool-Turn, Starts, open_connection-Starts, HasResult, run_direct_lem,
  result_of-HasResult,
}
use mcp_content_guard.Bench.Stubs.{IsOther, find_id-append}

-- A byte of an id.
abbrev pub IsInside : ℕ → Type 0
IsInside c = (c == b'"') ≡ false

until_quote-append : (id t : Bytes) → All IsInside id → until_quote (id ++ (b'"' ∷ t)) ≡ some id
unfolding until_quote
until_quote-append [] t h = refl
until_quote-append (c ∷ id) t (h, hs) = rw (h) (rw (until_quote-append id t hs) refl)

-- The text in front of the pattern, the id, and the text behind it.
abbrev pub naming : Bytes → Bytes → Bytes → Bytes
naming p id t = p ++ (id_start ++ (id ++ (b'"' ∷ t)))

find_id_first :
    (c : ℕ) (s : Bytes) (d : ℕ) (t : Bytes)
    → has_prefix (c ∷ s) id_start ≡ true
    → until_quote (drop 16 (c ∷ s)) ≡ some (d ∷ t)
    → find_id (c ∷ s) ≡ some (d ∷ t)
unfolding find_id
find_id_first c s d t h k = rw h (rw k refl)

find_id-naming :
    (p id t : Bytes) → All IsOther p → id ≢ [] → All IsInside id → find_id (naming p id t) ≡ some id
find_id-naming p [] t hp e h = absurd (e refl)
find_id-naming p (c ∷ id) t hp e h =
    let behind = c ∷ id ++ (b'"' ∷ t) in
    find_id-append p (id_start ++ behind) hp
    ∙ find_id_first b's' (codes "eek_result(id=\"" ++ behind) c id
        (has_prefix-append id_start behind) (until_quote-append (c ∷ id) t h)

module _ (runner : Runner) where
  open runner use {codec, seek_arguments}

  -- A result that names an id in the first text of its content.
  pub record Names (result : Members) (id : Bytes) : Type 0 where
    pub members : Members
    pub rest : Values
    pub front : Bytes
    pub behind : Bytes
    pub content : find_member (codes "content") result ≡ some (array (cons (object members) rest))
    pub text : find_member (codes "text") members ≡ some (string (naming front id behind))
    pub first : All IsOther front
    pub nonempty : id ≢ []
    pub inside : All IsInside id

  -- The length of the content of a result in JSON.
  abbrev pub content_length : Members → ℕ
  content_length result = length (codec.encode (find_member (codes "content") result))

  measure-Names :
      (filter : Bytes) (c : Connection) (result : Members) (id : Bytes)
      → Names result id
      → measure runner filter c result ≡ some (run_seek runner id filter (content_length result) c)
  unfolding measure first_text
  measure-Names filter c result id n =
      rw (n.content, measure, first_text)
        (rw (n.text, measure)
          (rw (find_id-naming n.front id n.behind n.first n.nonempty n.inside)
            (rw (n.content) refl)))

  run_seek-Turn :
      (id filter : Bytes) (n : ℕ) (sent : List Sent) (lines rest : List Scanned)
      (reply result : Members)
      → Turn codec lines reply rest
      → HasResult runner reply result
      → run_seek runner id filter n (open_on codec lines sent)
        ≡ ok (record { stub_bytes = n; filter_bytes = content_length result; cached = true })
  unfolding run_seek
  run_seek-Turn id filter n sent lines rest reply result t h =
      rw
        (
          call_tool-Turn codec 2 (codes "seek_result") (seek_arguments id filter) sent lines rest
              reply t,
          run_seek,
        )
        (rw (result_of-HasResult runner (codes "no seek result: ") reply result h, run_seek) refl)

  pub run_proxied-opened :
      (bin : Bytes) (threshold : Int64) (command : List Bytes) (tool arguments filter : Bytes)
      (lines more : List Scanned) (reply result : Members)
      → Starts runner (proxy_command runner bin threshold command) lines
      → Turn codec lines reply more
      → HasResult runner reply result
      → run_proxied runner bin threshold command tool arguments filter
        ≡ measure runner filter
            (open_on codec more (initialize ∷ tools_call 1 tool arguments ∷ []))
            result
  unfolding run_proxied
  run_proxied-opened bin threshold command tool arguments filter lines more reply result s t h =
      rw
        (
          open_connection-Starts runner (proxy_command runner bin threshold command) lines s,
          run_proxied,
        )
        (rw (call_tool-Turn codec 1 tool arguments (initialize ∷ []) lines more reply t) (
          rw (result_of-HasResult runner (codes "unexpected response: ") reply result h) (
            ap (λ p. measure runner filter p.0 result)
              (call_tool-Turn codec 1 tool arguments (initialize ∷ []) lines more reply t))))

  -- A process that answers `initialize`, a call and `seek_result`.
  pub record Seeks (command : List Bytes) : Type 0 where
    pub lines : List Scanned
    pub more : List Scanned
    pub rest : List Scanned
    pub id : Bytes
    pub reply : Members
    pub result : Members
    pub seek_reply : Members
    pub seek_result : Members
    pub starts : Starts runner command lines
    pub replies : Turn codec lines reply more
    pub has_result : HasResult runner reply result
    pub names : Names result id
    pub finds : Turn codec more seek_reply rest
    pub has_found : HasResult runner seek_reply seek_result

  run_proxied-Seeks :
      (bin : Bytes) (threshold : Int64) (command : List Bytes) (tool arguments filter : Bytes)
      (h : Seeks (proxy_command runner bin threshold command))
      → run_proxied runner bin threshold command tool arguments filter
        ≡ some (
            ok (record {
              stub_bytes = content_length h.result;
              filter_bytes = content_length h.seek_result;
              cached = true;
            }))
  run_proxied-Seeks bin threshold command tool arguments filter h =
      let sent = initialize ∷ tools_call 1 tool arguments ∷ [] in
      run_proxied-opened bin threshold command tool arguments filter h.lines h.more h.reply h.result
        h.starts h.replies h.has_result
      ∙ (measure-Names filter (open_on codec h.more sent) h.result h.id h.names
          ∙ ap some (
              run_seek-Turn h.id filter (content_length h.result) sent h.more h.rest h.seek_reply
                h.seek_result h.finds h.has_found))

  -- A process that answers `initialize` and a call.
  pub record Answers (command : List Bytes) : Type 0 where
    pub lines : List Scanned
    pub rest : List Scanned
    pub reply : Members
    pub result : Members
    pub starts : Starts runner command lines
    pub replies : Turn codec lines reply rest
    pub has_result : HasResult runner reply result

  pub run_direct-Answers :
      (command : List Bytes) (tool arguments : Bytes) (d : Answers command)
      → run_direct runner command tool arguments ≡ some (ok (content_length d.result))
  run_direct-Answers command tool arguments d =
      run_direct_lem runner command tool arguments d.lines d.rest d.reply d.result d.starts
        d.replies d.has_result

  -- `benchCase` measures a case without an error and as cached when the server and the proxy start,
  -- every write succeeds, the server answers `initialize` and the call, the proxy answers these and
  -- `seek_result`, each answer behind any number of notifications, and the first text in the proxy's
  -- first result has an id in double quotes behind `seek_result(id=` and behind a text without the
  -- letter s. The three sizes are the lengths of the contents in JSON: of the server's result, of the
  -- proxy's first, and of that of `seek_result`.
  pub bench_case_lem :
      (bin : Bytes) (threshold : Int64) (command : List Bytes) (c : Case) (d : Answers command)
      (h : Seeks (proxy_command runner bin threshold command))
      → bench_case runner bin threshold command c
        ≡ some (record {
          scenario = [];
          case_name = c.name;
          raw_bytes = content_length d.result;
          stub_bytes = content_length h.result;
          filter_bytes = content_length h.seek_result;
          cached = true;
          err = [];
        })
  unfolding bench_case no_measure
  bench_case_lem bin threshold command c d h =
      rw (run_direct-Answers command c.tool (runner.expand_env c.arguments) d, bench_case)
        (rw
          (run_proxied-Seeks bin threshold command c.tool (runner.expand_env c.arguments) c.filter
            h)
          refl)
