-- ===== src/Bench/Cases.antt =====
-- bench/run.go: one case, against the server itself and through the proxy.
use mcp_content_guard.Base.{
  ℕ, Bool, true, false, Option, none, some, List, [], ◌∷◌, ◌++◌, ◌==◌, length, drop, if◌then◌else◌,
}
use mcp_content_guard.Base.Bytes.{Bytes, codes, has_prefix}
use mcp_content_guard.Base.Decimal.{show64}
use mcp_content_guard.Base.Int64.{Int64}
use mcp_content_guard.Json.{
  Result, ok, err, ◌>>=◌, wrap, Value, Members, string, array, object, cons,
}
use mcp_content_guard.Bench.{Case, Measured}
use mcp_content_guard.Bench.Connection.{
  Connection, Spawned, start_mcp, AnyCodec, find_member, initialize_connection, call_tool,
}

-- The text up to the next double quote, if there is one.
unfoldable pub until_quote : Bytes → Option Bytes
until_quote [] = none
until_quote (c ∷ s) =
    let rest = until_quote s in
    if c == b'"' then some [] else (elim rest [ none ↦ none | some t ↦ some (c ∷ t) ])

abbrev pub id_start : Bytes
id_start = codes "seek_result(id=\""

-- The first group of the first match of `seek_result\(id="([^"]+)"`.
unfoldable pub find_id : Bytes → Option Bytes
unfolding until_quote
find_id [] = none
find_id (c ∷ s) =
    let later = find_id s in
    if has_prefix (c ∷ s) id_start
    then (elim (until_quote (drop 16 (c ∷ s))) [
      | none ↦ later
      | some [] ↦ later
      | some (d ∷ t) ↦ some (d ∷ t)
    ])
    else later

-- A type assertion to map[string]any.
unfoldable pub as_object : Option Value → Option Members
as_object (some (object ms)) = some ms
as_object _ = none

-- What `runProxied` returns beside an error.
pub record Proxied : Type 0 where
  pub stub_bytes : ℕ
  pub filter_bytes : ℕ
  pub cached : Bool

-- A content whose first element is no object makes the program panic.
pub data Inspected : Type 0 where
  empty panics : Inspected
  text : Bytes → Inspected

-- The text of the first element of a content; a text that is no string is the empty one.
unfoldable pub first_text : Option Value → Inspected
unfolding find_member
first_text (some (array (cons (object ms) rest))) = elim (find_member (codes "text") ms) [
  | some (string s) ↦ text s
  | _ ↦ text []
]
first_text (some (array (cons v rest))) = panics
first_text _ = empty

-- What the benchmark does with a process: the arguments of the case with the environment's variables
-- expanded, and the seek arguments of an id and a filter.
pub record Runner : Type 0 where
  pub codec : AnyCodec
  -- the verb %q
  pub quote : Bytes → Bytes
  pub spawn : List Bytes → Spawned
  pub expand_env : Bytes → Bytes
  pub seek_arguments : Bytes → Bytes → Bytes

module _ (runner : Runner) where
  open runner use {codec, quote, spawn, expand_env, seek_arguments}

  -- `none` for a panic.
  unfoldable pub open_connection : List Bytes → Option (Result Connection)
  unfolding start_mcp
  open_connection command = elim (start_mcp quote spawn command) [
    | none ↦ none
    | some (err e) ↦ some (err e)
    | some (ok c) ↦
        let (c', failure) = initialize_connection codec c in
        some (elim failure [ none ↦ ok c' | some e ↦ err (codes "initialize: " ++ e) ])
  ]

  -- The result of a response, or the error of a response without one.
  unfoldable pub result_of : Bytes → Members → Result Members
  unfolding find_member as_object
  result_of complaint resp = elim (as_object (find_member (codes "result") resp)) [
    | some result ↦ ok result
    | none ↦ err (complaint ++ codec.print resp)
  ]

  -- `runDirect` behind `initialize`
  unfoldable pub measure_direct : Bytes → Bytes → Connection → Result ℕ
  unfolding result_of
  measure_direct tool arguments c = do
    resp ← (call_tool codec 1 tool arguments c).1
    result ← result_of (codes "unexpected response: ") resp
    ok (length (codec.encode (find_member (codes "content") result)))

  -- `none` for a panic.
  unfoldable pub run_direct : List Bytes → Bytes → Bytes → Option (Result ℕ)
  unfolding open_connection measure_direct
  run_direct command tool arguments = elim (open_connection command) [
    | none ↦ none
    | some (err e) ↦ some (err e)
    | some (ok c) ↦ some (measure_direct tool arguments c)
  ]

  -- `runProxied` from the id of a stub on. The values beside an error are not read.
  unfoldable pub run_seek : Bytes → Bytes → ℕ → Connection → Result Proxied
  unfolding result_of
  run_seek id filter stub_bytes c = do
    resp ←
        wrap (λ e. codes "seek_result: " ++ e)
          (call_tool codec 2 (codes "seek_result") (seek_arguments id filter) c).1
    result ← result_of (codes "no seek result: ") resp
    ok (record {
      stub_bytes = stub_bytes;
      filter_bytes = length (codec.encode (find_member (codes "content") result));
      cached = true;
    })

  unfoldable pub not_cached : ℕ → Proxied
  not_cached n = record { stub_bytes = n; filter_bytes = 0; cached = false }

  -- `none` for a panic.
  unfoldable pub measure : Bytes → Connection → Members → Option (Result Proxied)
  unfolding find_id first_text run_seek not_cached
  measure filter c result =
      let content = find_member (codes "content") result in
      let n = length (codec.encode content) in
      elim (first_text content) [
        | empty ↦ some (ok (not_cached n))
        | panics ↦ none
        | text s ↦ elim (find_id s) [
          | none ↦ some (ok (not_cached n))
          | some id ↦ some (run_seek id filter n c)
        ]
      ]

  unfoldable pub proxy_command : Bytes → Int64 → List Bytes → List Bytes
  proxy_command bin threshold command =
      bin ∷ (codes "--threshold=" ++ show64 threshold) ∷ codes "--" ∷ command

  unfoldable pub run_proxied :
      Bytes → Int64 → List Bytes → Bytes → Bytes → Bytes → Option (Result Proxied)
  unfolding open_connection result_of measure
  run_proxied bin threshold command tool arguments filter =
      elim (open_connection (proxy_command bin threshold command)) [
        | none ↦ none
        | some (err e) ↦ some (err e)
        | some (ok c) ↦
            let (c', reply) = call_tool codec 1 tool arguments c in
            elim (reply >>= result_of (codes "unexpected response: ")) [
              | err e ↦ some (err e)
              | ok result ↦ measure filter c' result
            ]
      ]

  unfoldable pub no_measure : Case → Measured
  no_measure c = record {
    scenario = [];
    case_name = c.name;
    raw_bytes = 0;
    stub_bytes = 0;
    filter_bytes = 0;
    cached = false;
    err = [];
  }

  unfoldable pub bench_case : Bytes → Int64 → List Bytes → Case → Option Measured
  unfolding run_direct run_proxied no_measure
  bench_case bin threshold command c =
      let arguments = expand_env c.arguments in
      let r = no_measure c in
      elim (run_direct command c.tool arguments) [
        | none ↦ none
        | some (err e) ↦ some (record r { err = codes "direct: " ++ e })
        | some (ok raw) ↦ elim (run_proxied bin threshold command c.tool arguments c.filter) [
          | none ↦ none
          | some (err e) ↦ some (record r { raw_bytes = raw; err = codes "proxied: " ++ e })
          | some (ok p) ↦ some (record r {
            raw_bytes = raw;
            stub_bytes = p.stub_bytes;
            filter_bytes = p.filter_bytes;
            cached = p.cached;
          })
        ]
      ]
