-- ===== src/Tests/ConnectionCases.antt =====
-- Calls of bench/run.go to a process that answers from a script.
use mcp_content_guard.Base.{
  ◌≡◌, refl, true, false, none, some, List, [], ◌∷◌, ◌++◌, length, if◌then◌else◌,
}
use mcp_content_guard.Base.Bytes.{Bytes, codes, bytes_eq}
use mcp_content_guard.Json.{ok, err, number, string, array, object, nil, cons, end, member, Members}
use mcp_content_guard.Cache.{hex}
use mcp_content_guard.Intercept.{stub_text}
use mcp_content_guard.Bench.Connection.{start_mcp, Scanned, line, AnyCodec, find_member, is_present}
use mcp_content_guard.Bench.Cases.{Runner, measure, not_cached, proxy_command, bench_case}
use mcp_content_guard.Bench.Replies.{IsNote, Turn, open_on, Starts, HasResult}
use mcp_content_guard.Bench.Stubs.{measure-stub_text}
use mcp_content_guard.Bench.Seeks.{naming, Names, content_length, Seeks, Answers, bench_case_lem}
use mcp_content_guard.Bench.Uncached.{IsStub, bench_case-IsStub}
use mcp_content_guard.Bench.{Case}
use mcp_content_guard.Tests.Fixtures.{random, content}
use mcp_content_guard.Tests.ProxyCases.{setup}

abbrev text_of : Bytes → Members
text_of s = member (codes "text") (string s) end

abbrev content_of : Bytes → Members
content_of s = member (codes "content") (array (cons (object (text_of s)) nil)) end

abbrev greeting : Members
greeting = member (codes "id") (number 0) end

abbrev progress : Members
progress = member (codes "method") (string (codes "progress")) end

abbrev named : Members
named = content_of (naming (codes "[cache: ") (codes "3f9a") (codes ")]"))

abbrev stubbed : Members
stubbed = content_of (stub_text setup (hex random) content)

abbrev found : Members
found = content_of (codes "lines")

abbrev reply_of : Members → Members
reply_of result = member (codes "id") (number 1) (member (codes "result") (object result) end)

abbrev codec : AnyCodec
codec = record {
  decode = λ s.
      if bytes_eq s (codes "greeting")
      then ok greeting
      else if bytes_eq s (codes "note")
      then ok progress
      else if bytes_eq s (codes "named")
      then ok (reply_of named)
      else if bytes_eq s (codes "found")
      then ok (reply_of found)
      else if bytes_eq s (codes "stubbed")
      then ok (reply_of stubbed)
      else err (codes "no object");
  encode = λ v. elim v [ none ↦ codes "null" | some w ↦ codes "content" ];
  print = λ m. codes "map[]";
}

abbrev lines : List Scanned
lines = line (codes "named") ∷ line (codes "note") ∷ line (codes "found") ∷ []

abbrev pub runner : Runner
runner = record {
  codec = codec;
  quote = λ s. b'"' ∷ s ++ (b'"' ∷ []);
  spawn = λ command. record {
    stdin_error = none;
    stdout_error = none;
    start_error = none;
    connection = open_on codec (line (codes "greeting") ∷ lines) [];
  };
  expand_env = λ s. s;
  seek_arguments = λ id filter. id ++ filter;
}

progress-IsNote : IsNote codec (codes "note")
unfolding bytes_eq find_member is_present
progress-IsNote = record { members = progress; decoded = refl; no_id = refl; method = refl }

greets : Turn codec (line (codes "greeting") ∷ lines) greeting lines
unfolding bytes_eq find_member is_present
greets = record {
  notes = [];
  are_notes = tt;
  last = codes "greeting";
  lines = refl;
  decoded = refl;
  id = refl;
}

abbrev last_lines : List Scanned
last_lines = line (codes "note") ∷ line (codes "found") ∷ []

names : Turn codec lines (reply_of named) last_lines
unfolding bytes_eq find_member is_present
names = record {
  notes = [];
  are_notes = tt;
  last = codes "named";
  lines = refl;
  decoded = refl;
  id = refl;
}

finds : Turn codec last_lines (reply_of found) []
unfolding bytes_eq find_member is_present
finds = record {
  notes = codes "note" ∷ [];
  are_notes = (progress-IsNote, tt);
  last = codes "found";
  lines = refl;
  decoded = refl;
  id = refl;
}

starts : (name : Bytes) (args : List Bytes) → Starts runner (name ∷ args) lines
unfolding start_mcp
starts name args = record {
  scanned = line (codes "greeting") ∷ lines;
  launched = refl;
  greeting = greeting;
  greets = greets;
}

reply-HasResult : (result : Members) → HasResult runner (reply_of result) result
unfolding find_member bytes_eq
reply-HasResult result = refl

named-Names : Names runner named (codes "3f9a")
unfolding find_member bytes_eq
named-Names = record {
  members = text_of (naming (codes "[cache: ") (codes "3f9a") (codes ")]"));
  rest = nil;
  front = codes "[cache: ";
  behind = codes ")]";
  content = refl;
  text = refl;
  first = (refl, (refl, (refl, (refl, (refl, (refl, (refl, (refl, tt))))))));
  nonempty = cc;
  inside = (refl, (refl, (refl, (refl, tt))));
}

abbrev answering : Answers runner (codes "server" ∷ [])
answering = record {
  lines = lines;
  rest = last_lines;
  reply = reply_of named;
  result = named;
  starts = starts (codes "server") [];
  replies = names;
  has_result = reply-HasResult named;
}

abbrev seeking : (name : Bytes) (args : List Bytes) → Seeks runner (name ∷ args)
seeking name args = record {
  lines = lines;
  more = last_lines;
  rest = [];
  id = codes "3f9a";
  reply = reply_of named;
  result = named;
  seek_reply = reply_of found;
  seek_result = found;
  starts = starts name args;
  replies = names;
  has_result = reply-HasResult named;
  names = named-Names;
  finds = finds;
  has_found = reply-HasResult found;
}

abbrev pub one_case : Case
one_case = record {
  name = codes "read";
  tool = codes "read_file";
  arguments = codes "{}";
  filter = codes "head:2";
}

bench_case-named :
    bench_case runner (codes "proxy") 2000 (codes "server" ∷ []) one_case
    ≡ some (record {
      scenario = [];
      case_name = one_case.name;
      raw_bytes = content_length runner named;
      stub_bytes = content_length runner named;
      filter_bytes = content_length runner found;
      cached = true;
      err = [];
    })
unfolding proxy_command
bench_case-named =
    bench_case_lem runner (codes "proxy") 2000 (codes "server" ∷ []) one_case answering
      (seeking (codes "proxy") _)

stubbed_content :
    find_member (codes "content") stubbed
    ≡ some (array (cons (object (text_of (stub_text setup (hex random) content))) nil))
unfolding find_member bytes_eq
stubbed_content = refl

stubbed_text :
    find_member (codes "text") (text_of (stub_text setup (hex random) content))
    ≡ some (string (stub_text setup (hex random) content))
unfolding find_member bytes_eq
stubbed_text = refl

measure-stub_text_example :
    measure runner (codes "head:2") (open_on codec [] []) stubbed
    ≡ some (ok (not_cached runner (length (codec.encode (find_member (codes "content") stubbed)))))
measure-stub_text_example =
    measure-stub_text setup runner (codes "head:2") (open_on codec [] []) stubbed
      (text_of (stub_text setup (hex random) content)) nil random content refl stubbed_content
      stubbed_text

-- Processes that answer a call with the stub.
abbrev stubbing : Runner
stubbing = record runner {
  spawn = λ command. record (runner.spawn command) {
    connection = open_on codec (line (codes "greeting") ∷ line (codes "stubbed") ∷ []) [];
  };
}

stub_greets :
    Turn codec
      (line (codes "greeting") ∷ line (codes "stubbed") ∷ [])
      greeting
      (line (codes "stubbed") ∷ [])
unfolding bytes_eq find_member is_present
stub_greets = record {
  notes = [];
  are_notes = tt;
  last = codes "greeting";
  lines = refl;
  decoded = refl;
  id = refl;
}

stub_replies : Turn codec (line (codes "stubbed") ∷ []) (reply_of stubbed) []
unfolding bytes_eq find_member is_present
stub_replies = record {
  notes = [];
  are_notes = tt;
  last = codes "stubbed";
  lines = refl;
  decoded = refl;
  id = refl;
}

stub-Starts :
    (name : Bytes) (args : List Bytes) → Starts stubbing (name ∷ args) (line (codes "stubbed") ∷ [])
unfolding start_mcp
stub-Starts name args = record {
  scanned = line (codes "greeting") ∷ line (codes "stubbed") ∷ [];
  launched = refl;
  greeting = greeting;
  greets = stub_greets;
}

stub_result : HasResult stubbing (reply_of stubbed) stubbed
unfolding find_member bytes_eq
stub_result = refl

abbrev stub_answers : (name : Bytes) (args : List Bytes) → Answers stubbing (name ∷ args)
stub_answers name args = record {
  lines = line (codes "stubbed") ∷ [];
  rest = [];
  reply = reply_of stubbed;
  result = stubbed;
  starts = stub-Starts name args;
  replies = stub_replies;
  has_result = stub_result;
}

stubbed-IsStub : IsStub setup stubbing stubbed
stubbed-IsStub = record {
  random = random;
  content = content;
  quoted = refl;
  members = text_of (stub_text setup (hex random) content);
  rest = nil;
  first = stubbed_content;
  text = stubbed_text;
}

bench_case-IsStub_example :
    bench_case stubbing (codes "proxy") 2000 (codes "server" ∷ []) one_case
    ≡ some (record {
      scenario = [];
      case_name = one_case.name;
      raw_bytes = content_length stubbing stubbed;
      stub_bytes = content_length stubbing stubbed;
      filter_bytes = 0;
      cached = false;
      err = [];
    })
unfolding proxy_command
bench_case-IsStub_example =
    bench_case-IsStub setup stubbing (codes "proxy") 2000 (codes "server" ∷ []) one_case
      (stub_answers (codes "server") []) (stub_answers (codes "proxy") _) stubbed-IsStub
