-- ===== src/Bench/Stubs.antt =====
-- bench/run.go and internal/intercept/intercept.go: the id that the benchmark looks for in a stub,
-- and the stub that the proxy writes.
use mcp_content_guard.Base.{
  ℕ, ◌≡◌, refl, sym, subst, ◌∙◌, false, none, some, [], ◌∷◌, ◌++◌, ◌==◌, arith, All, All-append,
  length,
}
use mcp_content_guard.Base.Bytes.{Bytes, codes, has_prefix}
use mcp_content_guard.Base.Decimal.{show, IsDigit, show-IsDigit}
use mcp_content_guard.Json.{Values, Members, string, array, object, cons, ok}
use mcp_content_guard.Cache.{hex}
use mcp_content_guard.Intercept.{Setup, stub_text}
use mcp_content_guard.Bench.Connection.{Connection, find_member}
use mcp_content_guard.Bench.Cases.{Runner, find_id, first_text, until_quote, measure, not_cached}

-- Not the letter that `seek_result(id=` starts with.
abbrev pub IsOther : ℕ → Type 0
IsOther c = (c == b's') ≡ false

find_id-cons : (c : ℕ) (s : Bytes) → IsOther c → find_id (c ∷ s) ≡ find_id s
unfolding find_id has_prefix
find_id-cons c s h = rw h refl

pub find_id-append : (p s : Bytes) → All IsOther p → find_id (p ++ s) ≡ find_id s
find_id-append [] s h = refl
find_id-append (c ∷ p) s (h, hs) = find_id-cons c (p ++ s) h ∙ find_id-append p s hs

All-IsDigit : (s : Bytes) → All IsDigit s → All IsOther s
All-IsDigit [] h = tt
All-IsDigit (c ∷ s) (h, hs) = (ground arith, All-IsDigit s hs)

hex-IsOther : (s : Bytes) → All IsOther (hex s)
unfolding hex
hex-IsOther [] = tt
hex-IsOther (b ∷ s) = (ground arith, (ground arith, hex-IsOther s))

-- The last part of a stub, and all of it behind the id.
abbrev tail : Bytes
tail = codes " bytes) " ++ (0xE2 ∷ 0x80 ∷ 0x94 ∷ codes " call seek_result to read]")

abbrev behind : Bytes → Bytes
behind content = codes " (" ++ (show (length content) ++ tail)

module _ (setup : Setup) where
  -- The verb %q on a text of letters and digits.
  abbrev pub IsQuoted : Bytes → Type 0
  IsQuoted id = setup.engines.quote id ≡ b'"' ∷ (id ++ codes "\"")

  quote-IsOther :
      (random : Bytes) → IsQuoted (hex random) → All IsOther (setup.engines.quote (hex random))
  quote-IsOther random q =
      subst (All IsOther) (sym q)
        (refl, All-append IsOther (hex random) (codes "\"") (hex-IsOther random) (refl, tt))

  find_id-stub_text :
      (random content : Bytes)
      → IsQuoted (hex random)
      → find_id (stub_text setup (hex random) content) ≡ none
  unfolding stub_text find_id has_prefix until_quote
  find_id-stub_text random content q =
      find_id-append (setup.engines.quote (hex random)) (behind content) (quote-IsOther random q)
      ∙ find_id-append (show (length content)) tail
          (All-IsDigit (show (length content)) (show-IsDigit (length content)))

-- A call result whose first content is the stub of an id that the cache gives, with that id in double
-- quotes, is measured as not cached, and no `seek_result` call is made: the pattern wants
-- `seek_result(id="`, and the stub does not hold it.
pub measure-stub_text :
    (setup : Setup) (runner : Runner) (filter : Bytes) (c : Connection) (result members : Members)
    (rest : Values) (random content : Bytes)
    → IsQuoted setup (hex random)
    → find_member (codes "content") result ≡ some (array (cons (object members) rest))
    → find_member (codes "text") members ≡ some (string (stub_text setup (hex random) content))
    → measure runner filter c result
      ≡ some (
          ok (
            not_cached runner
              (length (runner.codec.encode (find_member (codes "content") result)))))
unfolding measure first_text
measure-stub_text setup runner filter c result members rest random content q h k =
    rw (h, measure, first_text)
      (rw (k, measure) (rw (find_id-stub_text setup random content q) (rw h refl)))
