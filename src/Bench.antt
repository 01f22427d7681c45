-- ===== src/Bench.antt =====
-- bench/run.go: the benchmark, its results, and the report of them.
--
-- A number of bytes is the length of a text, and the sum of two is no more than an int holds. The
-- padding of the columns of the report, and the headings that are printed while the cases run, are not
-- part of the model.
pub mod Connection
pub mod Cases
pub mod Order
pub mod Replies
pub mod Stubs
pub mod Seeks
pub mod Uncached
pub mod Scenarios
use mcp_content_guard.Base.{
  ℕ, ◌+◌, ◌-◌, ◌/◌, ◌^◌, Bool, true, false, not, ◌&&◌, ◌||◌, Option, none, some, List, [], ◌∷◌,
  ◌++◌, ◌==◌, ltb, leb, length, take, if◌then◌else◌,
}
use mcp_content_guard.Base.Bytes.{Bytes, codes, bytes_eq}
use mcp_content_guard.Base.Decimal.{show}
use mcp_content_guard.Base.Float.{
  tenths, show_tenths, Double, quotient, times, show_rounded, show_rounded_tenths,
}

-- A `Case` of a `Scenario`.
pub record Case : Type 0 where
  pub name : Bytes
  pub tool : Bytes
  pub arguments : Bytes
  pub filter : Bytes

-- `Result`; `err` is empty for a case that ran.
pub record Measured : Type 0 where
  pub scenario : Bytes
  pub case_name : Bytes
  pub raw_bytes : ℕ
  pub stub_bytes : ℕ
  pub filter_bytes : ℕ
  pub cached : Bool
  pub err : Bytes

unfoldable pub total_proxied : Measured → ℕ
total_proxied r = r.stub_bytes + r.filter_bytes

-- The percentage that is saved.
unfoldable pub savings : Measured → Double
unfolding total_proxied
savings r =
    let saved = if ltb r.raw_bytes (total_proxied r) then 0 else r.raw_bytes - total_proxied r in
    if not r.cached || (r.raw_bytes == 0) then 0 else times 100 (quotient saved r.raw_bytes)

unfoldable pub has_failed : Measured → Bool
has_failed r = not (bytes_eq r.err [])

-- The comparison of `printReport`.
unfoldable pub less : Measured → Measured → Bool
unfolding has_failed savings
less a b =
    if not (has_failed a) && has_failed b
    then true
    else if has_failed a && not (has_failed b)
    then false
    else if a.cached && not b.cached
    then true
    else if not a.cached && b.cached
    then false
    else ltb (savings b) (savings a)

unfoldable pub human_bytes : ℕ → Bytes
human_bytes n =
    if leb (2 ^ 20) n
    then show_tenths (tenths n (2 ^ 20)) ++ codes " MB"
    else if leb (2 ^ 10) n
    then show_tenths (tenths n (2 ^ 10)) ++ codes " KB"
    else show n ++ codes " B"

unfoldable pub human_tokens : ℕ → Bytes
human_tokens n =
    if leb 1000000 n
    then b'~' ∷ show_rounded_tenths (quotient n 1000000) ++ codes "M"
    else if leb 1000 n
    then b'~' ∷ show_rounded_tenths (quotient n 1000) ++ codes "k"
    else b'~' ∷ show n

unfoldable pub label : Measured → Bytes
label r =
    let whole = r.scenario ++ (b'/' ∷ r.case_name) in
    if ltb 37 (length whole) then take 34 whole ++ codes "..." else whole

-- The cells of a row of the report.
pub data Row : Type 0 where
  failed : Bytes → Bytes → Row
  measured : List Bytes → Row

-- An em dash in UTF-8.
abbrev pub dash : Bytes
dash = 0xE2 ∷ 0x80 ∷ 0x94 ∷ []

unfoldable pub report_row : Measured → Row
unfolding has_failed total_proxied savings
report_row r =
    if has_failed r
    then failed (label r) r.err
    else if not r.cached
    then measured
        (label r ∷ human_bytes r.raw_bytes ∷ dash ∷ dash ∷ human_bytes r.raw_bytes ∷ dash ∷ [])
    else measured (
        label r
        ∷ human_bytes r.raw_bytes
        ∷ human_bytes r.stub_bytes
        ∷ human_bytes r.filter_bytes
        ∷ human_bytes (total_proxied r)
        ∷ (show_rounded (savings r) ++ codes "%")
        ∷ [])

unfoldable pub token_row : Measured → Row
unfolding total_proxied savings
token_row r = measured (
    label r
    ∷ human_tokens (r.raw_bytes / 4)
    ∷ human_tokens (total_proxied r / 4)
    ∷ (show_rounded (savings r) ++ codes "%")
    ∷ [])

-- The rows of what ran and was cached.
unfoldable pub token_rows : List Measured → List Row
unfolding has_failed token_row
token_rows [] = []
token_rows (r ∷ rs) =
    let rest = token_rows rs in if has_failed r || not r.cached then rest else token_row r ∷ rest

unfoldable pub report_rows : List Measured → List Row
report_rows [] = []
report_rows (r ∷ rs) = report_row r ∷ report_rows rs

-- The two tables of the report, for what sort.Slice makes of a comparison and a list. Both
-- are empty without results; the program prints a line in place of them then.
unfoldable pub print_report :
    ((Measured → Measured → Bool) → List Measured → List Measured)
    → List Measured
    → List Row × List Row
print_report sort results =
    let sorted = sort less results in (report_rows sorted, token_rows sorted)
