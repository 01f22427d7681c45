-- ===== src/Base/Decimal.antt =====
-- The verb %d on a number that is not negative, and strconv.Atoi.
use Prim.Native.Nat.{ℕ, zero, suc, ◌+◌, ◌-◌, ◌*◌, ◌/◌, ◌%◌, ◌^◌, ◌≤◌, ◌<◌}
use mathlib.Core.Bool.{Bool, false, ◌&&◌}
use mathlib.Core.Path.{◌≡◌, refl}
use mathlib.Core.List.{[], ◌∷◌}
use mathlib.Core.Logic.{◌≢◌}
use mathlib.Core.Option.{Option, none, some}
use native.Mathlib.Omega.{arith}
use mcp_content_guard.Base.Tests.{◌==◌, ltb, leb, if◌then◌else◌}
use mcp_content_guard.Base.Bytes.{Bytes}
use mcp_content_guard.Base.Int64.{Int64, lt64}
use mcp_content_guard.Base.Lists.{All}

-- The digits of `n` in front of `out`.
emit : ℕ → ℕ → Bytes → Bytes
emit zero n out = (b'0' + n % 10) ∷ out
emit (suc fuel) n out =
    let rest = emit fuel (n / 10) ((b'0' + n % 10) ∷ out) in
    if ltb n 10 then (b'0' + n) ∷ out else rest

-- The number of digits of `n` is at most `n + 1`.
unfoldable pub show : ℕ → Bytes
unfolding emit
show n = emit n n []

-- The verb %d on an int64.
unfoldable pub show64 : Int64 → Bytes
show64 n = if lt64 n 0 then b'-' ∷ show (2 ^ 64 - n) else show n

is_digit : ℕ → Bool
is_digit c = leb b'0' c && leb c b'9'

scan : ℕ → Bytes → Option ℕ
unfolding is_digit
scan n [] = some n
scan n (c ∷ s) = if is_digit c then scan (n * 10 + (c - b'0')) s else none

-- The digits after a sign: one or more, and within the bound.
magnitude : ℕ → Bytes → Option ℕ
unfolding scan
magnitude bound [] = none
magnitude bound (c ∷ s) = elim (scan 0 (c ∷ s)) [
  | none ↦ none
  | some n ↦ if leb n bound then some n else none
]

-- strconv.Atoi, `none` for each of its errors
unfoldable pub atoi : Bytes → Option Int64
unfolding magnitude
atoi [] = none
atoi (c ∷ s) =
    if c == b'-'
    then (elim (magnitude (2 ^ 63) s) [ none ↦ none | some n ↦ some ((2 ^ 64 - n) % 2 ^ 64) ])
    else if c == b'+'
    then magnitude (2 ^ 63 - 1) s
    else magnitude (2 ^ 63 - 1) (c ∷ s)

abbrev pub IsDigit : ℕ → Type 0
IsDigit c = (b'0' ≤ c) × (c ≤ b'9')

scan-emit : (fuel n : ℕ) (out : Bytes) → n ≤ fuel → scan 0 (emit fuel n out) ≡ scan n out
unfolding scan emit
scan-emit zero n out h = ground arith
scan-emit (suc fuel) n out h = ground (arith, scan-emit fuel (n / 10) ((b'0' + n % 10) ∷ out))

emit-IsDigit : (fuel n : ℕ) (out : Bytes) → All IsDigit out → All IsDigit (emit fuel n out)
unfolding emit
emit-IsDigit zero n out h = (omega arith, h)
emit-IsDigit (suc fuel) n out h = ground (arith, emit-IsDigit fuel (n / 10) ((b'0' + n % 10) ∷ out))

-- The text of a number holds digits only.
pub show-IsDigit : (n : ℕ) → All IsDigit (show n)
unfolding show
show-IsDigit n = emit-IsDigit n n [] tt

emit-ne-nil : (fuel n : ℕ) (out : Bytes) → emit fuel n out ≢ []
unfolding emit
emit-ne-nil zero n out h = cc
emit-ne-nil (suc fuel) n out h = ground (arith, emit-ne-nil fuel (n / 10) ((b'0' + n % 10) ∷ out))

pub show-ne-nil : (n : ℕ) → show n ≢ []
unfolding show
show-ne-nil n = emit-ne-nil n n []

atoi_digits :
    (s : Bytes) (n : ℕ) → s ≢ [] → All IsDigit s → scan 0 s ≡ some n → n < 2 ^ 63 → atoi s ≡ some n
unfolding atoi
atoi_digits [] n e d h fits = absurd (e refl)
atoi_digits (c ∷ s) n e d h fits =
    let sign : ((c == b'-') ≡ false) × ((c == b'+') ≡ false) = (ground arith, ground arith) in
    rw (sign.0, sign.1, h, magnitude) (ground arith)

-- `Atoi` reads back what `%d` writes, for every int64 that is not negative.
pub atoi-show : (n : ℕ) → n < 2 ^ 63 → atoi (show n) ≡ some n
atoi-show n fits =
    atoi_digits (show n) n (show-ne-nil n) (show-IsDigit n)
      (unfold show scan in scan-emit n n [] (omega arith)) fits
