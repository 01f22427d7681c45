-- ===== src/Base/Float.antt =====
-- float64 of an integer, and the verb %f with few decimals.
use Prim.Native.Nat.{ℕ, zero, suc, ◌+◌, ◌*◌, ◌/◌, ◌%◌, ◌^◌, ◌<◌}
use mathlib.Core.Path.{◌≡◌}
use mathlib.Core.Bool.{true}
use mathlib.Core.List.{◌∷◌, ◌++◌}
use native.Mathlib.Omega.{arith}
use mcp_content_guard.Base.Tests.{ltb, if◌then◌else◌}
use mcp_content_guard.Base.Bytes.{Bytes}
use mcp_content_guard.Base.Decimal.{show}

-- `n` units of one over `unit` as a whole number of them, to nearest, and a tie to the even one.
unfoldable pub nearest : ℕ → ℕ → ℕ
nearest n unit =
    let down = n / unit in
    let over = n % unit in
    if ltb (2 * over) unit then down else if ltb unit (2 * over) then suc down else down + down % 2

-- A conversion to float64 keeps 53 bits. An int64 needs at most 11 rounds.
unfoldable pub float_of : ℕ → ℕ → ℕ → ℕ
unfolding nearest
float_of zero unit n = n
float_of (suc fuel) unit n =
    let coarser = float_of fuel (2 * unit) n in
    if ltb n (2 ^ 53 * unit) then nearest n unit * unit else coarser

unfoldable pub float64 : ℕ → ℕ
unfolding float_of
float64 n = float_of 12 1 n

-- The verb %.1f on a float64 over a power of two: the quotient is exact, its decimals are rounded.
unfoldable pub tenths : ℕ → ℕ → ℕ
unfolding nearest float64
tenths n power = nearest (10 * float64 n) power

unfoldable pub show_tenths : ℕ → Bytes
show_tenths t = show (t / 10) ++ (b'.' ∷ show (t % 10))

nearest_one : (n : ℕ) → nearest n 1 ≡ n
unfolding nearest
nearest_one n = ground arith

float_of_small : (fuel n : ℕ) → ltb n (2 ^ 53 * 1) ≡ true → float_of (suc fuel) 1 n ≡ n
unfolding float_of
float_of_small fuel n h = rw h (rw (nearest_one n) (omega arith))

pub float64_exact : (n : ℕ) → n < 2 ^ 53 → float64 n ≡ n
unfolding float64
float64_exact n h = float_of_small 11 n (ground arith)

-- A float64 that is not negative, as a multiple of 2 ^ -120: exact for zero, and from 2 ^ -67 on,
-- where 53 bits of a number end before the last of these.
abbrev pub Double : Type 0
Double = ℕ

-- The float64 nearest to `n` over `d`, in these multiples.
round_ratio : ℕ → ℕ → ℕ → ℕ → Double
unfolding nearest
round_ratio zero unit n d = nearest n d
round_ratio (suc fuel) unit n d =
    let coarser = round_ratio fuel (2 * unit) n d in
    if ltb n (2 ^ 53 * unit * d) then nearest n (unit * d) * unit else coarser

-- The quotient of two float64 values of integers, below 2 ^ 64 and from 2 ^ -64 on.
unfoldable pub quotient : ℕ → ℕ → Double
unfolding round_ratio float64
quotient n d = round_ratio 140 1 (float64 n * 2 ^ 120) (float64 d)

unfoldable pub times : ℕ → Double → Double
unfolding round_ratio
times n x = round_ratio 140 1 (n * x) 1

-- The verbs %.0f and %.1f.
unfoldable pub show_rounded : Double → Bytes
unfolding nearest
show_rounded x = show (nearest x (2 ^ 120))

unfoldable pub show_rounded_tenths : Double → Bytes
unfolding nearest show_tenths
show_rounded_tenths x = show_tenths (nearest (10 * x) (2 ^ 120))
