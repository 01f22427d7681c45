-- ===== src/Base/Int64.antt =====
-- Go's int64 as its bit pattern, a number below 2 ^ 64; patterns from 2 ^ 63 on are negative.
use Prim.Native.Nat.{ℕ, ◌+◌, ◌-◌, ◌%◌, ◌^◌}
use mathlib.Core.Bool.{Bool, not}
use mathlib.Core.List.{List}
use mcp_content_guard.Base.Tests.{ltb}
use mcp_content_guard.Base.Lists.{length}

abbrev pub Int64 : Type 0
Int64 = ℕ

-- The sum and the difference wrap around.
unfoldable pub add64 : Int64 → Int64 → Int64
add64 a b = (a + b) % 2 ^ 64

unfoldable pub sub64 : Int64 → Int64 → Int64
sub64 a b = (a + 2 ^ 64 - b) % 2 ^ 64

-- The signed comparison `a < b`.
unfoldable pub lt64 : Int64 → Int64 → Bool
lt64 a b = ltb ((a + 2 ^ 63) % 2 ^ 64) ((b + 2 ^ 63) % 2 ^ 64)

-- `a <= b`
unfoldable pub le64 : Int64 → Int64 → Bool
unfolding lt64
le64 a b = not (lt64 b a)

-- The conversion of a slice's length.
unfoldable pub len64 {ℓ} : {A : Type ℓ} → List A → Int64
len64 xs = length xs % 2 ^ 64
