-- ===== src/Stats/Report/Rounding.antt =====
-- How far a printed size is from the size.
use mcp_content_guard.Base.{
  ℕ, ◌+◌, ◌*◌, ◌^◌, ◌≤◌, ◌<◌, ◌≡◌, ◌⊎◌, sym, ap, subst, ◌++◌, ltb, arith, inl, inr, Bool-cases,
}
use mcp_content_guard.Base.Bytes.{codes}
use mcp_content_guard.Base.Int64.{lt64, le64}
use mcp_content_guard.Base.Decimal.{show, show64}
use mcp_content_guard.Base.Float.{nearest, float64_exact, tenths, show_tenths}
use mcp_content_guard.Stats.Report.{format_bytes}

-- `t` tenths of `unit` are `n`, up to half of a tenth.
abbrev pub IsClose : ℕ → ℕ → ℕ → Type 0
IsClose n unit t = (2 * (t * unit) ≤ 20 * n + unit) × (20 * n ≤ 2 * (t * unit) + unit)

tenths-IsClose_mb : (n : ℕ) → IsClose n (2 ^ 20) (nearest (10 * n) (2 ^ 20))
unfolding nearest
tenths-IsClose_mb n = (ground arith, ground arith)

tenths-IsClose_kb : (n : ℕ) → IsClose n (2 ^ 10) (nearest (10 * n) (2 ^ 10))
unfolding nearest
tenths-IsClose_kb n = (ground arith, ground arith)

tenths_exact : (n unit : ℕ) → n < 2 ^ 53 → tenths n unit ≡ nearest (10 * n) unit
unfolding tenths
tenths_exact n unit h = ap (λ m. nearest (10 * m) unit) (float64_exact n h)

-- A size below 2 ^ 53 is printed as it is below 2 ^ 10, and else in tenths of KB or of MB that are
-- off by at most half a tenth.
pub format_bytes-IsClose :
    (n : ℕ)
    → n < 2 ^ 53
    → ((n < 2 ^ 10) × (format_bytes n ≡ show n ++ codes " B"))
      ⊎ ((2 ^ 10 ≤ n)
          × (n < 2 ^ 20)
          × (t : ℕ) × IsClose n (2 ^ 10) t
          × (format_bytes n ≡ show_tenths t ++ codes " KB"))
      ⊎ ((2 ^ 20 ≤ n)
          × (t : ℕ) × IsClose n (2 ^ 20) t
          × (format_bytes n ≡ show_tenths t ++ codes " MB"))
unfolding format_bytes show64 lt64 le64
format_bytes-IsClose n h = elim (Bool-cases (ltb n (2 ^ 10))) [
  | inl small ↦ inl (ground arith, ground arith)
  | inr big ↦ elim (Bool-cases (ltb n (2 ^ 20))) [
    | inl middle ↦ inr (
        inl (
          ground arith,
          ground arith,
          tenths n (2 ^ 10),
          subst (IsClose n (2 ^ 10)) (sym (tenths_exact n (2 ^ 10) h)) (tenths-IsClose_kb n),
          ground arith,
        ))
    | inr large ↦ inr (
        inr (
          ground arith,
          tenths n (2 ^ 20),
          subst (IsClose n (2 ^ 20)) (sym (tenths_exact n (2 ^ 20) h)) (tenths-IsClose_mb n),
          ground arith,
        ))
  ]
]
