-- ===== src/Base/Space.antt =====
-- strings.TrimSpace and bytes.TrimRight. The white space of Unicode is met by its UTF-8 bytes.
use Prim.Native.Nat.{ℕ}
use mathlib.Core.Bool.{Bool, true, false, ◌&&◌, ◌||◌}
use mathlib.Core.Path.{◌≡◌, refl, sym, ap, ◌∙◌}
use mathlib.Core.List.{[], ◌∷◌, ◌++◌, reverse, reverse-append, reverse-reverse}
use native.Mathlib.Omega.{arith}
use mcp_content_guard.Base.Tests.{◌==◌, leb, if◌then◌else◌}
use mcp_content_guard.Base.Bytes.{Bytes}
use mcp_content_guard.Base.Lists.{All, All-append}

-- \t \n \v \f \r and the blank
unfoldable pub is_space : ℕ → Bool
is_space c = (leb 9 c && leb c 13) || (c == 32)

-- U+0085, U+00A0
unfoldable pub is_space2 : ℕ → ℕ → Bool
is_space2 a b = (a == 0xC2) && ((b == 0x85) || (b == 0xA0))

-- U+1680, U+2000 to U+200A, U+2028, U+2029, U+202F, U+205F, U+3000
unfoldable pub is_space3 : ℕ → ℕ → ℕ → Bool
is_space3 a b c =
    ((a == 0xE1) && (b == 0x9A) && (c == 0x80))
    || ((a == 0xE2)
        && (b == 0x80)
        && ((leb 0x80 c && leb c 0x8A) || (c == 0xA8) || (c == 0xA9) || (c == 0xAF)))
    || ((a == 0xE2) && (b == 0x81) && (c == 0x9F))
    || ((a == 0xE3) && (b == 0x80) && (c == 0x80))

-- White space dropped at the front.
unfoldable pub trim_left : Bytes → Bytes
unfolding is_space is_space2 is_space3
trim_left [] = []
trim_left (a ∷ []) = if is_space a then [] else a ∷ []
trim_left (a ∷ b ∷ []) =
    let rest = trim_left (b ∷ []) in
    if is_space a then rest else if is_space2 a b then [] else a ∷ b ∷ []
trim_left (a ∷ b ∷ c ∷ s) =
    let rest1 = trim_left (b ∷ c ∷ s) in
    let rest2 = trim_left (c ∷ s) in
    let rest3 = trim_left s in
    if is_space a
    then rest1
    else if is_space2 a b
    then rest2
    else if is_space3 a b c
    then rest3
    else a ∷ b ∷ c ∷ s

-- The same on a reversed text.
unfoldable pub trim_reversed : Bytes → Bytes
unfolding is_space is_space2 is_space3
trim_reversed [] = []
trim_reversed (a ∷ []) = if is_space a then [] else a ∷ []
trim_reversed (a ∷ b ∷ []) =
    let rest = trim_reversed (b ∷ []) in
    if is_space a then rest else if is_space2 b a then [] else a ∷ b ∷ []
trim_reversed (a ∷ b ∷ c ∷ s) =
    let rest1 = trim_reversed (b ∷ c ∷ s) in
    let rest2 = trim_reversed (c ∷ s) in
    let rest3 = trim_reversed s in
    if is_space a
    then rest1
    else if is_space2 b a
    then rest2
    else if is_space3 c b a
    then rest3
    else a ∷ b ∷ c ∷ s

-- strings.TrimSpace
unfoldable pub trim_space : Bytes → Bytes
unfolding trim_left trim_reversed
trim_space s = reverse (trim_reversed (reverse (trim_left s)))

-- ASCII that is no white space.
abbrev pub IsInk : ℕ → Type 0
IsInk c = (is_space c ≡ false) × (leb c 127 ≡ true)

trim_left_ink : (c : ℕ) (s : Bytes) → IsInk c → trim_left (c ∷ s) ≡ c ∷ s
unfolding trim_left
trim_left_ink c [] h = ground arith
trim_left_ink c (b ∷ []) h = ground arith
trim_left_ink c (b ∷ d ∷ s) h = ground arith

trim_reversed_ink : (c : ℕ) (s : Bytes) → IsInk c → trim_reversed (c ∷ s) ≡ c ∷ s
unfolding trim_reversed
trim_reversed_ink c [] h = ground arith
trim_reversed_ink c (b ∷ []) h = ground arith
trim_reversed_ink c (b ∷ d ∷ s) h = ground arith

-- A text between two bytes of ink is left as it is.
pub trim_space_ink :
    (c d : ℕ) (s : Bytes) → IsInk c → IsInk d → trim_space (c ∷ s ++ d ∷ []) ≡ c ∷ s ++ d ∷ []
unfolding trim_space
trim_space_ink c d s hc hd =
    let r : reverse (c ∷ s ++ d ∷ []) ≡ d ∷ reverse (c ∷ s) = reverse-append (c ∷ s) (d ∷ []) in
    ap (λ t. reverse (trim_reversed (reverse t))) (trim_left_ink c (s ++ d ∷ []) hc)
    ∙ ap (λ t. reverse (trim_reversed t)) r
    ∙ ap reverse (trim_reversed_ink d (reverse (c ∷ s)) hd ∙ sym r)
    ∙ reverse-reverse (c ∷ s ++ d ∷ [])

All-reverse : (s : Bytes) → All IsInk s → All IsInk (reverse s)
All-reverse [] h = h
All-reverse (c ∷ s) h =
    rw (reverse-append (c ∷ []) s)
      (All-append IsInk (reverse s) (c ∷ []) (All-reverse s h.1) (h.0, tt))

trim_reversed-All : (s : Bytes) → All IsInk s → trim_reversed s ≡ s
trim_reversed-All [] h = unfold trim_reversed in refl
trim_reversed-All (c ∷ s) h = trim_reversed_ink c s h.0

trim_left-All : (s : Bytes) → All IsInk s → trim_left s ≡ s
trim_left-All [] h = unfold trim_left in refl
trim_left-All (c ∷ s) h = trim_left_ink c s h.0

-- So is a text of ink alone.
pub trim_space-All : (s : Bytes) → All IsInk s → trim_space s ≡ s
unfolding trim_space
trim_space-All s h =
    ap (λ t. reverse (trim_reversed (reverse t))) (trim_left-All s h)
    ∙ ap reverse (trim_reversed-All (reverse s) (All-reverse s h))
    ∙ reverse-reverse s

-- bytes.TrimRight(line, "\r\n"), on a reversed line
unfoldable pub drop_newlines : Bytes → Bytes
drop_newlines [] = []
drop_newlines (c ∷ s) = let rest = drop_newlines s in if (c == 10) || (c == 13) then rest else c ∷ s

unfoldable pub trim_newlines : Bytes → Bytes
unfolding drop_newlines
trim_newlines s = reverse (drop_newlines (reverse s))
