-- ===== src/Proxy/Lines.antt =====
-- The lines that the handlers get: none is empty, and none holds a line feed, so that a line feed
-- behind each line keeps them apart.
use mathlib.Core.List.{reverse, reverse-append, reverse-reverse}
use mcp_content_guard.Base.{
  ℕ, Bool, ◌++◌, arith, subst, sym, ◌≡◌, refl, ◌∙◌, ap, true, false, ◌||◌, [], ◌∷◌, ◌==◌, inl, inr,
  Bool-cases, All, All-append,
}
use mcp_content_guard.Base.Bytes.{Bytes, bytes_eq}
use mcp_content_guard.Base.Space.{drop_newlines, trim_newlines}
use mcp_content_guard.Proxy.{read_lines}

abbrev pub LacksNewline : Bytes → Type 0
LacksNewline = All (λ c. (c == 10) ≡ false)

-- Whether a line ends in a byte.
unfoldable pub ends_in : ℕ → Bytes → Bool
ends_in d [] = false
ends_in d (c ∷ []) = c == d
ends_in d (c ∷ e ∷ s) = ends_in d (e ∷ s)

abbrev pub IsLine : Bytes → Type 0
IsLine line = (bytes_eq line [] ≡ false) × LacksNewline line × (ends_in 13 line ≡ false)

All-reverse : (s : Bytes) → LacksNewline s → LacksNewline (reverse s)
All-reverse [] h = h
All-reverse (c ∷ s) h =
    rw (reverse-append (c ∷ []) s)
      (All-append (λ c. (c == 10) ≡ false) (reverse s) (c ∷ []) (All-reverse s h.1) (h.0, tt))

drop_newlines-lacks : (s : Bytes) → LacksNewline s → LacksNewline (drop_newlines s)
unfolding drop_newlines
drop_newlines-lacks [] h = h
drop_newlines-lacks (c ∷ s) h = elim (Bool-cases ((c == 10) || (c == 13))) [
  | inl drop ↦ rw drop (drop_newlines-lacks s h.1)
  | inr keep ↦ rw keep h
]

pub trim_newlines-reverse : (s : Bytes) → trim_newlines (reverse s) ≡ reverse (drop_newlines s)
unfolding trim_newlines
trim_newlines-reverse s = ap (λ t. reverse (drop_newlines t)) (reverse-reverse s)

ends_in-append : (d c : ℕ) (s : Bytes) → ends_in d (s ++ (c ∷ [])) ≡ (c == d)
unfolding ends_in
ends_in-append d c [] = refl
ends_in-append d c (e ∷ []) = refl
ends_in-append d c (e ∷ f ∷ s) = ends_in-append d c (f ∷ s)

ends_in-reverse : (d c : ℕ) (s : Bytes) → ends_in d (reverse (c ∷ s)) ≡ (c == d)
ends_in-reverse d c s = rw (reverse-append (c ∷ []) s) (ends_in-append d c (reverse s))

dropped_ends : (s : Bytes) → ends_in 13 (reverse (drop_newlines s)) ≡ false
unfolding drop_newlines
dropped_ends [] = unfold ends_in in refl
dropped_ends (c ∷ s) = elim (Bool-cases ((c == 10) || (c == 13))) [
  | inl drop ↦ rw drop (dropped_ends s)
  | inr keep ↦ rw keep (ends_in-reverse 13 c s ∙ ground arith)
]

trimmed_ends : (s : Bytes) → ends_in 13 (trim_newlines s) ≡ false
unfolding trim_newlines
trimmed_ends s = dropped_ends (reverse s)

-- Without line feeds and without a carriage return at its end, nothing is trimmed.
reversed_same :
    (t : Bytes) → LacksNewline (reverse t) → ends_in 13 (reverse t) ≡ false → drop_newlines t ≡ t
unfolding drop_newlines
reversed_same [] lacks ends = refl
reversed_same (c ∷ s) lacks ends =
    let whole =
      subst LacksNewline (reverse-reverse (c ∷ s)) (All-reverse (reverse (c ∷ s)) lacks) in
    let last = sym (ends_in-reverse 13 c s) ∙ ends in rw (whole.0) (rw last refl)

pub trim_newlines-same :
    (line : Bytes) → LacksNewline line → ends_in 13 line ≡ false → trim_newlines line ≡ line
unfolding trim_newlines
trim_newlines-same line lacks ends =
    let back = sym (reverse-reverse line) in
    ap reverse (
      reversed_same (reverse line) (subst LacksNewline back lacks)
        (ap (ends_in 13) (reverse-reverse line) ∙ ends))
    ∙ reverse-reverse line

trimmed-lacks : (s : Bytes) → LacksNewline s → LacksNewline (trim_newlines (reverse s))
trimmed-lacks s h =
    rw (trim_newlines-reverse s) (All-reverse (drop_newlines s) (drop_newlines-lacks s h))

ended-lacks :
    (c : _) (s : Bytes)
    → (c == 10) ≡ true
    → LacksNewline s
    → LacksNewline (trim_newlines (reverse (c ∷ s)))
ended-lacks c s e h =
    rw (trim_newlines-reverse (c ∷ s))
      (All-reverse (drop_newlines (c ∷ s)) (unfold drop_newlines in rw e (drop_newlines-lacks s h)))

-- Whatever the bytes of an input, every line that its handler gets is not empty, holds no line
-- feed and does not end in a carriage return, if the part of a line that was read before holds no
-- line feed.
pub read_lines-IsLine :
    (input current : Bytes) → LacksNewline current → All IsLine (read_lines current input)
unfolding read_lines
read_lines-IsLine [] current h = elim (Bool-cases (bytes_eq (trim_newlines (reverse current)) [])) [
  | inl empty ↦ rw empty tt
  | inr full ↦ rw full ((full, trimmed-lacks current h, trimmed_ends (reverse current)), tt)
]
read_lines-IsLine (c ∷ input) current h = elim (Bool-cases (c == 10)) [
  | inr more ↦ rw more (read_lines-IsLine input (c ∷ current) (more, h))
  | inl end ↦ rw end (elim (Bool-cases (bytes_eq (trim_newlines (reverse (c ∷ current))) [])) [
    | inl empty ↦ rw empty (read_lines-IsLine input [] tt)
    | inr full ↦ rw full (
      (full, ended-lacks c current end h, trimmed_ends (reverse (c ∷ current))),
      read_lines-IsLine input [] tt,
    )
  ])
]
