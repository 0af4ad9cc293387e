-- ===== src/Prelude/Space.antt =====
-- Go's strings.TrimSpace on UTF-8 text: Unicode white space at both ends.
use Prim.Native.Nat.{ℕ, zero, suc}
use mathlib.Core.Bool.{Bool, ◌&&◌, ◌||◌}
use mathlib.Core.List.{[], ◌∷◌}
use cannectors.Prelude.Tests.{leb, ◌==◌, if◌then◌else◌}
use cannectors.Prelude.Texts.{Text, is_blank}

-- the white space of one byte: tab to carriage return, and the blank
abbrev pub is_space : ℕ → Bool
is_space c = (leb 9 c && leb c 13) || c == 32

-- white space of two bytes: U+0085 and U+00A0
abbrev pub is_space_2 : ℕ → ℕ → Bool
is_space_2 c d = c == 194 && (d == 133 || d == 160)

-- white space of three bytes: U+1680, U+2000 to U+200A, U+2028, U+2029, U+202F, U+205F, U+3000
abbrev pub is_space_3 : ℕ → ℕ → ℕ → Bool
is_space_3 c d e =
    c == 225 && d == 154 && e == 128
    || c == 226 && d == 128 && (leb 128 e && leb e 138 || e == 168 || e == 169 || e == 175)
    || c == 226 && d == 129 && e == 159
    || c == 227 && d == 128 && e == 128

-- the number of bytes of the white space that a text starts with
unfoldable pub space_width : Text → ℕ
space_width [] = 0
space_width (c ∷ []) = if is_space c then 1 else 0
space_width (c ∷ d ∷ []) = if is_space c then 1 else if is_space_2 c d then 2 else 0
space_width (c ∷ d ∷ e ∷ s) =
    if is_space c then 1 else if is_space_2 c d then 2 else if is_space_3 c d e then 3 else 0

-- The text without white space at its start; `n` bytes of it are still to be left out.
unfoldable pub trim_left : ℕ → Text → Text
unfolding space_width
trim_left n [] = []
trim_left (suc n) (c ∷ s) = trim_left n s
trim_left zero (c ∷ s) = elim (space_width (c ∷ s)) [ zero ↦ c ∷ s | suc n ↦ trim_left n s ]

-- The text without white space at its end: it ends where only white space is left.
unfoldable pub trim_right : Text → Text
unfolding trim_left
trim_right [] = []
trim_right (c ∷ s) =
    let rest = trim_right s in if is_blank (trim_left 0 (c ∷ s)) then [] else c ∷ rest

unfoldable pub trim_space : Text → Text
unfolding trim_right trim_left
trim_space s = trim_right (trim_left 0 s)
