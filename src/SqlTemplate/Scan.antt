-- ===== src/SqlTemplate/Scan.antt =====
-- The placeholders of an SQL text (internal/sqltemplate/sqltemplate.go: sqlToken, scanPlaceholders). The
-- regular expression is tried from left to right, its alternatives in order, as Go's regexp does.
use cannectors.Prelude.{
  ℕ, zero, suc, ◌+◌, ◌-◌, ◌*◌, Bool, true, false, ◌&&◌, Option, none, some, List, [], ◌∷◌, Text,
  leb, ◌==◌, if◌then◌else◌,
}

abbrev pub quote : ℕ
quote = 39

abbrev pub dollar : ℕ
dollar = 36

abbrev pub plus : ℕ → Option ℕ → Option ℕ
plus n none = none
plus n (some m) = some (n + m)

-- `(?:[^']|'')*'`: the length up to a quote that no other follows, or up to the last quote that a pair
-- has, where the text ends before.
unfoldable pub literal_rest : Text → Option ℕ
literal_rest [] = none
literal_rest (c ∷ []) = if c == quote then some 1 else none
literal_rest (c ∷ d ∷ s) = elim (c == quote) [
  | true ↦ elim (d == quote) [
    | true ↦ elim (literal_rest s) [ none ↦ some 1 | some n ↦ some (n + 2) ]
    | false ↦ some 1
  ]
  | false ↦ plus 1 (literal_rest (d ∷ s))
]

-- `[^\n]*`
unfoldable pub line_rest : Text → ℕ
line_rest [] = 0
line_rest (c ∷ s) = let rest = line_rest s in if c == 10 then 0 else suc rest

-- `.*?` and the two bytes that end it
unfoldable pub rest_until : ℕ → ℕ → Text → Option ℕ
rest_until a b [] = none
rest_until a b (c ∷ []) = none
rest_until a b (c ∷ d ∷ s) =
    let rest = rest_until a b (d ∷ s) in if (c == a) && (d == b) then some 2 else plus 1 rest

-- `\d+`, and the number that digits read as; strconv.Atoi stops at the largest int, above every
-- number of parameters.
abbrev pub is_digit : ℕ → Bool
is_digit c = leb 48 c && leb c 57

unfoldable pub digits : Text → ℕ
digits [] = 0
digits (c ∷ s) = let rest = digits s in if is_digit c then suc rest else 0

unfoldable pub number : ℕ → ℕ → Text → ℕ
number zero n s = n
number (suc k) n [] = n
number (suc k) n (c ∷ s) = number k (n * 10 + (c - 48)) s

-- A match of sqlToken: a region of so many bytes in which no placeholder stands, or a placeholder.
pub data Token : Type 0 where
  region : ℕ → Token
  reference : ℕ → ℕ → Token

abbrev pub region_after : ℕ → Option ℕ → Option Token
region_after n none = none
region_after n (some m) = some (region (n + m))

unfoldable pub reference_at : Text → Option Token
unfolding digits number
reference_at s = elim (digits s) [
  | zero ↦ none
  | suc k ↦ some (reference (number (suc k) 0 s) (suc (suc k)))
]

-- the match of sqlToken that starts here
unfoldable pub token_at : Text → Option Token
unfolding literal_rest line_rest rest_until reference_at
token_at [] = none
token_at (c ∷ []) = none
token_at (c ∷ d ∷ s) =
    if c == quote
    then region_after 1 (literal_rest (d ∷ s))
    else if (c == 45) && (d == 45)
    then some (region (2 + line_rest s))
    else if (c == 47) && (d == 42)
    then region_after 2 (rest_until 42 47 s)
    else if (c == dollar) && (d == dollar)
    then region_after 2 (rest_until dollar dollar s)
    else if c == dollar
    then reference_at (d ∷ s)
    else none

-- The text as bytes that stay and placeholders. `inside` of a match so many bytes are left, which stay
-- or go.
pub data Piece : Type 0 where
  plain : ℕ → Piece
  placeholder : ℕ → Piece

pub data Place : Type 0 where
  between : Place
  kept : ℕ → Place
  dropped : ℕ → Place

unfoldable pub pieces : Place → Text → List Piece
unfolding token_at
pieces p [] = []
pieces (kept (suc n)) (c ∷ s) = plain c ∷ pieces (kept n) s
pieces (dropped (suc n)) (c ∷ s) = pieces (dropped n) s
pieces p (c ∷ s) = elim (token_at (c ∷ s)) [
  | none ↦ plain c ∷ pieces between s
  | some (region n) ↦ plain c ∷ pieces (kept (n - 1)) s
  | some (reference k n) ↦ placeholder k ∷ pieces (dropped (n - 1)) s
]

-- scanPlaceholders: their numbers, in order
abbrev pub references : List Piece → List ℕ
references [] = []
references (plain c ∷ ps) = references ps
references (placeholder n ∷ ps) = n ∷ references ps

unfoldable pub scan_placeholders : Text → List ℕ
unfolding pieces
scan_placeholders s = references (pieces between s)
