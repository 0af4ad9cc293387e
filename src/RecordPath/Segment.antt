-- ===== src/RecordPath/Segment.antt =====
-- Path segments: strings.Split on ".", strconv.Atoi and `ParsePart` of internal/recordpath/path.go.
use cannectors.Prelude.{
  ℕ, zero, suc, ◌+◌, ◌-◌, ◌*◌, ◌^◌, ◌&&◌, ◌||◌, Option, none, some, List, [], ◌∷◌, Text, length,
  take, drop, leb, ltb, ◌==◌, if◌then◌else◌, ◌≡◌, refl, inl, inr, Bool-cases,
}
use cannectors.Prelude.Int.{ℤ, pos, negsuc}

-- strings.Index with a one-byte separator
unfoldable pub index : ℕ → Text → Option ℕ
index c [] = none
index c (d ∷ s) =
    let rest = index c s in
    if d == c then some 0 else elim rest [ none ↦ none | some i ↦ some (suc i) ]

abbrev put_first : ℕ → List Text → List Text
put_first c [] = (c ∷ []) ∷ []
put_first c (p ∷ ps) = (c ∷ p) ∷ ps

-- strings.Split(path, ".") at byte `c`; never empty
unfoldable pub split : ℕ → Text → List Text
split c [] = [] ∷ []
split c (d ∷ s) = let rest = split c s in if d == c then [] ∷ rest else put_first d rest

-- The digits of strconv.Atoi; an empty text has none.
digits : ℕ → Text → Option ℕ
digits n [] = some n
digits n (c ∷ s) =
    let rest = digits (n * 10 + (c - 48)) s in if leb 48 c && leb c 57 then rest else none

-- The largest int64, and one more.
abbrev pub max_int : ℕ
max_int = 2 ^ 63 - 1

within : ℕ → Option ℕ → Option ℕ
within bound none = none
within bound (some n) = if leb n bound then some n else none

unsigned : Text → ℕ → Option ℕ
unsigned [] bound = none
unsigned (c ∷ s) bound = within bound (digits 0 (c ∷ s))

minus : ℕ → ℤ
minus zero = pos 0
minus (suc n) = negsuc n

abbrev as_int : (ℕ → ℤ) → Option ℕ → Option ℤ
as_int f none = none
as_int f (some n) = some (f n)

-- strconv.Atoi on a 64-bit `int`: an optional sign, then decimal digits within range.
unfoldable pub atoi : Text → Option ℤ
unfolding unsigned within digits minus
atoi [] = none
atoi (c ∷ s) =
    if c == b'-'
    then as_int minus (unsigned s (max_int + 1))
    else if c == b'+'
    then as_int pos (unsigned s max_int)
    else as_int pos (unsigned (c ∷ s) max_int)

-- A segment's key and its array index, if it has one.
pub record Part : Type 0 where
  pub key : Text
  pub index_of : Option ℕ

abbrev natural : Option ℤ → Option ℕ
natural (some (pos n)) = some n
natural _ = none

-- key[i] with the bracket at `open_at`: `]` must be the last byte and the text between must be an
-- index that is not negative.
unfoldable pub bracketed : Text → ℕ → Option ℕ → Option Part
bracketed part open_at none = none
bracketed part open_at (some close_at) =
    if ltb close_at (open_at + 1)
    then none
    else if suc close_at == length part
    then elim (natural (atoi (take (close_at - (open_at + 1)) (drop (open_at + 1) part)))) [
      | none ↦ none
      | some i ↦ some (record { key = take open_at part; index_of = some i })
    ]
    else none

-- ParsePart; `none` is ErrInvalidArrayIndex.
unfoldable pub parse_part : Text → Option Part
unfolding bracketed atoi index
parse_part part = elim (index b'[' part) [
  | none ↦ some (record { key = part; index_of = none })
  | some i ↦ bracketed part i (index b']' part)
]

-- The text before the first `.` or `[`: strings.IndexAny(path, ".["), as errhandling uses it.
unfoldable pub root : Text → Text
root [] = []
root (c ∷ s) = let rest = root s in if c == b'.' || c == b'[' then [] else c ∷ rest

-- strings.Split always yields a first segment.
pub split-cons : (c : ℕ) (s : Text) → (p : Text) × (ps : List Text) × (split c s ≡ p ∷ ps)
unfolding split
split-cons c [] = ([], [], refl)
split-cons c (d ∷ s) =
    let (p, ps, e) = split-cons c s in
    elim (Bool-cases (d == c)) [
      | inl stop ↦ ([], p ∷ ps, rw (stop, e))
      | inr go_on ↦ (d ∷ p, ps, rw (go_on, e))
    ]
