-- ===== src/Tests/Queries.antt =====
-- Queries with placeholders (internal/sqltemplate/sqltemplate.go).
use cannectors.Prelude.{
  ℕ, ◌≡◌, ◌≤◌, ◌↔◌, refl, Option, none, some, List, [], ◌∷◌, Text, codes, true, ok, ◌==◌,
  if◌then◌else◌,
}
use cannectors.Value.{Value, text, null}
use cannectors.SqlTemplate.Scan.{between, pieces, scan_placeholders}
use cannectors.SqlTemplate.Build.{
  Built, never_referenced, refers_to, validate_placeholders, build_described,
}
use cannectors.SqlTemplate.Bindings.{Bound, shown}
use cannectors.SqlTemplate.Layout.{IsText}
use cannectors.SqlTemplate.Queries.{
  bound_parameters, mark, build_described-binds, build_described-out_independent,
}
use cannectors.SqlTemplate.Validated.{validate_placeholders_iff}

-- the second placeholder is in a string, the comment has one more
abbrev query : Text
query = codes "a=$2 b='$1' c=$1 d=$2 -- $9"

abbrev values : ℕ → Option Value
values n = if n == 1 then some (text (codes "x")) else some null

abbrev nulls : ℕ → Option Value
nulls n = some null

scanned : scan_placeholders query ≡ (2 ∷ 1 ∷ 2 ∷ [])
unfolding scan_placeholders
scanned = refl

quoted : scan_placeholders (codes "'it''s $1' $$ $2 $$ /* $3 */ $4 'open $5") ≡ (4 ∷ 5 ∷ [])
unfolding scan_placeholders
quoted = refl

abbrev for_postgres : List Value → Built
for_postgres vs = record {
  out = codes "a=$1 b='$1' c=$2 d=$1 -- $9";
  args = vs;
  sources = 2 ∷ 1 ∷ [];
  new_index = (1, 2) ∷ (2, 1) ∷ [];
}

abbrev with_values : Built
with_values = for_postgres (null ∷ text (codes "x") ∷ [])

abbrev with_nulls : Built
with_nulls = for_postgres (null ∷ null ∷ [])

built : build_described true 2 values (some query) ≡ ok with_values
unfolding build_described
built = refl

missing : validate_placeholders (codes "a=$1") 2 ≡ some never_referenced
unfolding validate_placeholders
missing = refl

-- a reference to 0 is accepted, and no query can be built from it
zero_accepted : validate_placeholders (codes "a=$0 b=$1") 1 ≡ none
unfolding validate_placeholders
zero_accepted = refl

build_described-binds_example :
    let ps = pieces between query in
    (with_values.sources ≡ bound_parameters true ps)
    × Bound values with_values.sources with_values.args
    × (with_values.out ≡ shown (mark true ps) ps)
    × IsText ps query
unfolding build_described
build_described-binds_example = build_described-binds true 2 values query with_values refl

build_described-out_independent_example : with_values.out ≡ with_nulls.out
unfolding build_described
build_described-out_independent_example =
    build_described-out_independent true 2 values nulls query with_values with_nulls refl refl

validate_placeholders_iff_example : (validate_placeholders query 2 ≡ none) ↔ (
    ((n : ℕ) → refers_to n (scan_placeholders query) ≡ true → n ≤ 2)
    × ((n : ℕ) → 1 ≤ n → n ≤ 2 → refers_to n (scan_placeholders query) ≡ true))
validate_placeholders_iff_example = validate_placeholders_iff query 2
