-- ===== src/SqlTemplate/Build.antt =====
-- Compile and Build (internal/sqltemplate/sqltemplate.go).
use cannectors.Prelude.{
  ℕ, zero, suc, Bool, true, false, not, ◌&&◌, ◌||◌, Option, none, some, List, [], ◌∷◌, ◌++◌, length,
  Text, is_blank, ltb, leb, ◌==◌, if◌then◌else◌, Result, ok, err,
}
use cannectors.Prelude.Space.{trim_space}
use cannectors.Prelude.Decimal.{itoa_ℕ}
use cannectors.Value.{Value}
use cannectors.SqlTemplate.Scan.{
  Piece, plain, placeholder, between, pieces, scan_placeholders, dollar,
}

pub data SqlError : Type 0 where
  interpolates bad_template empty_expression bad_expression not_declared never_referenced : SqlError
  render_failed residual_delimiter evaluation_failed : SqlError

-- referenced[n]
abbrev pub refers_to : ℕ → List ℕ → Bool
refers_to n [] = false
refers_to n (m ∷ ns) = (m == n) || refers_to n ns

-- validatePlaceholders: the references, then the parameters 1 to `count`.
unfoldable pub within : ℕ → List ℕ → Bool
within count [] = true
within count (n ∷ ns) = leb n count && within count ns

unfoldable pub all_referenced : ℕ → List ℕ → Bool
all_referenced zero ns = true
all_referenced (suc n) ns = all_referenced n ns && refers_to (suc n) ns

unfoldable pub validate_placeholders : Text → ℕ → Option SqlError
unfolding within all_referenced scan_placeholders
validate_placeholders source count =
    let ns = scan_placeholders source in
    if not (within count ns)
    then some not_declared
    else if not (all_referenced count ns)
    then some never_referenced
    else none

-- Compile, as far as it fails: the template engine's verdicts, and for each expression whether it
-- compiles.
unfoldable pub check_expressions : (Text → Bool) → List Text → Option SqlError
unfolding trim_space
check_expressions compiles [] = none
check_expressions compiles (src ∷ srcs) =
    if is_blank (trim_space src)
    then some empty_expression
    else if not (compiles src)
    then some bad_expression
    else check_expressions compiles srcs

unfoldable pub compile :
    (Text → Bool) → (Text → Bool) → (Text → Bool) → Text → List Text → Option SqlError
unfolding check_expressions validate_placeholders
compile has_output_tag parses compiles source srcs =
    if has_output_tag source
    then some interpolates
    else if not (parses source)
    then some bad_template
    else elim (check_expressions compiles srcs) [
      | some e ↦ some e
      | none ↦ validate_placeholders source (length srcs)
    ]

-- strings.Contains(s, "{{") and the like
unfoldable pub has_pair : ℕ → Text → Bool
has_pair c [] = false
has_pair c (a ∷ []) = false
has_pair c (a ∷ b ∷ s) = ((a == c) && (b == c)) || has_pair c (b ∷ s)

-- What the loop of BuildDescribed has written, bound and, for postgres, renumbered: the places of the
-- parameters that are bound, the last one first.
pub record Built : Type 0 where
  pub out : Text
  pub args : List Value
  pub sources : List ℕ
  pub new_index : List (ℕ × ℕ)

abbrev pub index_of : ℕ → List (ℕ × ℕ) → Option ℕ
index_of n [] = none
index_of n ((m, i) ∷ is) = if m == n then some i else index_of n is

-- a placeholder for postgres: `$` and the place of its argument, which is bound if it is new
unfoldable pub bind_dollar : ℕ → Option ℕ → (ℕ → Option Value) → Built → Result SqlError Built
unfolding itoa_ℕ
bind_dollar n (some i) eval b = ok (record b { out = b.out ++ (dollar ∷ itoa_ℕ i) })
bind_dollar n none eval b = elim (eval n) [
  | none ↦ err evaluation_failed
  | some v ↦
      let i = suc (length b.args) in
      ok (record {
        out = b.out ++ (dollar ∷ itoa_ℕ i);
        args = b.args ++ (v ∷ []);
        sources = b.sources ++ (n ∷ []);
        new_index = (n, i) ∷ b.new_index;
      })
]

-- a placeholder for mysql and sqlite: `?`, with an argument for each occurrence
unfoldable pub bind_question : ℕ → (ℕ → Option Value) → Built → Result SqlError Built
bind_question n eval b = elim (eval n) [
  | none ↦ err evaluation_failed
  | some v ↦ ok (record b {
    out = b.out ++ (63 ∷ []);
    args = b.args ++ (v ∷ []);
    sources = b.sources ++ (n ∷ []);
  })
]

unfoldable pub bind : Bool → ℕ → (ℕ → Option Value) → Built → Result SqlError Built
unfolding bind_dollar bind_question
bind true n eval b = bind_dollar n (index_of n b.new_index) eval b
bind false n eval b = bind_question n eval b

-- the loop; a declared parameter is one of 1 to `count`.
unfoldable pub translate :
    Bool → ℕ → (ℕ → Option Value) → List Piece → Built → Result SqlError Built
unfolding bind
translate postgres count eval [] b = ok b
translate postgres count eval (plain c ∷ ps) b =
    translate postgres count eval ps (record b { out = b.out ++ (c ∷ []) })
translate postgres count eval (placeholder n ∷ ps) b = elim (ltb n 1 || ltb count n) [
  | true ↦ err not_declared
  | false ↦ elim (bind postgres n eval b) [
    | err e ↦ err e
    | ok b' ↦ translate postgres count eval ps b'
  ]
]

abbrev pub nothing_built : Built
nothing_built = record { out = []; args = []; sources = []; new_index = [] }

-- BuildDescribed
unfoldable pub build_described : Bool → ℕ → (ℕ → Option Value) → Option Text → Result SqlError Built
unfolding has_pair translate pieces
build_described postgres count eval none = err render_failed
build_described postgres count eval (some rendered) =
    if has_pair 123 rendered || has_pair 125 rendered
    then err residual_delimiter
    else translate postgres count eval (pieces between rendered) nothing_built
