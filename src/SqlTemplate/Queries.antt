-- ===== src/SqlTemplate/Queries.antt =====
-- What Build makes of a rendered text (internal/sqltemplate/sqltemplate.go: BuildDescribed), for postgres
-- and for mysql and sqlite.
use mathlib.Core.Path.{subst}
use cannectors.Prelude.{
  ℕ, ◌≡◌, refl, sym, ap, ◌∙◌, Bool, true, false, ◌||◌, Option, Option-cases, some, List, [], ◌∷◌,
  ◌++◌, Text, codes, if◌then◌else◌, ok, err, inl, inr,
}
use mathlib.Core.List.{append-nil, append_assoc}
use cannectors.Value.{Value}
use cannectors.SqlTemplate.Scan.{Piece, plain, placeholder, between, pieces, references}
use cannectors.SqlTemplate.Build.{
  residual_delimiter, Built, bind_question, bind, translate, nothing_built, build_described,
  has_pair,
}
use cannectors.SqlTemplate.Layout.{IsText, pieces-IsText}
use cannectors.SqlTemplate.Bindings.{
  Bound, place, numbered, shown, dollar_mark, Bound-snoc, translate-placeholder,
  translate-Translates,
}

-- The same for mysql and sqlite, where each occurrence binds an argument of its own.
abbrev Lists : (ℕ → Option Value) → List Piece → Built → Built → Type 0
Lists eval ps b b' =
    Bound eval b'.sources b'.args
    × (b'.sources ≡ b.sources ++ references ps)
    × (b'.out ≡ b.out ++ shown (λ n. codes "?") ps)

bind_question-Lists :
    (eval : ℕ → Option Value) (n : ℕ) (b b' : Built)
    → Bound eval b.sources b.args
    → bind_question n eval b ≡ ok b'
    → Lists eval (placeholder n ∷ []) b b'
unfolding bind_question
bind_question-Lists eval n b b' bound h = elim (Option-cases (eval n)) [
  | inl e ↦ absurd cc
  | inr (v, e) ↦
      let new : Built = record b {
        out = b.out ++ (63 ∷ []);
        args = b.args ++ (v ∷ []);
        sources = b.sources ++ (n ∷ []);
      } in
      let same_built : new ≡ b' = cc in
      subst (Lists eval (placeholder n ∷ []) b) same_built
        (Bound-snoc eval b.sources b.args n v bound e, refl, refl)
]

translate-Lists :
    (count : ℕ) (eval : ℕ → Option Value) (ps : List Piece) (b b' : Built)
    → Bound eval b.sources b.args
    → translate false count eval ps b ≡ ok b'
    → Lists eval ps b b'
unfolding translate bind
translate-Lists count eval [] b b' bound h =
    let e : b ≡ b' = cc in
    subst (Lists eval [] b) e (bound, sym (append-nil b.sources), sym (append-nil b.out))
translate-Lists count eval (plain c ∷ ps) b b' bound h =
    let (bound', sources_eq, out_eq) =
      translate-Lists count eval ps (record b { out = b.out ++ (c ∷ []) }) b' bound h in
    (bound', sources_eq, out_eq ∙ append_assoc b.out (c ∷ []) _)
translate-Lists count eval (placeholder n ∷ ps) b b' bound h =
    let (b1, e, rest) = translate-placeholder false count eval n ps b b' h in
    let (bound1, sources1, out1) = bind_question-Lists eval n b b1 bound e in
    let (bound', sources_eq, out_eq) = translate-Lists count eval ps b1 b' bound1 rest in
    (
      bound',
      sources_eq
          ∙ ap (λ ms. ms ++ references ps) sources1
          ∙ append_assoc b.sources (n ∷ []) (references ps),
      out_eq
          ∙ ap (λ s. s ++ shown (λ m. codes "?") ps) out1
          ∙ append_assoc b.out (codes "?") (shown (λ m. codes "?") ps),
    )

-- the parameters that a text binds, and the mark that stands for a placeholder
abbrev pub bound_parameters : Bool → List Piece → List ℕ
bound_parameters postgres ps = if postgres then numbered [] (references ps) else references ps

abbrev pub mark : Bool → List Piece → ℕ → Text
mark postgres ps n =
    if postgres then dollar_mark (place n (bound_parameters postgres ps)) else codes "?"

abbrev Describes : Bool → (ℕ → Option Value) → List Piece → Built → Type 0
Describes postgres eval ps b =
    (b.sources ≡ bound_parameters postgres ps)
    × Bound eval b.sources b.args
    × (b.out ≡ shown (mark postgres ps) ps)

translate-Describes :
    (postgres : Bool) (count : ℕ) (eval : ℕ → Option Value) (ps : List Piece) (b : Built)
    → translate postgres count eval ps nothing_built ≡ ok b
    → Describes postgres eval ps b
translate-Describes true count eval ps b h =
    let (bound, sources_eq, out_eq) =
      translate-Translates count eval ps nothing_built b
        (record { bound = tt; indexed = λ n. refl }) h in
    (sources_eq, bound, out_eq ∙ ap (λ ms. shown (λ n. dollar_mark (place n ms)) ps) sources_eq)
translate-Describes false count eval ps b h =
    let (bound, sources_eq, out_eq) = translate-Lists count eval ps nothing_built b tt h in
    (sources_eq, bound, out_eq)

built_of_rendered :
    (postgres : Bool) (count : ℕ) (eval : ℕ → Option Value) (rendered : Text) (b : Built)
    → build_described postgres count eval (some rendered) ≡ ok b
    → translate postgres count eval (pieces between rendered) nothing_built ≡ ok b
unfolding build_described
built_of_rendered postgres count eval rendered b h =
    go (has_pair 123 rendered || has_pair 125 rendered) h
  where
    go :
        (residual : Bool)
        → (if residual
            then err residual_delimiter
            else translate postgres count eval (pieces between rendered) nothing_built)
          ≡ ok b
        → translate postgres count eval (pieces between rendered) nothing_built ≡ ok b
    go true g = absurd cc
    go false g = g

-- A query that BuildDescribed gives is the rendered text, byte for byte, with a mark for each placeholder,
-- which is a dollar with all the digits after it, and nothing else changed. Its arguments are the values of
-- the parameters in `sources`: for postgres those the text refers to, each once by first appearance, and the
-- mark is `$` with the place of its own argument; for mysql and sqlite one for each occurrence, in order,
-- with the mark `?`.
pub build_described-binds :
    (postgres : Bool) (count : ℕ) (eval : ℕ → Option Value) (rendered : Text) (b : Built)
    → build_described postgres count eval (some rendered) ≡ ok b
    → let ps = pieces between rendered in
      (b.sources ≡ bound_parameters postgres ps)
      × Bound eval b.sources b.args
      × (b.out ≡ shown (mark postgres ps) ps)
      × IsText ps rendered
build_described-binds postgres count eval rendered b h =
    let (sources_eq, bound, out_eq) =
      translate-Describes postgres count eval (pieces between rendered) b
        (built_of_rendered postgres count eval rendered b h) in
    (sources_eq, bound, out_eq, pieces-IsText rendered)

-- The text of a query does not depend on the values of its parameters: two evaluations that both give
-- a query give the same text.
pub build_described-out_independent :
    (postgres : Bool) (count : ℕ) (eval eval' : ℕ → Option Value) (rendered : Text) (b b' : Built)
    → build_described postgres count eval (some rendered) ≡ ok b
    → build_described postgres count eval' (some rendered) ≡ ok b'
    → b.out ≡ b'.out
build_described-out_independent postgres count eval eval' rendered b b' h h' =
    (build_described-binds postgres count eval rendered b h).2
    ∙ sym (build_described-binds postgres count eval' rendered b' h').2
