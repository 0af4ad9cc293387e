-- ===== src/SqlTemplate/Bindings.antt =====
-- What a built query binds (internal/sqltemplate/sqltemplate.go: BuildDescribed): an independent description
-- of its text, its arguments and their order.
use mathlib.Core.Path.{subst}
use cannectors.Prelude.{
  ℕ, suc, ◌≡◌, refl, sym, ap, ◌∙◌, arith, Bool, true, false, ◌||◌, Option, Option-cases, none, some,
  List, [], ◌∷◌, ◌++◌, length, Text, is_some, ltb, ◌==◌, if◌then◌else◌, Result, ok, err, inl, inr,
}
use mathlib.Core.List.{append-nil, append_assoc}
use cannectors.Prelude.Decimal.{itoa_ℕ}
use cannectors.Value.{Value}
use cannectors.SqlTemplate.Scan.{Piece, plain, placeholder, references, dollar}
use cannectors.SqlTemplate.Build.{
  SqlError, not_declared, Built, index_of, bind_dollar, bind, translate,
}

-- Each argument is the value of the parameter at its place.
abbrev pub Bound : (ℕ → Option Value) → List ℕ → List Value → Type 0
Bound eval [] [] = Unit
Bound eval (n ∷ ns) (v ∷ vs) = (eval n ≡ some v) × Bound eval ns vs
Bound eval _ _ = ⊥

-- the place of a parameter among those that are bound, counted from 1
abbrev pub place : ℕ → List ℕ → Option ℕ
place n [] = none
place n (m ∷ ms) =
    if m == n then some 1 else elim (place n ms) [ none ↦ none | some i ↦ some (suc i) ]

-- the parameters that a text refers to, each once, by their first appearance
abbrev pub numbered : List ℕ → List ℕ → List ℕ
numbered seen [] = seen
numbered seen (n ∷ ns) = numbered (if is_some (place n seen) then seen else seen ++ (n ∷ [])) ns

-- the text with a mark for each placeholder
abbrev pub shown : (ℕ → Text) → List Piece → Text
shown mark [] = []
shown mark (plain c ∷ ps) = c ∷ shown mark ps
shown mark (placeholder n ∷ ps) = mark n ++ shown mark ps

abbrev pub dollar_mark : Option ℕ → Text
dollar_mark none = []
dollar_mark (some i) = dollar ∷ itoa_ℕ i

pub Bound-snoc :
    (eval : ℕ → Option Value) (ns : List ℕ) (vs : List Value) (n : ℕ) (v : Value)
    → Bound eval ns vs
    → eval n ≡ some v
    → Bound eval (ns ++ (n ∷ [])) (vs ++ (v ∷ []))
Bound-snoc eval [] [] n v h e = (e, tt)
Bound-snoc eval [] (w ∷ vs) n v h e = absurd h
Bound-snoc eval (m ∷ ns) [] n v h e = absurd h
Bound-snoc eval (m ∷ ns) (w ∷ vs) n v h e = (h.0, Bound-snoc eval ns vs n v h.1 e)

Bound-length :
    (eval : ℕ → Option Value) (ns : List ℕ) (vs : List Value)
    → Bound eval ns vs
    → length ns ≡ length vs
Bound-length eval [] [] h = refl
Bound-length eval [] (w ∷ vs) h = absurd h
Bound-length eval (m ∷ ns) [] h = absurd h
Bound-length eval (m ∷ ns) (w ∷ vs) h = ap suc (Bound-length eval ns vs h.1)

place-snoc :
    (n m : ℕ) (ms : List ℕ)
    → place n (ms ++ (m ∷ [])) ≡ (elim (place n ms) [
      | some i ↦ some i
      | none ↦ if m == n then some (suc (length ms)) else none
    ])
place-snoc n m [] = ground arith
place-snoc n m (k ∷ ms) = ground (arith, place-snoc n m ms)

place-numbered :
    (n i : ℕ) (seen ns : List ℕ) → place n seen ≡ some i → place n (numbered seen ns) ≡ some i
place-numbered n i seen [] e = e
place-numbered n i seen (m ∷ ns) e =
    place-numbered n i (if is_some (place m seen) then seen else seen ++ (m ∷ [])) ns
      (ground (arith, e, place-snoc n m seen))

-- What the loop keeps: its index is the place among the bound parameters.
pub record IsIndexed (eval : ℕ → Option Value) (b : Built) : Type 0 where
  pub bound : Bound eval b.sources b.args
  pub indexed : (n : ℕ) → index_of n b.new_index ≡ place n b.sources

-- what binding a placeholder does for postgres
abbrev Binds : (ℕ → Option Value) → ℕ → Built → Built → Type 0
Binds eval n b b' =
    IsIndexed eval b'
    × (b'.sources ≡ (if is_some (place n b.sources) then b.sources else b.sources ++ (n ∷ [])))
    × (b'.out ≡ b.out ++ dollar_mark (place n b'.sources))

bind_dollar-Binds :
    (eval : ℕ → Option Value) (n : ℕ) (o : Option ℕ) (b b' : Built)
    → IsIndexed eval b
    → o ≡ place n b.sources
    → bind_dollar n o eval b ≡ ok b'
    → Binds eval n b b'
unfolding bind_dollar
bind_dollar-Binds eval n (some i) b b' inv known h =
    let same_built : record b { out = b.out ++ (dollar ∷ itoa_ℕ i) } ≡ b' = cc in
    subst (Binds eval n b) same_built (
      record { bound = inv.bound; indexed = inv.indexed },
      ap (λ o. if is_some o then b.sources else b.sources ++ (n ∷ [])) known,
      ap (λ o. b.out ++ dollar_mark o) known,
    )
bind_dollar-Binds eval n none b b' inv known h = elim (Option-cases (eval n)) [
  | inl e ↦ absurd (cc)
  | inr (v, e) ↦
      let i = suc (length b.args) in
      let new : Built = record {
        out = b.out ++ (dollar ∷ itoa_ℕ i);
        args = b.args ++ (v ∷ []);
        sources = b.sources ++ (n ∷ []);
        new_index = (n, i) ∷ b.new_index;
      } in
      let same_built : new ≡ b' = cc in
      let same_length = Bound-length eval b.sources b.args inv.bound in
      let there : place n (b.sources ++ (n ∷ [])) ≡ some i =
        ground (arith, place-snoc n n b.sources, known, same_length) in
      subst (Binds eval n b) same_built (
        record {
          bound = Bound-snoc eval b.sources b.args n v inv.bound e;
          indexed =
              λ m. ground (arith, place-snoc m n b.sources, inv.indexed m, same_length, known);
        },
        ap (λ o. if is_some o then b.sources else b.sources ++ (n ∷ [])) known,
        ap (λ o. b.out ++ dollar_mark o) (sym there),
      )
]

placed :
    (n : ℕ) (ms : List ℕ)
    → (i : ℕ) × (place n (if is_some (place n ms) then ms else ms ++ (n ∷ [])) ≡ some i)
placed n ms = elim (Option-cases (place n ms)) [
  | inl e ↦ (suc (length ms), ground (arith, e, place-snoc n n ms))
  | inr (i, e) ↦ (i, ground (arith, e))
]

abbrev pub Translates : (ℕ → Option Value) → List Piece → Built → Built → Type 0
Translates eval ps b b' =
    Bound eval b'.sources b'.args
    × (b'.sources ≡ numbered b.sources (references ps))
    × (b'.out ≡ b.out ++ shown (λ n. dollar_mark (place n b'.sources)) ps)

-- A placeholder that is translated is declared, is bound, and the rest goes on from there.
pub translate-placeholder :
    (postgres : Bool) (count : ℕ) (eval : ℕ → Option Value) (n : ℕ) (ps : List Piece) (b b' : Built)
    → translate postgres count eval (placeholder n ∷ ps) b ≡ ok b'
    → (b1 : Built) × (bind postgres n eval b ≡ ok b1)
      × (translate postgres count eval ps b1 ≡ ok b')
unfolding translate
translate-placeholder postgres count eval n ps b b' h =
    go (ltb n 1 || ltb count n) (bind postgres n eval b) refl h
  where
    go :
        (outside : Bool) (r : Result SqlError Built)
        → r ≡ bind postgres n eval b
        → (elim outside as (λ x. Result SqlError Built) [
          | true ↦ err not_declared
          | false ↦ elim r as (λ x. Result SqlError Built) [
            | err e ↦ err e
            | ok b1 ↦ translate postgres count eval ps b1
          ]
        ])
          ≡ ok b'
        → (b1 : Built) × (bind postgres n eval b ≡ ok b1)
          × (translate postgres count eval ps b1 ≡ ok b')
    go true r e g = absurd cc
    go false (err x) e g = absurd cc
    go false (ok b1) e g = (b1, sym e, g)

pub translate-Translates :
    (count : ℕ) (eval : ℕ → Option Value) (ps : List Piece) (b b' : Built)
    → IsIndexed eval b
    → translate true count eval ps b ≡ ok b'
    → Translates eval ps b b'
unfolding translate bind
translate-Translates count eval [] b b' inv h =
    let e : b ≡ b' = cc in subst (Translates eval [] b) e (inv.bound, refl, sym (append-nil b.out))
translate-Translates count eval (plain c ∷ ps) b b' inv h =
    let (bound, sources_eq, out_eq) =
      translate-Translates count eval ps (record b { out = b.out ++ (c ∷ []) }) b'
        (record { bound = inv.bound; indexed = inv.indexed }) h in
    (bound, sources_eq, out_eq ∙ append_assoc b.out (c ∷ []) _)
translate-Translates count eval (placeholder n ∷ ps) b b' inv h =
    let (b1, e, rest) = translate-placeholder true count eval n ps b b' h in
    let (inv1, sources1, out1) =
      bind_dollar-Binds eval n (index_of n b.new_index) b b1 inv (inv.indexed n) e in
    let (bound, sources_eq, out_eq) = translate-Translates count eval ps b1 b' inv1 rest in
    let (i, there1) = placed n b.sources in
    let there : place n b1.sources ≡ some i = ap (place n) sources1 ∙ there1 in
    let stays : place n b'.sources ≡ some i =
      ap (place n) sources_eq ∙ place-numbered n i b1.sources (references ps) there in
    let after = shown (λ m. dollar_mark (place m b'.sources)) ps in
    (
      bound,
      sources_eq ∙ ap (λ ms. numbered ms (references ps)) sources1,
      out_eq
          ∙ ap (λ s. s ++ after) out1
          ∙ append_assoc b.out (dollar_mark (place n b1.sources)) after
          ∙ ap (λ o. b.out ++ (dollar_mark o ++ after)) (there ∙ sym stays),
    )
