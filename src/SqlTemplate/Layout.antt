-- ===== src/SqlTemplate/Layout.antt =====
-- The text that pieces stand for (internal/sqltemplate/sqltemplate.go: scanPlaceholders): every byte of the
-- query is in one piece, and a placeholder is a dollar and all the digits that follow it.
use cannectors.Prelude.{
  ℕ, zero, suc, ◌+◌, ◌-◌, ◌*◌, ◌≡◌, refl, sym, ap, ◌∙◌, arith, Bool, true, false, ◌&&◌, Option,
  none, some, List, [], ◌∷◌, ◌++◌, take, drop, take-append-drop, Text, is_blank, ◌==◌, if-cases,
}
use mathlib.Core.Path.{subst}
use cannectors.SqlTemplate.Scan.{
  quote, dollar, is_digit, digits, number, Token, region, reference, region_after, reference_at,
  token_at, Piece, plain, placeholder, Place, between, kept, dropped, pieces,
}

abbrev pub all_digits : Text → Bool
all_digits [] = true
all_digits (c ∷ s) = is_digit c && all_digits s

abbrev pub starts_with_digit : Text → Bool
starts_with_digit [] = false
starts_with_digit (c ∷ s) = is_digit c

-- the number that decimal digits stand for, after others that stand for `n`
abbrev pub value_of : ℕ → Text → ℕ
value_of n [] = n
value_of n (c ∷ s) = value_of (n * 10 + (c - 48)) s

-- All the digits of a number, and what follows them.
abbrev pub IsNumeral : ℕ → Text → Text → Type 0
IsNumeral n ds s =
    (is_blank ds ≡ false)
    × (all_digits ds ≡ true)
    × (starts_with_digit s ≡ false)
    × (value_of 0 ds ≡ n)

abbrev pub IsText : List Piece → Text → Type 0
IsText [] t = t ≡ []
IsText (plain c ∷ ps) t = (s : Text) × (t ≡ c ∷ s) × IsText ps s
IsText (placeholder n ∷ ps) t =
    (ds : Text) × (s : Text) × (t ≡ dollar ∷ (ds ++ s)) × IsNumeral n ds s × IsText ps s

digits-all : (s : Text) → all_digits (take (digits s) s) ≡ true
unfolding digits
digits-all [] = refl
digits-all (c ∷ s) = ground (arith, digits-all s)

digits-maximal : (s : Text) → starts_with_digit (drop (digits s) s) ≡ false
unfolding digits
digits-maximal [] = refl
digits-maximal (c ∷ s) = ground (arith, digits-maximal s)

number-value_of : (k n : ℕ) (s : Text) → number k n s ≡ value_of n (take k s)
unfolding number
number-value_of zero n s = refl
number-value_of (suc k) n [] = refl
number-value_of (suc k) n (c ∷ s) = number-value_of k (n * 10 + (c - 48)) s

digits-some : (s : Text) (k : ℕ) → digits s ≡ suc k → is_blank (take (digits s) s) ≡ false
unfolding digits
digits-some [] k h = absurd cc
digits-some (c ∷ s) k h = rw h refl

-- what the token says of the text that it starts
abbrev IsReference : Text → ℕ → ℕ → Type 0
IsReference s k n =
    (n ≡ suc (digits s)) × (k ≡ number (digits s) 0 s) × (is_blank (take (digits s) s) ≡ false)

reference_at-IsReference :
    (s : Text) (k n : ℕ) → reference_at s ≡ some (reference k n) → IsReference s k n
unfolding reference_at
reference_at-IsReference s k n h = go (digits s) refl h
  where
    go :
        (m : ℕ)
        → digits s ≡ m
        → (elim m as (λ x. Option Token) [
          | zero ↦ none
          | suc i ↦ some (reference (number (suc i) 0 s) (suc (suc i)))
        ])
          ≡ some (reference k n)
        → IsReference s k n
    go zero e g = absurd cc
    go (suc i) e g =
        let as_token : reference (number (suc i) 0 s) (suc (suc i)) ≡ reference k n = cc in
        let length_eq : suc (suc i) ≡ n = cc in
        let value_eq : number (suc i) 0 s ≡ k = cc in
        (
          sym length_eq ∙ ap suc (sym e),
          sym value_eq ∙ ap (λ j. number j 0 s) (sym e),
          digits-some s i e,
        )

region_after-apart :
    {A : Type 0} (m : ℕ) (o : Option ℕ) (k n : ℕ) → region_after m o ≡ some (reference k n) → A
region_after-apart m none k n h = absurd cc
region_after-apart m (some i) k n h = absurd cc

token_at-IsReference :
    (c : ℕ) (s : Text) (k n : ℕ)
    → token_at (c ∷ s) ≡ some (reference k n)
    → (c ≡ dollar) × IsReference s k n
unfolding token_at
token_at-IsReference c [] k n h = absurd cc
token_at-IsReference c (d ∷ s) k n h =
    let P : Option Token → Type 0 =
      (λ o. o ≡ some (reference k n) → (c ≡ dollar) × IsReference (d ∷ s) k n) in
    if-cases P (c == quote) _ _ (λ _ g. region_after-apart 1 _ k n g)
      (λ _.
        if-cases P ((c == 45) && (d == 45)) _ _ (λ _ g. absurd cc)
          (λ _.
            if-cases P ((c == 47) && (d == 42)) _ _ (λ _ g. region_after-apart 2 _ k n g)
              (λ _.
                if-cases P ((c == dollar) && (d == dollar)) _ _
                  (λ _ g. region_after-apart 2 _ k n g)
                  (λ _.
                    if-cases P (c == dollar) _ _
                      (λ e g. (ground (arith, e), reference_at-IsReference (d ∷ s) k n g))
                      (λ _ g. absurd cc)))))
      h

-- the text that is left at a place
abbrev text_left : Place → Text → Text
text_left (dropped n) s = drop n s
text_left p s = s

token-IsText :
    (c : ℕ) (s : Text)
    → ((p : Place) → IsText (pieces p s) (text_left p s))
    → IsText
        (elim (token_at (c ∷ s)) [
          | none ↦ plain c ∷ pieces between s
          | some (region n) ↦ plain c ∷ pieces (kept (n - 1)) s
          | some (reference k n) ↦ placeholder k ∷ pieces (dropped (n - 1)) s
        ])
        (c ∷ s)
token-IsText c s later = go (token_at (c ∷ s)) refl
  where
    go :
        (o : Option Token)
        → token_at (c ∷ s) ≡ o
        → IsText
            (elim o as (λ x. List Piece) [
              | none ↦ plain c ∷ pieces between s
              | some (region n) ↦ plain c ∷ pieces (kept (n - 1)) s
              | some (reference k n) ↦ placeholder k ∷ pieces (dropped (n - 1)) s
            ])
            (c ∷ s)
    go none e = (s, refl, later between)
    go (some (region n)) e = (s, refl, later (kept (n - 1)))
    go (some (reference k n)) e =
        let (is_dollar, (length_eq, value_eq, there)) = token_at-IsReference c s k n e in
        let left : drop (n - 1) s ≡ drop (digits s) s =
          ap (λ m. drop m s) (omega (arith, length_eq)) in
        (
          take (digits s) s,
          drop (digits s) s,
          ap (λ x. x ∷ s) is_dollar ∙ ap (λ x. dollar ∷ x) (sym (take-append-drop (digits s) s)),
          (there, digits-all s, digits-maximal s, sym (value_eq ∙ number-value_of (digits s) 0 s)),
          subst (IsText (pieces (dropped (n - 1)) s)) left (later (dropped (n - 1))),
        )

pieces_left : (s : Text) (p : Place) → IsText (pieces p s) (text_left p s)
unfolding pieces
pieces_left [] between = refl
pieces_left [] (kept n) = refl
pieces_left [] (dropped zero) = refl
pieces_left [] (dropped (suc n)) = refl
pieces_left (c ∷ s) (kept (suc n)) = (s, refl, pieces_left s (kept n))
pieces_left (c ∷ s) (dropped (suc n)) = pieces_left s (dropped n)
pieces_left (c ∷ s) between = token-IsText c s (pieces_left s)
pieces_left (c ∷ s) (kept zero) = token-IsText c s (pieces_left s)
pieces_left (c ∷ s) (dropped zero) = token-IsText c s (pieces_left s)

pub pieces-IsText : (s : Text) → IsText (pieces between s) s
pieces-IsText s = pieces_left s between
