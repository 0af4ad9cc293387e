-- ===== src/Input/Paging/Segments.antt =====
-- Segments of a list of records, for the slices that a server gives (internal/modules/input/
-- http_polling_pagination.go: fetchOffsetBased).
use cannectors.Prelude.{
  ℕ, zero, suc, ◌+◌, ◌≡◌, ◌≤◌, ◌<◌, refl, sym, ap, ◌∙◌, arith, List, [], ◌∷◌, ◌++◌, length, take,
  drop,
}

module _ {ℓ} {A : Type ℓ} where
  pub take-plus : (m n : ℕ) (xs : List A) → take m xs ++ take n (drop m xs) ≡ take (m + n) xs
  take-plus zero n xs = ap (λ k. take k xs) (omega arith)
  take-plus (suc m) zero [] =
      let e : suc m + zero ≡ suc m = omega arith in ap (λ k. take k []) (sym e)
  take-plus (suc m) (suc n) [] =
      let e : suc m + suc n ≡ suc (m + suc n) = omega arith in ap (λ k. take k []) (sym e)
  take-plus (suc m) n (x ∷ xs) =
      let e : suc m + n ≡ suc (m + n) = omega arith in
      ap (◌∷◌ x) (take-plus m n xs) ∙ ap (λ k. take k (x ∷ xs)) (sym e)

  pub take_all : (n : ℕ) (xs : List A) → length xs ≤ n → take n xs ≡ xs
  take_all zero [] h = refl
  take_all zero (x ∷ xs) h = absurd (omega arith)
  take_all (suc n) [] h = refl
  take_all (suc n) (x ∷ xs) h = ap (◌∷◌ x) (take_all n xs (omega arith))

  pub length-take_short : (n : ℕ) (xs : List A) → length (take n xs) < n → length xs < n
  length-take_short zero xs h = absurd (omega arith)
  length-take_short (suc n) [] h = omega arith
  length-take_short (suc n) (x ∷ xs) h = omega (arith, length-take_short n xs (omega arith))

  pub length-take-drop : (m : ℕ) (xs : List A) (n : ℕ) → length (drop m xs) < n → length xs < m + n
  length-take-drop zero xs n h = omega arith
  length-take-drop (suc m) [] n h = omega arith
  length-take-drop (suc m) (x ∷ xs) n h = omega (arith, length-take-drop m xs n h)

  pub length-take_le : (n : ℕ) (xs : List A) → length xs ≤ length (take n xs) → length xs ≤ n
  length-take_le zero [] h = omega arith
  length-take_le zero (x ∷ xs) h = absurd (omega arith)
  length-take_le (suc n) [] h = omega arith
  length-take_le (suc n) (x ∷ xs) h = omega (arith, length-take_le n xs (omega arith))

  pub length-take_le_all : (n : ℕ) (xs : List A) → length (take n xs) ≤ length xs
  length-take_le_all zero xs = omega arith
  length-take_le_all (suc n) [] = omega arith
  length-take_le_all (suc n) (x ∷ xs) = omega (arith, length-take_le_all n xs)

  pub room_after :
      (m n : ℕ) (xs : List A) → m ≤ length xs → n ≤ length (drop m xs) → m + n ≤ length xs
  room_after zero n xs h k = omega (arith, k)
  room_after (suc m) n [] h k = absurd (omega arith)
  room_after (suc m) n (x ∷ xs) h k = omega (arith, room_after m n xs (omega arith) k)
