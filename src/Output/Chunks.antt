-- ===== src/Output/Chunks.antt =====
-- What chunkRecords (internal/modules/output/batching.go) makes of a list of records.
use cannectors.Prelude.{ℕ, zero, suc, ◌≤◌, ◌<◌, ◌≡◌, refl, ap, arith, List, [], ◌∷◌, ◌++◌, length}
use cannectors.Prelude.Int.{ℤ, pos, negsuc}
use cannectors.Output.Batching.{pieces, chunk_records}

module _ {A : Type 0} where
  -- the records of the batches, one after the other
  abbrev pub joined : List (List A) → List A
  joined [] = []
  joined (b ∷ bs) = b ++ joined bs

  -- Every batch has at least one record and at most `n`, and every batch but the last has `n`.
  abbrev pub IsFilled : ℕ → List (List A) → Type 0
  IsFilled n [] = Unit
  IsFilled n (b ∷ []) = (0 < length b) × (length b ≤ n)
  IsFilled n (b ∷ c ∷ bs) = (0 < length b) × (length b ≡ n) × IsFilled n (c ∷ bs)

  ++_nil : (xs : List A) → xs ++ [] ≡ xs
  ++_nil [] = refl
  ++_nil (x ∷ xs) = ap (◌∷◌ x) (++_nil xs)

  joined-pieces :
      (m room : ℕ) (xs : List A) → (pieces m room xs).0 ++ joined (pieces m room xs).1 ≡ xs
  unfolding pieces
  joined-pieces m room [] = refl
  joined-pieces m zero (x ∷ xs) = ap (◌∷◌ x) (joined-pieces m m xs)
  joined-pieces m (suc room) (x ∷ xs) = ap (◌∷◌ x) (joined-pieces m room xs)

  -- The first chunk is filled up if another follows it.
  abbrev IsFilledUp : ℕ → ℕ → List A × List (List A) → Type 0
  IsFilledUp m room (c, []) = length c ≤ room
  IsFilledUp m room (c, d ∷ ds) = (length c ≡ room) × IsFilled (suc m) (d ∷ ds)

  IsFilledUp-cons :
      (m room : ℕ) (x : A) (p : List A × List (List A))
      → IsFilledUp m room p
      → IsFilledUp m (suc room) (x ∷ p.0, p.1)
  IsFilledUp-cons m room x (c, []) h = omega (arith, h)
  IsFilledUp-cons m room x (c, d ∷ ds) h = (ap suc h.0, h.1)

  IsFilled-cons :
      (m : ℕ) (x : A) (p : List A × List (List A))
      → IsFilledUp m m p
      → IsFilled (suc m) ((x ∷ p.0) ∷ p.1)
  IsFilled-cons m x (c, []) h = (omega arith, omega (arith, h))
  IsFilled-cons m x (c, d ∷ ds) h = (omega arith, ap suc h.0, h.1)

  pieces-IsFilledUp : (m room : ℕ) (xs : List A) → IsFilledUp m room (pieces m room xs)
  unfolding pieces
  pieces-IsFilledUp m room [] = omega arith
  pieces-IsFilledUp m zero (x ∷ xs) =
      (refl, IsFilled-cons m x (pieces m m xs) (pieces-IsFilledUp m m xs))
  pieces-IsFilledUp m (suc room) (x ∷ xs) =
      IsFilledUp-cons m room x (pieces m room xs) (pieces-IsFilledUp m room xs)

  -- With any batchSize the batches hold all records in their order.
  pub joined-chunk_records : (xs : List A) (size : ℤ) → joined (chunk_records xs size) ≡ xs
  unfolding chunk_records
  joined-chunk_records [] size = refl
  joined-chunk_records (x ∷ xs) (pos zero) = ++_nil (x ∷ xs)
  joined-chunk_records (x ∷ xs) (negsuc n) = ++_nil (x ∷ xs)
  joined-chunk_records (x ∷ xs) (pos (suc m)) = joined-pieces m zero (x ∷ xs)

  -- With a positive batchSize no batch is empty, none holds more than batchSize records, and every
  -- batch but the last holds exactly batchSize.
  pub chunk_records-IsFilled :
      (xs : List A) (m : ℕ) → IsFilled (suc m) (chunk_records xs (pos (suc m)))
  unfolding chunk_records
  chunk_records-IsFilled [] m = tt
  chunk_records-IsFilled (x ∷ xs) m = IsFilled-cons m x (pieces m m xs) (pieces-IsFilledUp m m xs)
