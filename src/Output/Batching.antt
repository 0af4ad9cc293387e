-- ===== src/Output/Batching.antt =====
-- internal/modules/output/batching.go and request_mode.go.
use cannectors.Prelude.{
  ℕ, zero, suc, ◌||◌, List, [], ◌∷◌, Text, codes, same, is_blank, if◌then◌else◌, Result, ok, err,
}
use cannectors.Prelude.Int.{ℤ, pos, negsuc}

pub data RequestError : Type 0 where
  invalid_mode negative_batch_size batch_size_in_single_mode : RequestError

-- requestModeBatch, requestModeSingle
abbrev pub batch_mode : Text
batch_mode = codes "batch"

abbrev pub single_mode : Text
single_mode = codes "single"

-- normalizeRequestMode
unfoldable pub normalize_request_mode : Text → Result RequestError Text
normalize_request_mode mode =
    if is_blank mode
    then ok batch_mode
    else if same mode batch_mode || same mode single_mode
    then ok mode
    else err invalid_mode

-- normalizeBatchSize
unfoldable pub normalize_batch_size : ℤ → Text → Result RequestError ℤ
normalize_batch_size (pos zero) mode = ok (pos 0)
normalize_batch_size (negsuc n) mode = err negative_batch_size
normalize_batch_size (pos (suc n)) mode =
    if same mode single_mode then err batch_size_in_single_mode else ok (pos (suc n))

module _ {A : Type 0} where
  -- What slices.Chunk with size `suc m` yields of a list: the rest of a chunk that has room for
  -- `room` more, and the chunks after it.
  unfoldable pub pieces : ℕ → ℕ → List A → List A × List (List A)
  pieces m room [] = ([], [])
  pieces m zero (x ∷ xs) = let p = pieces m m xs in ([], (x ∷ p.0) ∷ p.1)
  pieces m (suc room) (x ∷ xs) = let p = pieces m room xs in (x ∷ p.0, p.1)

  -- chunkRecords
  unfoldable pub chunk_records : List A → ℤ → List (List A)
  unfolding pieces
  chunk_records [] size = []
  chunk_records (x ∷ xs) (pos zero) = (x ∷ xs) ∷ []
  chunk_records (x ∷ xs) (negsuc n) = (x ∷ xs) ∷ []
  chunk_records (x ∷ xs) (pos (suc m)) = (pieces m zero (x ∷ xs)).1
