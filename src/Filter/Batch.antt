-- ===== src/Filter/Batch.antt =====
-- The loop that the per-record filters share: the context is looked at before the batch and before
-- every hundredth record, and the first failure ends the batch (internal/modules/filter/set.go,
-- remove.go, drop.go, Process).
use cannectors.Prelude.{
  ℕ, ◌+◌, ◌%◌, Bool, ◌&&◌, List, [], ◌∷◌, Result, ok, err, ltb, ◌==◌, if◌then◌else◌,
}
use cannectors.Value.{Fields}

-- Why a batch ends without a result.
pub data Failure (E : Type 0) : Type 0 where
  canceled : Failure E
  at_record : ℕ → E → Failure E

-- `done i` says that the context is done when the loop looks at it before record `i`.
module _ {E : Type 0} (done : ℕ → Bool) (f : Fields → Result E Fields) where
  -- The records from position `i` on.
  unfoldable pub process_from : ℕ → List Fields → Result (Failure E) (List Fields)
  process_from i [] = ok []
  process_from i (r ∷ rs) =
      let rest = process_from (i + 1) rs in
      if ltb 0 i && ((i % 100) == 0) && done i then err canceled else elim (f r) [
        | err e ↦ err (at_record i e)
        | ok r' ↦ elim rest [ err e ↦ err e | ok rs' ↦ ok (r' ∷ rs') ]
      ]

  unfoldable pub process : List Fields → Result (Failure E) (List Fields)
  unfolding process_from
  process rs = if done 0 then err canceled else process_from 0 rs
