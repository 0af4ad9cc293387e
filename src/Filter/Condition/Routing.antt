-- ===== src/Filter/Condition/Routing.antt =====
-- The branches of the condition filter (internal/modules/filter/condition.go: processConditionResult): a
-- record goes through the modules of one branch only.
use mathlib.Core.Path.{ap₂, fun_ext}
use cannectors.Prelude.{
  ℕ, ◌+◌, ◌≡◌, refl, sym, ap, ◌∙◌, arith, Bool, true, ◌&&◌, List, [], ◌∷◌, Result, ok, err,
}
use cannectors.Value.{Value, Fields}
use cannectors.ErrHandling.Marker.Record.{Strategy}
use cannectors.Filter.Condition.{
  Module, to_bool, process_condition_result, routed, gather, process_record, process_from, process,
}

-- The condition holds at the record, or its evaluation fails there.
unfoldable pub holds : {E : Type 0} → Result E Value → Bool
unfolding to_bool
holds (ok v) = to_bool v
holds (err e) = true

unfoldable pub all_hold : {E : Type 0} → (Fields → Result E Value) → List Fields → Bool
unfolding holds
all_hold run [] = true
all_hold run (r ∷ rs) = holds (run r) && all_hold run rs

module _ {S E : Type 0} (run : Fields → Result E Value) (st : Strategy)
    (thens elses others : List (Module S E)) where
  record_else_unused :
      (i : ℕ) (s : S) (r : Fields) (o : Result E Value)
      → holds o ≡ true
      → process_record run st thens elses i s r o ≡ process_record run st thens others i s r o
  unfolding process_record process_condition_result holds
  record_else_unused i s r (ok v) h =
      ap (λ b. routed st (process_condition_result st thens elses b s r)) h
      ∙ sym (ap (λ b. routed st (process_condition_result st thens others b s r)) h)
  record_else_unused i s r (err e) h = refl

  from_else_unused :
      (i : ℕ) (s : S) (rs : List Fields)
      → all_hold run rs ≡ true
      → process_from run st thens elses i s rs ≡ process_from run st thens others i s rs
  unfolding process_from all_hold
  from_else_unused i s [] h = refl
  from_else_unused i s (r ∷ rs) h =
      ap₂ (λ p f. gather p f) (record_else_unused i s r (run r) (ground (arith, h)))
        (fun_ext (λ s'. from_else_unused (i + 1) s' rs (ground (arith, h))))

  -- Where the condition is true, or cannot be evaluated, at every record of a batch, the modules of the else
  -- branch make no difference, neither to the result nor to the state.
  pub process_else_unused :
      (s : S) (rs : List Fields)
      → all_hold run rs ≡ true
      → process run st thens elses s rs ≡ process run st thens others s rs
  unfolding process
  process_else_unused s rs h = from_else_unused 0 s rs h
