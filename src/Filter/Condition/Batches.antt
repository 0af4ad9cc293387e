-- ===== src/Filter/Condition/Batches.antt =====
-- The loop of the condition filter over a batch (internal/modules/filter/condition.go: Process): record after
-- record, until one fails.
use mathlib.Core.Path.{fun_ext}
use mathlib.Core.List.{append_assoc}
use cannectors.Prelude.{
  ℕ, ◌+◌, ◌≡◌, refl, sym, ap, ◌∙◌, arith, List, [], ◌∷◌, ◌++◌, length, Result, ok, err,
}
use cannectors.Value.{Value, Fields}
use cannectors.ErrHandling.Marker.Record.{Strategy}
use cannectors.Filter.Condition.{
  ConditionError, Module, prepend, gather, process_record, process_from, process,
}

module _ {S E : Type 0} where
  prepend-append :
      (xs ys : List Fields) (p : S × Result (ConditionError E) (List Fields))
      → prepend (xs ++ ys) p ≡ prepend xs (prepend ys p)
  unfolding prepend
  prepend-append xs ys (s, ok zs) = ap (λ l. (s, ok l)) (append_assoc xs ys zs)
  prepend-append xs ys (s, err e) = refl

  gather-prepend :
      (xs : List Fields) (p : S × Result (ConditionError E) (List Fields))
      (f : S → S × Result (ConditionError E) (List Fields))
      → gather (prepend xs p) f ≡ prepend xs (gather p f)
  unfolding gather prepend
  gather-prepend xs (s, ok ys) f = prepend-append xs ys (f s)
  gather-prepend xs (s, err e) f = refl

  gather_assoc :
      (p : S × Result (ConditionError E) (List Fields))
      (f g : S → S × Result (ConditionError E) (List Fields))
      → gather (gather p f) g ≡ gather p (λ s. gather (f s) g)
  unfolding gather
  gather_assoc (s, ok xs) f g = gather-prepend xs (f s) g
  gather_assoc (s, err e) f g = refl

  prepend-nil : (p : S × Result (ConditionError E) (List Fields)) → prepend [] p ≡ p
  unfolding prepend
  prepend-nil (s, ok xs) = refl
  prepend-nil (s, err e) = refl

  -- One batch and then the rest from the state that it leaves: the first failure is the result, and
  -- otherwise the records of both, in order.
  abbrev pub joined :
      S × Result (ConditionError E) (List Fields)
      → (S → S × Result (ConditionError E) (List Fields))
      → S × Result (ConditionError E) (List Fields)
  joined (s, err e) rest = (s, err e)
  joined (s, ok rs) rest = elim (rest s).1 [
    | err e ↦ ((rest s).0, err e)
    | ok rs' ↦ ((rest s).0, ok (rs ++ rs'))
  ]

  prepend-joined :
      (s : S) (rs : List Fields) (p : S × Result (ConditionError E) (List Fields))
      → prepend rs p ≡ joined (s, ok rs) (λ _. p)
  unfolding prepend
  prepend-joined s rs (s', ok rs') = refl
  prepend-joined s rs (s', err e) = refl

  gather-joined :
      (p : S × Result (ConditionError E) (List Fields))
      (f : S → S × Result (ConditionError E) (List Fields))
      → gather p f ≡ joined p f
  unfolding gather
  gather-joined (s, err e) f = refl
  gather-joined (s, ok rs) f = prepend-joined s rs (f s)

  module _ (run : Fields → Result E Value) (st : Strategy) (thens elses : List (Module S E)) where
    process_from-append :
        (i : ℕ) (s : S) (xs ys : List Fields)
        → process_from run st thens elses i s (xs ++ ys)
          ≡ gather
              (process_from run st thens elses i s xs)
              (λ s'. process_from run st thens elses (i + length xs) s' ys)
    unfolding process_from gather
    process_from-append i s [] ys =
        ap (λ n. process_from run st thens elses n s ys) (omega arith) ∙ sym (prepend-nil _)
    process_from-append i s (x ∷ xs) ys =
        let part = process_record run st thens elses i s x (run x) in
        ap (λ f. gather part f) (fun_ext (λ s'. process_from-append (i + 1) s' xs ys))
        ∙ sym (
            gather_assoc part (λ s'. process_from run st thens elses (i + 1) s' xs)
              (λ s'. process_from run st thens elses (i + 1 + length xs) s' ys))
        ∙ ap
            (λ n.
              gather (gather part (λ s'. process_from run st thens elses (i + 1) s' xs))
                (λ s'. process_from run st thens elses n s' ys))
            (ground arith)

    -- A batch is processed record after record: of a batch in two parts the second is processed from the
    -- state and the position that the first leaves, its records follow those of the first, and once the
    -- first part has failed, it is not looked at.
    pub process-append :
        (s : S) (xs ys : List Fields)
        → process run st thens elses s (xs ++ ys)
          ≡ joined
              (process run st thens elses s xs)
              (λ s'. process_from run st thens elses (length xs) s' ys)
    unfolding process
    process-append s xs ys =
        process_from-append 0 s xs ys
        ∙ ap
            (λ n.
              gather (process_from run st thens elses 0 s xs)
                (λ s'. process_from run st thens elses n s' ys))
            (omega arith)
        ∙ gather-joined (process_from run st thens elses 0 s xs)
            (λ s'. process_from run st thens elses (length xs) s' ys)
