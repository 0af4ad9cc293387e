-- ===== src/Runtime/Permitted.antt =====
-- What each stage of an execution may do to the modules (internal/runtime/pipeline.go).
use cannectors.Prelude.{
  ℕ, suc, ◌≡◌, sym, ◌∙◌, Bool, true, false, Option, none, some, List, [], ◌∷◌, ◌++◌, Text, inl, inr,
  Bool-cases, Option-cases, if◌then◌else◌, All, All-append,
}
use cannectors.Value.{Fields}
use cannectors.ErrHandling.Classify.{GoError}
use cannectors.ErrHandling.Marker.Record.{Tally}
use cannectors.Persistence.Config.{State}
use cannectors.Runtime.Types.{
  Event, loaded, connected, fetched, input_closed, filtered, previewed, sent, saved, output_closed,
  Trace, Filter, Executor, Pipeline,
}
use cannectors.Runtime.Stages.{
  FilterResult, connect_output, close_input, without_input, filter_answer, execute_filters,
  execute_dry_run_preview, execute_output,
}

-- What an execution may do, by whether it is a dry run, whether the modules are retained, and whether
-- it saves the state.
pub data Permitted (dry_run retain saves : Bool) : Event → Type 0 where
  may_load : (id : Text) → Permitted dry_run retain saves (loaded id)
  may_connect : dry_run ≡ false → Permitted dry_run retain saves connected
  may_fetch : Permitted dry_run retain saves fetched
  may_close_input : retain ≡ false → Permitted dry_run retain saves input_closed
  may_filter : (i : ℕ) (rs : List Fields) → Permitted dry_run retain saves (filtered i rs)
  may_preview : dry_run ≡ true → (rs : List Fields) → Permitted dry_run retain saves (previewed rs)
  may_send : dry_run ≡ false → (rs : List Fields) → Permitted dry_run retain saves (sent rs)
  may_save : saves ≡ true → (id : Text) (s : State) → Permitted dry_run retain saves (saved id s)
  may_close_output : retain ≡ false → Permitted dry_run retain saves output_closed

module _ (dry_run retain saves : Bool) where
  abbrev pub Lawful : Trace → Type 0
  Lawful = All (Permitted dry_run retain saves)

  pub then_one :
      (tr : Trace) (ev : Event)
      → Lawful tr
      → Permitted dry_run retain saves ev
      → Lawful (tr ++ (ev ∷ []))
  then_one tr ev h p = All-append (Permitted dry_run retain saves) tr (ev ∷ []) h (p, tt)

  -- the executors that the execution of one goes through
  abbrev pub Runs : Executor → Type 0
  Runs e = (e.dry_run ≡ dry_run) × (e.retain_modules ≡ retain)

  pub connect_output-Lawful :
      (e : Executor) (tr : Trace) → Runs e → Lawful tr → Lawful (connect_output e tr).1
  unfolding connect_output
  connect_output-Lawful e tr r h = elim (Bool-cases e.dry_run) [
    | inl dry ↦ rw (dry, connect_output) h
    | inr wet ↦ elim (Option-cases e.output) [
      | inl absent ↦ rw (wet, absent, connect_output) h
      | inr (o, present) ↦ elim (Option-cases o.connect) [
        | inl absent ↦ rw (wet, present, absent, connect_output) h
        | inr (c, can) ↦
            rw (wet, present, can, connect_output)
              (then_one tr connected h (may_connect (sym r.0 ∙ wet)))
      ]
    ]
  ]

  pub filter_answer-Lawful :
      (i : ℕ) (rest : Tally → List Fields → FilterResult) (tr : Trace)
      (a : List Fields × GoError × Tally)
      → Lawful tr
      → ((t : Tally) (rs : List Fields) → Lawful (rest t rs).2)
      → Lawful (filter_answer i rest tr a).2
  unfolding filter_answer
  filter_answer-Lawful i rest tr (rs, [], tally) h k = k tally rs
  filter_answer-Lawful i rest tr (rs, x ∷ xs, tally) h k = h

  pub execute_filters-Lawful :
      (i : ℕ) (fs : List (Option Filter)) (tr : Trace) (tally : Tally) (rs : List Fields)
      → Lawful tr
      → Lawful (execute_filters i fs tr tally rs).2
  unfolding execute_filters
  execute_filters-Lawful i [] tr tally rs h = h
  execute_filters-Lawful i (none ∷ fs) tr tally rs h =
      execute_filters-Lawful (suc i) fs tr tally rs h
  execute_filters-Lawful i (some f ∷ fs) tr tally rs h =
      let tr' = tr ++ (filtered i rs ∷ []) in
      let h' = then_one tr (filtered i rs) h (may_filter i rs) in
      filter_answer-Lawful i (execute_filters (suc i) fs tr') tr' (f.process tr tally rs) h'
        (λ t qs. execute_filters-Lawful (suc i) fs tr' t qs h')

  pub preview-Lawful :
      (e : Executor) (p : Pipeline) (rs : List Fields) (tr : Trace)
      → Runs e
      → Lawful tr
      → Lawful (execute_dry_run_preview e p rs tr).1
  unfolding execute_dry_run_preview
  preview-Lawful e p rs tr r h = elim (Bool-cases e.dry_run) [
    | inr wet ↦ rw (wet, execute_dry_run_preview) h
    | inl dry ↦ elim (Option-cases e.output) [
      | inl absent ↦ rw (dry, absent, execute_dry_run_preview) h
      | inr (o, present) ↦ elim (Option-cases o.preview) [
        | inl absent ↦ rw (dry, present, absent, execute_dry_run_preview) h
        | inr (f, can) ↦
            rw (dry, present, can, execute_dry_run_preview)
              (then_one tr (previewed rs) h (may_preview (sym r.0 ∙ dry) rs))
      ]
    ]
  ]

  pub output-Lawful :
      (e : Executor) (rs : List Fields) (tr : Trace)
      → Runs e
      → Lawful tr
      → Lawful (execute_output e rs tr).1
  unfolding execute_output
  output-Lawful e rs tr r h = elim (Bool-cases e.dry_run) [
    | inl dry ↦ rw (dry, execute_output) h
    | inr wet ↦ elim (Option-cases e.output) [
      | inl absent ↦ rw (wet, absent, execute_output) h
      | inr (o, present) ↦
          rw (wet, present, execute_output) (then_one tr (sent rs) h (may_send (sym r.0 ∙ wet) rs))
    ]
  ]

  pub close_input-Lawful :
      (e : Executor) (tr : Trace) → Runs e → Lawful tr → Lawful (close_input e tr)
  unfolding close_input
  close_input-Lawful e tr r h = elim (Bool-cases e.retain_modules) [
    | inl kept ↦ rw (kept, close_input) h
    | inr released ↦
        rw (released, close_input)
          (then_one tr input_closed h (may_close_input (sym r.1 ∙ released)))
  ]

  pub without_input-Runs : (e : Executor) → Runs e → Runs (without_input e)
  unfolding without_input
  without_input-Runs e r = go e.retain_modules
    where
      go : (b : Bool) → Runs (if b then e else record e { input = none })
      go true = r
      go false = r
