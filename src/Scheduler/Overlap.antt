-- ===== src/Scheduler/Overlap.antt =====
-- Register refuses to replace an entry that runs, Unregister does not look at the flag
-- (internal/scheduler/scheduler.go).
use cannectors.Prelude.{
  ℕ, ◌<◌, ◌≡◌, ◌≢◌, refl, ap, ◌∙◌, arith, Bool, true, false, none, some, List, [], ◌∷◌, Text,
  is_blank, same_refl, ltb,
}
use cannectors.Prelude.Assoc.{lookup, delete, lookup-delete}
use cannectors.Scheduler.{
  Pipeline, entered, executing, Task, Scheduler, pipeline_running, add_entry, register_over,
  register, unregister, enter, try_start, advance_task, advance, registers, unregisters, ticks,
  advances, step, run,
}
use cannectors.Scheduler.Holders.{IsSafe, holders, bit, holders-Below}

-- what Register checks before it looks at the map
abbrev pub IsValid : (Text → Bool) → Pipeline → Type 0
IsValid is_cron p = (p.enabled ≡ true) × (is_blank p.schedule ≡ false) × (is_cron p.schedule ≡ true)

register_valid :
    (is_cron : Text → Bool) (p : Pipeline) (s : Scheduler)
    → IsValid is_cron p
    → register is_cron (some p) s ≡ register_over p (lookup p.id s.pipelines) s
unfolding register
register_valid is_cron p s (a, b, c) = rw (a, b, c, register) refl

unregister_found :
    (id : Text) (h : ℕ) (s : Scheduler)
    → lookup id s.pipelines ≡ some h
    → unregister id s ≡ (record s { pipelines = delete id s.pipelines }, none)
unfolding unregister
unregister_found id h s e = rw (e, unregister) refl

enter_started :
    (h : ℕ) (s : Scheduler)
    → s.started ≡ true
    → h < s.next
    → (enter h s).tasks ≡ (record { handle = h; phase = entered; held = 1 } ∷ s.tasks)
unfolding enter
enter_started h s on below = let inside : ltb h s.next ≡ true = ground arith in simp (on, inside)

enter_registered : (h : ℕ) (s : Scheduler) → (enter h s).registered ≡ s.registered
unfolding enter
enter_registered h s = ground arith

advance_first :
    (h : ℕ) (ts : List Task) (s : Scheduler)
    → s.tasks ≡ (record { handle = h; phase = entered; held = 1 } ∷ ts)
    → (s.registered h).running ≡ false
    → ((advance 0 s).tasks ≡ (record { handle = h; phase = executing; held = 1 } ∷ ts))
      × (((advance 0 s).registered h).pipeline ≡ (s.registered h).pipeline)
unfolding advance advance_task try_start
advance_first h ts s first free = rw (first, advance) (rw free (rw first refl, ground arith))

-- Register refuses to replace the entry of a pipeline that runs. Unregister followed by Register gets
-- around it: in a safe, started scheduler where the valid pipeline `p` is registered under `h` and
-- runs, a tick of the new entry starts a second execution of `p` beside the first.
pub unregister-register_overlaps :
    (is_cron : Text → Bool) (p : Pipeline) (h : ℕ) (s : Scheduler)
    → IsSafe s
    → s.started ≡ true
    → IsValid is_cron p
    → lookup p.id s.pipelines ≡ some h
    → (s.registered h).running ≡ true
    → let t =
        run is_cron (unregisters p.id ∷ registers (some p) ∷ ticks s.next ∷ advances 0 ∷ []) s in
      (register is_cron (some p) s ≡ (s, some pipeline_running))
      × (h ≢ s.next)
      × (holders h t.tasks ≡ 1)
      × (holders s.next t.tasks ≡ 1)
      × ((t.registered s.next).pipeline ≡ p)
unfolding register_over run step add_entry
unregister-register_overlaps is_cron p h s safe on valid known busy =
    let one : holders h s.tasks ≡ 1 = safe.one_holder h ∙ ap bit busy in
    let none_next = holders-Below s.next s.tasks safe.allocated in
    let apart : h ≢ s.next =
      λ e. absurd (omega (arith, one, none_next, ap (λ k. holders k s.tasks) e)) in
    let s1 : Scheduler = record s { pipelines = delete p.id s.pipelines } in
    let removed : unregister p.id s ≡ (s1, none) = unregister_found p.id h s known in
    let gone : lookup p.id s1.pipelines ≡ none = rw lookup-delete (rw same_refl refl) in
    let added : register is_cron (some p) s1 ≡ (add_entry p s1, none) =
      register_valid is_cron p s1 valid ∙ ap (λ o. register_over p o s1) gone in
    let s3 = enter s.next (add_entry p s1) in
    let t =
      run is_cron (unregisters p.id ∷ registers (some p) ∷ ticks s.next ∷ advances 0 ∷ []) s in
    let path : t ≡ advance 0 s3 =
      ap (λ r. advance 0 (enter s.next (register is_cron (some p) r.0).0)) removed
      ∙ ap (λ r. advance 0 (enter s.next r.0)) added in
    let entered_next = enter_started s.next (add_entry p s1) on (omega arith) in
    let waits : (s3.registered s.next).running ≡ false =
      ap (λ f. (f s.next).running) (enter_registered s.next (add_entry p s1)) ∙ ground arith in
    let first = advance_first s.next s.tasks s3 entered_next waits in
    (
      register_valid is_cron p s valid ∙ ap (λ o. register_over p o s) known ∙ simp busy,
      apart,
      ap (λ r. holders h r.tasks) path ∙ ap (holders h) first.0 ∙ ground (arith, one, apart),
      ap (λ r. holders s.next r.tasks) path
          ∙ ap (holders s.next) first.0
          ∙ ground (arith, none_next),
      ap (λ r. (r.registered s.next).pipeline) path
          ∙ first.1
          ∙ ap (λ f. (f s.next).pipeline) (enter_registered s.next (add_entry p s1))
          ∙ ground arith,
    )
