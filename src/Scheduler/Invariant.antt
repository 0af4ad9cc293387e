-- ===== src/Scheduler/Invariant.antt =====
-- What holds of the scheduler at any time (internal/scheduler/scheduler.go): an entry is executed by
-- one goroutine at most, and its queue is bounded.
use cannectors.Prelude.{
  ℕ, zero, suc, ◌≤◌, ◌≡◌, refl, ap, arith, Bool, true, false, not, Bool-cases, Option-cases, inl,
  inr, Option, none, some, List, [], ◌∷◌, Text, is_blank, ltb, if◌then◌else◌,
}
use cannectors.Prelude.Assoc.{lookup, delete}
use cannectors.Scheduler.{
  Pipeline, Registered, Phase, entered, executing, dequeued, Task, Scheduler, Error,
  pipeline_disabled, empty_schedule, invalid_cron, already_running, update, task_at, fresh,
  new_scheduler, add_entry, register_over, register, unregister, start, stop_begin, drain, stop_end,
  enter, try_start, finish_with, resume_if, resume, advance_task, advance, Event, registers,
  unregisters, starts, stops, stopped, ticks, advances, step, run,
}
use cannectors.Scheduler.Holders.{
  IsSafe, bit, holders-drop, holders-Below, Below-suc, put-IsSafe, drop-IsSafe, update-bounded,
}

try_start-IsSafe :
    (i : ℕ) (t : Task) (s : Scheduler)
    → task_at i s.tasks ≡ some t
    → t.phase ≡ entered
    → IsSafe s
    → IsSafe (try_start i t s)
unfolding try_start
try_start-IsSafe i t s at now safe = elim (Bool-cases (s.registered t.handle).running) [
  | inl busy ↦ rw busy (
      drop-IsSafe i t s _ at safe (λ h. ground (arith, now))
        (update-bounded s.registered t.handle _ safe.bounded
          (ground (arith, safe.bounded t.handle))))
  | inr free ↦ rw free (
      put-IsSafe i t (record t { phase = executing }) s _ at refl safe (λ h. ground (arith, now))
        (update-bounded s.registered t.handle _ safe.bounded
          (ground (arith, safe.bounded t.handle))))
]

finish_with-IsSafe :
    (n i : ℕ) (t : Task) (s : Scheduler)
    → task_at i s.tasks ≡ some t
    → t.phase ≡ executing
    → (s.registered t.handle).queue ≡ n
    → IsSafe s
    → IsSafe (finish_with n i t s)
unfolding finish_with
finish_with-IsSafe zero i t s at now left safe =
    drop-IsSafe i t s _ at safe
      (λ h. ground (arith, now, safe.one_holder h, holders-drop h i s.tasks t at))
      (update-bounded s.registered t.handle _ safe.bounded (ground (arith, safe.bounded t.handle)))
finish_with-IsSafe (suc n) i t s at now left safe =
    put-IsSafe i t (record t { phase = dequeued }) s _ at refl safe
      (λ h. ground (arith, now, safe.one_holder h, holders-drop h i s.tasks t at))
      (update-bounded s.registered t.handle _ safe.bounded (ground (arith, safe.bounded t.handle)))

resume_if-IsSafe :
    (b : Bool) (i : ℕ) (t : Task) (s : Scheduler)
    → task_at i s.tasks ≡ some t
    → t.phase ≡ dequeued
    → IsSafe s
    → IsSafe (resume_if b i t s)
unfolding resume_if
resume_if-IsSafe true i t s at now safe =
    put-IsSafe i t (record t { phase = executing; held = suc t.held }) s s.registered at refl safe
      (λ h. ground (arith, now)) safe.bounded
resume_if-IsSafe false i t s at now safe =
    drop-IsSafe i t s _ at safe
      (λ h. ground (arith, now, safe.one_holder h, holders-drop h i s.tasks t at))
      (update-bounded s.registered t.handle _ safe.bounded (ground (arith, safe.bounded t.handle)))

advance_task-IsSafe :
    (p : Phase) (i : ℕ) (t : Task) (s : Scheduler)
    → task_at i s.tasks ≡ some t
    → t.phase ≡ p
    → IsSafe s
    → IsSafe (advance_task p i t s)
unfolding advance_task
advance_task-IsSafe entered i t s at now safe = try_start-IsSafe i t s at now safe
advance_task-IsSafe executing i t s at now safe = finish_with-IsSafe _ i t s at now refl safe
advance_task-IsSafe dequeued i t s at now safe =
    unfold resume in resume_if-IsSafe s.started i t s at now safe

pub advance-IsSafe : (i : ℕ) (s : Scheduler) → IsSafe s → IsSafe (advance i s)
unfolding advance
advance-IsSafe i s safe = elim (Option-cases (task_at i s.tasks)) [
  | inl e ↦ rw (e, advance) safe
  | inr (t, e) ↦ rw (e, advance) (advance_task-IsSafe t.phase i t s e refl safe)
]

-- The map of the pipelines, `started` and the context are not part of it.
pub same_tasks :
    (s : Scheduler) (m : List (Text × ℕ)) (b c : Bool)
    → IsSafe s
    → IsSafe (record s { pipelines = m; started = b; canceled = c })
same_tasks s m b c safe = record {
  one_holder = safe.one_holder;
  bounded = safe.bounded;
  allocated = safe.allocated;
}

add_entry-IsSafe : (p : Pipeline) (s : Scheduler) → IsSafe s → IsSafe (add_entry p s)
unfolding add_entry
add_entry-IsSafe p s safe = record {
  one_holder = λ h. ground (arith, safe.one_holder h, holders-Below s.next s.tasks safe.allocated);
  bounded = update-bounded s.registered s.next (fresh p) safe.bounded (omega arith);
  allocated = Below-suc s.next s.tasks safe.allocated;
}

register_over-IsSafe :
    (p : Pipeline) (o : Option ℕ) (s : Scheduler) → IsSafe s → IsSafe (register_over p o s).0
unfolding register_over
register_over-IsSafe p none s safe = add_entry-IsSafe p s safe
register_over-IsSafe p (some h) s safe = elim (Bool-cases (s.registered h).running) [
  | inl busy ↦ rw busy safe
  | inr free ↦
      rw free
        (add_entry-IsSafe p _ (same_tasks s (delete p.id s.pipelines) s.started s.canceled safe))
]

register-IsSafe :
    (is_cron : Text → Bool) (o : Option Pipeline) (s : Scheduler)
    → IsSafe s
    → IsSafe (register is_cron o s).0
unfolding register
register-IsSafe is_cron none s safe = safe
register-IsSafe is_cron (some p) s safe =
    go (not p.enabled) (is_blank p.schedule) (not (is_cron p.schedule))
  where
    go :
        (a b c : Bool)
        → IsSafe
            (if a
              then (s, some pipeline_disabled)
              else if b
              then (s, some empty_schedule)
              else if c
              then (s, some invalid_cron)
              else register_over p (lookup p.id s.pipelines) s).0
    go true b c = safe
    go false true c = safe
    go false false true = safe
    go false false false = register_over-IsSafe p _ s safe

pub drain-queue :
    (m : List (Text × ℕ)) (f : ℕ → Registered) (h : ℕ)
    → ((drain m f h).running ≡ (f h).running) × ((drain m f h).queue ≤ (f h).queue)
unfolding drain
drain-queue [] f h = (refl, omega arith)
drain-queue ((id, k) ∷ m) f h =
    ground (arith, drain-queue m (update f k (record (f k) { queue = 0 })) h)

stop_end-IsSafe : (s : Scheduler) → IsSafe s → IsSafe (stop_end s)
unfolding stop_end
stop_end-IsSafe s safe = go s.tasks refl
  where
    go :
        (ts : List Task)
        → ts ≡ s.tasks
        → IsSafe (elim ts as (λ x. Scheduler) [
          | [] ↦ record s { pipelines = []; registered = drain s.pipelines s.registered }
          | t ∷ ts ↦ s
        ])
    go [] e = record {
      one_holder =
          λ h. omega (arith, ap bit (drain-queue s.pipelines s.registered h).0, safe.one_holder h);
      bounded = λ h. omega (arith, (drain-queue s.pipelines s.registered h).1, safe.bounded h);
      allocated = safe.allocated;
    }
    go (t ∷ ts) e = safe

unregister-IsSafe : (id : Text) (s : Scheduler) → IsSafe s → IsSafe (unregister id s).0
unfolding unregister
unregister-IsSafe id s safe = elim (Option-cases (lookup id s.pipelines)) [
  | inl e ↦ rw (e, unregister) safe
  | inr (h, e) ↦ rw (e, unregister) (same_tasks s (delete id s.pipelines) s.started s.canceled safe)
]

start-IsSafe : (s : Scheduler) → IsSafe s → IsSafe (start s).0
unfolding start
start-IsSafe s safe = go s.started
  where
    go :
        (b : Bool)
        → let r : Scheduler × Option Error =
            (if b
              then (s, some already_running)
              else (record s { started = true; canceled = false }, none)) in
          IsSafe r.0
    go true = safe
    go false = same_tasks s s.pipelines true false safe

enter-IsSafe : (h : ℕ) (s : Scheduler) → IsSafe s → IsSafe (enter h s)
unfolding enter
enter-IsSafe h s safe = go (not s.started) (ltb h s.next) refl
  where
    go :
        (a b : Bool)
        → b ≡ ltb h s.next
        → IsSafe (
            if a
            then s
            else if b
            then record s { tasks = record { handle = h; phase = entered; held = 1 } ∷ s.tasks }
            else s)
    go true b e = safe
    go false false e = safe
    go false true e = record {
      one_holder = λ j. ground (arith, safe.one_holder j);
      bounded = safe.bounded;
      allocated = (ground (arith, e), safe.allocated);
    }

-- Whatever is done to a safe scheduler, it stays safe.
pub step-IsSafe :
    (is_cron : Text → Bool) (e : Event) (s : Scheduler) → IsSafe s → IsSafe (step is_cron e s)
unfolding step
step-IsSafe is_cron (registers p) s safe = register-IsSafe is_cron p s safe
step-IsSafe is_cron (unregisters id) s safe = unregister-IsSafe id s safe
step-IsSafe is_cron starts s safe = start-IsSafe s safe
step-IsSafe is_cron stops s safe = unfold stop_begin in same_tasks s s.pipelines false true safe
step-IsSafe is_cron stopped s safe = stop_end-IsSafe s safe
step-IsSafe is_cron (ticks h) s safe = enter-IsSafe h s safe
step-IsSafe is_cron (advances i) s safe = advance-IsSafe i s safe

run-IsSafe :
    (is_cron : Text → Bool) (es : List Event) (s : Scheduler) → IsSafe s → IsSafe (run is_cron es s)
unfolding run
run-IsSafe is_cron [] s safe = safe
run-IsSafe is_cron (e ∷ es) s safe =
    run-IsSafe is_cron es (step is_cron e s) (step-IsSafe is_cron e s safe)

new_scheduler-IsSafe : IsSafe new_scheduler
unfolding new_scheduler
new_scheduler-IsSafe = record { one_holder = λ h. refl; bounded = λ h. omega arith; allocated = tt }

-- Whatever registrations, ticks, starts, stops and steps of goroutines happen to a new scheduler, in
-- whatever order, the `running` flag of an entry tells whether a goroutine executes that entry, no
-- more than one does, and no queue is longer than `queue_capacity`.
pub run-new_scheduler-IsSafe :
    (is_cron : Text → Bool) (es : List Event) → IsSafe (run is_cron es new_scheduler)
run-new_scheduler-IsSafe is_cron es = run-IsSafe is_cron es new_scheduler new_scheduler-IsSafe
