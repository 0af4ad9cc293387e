-- ===== src/Tests/Schedulers.antt =====
-- The scheduler (internal/scheduler/scheduler.go) with two pipelines.
use cannectors.Prelude.{
  ℕ, ◌≡◌, ◌≢◌, ◌<◌, ◌⊎◌, inl, inr, refl, Bool, true, false, not, Option, none, some, List, [], ◌∷◌,
  Text, codes, is_blank, arith,
}
use cannectors.Prelude.Assoc.{lookup}
use cannectors.Scheduler.{
  Pipeline, Task, executing, Scheduler, new_scheduler, pipeline_running, Event, registers,
  unregisters, starts, ticks, advances, run, register, stop_begin, stop_end, task_at, advance,
  is_running, get_queue_length,
}
use cannectors.Scheduler.Holders.{IsSafe, holders}
use cannectors.Scheduler.Invariant.{run-new_scheduler-IsSafe}
use cannectors.Scheduler.Overlap.{unregister-register_overlaps}
use cannectors.Scheduler.Settling.{weight, settle, Picks, advance-weight, stop-settles}

abbrev is_cron : Text → Bool
is_cron s = not (is_blank s)

abbrev orders : Pipeline
orders = record { id = codes "orders"; enabled = true; schedule = codes "* * * * *" }

-- `orders` is executed, and a second request is in the queue
abbrev busy_events : List Event
busy_events = registers (some orders) ∷ starts ∷ ticks 0 ∷ advances 0 ∷ ticks 0 ∷ advances 0 ∷ []

abbrev busy : Scheduler
busy = run is_cron busy_events new_scheduler

busy_runs : (is_running (codes "orders") busy ≡ true) × (get_queue_length (codes "orders") busy ≡ 1)
unfolding is_running run new_scheduler cannectors.Prelude.same get_queue_length
busy_runs = (refl, refl)

-- the queued request is executed next
busy_goes_on : holders 0 (run is_cron (advances 0 ∷ advances 0 ∷ []) busy).tasks ≡ 1
unfolding run new_scheduler
busy_goes_on = refl

run-new_scheduler-IsSafe_example : IsSafe (run is_cron busy_events new_scheduler)
run-new_scheduler-IsSafe_example = run-new_scheduler-IsSafe is_cron busy_events

unregister-register_overlaps_example :
    let t =
      run is_cron
        (unregisters orders.id ∷ registers (some orders) ∷ ticks 1 ∷ advances 0 ∷ [])
        busy in
    (register is_cron (some orders) busy ≡ (busy, some pipeline_running))
    × (◌≢◌ {A = ℕ} 0 1)
    × (holders 0 t.tasks ≡ 1)
    × (holders 1 t.tasks ≡ 1)
    × ((t.registered 1).pipeline ≡ orders)
unfolding run new_scheduler cannectors.Prelude.same
unregister-register_overlaps_example =
    unregister-register_overlaps is_cron orders 0 busy
      (run-new_scheduler-IsSafe is_cron busy_events) refl (refl, refl, refl) refl refl

advance-weight_example : weight (advance 0 busy) < weight busy
unfolding run new_scheduler
advance-weight_example =
    advance-weight 0 (record { handle = 0; phase = executing; held = 1 }) busy refl
      (run-new_scheduler-IsSafe is_cron busy_events)

-- the policy that goes on with the goroutine that came last
abbrev newest : Scheduler → ℕ
newest s = 0

newest-Picks : Picks newest
newest-Picks s = go s.tasks refl
  where
    go : (ts : List Task) → ts ≡ s.tasks → (ts ≡ []) ⊎ ((t : Task) × (task_at 0 ts ≡ some t))
    go [] e = inl refl
    go (t ∷ ts) e = inr (t, refl)

stop-settles_example :
    let t = settle newest (weight busy) (stop_begin busy) in
    let u = stop_end t in
    (t.tasks ≡ [])
    × (u.pipelines ≡ [])
    × ((h : ℕ) → (u.registered h).running ≡ false)
    × ((id : Text) (h : ℕ) → lookup id busy.pipelines ≡ some h → (u.registered h).queue ≡ 0)
stop-settles_example =
    stop-settles newest busy newest-Picks (run-new_scheduler-IsSafe is_cron busy_events)
