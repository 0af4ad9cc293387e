-- ===== src/Scheduler/Settling.antt =====
-- Stop waits for the goroutines (internal/scheduler/scheduler.go): why the wait ends.
use cannectors.Prelude.{
  ℕ, zero, suc, ◌+◌, ◌*◌, ◌⊎◌, ◌≤◌, ◌<◌, ◌≡◌, refl, ap, ◌∙◌, arith, Bool, true, false, Bool-cases,
  Option-cases, inl, inr, none, some, List, [], ◌∷◌, Text, ◌==◌,
}
use cannectors.Prelude.{same}
use cannectors.Prelude.Assoc.{lookup}
use cannectors.Scheduler.{
  drain, Registered, Phase, entered, executing, dequeued, Task, Scheduler, update, task_at,
  put_task, drop_task, stop_begin, stop_end, try_start, finish_with, resume_if, resume,
  advance_task, advance,
}
use cannectors.Scheduler.Holders.{IsSafe, holders, Below-at}
use cannectors.Scheduler.Invariant.{advance-IsSafe, same_tasks, drain-queue}

-- the steps a goroutine has before it, counting those of the requests it queues
abbrev pub cost : Phase → ℕ
cost entered = 3
cost executing = 1
cost dequeued = 2

abbrev pub load : List Task → ℕ
load [] = 0
load (t ∷ ts) = cost t.phase + load ts

-- the requests in the queues of the first `n` entries
abbrev pub queued : (ℕ → Registered) → ℕ → ℕ
queued f zero = 0
queued f (suc n) = (f n).queue + queued f n

-- the steps that are left of all goroutines, at most
unfoldable pub weight : Scheduler → ℕ
weight s = load s.tasks + 2 * queued s.registered s.next

load-put :
    (i : ℕ) (u : Task) (ts : List Task) (t : Task)
    → task_at i ts ≡ some t
    → load (put_task i u ts) + cost t.phase ≡ load ts + cost u.phase
load-put i u [] t e = absurd cc
load-put zero u (v ∷ ts) t e = ground arith
load-put (suc i) u (v ∷ ts) t e = omega (arith, load-put i u ts t e)

load-drop :
    (i : ℕ) (ts : List Task) (t : Task)
    → task_at i ts ≡ some t
    → load (drop_task i ts) + cost t.phase ≡ load ts
load-drop i [] t e = absurd cc
load-drop zero (v ∷ ts) t e = ground arith
load-drop (suc i) (v ∷ ts) t e = omega (arith, load-drop i ts t e)

queued-update_above :
    (f : ℕ → Registered) (k : ℕ) (r : Registered) (n : ℕ)
    → n ≤ k
    → queued (update f k r) n ≡ queued f n
queued-update_above f k r zero h = refl
queued-update_above f k r (suc n) h = ground (arith, queued-update_above f k r n (omega arith))

queued-update :
    (f : ℕ → Registered) (k : ℕ) (r : Registered) (n : ℕ)
    → k < n
    → queued (update f k r) n + (f k).queue ≡ queued f n + r.queue
queued-update f k r zero h = absurd (omega arith)
queued-update f k r (suc n) h = elim (Bool-cases (k == n)) [
  | inl e ↦ ground (arith, queued-update_above f k r n (ground (arith, e)))
  | inr e ↦ ground (arith, e, queued-update f k r n (ground (arith, e)))
]

put-weight :
    (i : ℕ) (t u : Task) (s : Scheduler) (r : Registered)
    → task_at i s.tasks ≡ some t
    → t.handle < s.next
    → cost u.phase + 2 * r.queue < cost t.phase + 2 * (s.registered t.handle).queue
    → weight
        (record s { tasks = put_task i u s.tasks; registered = update s.registered t.handle r })
      < weight s
unfolding weight
put-weight i t u s r at below less =
    omega (arith, load-put i u s.tasks t at, queued-update s.registered t.handle r s.next below)

drop-weight :
    (i : ℕ) (t : Task) (s : Scheduler) (r : Registered)
    → task_at i s.tasks ≡ some t
    → t.handle < s.next
    → 2 * r.queue < cost t.phase + 2 * (s.registered t.handle).queue
    → weight (record s { tasks = drop_task i s.tasks; registered = update s.registered t.handle r })
      < weight s
unfolding weight
drop-weight i t s r at below less =
    omega (arith, load-drop i s.tasks t at, queued-update s.registered t.handle r s.next below)

advance_task-weight :
    (p : Phase) (i : ℕ) (t : Task) (s : Scheduler)
    → task_at i s.tasks ≡ some t
    → t.handle < s.next
    → t.phase ≡ p
    → weight (advance_task p i t s) < weight s
unfolding advance_task finish_with resume_if weight
advance_task-weight entered i t s at below now =
    unfold try_start in
    elim (Bool-cases (s.registered t.handle).running) [
      | inl busy ↦ rw busy (drop-weight i t s _ at below (ground (arith, now)))
      | inr free ↦ rw free (put-weight i t _ s _ at below (ground (arith, now)))
    ]
advance_task-weight executing i t s at below now = go (s.registered t.handle).queue refl
  where
    go : (n : ℕ) → n ≡ (s.registered t.handle).queue → weight (finish_with n i t s) < weight s
    go zero e = drop-weight i t s _ at below (ground (arith, now))
    go (suc n) e = put-weight i t _ s _ at below (ground (arith, now, e))
advance_task-weight dequeued i t s at below now = go s.started
  where
    go : (b : Bool) → weight (resume_if b i t s) < weight s
    go true = omega (
      arith,
      load-put i (record t { phase = executing; held = suc t.held }) s.tasks t at,
      ap cost now,
    )
    go false = drop-weight i t s _ at below (ground (arith, now))

-- Every step of a goroutine of a safe scheduler leaves fewer steps, also while requests are taken off
-- the queues.
pub advance-weight :
    (i : ℕ) (t : Task) (s : Scheduler)
    → task_at i s.tasks ≡ some t
    → IsSafe s
    → weight (advance i s) < weight s
unfolding advance
advance-weight i t s at safe =
    rw (at, advance)
      (advance_task-weight t.phase i t s at (Below-at s.next i s.tasks t safe.allocated at) refl)

-- A policy picks the goroutine that makes the next step, one that there is.
abbrev pub Picks : (Scheduler → ℕ) → Type 0
Picks pick = (s : Scheduler) → (s.tasks ≡ []) ⊎ ((t : Task) × (task_at (pick s) s.tasks ≡ some t))

-- the goroutines go on, `n` steps as the policy picks them
unfoldable pub settle : (Scheduler → ℕ) → ℕ → Scheduler → Scheduler
unfolding advance
settle pick zero s = s
settle pick (suc n) s = settle pick n (advance (pick s) s)

advance_idle : (i : ℕ) (s : Scheduler) → s.tasks ≡ [] → advance i s ≡ s
unfolding advance
advance_idle i s idle =
    let none_at : task_at i s.tasks ≡ none = ap (task_at i) idle in rw (none_at, advance) refl

settle_idle : (pick : Scheduler → ℕ) (n : ℕ) (s : Scheduler) → s.tasks ≡ [] → settle pick n s ≡ s
unfolding settle
settle_idle pick zero s idle = refl
settle_idle pick (suc n) s idle = rw (advance_idle (pick s) s idle) (settle_idle pick n s idle)

cost_pos : (p : Phase) → 1 ≤ cost p
cost_pos entered = omega arith
cost_pos executing = omega arith
cost_pos dequeued = omega arith

idle_of_load : (ts : List Task) → load ts ≤ 0 → ts ≡ []
idle_of_load [] h = refl
idle_of_load (t ∷ ts) h = absurd (omega (arith, cost_pos t.phase))

settle-tasks :
    (pick : Scheduler → ℕ) (n : ℕ) (s : Scheduler)
    → Picks pick
    → IsSafe s
    → weight s ≤ n
    → (settle pick n s).tasks ≡ []
unfolding settle
settle-tasks pick zero s picks safe enough = unfold weight in idle_of_load s.tasks (omega arith)
settle-tasks pick (suc n) s picks safe enough = elim (picks s) [
  | inl idle ↦ ap (λ r. r.tasks) (settle_idle pick (suc n) s idle) ∙ idle
  | inr (t, at) ↦
      settle-tasks pick n (advance (pick s) s) picks (advance-IsSafe (pick s) s safe)
        (omega (arith, advance-weight (pick s) t s at safe))
]

settle-IsSafe : (pick : Scheduler → ℕ) (n : ℕ) (s : Scheduler) → IsSafe s → IsSafe (settle pick n s)
unfolding settle
settle-IsSafe pick zero s safe = safe
settle-IsSafe pick (suc n) s safe =
    settle-IsSafe pick n (advance (pick s) s) (advance-IsSafe (pick s) s safe)

finish_with-pipelines :
    (n i : ℕ) (t : Task) (s : Scheduler) → (finish_with n i t s).pipelines ≡ s.pipelines
unfolding finish_with
finish_with-pipelines zero i t s = refl
finish_with-pipelines (suc n) i t s = refl

resume_if-pipelines :
    (b : Bool) (i : ℕ) (t : Task) (s : Scheduler) → (resume_if b i t s).pipelines ≡ s.pipelines
unfolding resume_if
resume_if-pipelines true i t s = refl
resume_if-pipelines false i t s = refl

advance_task-pipelines :
    (p : Phase) (i : ℕ) (t : Task) (s : Scheduler) → (advance_task p i t s).pipelines ≡ s.pipelines
unfolding advance_task try_start resume
advance_task-pipelines entered i t s = elim (Bool-cases (s.registered t.handle).running) [
  | inl e ↦ rw e refl
  | inr e ↦ rw e refl
]
advance_task-pipelines executing i t s = finish_with-pipelines _ i t s
advance_task-pipelines dequeued i t s = resume_if-pipelines _ i t s

advance-pipelines : (i : ℕ) (s : Scheduler) → (advance i s).pipelines ≡ s.pipelines
unfolding advance
advance-pipelines i s = elim (Option-cases (task_at i s.tasks)) [
  | inl e ↦ rw (e, advance) refl
  | inr (t, e) ↦ rw (e, advance) (advance_task-pipelines t.phase i t s)
]

settle-pipelines :
    (pick : Scheduler → ℕ) (n : ℕ) (s : Scheduler) → (settle pick n s).pipelines ≡ s.pipelines
unfolding settle
settle-pipelines pick zero s = refl
settle-pipelines pick (suc n) s =
    settle-pipelines pick n (advance (pick s) s) ∙ advance-pipelines (pick s) s

drained :
    (id : Text) (h : ℕ) (m : List (Text × ℕ)) (f : ℕ → Registered)
    → lookup id m ≡ some h
    → (drain m f h).queue ≡ 0
unfolding lookup drain
drained id h [] f e = absurd cc
drained id h ((j, k) ∷ m) f e = elim (Bool-cases (same j id)) [
  | inl eq ↦ ground (arith, drain-queue m (update f k (record (f k) { queue = 0 })) h)
  | inr ne ↦ drained id h m _ (ground (arith, e))
]

stop_idle :
    (s : Scheduler)
    → s.tasks ≡ []
    → ((stop_end s).pipelines ≡ []) × ((stop_end s).registered ≡ drain s.pipelines s.registered)
unfolding stop_end
stop_idle s idle = rw (idle, stop_end) (refl, refl)

not_held : (h : ℕ) (s : Scheduler) → IsSafe s → s.tasks ≡ [] → (s.registered h).running ≡ false
not_held h s safe idle = ground (arith, safe.one_holder h, ap (holders h) idle)

-- Stop ends and leaves nothing behind. Let the goroutines of a safe scheduler make their steps in any
-- order once Stop has begun: after as many steps as `weight` says none is left, so the wait ends; then
-- no pipeline is registered, no entry runs, and the queues of all that were registered are empty.
pub stop-settles :
    (pick : Scheduler → ℕ) (s : Scheduler)
    → Picks pick
    → IsSafe s
    → let t = settle pick (weight s) (stop_begin s) in
      let u = stop_end t in
      (t.tasks ≡ [])
      × (u.pipelines ≡ [])
      × ((h : ℕ) → (u.registered h).running ≡ false)
      × ((id : Text) (h : ℕ) → lookup id s.pipelines ≡ some h → (u.registered h).queue ≡ 0)
unfolding stop_begin weight
stop-settles pick s picks safe =
    let t = settle pick (weight s) (stop_begin s) in
    let begun = same_tasks s s.pipelines false true safe in
    let idle = settle-tasks pick (weight s) (stop_begin s) picks begun (omega arith) in
    let (cleared, registered_eq) = stop_idle t idle in
    let kept = settle-pipelines pick (weight s) (stop_begin s) in
    let safe_t = settle-IsSafe pick (weight s) (stop_begin s) begun in
    (
      idle,
      cleared,
      (λ h.
          ap (λ f. (f h).running) registered_eq
          ∙ (drain-queue t.pipelines t.registered h).0
          ∙ not_held h t safe_t idle),
      (λ id h e.
          ap (λ f. (f h).queue) registered_eq
          ∙ drained id h t.pipelines t.registered (ap (lookup id) kept ∙ e)),
    )
