-- ===== src/Scheduler/Holders.antt =====
-- The goroutines that execute an entry, counted (internal/scheduler/scheduler.go), and what a change of
-- one goroutine and its entry does to them.
use cannectors.Prelude.{
  ℕ, zero, suc, ◌+◌, ◌≤◌, ◌<◌, ◌≡◌, refl, arith, Bool, true, false, some, List, [], ◌∷◌, ◌==◌,
  if◌then◌else◌,
}
use cannectors.Scheduler.{
  queue_capacity, Registered, Phase, entered, executing, dequeued, Task, Scheduler, update, task_at,
  put_task, drop_task,
}

-- 1 if the goroutine has its entry's `running` flag
abbrev pub holds : Phase → ℕ
holds entered = 0
holds executing = 1
holds dequeued = 1

-- the goroutines that execute an entry
abbrev pub holders : ℕ → List Task → ℕ
holders h [] = 0
holders h (t ∷ ts) = (if t.handle == h then holds t.phase else 0) + holders h ts

abbrev pub bit : Bool → ℕ
bit true = 1
bit false = 0

-- the tasks are of entries below `n`
abbrev pub Below : ℕ → List Task → Type 0
Below n [] = Unit
Below n (t ∷ ts) = (t.handle < n) × Below n ts

-- The `running` flag of each entry tells whether a goroutine executes it, and no more than one does;
-- no queue is longer than its capacity.
pub record IsSafe (s : Scheduler) : Type 0 where
  pub one_holder : (h : ℕ) → holders h s.tasks ≡ bit (s.registered h).running
  pub bounded : (h : ℕ) → (s.registered h).queue ≤ queue_capacity
  pub allocated : Below s.next s.tasks

pub Below-suc : (n : ℕ) (ts : List Task) → Below n ts → Below (suc n) ts
Below-suc n [] b = tt
Below-suc n (t ∷ ts) b = (omega (arith, b.0), Below-suc n ts b.1)

pub holders-Below : (n : ℕ) (ts : List Task) → Below n ts → holders n ts ≡ 0
holders-Below n [] b = refl
holders-Below n (t ∷ ts) b = ground (arith, holders-Below n ts b.1)

pub Below-put :
    (n i : ℕ) (u : Task) (ts : List Task) → u.handle < n → Below n ts → Below n (put_task i u ts)
Below-put n i u [] h b = tt
Below-put n zero u (t ∷ ts) h b = (h, b.1)
Below-put n (suc i) u (t ∷ ts) h b = (b.0, Below-put n i u ts h b.1)

pub Below-drop : (n i : ℕ) (ts : List Task) → Below n ts → Below n (drop_task i ts)
Below-drop n i [] b = tt
Below-drop n zero (t ∷ ts) b = b.1
Below-drop n (suc i) (t ∷ ts) b = (b.0, Below-drop n i ts b.1)

pub Below-at :
    (n i : ℕ) (ts : List Task) (t : Task) → Below n ts → task_at i ts ≡ some t → t.handle < n
Below-at n i [] t b h = absurd cc
Below-at n zero (u ∷ ts) t b h = ground arith
Below-at n (suc i) (u ∷ ts) t b h = Below-at n i ts t b.1 h

-- the part of `holders` that one task has
abbrev pub share : ℕ → Task → ℕ
share h t = if t.handle == h then holds t.phase else 0

pub holders-put :
    (h i : ℕ) (u : Task) (ts : List Task) (t : Task)
    → task_at i ts ≡ some t
    → holders h (put_task i u ts) + share h t ≡ holders h ts + share h u
holders-put h i u [] t e = absurd cc
holders-put h zero u (v ∷ ts) t e = ground arith
holders-put h (suc i) u (v ∷ ts) t e = omega (arith, holders-put h i u ts t e)

pub holders-drop :
    (h i : ℕ) (ts : List Task) (t : Task)
    → task_at i ts ≡ some t
    → holders h (drop_task i ts) + share h t ≡ holders h ts
holders-drop h i [] t e = absurd cc
holders-drop h zero (v ∷ ts) t e = ground arith
holders-drop h (suc i) (v ∷ ts) t e = omega (arith, holders-drop h i ts t e)

-- One task is replaced, or is gone, and the entries change with it.
pub put-IsSafe :
    (i : ℕ) (t u : Task) (s : Scheduler) (f : ℕ → Registered)
    → task_at i s.tasks ≡ some t
    → u.handle ≡ t.handle
    → IsSafe s
    → ((h : ℕ) → bit (f h).running + share h t ≡ bit (s.registered h).running + share h u)
    → ((h : ℕ) → (f h).queue ≤ queue_capacity)
    → IsSafe (record s { tasks = put_task i u s.tasks; registered = f })
put-IsSafe i t u s f at same safe flags queues = record {
  one_holder = λ h. omega (arith, holders-put h i u s.tasks t at, safe.one_holder h, flags h);
  bounded = queues;
  allocated =
      Below-put s.next i u s.tasks
        (omega (arith, same, Below-at s.next i s.tasks t safe.allocated at)) safe.allocated;
}

pub drop-IsSafe :
    (i : ℕ) (t : Task) (s : Scheduler) (f : ℕ → Registered)
    → task_at i s.tasks ≡ some t
    → IsSafe s
    → ((h : ℕ) → bit (f h).running + share h t ≡ bit (s.registered h).running)
    → ((h : ℕ) → (f h).queue ≤ queue_capacity)
    → IsSafe (record s { tasks = drop_task i s.tasks; registered = f })
drop-IsSafe i t s f at safe flags queues = record {
  one_holder = λ h. omega (arith, holders-drop h i s.tasks t at, safe.one_holder h, flags h);
  bounded = queues;
  allocated = Below-drop s.next i s.tasks safe.allocated;
}

pub update-bounded :
    (f : ℕ → Registered) (k : ℕ) (r : Registered)
    → ((h : ℕ) → (f h).queue ≤ queue_capacity)
    → r.queue ≤ queue_capacity
    → (h : ℕ) → (update f k r h).queue ≤ queue_capacity
update-bounded f k r old new h = ground (arith, old h, new)
