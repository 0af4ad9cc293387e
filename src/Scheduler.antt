-- ===== src/Scheduler.antt =====
-- internal/scheduler/scheduler.go: registration, the overlap guard with its queue, and shutdown. Each
-- step is what the code does under one hold of its locks, so any interleaving of the goroutines is a
-- list of events. The cron library decides when a tick comes; a tick may come late, also for an entry
-- that was removed meanwhile.
pub mod Holders
pub mod Invariant
pub mod Overlap
pub mod Settling
use cannectors.Prelude.{
  ℕ, zero, suc, ◌+◌, ◌-◌, Bool, true, false, not, Option, none, some, List, [], ◌∷◌, ◌++◌, Text,
  is_blank, ltb, length, map, ◌==◌, if◌then◌else◌,
}
use cannectors.Prelude.Assoc.{lookup, assign, delete}

-- DefaultQueueCapacity
abbrev pub queue_capacity : ℕ
queue_capacity = 100

-- connector.Pipeline, as far as the scheduler reads it; `schedule` is that of its input.
pub record Pipeline : Type 0 where
  pub id : Text
  pub enabled : Bool
  pub schedule : Text

-- registeredPipeline; the queue holds no more than the number of requests.
pub record Registered : Type 0 where
  pub pipeline : Pipeline
  pub running : Bool
  pub queue : ℕ

-- Where a goroutine of executePipeline is: it has been counted by the wait group; it runs the
-- pipeline; it has taken a request off the queue.
pub data Phase : Type 0 where
  entered executing dequeued : Phase

-- `held` counts the calls of wg.Add that are not yet undone.
pub record Task : Type 0 where
  pub handle : ℕ
  pub phase : Phase
  pub held : ℕ

-- Scheduler; a registeredPipeline is known by its handle, those from `next` on are not allocated.
pub record Scheduler : Type 0 where
  pub started : Bool
  pub canceled : Bool
  pub pipelines : List (Text × ℕ)
  pub registered : ℕ → Registered
  pub next : ℕ
  pub tasks : List Task

pub data Error : Type 0 where
  nil_pipeline pipeline_disabled empty_schedule invalid_cron pipeline_running pipeline_not_found :
      Error
  already_running not_started next_run_not_ready : Error

abbrev pub update {ℓ} : {A : Type ℓ} → (ℕ → A) → ℕ → A → ℕ → A
update f k v j = if j == k then v else f j

-- the task at a position, and the tasks with that one replaced or gone
abbrev pub task_at : ℕ → List Task → Option Task
task_at i [] = none
task_at zero (t ∷ ts) = some t
task_at (suc i) (t ∷ ts) = task_at i ts

abbrev pub put_task : ℕ → Task → List Task → List Task
put_task i u [] = []
put_task zero u (t ∷ ts) = u ∷ ts
put_task (suc i) u (t ∷ ts) = t ∷ put_task i u ts

abbrev pub drop_task : ℕ → List Task → List Task
drop_task i [] = []
drop_task zero (t ∷ ts) = ts
drop_task (suc i) (t ∷ ts) = t ∷ drop_task i ts

-- NewWithExecutor
abbrev pub no_pipeline : Pipeline
no_pipeline = record { id = []; enabled = false; schedule = [] }

abbrev pub fresh : Pipeline → Registered
fresh p = record { pipeline = p; running = false; queue = 0 }

unfoldable pub new_scheduler : Scheduler
new_scheduler = record {
  started = false;
  canceled = false;
  pipelines = [];
  registered = λ h. fresh no_pipeline;
  next = 0;
  tasks = [];
}

-- the end of Register, once an old entry is gone
unfoldable pub add_entry : Pipeline → Scheduler → Scheduler
unfolding assign
add_entry p s = record s {
  pipelines = assign p.id s.next s.pipelines;
  registered = update s.registered s.next (fresh p);
  next = suc s.next;
}

-- Register, once the pipeline is valid and the map has been looked at
unfoldable pub register_over : Pipeline → Option ℕ → Scheduler → Scheduler × Option Error
unfolding add_entry delete
register_over p none s = (add_entry p s, none)
register_over p (some h) s =
    if (s.registered h).running
    then (s, some pipeline_running)
    else (add_entry p (record s { pipelines = delete p.id s.pipelines }), none)

-- Register; `is_cron` says that the cron library parses a schedule.
unfoldable pub register : (Text → Bool) → Option Pipeline → Scheduler → Scheduler × Option Error
unfolding register_over lookup
register is_cron none s = (s, some nil_pipeline)
register is_cron (some p) s =
    if not p.enabled
    then (s, some pipeline_disabled)
    else if is_blank p.schedule
    then (s, some empty_schedule)
    else if not (is_cron p.schedule)
    then (s, some invalid_cron)
    else register_over p (lookup p.id s.pipelines) s

-- Unregister
unfoldable pub unregister : Text → Scheduler → Scheduler × Option Error
unfolding lookup delete
unregister id s = elim (lookup id s.pipelines) [
  | none ↦ (s, some pipeline_not_found)
  | some h ↦ (record s { pipelines = delete id s.pipelines }, none)
]

-- Start
unfoldable pub start : Scheduler → Scheduler × Option Error
start s =
    if s.started
    then (s, some already_running)
    else (record s { started = true; canceled = false }, none)

-- Stop, up to its wait for the executions
unfoldable pub stop_begin : Scheduler → Scheduler
stop_begin s = record s { started = false; canceled = true }

-- the queues that Stop drains
unfoldable pub drain : List (Text × ℕ) → (ℕ → Registered) → ℕ → Registered
drain [] f = f
drain ((id, h) ∷ m) f = drain m (update f h (record (f h) { queue = 0 }))

-- The end of Stop, which waits until no execution is left; the scheduler stays as it is until then,
-- and also if the wait is given up.
unfoldable pub stop_end : Scheduler → Scheduler
unfolding drain
stop_end s = elim s.tasks [
  | [] ↦ record s { pipelines = []; registered = drain s.pipelines s.registered }
  | t ∷ ts ↦ s
]

-- executePipeline, up to its entry into the wait group
unfoldable pub enter : ℕ → Scheduler → Scheduler
enter h s =
    if not s.started
    then s
    else if ltb h s.next
    then record s { tasks = record { handle = h; phase = entered; held = 1 } ∷ s.tasks }
    else s

-- tryStartExecution; a request that finds the queue full is dropped.
unfoldable pub try_start : ℕ → Task → Scheduler → Scheduler
try_start i t s =
    let r = s.registered t.handle in
    if r.running
    then record s {
      tasks = drop_task i s.tasks;
      registered =
          update s.registered t.handle
            (record r { queue = (if ltb r.queue queue_capacity then suc r.queue else r.queue) });
    }
    else record s {
      tasks = put_task i (record t { phase = executing }) s.tasks;
      registered = update s.registered t.handle (record r { running = true });
    }

-- finishExecution, with the number of requests in the queue
unfoldable pub finish_with : ℕ → ℕ → Task → Scheduler → Scheduler
finish_with zero i t s = record s {
  tasks = drop_task i s.tasks;
  registered = update s.registered t.handle (record (s.registered t.handle) { running = false });
}
finish_with (suc n) i t s = record s {
  tasks = put_task i (record t { phase = dequeued }) s.tasks;
  registered = update s.registered t.handle (record (s.registered t.handle) { queue = n });
}

-- executeQueuedPipeline, up to the execution; once the scheduler is stopped the goroutine ends.
unfoldable pub resume_if : Bool → ℕ → Task → Scheduler → Scheduler
resume_if true i t s = record s {
  tasks = put_task i (record t { phase = executing; held = suc t.held }) s.tasks;
}
resume_if false i t s = record s {
  tasks = drop_task i s.tasks;
  registered = update s.registered t.handle (record (s.registered t.handle) { running = false });
}

unfoldable pub resume : ℕ → Task → Scheduler → Scheduler
unfolding resume_if
resume i t s = resume_if s.started i t s

unfoldable pub advance_task : Phase → ℕ → Task → Scheduler → Scheduler
unfolding try_start finish_with resume
advance_task entered i t s = try_start i t s
advance_task executing i t s = finish_with (s.registered t.handle).queue i t s
advance_task dequeued i t s = resume i t s

-- the next step of the goroutine at a position
unfoldable pub advance : ℕ → Scheduler → Scheduler
unfolding advance_task
advance i s = elim (task_at i s.tasks) [ none ↦ s | some t ↦ advance_task t.phase i t s ]

pub data Event : Type 0 where
  registers : Option Pipeline → Event
  unregisters : Text → Event
  starts stops stopped : Event
  ticks : ℕ → Event
  advances : ℕ → Event

unfoldable pub step : (Text → Bool) → Event → Scheduler → Scheduler
unfolding register unregister start stop_begin stop_end enter advance
step is_cron (registers p) s = (register is_cron p s).0
step is_cron (unregisters id) s = (unregister id s).0
step is_cron starts s = (start s).0
step is_cron stops s = stop_begin s
step is_cron stopped s = stop_end s
step is_cron (ticks h) s = enter h s
step is_cron (advances i) s = advance i s

unfoldable pub run : (Text → Bool) → List Event → Scheduler → Scheduler
unfolding step
run is_cron [] s = s
run is_cron (e ∷ es) s = run is_cron es (step is_cron e s)

-- HasPipeline, IsRunning, GetQueueLength
unfoldable pub has_pipeline : Text → Scheduler → Bool
unfolding lookup
has_pipeline id s = elim (lookup id s.pipelines) [ none ↦ false | some h ↦ true ]

unfoldable pub is_running : Text → Scheduler → Bool
unfolding lookup
is_running id s = elim (lookup id s.pipelines) [ none ↦ false | some h ↦ (s.registered h).running ]

unfoldable pub get_queue_length : Text → Scheduler → ℕ
unfolding lookup
get_queue_length id s = elim (lookup id s.pipelines) [ none ↦ 0 | some h ↦ (s.registered h).queue ]

-- IsStarted, PipelineCount, GetPipelineIDs, IsQueued
unfoldable pub is_started : Scheduler → Bool
is_started s = s.started

unfoldable pub pipeline_count : Scheduler → ℕ
pipeline_count s = length s.pipelines

unfoldable pub get_pipeline_ids : Scheduler → List Text
get_pipeline_ids s = map (λ e. e.0) s.pipelines

unfoldable pub is_queued : Text → Scheduler → Bool
unfolding get_queue_length
is_queued id s = ltb 0 (get_queue_length id s)

-- GetNextRun; `next_of` is what the cron library has for an entry, 0 for a time that is not set.
unfoldable pub get_next_run : (ℕ → ℕ) → Text → Scheduler → ℕ × Option Error
unfolding lookup
get_next_run next_of id s = elim (lookup id s.pipelines) [
  | none ↦ (0, some pipeline_not_found)
  | some h ↦
      if not s.started
      then (0, some not_started)
      else if next_of h == 0
      then (0, some next_run_not_ready)
      else (next_of h, none)
]
