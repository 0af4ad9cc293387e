-- ===== src/Input/Webhook/Serving.antt =====
-- The handler of a webhook request, the workers, and the life of the server (internal/modules/input/
-- webhook.go: createHandler and what it calls, startWorkers, Start, shutdown, stopWorkers).
use cannectors.Prelude.{
  ℕ, Bool, true, false, not, Option, none, some, List, [], ◌∷◌, ◌++◌, length, take, Text, codes,
  same, is_blank, ltb, ◌==◌, if◌then◌else◌,
}
use cannectors.Value.{Fields}
use cannectors.Input.Webhook.{
  Config, Environment, Request, Webhook, new_rate_limiter, burst_of, allow, refill, check_signature,
  parse_payload,
}

-- writeSuccessResponse
unfoldable pub success_status : Option (List (List Fields)) → ℕ
success_status none = 200
success_status (some q) = 202

-- dispatchToHandler with the response that follows it
unfoldable pub dispatch :
    Config
    → Option (List Fields → Bool)
    → Option (List (List Fields))
    → List Fields
    → Webhook
    → Webhook × ℕ
unfolding success_status
dispatch c none q rs w = (w, success_status q)
dispatch c (some fails) (some q) rs w =
    if ltb (length q) c.queue_size
    then (record w { queue = some (q ++ (rs ∷ [])); accepted = w.accepted ++ (rs ∷ []) }, 202)
    else (w, 429)
dispatch c (some fails) none rs w =
    (record w { called = w.called ++ (rs ∷ []) }, if fails rs then 500 else 200)

-- parsePayloadAndLog and the rest
unfoldable pub answer_payload : Environment → Config → Option (List Fields) → Webhook → Webhook × ℕ
unfolding dispatch
answer_payload env c none w = (w, 400)
answer_payload env c (some rs) w = dispatch c env.handler w.queue rs w

-- readRequestBody, checkSignature and the rest
unfoldable pub answer_body : Environment → Config → Request → Option Text → Webhook → Webhook × ℕ
unfolding check_signature parse_payload answer_payload
answer_body env c r none w = (w, 400)
answer_body env c r (some body) w =
    if is_blank body
    then (w, 400)
    else if not (check_signature env c.signature r body)
    then (w, 401)
    else answer_payload env c (parse_payload env c.data_field body) w

-- checkRateLimit and the rest
unfoldable pub answer_limited :
    Environment → Config → Request → Bool × Option ℕ → Webhook → Webhook × ℕ
unfolding answer_body
answer_limited env c r (true, tokens) w = answer_body env c r r.body (record w { tokens = tokens })
answer_limited env c r (false, tokens) w = (record w { tokens = tokens }, 429)

-- createHandler
unfoldable pub serve : Environment → Config → Request → Webhook → Webhook × ℕ
unfolding same allow answer_limited
serve env c r w =
    if not (same r.method (codes "POST"))
    then (w, 405)
    else if not (same r.path c.endpoint)
    then (w, 404)
    else answer_limited env c r (allow w.tokens) w

-- startWorkers
unfoldable pub start_workers :
    Config → Option (List Fields → Bool) → Option (List (List Fields)) → Webhook → Webhook
start_workers c none q w = w
start_workers c (some fails) (some q) w = w
start_workers c (some fails) none w = if c.queue_size == 0 then w else record w {
  queue = some [];
  workers = (if c.max_concurrent == 0 then 1 else c.max_concurrent);
}

-- Start, up to its wait; `listens` says that the address can be bound. Without success the limiter is
-- gone again.
unfoldable pub start_server : Environment → Config → Bool → Webhook → Webhook × Bool
unfolding new_rate_limiter start_workers
start_server env c listens w =
    if w.running
    then (w, false)
    else if listens
    then (
      start_workers c env.handler w.queue
          (record w { running = true; serving = true; tokens = new_rate_limiter c.rate_limit }),
      true,
    )
    else (record w { running = false; tokens = none }, false)

-- stopWorkers; of what is in the queue the workers still take the first `n`, and
-- the rest is gone.
unfoldable pub close_queue : ℕ → Option (List (List Fields)) → Webhook → Webhook
close_queue n none w = w
close_queue n (some q) w = record w { queue = none; workers = 0; handled = w.handled ++ take n q }

unfoldable pub stop_workers : ℕ → Webhook → Webhook
unfolding close_queue
stop_workers n w =
    if w.workers_shut
    then w
    else close_queue n w.queue (record w { workers_shut = true; tokens = none })

-- shutdown, once for all
unfoldable pub shutdown : ℕ → Webhook → Webhook
unfolding stop_workers
shutdown n w =
    if w.shut
    then w
    else if w.running
    then stop_workers n (record w { shut = true; running = false; serving = false })
    else record w { shut = true }

-- Start once the server has failed: `running` is reset, then comes the shutdown.
unfoldable pub server_failed : ℕ → Webhook → Webhook
unfolding shutdown
server_failed n w = shutdown n (record w { running = false; serving = false })

-- a worker that takes the next payload
unfoldable pub take_next : Option (List (List Fields)) → Webhook → Webhook
take_next none w = w
take_next (some []) w = w
take_next (some (rs ∷ q)) w = record w { queue = some q; handled = w.handled ++ (rs ∷ []) }

unfoldable pub work : Webhook → Webhook
unfolding take_next
work w = take_next w.queue w

pub data Event : Type 0 where
  starts : Bool → Event
  requests : Request → Event
  refills works : Event
  stops fails : ℕ → Event

-- what happens to a webhook; requests come while the server is up.
unfoldable pub step : Environment → Config → Event → Webhook → Webhook
unfolding serve start_server shutdown server_failed work refill
step env c (starts listens) w = (start_server env c listens w).0
step env c (requests r) w = if w.serving then (serve env c r w).0 else w
step env c refills w = record w { tokens = refill (burst_of c.rate_limit) w.tokens }
step env c works w = work w
step env c (stops n) w = shutdown n w
step env c (fails n) w = if w.serving then server_failed n w else w

unfoldable pub run : Environment → Config → List Event → Webhook → Webhook
unfolding step
run env c [] w = w
run env c (e ∷ es) w = run env c es (step env c e w)
