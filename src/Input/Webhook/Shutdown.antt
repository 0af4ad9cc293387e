-- ===== src/Input/Webhook/Shutdown.antt =====
-- The end of a webhook server (internal/modules/input/webhook.go: shutdown, stopWorkers, and Start when
-- the server fails).
use mathlib.Core.Path.{subst}
use cannectors.Prelude.{
  ℕ, ◌≡◌, refl, sym, ap, ◌∙◌, Bool, true, false, Bool-cases, Option, none, some, List, [], ◌∷◌,
  ◌++◌, length, is_some, ltb, ◌==◌, if◌then◌else◌, if-has, inl, inr,
}
use cannectors.Value.{Fields}
use cannectors.Input.Webhook.{Config, Environment, Request, Webhook, allow, new_rate_limiter}
use cannectors.Input.Webhook.Outcomes.{serve-Outcome}
use cannectors.Input.Webhook.Serving.{
  dispatch, serve, start_workers, start_server, stop_workers, shutdown, server_failed, work,
  take_next, Event, starts, requests, refills, works, stops, fails, step, run,
}

-- The shutdown is behind it, and its workers are as `w` has them: with a queue or not, stopped or not.
abbrev IsShutAs : Webhook → Webhook → Type 0
IsShutAs w v =
    (v.shut ≡ true)
    × (v.workers_shut ≡ w.workers_shut)
    × (is_some w.queue ≡ true → is_some v.queue ≡ true)

-- the parts of the state that a request does not touch
abbrev pub Serves : Webhook → Webhook → Type 0
Serves w v =
    (v.shut ≡ w.shut) × (v.workers_shut ≡ w.workers_shut) × (is_some v.queue ≡ is_some w.queue)

dispatch-Serves :
    (c : Config) (h : Option (List Fields → Bool)) (q : Option (List (List Fields)))
    (rs : List Fields) (w : Webhook)
    → q ≡ w.queue
    → Serves w (dispatch c h q rs w).0
unfolding dispatch
dispatch-Serves c none q rs w e = (refl, refl, refl)
dispatch-Serves c (some f) none rs w e = (refl, refl, refl)
dispatch-Serves c (some f) (some q) rs w e = go (ltb (length q) c.queue_size)
  where
    go :
        (b : Bool)
        → let r : Webhook × ℕ =
            (if b
              then (
                record w { queue = some (q ++ (rs ∷ [])); accepted = w.accepted ++ (rs ∷ []) },
                202,
              )
              else (w, 429)) in
          Serves w r.0
    go true = (refl, refl, ap is_some e)
    go false = (refl, refl, refl)

serve-Serves :
    (env : Environment) (c : Config) (r : Request) (w : Webhook) → Serves w (serve env c r w).0
serve-Serves env c r w = elim (serve-Outcome env c r w) [
  | inl (t, _, same_but, _) ↦ (
    ap (λ v. v.shut) same_but,
    ap (λ v. v.workers_shut) same_but,
    ap (λ v. is_some v.queue) same_but,
  )
  | inr (body, rs, _, _, _, _, _, _, dispatched) ↦
      let (a, b, d) =
        dispatch-Serves c env.handler w.queue rs (record w { tokens = (allow w.tokens).1 }) refl in
      (
        ap (λ p. p.0.shut) dispatched ∙ a,
        ap (λ p. p.0.workers_shut) dispatched ∙ b,
        ap (λ p. is_some p.0.queue) dispatched ∙ d,
      )
]

-- once the shutdown is behind it, another does nothing
shutdown_again : (n : ℕ) (v : Webhook) → v.shut ≡ true → shutdown n v ≡ v
unfolding shutdown
shutdown_again n v h =
    ap
      (λ b.
        if b
        then v
        else if v.running
        then stop_workers n (record v { shut = true; running = false; serving = false })
        else record v { shut = true })
      h

shutdown-IsShutAs : (w v : Webhook) (n : ℕ) → IsShutAs w v → IsShutAs w (shutdown n v)
shutdown-IsShutAs w v n h = subst (IsShutAs w) (sym (shutdown_again n v h.0)) h

start_workers-IsShutAs :
    (c : Config) (f : Option (List Fields → Bool)) (q : Option (List (List Fields))) (w v : Webhook)
    → IsShutAs w v
    → IsShutAs w (start_workers c f q v)
unfolding start_workers
start_workers-IsShutAs c none q w v h = h
start_workers-IsShutAs c (some f) (some q) w v h = h
start_workers-IsShutAs c (some f) none w v h = elim (Bool-cases (c.queue_size == 0)) [
  | inl e ↦ rw e h
  | inr e ↦ rw e (h.0, h.1, λ _. refl)
]

start_server-IsShutAs :
    (env : Environment) (c : Config) (listens : Bool) (w v : Webhook)
    → IsShutAs w v
    → IsShutAs w (start_server env c listens v).0
unfolding start_server
start_server-IsShutAs env c listens w v h =
    let P : Webhook × Bool → Type 0 = (λ p. IsShutAs w p.0) in
    if-has P v.running _ _ h (
      if-has P listens _ _
        (start_workers-IsShutAs c env.handler v.queue w
          (record v { running = true; serving = true; tokens = new_rate_limiter c.rate_limit }) h)
        h)

take_next-IsShutAs :
    (w v : Webhook) (q : Option (List (List Fields))) → IsShutAs w v → IsShutAs w (take_next q v)
unfolding take_next
take_next-IsShutAs w v none h = h
take_next-IsShutAs w v (some []) h = h
take_next-IsShutAs w v (some (rs ∷ q)) h = (h.0, h.1, λ _. refl)

step-IsShutAs :
    (env : Environment) (c : Config) (e : Event) (w v : Webhook)
    → IsShutAs w v
    → IsShutAs w (step env c e v)
unfolding step server_failed
step-IsShutAs env c (starts listens) w v h = start_server-IsShutAs env c listens w v h
step-IsShutAs env c (requests r) w v h =
    let (a, b, d) = serve-Serves env c r v in
    if-has (IsShutAs w) v.serving _ _ (a ∙ h.0, b ∙ h.1, λ q. d ∙ h.2 q) h
step-IsShutAs env c refills w v h = h
step-IsShutAs env c works w v h = unfold work in take_next-IsShutAs w v v.queue h
step-IsShutAs env c (stops n) w v h = shutdown-IsShutAs w v n h
step-IsShutAs env c (fails n) w v h =
    if-has (IsShutAs w) v.serving _ _
      (shutdown-IsShutAs w (record v { running = false; serving = false }) n h) h

run-IsShutAs :
    (env : Environment) (c : Config) (es : List Event) (w v : Webhook)
    → IsShutAs w v
    → IsShutAs w (run env c es v)
unfolding run
run-IsShutAs env c [] w v h = h
run-IsShutAs env c (e ∷ es) w v h =
    run-IsShutAs env c es w (step env c e v) (step-IsShutAs env c e w v h)

server_failed-IsShutAs : (n : ℕ) (w : Webhook) → w.shut ≡ false → IsShutAs w (server_failed n w)
unfolding server_failed shutdown
server_failed-IsShutAs n w h = simp h (refl, refl, λ q. q)

-- When the server fails, the shutdown that should clean up only uses up its one chance: the workers of a
-- webhook that had not been shut down are not stopped by it, nor by any stop, failure or restart that
-- comes after it, and the queue they wait on stays.
pub server_failed_leaves_workers :
    (env : Environment) (c : Config) (n : ℕ) (es : List Event) (w : Webhook)
    → w.shut ≡ false
    → let v = run env c es (server_failed n w) in
      (v.workers_shut ≡ w.workers_shut) × (is_some w.queue ≡ true → is_some v.queue ≡ true)
server_failed_leaves_workers env c n es w h =
    let (_, a, b) = run-IsShutAs env c es w (server_failed n w) (server_failed-IsShutAs n w h) in
    (a, b)
