-- ===== src/Input/Webhook/Accepted.antt =====
-- What becomes of the payloads of a webhook in all that can happen to it (internal/modules/input/webhook.go).
use mathlib.Core.Path.{subst}
use cannectors.Prelude.{
  ℕ, ◌≡◌, refl, sym, ap, ◌∙◌, arith, Bool, true, false, Option, none, some, List, [], ◌∷◌, ◌++◌,
  ◌==◌, if-has, inl, inr,
}
use cannectors.Value.{Fields}
use cannectors.Input.Webhook.{
  Config, Environment, Request, Webhook, new_webhook, allow, burst_of, new_rate_limiter,
}
use cannectors.Input.Webhook.Outcomes.{serve-Outcome}
use cannectors.Input.Webhook.Serving.{
  serve, start_workers, start_server, close_queue, stop_workers, shutdown, server_failed, work,
  Event, starts, requests, refills, works, stops, fails, step, run,
}
use cannectors.Input.Webhook.Ordered.{
  pending, tokens_left, IsOrdered, allow_le, refill_le, new_rate_limiter_le, dispatch-IsOrdered,
  take_next-IsOrdered,
}

serve-IsOrdered :
    (env : Environment) (c : Config) (r : Request) (w : Webhook)
    → IsOrdered c w
    → IsOrdered c (serve env c r w).0
serve-IsOrdered env c r w h = elim (serve-Outcome env c r w) [
  | inl (t, change, same_but, _) ↦ subst (IsOrdered c) (sym same_but) (record {
    in_order = h.in_order;
    fits = h.fits;
    limited = elim change [
      | inl kept ↦ omega (arith, ap tokens_left kept, h.limited)
      | inr taken ↦ omega (arith, ap tokens_left taken, allow_le w.tokens, h.limited)
    ];
  })
  | inr (body, rs, _, _, _, _, _, _, dispatched) ↦
      subst (λ p. IsOrdered c p.0) (sym dispatched)
        (dispatch-IsOrdered c env.handler w.queue rs (record w { tokens = (allow w.tokens).1 }) refl
          (record {
            in_order = h.in_order;
            fits = h.fits;
            limited = omega (arith, allow_le w.tokens, h.limited);
          }))
]

close_queue-IsOrdered :
    (c : Config) (n : ℕ) (q : Option (List (List Fields))) (w : Webhook)
    → IsOrdered c w
    → IsOrdered c (close_queue n q (record w { workers_shut = true; tokens = none }))
unfolding close_queue
close_queue-IsOrdered c n none w h = record {
  in_order = λ up. absurd cc;
  fits = h.fits;
  limited = omega arith;
}
close_queue-IsOrdered c n (some q) w h = record {
  in_order = λ up. absurd cc;
  fits = omega arith;
  limited = omega arith;
}

-- `running`, `serving` and `shut` are not part of it.
other_flags :
    (c : Config) (w : Webhook) (a b d : Bool)
    → IsOrdered c w
    → IsOrdered c (record w { running = a; serving = b; shut = d })
other_flags c w a b d h = record { in_order = h.in_order; fits = h.fits; limited = h.limited }

shutdown-IsOrdered : (c : Config) (n : ℕ) (w : Webhook) → IsOrdered c w → IsOrdered c (shutdown n w)
unfolding shutdown stop_workers
shutdown-IsOrdered c n w h = if-has (IsOrdered c) w.shut _ _ h (
    if-has (IsOrdered c) w.running _ _
      (if-has (IsOrdered c) w.workers_shut _ _ (other_flags c w false false true h) (
        close_queue-IsOrdered c n w.queue
          (record w { shut = true; running = false; serving = false })
          (other_flags c w false false true h)))
      (other_flags c w w.running w.serving true h))

start_workers-IsOrdered :
    (c : Config) (f : Option (List Fields → Bool)) (q : Option (List (List Fields))) (w : Webhook)
    → q ≡ w.queue
    → IsOrdered c w
    → IsOrdered c (start_workers c f q w)
unfolding start_workers
start_workers-IsOrdered c none q w e h = h
start_workers-IsOrdered c (some f) (some q) w e h = h
start_workers-IsOrdered c (some f) none w e h =
    if-has (IsOrdered c) (c.queue_size == 0) _ _ h (record {
      in_order = λ up. h.in_order up ∙ ap (λ p. w.handled ++ pending p) (sym e);
      fits = omega arith;
      limited = h.limited;
    })

start_server-IsOrdered :
    (env : Environment) (c : Config) (listens : Bool) (w : Webhook)
    → IsOrdered c w
    → IsOrdered c (start_server env c listens w).0
unfolding start_server
start_server-IsOrdered env c listens w h =
    let P : Webhook × Bool → Type 0 = (λ p. IsOrdered c p.0) in
    if-has P w.running _ _ h (
      if-has P listens _ _
        (start_workers-IsOrdered c env.handler w.queue
          (record w { running = true; serving = true; tokens = new_rate_limiter c.rate_limit }) refl
          (record {
            in_order = h.in_order;
            fits = h.fits;
            limited = new_rate_limiter_le c.rate_limit;
          }))
        (record { in_order = h.in_order; fits = h.fits; limited = omega arith }))

step-IsOrdered :
    (env : Environment) (c : Config) (e : Event) (w : Webhook)
    → IsOrdered c w
    → IsOrdered c (step env c e w)
unfolding step server_failed work
step-IsOrdered env c (starts listens) w h = start_server-IsOrdered env c listens w h
step-IsOrdered env c (requests r) w h =
    if-has (IsOrdered c) w.serving _ _ (serve-IsOrdered env c r w h) h
step-IsOrdered env c refills w h = record {
  in_order = h.in_order;
  fits = h.fits;
  limited = refill_le (burst_of c.rate_limit) w.tokens h.limited;
}
step-IsOrdered env c works w h = take_next-IsOrdered c w.queue w refl h
step-IsOrdered env c (stops n) w h = shutdown-IsOrdered c n w h
step-IsOrdered env c (fails n) w h =
    if-has (IsOrdered c) w.serving _ _
      (shutdown-IsOrdered c n (record w { running = false; serving = false })
        (other_flags c w false false w.shut h))
      h

run-IsOrdered :
    (env : Environment) (c : Config) (es : List Event) (w : Webhook)
    → IsOrdered c w
    → IsOrdered c (run env c es w)
unfolding run
run-IsOrdered env c [] w h = h
run-IsOrdered env c (e ∷ es) w h =
    run-IsOrdered env c es (step env c e w) (step-IsOrdered env c e w h)

-- Whatever starts, requests, refills, works, stops and failures of the server happen to a new webhook:
-- until its workers are stopped, the payloads accepted are those that the workers took followed by those
-- that wait, in order, so that none is lost; no more than `queue_size` wait, and there are no more tokens
-- than the burst.
pub run-new_webhook-IsOrdered :
    (env : Environment) (c : Config) (es : List Event) → IsOrdered c (run env c es new_webhook)
run-new_webhook-IsOrdered env c es =
    run-IsOrdered env c es new_webhook
      (record { in_order = λ up. refl; fits = omega arith; limited = omega arith })
