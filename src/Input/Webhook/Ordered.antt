-- ===== src/Input/Webhook/Ordered.antt =====
-- The queue and the tokens of a webhook (internal/modules/input/webhook.go): what is kept in order and in
-- bounds, by a dispatch and by a worker.
use cannectors.Prelude.{
  ℕ, zero, suc, ◌≡◌, ◌≤◌, refl, sym, ap, ◌∙◌, arith, Bool, true, false, Option, none, some, List,
  [], ◌∷◌, ◌++◌, length, length-append, ltb, ◌==◌, ◌||◌, if◌then◌else◌, if-has,
}
use mathlib.Core.List.{append_assoc}
use cannectors.Value.{Fields}
use cannectors.Input.Webhook.{Config, Webhook, allow, refill, burst_of, new_rate_limiter}
use cannectors.Input.Webhook.Serving.{dispatch, take_next}

-- what waits in the queue, and the tokens that are left
abbrev pub pending : Option (List (List Fields)) → List (List Fields)
pending none = []
pending (some q) = q

abbrev pub tokens_left : Option ℕ → ℕ
tokens_left none = 0
tokens_left (some n) = n

-- Until the workers are stopped, the payloads that were accepted are those that the workers took and then
-- those that wait, in order, so that none is lost. The queue and the tokens are bounded.
pub record IsOrdered (c : Config) (w : Webhook) : Type 0 where
  pub in_order : w.workers_shut ≡ false → (w.accepted ≡ w.handled ++ pending w.queue)
  pub fits : length (pending w.queue) ≤ c.queue_size
  pub limited : tokens_left w.tokens ≤ burst_of c.rate_limit

-- The payloads change, and the flags and the tokens do what they want within the bound.
pub allow_le : (t : Option ℕ) → tokens_left (allow t).1 ≤ tokens_left t
unfolding allow
allow_le none = omega arith
allow_le (some zero) = omega arith
allow_le (some (suc n)) = omega arith

pub refill_le : (b : ℕ) (t : Option ℕ) → tokens_left t ≤ b → tokens_left (refill b t) ≤ b
unfolding refill
refill_le b none h = omega arith
refill_le b (some n) h = ground (arith, h)

pub new_rate_limiter_le : (l : Option (ℕ × ℕ)) → tokens_left (new_rate_limiter l) ≤ burst_of l
unfolding new_rate_limiter
new_rate_limiter_le none = omega arith
new_rate_limiter_le (some (rate, burst)) =
    if-has (λ t. tokens_left t ≤ burst) ((rate == 0) || (burst == 0)) none (some burst)
      (omega arith) (omega arith)

pub dispatch-IsOrdered :
    (c : Config) (f : Option (List Fields → Bool)) (q : Option (List (List Fields)))
    (rs : List Fields) (w : Webhook)
    → q ≡ w.queue
    → IsOrdered c w
    → IsOrdered c (dispatch c f q rs w).0
unfolding dispatch
dispatch-IsOrdered c none q rs w e h = h
dispatch-IsOrdered c (some f) none rs w e h = record {
  in_order = h.in_order;
  fits = h.fits;
  limited = h.limited;
}
dispatch-IsOrdered c (some f) (some q) rs w e h = go (ltb (length q) c.queue_size) refl
  where
    go :
        (b : Bool)
        → b ≡ ltb (length q) c.queue_size
        → let r : Webhook × ℕ =
            (if b
              then (
                record w { queue = some (q ++ (rs ∷ [])); accepted = w.accepted ++ (rs ∷ []) },
                202,
              )
              else (w, 429)) in
          IsOrdered c r.0
    go true room = record {
      in_order = λ up.
          ap (λ a. a ++ (rs ∷ [])) (h.in_order up ∙ ap (λ p. w.handled ++ pending p) (sym e))
          ∙ append_assoc w.handled q (rs ∷ []);
      fits = ground (arith, room, length-append q (rs ∷ []));
      limited = h.limited;
    }
    go false room = h

pub take_next-IsOrdered :
    (c : Config) (q : Option (List (List Fields))) (w : Webhook)
    → q ≡ w.queue
    → IsOrdered c w
    → IsOrdered c (take_next q w)
unfolding take_next
take_next-IsOrdered c none w e h = h
take_next-IsOrdered c (some []) w e h = h
take_next-IsOrdered c (some (rs ∷ q)) w e h = record {
  in_order = λ up.
      h.in_order up
      ∙ ap (λ p. w.handled ++ pending p) (sym e)
      ∙ sym (append_assoc w.handled (rs ∷ []) q);
  fits = omega (arith, h.fits, ap (λ p. length (pending p)) e);
  limited = h.limited;
}
