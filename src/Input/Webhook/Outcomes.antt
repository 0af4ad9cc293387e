-- ===== src/Input/Webhook/Outcomes.antt =====
-- What a webhook request can come to (internal/modules/input/webhook.go: createHandler): a refusal, or the
-- dispatch of its payload.
use mathlib.Core.Path.{subst}
use cannectors.Prelude.{
  ℕ, ◌≡◌, ◌≤◌, ◌⊎◌, refl, sym, ap, arith, Bool, true, false, not, Option, none, some, List, Text,
  codes, same, is_blank, if-cases, inl, inr,
}
use cannectors.Value.{Fields}
use cannectors.Input.Webhook.{
  Config, Environment, Request, Webhook, allow, check_signature, parse_payload,
}
use cannectors.Input.Webhook.Payload.{IsPayload, parse_payload-IsPayload}
use cannectors.Input.Webhook.Serving.{dispatch, answer_payload, answer_body, answer_limited, serve}

-- A refusal changes nothing but the tokens, and its status says so.
abbrev pub IsRefusal : Webhook → Webhook × ℕ → Type 0
IsRefusal w p =
    (t : Option ℕ) × ((t ≡ w.tokens) ⊎ (t ≡ (allow w.tokens).1))
    × (p.0 ≡ record w { tokens = t })
    × (400 ≤ p.1)

-- A payload is dispatched only from a POST request to the endpoint whose body has the signature, if one
-- is configured, and once the limiter has given a token.
abbrev pub IsDispatch : Environment → Config → Request → Webhook → Webhook × ℕ → Type 0
IsDispatch env c r w p =
    (body : Text) × (rs : List Fields) × (r.body ≡ some body)
    × IsPayload env c.data_field body rs
    × (check_signature env c.signature r body ≡ true)
    × (same r.method (codes "POST") ≡ true)
    × (same r.path c.endpoint ≡ true)
    × ((allow w.tokens).0 ≡ true)
    × (p ≡ dispatch c env.handler w.queue rs (record w { tokens = (allow w.tokens).1 }))

abbrev pub Outcome : Environment → Config → Request → Webhook → Webhook × ℕ → Type 0
Outcome env c r w p = IsRefusal w p ⊎ IsDispatch env c r w p

module _ (env : Environment) (c : Config) (r : Request) (w : Webhook) where
  abbrev limited : Webhook
  limited = record w { tokens = (allow w.tokens).1 }

  refused_later : (n : ℕ) → 400 ≤ n → Outcome env c r w (limited, n)
  refused_later n h = inl ((allow w.tokens).1, inr refl, refl, h)

  answer_payload-Outcome :
      (body : Text) (o : Option (List Fields))
      → r.body ≡ some body
      → o ≡ parse_payload env c.data_field body
      → check_signature env c.signature r body ≡ true
      → same r.method (codes "POST") ≡ true
      → same r.path c.endpoint ≡ true
      → (allow w.tokens).0 ≡ true
      → Outcome env c r w (answer_payload env c o limited)
  unfolding answer_payload
  answer_payload-Outcome body none e d s m p a = refused_later 400 (omega arith)
  answer_payload-Outcome body (some rs) e d s m p a =
      inr (body, rs, e, parse_payload-IsPayload env c.data_field body rs (sym d), s, m, p, a, refl)

  answer_body-Outcome :
      (o : Option Text)
      → r.body ≡ o
      → same r.method (codes "POST") ≡ true
      → same r.path c.endpoint ≡ true
      → (allow w.tokens).0 ≡ true
      → Outcome env c r w (answer_body env c r o limited)
  unfolding answer_body
  answer_body-Outcome none e m p a = refused_later 400 (omega arith)
  answer_body-Outcome (some body) e m p a =
      if-cases (Outcome env c r w) (is_blank body) _ _ (λ _. refused_later 400 (omega arith))
        (λ _.
          if-cases (Outcome env c r w) (not (check_signature env c.signature r body)) _ _
            (λ _. refused_later 401 (omega arith))
            (λ s.
              answer_payload-Outcome body (parse_payload env c.data_field body) e refl
                (ground (arith, s)) m p a))

  answer_limited-Outcome :
      (a : Bool × Option ℕ)
      → a ≡ allow w.tokens
      → same r.method (codes "POST") ≡ true
      → same r.path c.endpoint ≡ true
      → Outcome env c r w (answer_limited env c r a w)
  unfolding answer_limited
  answer_limited-Outcome (true, t) e m p =
      subst (λ u. Outcome env c r w (answer_body env c r r.body (record w { tokens = u })))
        (sym (ap (λ x. x.1) e)) (answer_body-Outcome r.body refl m p (sym (ap (λ x. x.0) e)))
  answer_limited-Outcome (false, t) e m p = inl (t, inr (ap (λ x. x.1) e), refl, omega arith)

  -- Every request is refused, with a status from 400 on and nothing done but the taking of a token, or it is
  -- a POST to the endpoint that the limiter allows, whose body has the signature asked for and is parsed, and
  -- its records are dispatched.
  pub serve-Outcome : Outcome env c r w (serve env c r w)
  unfolding serve
  serve-Outcome =
      if-cases (Outcome env c r w) (not (same r.method (codes "POST"))) _ _
        (λ _. inl (w.tokens, inl refl, refl, omega arith))
        (λ m.
          if-cases (Outcome env c r w) (not (same r.path c.endpoint)) _ _
            (λ _. inl (w.tokens, inl refl, refl, omega arith))
            (λ p.
              answer_limited-Outcome (allow w.tokens) refl (ground (arith, m)) (ground (arith, p))))
