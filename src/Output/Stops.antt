-- ===== src/Output/Stops.antt =====
-- Where batch mode stops under the strategy fail (internal/modules/output/http_request.go,
-- sendBatchMode).
use cannectors.Prelude.{
  ℕ, suc, ◌+◌, ◌≡◌, refl, ap, ◌∙◌, arith, List, [], ◌∷◌, ◌++◌, codes, length, length-append,
}
use cannectors.Prelude.Decimal.{itoa_ℕ}
use cannectors.Value.{Fields}
use cannectors.ErrHandling.Classify.{GoError, Link}
use cannectors.ErrHandling.Marker.Record.{fail}
use cannectors.Runtime.Failure.{wrap_error}
use cannectors.Output.Batching.{chunk_records}
use cannectors.Output.Chunks.{joined}
use cannectors.Output.HttpRequest.{
  HttpRequest, send_one_batch, batch_failed, batch_answered, unless_done, send_batches,
  send_batch_mode,
}

next_index : (i n : ℕ) → suc i + n ≡ i + suc n
next_index i n = omega arith

regroup : (a b c : ℕ) → a + b + c ≡ a + (b + c)
regroup a b c = omega arith

zero_plus : (n : ℕ) → 0 + n ≡ n
zero_plus n = omega arith

module _ (h : HttpRequest) where
  -- The context lives and the requests of the batches, numbered from `i` on, succeed.
  abbrev pub Succeed : ℕ → List (List Fields) → Type 0
  Succeed i [] = Unit
  Succeed i (b ∷ bs) = (h.done i ≡ []) × (send_one_batch h i b ≡ []) × Succeed (suc i) bs

  send_batches-append :
      (i : ℕ) (front : List (List Fields)) (bs : List (List Fields)) (sent : ℕ)
      → Succeed i front
      → send_batches h i (front ++ bs) sent
        ≡ send_batches h (i + length front) bs (sent + length (joined front))
  unfolding send_batches unless_done batch_answered
  send_batches-append i [] bs sent s = at (omega arith) (omega arith)
    where
      at : {j n : ℕ} → i ≡ j → sent ≡ n → send_batches h i bs sent ≡ send_batches h j bs n
      at p q = ap (λ k. send_batches h k bs sent) p ∙ ap (send_batches h _ bs) q
  send_batches-append i (b ∷ front) bs sent s =
      rw (s.0, s.1)
        (send_batches-append (suc i) front bs (sent + length b) s.2
          ∙ (ap (λ k. send_batches h k bs (sent + length b + length (joined front)))
                (next_index i (length front))
              ∙ ap (send_batches h (i + length (b ∷ front)) bs)
                  (rw (length-append) (regroup sent (length b) (length (joined front))))))

  stops_at :
      (k : ℕ) (b : List Fields) (back : List (List Fields)) (sent : ℕ) (x : Link) (xs : GoError)
      → h.on_error ≡ fail
      → h.done k ≡ []
      → send_one_batch h k b ≡ x ∷ xs
      → send_batches h k (b ∷ back) sent
        ≡ (sent, wrap_error (codes "httpRequest batch " ++ itoa_ℕ k) (x ∷ xs))
  unfolding send_batches unless_done batch_answered batch_failed
  stops_at k b back sent x xs is_fail live fails = rw (live, fails, is_fail, batch_failed) refl

  -- Under the strategy fail, batch mode stops at the first batch whose request fails: it reports the
  -- records of the batches before it and returns its error, wrapped with its number.
  pub send_batch_mode_stops :
      (rs : List Fields) (front : List (List Fields)) (b : List Fields) (back : List (List Fields))
      (x : Link) (xs : GoError)
      → h.on_error ≡ fail
      → chunk_records rs h.batch_size ≡ front ++ (b ∷ back)
      → Succeed 0 front
      → h.done (length front) ≡ []
      → send_one_batch h (length front) b ≡ x ∷ xs
      → send_batch_mode h rs ≡ (
        length (joined front),
        wrap_error (codes "httpRequest batch " ++ itoa_ℕ (length front)) (x ∷ xs),
      )
  unfolding send_batch_mode
  send_batch_mode_stops rs front b back x xs is_fail chunks s live fails =
      ap (λ bs. send_batches h 0 bs 0) chunks
      ∙ (send_batches-append 0 front (b ∷ back) 0 s
          ∙ (ap (λ k. send_batches h k (b ∷ back) (0 + length (joined front)))
                (zero_plus (length front))
              ∙ (ap (send_batches h (length front) (b ∷ back)) (zero_plus (length (joined front)))
                  ∙ stops_at (length front) b back (length (joined front)) x xs is_fail live
                      fails)))
