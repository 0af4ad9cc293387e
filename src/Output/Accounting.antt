-- ===== src/Output/Accounting.antt =====
-- How many records the httpRequest output reports as sent (internal/modules/output/http_request.go).
use cannectors.Prelude.{
  ℕ, suc, ◌+◌, ◌≤◌, ◌≡◌, ◌⊎◌, inl, inr, refl, ap, ◌∙◌, arith, Bool, true, false, Bool-cases, List,
  [], ◌∷◌, ◌++◌, Text, codes, same, length, length-append, if◌then◌else◌,
}
use mathlib.Core.Path.{subst}
use cannectors.Prelude.Decimal.{itoa_ℕ}
use cannectors.Value.{Fields}
use cannectors.ErrHandling.Classify.{GoError, Link}
use cannectors.ErrHandling.Marker.Record.{Strategy, fail, skip, log, other}
use cannectors.Runtime.Failure.{wrap_error}
use cannectors.Output.Batching.{single_mode, chunk_records}
use cannectors.Output.Chunks.{joined, joined-chunk_records}
use cannectors.Output.HttpRequest.{
  HttpRequest, send_one_batch, batch_failed, batch_answered, unless_done, send_batches,
  send_batch_mode, send_one_record, record_failed, record_answered, send_records, send,
}

-- Of `total` records that were left, some have been added to `sent`; all of them if the strategy is
-- fail and there is no error.
pub record Counted (s : Strategy) (total sent : ℕ) (a : ℕ × GoError) : Type 0 where
  pub from : sent ≤ a.0
  pub within : a.0 ≤ sent + total
  pub all_sent : s ≡ fail → a.1 ≡ [] → a.0 ≡ sent + total

wrap_error-fails : (t : Text) (e : GoError) → (wrap_error t e ≡ []) → ⊥
unfolding wrap_error
wrap_error-fails t e h = cc

abbrev pub is_nil : GoError → Bool
is_nil [] = true
is_nil (x ∷ xs) = false

module _ (h : HttpRequest) where
  stopped-Counted :
      (total sent : ℕ) (e : GoError) → ((e ≡ []) → ⊥) → Counted h.on_error total sent (sent, e)
  stopped-Counted total sent e bad = record {
    from = omega arith;
    within = omega arith;
    all_sent = λ f no. absurd (bad no);
  }

  more-Counted :
      (s : Strategy) (size total sent : ℕ) (a : ℕ × GoError)
      → Counted s total (sent + size) a
      → Counted s (size + total) sent a
  more-Counted s size total sent a c = record {
    from = omega (arith, c.from);
    within = omega (arith, c.within);
    all_sent = λ f no. omega (arith, c.all_sent f no);
  }

  skipped-Counted :
      (s : Strategy) (size total sent : ℕ) (a : ℕ × GoError)
      → ((s ≡ fail) → ⊥)
      → Counted s total sent a
      → Counted s (size + total) sent a
  skipped-Counted s size total sent a goes_on c = record {
    from = c.from;
    within = omega (arith, c.within);
    all_sent = λ f no. absurd (goes_on f);
  }

  batch_failed-Counted :
      (s : Strategy) (i size total sent : ℕ) (e : GoError) (next : ℕ → ℕ × GoError)
      → Counted s total sent (next sent)
      → Counted s (size + total) sent (batch_failed h s i e next sent)
  unfolding batch_failed
  batch_failed-Counted skip i size total sent e next c =
      skipped-Counted skip size total sent _ (λ f. cc) c
  batch_failed-Counted log i size total sent e next c =
      skipped-Counted log size total sent _ (λ f. cc) c
  batch_failed-Counted fail i size total sent e next c = record {
    from = omega arith;
    within = omega arith;
    all_sent = λ f no. absurd (wrap_error-fails (codes "httpRequest batch " ++ itoa_ℕ i) e no);
  }
  batch_failed-Counted (other t) i size total sent e next c = record {
    from = omega arith;
    within = omega arith;
    all_sent = λ f no. absurd (wrap_error-fails (codes "httpRequest batch " ++ itoa_ℕ i) e no);
  }

  batch_answered-Counted :
      (i size total sent : ℕ) (e : GoError) (next : ℕ → ℕ × GoError)
      → ((n : ℕ) → Counted h.on_error total n (next n))
      → Counted h.on_error (size + total) sent (batch_answered h i size e next sent)
  unfolding batch_answered
  batch_answered-Counted i size total sent [] next c =
      more-Counted h.on_error size total sent _ (c (sent + size))
  batch_answered-Counted i size total sent (x ∷ xs) next c =
      batch_failed-Counted h.on_error i size total sent (x ∷ xs) next (c sent)

  unless_done-Counted :
      (total sent : ℕ) (e : GoError) (a : ℕ × GoError)
      → Counted h.on_error total sent a
      → Counted h.on_error total sent (unless_done h e a sent)
  unfolding unless_done
  unless_done-Counted total sent [] a c = c
  unless_done-Counted total sent (x ∷ xs) a c = stopped-Counted total sent (x ∷ xs) (λ e. cc)

  send_batches-Counted :
      (i : ℕ) (bs : List (List Fields)) (sent : ℕ)
      → Counted h.on_error (length (joined bs)) sent (send_batches h i bs sent)
  unfolding send_batches
  send_batches-Counted i [] sent = record {
    from = omega arith;
    within = omega arith;
    all_sent = λ f no. omega arith;
  }
  send_batches-Counted i (b ∷ bs) sent = unless_done-Counted _ sent (h.done i) _ (
      rw (length-append) (
        batch_answered-Counted i (length b) (length (joined bs)) sent (send_one_batch h i b)
          (send_batches h (suc i) bs) (send_batches-Counted (suc i) bs)))

  record_failed-Counted :
      (s : Strategy) (total sent : ℕ) (x : Link) (xs : GoError) (next : ℕ → ℕ × GoError)
      → Counted s total sent (next sent)
      → Counted s (1 + total) sent (record_failed h s (x ∷ xs) next sent)
  unfolding record_failed
  record_failed-Counted fail total sent x xs next c = record {
    from = omega arith;
    within = omega arith;
    all_sent = λ f no. absurd cc;
  }
  record_failed-Counted skip total sent x xs next c =
      skipped-Counted skip 1 total sent _ (λ f. cc) c
  record_failed-Counted log total sent x xs next c = skipped-Counted log 1 total sent _ (λ f. cc) c
  record_failed-Counted (other t) total sent x xs next c =
      skipped-Counted (other t) 1 total sent _ (λ f. cc) c

  record_answered-Counted :
      (total sent : ℕ) (e : GoError) (next : ℕ → ℕ × GoError)
      → ((n : ℕ) → Counted h.on_error total n (next n))
      → Counted h.on_error (1 + total) sent (record_answered h e next sent)
  unfolding record_answered
  record_answered-Counted total sent [] next c =
      more-Counted h.on_error 1 total sent _ (c (sent + 1))
  record_answered-Counted total sent (x ∷ xs) next c =
      record_failed-Counted h.on_error total sent x xs next (c sent)

  send_records-Counted :
      (i : ℕ) (rs : List Fields) (sent : ℕ)
      → Counted h.on_error (length rs) sent (send_records h i rs sent)
  unfolding send_records
  send_records-Counted i [] sent = record {
    from = omega arith;
    within = omega arith;
    all_sent = λ f no. omega arith;
  }
  send_records-Counted i (r ∷ rs) sent =
      let one_more : 1 + length rs ≡ suc (length rs) = omega arith in
      subst (λ n. Counted h.on_error n sent (send_records h i (r ∷ rs) sent)) one_more
        (record_answered-Counted (length rs) sent (send_one_record h i r)
          (send_records h (suc i) rs) (send_records-Counted (suc i) rs))

  -- In both request modes, `Send` reports at most as many records as it was given, and under the
  -- strategy fail it reports all of them unless it returns an error.
  pub send-Counted : (rs : List Fields) → Counted h.on_error (length rs) 0 (send h rs)
  unfolding send send_batch_mode
  send-Counted [] = record {
    from = omega arith;
    within = omega arith;
    all_sent = λ f no. omega arith;
  }
  send-Counted (r ∷ rs) = elim (Bool-cases (same h.request_mode single_mode)) [
    | inl single ↦ rw (single, send) (send_records-Counted 0 (r ∷ rs) 0)
    | inr batched ↦
        rw (batched, send)
          (subst
            (λ n. Counted h.on_error n 0 (send_batches h 0 (chunk_records (r ∷ rs) h.batch_size) 0))
            (ap length (joined-chunk_records (r ∷ rs) h.batch_size))
            (send_batches-Counted 0 (chunk_records (r ∷ rs) h.batch_size) 0))
  ]

  -- what the requests of the batches from `i` on, sent one after the other, deliver
  abbrev pub delivered : ℕ → List (List Fields) → List Fields
  delivered i [] = []
  delivered i (b ∷ bs) = (if is_nil (send_one_batch h i b) then b else []) ++ delivered (suc i) bs

  goes_on :
      (i size : ℕ) (e : GoError) (next : ℕ → ℕ × GoError) (sent : ℕ)
      → (h.on_error ≡ skip) ⊎ (h.on_error ≡ log)
      → batch_answered h i size e next sent ≡ next (sent + (if is_nil e then size else 0))
  unfolding batch_answered batch_failed
  goes_on i size [] next sent s = refl
  goes_on i size (x ∷ xs) next sent (inl s) = rw (s, batch_failed) (ap next (omega arith))
  goes_on i size (x ∷ xs) next sent (inr s) = rw (s, batch_failed) (ap next (omega arith))

  length-if :
      (b : Bool) (xs : List Fields) → length (if b then xs else []) ≡ (if b then length xs else 0)
  length-if true xs = refl
  length-if false xs = refl

  send_batches-delivered :
      (i : ℕ) (bs : List (List Fields)) (sent : ℕ)
      → (h.on_error ≡ skip) ⊎ (h.on_error ≡ log)
      → ((k : ℕ) → h.done k ≡ [])
      → send_batches h i bs sent ≡ (sent + length (delivered i bs), [])
  unfolding send_batches unless_done
  send_batches-delivered i [] sent s live = ap (λ n. (n, [])) (omega arith)
  send_batches-delivered i (b ∷ bs) sent s live = rw (live) (
      goes_on i (length b) (send_one_batch h i b) (send_batches h (suc i) bs) sent s
      ∙ (send_batches-delivered (suc i) bs _ s live
          ∙ ap (λ n. (n, [])) (rw (length-append, length-if) (omega arith))))

  -- Under the strategies skip and log, and while the context lives, batch mode returns no error,
  -- sends every batch whatever happened to those before it, and reports the records of those batches
  -- whose request succeeded.
  pub send_batch_mode-delivered :
      (rs : List Fields)
      → (h.on_error ≡ skip) ⊎ (h.on_error ≡ log)
      → ((k : ℕ) → h.done k ≡ [])
      → send_batch_mode h rs ≡ (length (delivered 0 (chunk_records rs h.batch_size)), [])
  unfolding send_batch_mode
  send_batch_mode-delivered rs s live =
      send_batches-delivered 0 (chunk_records rs h.batch_size) 0 s live
      ∙ ap (λ n. (n, [])) (omega arith)
