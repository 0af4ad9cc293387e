-- ===== src/Output/HttpRequest.antt =====
-- The send loops of internal/modules/output/http_request.go: Send, sendBatchMode, sendOneBatch and
-- sendSingleRecordMode.
use cannectors.Prelude.{
  ℕ, suc, ◌+◌, List, [], ◌∷◌, ◌++◌, Text, codes, same, length, if◌then◌else◌, Result, ok, err,
}
use cannectors.Prelude.Int.{ℤ}
use cannectors.Prelude.Decimal.{itoa_ℕ}
use cannectors.Value.{Fields}
use cannectors.ErrHandling.Classify.{GoError}
use cannectors.ErrHandling.Marker.Record.{Strategy, fail, skip, log}
use cannectors.Runtime.Failure.{plain_link, wrap_error}
use cannectors.Output.Batching.{single_mode, chunk_records}

-- HTTPRequestModule. The templates, the encoder and the HTTP client are functions: a body, an endpoint
-- and headers from the records, and `request`, the doRequestWithHeaders of the i-th request, with a
-- nil error for a response that counts as a success. `done i` is the context's error when the loop looks
-- at it before batch `i`.
pub record HttpRequest : Type 0 where
  pub request_mode : Text
  pub batch_size : ℤ
  pub on_error : Strategy
  pub batch_body : List Fields → Result GoError Text
  pub batch_endpoint : List Fields → Result GoError Text
  pub record_body : Fields → ℕ → Result GoError Text
  pub record_endpoint : Fields → Result GoError Text
  pub headers : Fields → Result GoError (List (Text × Text))
  pub request : ℕ → Text → Text → List (Text × Text) → GoError
  pub done : ℕ → GoError

module _ (h : HttpRequest) where
  -- the headers are those of the batch's first record
  unfoldable pub batch_headers : List Fields → Result GoError (List (Text × Text))
  batch_headers [] = ok []
  batch_headers (r ∷ rs) = h.headers r

  -- sendOneBatch
  unfoldable pub send_one_batch : ℕ → List Fields → GoError
  unfolding batch_headers
  send_one_batch i rs = elim (h.batch_body rs) [
    | err e ↦ e
    | ok body ↦ elim (h.batch_endpoint rs) [
      | err e ↦ e
      | ok endpoint ↦ elim (batch_headers rs) [ err e ↦ e | ok hs ↦ h.request i endpoint body hs ]
    ]
  ]

  -- what a batch's error leads to: the strategies skip and log go on
  unfoldable pub batch_failed : Strategy → ℕ → GoError → (ℕ → ℕ × GoError) → ℕ → ℕ × GoError
  unfolding wrap_error
  batch_failed skip i e next sent = next sent
  batch_failed log i e next sent = next sent
  batch_failed _ i e next sent = (sent, wrap_error (codes "httpRequest batch " ++ itoa_ℕ i) e)

  unfoldable pub batch_answered : ℕ → ℕ → GoError → (ℕ → ℕ × GoError) → ℕ → ℕ × GoError
  unfolding batch_failed
  batch_answered i size [] next sent = next (sent + size)
  batch_answered i size (x ∷ xs) next sent = batch_failed h.on_error i (x ∷ xs) next sent

  unfoldable pub unless_done : GoError → ℕ × GoError → ℕ → ℕ × GoError
  unless_done [] go sent = go
  unless_done (x ∷ xs) go sent = (sent, x ∷ xs)

  -- the loop of sendBatchMode from batch `i` on, with `sent` records sent so far
  unfoldable pub send_batches : ℕ → List (List Fields) → ℕ → ℕ × GoError
  unfolding batch_answered unless_done send_one_batch
  send_batches i [] sent = (sent, [])
  send_batches i (b ∷ bs) sent =
      unless_done (h.done i)
        (batch_answered i (length b) (send_one_batch i b) (send_batches (suc i) bs) sent) sent

  -- sendBatchMode
  unfoldable pub send_batch_mode : List Fields → ℕ × GoError
  unfolding send_batches chunk_records
  send_batch_mode rs = send_batches 0 (chunk_records rs h.batch_size) 0

  -- one record of sendSingleRecordMode, with the error as the loop returns it
  unfoldable pub send_one_record : ℕ → Fields → GoError
  unfolding wrap_error
  send_one_record i r = elim (h.record_body r i) [
    | err e ↦
        wrap_error (codes "failed to marshal records to JSON at record " ++ itoa_ℕ i)
          (plain_link (codes "failed to marshal records to JSON") ∷ e)
    | ok body ↦ elim (h.record_endpoint r) [
      | err e ↦ wrap_error (codes "at record " ++ itoa_ℕ i) e
      | ok endpoint ↦ elim (h.headers r) [
        | err e ↦ wrap_error (codes "at record " ++ itoa_ℕ i) e
        | ok hs ↦ h.request i endpoint body hs
      ]
    ]
  ]

  -- only the strategy fail stops
  unfoldable pub record_failed : Strategy → GoError → (ℕ → ℕ × GoError) → ℕ → ℕ × GoError
  record_failed fail e next sent = (sent, e)
  record_failed _ e next sent = next sent

  unfoldable pub record_answered : GoError → (ℕ → ℕ × GoError) → ℕ → ℕ × GoError
  unfolding record_failed
  record_answered [] next sent = next (sent + 1)
  record_answered (x ∷ xs) next sent = record_failed h.on_error (x ∷ xs) next sent

  -- sendSingleRecordMode from record `i` on
  unfoldable pub send_records : ℕ → List Fields → ℕ → ℕ × GoError
  unfolding record_answered send_one_record
  send_records i [] sent = (sent, [])
  send_records i (r ∷ rs) sent =
      record_answered (send_one_record i r) (send_records (suc i) rs) sent

  -- Send
  unfoldable pub send : List Fields → ℕ × GoError
  unfolding send_records send_batch_mode
  send [] = (0, [])
  send (r ∷ rs) =
      if same h.request_mode single_mode
      then send_records 0 (r ∷ rs) 0
      else send_batch_mode (r ∷ rs)
