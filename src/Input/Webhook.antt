-- ===== src/Input/Webhook.antt =====
-- The webhook input (internal/modules/input/webhook.go) as a state machine: the server, its workers with
-- their queue, the rate limiter, and shutdown. A request is served in one step; a worker takes a payload
-- in one step.
pub mod Serving
pub mod Payload
pub mod Outcomes
pub mod Ordered
pub mod Accepted
pub mod Shutdown
use cannectors.Prelude.{
  ℕ, zero, suc, ◌+◌, ◌-◌, Bool, true, false, not, ◌&&◌, ◌||◌, Option, none, some, List, [], ◌∷◌,
  ◌++◌, length, take, drop, Text, codes, same, is_blank, ltb, ◌==◌, if◌then◌else◌, is_some,
}
use cannectors.Value.{Value, array, object, Items, nil, cons, Fields}
use cannectors.Value.Maps.{get}

-- The configuration that NewWebhookFromConfig has checked; the rate and the burst of a limit.
pub record Config : Type 0 where
  pub endpoint : Text
  pub data_field : Text
  pub signature : Option (Text × Text)
  pub queue_size : ℕ
  pub max_concurrent : ℕ
  pub rate_limit : Option (ℕ × ℕ)

-- The other code's part: encoding/json, the hexadecimal HMAC of a body under a secret, and the
-- handler, if there is one, with whether it fails.
pub record Environment : Type 0 where
  pub decode_array : Text → Option (List Fields)
  pub decode_object : Text → Option Fields
  pub hmac : Text → Text → Text
  pub handler : Option (List Fields → Bool)

-- A request; its body is not there if it cannot be read.
pub record Request : Type 0 where
  pub method : Text
  pub path : Text
  pub header : Text → Text
  pub body : Option Text

-- Webhook: the tokens of the limiter; the queue and its workers; the two `sync.Once`. `accepted` and
-- `handled` are the payloads that were put into the queue and that the workers took, in order, `called`
-- those that the handler got in the request itself.
pub record Webhook : Type 0 where
  pub running : Bool
  pub serving : Bool
  pub tokens : Option ℕ
  pub queue : Option (List (List Fields))
  pub workers : ℕ
  pub shut : Bool
  pub workers_shut : Bool
  pub accepted : List (List Fields)
  pub handled : List (List Fields)
  pub called : List (List Fields)

abbrev pub new_webhook : Webhook
new_webhook = record {
  running = false;
  serving = false;
  tokens = none;
  queue = none;
  workers = 0;
  shut = false;
  workers_shut = false;
  accepted = [];
  handled = [];
  called = [];
}

-- newRateLimiter, Allow, and a tick of its goroutine, which holds no more than `burst` tokens
unfoldable pub new_rate_limiter : Option (ℕ × ℕ) → Option ℕ
new_rate_limiter none = none
new_rate_limiter (some (rate, burst)) = if (rate == 0) || (burst == 0) then none else some burst

abbrev pub burst_of : Option (ℕ × ℕ) → ℕ
burst_of none = 0
burst_of (some (rate, burst)) = burst

unfoldable pub allow : Option ℕ → Bool × Option ℕ
allow none = (true, none)
allow (some zero) = (false, some zero)
allow (some (suc n)) = (true, some n)

unfoldable pub refill : ℕ → Option ℕ → Option ℕ
refill burst none = none
refill burst (some n) = if ltb n burst then some (suc n) else some n

-- validateSignature: a bare digest, or one after `sha256=`
unfoldable pub trim_digest : Text → Text
unfolding same
trim_digest s = elim (same (take 7 s) (codes "sha256=")) [ true ↦ drop 7 s | false ↦ s ]

unfoldable pub validate_signature : Environment → Text × Text → Request → Text → Bool
unfolding same trim_digest
validate_signature env (secret, name) r body =
    not (is_blank secret)
    && (not (is_blank (r.header name)) && same (trim_digest (r.header name)) (env.hmac secret body))

unfoldable pub check_signature : Environment → Option (Text × Text) → Request → Text → Bool
unfolding validate_signature
check_signature env none r body = true
check_signature env (some s) r body = validate_signature env s r body

-- convertToRecords, extractDataFromField and parsePayload
abbrev pub records_of : Items → Option (List Fields)
records_of nil = some []
records_of (cons (object m) a) = elim (records_of a) [ none ↦ none | some rs ↦ some (m ∷ rs) ]
records_of (cons v a) = none

abbrev pub convert_to_records : Option Value → Option (List Fields)
convert_to_records (some (array a)) = records_of a
convert_to_records v = none

unfoldable pub first_records : List Text → Fields → List Fields
unfolding get
first_records [] obj = obj ∷ []
first_records (k ∷ ks) obj = elim (convert_to_records (get k obj)) [
  | none ↦ first_records ks obj
  | some rs ↦ rs
]

unfoldable pub parse_payload : Environment → Text → Text → Option (List Fields)
unfolding get first_records
parse_payload env data_field body = elim (env.decode_array body) [
  | some rs ↦ some rs
  | none ↦ elim (env.decode_object body) [
    | none ↦ none
    | some obj ↦
        if not (is_blank data_field)
        then convert_to_records (get data_field obj)
        else some (
            first_records (codes "data" ∷ codes "items" ∷ codes "results" ∷ codes "records" ∷ [])
              obj)
  ]
]
