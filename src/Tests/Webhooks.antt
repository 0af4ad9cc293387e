-- ===== src/Tests/Webhooks.antt =====
-- A signed webhook with a queue for one payload (internal/modules/input/webhook.go).
use cannectors.Prelude.{◌≡◌, refl, true, false, none, some, List, [], ◌∷◌, codes, is_some}
use cannectors.Value.{array, object, nil, cons, end, field}
use cannectors.Input.Webhook.{Config, Environment, Request, Webhook, new_webhook}
use cannectors.Input.Webhook.Serving.{
  serve, server_failed, Event, starts, requests, refills, works, stops, run,
}
use cannectors.Input.Webhook.Outcomes.{Outcome, serve-Outcome}
use cannectors.Input.Webhook.Ordered.{IsOrdered}
use cannectors.Input.Webhook.Accepted.{run-new_webhook-IsOrdered}
use cannectors.Input.Webhook.Shutdown.{server_failed_leaves_workers}

abbrev hook : Config
hook = record {
  endpoint = codes "/in";
  data_field = [];
  signature = some (codes "key", codes "X-Sig");
  queue_size = 1;
  max_concurrent = 0;
  rate_limit = some (5, 3);
}

-- every body is an object with one record under `items`, and its digest is "d"
abbrev world : Environment
world = record {
  decode_array = λ body. none;
  decode_object = λ body. some (field (codes "items") (array (cons (object end) nil)) end);
  hmac = λ secret body. codes "d";
  handler = some (λ rs. false);
}

abbrev signed : Request
signed = record {
  method = codes "POST";
  path = codes "/in";
  header = λ name. codes "sha256=d";
  body = some (codes "{}");
}

abbrev forged : Request
forged = record signed { header = λ name. codes "sha256=x" }

abbrev up : Webhook
up = run world hook (starts true ∷ []) new_webhook

accepted : (serve world hook signed up).1 ≡ 202
unfolding serve run
accepted = refl

refused : (serve world hook forged up).1 ≡ 401
unfolding serve run
refused = refl

full : (serve world hook signed (run world hook (requests signed ∷ []) up)).1 ≡ 429
unfolding serve run
full = refl

serve-Outcome_example : Outcome world hook signed up (serve world hook signed up)
serve-Outcome_example = serve-Outcome world hook signed up

abbrev day : List Event
day = starts true ∷ requests signed ∷ works ∷ requests signed ∷ refills ∷ requests signed ∷ []

run-new_webhook-IsOrdered_example : IsOrdered hook (run world hook day new_webhook)
run-new_webhook-IsOrdered_example = run-new_webhook-IsOrdered world hook day

server_failed_leaves_workers_example :
    let v = run world hook (stops 1 ∷ starts true ∷ stops 1 ∷ []) (server_failed 0 up) in
    (v.workers_shut ≡ up.workers_shut) × (is_some up.queue ≡ true → is_some v.queue ≡ true)
unfolding run
server_failed_leaves_workers_example =
    server_failed_leaves_workers world hook 0 (stops 1 ∷ starts true ∷ stops 1 ∷ []) up refl
