-- ===== src/Tests/Outputs.antt =====
-- The httpRequest output at concrete records (internal/modules/output).
use cannectors.Prelude.{◌==◌, List, [], ◌∷◌, Text, codes, if◌then◌else◌, ok}
use cannectors.Prelude.Int.{pos}
use cannectors.Value.{text, Fields, end, field}
use cannectors.ErrHandling.Classify.{Link}
use cannectors.ErrHandling.Marker.Record.{Strategy, fail}
use cannectors.Runtime.Failure.{plain_link}
use cannectors.Output.HttpRequest.{HttpRequest, send}
use cannectors.Output.Accounting.{Counted, send-Counted}

abbrev row : Text → Fields
row t = field (codes "id") (text t) end

abbrev rows : List Fields
rows = row (codes "1") ∷ row (codes "2") ∷ row (codes "3") ∷ []

abbrev refused : Link
refused = plain_link (codes "refused")

-- batches of two, the second of which is refused
abbrev second_refused : Strategy → HttpRequest
second_refused s = record {
  request_mode = codes "batch";
  batch_size = pos 2;
  on_error = s;
  batch_body = λ rs. ok (codes "body");
  batch_endpoint = λ rs. ok (codes "https://example.com");
  record_body = λ r i. ok (codes "body");
  record_endpoint = λ r. ok (codes "https://example.com");
  headers = λ r. ok [];
  request = λ i endpoint body hs. if i == 1 then refused ∷ [] else [];
  done = λ i. [];
}

send-Counted_example : Counted fail 3 0 (send (second_refused fail) rows)
send-Counted_example = send-Counted (second_refused fail) rows
