-- ===== src/Tests/Markers.antt =====
-- Markers on concrete records (internal/errhandling/marker.go, record_error.go).
use cannectors.Prelude.{true, [], ◌∷◌, Text, codes}
use cannectors.Prelude.Int.{pos}
use cannectors.Value.{text, Fields, end, field}
use cannectors.ErrHandling.Classify.{server, GoError}
use cannectors.ErrHandling.Marker.{Overrides, Source, Marker}
use cannectors.Runtime.Failure.{plain_link}

abbrev overrides : Overrides
overrides = record { functional = 409 ∷ []; technical = 409 ∷ 425 ∷ [] }

abbrev failing : Marker
failing = record {
  module_name = codes "http_call";
  category = server;
  retryable = true;
  code = [];
  status_code = 503;
  message = codes "down";
  attempts = pos 2;
  record_index = pos 0;
}

abbrev order : Fields
order = field (codes "id") (text (codes "7")) end

abbrev source : Source
source = record {
  module_name = codes "http_call";
  record_index = pos 0;
  attempts = pos 1;
  overrides = overrides;
}

abbrev as_is : Text → Text
as_is t = t

abbrev boom : GoError
boom = plain_link (codes "boom") ∷ []
