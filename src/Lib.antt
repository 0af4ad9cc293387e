-- ===== src/Lib.antt =====
-- Cannectors, a runtime of declarative data pipelines: an input fetches records, filters change them
-- in turn, and an output sends them. These modules model the parts that decide what happens to a
-- record and to a failure.
--
-- Which file models which code:
--   Value: a decoded JSON value, map[string]any as a list of fields, of which the first with a key
--     counts, []any as Items. Value/Maps is the reading, writing and deleting of keys, Value/Arrays that of
--     positions.
--   RecordPath: internal/recordpath/path.go. Segment is ParsePart with strings.Split, strings.Index and
--     strconv.Atoi; Access is Get, Set, Delete and the helpers they call. A write returns the new
--     record beside the error, since the code writes in place and may fail half-way.
--   ErrHandling/Classify: internal/errhandling/errors.go and module_error.go. A Go error is the list of
--     the links of its Unwrap chain.
--   ErrHandling/Retry: internal/errhandling/retry.go (Executor: Execute, ExecuteWithHooks, ShouldRetry;
--     clampDelay) and pkg/connector/retry.go (Delay: Validate, CalculateDelay). A World says what the
--     called function, the context and the clock answer at each attempt. The loop is structural on the
--     rounds left, MaxAttempts + 1 of them as in the code, so no fuel is needed.
--   ErrHandling/Marker: internal/errhandling/marker.go; Marker/Record also marker_tally.go and
--     record_error.go.
--   Filter: internal/modules/filter/set.go, remove.go and drop.go; Batch is the loop of their Process.
--     Filter/CallMerge: internal/modules/filter/call_merge.go, the contract by which the call filters merge a
--     response into a record. Filter/Condition: internal/modules/filter/condition.go, the routing of records
--     through nested modules, which are functions of a state and may change the records given to them.
--   Input/Response and Input/Paging: internal/modules/input/http_polling_pagination.go with the extraction
--     of records of http_polling.go: fetching by pages, offsets and cursors.
--   Input/Webhook: internal/modules/input/webhook.go. Webhook is its state, Webhook/Serving its handler,
--     Start, shutdown and the workers, and a step relation as a function over sequences of events.
--   Scheduler: internal/scheduler/scheduler.go as a state machine. A goroutine that executes a pipeline is a
--     Task with a place in executePipeline; a step is what one task or one method does under the lock.
--   SqlTemplate: internal/sqltemplate/sqltemplate.go. Scan is sqlToken and scanPlaceholders, Build is
--     Compile, validatePlaceholders and BuildDescribed.
--   Settings: internal/config/envsubst.go; an environment is a function, and the names reported come in the
--     order of the walk.
--   Auth/TokenCache: internal/auth/oauth2_tokencache.go and fetchToken, getValidToken and InvalidateToken of
--     internal/auth/oauth2.go. The calls come one after another; concurrent misses, which singleflight
--     collapses, are not modelled.
--   Database/Errors: internal/database/errors.go, the classification of an error by its text, on ASCII text.
--   HttpClient/Attempt: the function in internal/httpclient/doretry.go (DoWithRetry) that the executor of
--     internal/errhandling/retry.go calls for each attempt.
--   Cache: internal/cache/lru.go. A method takes the time at which it reads the clock, and the order in
--     which Go walks the map is a parameter.
--   Persistence: internal/persistence/config.go, id_extractor.go and state.go (StateStore), the latter over
--     the files of one directory, with the failures of os and the encoding as a parameter.
--   Runtime: internal/runtime/pipeline.go and records_input.go. Types has the modules as functions of the
--     trace, the list of what the execution did so far, so that they may keep state; Stages has one
--     function for each stage, Failure the reports of errors; Execute composes them as executePipelineStages and ExecuteWithContext do.
--   Output: internal/modules/output/batching.go and request_mode.go (Batching), and of http_request.go
--     Send, sendBatchMode, sendOneBatch and sendSingleRecordMode (HttpRequest), where templates, encoding
--     and the request itself are functions. slices.Chunk is a structural recursion that carries the room
--     left in the current chunk. Output/Database is Send, Connect, conn and Close of
--     internal/modules/output/database.go, over the list of the statements that the database has committed.
--   Tests: runs at concrete inputs.
--
-- How they interact: the executor calls the modules and classifies their errors; a filter that goes on
-- after a failure annotates the record under `_errors` and counts it in the run's tally, and the
-- filters that write fields refuse paths into `_errors`; paths, values and the classification are
-- shared by all of them.
--
-- The executor is what the scheduler runs, one execution of a pipeline at a time; the paging and the
-- webhook inputs hand over the records with which an execution starts.
--
-- Bounds: the loops of paging stop at 1000 pages, limits or rounds as in the code, and return what they
-- have; they run on fuel, of which more than 1000 is enough where a thousand limits fit an int
-- (Input/Paging/Walk). The scheduler's steps are sequences of any length; Scheduler/Settling has the weight
-- that bounds the steps of its tasks. All other loops are structural on their list or text.
--
-- Numbers: a Go int that the code only counts up is a natural number, one that may be negative is an
-- integer; the offsets of paging and time.Duration wrap at 64 bits; strconv.Atoi fails above the largest int. float64 is a record of
-- operations with the documented laws of conversion, for exponential backoff only.
--
-- Parameters: urlsan.Sanitize and urlsan.RedactText, the formats of fmt for floats and for other
-- values, the clock, contexts, os and encoding/json for the state store, and for the executor the modules;
-- for the httpRequest output its bodies, endpoints, headers and requests; the cron library and its times
-- for the scheduler; the requests of the paging input and the merging of query parameters; for the webhook
-- the decoding of JSON, the HMAC and the handler; for SQL templates the evaluation of a parameter, as of an
-- expression for the condition filter; for the token cache SHA-256 and the replies of the endpoint; for the
-- database output its queries and the driver.
--
-- Not modelled: logging, locks other than as atomic steps, the HTTP client but for what an attempt comes to, the SOAP modules, the
-- loop, mapping, script and call filters but for the merging of responses, template
-- expressions, the parsing and validation of configuration files, constructors that only fill in a
-- configuration, and the command line.
pub mod Prelude
pub mod Value
pub mod RecordPath
pub mod ErrHandling
pub mod Filter
pub mod Cache
pub mod Persistence
pub mod Output
pub mod Auth
pub mod Database
pub mod HttpClient
pub mod Settings
pub mod SqlTemplate
pub mod Input
pub mod Scheduler
pub mod Runtime
mod Tests
