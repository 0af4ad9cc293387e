-- ===== src/Database/Errors.antt =====
-- The classification of database errors by their text (internal/database/errors.go), on ASCII text.
pub mod Retries
use cannectors.Prelude.{
  ℕ, zero, suc, ◌+◌, Bool, true, false, not, ◌&&◌, ◌||◌, Option, none, some, List, [], ◌∷◌, ◌++◌,
  map, length, take, Text, codes, same, leb, ltb, ◌==◌, if◌then◌else◌,
}
use cannectors.ErrHandling.Classify.{Category, network, validation, server, unknown, Classified}

-- DriverPostgres, DriverMySQL, and any other
pub data Driver : Type 0 where
  postgres mysql other_driver : Driver

-- CategoryConnection and the others
pub data DatabaseCategory : Type 0 where
  connection query constraint timeout : DatabaseCategory

-- DatabaseError; the original error is its text.
pub record DatabaseError : Type 0 where
  pub category : DatabaseCategory
  pub operation : Text
  pub message : Text
  pub query_text : Text
  pub param_count : ℕ
  pub original : Text
  pub is_retryable : Bool

-- strings.ToLower
abbrev lower_byte : ℕ → ℕ
lower_byte c = if leb 65 c && leb c 90 then c + 32 else c

abbrev pub to_lower : Text → Text
to_lower s = map lower_byte s

-- strings.Contains
unfoldable pub has_prefix : Text → Text → Bool
has_prefix [] s = true
has_prefix (c ∷ p) [] = false
has_prefix (c ∷ p) (d ∷ s) = (c == d) && has_prefix p s

unfoldable pub has_substring : Text → Text → Bool
unfolding has_prefix
has_substring p [] = has_prefix p []
has_substring p (c ∷ s) = let rest = has_substring p s in has_prefix p (c ∷ s) || rest

unfoldable pub contains_any : List Text → Text → Bool
unfolding has_substring
contains_any [] s = false
contains_any (p ∷ ps) s = has_substring p s || contains_any ps s

abbrev pub timeout_indicators : List Text
timeout_indicators =
    codes "timeout"
    ∷ codes "timed out"
    ∷ codes "deadline exceeded"
    ∷ codes "context deadline"
    ∷ codes "connection timeout"
    ∷ codes "query timeout"
    ∷ []

abbrev pub connection_indicators : List Text
connection_indicators =
    codes "connection refused"
    ∷ codes "connection reset"
    ∷ codes "no such host"
    ∷ codes "network is unreachable"
    ∷ codes "connection closed"
    ∷ codes "broken pipe"
    ∷ codes "bad connection"
    ∷ codes "invalid connection"
    ∷ codes "unexpected eof"
    ∷ codes "server closed"
    ∷ codes "dial tcp"
    ∷ codes "connect: "
    ∷ codes "cannot assign requested address"
    ∷ codes "too many open files"
    ∷ []

abbrev pub constraint_indicators : List Text
constraint_indicators =
    codes "unique constraint"
    ∷ codes "duplicate key"
    ∷ codes "duplicate entry"
    ∷ codes "violates unique"
    ∷ codes "violates foreign key"
    ∷ codes "foreign key constraint"
    ∷ codes "violates check constraint"
    ∷ codes "violates not-null"
    ∷ codes "cannot be null"
    ∷ codes "integrity constraint"
    ∷ codes "constraint violation"
    ∷ []

abbrev pub deadlock_indicators : List Text
deadlock_indicators =
    codes "deadlock"
    ∷ codes "lock wait timeout"
    ∷ codes "serialization failure"
    ∷ codes "could not serialize"
    ∷ []

abbrev pub syntax_indicators : List Text
syntax_indicators =
    codes "syntax error"
    ∷ codes "parse error"
    ∷ (codes "near " ++ (34 ∷ []))
    ∷ codes "at or near"
    ∷ []

abbrev pub constraint_codes : Driver → List Text
constraint_codes postgres =
    codes "23000"
    ∷ codes "23001"
    ∷ codes "23502"
    ∷ codes "23503"
    ∷ codes "23505"
    ∷ codes "23514"
    ∷ codes "23p01"
    ∷ []
constraint_codes mysql =
    codes "1062" ∷ codes "1216" ∷ codes "1217" ∷ codes "1451" ∷ codes "1452" ∷ []
constraint_codes other_driver = []

abbrev pub deadlock_codes : Driver → List Text
deadlock_codes postgres = codes "40001" ∷ codes "40p01" ∷ []
deadlock_codes mysql = codes "1213" ∷ []
deadlock_codes other_driver = []

abbrev pub syntax_codes : Driver → List Text
syntax_codes postgres = codes "42601" ∷ []
syntax_codes mysql = codes "1064" ∷ []
syntax_codes other_driver = []

-- isTimeoutError
unfoldable pub is_timeout_error : Text → Bool
unfolding contains_any
is_timeout_error s = contains_any timeout_indicators s

-- isConnectionError
unfoldable pub is_connection_error : Text → Bool
unfolding contains_any
is_connection_error s = contains_any connection_indicators s

-- isConstraintError
unfoldable pub is_constraint_error : Driver → Text → Bool
unfolding contains_any
is_constraint_error d s =
    contains_any constraint_indicators s || contains_any (constraint_codes d) s

-- isDeadlockError
unfoldable pub is_deadlock_error : Driver → Text → Bool
unfolding contains_any
is_deadlock_error d s = contains_any deadlock_indicators s || contains_any (deadlock_codes d) s

-- isSyntaxError
unfoldable pub is_syntax_error : Driver → Text → Bool
unfolding contains_any
is_syntax_error d s = contains_any syntax_indicators s || contains_any (syntax_codes d) s

-- extractConstraintMessage
unfoldable pub extract_constraint_message : Text → Text
unfolding has_substring
extract_constraint_message s =
    if has_substring (codes "unique") s || has_substring (codes "duplicate") s
    then codes "unique constraint violation: duplicate value exists"
    else if has_substring (codes "foreign key") s
    then codes "foreign key constraint violation: referenced record not found or still referenced"
    else if has_substring (codes "not-null") s || has_substring (codes "cannot be null") s
    then codes "not-null constraint violation: required field is null"
    else if has_substring (codes "check constraint") s
    then codes "check constraint violation: value does not meet requirements"
    else codes "constraint violation"

-- sanitizeQuery
unfoldable pub sanitize_query : Text → Text
sanitize_query q = if ltb 500 (length q) then take 500 q ++ codes "... (truncated)" else q

-- NewDatabaseError
abbrev pub new_database_error : DatabaseCategory → Text → Text → Text → Bool → DatabaseError
new_database_error category operation message original retryable = record {
  category = category;
  operation = operation;
  message = message;
  query_text = [];
  param_count = 0;
  original = original;
  is_retryable = retryable;
}

-- NewQueryError
unfoldable pub new_query_error : Text → Text → Text → ℕ → Text → Bool → DatabaseError
unfolding sanitize_query
new_query_error operation message q param_count original retryable = record {
  category = query;
  operation = operation;
  message = message;
  query_text = sanitize_query q;
  param_count = param_count;
  original = original;
  is_retryable = retryable;
}

-- ClassifyDatabaseError
unfoldable pub classify_database_error : Text → Driver → Text → Text → ℕ → DatabaseError
unfolding is_timeout_error is_connection_error is_constraint_error is_deadlock_error is_syntax_error
    extract_constraint_message new_query_error
classify_database_error e driver operation q n =
    let s = to_lower e in
    if is_timeout_error s
    then new_database_error timeout operation (codes "operation timed out") e true
    else if is_connection_error s
    then new_database_error connection (codes "connect") (codes "connection failed or lost") e true
    else if is_constraint_error driver s
    then new_database_error constraint operation (extract_constraint_message s) e false
    else if is_deadlock_error driver s
    then new_query_error operation (codes "deadlock detected") q n e true
    else if is_syntax_error driver s
    then new_query_error operation (codes "SQL syntax error") q n e false
    else new_query_error operation e q n e false

-- the switch in Classify
unfoldable pub category_of : DatabaseCategory → Bool → Category
category_of connection retryable = network
category_of timeout retryable = network
category_of constraint retryable = validation
category_of query true = server
category_of query false = validation

-- Classify
unfoldable pub classify : DatabaseError → Classified
unfolding category_of
classify e = record {
  category = category_of e.category e.is_retryable;
  retryable = e.is_retryable;
  status_code = 0;
  message = e.message;
}
