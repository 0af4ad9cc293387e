-- ===== src/Database/Errors/Retries.antt =====
-- Which database errors are retried (internal/database/errors.go: ClassifyDatabaseError, Classify).
use cannectors.Prelude.{ℕ, ◌≡◌, arith, Bool, not, ◌&&◌, ◌||◌, Text, if-cases}
use cannectors.ErrHandling.Classify.{is_fatal_category}
use cannectors.Database.Errors.{
  Driver, DatabaseError, to_lower, is_timeout_error, is_connection_error, is_constraint_error,
  is_deadlock_error, is_syntax_error, new_query_error, classify_database_error, category_of,
  classify,
}

-- A timeout or a lost connection is transient, and so is a deadlock whose text is not that of a violated
-- constraint.
abbrev pub is_transient : Driver → Text → Bool
is_transient d s =
    is_timeout_error s
    || (is_connection_error s || (not (is_constraint_error d s) && is_deadlock_error d s))

-- the verdict of a database error for the error handling of the pipeline
abbrev pub IsVerdict : Bool → DatabaseError → Type 0
IsVerdict transient e =
    ((classify e).retryable ≡ transient) × (is_fatal_category (classify e).category ≡ not transient)

-- The error of a database is retryable if its text, in lower case, is that of a timeout, of a lost
-- connection, or of a deadlock and not of a violated constraint, and otherwise its category is fatal for the
-- pipeline: never both, and never neither.
pub classify-classify_database_error :
    (e : Text) (driver : Driver) (operation q : Text) (n : ℕ)
    → IsVerdict (is_transient driver (to_lower e)) (classify_database_error e driver operation q n)
unfolding classify_database_error classify category_of new_query_error
classify-classify_database_error e driver operation q n =
    let s = to_lower e in
    let P : DatabaseError → Type 0 = (λ x. IsVerdict (is_transient driver s) x) in
    if-cases P (is_timeout_error s) _ _ (λ a. (ground (arith, a), ground (arith, a)))
      (λ a.
        if-cases P (is_connection_error s) _ _ (λ b. (ground (arith, a, b), ground (arith, a, b)))
          (λ b.
            if-cases P (is_constraint_error driver s) _ _
              (λ c. (ground (arith, a, b, c), ground (arith, a, b, c)))
              (λ c.
                if-cases P (is_deadlock_error driver s) _ _
                  (λ d. (ground (arith, a, b, c, d), ground (arith, a, b, c, d)))
                  (λ d.
                    if-cases P (is_syntax_error driver s) _ _
                      (λ f. (ground (arith, a, b, c, d), ground (arith, a, b, c, d)))
                      (λ f. (ground (arith, a, b, c, d), ground (arith, a, b, c, d)))))))
