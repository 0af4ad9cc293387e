-- ===== src/Tests/DatabaseErrors.antt =====
-- Texts of database errors (internal/database/errors.go).
use cannectors.Prelude.{◌≡◌, refl, true, Text, codes}
use cannectors.Database.Errors.{
  Driver, postgres, mysql, other_driver, timeout, constraint, query, DatabaseError, to_lower,
  classify_database_error,
}
use cannectors.Database.Errors.Retries.{IsVerdict, is_transient, classify-classify_database_error}

abbrev inserted : Text → Driver → DatabaseError
inserted e driver = classify_database_error e driver (codes "insert") (codes "INSERT") 1

-- a timeout by its word, though the list for deadlocks has it too
lock_wait : (inserted (codes "Error 1205: Lock wait timeout exceeded") mysql).category ≡ timeout
unfolding classify_database_error
lock_wait = refl

-- a duplicate that is taken for a timeout and retried
duplicate_named_timeout :
    (inserted (codes "Duplicate entry 'timeout' for key 'name'") mysql).is_retryable ≡ true
unfolding classify_database_error
duplicate_named_timeout = refl

duplicate_code : (inserted (codes "Error 1062") mysql).category ≡ constraint
unfolding classify_database_error
duplicate_code = refl

sqlite_deadlock : (inserted (codes "deadlock") other_driver).category ≡ query
unfolding classify_database_error
sqlite_deadlock = refl

classify-classify_database_error_example :
    IsVerdict
      (is_transient postgres (to_lower (codes "ERROR 40001")))
      (classify_database_error (codes "ERROR 40001") postgres (codes "insert") (codes "INSERT") 1)
classify-classify_database_error_example =
    classify-classify_database_error (codes "ERROR 40001") postgres (codes "insert")
      (codes "INSERT") 1
