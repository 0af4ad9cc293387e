-- ===== src/Output/Database.antt =====
-- The database output (internal/modules/output/database.go: Connect, conn, Send and its two loops). A
-- database is the list of the statements that it has committed; whether a statement fails is a function
-- of those that it sees before it.
pub mod Transactions
pub mod Counts
use cannectors.Prelude.{
  ℕ, zero, suc, ◌+◌, Bool, true, false, Option, none, some, List, [], ◌∷◌, ◌++◌, if◌then◌else◌,
  Result, ok, err,
}
use cannectors.Value.{Fields}
use cannectors.ErrHandling.Marker.Record.{Strategy, fail, skip, log, other}

pub data DatabaseError : Type 0 where
  output_closed not_connected connect_failed begin_failed commit_failed : DatabaseError
  build_failed statement_failed : DatabaseError

-- The other code's part: the query of a record, the verdicts of the driver, and whether the pool is open
-- when a record's turn comes, which Close may change meanwhile.
pub record Target (S : Type 0) : Type 0 where
  pub build : Fields → Option S
  pub statement_fails : List S → S → Bool
  pub connect_fails : Bool
  pub begin_fails : Bool
  pub commit_fails : List S → Bool
  pub conn_error : ℕ → Option DatabaseError

-- What a Send did: the statements that the database has committed, the count and the error.
pub record Sent (S : Type 0) : Type 0 where
  pub committed : List S
  pub count : ℕ
  pub error : Option DatabaseError

-- One turn of a loop: an error ends it with what the database then has, else the rest goes on with the
-- statements seen and the count.
unfoldable pub turn :
    {S : Type 0}
    → List S
    → List S
    → ℕ
    → Result DatabaseError (Option S)
    → (List S → ℕ → Sent S)
    → Sent S
turn left seen count (err e) rest = record { committed = left; count = count; error = some e }
turn left seen count (ok none) rest = rest seen count
turn left seen count (ok (some q)) rest = rest (seen ++ (q ∷ [])) (count + 1)

module _ {S : Type 0} (target : Target S) (on_error : Strategy) where
  -- handleQueryBuildError and handleDatabaseError: the record is passed over, or its error ends the loop.
  unfoldable pub handle_error : DatabaseError → Result DatabaseError (Option S)
  handle_error e = elim on_error [ skip ↦ ok none | log ↦ ok none | fail ↦ err e | other s ↦ err e ]

  -- one record, after the statements `seen`: its statement if it was executed
  unfoldable pub execute : List S → Option S → Result DatabaseError (Option S)
  unfolding handle_error
  execute seen none = handle_error build_failed
  execute seen (some q) =
      if target.statement_fails seen q then handle_error statement_failed else ok (some q)

  -- processRecordInTransaction
  unfoldable pub process_record_in_transaction : List S → Fields → Result DatabaseError (Option S)
  unfolding execute
  process_record_in_transaction seen r = execute seen (target.build r)

  -- The loop of sendWithTransaction with its Rollback and Commit; `base` is what the database had.
  unfoldable pub transaction_loop : List S → List S → ℕ → List Fields → Sent S
  unfolding process_record_in_transaction turn
  transaction_loop base pending count [] =
      if target.commit_fails (base ++ pending)
      then record { committed = base; count = count; error = some commit_failed }
      else record { committed = base ++ pending; count = count; error = none }
  transaction_loop base pending count (r ∷ rs) =
      turn base pending count (process_record_in_transaction (base ++ pending) r)
        (λ pending' count'. transaction_loop base pending' count' rs)

  -- sendWithTransaction
  unfoldable pub send_with_transaction : List S → List Fields → Sent S
  unfolding transaction_loop
  send_with_transaction base rs = elim (target.conn_error 0) [
    | some e ↦ record { committed = base; count = 0; error = some e }
    | none ↦
        if target.begin_fails
        then record { committed = base; count = 0; error = some begin_failed }
        else transaction_loop base [] 0 rs
  ]

  -- processRecordWithoutTransaction; the query is built before the pool is looked at.
  unfoldable pub process_without : ℕ → List S → Option S → Result DatabaseError (Option S)
  unfolding execute handle_error
  process_without i seen none = handle_error build_failed
  process_without i seen (some q) = elim (target.conn_error i) [
    | some e ↦ err e
    | none ↦ execute seen (some q)
  ]

  unfoldable pub process_record_without_transaction :
      ℕ → List S → Fields → Result DatabaseError (Option S)
  unfolding process_without
  process_record_without_transaction i seen r = process_without i seen (target.build r)

  -- sendWithoutTransaction, from the record at position `i` on: a statement is there once it is executed.
  unfoldable pub send_from : ℕ → List S → ℕ → List Fields → Sent S
  unfolding process_record_without_transaction turn
  send_from i done count [] = record { committed = done; count = count; error = none }
  send_from i done count (r ∷ rs) =
      turn done done count (process_record_without_transaction i done r)
        (λ done' count'. send_from (i + 1) done' count' rs)

  unfoldable pub send_without_transaction : List S → List Fields → Sent S
  unfolding send_from
  send_without_transaction base rs = send_from 0 base 0 rs

  -- Send; `base` is what the database had.
  unfoldable pub send_database : Bool → List S → List Fields → Sent S
  unfolding send_with_transaction send_without_transaction
  send_database transaction base [] = record { committed = base; count = 0; error = none }
  send_database transaction base (r ∷ rs) =
      if target.connect_fails
      then record { committed = base; count = 0; error = some connect_failed }
      else if transaction
      then send_with_transaction base (r ∷ rs)
      else send_without_transaction base (r ∷ rs)

-- Connect and conn of an output that is closed or not, and has a pool or not; `opens` says that opening
-- one succeeds.
pub record Pool : Type 0 where
  pub closed : Bool
  pub has_pool : Bool

unfoldable pub connect : Bool → Pool → Pool × Option DatabaseError
connect opens p =
    if p.closed
    then (p, some output_closed)
    else if p.has_pool
    then (p, none)
    else if opens
    then (record p { has_pool = true }, none)
    else (p, some connect_failed)

unfoldable pub conn : Pool → Option DatabaseError
conn p = if p.closed then some output_closed else if p.has_pool then none else some not_connected

-- Close
unfoldable pub close : Pool → Pool
close p = record { closed = true; has_pool = false }
