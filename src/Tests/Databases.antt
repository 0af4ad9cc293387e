-- ===== src/Tests/Databases.antt =====
-- The database output (internal/modules/output/database.go) with statements that are texts.
use cannectors.Prelude.{
  ◌≡◌, refl, true, false, Option, none, some, List, [], ◌∷◌, Text, codes, same,
}
use cannectors.Value.{Value, text, Fields, end, field}
use cannectors.Value.Maps.{get}
use cannectors.ErrHandling.Marker.Record.{fail, skip}
use cannectors.Output.Database.{DatabaseError, statement_failed, Target, Sent, send_database}
use cannectors.Output.Database.Transactions.{AllOrNothing, send_database-AllOrNothing}
use cannectors.Output.Database.Counts.{send_database_counts_rolled_back}

abbrev row : Text → Fields
row s = field (codes "q") (text s) end

abbrev query_of : Option Value → Option Text
query_of (some (text s)) = some s
query_of v = none

-- The statement "bad" fails.
abbrev picky : Target Text
picky = record {
  build = λ r. query_of (get (codes "q") r);
  statement_fails = λ seen q. same q (codes "bad");
  connect_fails = false;
  begin_fails = false;
  commit_fails = λ seen. false;
  conn_error = λ i. none;
}

abbrev rows : List Fields
rows = row (codes "a") ∷ row (codes "bad") ∷ row (codes "b") ∷ []

skipped :
    send_database picky skip true [] rows
    ≡ record { committed = codes "a" ∷ codes "b" ∷ []; count = 2; error = none }
unfolding send_database get same
skipped = refl

kept :
    send_database picky fail false [] rows
    ≡ record { committed = codes "a" ∷ []; count = 1; error = some statement_failed }
unfolding send_database get same
kept = refl

send_database-AllOrNothing_example : AllOrNothing [] (send_database picky fail true [] rows)
send_database-AllOrNothing_example = send_database-AllOrNothing picky fail [] rows

send_database_counts_rolled_back_example :
    send_database picky fail true [] rows
    ≡ record { committed = []; count = 1; error = some statement_failed }
unfolding get same cannectors.Output.Database.process_record_in_transaction
send_database_counts_rolled_back_example =
    send_database_counts_rolled_back picky fail [] (row (codes "a") ∷ []) (codes "a" ∷ [])
      (row (codes "bad")) (row (codes "b") ∷ []) statement_failed (refl, refl, refl)
      (refl, refl, tt) refl
