-- ===== src/Output/Database/Counts.antt =====
-- The count that Send of the database output returns (internal/modules/output/database.go), record by
-- record.
use mathlib.Core.Path.{ap₂, subst}
use cannectors.Prelude.{
  ℕ, suc, ◌+◌, ◌≡◌, refl, sym, ap, ◌∙◌, arith, true, false, none, some, List, [], ◌∷◌, ◌++◌, length,
  if◌then◌else◌, ok, err,
}
use mathlib.Core.List.{append-nil, append_assoc}
use cannectors.Value.{Fields}
use cannectors.ErrHandling.Marker.Record.{Strategy}
use cannectors.Output.Database.{
  DatabaseError, statement_failed, handle_error, Target, turn, execute,
  process_record_in_transaction, transaction_loop, send_with_transaction, send_database,
}

module _ {S : Type 0} (target : Target S) where
  -- The records have queries `qs`, and none of them fails, one after the other.
  abbrev pub Executes : List S → List Fields → List S → Type 0
  Executes seen [] [] = Unit
  Executes seen (r ∷ rs) (q ∷ qs) =
      (target.build r ≡ some q)
      × (target.statement_fails seen q ≡ false)
      × Executes (seen ++ (q ∷ [])) rs qs
  Executes seen rs qs = ⊥

module _ {S : Type 0} (target : Target S) (on_error : Strategy) where
  executed :
      (seen : List S) (r : Fields) (q : S)
      → target.build r ≡ some q
      → target.statement_fails seen q ≡ false
      → process_record_in_transaction target on_error seen r ≡ ok (some q)
  unfolding process_record_in_transaction execute
  executed seen r q built runs =
      ap (execute target on_error seen) built
      ∙ ap (λ b. if b then handle_error target on_error statement_failed else ok (some q)) runs

  transaction_loop-append :
      (base pending : List S) (count : ℕ) (rs more : List Fields) (qs : List S)
      → Executes target (base ++ pending) rs qs
      → transaction_loop target on_error base pending count (rs ++ more)
        ≡ transaction_loop target on_error base (pending ++ qs) (count + length qs) more
  unfolding transaction_loop turn
  transaction_loop-append base pending count [] more [] h =
      ap₂ (λ p c. transaction_loop target on_error base p c more) (sym (append-nil pending))
        (omega arith)
  transaction_loop-append base pending count [] more (q ∷ qs) h = absurd h
  transaction_loop-append base pending count (r ∷ rs) more [] h = absurd h
  transaction_loop-append base pending count (r ∷ rs) more (q ∷ qs) h =
      let here = executed (base ++ pending) r q h.0 h.1 in
      let later =
        subst (λ seen. Executes target seen rs qs) (append_assoc base pending (q ∷ [])) h.2 in
      ap
        (λ o.
          turn base pending count o (λ p c. transaction_loop target on_error base p c (rs ++ more)))
        here
      ∙ transaction_loop-append base (pending ++ (q ∷ [])) (count + 1) rs more qs later
      ∙ ap₂ (λ p c. transaction_loop target on_error base p c more)
          (append_assoc pending (q ∷ []) qs) (omega arith)

  Executes-length :
      (seen : List S) (rs : List Fields) (qs : List S)
      → Executes target seen rs qs
      → length qs ≡ length rs
  Executes-length seen [] [] h = refl
  Executes-length seen [] (q ∷ qs) h = absurd h
  Executes-length seen (r ∷ rs) [] h = absurd h
  Executes-length seen (r ∷ rs) (q ∷ qs) h = ap suc (Executes-length (seen ++ (q ∷ [])) rs qs h.2)

  -- The pool can be opened and is there, and the transaction begins.
  abbrev pub Starts : Type 0
  Starts =
      (target.connect_fails ≡ false) × (target.conn_error 0 ≡ none) × (target.begin_fails ≡ false)

  send_transaction_started :
      (base : List S) (r : Fields) (rs : List Fields)
      → Starts
      → send_database target on_error true base (r ∷ rs)
        ≡ transaction_loop target on_error base [] 0 (r ∷ rs)
  unfolding send_database send_with_transaction
  send_transaction_started base r rs (connects, opened, begins) =
      simp (connects, opened, begins, send_with_transaction)

  -- With a transaction, the count that comes with an error is that of the records executed before it,
  -- though they are rolled back: where the records of `rs` execute and then `r` fails, the database has
  -- what it had, and the count is the length of `rs`.
  pub send_database_counts_rolled_back :
      (base : List S) (rs : List Fields) (qs : List S) (r : Fields) (more : List Fields)
      (e : DatabaseError)
      → Starts
      → Executes target base rs qs
      → process_record_in_transaction target on_error (base ++ qs) r ≡ err e
      → send_database target on_error true base (rs ++ (r ∷ more))
        ≡ record { committed = base; count = length rs; error = some e }
  unfolding transaction_loop turn
  send_database_counts_rolled_back base rs qs r more e starts h fails =
      started_with rs
      ∙ transaction_loop-append base [] 0 rs (r ∷ more) qs
          (subst (λ seen. Executes target seen rs qs) (sym (append-nil base)) h)
      ∙ ap
          (λ o.
            turn base qs (0 + length qs) o (λ p c. transaction_loop target on_error base p c more))
          fails
      ∙ ap (λ c. record { committed = base; count = c; error = some e }) counted
    where
      started_with :
          (xs : List Fields)
          → send_database target on_error true base (xs ++ (r ∷ more))
            ≡ transaction_loop target on_error base [] 0 (xs ++ (r ∷ more))
      started_with [] = send_transaction_started base r more starts
      started_with (x ∷ xs) = send_transaction_started base x (xs ++ (r ∷ more)) starts

      counted : 0 + length qs ≡ length rs
      counted = omega (arith, Executes-length base rs qs h)
