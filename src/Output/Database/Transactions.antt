-- ===== src/Output/Database/Transactions.antt =====
-- What Send of the database output leaves in the database (internal/modules/output/database.go).
use cannectors.Prelude.{
  ℕ, ◌+◌, ◌≡◌, ◌⊎◌, refl, sym, ap, ◌∙◌, arith, true, false, Option, none, some, List, [], ◌∷◌, ◌++◌,
  length, length-append, if-has, Result, ok, err, inl, inr,
}
use mathlib.Core.List.{append-nil, append_assoc}
use cannectors.Value.{Fields}
use cannectors.ErrHandling.Marker.Record.{Strategy}
use cannectors.Output.Database.{
  DatabaseError, begin_failed, commit_failed, connect_failed, Target, Sent, turn,
  process_record_in_transaction, transaction_loop, send_with_transaction,
  process_record_without_transaction, send_from, send_without_transaction, send_database,
}

-- The database has what it had and the statements added, as many as the count says.
abbrev pub Adds : {S : Type 0} → List S → Sent S → Type 0
Adds {S} base sent =
    (added : List S) × (sent.committed ≡ base ++ added) × (length added ≡ sent.count)

-- Nothing was added and there is an error, or all that the count says was added, and there is none.
abbrev pub AllOrNothing : {S : Type 0} → List S → Sent S → Type 0
AllOrNothing {S} base sent =
    ((e : DatabaseError) × (sent.error ≡ some e) × (sent.committed ≡ base))
    ⊎ ((sent.error ≡ none) × Adds base sent)

module _ {S : Type 0} where
  -- a property of both cases of an optional error
  unless-has :
      (P : Sent S → Type 0) (o : Option DatabaseError) (f : DatabaseError → Sent S) (y : Sent S)
      → ((e : DatabaseError) → P (f e))
      → P y
      → P (elim o as (λ x. Sent S) [ some e ↦ f e | none ↦ y ])
  unless-has P none f y hf hy = hy
  unless-has P (some e) f y hf hy = hf e

  turn-AllOrNothing :
      (base pending : List S) (count : ℕ) (o : Result DatabaseError (Option S))
      (rest : List S → ℕ → Sent S)
      → length pending ≡ count
      → ((pending' : List S) (count' : ℕ)
          → length pending' ≡ count'
          → AllOrNothing base (rest pending' count'))
      → AllOrNothing base (turn base pending count o rest)
  unfolding turn
  turn-AllOrNothing base pending count (err x) rest e h = inl (x, refl, refl)
  turn-AllOrNothing base pending count (ok none) rest e h = h pending count e
  turn-AllOrNothing base pending count (ok (some q)) rest e h =
      h (pending ++ (q ∷ [])) (count + 1) (omega (arith, length-append pending (q ∷ []), e))

  turn-Adds :
      (base done : List S) (count : ℕ) (o : Result DatabaseError (Option S))
      (rest : List S → ℕ → Sent S)
      → (added : List S) × (done ≡ base ++ added) × (length added ≡ count)
      → ((done' : List S) (count' : ℕ)
          → (added : List S) × (done' ≡ base ++ added) × (length added ≡ count')
          → Adds base (rest done' count'))
      → Adds base (turn done done count o rest)
  unfolding turn
  turn-Adds base done count (err x) rest added h = added
  turn-Adds base done count (ok none) rest added h = h done count added
  turn-Adds base done count (ok (some q)) rest (added, e, l) h = h (done ++ (q ∷ [])) (count + 1) (
    added ++ (q ∷ []),
    ap (λ d. d ++ (q ∷ [])) e ∙ append_assoc base added (q ∷ []),
    omega (arith, length-append added (q ∷ []), l),
  )

module _ {S : Type 0} (target : Target S) (on_error : Strategy) where
  transaction_loop-AllOrNothing :
      (base pending : List S) (count : ℕ) (rs : List Fields)
      → length pending ≡ count
      → AllOrNothing base (transaction_loop target on_error base pending count rs)
  unfolding transaction_loop
  transaction_loop-AllOrNothing base pending count [] e =
      if-has (AllOrNothing base) (target.commit_fails (base ++ pending)) _ _
        (inl (commit_failed, refl, refl)) (inr (refl, (pending, refl, e)))
  transaction_loop-AllOrNothing base pending count (r ∷ rs) e =
      turn-AllOrNothing base pending count
        (process_record_in_transaction target on_error (base ++ pending) r) _ e
        (λ pending' count' e'. transaction_loop-AllOrNothing base pending' count' rs e')

  send_with_transaction-AllOrNothing :
      (base : List S) (rs : List Fields)
      → AllOrNothing base (send_with_transaction target on_error base rs)
  unfolding send_with_transaction
  send_with_transaction-AllOrNothing base rs =
      unless-has (AllOrNothing base) (target.conn_error 0) _ _ (λ e. inl (e, refl, refl))
        (if-has (AllOrNothing base) target.begin_fails _ _ (inl (begin_failed, refl, refl))
          (transaction_loop-AllOrNothing base [] 0 rs refl))

  -- Send with a transaction either adds nothing and has an error, or adds the statements that its count
  -- says and has none.
  pub send_database-AllOrNothing :
      (base : List S) (rs : List Fields)
      → AllOrNothing base (send_database target on_error true base rs)
  unfolding send_database
  send_database-AllOrNothing base [] = inr (refl, ([], sym (append-nil base), refl))
  send_database-AllOrNothing base (r ∷ rs) =
      if-has (AllOrNothing base) target.connect_fails _ _ (inl (connect_failed, refl, refl))
        (send_with_transaction-AllOrNothing base (r ∷ rs))

  send_from-Adds :
      (base done : List S) (i count : ℕ) (rs : List Fields)
      → (added : List S) × (done ≡ base ++ added) × (length added ≡ count)
      → Adds base (send_from target on_error i done count rs)
  unfolding send_from
  send_from-Adds base done i count [] h = h
  send_from-Adds base done i count (r ∷ rs) h =
      turn-Adds base done count (process_record_without_transaction target on_error i done r) _ h
        (λ done' count' h'. send_from-Adds base done' (i + 1) count' rs h')

  -- Send without a transaction has added exactly the statements that its count says, whether it has an
  -- error or not.
  pub send_database-Adds :
      (base : List S) (rs : List Fields) → Adds base (send_database target on_error false base rs)
  unfolding send_database send_without_transaction
  send_database-Adds base [] = ([], sym (append-nil base), refl)
  send_database-Adds base (r ∷ rs) =
      if-has (Adds base) target.connect_fails _ _ ([], sym (append-nil base), refl)
        (send_from-Adds base base 0 0 (r ∷ rs) ([], sym (append-nil base), refl))
