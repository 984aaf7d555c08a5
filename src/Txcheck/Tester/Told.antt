-- ===== src/Txcheck/Tester/Told.antt =====
-- What a database has said to a statement, for the outcomes of `trans_test_unit` and the places of the
-- `real_` queues of src/txcheck/transaction_test.cc.
use dbfuzz_multidb.Common.{ℕ, ◌≡◌, true, false, ◌⊎◌, [], Text, codes}
use dbfuzz_multidb.Txcheck.Usage.{usage, init_type}
use dbfuzz_multidb.Txcheck.Analyzer.{StmtOutput}
use dbfuzz_multidb.Txcheck.Instrumentor.{Prod, txn_string_stmt, Entry, contains_text}
use dbfuzz_multidb.Txcheck.Dbms.{Dbms, rows, failure}
use dbfuzz_multidb.Txcheck.Tester.{Real, Outcome, executed, skipped, blocked, space_holder}

module _ (dbms : Dbms) {E : Type 0} (print : Prod E → Text) where
  -- In some state the database answers the statement with these rows.
  abbrev pub Gives : ℕ → Prod E → StmtOutput → Type 0
  Gives tid stmt output = (db : dbms.State) × ((dbms.test tid (print stmt) db).0 ≡ rows output)

  -- In some state it refuses the statement with this text.
  abbrev pub Fails : ℕ → Prod E → Text → Type 0
  Fails tid stmt err = (db : dbms.State) × ((dbms.test tid (print stmt) db).0 ≡ failure err)

  -- It has told to skip the statement.
  abbrev pub Skips : ℕ → Prod E → Type 0
  Skips tid stmt = (err : Text) × Fails tid stmt err × (contains_text (codes "skipped") err ≡ true)

  -- It has executed the statement with this output, or it has refused it, neither as blocked nor as
  -- skipped; the output of the abort statement that a failed commit has become is dropped.
  abbrev pub Executes : ℕ → Prod E → StmtOutput → Type 0
  Executes tid stmt output =
      Gives tid stmt output
      ⊎ ((output ≡ [])
          × (((err : Text) × Fails tid stmt err
                × (contains_text (codes "blocked") err ≡ false)
                × (contains_text (codes "skipped") err ≡ false))
              ⊎ ((stmt ≡ txn_string_stmt dbms.abort_stmt)
                  × ((given : StmtOutput) × Gives tid stmt given))))

  -- What stands behind an outcome.
  abbrev pub Told : Outcome → ℕ → Prod E → Type 0
  Told (executed output) tid stmt = Executes tid stmt output
  Told (skipped output) tid stmt = (output ≡ []) × Skips tid stmt
  Told blocked tid stmt = Unit

  -- A place of the `real_` queues holds a statement of the queue that the database has executed, with
  -- its output, or the placeholder for a statement that it has told to skip.
  abbrev pub Ran : Real E → Entry E → Type 0
  Ran r e =
      (r.tid ≡ e.tid)
      × (((r.stmt ≡ e.stmt) × (r.stmt_u ≡ e.stmt_u) × Executes e.tid e.stmt r.output)
          ⊎ ((r.stmt ≡ space_holder)
              × (r.stmt_u ≡ usage init_type e.stmt_u.is_instrumented)
              × (r.output ≡ [])
              × Skips e.tid e.stmt))
