-- ===== src/Txcheck/Tester/Run.antt =====
-- `retry_block_stmt` and `trans_test` of src/txcheck/transaction_test.cc.
use dbfuzz_multidb.Common.{
  ℕ, zero, suc, ◌+◌, Bool, true, false, not, ◌&&◌, ◌||◌, ◌==◌, ltb, List, [], ◌∷◌, ◌++◌, none, some,
  Text, length, get_elem?, get_or, all, map, mem, range, select, if◌then◌else◌,
}
use dbfuzz_multidb.Txcheck.Usage.{usage, init_type}
use dbfuzz_multidb.Txcheck.Result.{
  Result, ok, throw, ensure, demand, out_of_bounds, dut_failed, not_executed, wrong_size, no_fuel,
  ◌>>=◌, ◌>>◌,
}
use dbfuzz_multidb.Txcheck.Analyzer.{StmtOutput}
use dbfuzz_multidb.Txcheck.Instrumentor.{Prod, Entry}
use dbfuzz_multidb.Txcheck.Dbms.{Dbms}
use dbfuzz_multidb.Txcheck.Tester.{
  Real, Tester, Outcome, executed, skipped, blocked, space_holder, is_command, set_blocked,
  set_elem, trans_test_unit,
}

module _ {E : Type 0} where
  -- `tid_queue[i]`, read below the size of the queue.
  abbrev pub tid_at : List (Entry E) → ℕ → ℕ
  tid_at es i = elim (get_elem? es i) [ none ↦ 0 | some e ↦ e.tid ]

  abbrev pub real_of : Entry E → StmtOutput → Real E
  real_of e output = record { tid = e.tid; stmt = e.stmt; output = output; stmt_u = e.stmt_u }

  abbrev pub real_skipped : Entry E → StmtOutput → Real E
  real_skipped e output = record {
    tid = e.tid;
    stmt = space_holder;
    output = output;
    stmt_u = usage init_type e.stmt_u.is_instrumented;
  }

module _ {E S : Type 0} where
  abbrev pub is_blocked_at : Tester E S → ℕ → Bool
  is_blocked_at s i = (s.trans_arr (tid_at s.queue i)).is_blocked

  -- `status_queue[i] == 1`
  abbrev pub has_run : Tester E S → ℕ → Bool
  has_run s i = get_or s.status_queue i false

  -- `status_queue[i] = 1` and the four pushes on the `real_` queues.
  abbrev pub push_real : ℕ → Real E → Tester E S → Tester E S
  push_real i r s = record s {
    status_queue = set_elem i true s.status_queue;
    real = s.real ++ r ∷ [];
  }

  -- What the loops do with an outcome. The loop over the queue leaves `is_blocked` alone where the
  -- statement is executed; the retries clear it.
  abbrev pub settle_first : ℕ → Entry E → Outcome → Tester E S → Tester E S
  settle_first i e (executed output) s = push_real i (real_of e output) s
  settle_first i e (skipped output) s = push_real i (real_skipped e output) s
  settle_first i e blocked s = set_blocked e.tid true s

  abbrev pub settle_again : ℕ → Entry E → Outcome → Tester E S → Tester E S
  settle_again i e (executed output) s = push_real i (real_of e output) (set_blocked e.tid false s)
  settle_again i e (skipped output) s =
      push_real i (real_skipped e output) (set_blocked e.tid false s)
  settle_again i e blocked s = set_blocked e.tid true s

-- The number of executed statements.
abbrev pub executed_num : List Bool → ℕ
executed_num status_queue = length (select (λ b. b) status_queue)

abbrev is_executed : Outcome → Bool
is_executed (executed output) = true
is_executed _ = false

module _ (dbms : Dbms) {E : Type 0} (print : Prod E → Text) where
  -- A commit or an abort has been executed.
  abbrev pub ends_txn : Outcome → Entry E → Bool
  ends_txn o e =
      is_executed o
      && (is_command dbms.commit_stmt (print e.stmt) || is_command dbms.abort_stmt (print e.stmt))

  -- One try of the statement at place `i`. The statement is read again after it, since a failed
  -- commit has become an abort.
  abbrev pub attempt :
      (ℕ → Entry E → Outcome → Tester E dbms.State → Tester E dbms.State)
      → ℕ
      → Tester E dbms.State
      → Result (Bool × Tester E dbms.State)
  attempt settle i s = do
    answer ← trans_test_unit dbms print i s
    e ← demand (get_elem? answer.1.queue i) out_of_bounds
    ok (ends_txn answer.0 e, settle i e answer.0 answer.1)

  -- A try, and after a commit or an abort the retry of what is blocked.
  abbrev pub visit :
      (ℕ → Entry E → Outcome → Tester E dbms.State → Tester E dbms.State)
      → (ℕ → Tester E dbms.State → Result (Tester E dbms.State))
      → ℕ
      → Tester E dbms.State
      → Result (Tester E dbms.State)
  visit settle again i s = attempt settle i s >>= λ (ended, t). if ended then again i t else ok t

  -- The first loop of `retry_block_stmt`: the first open statement of each blocked transaction.
  unfoldable pub first_tries : List ℕ → List ℕ → Tester E dbms.State → Result (Tester E dbms.State)
  unfolding trans_test_unit
  first_tries [] tried s = ok s
  first_tries (i ∷ is) tried s =
      elim (has_run s i || not (is_blocked_at s i) || mem (tid_at s.queue i) tried) [
        | true ↦ first_tries is tried s
        | false ↦ attempt settle_again i s >>= λ (_, t). first_tries is (tid_at s.queue i ∷ tried) t
      ]

  -- The second loop; `again` is the nested call after a commit or an abort.
  unfoldable pub later_tries :
      (ℕ → Tester E dbms.State → Result (Tester E dbms.State))
      → List ℕ
      → Tester E dbms.State
      → Result (Tester E dbms.State)
  unfolding trans_test_unit
  later_tries again [] s = ok s
  later_tries again (i ∷ is) s = elim (is_blocked_at s i || has_run s i) [
    | true ↦ later_tries again is s
    | false ↦ visit settle_again again i s >>= later_tries again is
  ]

  -- The nested calls are for smaller and smaller parts of the queue; for an empty part there is
  -- nothing to do, so fuel `cur_stmt_num` is exact.
  unfoldable pub retry_loop : ℕ → ℕ → Tester E dbms.State → Result (Tester E dbms.State)
  unfolding first_tries later_tries
  retry_loop zero cur_stmt_num s = ok s
  retry_loop (suc fuel) cur_stmt_num s =
      first_tries (range 0 cur_stmt_num) [] s
      >>= later_tries (retry_loop fuel) (range 0 cur_stmt_num)

  unfoldable pub retry_block_stmt : ℕ → Tester E dbms.State → Result (Tester E dbms.State)
  unfolding retry_loop
  retry_block_stmt cur_stmt_num s = retry_loop cur_stmt_num cur_stmt_num s

  -- The loop of `trans_test` over the queue.
  unfoldable pub run_queue : List ℕ → Tester E dbms.State → Result (Tester E dbms.State)
  unfolding trans_test_unit retry_block_stmt
  run_queue [] s = ok s
  run_queue (i ∷ is) s = elim (is_blocked_at s i) [
    | true ↦ run_queue is s
    | false ↦ visit settle_first retry_block_stmt i s >>= run_queue is
  ]

  -- What the `while` loop does behind a retry; `again` is the next round. After three rounds in
  -- all without a change it gives up.
  abbrev pub finish_round :
      (ℕ → ℕ → Tester E dbms.State → Result (Tester E dbms.State))
      → ℕ
      → ℕ
      → Tester E dbms.State
      → Result (Tester E dbms.State)
  finish_round again no_change done s =
      let new_executed = executed_num s.status_queue in
      elim (new_executed == length s.queue) [
        | true ↦ ok s
        | false ↦ elim (done == new_executed) [
          | false ↦ again no_change new_executed s
          | true ↦ elim (ltb 2 (suc no_change)) [
            | true ↦ ok s
            | false ↦ again (suc no_change) new_executed s
          ]
        ]
      ]

  -- The `while` loop that finishes the statements that are left.
  unfoldable pub finish_loop : ℕ → ℕ → ℕ → Tester E dbms.State → Result (Tester E dbms.State)
  unfolding retry_block_stmt
  finish_loop zero no_change done s = throw no_fuel
  finish_loop (suc fuel) no_change done s = elim (ltb done (length s.queue)) [
    | false ↦ ok s
    | true ↦ retry_block_stmt (length s.queue) s >>= finish_round (finish_loop fuel) no_change done
  ]

  -- Every transaction gets a new connection.
  abbrev pub connect_all : ℕ → dbms.State → Result dbms.State
  connect_all zero db = ok db
  connect_all (suc n) db = connect_all n db >>= λ d. demand (dbms.connect n d) dut_failed

  -- The database is reset, its content is read, and the transactions are connected.
  abbrev pub set_up : ℕ → dbms.State → Result (List (Text × StmtOutput) × dbms.State)
  set_up trans_num db = do
    reset ← demand (dbms.reset_to_backup db) dut_failed
    content ← demand (dbms.get_content reset) dut_failed
    connected ← connect_all trans_num reset
    ok (content, connected)

  -- `status_queue` is cleared.
  abbrev pub started :
      List (Text × StmtOutput) × dbms.State → Tester E dbms.State → Tester E dbms.State
  started (content, db) s = record s {
    status_queue = map (λ _. false) s.queue;
    db = db;
    init_db_content = content;
  }

  abbrev pub start_run : ℕ → Tester E dbms.State → Result (Tester E dbms.State)
  start_run trans_num s = set_up trans_num s.db >>= λ ready. ok (started ready s)

  -- The final tests, and the content of the database afterwards.
  abbrev pub check_run : Tester E dbms.State → Result (Tester E dbms.State)
  check_run s = do
    ensure (all (λ b. b) s.status_queue) not_executed
    ensure (length s.real == length s.queue) wrong_size
    content ← demand (dbms.get_content s.db) dut_failed
    ok (record s { trans_db_content = content })

  -- The two loops.
  unfoldable pub run_loops : Tester E dbms.State → Result (Tester E dbms.State)
  unfolding run_queue finish_loop
  run_loops s = do
    first ← run_queue (range 0 (length s.queue)) s
    finish_loop (length s.queue + 4) 0 (executed_num first.status_queue) first

  unfoldable pub trans_test : ℕ → Tester E dbms.State → Result (Tester E dbms.State)
  unfolding run_loops
  trans_test trans_num s = start_run trans_num s >>= run_loops >>= check_run
