-- ===== src/Txcheck/Tester/Setup.antt =====
-- The operations of `transaction_test` around a run, src/txcheck/transaction_test.cc:
-- `change_txn_status`, `clear_execution_status`, the alignment of the transactions with the queue, and
-- `analyze_txn_dependency`.
use dbfuzz_multidb.Common.{
  ℕ, Bool, true, false, ◌&&◌, ◌||◌, ◌==◌, ltb, [], ◌∷◌, ◌++◌, map, Text, length, select, range,
  if◌then◌else◌,
}
use dbfuzz_multidb.Txcheck.Usage.{
  TxnStatus, not_defined, txn_commit, txn_abort, is_commit, is_abort,
}
use dbfuzz_multidb.Txcheck.Result.{Result, ok, throw, demand, illegal_status, no_fuel, ◌>>=◌}
use dbfuzz_multidb.Txcheck.Analyzer.{Analyzer}
use dbfuzz_multidb.Txcheck.Analyzer.Construct.{dependency_analyzer}
use dbfuzz_multidb.Txcheck.Checks.{check_G1a, check_G1b, check_G1c}
use dbfuzz_multidb.Txcheck.Instrumentor.{Prod, txn_string_stmt, Entry}
use dbfuzz_multidb.Txcheck.Dbms.{Dbms}
use dbfuzz_multidb.Txcheck.Tester.{Tester, is_command, pop_back, set_txn}
use dbfuzz_multidb.Txcheck.Tester.Run.{connect_all}

module _ (dbms : Dbms) {E : Type 0} (print : Prod E → Text) where
  -- The statement that ends a transaction with a final status.
  abbrev pub end_stmt : TxnStatus → Prod E
  end_stmt txn_abort = txn_string_stmt dbms.abort_stmt
  end_stmt _ = txn_string_stmt dbms.commit_stmt

  -- A commit or an abort, by its text.
  abbrev pub is_end : Prod E → Bool
  is_end stmt = is_command dbms.commit_stmt (print stmt) || is_command dbms.abort_stmt (print stmt)

  abbrev pub replace_end : ℕ → Prod E → Entry E → Entry E
  replace_end target_tid stmt e =
      if (e.tid == target_tid) && is_end e.stmt then record e { stmt = stmt } else e

  abbrev pub set_status : ℕ → TxnStatus → Tester E dbms.State → Tester E dbms.State
  set_status target_tid final_status s =
      record (set_txn target_tid
        (record (s.trans_arr target_tid) {
          status = final_status;
          stmts = pop_back (s.trans_arr target_tid).stmts ++ end_stmt final_status ∷ [];
        })
        s) { queue = map (replace_end target_tid (end_stmt final_status)) s.queue }

  abbrev pub change_unless :
      Bool → ℕ → TxnStatus → Tester E dbms.State → Result (Bool × Tester E dbms.State)
  change_unless same target_tid final_status s =
      if same then ok (false, s) else ok (true, set_status target_tid final_status s)

  -- It returns whether the status has changed.
  unfoldable pub change_txn_status :
      ℕ → TxnStatus → Tester E dbms.State → Result (Bool × Tester E dbms.State)
  change_txn_status target_tid not_defined s = throw illegal_status
  change_txn_status target_tid txn_commit s =
      change_unless (is_commit (s.trans_arr target_tid).status) target_tid txn_commit s
  change_txn_status target_tid txn_abort s =
      change_unless (is_abort (s.trans_arr target_tid).status) target_tid txn_abort s

-- `trans_arr[tid].stmts` and `stmt_num` anew from the queue, at the end of `instrument_txn_stmts` and of
-- `clean_instrument`.
unfoldable pub align_txn_stmts : {E S : Type 0} → ℕ → Tester E S → Tester E S
align_txn_stmts trans_num s = record s {
  trans_arr = λ tid.
      let stmts = map (λ e. e.stmt) (select (λ e. e.tid == tid) s.queue) in
      let aligned = record (s.trans_arr tid) { stmts = stmts; stmt_num = length stmts } in
      if ltb tid trans_num then aligned else s.trans_arr tid;
}

-- The members that `clear_execution_status` clears, without the `normal_` members, and the new
-- connections.
abbrev pub cleared : {E S : Type 0} → ℕ → Tester E S → S → Tester E S
cleared trans_num s db = record s {
  trans_arr = λ tid.
      let txn = record (s.trans_arr tid) {
        stmt_err_info = [];
        stmt_outputs = [];
        is_blocked = false;
      } in
      if ltb tid trans_num then txn else s.trans_arr tid;
  db = db;
  init_db_content = [];
  real = [];
  trans_db_content = [];
}

unfoldable pub clear_execution_status :
    (dbms : Dbms)
    → {E : Type 0} → (Prod E → Text)
    → ℕ
    → Tester E dbms.State
    → Result (Tester E dbms.State)
clear_execution_status dbms print trans_num s =
    connect_all dbms print trans_num s.db >>= λ db. ok (cleared trans_num s db)

abbrev pub judge : Analyzer → Result (Bool × Analyzer)
judge da =
    if check_G1a da
    then ok (true, da)
    else if check_G1b da
    then ok (true, da)
    else demand (check_G1c da) no_fuel >>= λ r. ok (r, da)

-- The analyzer for the run.
abbrev pub make_analyzer : {E S : Type 0} → ℕ → Tester E S → Result Analyzer
make_analyzer trans_num s =
    dependency_analyzer (map (λ content. content.1) s.init_db_content) (map (λ r. r.output) s.real)
      (map (λ r. r.tid) s.real) (map (λ r. r.stmt_u) s.real)
      (map (λ tid. (s.trans_arr tid).status) (range 0 trans_num)) trans_num 1 0

-- Whether one of its three checks fires, and the analyzer.
unfoldable pub analyze_txn_dependency : {E S : Type 0} → ℕ → Tester E S → Result (Bool × Analyzer)
analyze_txn_dependency trans_num s = make_analyzer trans_num s >>= judge

-- `assign_txn_status`
unfoldable pub assign_txn_status : {E S : Type 0} → ℕ → ℕ → Tester E S → Tester E S
assign_txn_status commit_num trans_num s = record s {
  trans_arr = λ tid.
      if ltb tid commit_num
      then record (s.trans_arr tid) { status = txn_commit }
      else if ltb tid trans_num
      then record (s.trans_arr tid) { status = txn_abort }
      else s.trans_arr tid;
}
