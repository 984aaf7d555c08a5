-- ===== src/Txcheck/Samples/Runs.antt =====
-- A small run of the transaction tester, with a database that answers from a script.
use dbfuzz_multidb.Common.{some, suc, ℕ, ◌≡◌, refl, false, List, [], ◌∷◌, Text, codes, map, ◌⊎◌}
use dbfuzz_multidb.Txcheck.Usage.{usage, init_type, txn_commit}
use dbfuzz_multidb.Txcheck.Result.{
  Result, ok, throw, lost_connection, process_exit, not_executed, dut_failed, empty_vector,
}
use dbfuzz_multidb.Txcheck.Instrumentor.{Prod, txn_string_stmt, Entry, entry}
use dbfuzz_multidb.Txcheck.Dbms.{Dbms, Response, rows, failure}
use dbfuzz_multidb.Txcheck.Tester.{Tester, Txn}
use dbfuzz_multidb.Txcheck.Tester.Run.{trans_test}
use dbfuzz_multidb.Txcheck.Tester.Correct.{trans_test-throws}
use dbfuzz_multidb.Txcheck.Tester.Calm.{AllExecuted, trans_test-returns}

-- The answers that are left; a database with none left answers without rows.
abbrev answer_next : List Response → Response × List Response
answer_next [] = (rows [], [])
answer_next (answer ∷ script) = (answer, script)

abbrev pub script_dbms : Dbms
script_dbms = record {
  State = List Response;
  test = λ tid stmt script. answer_next script;
  reset_to_backup = λ script. some script;
  connect = λ tid script. some script;
  get_content = λ script. some [];
  begin_stmt = codes "B";
  commit_stmt = codes "C";
  abort_stmt = codes "A";
}

abbrev pub print_text : Prod ℕ → Text
print_text (txn_string_stmt text) = text
print_text _ = []

abbrev pub fresh_txn : Txn ℕ
fresh_txn = record {
  is_blocked = false;
  stmts = [];
  stmt_outputs = [];
  stmt_err_info = [];
  stmt_num = 2;
  status = txn_commit;
}

abbrev run_entry : ℕ → Text → Entry ℕ
run_entry tid text = entry tid (txn_string_stmt text) (usage init_type false)

-- Two transactions of two statements.
abbrev pub run_start : List Response → Tester ℕ (List Response)
run_start script = record {
  trans_arr = λ _. fresh_txn;
  queue =
      run_entry 0 (codes "x")
      ∷ run_entry 1 (codes "y")
      ∷ run_entry 0 (codes "C")
      ∷ run_entry 1 (codes "C")
      ∷ [];
  real = [];
  status_queue = [];
  db = script;
  init_db_content = [];
  trans_db_content = [];
}

abbrev pub returned : {A : Type 0} → A → Result A → A
returned a (ok b) = b
returned a (throw e) = a

-- The first statement of transaction 1 is blocked until transaction 0 has committed.
abbrev pub blocked_script : List Response
blocked_script = rows [] ∷ failure (codes "blocked") ∷ []

unfoldable pub run_end : Tester ℕ (List Response)
unfolding trans_test
run_end = returned (run_start []) (trans_test script_dbms print_text 2 (run_start blocked_script))

run_end_order : map (λ r. r.tid) run_end.real ≡ 0 ∷ 0 ∷ 1 ∷ 1 ∷ []
unfolding run_end
run_end_order = refl

-- Here it stays blocked.
abbrev stuck_script : List Response
stuck_script =
    rows []
    ∷ failure (codes "blocked")
    ∷ rows []
    ∷ failure (codes "blocked")
    ∷ failure (codes "blocked")
    ∷ failure (codes "blocked")
    ∷ failure (codes "blocked")
    ∷ failure (codes "blocked")
    ∷ []

trans_test-throws_example :
    (not_executed ≡ dut_failed)
    ⊎ ((not_executed ≡ not_executed)
        ⊎ ((not_executed ≡ lost_connection)
            ⊎ ((not_executed ≡ process_exit) ⊎ (not_executed ≡ empty_vector))))
unfolding trans_test
trans_test-throws_example =
    trans_test-throws script_dbms print_text 2 (run_start stuck_script) not_executed refl refl

-- A database that answers each statement with its number.
abbrev counting_dbms : Dbms
counting_dbms = record {
  State = ℕ;
  test = λ tid stmt n. (rows (((n ∷ []) ∷ []) ∷ []), suc n);
  reset_to_backup = λ n. some 0;
  connect = λ tid n. some n;
  get_content = λ n. some [];
  begin_stmt = codes "B";
  commit_stmt = codes "C";
  abort_stmt = codes "A";
}

abbrev counting_start : Tester ℕ ℕ
counting_start = record {
  trans_arr = λ _. fresh_txn;
  queue = run_entry 0 (codes "x") ∷ run_entry 1 (codes "C") ∷ run_entry 0 (codes "C") ∷ [];
  real = [];
  status_queue = [];
  db = 7;
  init_db_content = [];
  trans_db_content = [];
}

trans_test-returns_example :
    (t : Tester ℕ ℕ) × (trans_test counting_dbms print_text 2 counting_start ≡ ok t)
    × AllExecuted counting_dbms print_text
        (λ tid stmt n. (((n ∷ []) ∷ []) ∷ [], refl))
        (λ n. (0, refl))
        (λ tid n. (n, refl))
        (λ n. ([], refl))
        counting_start
        t
trans_test-returns_example =
    trans_test-returns counting_dbms print_text (λ tid stmt n. (((n ∷ []) ∷ []) ∷ [], refl))
      (λ n. (0, refl)) (λ tid n. (n, refl)) (λ n. ([], refl)) 2 counting_start (λ k. refl) refl
