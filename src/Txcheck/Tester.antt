-- ===== src/Txcheck/Tester.antt =====
-- The state of `transaction_test` of src/txcheck/transaction_test.cc while it runs its queue, and
-- the execution of one statement, `trans_test_unit`.
pub mod Agrees
pub mod Attempt
pub mod Assign
pub mod Calm
pub mod Change
pub mod Correct
pub mod Finish
pub mod Heard
pub mod Kept
pub mod Normal
pub mod Order
pub mod Queue
pub mod Retry
pub mod Run
pub mod Schedule
pub mod Setup
pub mod Sound
pub mod Told
pub mod Verdict
use dbfuzz_multidb.Common.{
  ℕ, zero, suc, ◌+◌, Bool, true, false, not, ◌&&◌, ◌||◌, ◌==◌, leb, List, [], ◌∷◌, ◌++◌, Option,
  none, some, Text, codes, length, get_elem?, if◌then◌else◌,
}
use dbfuzz_multidb.Txcheck.Usage.{StmtUsage, TxnStatus, txn_abort, usage, init_type}
use dbfuzz_multidb.Txcheck.Result.{
  Result, ok, throw, demand, out_of_bounds, lost_connection, process_exit, empty_vector, ◌>>=◌,
}
use dbfuzz_multidb.Txcheck.Analyzer.{StmtOutput}
use dbfuzz_multidb.Txcheck.Instrumentor.{Prod, txn_string_stmt, Entry, contains_text}
use dbfuzz_multidb.Txcheck.Dbms.{Dbms, Response, rows, failure}

-- `transaction`, without the connection.
pub record Txn (E : Type 0) : Type 0 where
  pub is_blocked : Bool
  pub stmts : List (Prod E)
  pub stmt_outputs : List StmtOutput
  pub stmt_err_info : List Text
  pub stmt_num : ℕ
  pub status : TxnStatus

-- One place of the four `real_` queues.
pub record Real (E : Type 0) : Type 0 where
  pub tid : ℕ
  pub stmt : Prod E
  pub output : StmtOutput
  pub stmt_u : StmtUsage

-- The queues, the transactions and the contents read, with `status_queue` of the run.
pub record Tester (E S : Type 0) : Type 0 where
  pub trans_arr : ℕ → Txn E
  pub queue : List (Entry E)
  pub real : List (Real E)
  pub status_queue : List Bool
  pub db : S
  pub init_db_content : List (Text × StmtOutput)
  pub trans_db_content : List (Text × StmtOutput)

-- What `trans_test_unit` returns: 1, 2 and 0, with `output`.
pub data Outcome : Type 0 where
  executed : StmtOutput → Outcome
  skipped : StmtOutput → Outcome
  blocked : Outcome

-- SPACE_HOLDER_STMT of src/grammar/grammar.hh
abbrev pub space_holder : {E : Type 0} → Prod E
space_holder = txn_string_stmt (codes "select 1 from (select 1) as subq_0 where 0 <> 0")

-- The test for a commit or an abort statement: up to three characters may stand around the command.
abbrev pub is_command : Text → Text → Bool
is_command command stmt =
    contains_text command stmt
    && leb (length stmt) (length command + 3)
    && leb (length command) (length stmt)

abbrev pub pop_back {ℓ} : {A : Type ℓ} → List A → List A
pop_back [] = []
pop_back (x ∷ []) = []
pop_back (x ∷ y ∷ xs) = x ∷ pop_back (y ∷ xs)

-- `queue[i] = v`
abbrev pub set_elem {ℓ} : {A : Type ℓ} → ℕ → A → List A → List A
set_elem i v [] = []
set_elem zero v (x ∷ xs) = v ∷ xs
set_elem (suc i) v (x ∷ xs) = x ∷ set_elem i v xs

-- `stmt_queue[i] = stmt`
abbrev pub set_stmt : {E : Type 0} → ℕ → Prod E → List (Entry E) → List (Entry E)
set_stmt i stmt [] = []
set_stmt zero stmt (e ∷ es) = record e { stmt = stmt } ∷ es
set_stmt (suc i) stmt (e ∷ es) = e ∷ set_stmt i stmt es

module _ {E S : Type 0} where
  abbrev pub set_txn : ℕ → Txn E → Tester E S → Tester E S
  set_txn tid txn s = record s { trans_arr = λ k. if k == tid then txn else s.trans_arr k }

  -- `stmt_outputs.push_back(output); stmt_err_info.push_back(err)`
  abbrev pub push_result : ℕ → StmtOutput → Text → Tester E S → Tester E S
  push_result tid output err s =
      set_txn tid
        (record (s.trans_arr tid) {
          stmt_outputs = (s.trans_arr tid).stmt_outputs ++ output ∷ [];
          stmt_err_info = (s.trans_arr tid).stmt_err_info ++ err ∷ [];
        })
        s

  abbrev pub set_blocked : ℕ → Bool → Tester E S → Tester E S
  set_blocked tid b s = set_txn tid (record (s.trans_arr tid) { is_blocked = b }) s

module _ (dbms : Dbms) {E : Type 0} (print : Prod E → Text) where
  -- A failed commit: the transaction is aborted, in the queue too.
  abbrev pub turn_to_abort : ℕ → ℕ → Tester E dbms.State → Tester E dbms.State
  turn_to_abort stmt_pos tid s =
      record (set_txn tid
        (record (s.trans_arr tid) {
          status = txn_abort;
          stmts = pop_back (s.trans_arr tid).stmts ++ txn_string_stmt dbms.abort_stmt ∷ [];
        })
        s) { queue = set_stmt stmt_pos (txn_string_stmt dbms.abort_stmt) s.queue }

  abbrev pub abort_answer : ℕ → Response → Tester E dbms.State → Outcome × Tester E dbms.State
  abort_answer tid (rows output) s = (executed [], push_result tid [] [] s)
  abort_answer tid (failure err) s = (blocked, s)

  abbrev pub abort_now : ℕ → ℕ → Tester E dbms.State → Outcome × Tester E dbms.State
  abort_now stmt_pos tid s =
      let t = turn_to_abort stmt_pos tid s in
      let answer = dbms.test tid (print (txn_string_stmt dbms.abort_stmt)) t.db in
      abort_answer tid answer.0 (record t { db = answer.1 })

  -- `stmts.pop_back()` is defined where the transaction has a statement.
  abbrev pub try_abort_of :
      List (Prod E) → ℕ → ℕ → Tester E dbms.State → Result (Outcome × Tester E dbms.State)
  try_abort_of [] stmt_pos tid s = throw empty_vector
  try_abort_of (stmt ∷ stmts) stmt_pos tid s = ok (abort_now stmt_pos tid s)

  abbrev pub try_abort : ℕ → ℕ → Tester E dbms.State → Result (Outcome × Tester E dbms.State)
  try_abort stmt_pos tid s = try_abort_of (s.trans_arr tid).stmts stmt_pos tid s

  -- The answers of the database to the statement at `stmt_pos`, in the order of the tests on the
  -- text of an exception.
  abbrev pub unit_answer :
      ℕ → ℕ → Text → Response → Tester E dbms.State → Result (Outcome × Tester E dbms.State)
  unit_answer stmt_pos tid stmt (rows output) s = ok (executed output, push_result tid output [] s)
  unit_answer stmt_pos tid stmt (failure err) s =
      if contains_text (codes "ost connection") err || contains_text (codes "BUG") err
      then throw lost_connection
      else if contains_text (codes "blocked") err
      then ok (blocked, s)
      else if contains_text (codes "skipped") err
      then ok (skipped [], push_result tid [] [] s)
      else if contains_text (codes "sent sql stmt changed") err
      then throw process_exit
      else if is_command dbms.commit_stmt stmt
      then try_abort stmt_pos tid s
      else ok (executed [], push_result tid [] err s)

  unfoldable pub trans_test_unit : ℕ → Tester E dbms.State → Result (Outcome × Tester E dbms.State)
  trans_test_unit stmt_pos s = do
    e ← demand (get_elem? s.queue stmt_pos) out_of_bounds
    let answer = dbms.test e.tid (print e.stmt) s.db
    unit_answer stmt_pos e.tid (print e.stmt) answer.0 (record s { db = answer.1 })
