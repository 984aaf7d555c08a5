-- ===== src/Txcheck/Tester/Normal.antt =====
-- The run of a path of statements one by one and its comparison with the run of the transactions:
-- `normal_stmt_test` and `check_normal_stmt_result` of src/txcheck/transaction_test.cc.
use dbfuzz_multidb.Common.{
  ℕ, Bool, true, false, not, ◌&&◌, ◌||◌, ◌==◌, List, [], ◌∷◌, ◌++◌, Text, codes, text_eq, length,
  get_elem?, if◌then◌else◌, map,
}
use dbfuzz_multidb.Txcheck.Result.{Result, ok, demand, out_of_bounds, dut_failed, ◌>>=◌}
use dbfuzz_multidb.Txcheck.StmtId.{StmtId}
use dbfuzz_multidb.Txcheck.Analyzer.{StmtOutput}
use dbfuzz_multidb.Txcheck.Instrumentor.{Prod, contains_text}
use dbfuzz_multidb.Txcheck.Dbms.{Dbms, Response, rows, failure}
use dbfuzz_multidb.Txcheck.Tester.{Txn, Tester}
use dbfuzz_multidb.Core.Compare.{compare_content, compare_output}

-- The `normal_` members.
pub record Normal : Type 0 where
  pub normal_stmt_output : List StmtOutput
  pub normal_stmt_err_info : List Text
  pub normal_stmt_db_content : List (Text × StmtOutput)

abbrev push_normal : StmtOutput → Text → Normal → Normal
push_normal output err n = record n {
  normal_stmt_output = n.normal_stmt_output ++ output ∷ [];
  normal_stmt_err_info = n.normal_stmt_err_info ++ err ∷ [];
}

abbrev pub normal_answer : Response → Normal → Normal
normal_answer (rows output) n = push_normal output [] n
normal_answer (failure err) n =
    if contains_text (codes "skipped") err then push_normal [] [] n else push_normal [] err n

module _ (dbms : Dbms) {E : Type 0} (print : Prod E → Text) where
  -- The loop over the path, on the connection `conn`.
  abbrev pub normal_loop :
      ℕ → (ℕ → Txn E) → List StmtId → dbms.State → Normal → Result (dbms.State × Normal)
  normal_loop conn trans_arr [] db n = ok (db, n)
  normal_loop conn trans_arr (id ∷ stmt_path) db n = do
    stmt ← demand (get_elem? (trans_arr id.txn_id).stmts id.stmt_idx_in_txn) out_of_bounds
    let answer = dbms.test conn (print stmt) db
    normal_loop conn trans_arr stmt_path answer.1 (normal_answer answer.0 n)

  -- `conn` names the new connection, `normal_dut`.
  unfoldable pub normal_stmt_test :
      ℕ → List StmtId → Tester E dbms.State → Normal → Result (Tester E dbms.State × Normal)
  normal_stmt_test conn stmt_path s n = do
    reset ← demand (dbms.reset_to_backup s.db) dut_failed
    db ← demand (dbms.connect conn reset) dut_failed
    last ← normal_loop conn s.trans_arr stmt_path db n
    content ← demand (dbms.get_content last.0) dut_failed
    ok (record s { db = last.0 }, record last.1 { normal_stmt_db_content = content })

-- The outputs and the errors of the statements of the path in the run of the transactions.
abbrev pub path_results :
    {E : Type 0} → (ℕ → Txn E) → List StmtId → Result (List (StmtOutput × Text))
path_results trans_arr [] = ok []
path_results trans_arr (id ∷ stmt_path) = do
  output ← demand (get_elem? (trans_arr id.txn_id).stmt_outputs id.stmt_idx_in_txn) out_of_bounds
  err ← demand (get_elem? (trans_arr id.txn_id).stmt_err_info id.stmt_idx_in_txn) out_of_bounds
  rest ← path_results trans_arr stmt_path
  ok ((output, err) ∷ rest)

-- Two errors may differ in their texts, but not where only one is an error.
abbrev pub same_error : Text → Text → Bool
same_error txn_err nor_err =
    text_eq txn_err nor_err || (not (text_eq txn_err []) && not (text_eq nor_err []))

abbrev pub same_errors : List Text → List Text → Bool
same_errors [] ns = true
same_errors (e ∷ es) [] = true
same_errors (e ∷ es) (n ∷ ns) = same_error e n && same_errors es ns

module _ (float_text : Text → Text) {E S : Type 0} where
  unfoldable pub check_normal_stmt_result : List StmtId → Tester E S → Normal → Result Bool
  unfolding compare_content compare_output
  check_normal_stmt_result stmt_path s n =
      if not (compare_content float_text s.trans_db_content n.normal_stmt_db_content)
      then ok false
      else do
        results ← path_results s.trans_arr stmt_path
        let errors = map (λ r. r.1) results
        ok (
            (length errors == length n.normal_stmt_err_info)
            && same_errors errors n.normal_stmt_err_info
            && compare_output float_text (map (λ r. r.0) results) n.normal_stmt_output)
