-- ===== src/Txcheck/Tester/Agrees.antt =====
-- What `check_normal_stmt_result` of src/txcheck/transaction_test.cc decides, and the sizes of what
-- `normal_stmt_test` collects.
use dbfuzz_multidb.Common.{
  ℕ, ◌+◌, arith, ◌≡◌, ◌≢◌, ◌⊎◌, inl, inr, ◌↔◌, sym, ap, subst, ◌∙◌, true, ◌&&◌, ◌==◌, List, [], ◌∷◌,
  Text, text_eq, text_eq_refl, text_eq→eq, length, get_elem?, map, length-append, Bool-cases, codes,
  Each,
}
use dbfuzz_multidb.Txcheck.Result.{ok, ok-injective, demand, out_of_bounds, dut_failed, >>=-eq-ok}
use dbfuzz_multidb.Txcheck.StmtId.{StmtId}
use dbfuzz_multidb.Txcheck.Analyzer.{StmtOutput}
use dbfuzz_multidb.Txcheck.Instrumentor.{Prod, contains_text}
use dbfuzz_multidb.Txcheck.Dbms.{Dbms, Response, rows, failure}
use dbfuzz_multidb.Txcheck.Tester.{Txn, Tester}
use dbfuzz_multidb.Txcheck.Tester.Normal.{
  Normal, normal_answer, normal_loop, normal_stmt_test, path_results, same_error, same_errors,
  check_normal_stmt_result,
}
use dbfuzz_multidb.Core.Compare.Rows.{SameHashes, compare_content_iff, compare_output_iff}

-- Both runs end in the same error text, or both in some error.
abbrev pub SameError : Text → Text → Type 0
SameError txn_err nor_err = (txn_err ≡ nor_err) ⊎ ((txn_err ≢ []) × (nor_err ≢ []))

text_eq_iff : (s t : Text) → (text_eq s t ≡ true) ↔ (s ≡ t)
text_eq_iff s t = (text_eq→eq s t, λ e. subst (λ u. text_eq s u ≡ true) e (text_eq_refl s))

same_error_iff : (e n : Text) → (same_error e n ≡ true) ↔ SameError e n
same_error_iff e n = ground (arith, text_eq_iff e n, text_eq_iff e [], text_eq_iff n [])

same_errors_iff :
    (es ns : List Text)
    → (((length es == length ns) && same_errors es ns) ≡ true) ↔ Each SameError es ns
same_errors_iff [] [] = ground arith
same_errors_iff [] (n ∷ ns) = ground arith
same_errors_iff (e ∷ es) [] = ground arith
same_errors_iff (e ∷ es) (n ∷ ns) = ground (arith, same_errors_iff es ns, same_error_iff e n)

module _ (float_text : Text → Text) {E S : Type 0} where
  -- Where the path names statements that have run, `check_normal_stmt_result` accepts the run of the
  -- path exactly when both contents have as many tables, each statement of the path ends without an
  -- error in both runs, or with the same text, or with an error in both, and has the same output up
  -- to the order of its rows, each known by its hash.
  pub check_normal_stmt_result_iff :
      (stmt_path : List StmtId) (s : Tester E S) (n : Normal) (results : List (StmtOutput × Text))
      → path_results s.trans_arr stmt_path ≡ ok results
      → (check_normal_stmt_result float_text stmt_path s n ≡ ok true) ↔ (
          (length s.trans_db_content ≡ length n.normal_stmt_db_content)
          × Each SameError (map (λ r. r.1) results) n.normal_stmt_err_info
          × Each (SameHashes float_text) (map (λ r. r.0) results) n.normal_stmt_output)
  unfolding check_normal_stmt_result
  check_normal_stmt_result_iff stmt_path s n results found = ground (
    arith,
    found,
    compare_content_iff float_text s.trans_db_content n.normal_stmt_db_content,
    same_errors_iff (map (λ r. r.1) results) n.normal_stmt_err_info,
    compare_output_iff float_text (map (λ r. r.0) results) n.normal_stmt_output,
  )

-- One more output and one more error.
abbrev Grown : ℕ → Normal → Normal → Type 0
Grown k n m =
    (length m.normal_stmt_output ≡ length n.normal_stmt_output + k)
    × (length m.normal_stmt_err_info ≡ length n.normal_stmt_err_info + k)

normal_answer-Grown : (answer : Response) (n : Normal) → Grown 1 n (normal_answer answer n)
normal_answer-Grown (rows output) n = (length-append _ _, length-append _ _)
normal_answer-Grown (failure err) n = elim (Bool-cases (contains_text (codes "skipped") err)) [
  | inl h ↦ rw h (length-append _ _, length-append _ _)
  | inr h ↦ rw h (length-append _ _, length-append _ _)
]

module _ (dbms : Dbms) {E : Type 0} (print : Prod E → Text) where
  normal_loop-Grown :
      (conn : ℕ) (arr : ℕ → Txn E) (stmt_path : List StmtId) (db : dbms.State) (n : Normal)
      → (d : dbms.State) (m : Normal) → normal_loop dbms print conn arr stmt_path db n ≡ ok (d, m)
      → Grown (length stmt_path) n m
  normal_loop-Grown conn arr [] db n d m returned =
      let same : n ≡ m = ground arith in subst (Grown 0 n) same (omega arith, omega arith)
  normal_loop-Grown conn arr (id ∷ stmt_path) db n d m returned =
      let (stmt, _, next) =
        >>=-eq-ok (demand (get_elem? (arr id.txn_id).stmts id.stmt_idx_in_txn) out_of_bounds) _
          returned in
      let answer = dbms.test conn (print stmt) db in
      let (outputs, errors) = normal_answer-Grown answer.0 n in
      let (more, others) =
        normal_loop-Grown conn arr stmt_path answer.1 (normal_answer answer.0 n) d m next in
      (omega arith, omega arith)

  -- `normal_stmt_test` adds one output and one error text for each statement of the path, whatever the
  -- database answers.
  pub normal_stmt_test-length :
      (conn : ℕ) (stmt_path : List StmtId) (s t : Tester E dbms.State) (n m : Normal)
      → normal_stmt_test dbms print conn stmt_path s n ≡ ok (t, m)
      → (length m.normal_stmt_output ≡ length n.normal_stmt_output + length stmt_path)
        × (length m.normal_stmt_err_info ≡ length n.normal_stmt_err_info + length stmt_path)
  unfolding normal_stmt_test
  normal_stmt_test-length conn stmt_path s t n m returned =
      let (reset, _, rest) = >>=-eq-ok (demand (dbms.reset_to_backup s.db) dut_failed) _ returned in
      let (db, _, after) = >>=-eq-ok (demand (dbms.connect conn reset) dut_failed) _ rest in
      let ((d, last), first, ended) =
        >>=-eq-ok (normal_loop dbms print conn s.trans_arr stmt_path db n) _ after in
      let (content, _, end) = >>=-eq-ok (demand (dbms.get_content d) dut_failed) _ ended in
      let (outputs, errors) = normal_loop-Grown conn s.trans_arr stmt_path db n d last first in
      let same_o : last.normal_stmt_output ≡ m.normal_stmt_output =
        ap (λ r. r.1.normal_stmt_output) (ok-injective end) in
      let same_e : last.normal_stmt_err_info ≡ m.normal_stmt_err_info =
        ap (λ r. r.1.normal_stmt_err_info) (ok-injective end) in
      (ap length (sym same_o) ∙ outputs, ap length (sym same_e) ∙ errors)
