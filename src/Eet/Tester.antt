-- ===== src/Eet/Tester.antt =====
-- `qcn_test` of src/eet/qcn_tester/qcn_select_tester.cc, with `execute_query` of
-- src/eet/qcn_tester/qcn_tester.cc. The database is a parameter, which says for each execution what
-- becomes of a query.
use dbfuzz_multidb.Common.{ℕ, ◌+◌, Bool, true, false, if◌then◌else◌}
use dbfuzz_multidb.Txcheck.Result.{Result, ok, throw, process_exit}
use dbfuzz_multidb.Expr.Transform.{TargetSchema, Draw}
use dbfuzz_multidb.Eet.Query.{QuerySpec, QuerySql, query_out, eq_transform_query}
use dbfuzz_multidb.Eet.Back.{back_transform_query}

-- What becomes of an execution: rows, an exception, or an error that names a bug or a lost
-- connection, for which the program ends where the option `ignore-crash` is not set.
pub data Execution (Answer : Type 0) : Type 0 where
  rows : Answer → Execution Answer
  failed : Execution Answer
  aborted : Execution Answer

-- The fields of the tester, the executions so far, and the draws so far.
pub record QcnSelectTester (Answer : Type 0) : Type 0 where
  pub query : QuerySpec
  pub original_query : QuerySql
  pub qit_query : QuerySql
  pub original_query_result : Answer
  pub qit_query_result : Answer
  pub skip_one_original_execution : Bool
  pub executions : ℕ
  pub drawn : ℕ

-- `empty` is the multiset without rows, `same` the comparison of two multisets.
module _ {Answer : Type 0} (schema : TargetSchema) (draws : ℕ → Draw)
    (execute : ℕ → QuerySql → Execution Answer) (empty : Answer)
    (same : Answer → Answer → Bool) where
  -- The answer, or none where the exception reaches the tester; the result is cleared first.
  abbrev pub store :
      Execution Answer → (Answer → QcnSelectTester Answer) → Result (Bool × QcnSelectTester Answer)
  store (rows answer) put = ok (true, put answer)
  store failed put = ok (false, put empty)
  store aborted put = throw process_exit

  unfoldable pub execute_original : QcnSelectTester Answer → Result (Bool × QcnSelectTester Answer)
  execute_original t =
      store (execute t.executions t.original_query)
        (λ answer. record t { original_query_result = answer; executions = t.executions + 1 })

  unfoldable pub execute_qit : QcnSelectTester Answer → Result (Bool × QcnSelectTester Answer)
  execute_qit t =
      store (execute t.executions t.qit_query)
        (λ answer. record t { qit_query_result = answer; executions = t.executions + 1 })

  -- `try { step } catch { return true; }`, and what follows
  abbrev pub try_then :
      Result (Bool × QcnSelectTester Answer)
      → (QcnSelectTester Answer → Result (Bool × QcnSelectTester Answer))
      → Result (Bool × QcnSelectTester Answer)
  try_then (throw problem) next = throw problem
  try_then (ok (true, t)) next = next t
  try_then (ok (false, t)) next = ok (true, t)

  abbrev pub same_results : QcnSelectTester Answer → Bool
  same_results t = same t.qit_query_result t.original_query_result

  -- Both queries are run again, and the results are compared again.
  unfoldable pub validate : QcnSelectTester Answer → Result (Bool × QcnSelectTester Answer)
  validate t =
      try_then (execute_original t)
        (λ t1. try_then (execute_qit t1) (λ t2. ok (same_results t2, t2)))

  abbrev pub compare_results : QcnSelectTester Answer → Result (Bool × QcnSelectTester Answer)
  compare_results t = if same_results t then ok (true, t) else validate t

  -- The first execution of the original query is skipped where the constructor has done it.
  abbrev pub first_execution : QcnSelectTester Answer → Result (Bool × QcnSelectTester Answer)
  first_execution t =
      if t.skip_one_original_execution
      then ok (true, record t { skip_one_original_execution = false })
      else execute_original t

  -- True where there is no bug, false where one is found.
  unfoldable pub qcn_test_without_initialization :
      QcnSelectTester Answer → Result (Bool × QcnSelectTester Answer)
  qcn_test_without_initialization t =
      try_then (first_execution t) (λ t1. try_then (execute_qit t1) compare_results)

  abbrev pub back_from :
      QcnSelectTester Answer → ℕ → QuerySql → Result QuerySpec → Result (QcnSelectTester Answer)
  back_from t m qit (throw problem) = throw problem
  back_from t m qit (ok query) =
      ok
        (record t { query = query; original_query = query_out t.query; qit_query = qit; drawn = m })

  abbrev pub transform_and_back :
      QcnSelectTester Answer → Result (QuerySpec × ℕ) → Result (QcnSelectTester Answer)
  transform_and_back t (throw problem) = throw problem
  transform_and_back t (ok (q, m)) = back_from t m (query_out q) (back_transform_query schema q)

  -- Both queries are printed, and the query is transformed and transformed back.
  unfoldable pub initial_origin_and_qit_query :
      QcnSelectTester Answer → Result (QcnSelectTester Answer)
  initial_origin_and_qit_query t =
      transform_and_back t (eq_transform_query schema draws t.query t.drawn)

  abbrev pub then_test : Result (QcnSelectTester Answer) → Result (Bool × QcnSelectTester Answer)
  then_test (throw problem) = throw problem
  then_test (ok t) = qcn_test_without_initialization t

  unfoldable pub qcn_test : QcnSelectTester Answer → Result (Bool × QcnSelectTester Answer)
  qcn_test t = then_test (initial_origin_and_qit_query t)
