-- ===== src/Eet/Verdict.antt =====
-- What the tester says of a database that always answers.
use dbfuzz_multidb.Common.{ℕ, Bool, true, ◌≡◌, refl, inl, inr, ◌∙◌, sym}
use dbfuzz_multidb.Txcheck.Result.{Result, ok, throw}
use dbfuzz_multidb.Expr.Transform.{TargetSchema, Draw}
use dbfuzz_multidb.Eet.Query.{QuerySpec, QuerySql}
use dbfuzz_multidb.Eet.Tester.{Execution, rows, QcnSelectTester, qcn_test_without_initialization}
use dbfuzz_multidb.Eet.Outcome.{
  Ensures, HasAborted, HasVerdict, qcn_test_without_initialization-Ensures,
}

rows_injective : {A : Type 0} {a b : A} → rows a ≡ rows b → a ≡ b
rows_injective h = cc

module _ {Answer : Type 0} (schema : TargetSchema) (draws : ℕ → Draw)
    (execute : ℕ → QuerySql → Execution Answer) (empty : Answer) (same : Answer → Answer → Bool)
    (answers : QuerySql → Answer)
    (always : (k : ℕ) (s : QuerySql) → execute k s ≡ rows (answers s)) where
  verdict :
      (q : QuerySpec) (original qit : QuerySql) (r : Result (Bool × QcnSelectTester Answer))
      → Ensures
          (HasAborted execute)
          (HasVerdict execute same q original qit (answers original) (answers qit))
          r
      → (t' : QcnSelectTester Answer) × (r ≡ ok (same (answers qit) (answers original), t'))
  verdict q original qit (throw problem) (_, k, s, e) = cc (always k s)
  verdict q original qit (ok (b, t)) (keeps, inl e) = (t, rw e refl)
  verdict q original qit (ok (b, t)) (keeps, inr (_, (k, s, e))) = cc (always k s)

  -- On a database that answers every query, each time alike, `qcn_test_without_initialization`
  -- returns what the comparison of the two answers says: no bug (true) exactly when the answers to
  -- the transformed and to the original query are the same; where the first execution is skipped,
  -- the result kept from the constructor has to be the original query's answer.
  pub qcn_test_without_initialization-verdict :
      (t : QcnSelectTester Answer)
      → (t.skip_one_original_execution ≡ true → t.original_query_result ≡ answers t.original_query)
      → (t' : QcnSelectTester Answer) × (qcn_test_without_initialization schema draws execute empty
            same t
          ≡ ok (same (answers t.qit_query) (answers t.original_query), t'))
  qcn_test_without_initialization-verdict t kept =
      verdict t.query t.original_query t.qit_query
        (qcn_test_without_initialization schema draws execute empty same t)
        (qcn_test_without_initialization-Ensures schema draws execute empty same t.query
          t.original_query t.qit_query (answers t.original_query) (answers t.qit_query)
          (λ k a e. rows_injective (sym e ∙ always k t.original_query))
          (λ k a e. rows_injective (sym e ∙ always k t.qit_query)) t refl refl refl kept)
