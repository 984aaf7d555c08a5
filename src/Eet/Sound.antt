-- ===== src/Eet/Sound.antt =====
-- On a database that answers what the queries mean the tester finds no bug; on one that answers the
-- same query always alike, it finds one exactly when the answers to the two queries differ.
use dbfuzz_multidb.Common.{ℕ, Bool, true, ◌≡◌, refl, ap, ◌∙◌, sym, subst, inl, inr}
use dbfuzz_multidb.Txcheck.Result.{Result, ok, throw, process_exit}
use dbfuzz_multidb.Expr.Transform.{TargetSchema, Draw}
use dbfuzz_multidb.Expr.Meaning.{Database, IsSql}
use dbfuzz_multidb.Expr.Marks.{IsCalmDraw}
use dbfuzz_multidb.Eet.Query.{QuerySpec, QuerySql, query_out}
use dbfuzz_multidb.Eet.Meaning.{Queries, eval_query, IsCalmSpec}
use dbfuzz_multidb.Eet.Correct.{eq_transform_query-Transforms}
use dbfuzz_multidb.Eet.Outcome.{
  Ensures, HasAborted, HasVerdict, qcn_test_without_initialization-Ensures,
}
use dbfuzz_multidb.Eet.Tester.{
  Execution, rows, QcnSelectTester, initial_origin_and_qit_query, qcn_test,
}

-- What the tester starts from: a calm query, and the answer to the original query where its first
-- execution is skipped.
module _ (db : Database) (queries : Queries db) where
  abbrev pub IsReady : QcnSelectTester queries.Answer → Type 0
  IsReady t =
      IsCalmSpec db t.query
      × (t.skip_one_original_execution ≡ true
          → t.original_query_result ≡ eval_query db queries (query_out t.query))

  -- The test finds no bug, or the program has ended; what is left is ready for the next test, with
  -- the query printed as before.
  abbrev pub NoBug : QuerySql → Result (Bool × QcnSelectTester queries.Answer) → Type 0
  NoBug text (throw problem) = problem ≡ process_exit
  NoBug text (ok (verdict, t)) = (verdict ≡ true) × (query_out t.query ≡ text) × IsReady t

module _ (db : Database) (sql : IsSql db) (queries : Queries db) (schema : TargetSchema)
    (draws : ℕ → Draw) (calm_draws : (n : ℕ) → IsCalmDraw db (draws n))
    (execute : ℕ → QuerySql → Execution queries.Answer) (empty : queries.Answer)
    (same : queries.Answer → queries.Answer → Bool)
    (same_refl : (a : queries.Answer) → same a a ≡ true)
    (faithful : (k : ℕ) (s : QuerySql) (a : queries.Answer)
      → execute k s ≡ rows a
      → a ≡ eval_query db queries s) where
  no_bug :
      (q : QuerySpec) (original qit text : QuerySql) (u : queries.Answer)
      (r : Result (Bool × QcnSelectTester queries.Answer))
      → query_out q ≡ text
      → IsCalmSpec db q
      → Ensures (HasAborted execute) (HasVerdict execute same q original qit u u) r
      → NoBug db queries text r
  no_bug q original qit text u (throw problem) prints calm h = h.0
  no_bug q original qit text u (ok (verdict, t)) prints calm (keeps, inl agrees) = (
    agrees ∙ same_refl u,
    ap query_out keeps.0 ∙ prints,
    (subst (IsCalmSpec db) (sym keeps.0) calm, λ skips. cc (keeps.3)),
  )
  no_bug q original qit text u (ok (verdict, t)) prints calm (keeps, inr (fine, fails)) = (
    fine,
    ap query_out keeps.0 ∙ prints,
    (subst (IsCalmSpec db) (sym keeps.0) calm, λ skips. cc (keeps.3)),
  )

  -- On a database that answers each query, if it answers at all, with what the query means under the
  -- laws of SQL, `qcn_test` of a calm query with calm draws finds no bug (or the program ends because
  -- the database reports an error that names a bug), and it leaves the tester ready for the next
  -- test with a query that prints as before.
  pub qcn_test-NoBug :
      (t : QcnSelectTester queries.Answer)
      → IsReady db queries t
      → NoBug db queries (query_out t.query) (qcn_test schema draws execute empty same t)
  unfolding qcn_test initial_origin_and_qit_query
  qcn_test-NoBug t ready =
      let (q', m, run, tq) =
        eq_transform_query-Transforms db sql queries schema draws calm_draws t.query ready.0
          t.drawn in
      let (q'', back, calm, text) = tq.query_back in
      let u = eval_query db queries (query_out t.query) in
      let t0 : QcnSelectTester queries.Answer = record t {
        query = q'';
        original_query = query_out t.query;
        qit_query = query_out q';
        drawn = m;
      } in
      rw run (
        rw back (
          no_bug q'' (query_out t.query) (query_out q') (query_out t.query) u _ text calm (
            qcn_test_without_initialization-Ensures schema draws execute empty same q''
              (query_out t.query) (query_out q') u u (λ k a e. faithful k (query_out t.query) a e)
              (λ k a e. faithful k (query_out q') a e ∙ tq.same_answer) t0 refl refl refl ready.1)))
