-- ===== src/Eet/Outcome.antt =====
-- What `qcn_test_without_initialization` returns where each execution of a query that answers
-- gives the same rows.
use dbfuzz_multidb.Common.{
  ℕ, Bool, true, false, if◌then◌else◌, ◌≡◌, refl, ap, ◌∙◌, sym, subst, Bool-cases, ◌⊎◌, inl, inr,
}
use dbfuzz_multidb.Txcheck.Result.{Result, ok, throw, Error, process_exit}
use dbfuzz_multidb.Expr.Transform.{TargetSchema, Draw}
use dbfuzz_multidb.Eet.Query.{QuerySpec, QuerySql}
use dbfuzz_multidb.Eet.Tester.{
  Execution, rows, failed, aborted, QcnSelectTester, store, execute_original, execute_qit, try_then,
  same_results, validate, compare_results, first_execution, qcn_test_without_initialization,
}

if_true {ℓ} : {A : Type ℓ} (b : Bool) (x y : A) → b ≡ true → (if b then x else y) ≡ x
if_true b x y h = rw h refl

if_false {ℓ} : {A : Type ℓ} (b : Bool) (x y : A) → b ≡ false → (if b then x else y) ≡ y
if_false b x y h = rw h refl

module _ {Answer : Type 0} where
  abbrev pub Ensures :
      (Error → Type 0)
      → (Bool → QcnSelectTester Answer → Type 0)
      → Result (Bool × QcnSelectTester Answer)
      → Type 0
  Ensures Q P (throw problem) = Q problem
  Ensures Q P (ok (verdict, t)) = P verdict t

module _ {Answer : Type 0} (execute : ℕ → QuerySql → Execution Answer) where
  -- Some execution has thrown, or has ended the program.
  abbrev pub HasFailed : Type 0
  HasFailed = (k : ℕ) × (s : QuerySql) × (execute k s ≡ failed)

  abbrev pub HasAborted : Error → Type 0
  HasAborted problem = (problem ≡ process_exit) × (k : ℕ) × (s : QuerySql) × (execute k s ≡ aborted)

module _ {Answer : Type 0} (execute : ℕ → QuerySql → Execution Answer)
    (same : Answer → Answer → Bool) (q : QuerySpec) (original qit : QuerySql) (u v : Answer) where
  -- What stays as it is in a test.
  abbrev pub Keeps : QcnSelectTester Answer → Type 0
  Keeps t =
      (t.query ≡ q)
      × (t.original_query ≡ original)
      × (t.qit_query ≡ qit)
      × (t.skip_one_original_execution ≡ false)

  abbrev pub HasOriginal : Bool → QcnSelectTester Answer → Type 0
  HasOriginal went t =
      Keeps t
      × (((went ≡ true) × (t.original_query_result ≡ u)) ⊎ ((went ≡ false) × HasFailed execute))

  abbrev pub HasBoth : Bool → QcnSelectTester Answer → Type 0
  HasBoth went t =
      Keeps t
      × (((went ≡ true) × (t.original_query_result ≡ u) × (t.qit_query_result ≡ v))
          ⊎ ((went ≡ false) × HasFailed execute))

  abbrev pub HasVerdict : Bool → QcnSelectTester Answer → Type 0
  HasVerdict verdict t = Keeps t × ((verdict ≡ same v u) ⊎ ((verdict ≡ true) × HasFailed execute))

module _ {Answer : Type 0} (schema : TargetSchema) (draws : ℕ → Draw)
    (execute : ℕ → QuerySql → Execution Answer) (empty : Answer)
    (same : Answer → Answer → Bool) where
  abbrev QcnTester : Type 0
  QcnTester = QcnSelectTester Answer

  store-Ensures :
      (Q : Error → Type 0) (P : Bool → QcnTester → Type 0) (put : Answer → QcnTester)
      (e : Execution Answer)
      → ((a : Answer) → e ≡ rows a → P true (put a))
      → (e ≡ failed → P false (put empty))
      → (e ≡ aborted → Q process_exit)
      → Ensures Q P (store schema draws execute empty same e put)
  store-Ensures Q P put (rows answer) answers fails aborts = answers answer refl
  store-Ensures Q P put failed answers fails aborts = fails refl
  store-Ensures Q P put aborted answers fails aborts = aborts refl

  try_then-Ensures :
      (Q : Error → Type 0) (P R : Bool → QcnTester → Type 0) (step : Result (Bool × QcnTester))
      (next : QcnTester → Result (Bool × QcnTester))
      → Ensures Q P step
      → ((t : QcnTester) → P true t → Ensures Q R (next t))
      → ((t : QcnTester) → P false t → R true t)
      → Ensures Q R (try_then schema draws execute empty same step next)
  try_then-Ensures Q P R (throw problem) next h after_ caught = h
  try_then-Ensures Q P R (ok (true, t)) next h after_ caught = after_ t h
  try_then-Ensures Q P R (ok (false, t)) next h after_ caught = caught t h

  module _ (q : QuerySpec) (original qit : QuerySql) (u v : Answer)
      (original_answers : (k : ℕ) (a : Answer) → execute k original ≡ rows a → a ≡ u)
      (qit_answers : (k : ℕ) (a : Answer) → execute k qit ≡ rows a → a ≡ v) where
    execute_original-Ensures :
        (t : QcnTester)
        → (Keeps execute same q original qit u v) t
        → Ensures
            (HasAborted execute)
            (HasOriginal execute same q original qit u v)
            (execute_original schema draws execute empty same t)
    unfolding execute_original
    execute_original-Ensures t keeps =
        store-Ensures (HasAborted execute) (HasOriginal execute same q original qit u v) _
          (execute t.executions t.original_query)
          (λ a e. (
            keeps,
            inl (
              refl,
              original_answers t.executions a (ap (execute t.executions) (sym keeps.1) ∙ e),
            ),
          ))
          (λ e. (keeps, inr (refl, (t.executions, t.original_query, e))))
          (λ e. (refl, t.executions, t.original_query, e))

    execute_qit-Ensures :
        (t : QcnTester)
        → (Keeps execute same q original qit u v) t
        → t.original_query_result ≡ u
        → Ensures
            (HasAborted execute)
            (HasBoth execute same q original qit u v)
            (execute_qit schema draws execute empty same t)
    unfolding execute_qit
    execute_qit-Ensures t keeps has =
        store-Ensures (HasAborted execute) (HasBoth execute same q original qit u v) _
          (execute t.executions t.qit_query)
          (λ a e. (
            keeps,
            inl (
              refl,
              has,
              qit_answers t.executions a (ap (execute t.executions) (sym keeps.2) ∙ e),
            ),
          ))
          (λ e. (keeps, inr (refl, (t.executions, t.qit_query, e))))
          (λ e. (refl, t.executions, t.qit_query, e))

    caught_original :
        (t : QcnTester)
        → (HasOriginal execute same q original qit u v) false t
        → (HasVerdict execute same q original qit u v) true t
    caught_original t (keeps, inl (wrong, has)) = cc
    caught_original t (keeps, inr (_, fails)) = (keeps, inr (refl, fails))

    caught_both :
        (t : QcnTester)
        → (HasBoth execute same q original qit u v) false t
        → (HasVerdict execute same q original qit u v) true t
    caught_both t (keeps, inl (wrong, has, _)) = cc
    caught_both t (keeps, inr (_, fails)) = (keeps, inr (refl, fails))

    qit_after :
        (t : QcnTester)
        → (HasOriginal execute same q original qit u v) true t
        → Ensures
            (HasAborted execute)
            (HasBoth execute same q original qit u v)
            (execute_qit schema draws execute empty same t)
    qit_after t (keeps, inl (_, has)) = execute_qit-Ensures t keeps has
    qit_after t (keeps, inr (wrong, fails)) = cc

    verdict_of :
        (t : QcnTester)
        → (HasBoth execute same q original qit u v) true t
        → (HasVerdict execute same q original qit u v)
            (same_results schema draws execute empty same t)
            t
    verdict_of t (keeps, inl (_, has_u, has_v)) = (keeps, inl (rw (has_u, has_v) refl))
    verdict_of t (keeps, inr (wrong, fails)) = cc

    validate-Ensures :
        (t : QcnTester)
        → (Keeps execute same q original qit u v) t
        → Ensures
            (HasAborted execute)
            (HasVerdict execute same q original qit u v)
            (validate schema draws execute empty same t)
    unfolding validate
    validate-Ensures t keeps =
        try_then-Ensures (HasAborted execute) (HasOriginal execute same q original qit u v)
          (HasVerdict execute same q original qit u v)
          (execute_original schema draws execute empty same t) _ (execute_original-Ensures t keeps)
          (λ t1 has.
            try_then-Ensures (HasAborted execute) (HasBoth execute same q original qit u v)
              (HasVerdict execute same q original qit u v)
              (execute_qit schema draws execute empty same t1) _ (qit_after t1 has) verdict_of
              caught_both)
          caught_original

    compare_results-Ensures :
        (t : QcnTester)
        → (HasBoth execute same q original qit u v) true t
        → Ensures
            (HasAborted execute)
            (HasVerdict execute same q original qit u v)
            (compare_results schema draws execute empty same t)
    compare_results-Ensures t has =
        elim (Bool-cases (same_results schema draws execute empty same t)) [
          | inl alike ↦ rw alike (
              subst (λ b. (HasVerdict execute same q original qit u v) b t) alike
                (verdict_of t has))
          | inr differ ↦ rw differ (validate-Ensures t has.0)
        ]

    first_execution-Ensures :
        (t : QcnTester)
        → t.query ≡ q
        → t.original_query ≡ original
        → t.qit_query ≡ qit
        → (t.skip_one_original_execution ≡ true → t.original_query_result ≡ u)
        → Ensures
            (HasAborted execute)
            (HasOriginal execute same q original qit u v)
            (first_execution schema draws execute empty same t)
    first_execution-Ensures t eq eo es kept = elim (Bool-cases t.skip_one_original_execution) [
      | inl skips ↦
          subst (Ensures (HasAborted execute) (HasOriginal execute same q original qit u v))
            (sym (if_true _ _ _ skips)) ((eq, eo, es, refl), inl (refl, kept skips))
      | inr runs ↦
          subst (Ensures (HasAborted execute) (HasOriginal execute same q original qit u v))
            (sym (if_false _ _ _ runs)) (execute_original-Ensures t (eq, eo, es, runs))
    ]

    -- The verdict compares the two answers, or an execution has failed and no bug is reported.
    pub qcn_test_without_initialization-Ensures :
        (t : QcnTester)
        → t.query ≡ q
        → t.original_query ≡ original
        → t.qit_query ≡ qit
        → (t.skip_one_original_execution ≡ true → t.original_query_result ≡ u)
        → Ensures
            (HasAborted execute)
            (HasVerdict execute same q original qit u v)
            (qcn_test_without_initialization schema draws execute empty same t)
    unfolding qcn_test_without_initialization
    qcn_test_without_initialization-Ensures t eq eo es kept =
        try_then-Ensures (HasAborted execute) (HasOriginal execute same q original qit u v)
          (HasVerdict execute same q original qit u v)
          (first_execution schema draws execute empty same t) _
          (first_execution-Ensures t eq eo es kept)
          (λ t1 has.
            try_then-Ensures (HasAborted execute) (HasBoth execute same q original qit u v)
              (HasVerdict execute same q original qit u v)
              (execute_qit schema draws execute empty same t1)
              (compare_results schema draws execute empty same) (qit_after t1 has)
              compare_results-Ensures caught_both)
          caught_original
