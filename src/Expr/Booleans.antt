-- ===== src/Expr/Booleans.antt =====
-- A Boolean expression has a truth value on every row, and the two formulas that the
-- transformation builds from a Boolean are true and false on every row.
use dbfuzz_multidb.Common.{Bool, true, false, ◌≡◌, refl, ap, ◌∙◌, subst, sym, Text}
use dbfuzz_multidb.Expr.Syntax.{
  Truth, tru, fls, unk, comparison, logic, Sql, operation, negation, null_test, between, ValueExpr,
  const_bool, not_expr, null_predicate, between_op, like_op, bool_term, comparison_op,
  distinct_pred, comp_subquery, regexp_expr, Subquery, query_spec, unioned_query, Base,
  is_bool_expr,
}
use dbfuzz_multidb.Expr.Out.{
  greater_equal, less_equal, out, out_base, printed, between_op_out, bool_term_out,
  comp_subquery_out,
}
use dbfuzz_multidb.Expr.Transform.{true_value, false_value}
use dbfuzz_multidb.Expr.Meaning.{
  Database, IsSql, eval, IsTruth, not_table, null_table, logic_table, or_table, and_table,
}
use dbfuzz_multidb.Expr.Calm.{IsCalm, IsIdle, out_base-IsIdle, out-IsCalm}

-- In three-valued logic.
excluded_middle : (t : Truth) → or_table (or_table t (not_table t)) (null_table true t) ≡ tru
excluded_middle tru = refl
excluded_middle fls = refl
excluded_middle unk = refl

contradiction : (t : Truth) → and_table (and_table t (not_table t)) (null_table false t) ≡ fls
contradiction tru = refl
contradiction fls = refl
contradiction unk = refl

module _ (db : Database) (sql : IsSql db) where
  pub negation-IsTruth : (s : Sql) → IsTruth db s → IsTruth db (negation s)
  unfolding eval
  negation-IsTruth s h r = let (t, e) = h r in (not_table t, ap db.not_op e ∙ sql.not_law t)

  pub logic-IsTruth :
      (is_or : Bool) (s t : Sql)
      → IsTruth db s
      → IsTruth db t
      → IsTruth db (operation (logic is_or) s t)
  unfolding eval
  logic-IsTruth is_or s t h k r =
      let (a, e) = h r in
      let (b, f) = k r in (logic_table is_or a b, rw (e, f) (sql.logic_law is_or a b))

  pub comparison-IsTruth : (oper : Text) (s t : Sql) → IsTruth db (operation (comparison oper) s t)
  unfolding eval
  comparison-IsTruth oper s t r = sql.comparison_truth oper (eval db s r) (eval db t r)

  between-IsTruth : (m l h : Sql) → IsTruth db (between m l h)
  unfolding eval
  between-IsTruth m l h r =
      let (t, e) =
        logic-IsTruth false (operation (comparison greater_equal) m l)
          (operation (comparison less_equal) m h) (comparison-IsTruth greater_equal m l)
          (comparison-IsTruth less_equal m h) r in
      (t, sql.between_law _ _ _ ∙ e)

  null-IsTruth : (is_null : Bool) (s : Sql) → IsTruth db (null_test is_null s)
  unfolding eval
  null-IsTruth is_null s r = sql.null_truth is_null (eval db s r)

  shown-IsTruth :
      (plain : Sql) (b : Base)
      → IsIdle db plain b
      → IsTruth db plain
      → IsTruth db (out_base plain b)
  shown-IsTruth plain b idle h =
      subst (λ s. IsTruth db s) (sym (out_base-IsIdle db plain plain b idle)) h

  between_op_out-IsTruth : (use_eq : Bool) (l m h : Sql) → IsTruth db (between_op_out use_eq l m h)
  between_op_out-IsTruth true l m h =
      logic-IsTruth false (operation (comparison greater_equal) m l)
        (operation (comparison less_equal) m h) (comparison-IsTruth greater_equal m l)
        (comparison-IsTruth less_equal m h)
  between_op_out-IsTruth false l m h = between-IsTruth m l h

  pub bool_term_out-IsTruth :
      (has_equal is_or : Bool) (l r : Sql)
      → IsTruth db l
      → IsTruth db r
      → IsTruth db (bool_term_out has_equal is_or l r)
  bool_term_out-IsTruth true is_or l r h k =
      negation-IsTruth (operation (logic is_or) (negation r) (negation l)) (
        logic-IsTruth is_or (negation r) (negation l) (negation-IsTruth r k) (negation-IsTruth l h))
  bool_term_out-IsTruth false is_or l r h k = logic-IsTruth is_or l r h k

  query-IsTruth :
      (self : Sql) (comp_op : Text) (lhs : Sql) (q : Subquery)
      → IsTruth db (comp_subquery_out self comp_op lhs q)
  unfolding out eval
  query-IsTruth self comp_op lhs (query_spec before after search) r = sql.query_truth _ _ _ _ _ r
  query-IsTruth self comp_op lhs (unioned_query before middle after left right) r =
      sql.union_truth _ _ _ _ _ _ _ r

  -- A calm Boolean expression has a truth value on every row.
  pub printed-IsTruth :
      (e : ValueExpr) → IsCalm db e → is_bool_expr e ≡ true → IsTruth db (printed e)
  unfolding out eval IsCalm is_bool_expr
  printed-IsTruth (const_bool b op) calm h = shown-IsTruth _ b calm (λ r. (op, refl))
  printed-IsTruth (not_expr b inner) calm h =
      shown-IsTruth _ b calm.0 (negation-IsTruth _ (printed-IsTruth inner calm.1 calm.2))
  printed-IsTruth (null_predicate b is_null expr) calm h =
      shown-IsTruth _ b calm.0 (null-IsTruth is_null _)
  printed-IsTruth (between_op b use_eq lhs mhs rhs) calm h =
      shown-IsTruth _ b calm.0 (between_op_out-IsTruth use_eq _ _ _)
  printed-IsTruth (like_op b like_operator like_format lhs) calm h =
      shown-IsTruth _ b calm.0 (λ r. sql.like_truth _ _ _)
  printed-IsTruth (bool_term b has_equal is_or lhs rhs) calm h = shown-IsTruth _ b calm.0 (
      bool_term_out-IsTruth has_equal is_or _ _ (printed-IsTruth lhs calm.1 calm.3)
        (printed-IsTruth rhs calm.2 calm.4))
  printed-IsTruth (comparison_op b oper lhs rhs) calm h =
      shown-IsTruth _ b calm.0 (comparison-IsTruth oper _ _)
  printed-IsTruth (distinct_pred b lhs rhs) calm h =
      shown-IsTruth _ b calm.0 (λ r. sql.distinct_truth _ _)
  printed-IsTruth (comp_subquery b comp_op lhs query) calm h =
      shown-IsTruth _ b calm.0 (query-IsTruth _ comp_op _ query)
  printed-IsTruth (regexp_expr b negated lhs rhs) calm h = λ r. sql.regexp_truth negated _ _
  printed-IsTruth _ calm h = cc

  null_test-IsTruth : (is_null : Bool) (s : Sql) → IsTruth db s → IsTruth db (null_test is_null s)
  unfolding eval
  null_test-IsTruth is_null s h r =
      let (t, e) = h r in (null_table is_null t, ap (db.null_op is_null) e ∙ sql.null_law is_null t)

  -- s op (not s) op (s is null, or is not null)
  formula-IsTruth :
      (is_or : Bool) (s : Sql) (h : IsTruth db s) (r : db.Row)
      → eval db
          (operation (logic is_or) (operation (logic is_or) s (negation s)) (null_test is_or s))
          r
        ≡ db.truth (
            logic_table is_or
              (logic_table is_or (h r).0 (not_table (h r).0))
              (null_table is_or (h r).0))
  unfolding logic-IsTruth negation-IsTruth null_test-IsTruth
  formula-IsTruth is_or s h r =
      (logic-IsTruth is_or (operation (logic is_or) s (negation s)) (null_test is_or s)
        (logic-IsTruth is_or s (negation s) h (negation-IsTruth s h)) (null_test-IsTruth is_or s h)
        r).1

  module _ (rand : ValueExpr) (self : Sql) (r : db.Row) (calm : IsCalm db rand)
      (boolean : is_bool_expr rand ≡ true) where
    -- rand or (not rand) or (rand is null) is true.
    pub true_value-eval : eval db (out self (true_value rand)) r ≡ db.truth tru
    unfolding out
    true_value-eval =
        let h = printed-IsTruth rand calm boolean in
        rw (out-IsCalm db rand self calm) (formula-IsTruth true (printed rand) h r)
        ∙ ap db.truth (excluded_middle (h r).0)

    -- rand and (not rand) and (rand is not null) is false.
    pub false_value-eval : eval db (out self (false_value rand)) r ≡ db.truth fls
    unfolding out
    false_value-eval =
        let h = printed-IsTruth rand calm boolean in
        rw (out-IsCalm db rand self calm) (formula-IsTruth false (printed rand) h r)
        ∙ ap db.truth (contradiction (h r).0)
