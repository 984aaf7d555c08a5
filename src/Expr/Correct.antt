-- ===== src/Expr/Correct.antt =====
-- The equivalent transformation of src/expr keeps the value, and the way back restores the text.
use dbfuzz_multidb.Common.{ℕ, true, false, ◌≡◌, refl, ◌∙◌, [], not, if◌then◌else◌}
use dbfuzz_multidb.Txcheck.Result.{ok}
use dbfuzz_multidb.Expr.Syntax.{
  verbatim, ValueExpr, share_this, printed_expr, const_expr, column_reference, atomic_subselect,
  funcall, coalesce, binop_expr, case_expr, cast_expr, interval_expr, mysql_json_op, const_bool,
  not_expr, null_predicate, between_op, like_op, bool_term, comparison_op, distinct_pred,
  comp_subquery, regexp_expr, ValueExprs, no_expr, more_expr, Subquery, query_spec, unioned_query,
  is_bool_expr,
}
use dbfuzz_multidb.Expr.Out.{
  out, printed, const_expr_out, column_reference_out, atomic_subselect_out, coalesce_out,
  binop_expr_out, case_expr_out, cast_expr_out, interval_expr_out, mysql_json_op_out,
  const_bool_out, not_expr_out, null_predicate_out, between_op_out, like_op_out, bool_term_out,
  comparison_op_out, distinct_pred_out, regexp_expr_out, comp_subquery_out,
}
use dbfuzz_multidb.Expr.Transform.{TargetSchema, Draw, equivalent_transform, new_const_bool_eq_expr}
use dbfuzz_multidb.Expr.Back.{back_transform}
use dbfuzz_multidb.Expr.Meaning.{Database, IsSql, eval}
use dbfuzz_multidb.Expr.Calm.{IsCalm, AreCalm, IsCalmQuery, printed_list}
use dbfuzz_multidb.Expr.Booleans.{printed-IsTruth}
use dbfuzz_multidb.Expr.Marks.{
  IsCalmDraw, fill_eq_expr-Marks, new_const_bool_eq_expr-KeepsValue,
  bool_expr_equivalent_transform-Marks,
}
use dbfuzz_multidb.Expr.Transformed.{Transforms}
use dbfuzz_multidb.Expr.Operands.{
  no_expr-AreTransformed, more_expr-AreTransformed, query_spec-IsQueryTransformed,
  unioned_query-IsQueryTransformed, coalesce-IsTransformed,
}
use dbfuzz_multidb.Expr.Frames.{
  const_expr-IsTransformed, column_reference-IsTransformed, atomic_subselect-IsTransformed,
  const_bool-IsTransformed, cast_expr-IsTransformed, mysql_json_op-IsTransformed,
  not_expr-IsTransformed, null_predicate-IsTransformed, like_op-IsTransformed,
  binop_expr-IsTransformed, interval_expr-IsTransformed, comparison_op-IsTransformed,
  distinct_pred-IsTransformed,
}
use dbfuzz_multidb.Expr.Classes.{
  case_expr-IsTransformed, between_op-IsTransformed, bool_term-IsTransformed,
  comp_subquery-IsTransformed, regexp_expr-IsTransformed,
}
use dbfuzz_multidb.Expr.Runs.{
  value_base-Marks, bool_base-Marks, const_run, funcall-Transforms, AllTransform, QueryTransforms,
}

module _ (db : Database) (sql : IsSql db) (schema : TargetSchema) (draws : ℕ → Draw)
    (calm_draws : (n : ℕ) → IsCalmDraw db (draws n)) where
  mutual
    unfolding equivalent_transform out IsCalm is_bool_expr

    pub equivalent_transform-Transforms :
        (e : ValueExpr) → IsCalm db e → Transforms db schema e (equivalent_transform schema draws e)
    equivalent_transform-Transforms share_this calm n = absurd calm
    equivalent_transform-Transforms (printed_expr b printed_str) calm n = absurd calm
    equivalent_transform-Transforms (funcall b proc is_aggregate parms) calm n =
        funcall-Transforms db sql schema draws calm_draws b proc is_aggregate parms calm
          (equivalent_transform_list-AllTransform parms calm.1) n
    equivalent_transform-Transforms (coalesce b name value_exprs) calm n =
        let (b', k, eb, mb) =
          value_base-Marks db sql schema draws calm_draws
            (coalesce_out name (printed_list value_exprs)) b calm.0 n in
        let (es', m, es_run, ts) = equivalent_transform_list-AllTransform value_exprs calm.1 k in
        (
          coalesce b' name es',
          m,
          rw (eb, es_run) refl,
          coalesce-IsTransformed db schema b b' name value_exprs es' calm.0 mb ts,
        )
    equivalent_transform-Transforms (const_expr b expr) calm n =
        let (b', k0, eb, mb) =
          value_base-Marks db sql schema draws calm_draws (const_expr_out expr) b calm n in
        (const_expr b' expr, k0, rw eb refl, const_expr-IsTransformed db schema b b' expr calm mb)
    equivalent_transform-Transforms (column_reference b reference collation) calm n =
        let (b', k0, eb, mb) =
          value_base-Marks db sql schema draws calm_draws (column_reference_out reference collation)
            b calm n in
        (
          column_reference b' reference collation,
          k0,
          rw eb refl,
          column_reference-IsTransformed db schema b b' reference collation calm mb,
        )
    equivalent_transform-Transforms (atomic_subselect b query) calm n =
        let (b', k0, eb, mb) =
          value_base-Marks db sql schema draws calm_draws (atomic_subselect_out query) b calm n in
        (
          atomic_subselect b' query,
          k0,
          rw eb refl,
          atomic_subselect-IsTransformed db schema b b' query calm mb,
        )
    equivalent_transform-Transforms (const_bool b op) calm n =
        let (b', k0, eb, mb) =
          fill_eq_expr-Marks db (const_bool_out op) (λ k. new_const_bool_eq_expr op (draws k)) b
            (λ k. new_const_bool_eq_expr-KeepsValue db sql (draws k) (calm_draws k) op) calm n in
        (
          const_bool b' op,
          k0,
          const_run db sql schema draws calm_draws b op n b' k0 eb,
          const_bool-IsTransformed db schema b b' op calm mb,
        )
    equivalent_transform-Transforms (binop_expr b oper lhs rhs) calm n =
        let (b', k0, eb, mb) =
          value_base-Marks db sql schema draws calm_draws
            (binop_expr_out oper (printed lhs) (printed rhs)) b calm.0 n in
        let (x1, k1, e1, t1) = equivalent_transform-Transforms lhs calm.1 k0 in
        let (x2, k2, e2, t2) = equivalent_transform-Transforms rhs calm.2 k1 in
        (
          binop_expr b' oper x1 x2,
          k2,
          rw (eb, e1, e2) refl,
          binop_expr-IsTransformed db schema b b' oper lhs x1 rhs x2 calm.0 mb t1 t2,
        )
    equivalent_transform-Transforms (case_expr b c t f) calm n =
        let (b', k0, eb, mb) =
          value_base-Marks db sql schema draws calm_draws
            (case_expr_out (printed c) (printed t) (printed f)) b calm.0 n in
        let (x1, k1, e1, t1) = equivalent_transform-Transforms c calm.1 k0 in
        let (x2, k2, e2, t2) = equivalent_transform-Transforms t calm.2 k1 in
        let (x3, k3, e3, t3) = equivalent_transform-Transforms f calm.3 k2 in
        (
          case_expr b' x1 x2 x3,
          k3,
          rw (eb, e1, e2, e3) refl,
          case_expr-IsTransformed db schema b b' c x1 t x2 f x3 calm.4 calm.0 mb t1 t2 t3,
        )
    equivalent_transform-Transforms (cast_expr b use_convert target inner) calm n =
        let (b', k0, eb, mb) =
          value_base-Marks db sql schema draws calm_draws
            (cast_expr_out use_convert target (printed inner)) b calm.0 n in
        let (x1, k1, e1, t1) = equivalent_transform-Transforms inner calm.1 k0 in
        (
          cast_expr b' use_convert target x1,
          k1,
          rw (eb, e1) refl,
          cast_expr-IsTransformed db schema b b' use_convert target inner x1 calm.0 mb t1,
        )
    equivalent_transform-Transforms (interval_expr b is_add unit date_expr amount) calm n =
        let (b', k0, eb, mb) =
          value_base-Marks db sql schema draws calm_draws
            (interval_expr_out is_add unit (printed date_expr) (printed amount)) b calm.0 n in
        let (x1, k1, e1, t1) = equivalent_transform-Transforms date_expr calm.1 k0 in
        let (x2, k2, e2, t2) = equivalent_transform-Transforms amount calm.2 k1 in
        (
          interval_expr b' is_add unit x1 x2,
          k2,
          rw (eb, e1, e2) refl,
          interval_expr-IsTransformed db schema b b' is_add unit date_expr x1 amount x2 calm.0 mb t1
              t2,
        )
    equivalent_transform-Transforms (mysql_json_op b arrow json_path lhs) calm n =
        let (b', k0, eb, mb) =
          value_base-Marks db sql schema draws calm_draws
            (mysql_json_op_out arrow json_path (printed lhs)) b calm.0 n in
        let (x1, k1, e1, t1) = equivalent_transform-Transforms lhs calm.1 k0 in
        (
          mysql_json_op b' arrow json_path x1,
          k1,
          rw (eb, e1) refl,
          mysql_json_op-IsTransformed db schema b b' arrow json_path lhs x1 calm.0 mb t1,
        )
    equivalent_transform-Transforms (not_expr b inner) calm n =
        let (b', k0, eb, mb) =
          bool_base-Marks db sql schema draws calm_draws (not_expr b inner)
            (not_expr_out (printed inner)) b calm refl refl calm.0 n in
        let (x1, k1, e1, t1) = equivalent_transform-Transforms inner calm.1 k0 in
        (
          not_expr b' x1,
          k1,
          rw (eb, e1) refl,
          not_expr-IsTransformed db schema b b' inner x1 calm.2 calm.0 mb t1,
        )
    equivalent_transform-Transforms (null_predicate b is_null expr) calm n =
        let (b', k0, eb, mb) =
          bool_base-Marks db sql schema draws calm_draws (null_predicate b is_null expr)
            (null_predicate_out is_null (printed expr)) b calm refl refl calm.0 n in
        let (x1, k1, e1, t1) = equivalent_transform-Transforms expr calm.1 k0 in
        (
          null_predicate b' is_null x1,
          k1,
          rw (eb, e1) refl,
          null_predicate-IsTransformed db schema b b' is_null expr x1 calm.0 mb t1,
        )
    equivalent_transform-Transforms (between_op b true lhs mhs rhs) calm n = cc
    equivalent_transform-Transforms (between_op b false lhs mhs rhs) calm n =
        let (b', k0, eb, mb) =
          bool_base-Marks db sql schema draws calm_draws (between_op b false lhs mhs rhs)
            (between_op_out false (printed lhs) (printed mhs) (printed rhs)) b calm refl refl calm.0
            n in
        let (x1, k1, e1, t1) = equivalent_transform-Transforms lhs calm.1 k0 in
        let (x2, k2, e2, t2) = equivalent_transform-Transforms mhs calm.2 k1 in
        let (x3, k3, e3, t3) = equivalent_transform-Transforms rhs calm.3 k2 in
        (
          between_op b' (if schema.has_ge_le then true else false) x1 x2 x3,
          k3,
          rw (eb, e1, e2, e3) refl,
          between_op-IsTransformed db sql schema (if schema.has_ge_le then true else false) b b' lhs
              x1 mhs x2 rhs x3 calm.0 mb t1 t2 t3,
        )
    equivalent_transform-Transforms (like_op b operator format lhs) calm n =
        let (b', k0, eb, mb) =
          bool_base-Marks db sql schema draws calm_draws (like_op b operator format lhs)
            (like_op_out operator format (printed lhs)) b calm refl refl calm.0 n in
        let (x1, k1, e1, t1) = equivalent_transform-Transforms lhs calm.1 k0 in
        (
          like_op b' operator format x1,
          k1,
          rw (eb, e1) refl,
          like_op-IsTransformed db schema b b' operator format lhs x1 calm.0 mb t1,
        )
    equivalent_transform-Transforms (bool_term b true is_or lhs rhs) calm n = cc
    equivalent_transform-Transforms (bool_term b false is_or lhs rhs) calm n =
        let (b', k0, eb, mb) =
          bool_base-Marks db sql schema draws calm_draws (bool_term b false is_or lhs rhs)
            (bool_term_out false is_or (printed lhs) (printed rhs)) b calm refl refl calm.0 n in
        let (x1, k1, e1, t1) = equivalent_transform-Transforms lhs calm.1 k0 in
        let (x2, k2, e2, t2) = equivalent_transform-Transforms rhs calm.2 k1 in
        (
          bool_term b' true (not is_or) x1 x2,
          k2,
          rw (eb, e1, e2) (rw (t1.same_kind ∙ calm.3, t2.same_kind ∙ calm.4) refl),
          bool_term-IsTransformed db sql schema is_or b b' lhs x1 rhs x2 calm.3 calm.4
              (printed-IsTruth db sql lhs calm.1 calm.3) (printed-IsTruth db sql rhs calm.2 calm.4)
              calm.0 mb t1 t2,
        )
    equivalent_transform-Transforms (comparison_op b oper lhs rhs) calm n =
        let (b', k0, eb, mb) =
          bool_base-Marks db sql schema draws calm_draws (comparison_op b oper lhs rhs)
            (comparison_op_out oper (printed lhs) (printed rhs)) b calm refl refl calm.0 n in
        let (x1, k1, e1, t1) = equivalent_transform-Transforms lhs calm.1 k0 in
        let (x2, k2, e2, t2) = equivalent_transform-Transforms rhs calm.2 k1 in
        (
          comparison_op b' oper x1 x2,
          k2,
          rw (eb, e1, e2) refl,
          comparison_op-IsTransformed db schema b b' oper lhs x1 rhs x2 calm.0 mb t1 t2,
        )
    equivalent_transform-Transforms (distinct_pred b lhs rhs) calm n =
        let (b', k0, eb, mb) =
          bool_base-Marks db sql schema draws calm_draws (distinct_pred b lhs rhs)
            (distinct_pred_out (printed lhs) (printed rhs)) b calm refl refl calm.0 n in
        let (x1, k1, e1, t1) = equivalent_transform-Transforms lhs calm.1 k0 in
        let (x2, k2, e2, t2) = equivalent_transform-Transforms rhs calm.2 k1 in
        (
          distinct_pred b' x1 x2,
          k2,
          rw (eb, e1, e2) refl,
          distinct_pred-IsTransformed db schema b b' lhs x1 rhs x2 calm.0 mb t1 t2,
        )
    equivalent_transform-Transforms (comp_subquery b comp_op lhs query) calm n =
        let (b', k0, eb, mb) =
          bool_base-Marks db sql schema draws calm_draws (comp_subquery b comp_op lhs query)
            (comp_subquery_out (verbatim []) comp_op (printed lhs) query) b calm refl refl calm.0
            n in
        let (x1, k1, e1, t1) = equivalent_transform-Transforms lhs calm.1 k0 in
        let (q', k2, eq_run, tq) = equivalent_transform_query-QueryTransforms query calm.2 k1 in
        (
          comp_subquery b' comp_op x1 q',
          k2,
          rw (eb, e1, eq_run) refl,
          comp_subquery-IsTransformed db schema b b' comp_op lhs x1 query q' calm.0 mb t1 tq,
        )
    equivalent_transform-Transforms (regexp_expr b negated lhs rhs) calm n =
        let (b', k0, eb, mb) =
          bool_expr_equivalent_transform-Marks db sql schema draws calm_draws
            (regexp_expr_out negated (printed lhs) (printed rhs)) b
            (printed-IsTruth db sql (regexp_expr b negated lhs rhs) calm refl) calm.0 n in
        (
          regexp_expr b' negated lhs rhs,
          k0,
          rw eb refl,
          regexp_expr-IsTransformed db schema b b' negated lhs rhs calm.1 calm.2 mb,
        )

    equivalent_transform_query-QueryTransforms :
        (q : Subquery) → IsCalmQuery db q → QueryTransforms db sql schema draws calm_draws q
    equivalent_transform_query-QueryTransforms (query_spec before after search) calm n =
        let (x1, k1, e1, t1) = equivalent_transform-Transforms search calm.0 n in
        (
          query_spec before after x1,
          k1,
          rw e1 refl,
          query_spec-IsQueryTransformed db schema before after search x1 calm.1 t1,
        )
    equivalent_transform_query-QueryTransforms (unioned_query before middle after left right) calm
          n =
        let (x1, k1, e1, t1) = equivalent_transform-Transforms left calm.0 n in
        let (x2, k2, e2, t2) = equivalent_transform-Transforms right calm.1 k1 in
        (
          unioned_query before middle after x1 x2,
          k2,
          rw (e1, e2) refl,
          unioned_query-IsQueryTransformed db schema before middle after left x1 right x2 calm.2
              calm.3 t1 t2,
        )

    pub equivalent_transform_list-AllTransform :
        (es : ValueExprs) → AreCalm db es → AllTransform db sql schema draws calm_draws es
    equivalent_transform_list-AllTransform no_expr calm n =
        (no_expr, n, refl, no_expr-AreTransformed db schema)
    equivalent_transform_list-AllTransform (more_expr expr exprs) calm n =
        let (x1, k1, e1, t1) = equivalent_transform-Transforms expr calm.0 n in
        let (xs, k2, e2, ts) = equivalent_transform_list-AllTransform exprs calm.1 k1 in
        (
          more_expr x1 xs,
          k2,
          rw (e1, e2) refl,
          more_expr-AreTransformed db schema expr x1 exprs xs t1 ts,
        )

  module _ (e : ValueExpr) (calm : IsCalm db e) (n : ℕ) where
    -- For a calm expression and calm draws `equivalent_transform` returns, and what the transformed
    -- expression prints has, on every row of a database that follows the laws of SQL, the value of
    -- what was printed before.
    pub equivalent_transform-value :
        (e' : ValueExpr) × (m : ℕ) × (equivalent_transform schema draws e n ≡ ok (e', m))
        × ((r : db.Row) → eval db (printed e') r ≡ eval db (printed e) r)
    equivalent_transform-value =
        let (e', m, run, t) = equivalent_transform-Transforms e calm n in
        (e', m, run, t.same_value (verbatim []))

    -- After `equivalent_transform` of a calm expression with calm draws, `back_transform` passes all
    -- its assertions and returns an expression that prints the text that was printed before the
    -- transformation; it is calm again and Boolean exactly when the first one was, so that it can be
    -- transformed again.
    pub back_transform-equivalent_transform :
        (e' : ValueExpr) × (m : ℕ) × (equivalent_transform schema draws e n ≡ ok (e', m))
        × ((e'' : ValueExpr) × (back_transform schema e' ≡ ok e'')
            × IsCalm db e''
            × (printed e'' ≡ printed e)
            × (is_bool_expr e'' ≡ is_bool_expr e))
    back_transform-equivalent_transform =
        let (e', m, run, t) = equivalent_transform-Transforms e calm n in (e', m, run, t.goes_back)
