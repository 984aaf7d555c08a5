-- ===== src/Expr/Typed.antt =====
-- The expressions as C++ types them: what stands where the code has a `bool_expr` is Boolean, the
-- operands of a `bool_term` are, and no `equal_expr` is there.
use dbfuzz_multidb.Common.{true, false, ◌≡◌}
use dbfuzz_multidb.Expr.Syntax.{
  ValueExpr, funcall, coalesce, binop_expr, case_expr, cast_expr, interval_expr, mysql_json_op,
  not_expr, null_predicate, between_op, like_op, bool_term, comparison_op, distinct_pred,
  comp_subquery, ValueExprs, no_expr, more_expr, Subquery, query_spec, unioned_query, is_bool_expr,
}

unfoldable mutual
  pub IsTyped : ValueExpr → Type 0
  IsTyped (funcall b proc is_aggregate parms) = AreTyped parms
  IsTyped (coalesce b name value_exprs) = AreTyped value_exprs
  IsTyped (binop_expr b oper lhs rhs) = IsTyped lhs × IsTyped rhs
  IsTyped (case_expr b condition true_expr false_expr) =
      IsTyped condition × IsTyped true_expr × IsTyped false_expr × (is_bool_expr condition ≡ true)
  IsTyped (cast_expr b use_convert target inner) = IsTyped inner
  IsTyped (interval_expr b is_add unit date_expr amount) = IsTyped date_expr × IsTyped amount
  IsTyped (mysql_json_op b arrow json_path lhs) = IsTyped lhs
  IsTyped (not_expr b inner) = IsTyped inner × (is_bool_expr inner ≡ true)
  IsTyped (null_predicate b is_null expr) = IsTyped expr
  IsTyped (between_op b use_eq lhs mhs rhs) = IsTyped lhs × IsTyped mhs × IsTyped rhs
  IsTyped (like_op b operator format lhs) = IsTyped lhs
  IsTyped (bool_term b has_equal is_or lhs rhs) =
      IsTyped lhs
      × IsTyped rhs
      × (is_bool_expr lhs ≡ true)
      × (is_bool_expr rhs ≡ true)
      × (has_equal ≡ false)
  IsTyped (comparison_op b oper lhs rhs) = IsTyped lhs × IsTyped rhs
  IsTyped (distinct_pred b lhs rhs) = IsTyped lhs × IsTyped rhs
  IsTyped (comp_subquery b comp_op lhs query) = IsTyped lhs × IsTypedQuery query
  IsTyped _ = Unit

  pub IsTypedQuery : Subquery → Type 0
  IsTypedQuery (query_spec before after search) = IsTyped search × (is_bool_expr search ≡ true)
  IsTypedQuery (unioned_query before middle after left right) =
      IsTyped left × IsTyped right × (is_bool_expr left ≡ true) × (is_bool_expr right ≡ true)

  pub AreTyped : ValueExprs → Type 0
  AreTyped no_expr = Unit
  AreTyped (more_expr expr exprs) = IsTyped expr × AreTyped exprs
