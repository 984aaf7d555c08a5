-- ===== src/Expr/Back.antt =====
-- `back_transform` of the classes of src/expr.
use dbfuzz_multidb.Common.{Bool, true, false, not, Text, if◌then◌else◌}
use dbfuzz_multidb.Txcheck.Result.{Result, ok, throw, null_dereference, ◌>>=◌}
use dbfuzz_multidb.Expr.Syntax.{
  ValueExpr, share_this, printed_expr, const_expr, column_reference, atomic_subselect, funcall,
  coalesce, binop_expr, case_expr, cast_expr, interval_expr, mysql_json_op, const_bool, not_expr,
  null_predicate, between_op, like_op, bool_term, comparison_op, distinct_pred, comp_subquery,
  regexp_expr, ValueExprs, no_expr, more_expr, Subquery, query_spec, unioned_query, Base,
}
use dbfuzz_multidb.Expr.Transform.{TargetSchema, unmark_transformed}

-- `back_transform` of `value_expr` and of `bool_expr`.
abbrev pub value_expr_back_transform : Base → Result Base
value_expr_back_transform b = unmark_transformed b

abbrev pub bool_expr_back_transform : Base → Result Base
bool_expr_back_transform b = unmark_transformed b

abbrev pub coalesce_back_transform : Base → Text → Result ValueExprs → Result ValueExpr
coalesce_back_transform b name exprs_call = do
  es ← exprs_call
  b' ← value_expr_back_transform b
  ok (coalesce b' name es)

abbrev pub binop_expr_back_transform :
    Base → Text → Result ValueExpr → Result ValueExpr → Result ValueExpr
binop_expr_back_transform b oper lhs_call rhs_call = do
  r ← rhs_call
  l ← lhs_call
  b' ← value_expr_back_transform b
  ok (binop_expr b' oper l r)

abbrev pub case_expr_back_transform :
    Base → Result ValueExpr → Result ValueExpr → Result ValueExpr → Result ValueExpr
case_expr_back_transform b condition_call true_call false_call = do
  f ← false_call
  t ← true_call
  c ← condition_call
  b' ← value_expr_back_transform b
  ok (case_expr b' c t f)

abbrev pub cast_expr_back_transform : Base → Bool → Text → Result ValueExpr → Result ValueExpr
cast_expr_back_transform b use_convert target inner_call = do
  e ← inner_call
  b' ← value_expr_back_transform b
  ok (cast_expr b' use_convert target e)

abbrev pub interval_expr_back_transform :
    Base → Bool → Text → Result ValueExpr → Result ValueExpr → Result ValueExpr
interval_expr_back_transform b is_add unit date_call amount_call = do
  d ← date_call
  a ← amount_call
  b' ← value_expr_back_transform b
  ok (interval_expr b' is_add unit d a)

abbrev pub mysql_json_op_back_transform : Base → Bool → Text → Result ValueExpr → Result ValueExpr
mysql_json_op_back_transform b arrow json_path lhs_call = do
  e ← lhs_call
  b' ← value_expr_back_transform b
  ok (mysql_json_op b' arrow json_path e)

abbrev pub not_expr_back_transform : Base → Result ValueExpr → Result ValueExpr
not_expr_back_transform b inner_call = do
  e ← inner_call
  b' ← bool_expr_back_transform b
  ok (not_expr b' e)

abbrev pub null_predicate_back_transform : Base → Bool → Result ValueExpr → Result ValueExpr
null_predicate_back_transform b is_null expr_call = do
  e ← expr_call
  b' ← bool_expr_back_transform b
  ok (null_predicate b' is_null e)

abbrev pub between_op_back_transform :
    Base → Result ValueExpr → Result ValueExpr → Result ValueExpr → Result ValueExpr
between_op_back_transform b lhs_call mhs_call rhs_call = do
  r ← rhs_call
  m ← mhs_call
  l ← lhs_call
  b' ← bool_expr_back_transform b
  ok (between_op b' false l m r)

abbrev pub like_op_back_transform : Base → Text → Text → Result ValueExpr → Result ValueExpr
like_op_back_transform b like_operator like_format lhs_call = do
  e ← lhs_call
  b' ← bool_expr_back_transform b
  ok (like_op b' like_operator like_format e)

abbrev pub bool_binop_back_transform :
    Base
    → (Base → ValueExpr → ValueExpr → ValueExpr)
    → Result ValueExpr
    → Result ValueExpr
    → Result ValueExpr
bool_binop_back_transform b build lhs_call rhs_call = do
  r ← rhs_call
  l ← lhs_call
  b' ← bool_expr_back_transform b
  ok (build b' l r)

-- The operands come out of `equal_expr`, which is null where there has been no transformation, and
-- `op` is swapped again.
abbrev pub bool_term_back_transform :
    Base → Bool → Bool → Result ValueExpr → Result ValueExpr → Result ValueExpr
bool_term_back_transform b true is_or lhs_call rhs_call =
    bool_binop_back_transform b (λ b' l r. bool_term b' false (not is_or) l r) lhs_call rhs_call
bool_term_back_transform b false is_or lhs_call rhs_call = throw null_dereference

abbrev pub comp_subquery_back_transform :
    Base → Text → Result ValueExpr → Result Subquery → Result ValueExpr
comp_subquery_back_transform b comp_op lhs_call query_call = do
  q ← query_call
  l ← lhs_call
  b' ← bool_expr_back_transform b
  ok (comp_subquery b' comp_op l q)

module _ (schema : TargetSchema) where
  abbrev pub funcall_back_transform :
      Base → Text → Bool → ValueExprs → Result ValueExprs → Result ValueExpr
  funcall_back_transform b proc is_aggregate parms parms_call = do
    b' ← value_expr_back_transform b
    ps ← if schema.clickhouse then ok parms else parms_call
    ok (funcall b' proc is_aggregate ps)

  unfoldable mutual
    pub back_transform : ValueExpr → Result ValueExpr
    back_transform share_this = throw null_dereference
    back_transform (printed_expr b printed_str) = do
      b' ← value_expr_back_transform b
      ok (printed_expr b' printed_str)
    back_transform (const_expr b expr) = do
      b' ← value_expr_back_transform b
      ok (const_expr b' expr)
    back_transform (column_reference b reference collation) = do
      b' ← value_expr_back_transform b
      ok (column_reference b' reference collation)
    back_transform (atomic_subselect b query) = do
      b' ← value_expr_back_transform b
      ok (atomic_subselect b' query)
    back_transform (funcall b proc is_aggregate parms) =
        funcall_back_transform b proc is_aggregate parms (back_transform_list parms)
    back_transform (coalesce b name value_exprs) =
        coalesce_back_transform b name (back_transform_list value_exprs)
    back_transform (binop_expr b oper lhs rhs) =
        binop_expr_back_transform b oper (back_transform lhs) (back_transform rhs)
    back_transform (case_expr b condition true_expr false_expr) =
        case_expr_back_transform b (back_transform condition) (back_transform true_expr)
          (back_transform false_expr)
    back_transform (cast_expr b use_convert target inner) =
        cast_expr_back_transform b use_convert target (back_transform inner)
    back_transform (interval_expr b is_add unit date_expr amount) =
        interval_expr_back_transform b is_add unit (back_transform date_expr)
          (back_transform amount)
    back_transform (mysql_json_op b arrow json_path lhs) =
        mysql_json_op_back_transform b arrow json_path (back_transform lhs)
    back_transform (const_bool b op) = do b' ← bool_expr_back_transform b; ok (const_bool b' op)
    back_transform (not_expr b inner) = not_expr_back_transform b (back_transform inner)
    back_transform (null_predicate b is_null expr) =
        null_predicate_back_transform b is_null (back_transform expr)
    back_transform (between_op b use_eq lhs mhs rhs) =
        between_op_back_transform b (back_transform lhs) (back_transform mhs) (back_transform rhs)
    back_transform (like_op b like_operator like_format lhs) =
        like_op_back_transform b like_operator like_format (back_transform lhs)
    back_transform (bool_term b has_equal is_or lhs rhs) =
        bool_term_back_transform b has_equal is_or (back_transform lhs) (back_transform rhs)
    back_transform (comparison_op b oper lhs rhs) =
        bool_binop_back_transform b (λ b' l r. comparison_op b' oper l r) (back_transform lhs)
          (back_transform rhs)
    back_transform (distinct_pred b lhs rhs) =
        bool_binop_back_transform b distinct_pred (back_transform lhs) (back_transform rhs)
    back_transform (comp_subquery b comp_op lhs query) =
        comp_subquery_back_transform b comp_op (back_transform lhs) (back_transform_query query)
    back_transform (regexp_expr b negated lhs rhs) = do
      b' ← bool_expr_back_transform b
      ok (regexp_expr b' negated lhs rhs)

    pub back_transform_query : Subquery → Result Subquery
    back_transform_query (query_spec before after search) = do
      s ← back_transform search
      ok (query_spec before after s)
    back_transform_query (unioned_query before middle after left right) = do
      l ← back_transform left
      r ← back_transform right
      ok (unioned_query before middle after l r)

    pub back_transform_list : ValueExprs → Result ValueExprs
    back_transform_list no_expr = ok no_expr
    back_transform_list (more_expr expr exprs) = do
      e ← back_transform expr
      es ← back_transform_list exprs
      ok (more_expr e es)
