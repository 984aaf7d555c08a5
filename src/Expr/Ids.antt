-- ===== src/Expr/Ids.antt =====
-- `set_component_id` of the classes of src/expr: the components are numbered in the order in which
-- the code visits them.
use dbfuzz_multidb.Common.{◌+◌, Bool, true, false, Text, some}
use dbfuzz_multidb.Txcheck.Result.{ok, throw, assertion_failed}
use dbfuzz_multidb.Expr.Syntax.{
  ValueExpr, share_this, printed_expr, const_expr, column_reference, atomic_subselect, funcall,
  coalesce, binop_expr, case_expr, cast_expr, interval_expr, mysql_json_op, const_bool, not_expr,
  null_predicate, between_op, like_op, bool_term, comparison_op, distinct_pred, comp_subquery,
  regexp_expr, ValueExprs, no_expr, more_expr, Subquery, query_spec, unioned_query, Base, base,
}
use dbfuzz_multidb.Expr.Counter.{Counter, ◌>>=◌, pure, lift}

-- The expression must not be marked.
abbrev pub value_expr_set_component_id : Base → Counter Base
value_expr_set_component_id (base true equal id) n = throw assertion_failed
value_expr_set_component_id (base false equal id) n = ok (base false equal (some n), n + 1)

abbrev pub list_set_component_id :
    Base → (Base → ValueExprs → ValueExpr) → Counter ValueExprs → Counter ValueExpr
list_set_component_id b build list_call = do
  b' ← value_expr_set_component_id b
  es ← list_call
  pure (build b' es)

abbrev pub bool_binop_set_component_id :
    Base
    → (Base → ValueExpr → ValueExpr → ValueExpr)
    → Counter ValueExpr
    → Counter ValueExpr
    → Counter ValueExpr
bool_binop_set_component_id b build lhs_call rhs_call = do
  b' ← value_expr_set_component_id b
  l ← lhs_call
  r ← rhs_call
  pure (build b' l r)

abbrev pub comp_subquery_set_component_id :
    Base → Text → Counter ValueExpr → Counter Subquery → Counter ValueExpr
comp_subquery_set_component_id b comp_op lhs_call query_call = do
  b' ← value_expr_set_component_id b
  l ← lhs_call
  q ← query_call
  pure (comp_subquery b' comp_op l q)

-- Where `has_equal_expr` is set the expression is marked, and the assertion fails.
abbrev pub bool_term_set_component_id :
    Base → Bool → Bool → Counter ValueExpr → Counter ValueExpr → Counter ValueExpr
bool_term_set_component_id b true is_or lhs_call rhs_call = lift (throw assertion_failed)
bool_term_set_component_id b false is_or lhs_call rhs_call =
    bool_binop_set_component_id b (λ b' l r. bool_term b' false is_or l r) lhs_call rhs_call

abbrev pub binop_expr_set_component_id :
    Base → Text → Counter ValueExpr → Counter ValueExpr → Counter ValueExpr
binop_expr_set_component_id b oper lhs_call rhs_call = do
  b' ← value_expr_set_component_id b
  lhs' ← lhs_call
  rhs' ← rhs_call
  pure (binop_expr b' oper lhs' rhs')

abbrev pub case_expr_set_component_id :
    Base → Counter ValueExpr → Counter ValueExpr → Counter ValueExpr → Counter ValueExpr
case_expr_set_component_id b condition_call true_expr_call false_expr_call = do
  b' ← value_expr_set_component_id b
  condition' ← condition_call
  true_expr' ← true_expr_call
  false_expr' ← false_expr_call
  pure (case_expr b' condition' true_expr' false_expr')

abbrev pub cast_expr_set_component_id : Base → Bool → Text → Counter ValueExpr → Counter ValueExpr
cast_expr_set_component_id b use_convert target inner_call = do
  b' ← value_expr_set_component_id b
  inner' ← inner_call
  pure (cast_expr b' use_convert target inner')

abbrev pub interval_expr_set_component_id :
    Base → Bool → Text → Counter ValueExpr → Counter ValueExpr → Counter ValueExpr
interval_expr_set_component_id b is_add unit date_expr_call amount_call = do
  b' ← value_expr_set_component_id b
  date_expr' ← date_expr_call
  amount' ← amount_call
  pure (interval_expr b' is_add unit date_expr' amount')

abbrev pub mysql_json_op_set_component_id :
    Base → Bool → Text → Counter ValueExpr → Counter ValueExpr
mysql_json_op_set_component_id b arrow json_path lhs_call = do
  b' ← value_expr_set_component_id b
  lhs' ← lhs_call
  pure (mysql_json_op b' arrow json_path lhs')

abbrev pub not_expr_set_component_id : Base → Counter ValueExpr → Counter ValueExpr
not_expr_set_component_id b inner_call = do
  b' ← value_expr_set_component_id b
  inner' ← inner_call
  pure (not_expr b' inner')

abbrev pub null_predicate_set_component_id : Base → Bool → Counter ValueExpr → Counter ValueExpr
null_predicate_set_component_id b is_null expr_call = do
  b' ← value_expr_set_component_id b
  expr' ← expr_call
  pure (null_predicate b' is_null expr')

abbrev pub between_op_set_component_id :
    Base → Bool → Counter ValueExpr → Counter ValueExpr → Counter ValueExpr → Counter ValueExpr
between_op_set_component_id b use_eq lhs_call mhs_call rhs_call = do
  b' ← value_expr_set_component_id b
  lhs' ← lhs_call
  mhs' ← mhs_call
  rhs' ← rhs_call
  pure (between_op b' use_eq lhs' mhs' rhs')

abbrev pub like_op_set_component_id : Base → Text → Text → Counter ValueExpr → Counter ValueExpr
like_op_set_component_id b operator format lhs_call = do
  b' ← value_expr_set_component_id b
  lhs' ← lhs_call
  pure (like_op b' operator format lhs')

unfoldable mutual
  pub set_component_id : ValueExpr → Counter ValueExpr
  set_component_id share_this = lift (throw assertion_failed)
  set_component_id (printed_expr b text) = do
    b' ← value_expr_set_component_id b
    pure (printed_expr b' text)
  set_component_id (const_expr b text) = do
    b' ← value_expr_set_component_id b
    pure (const_expr b' text)
  set_component_id (column_reference b reference collation) = do
    b' ← value_expr_set_component_id b
    pure (column_reference b' reference collation)
  set_component_id (atomic_subselect b query) = do
    b' ← value_expr_set_component_id b
    pure (atomic_subselect b' query)
  set_component_id (const_bool b op) = do
    b' ← value_expr_set_component_id b
    pure (const_bool b' op)
  -- the class leaves its operands without a number
  set_component_id (regexp_expr b negated lhs rhs) = do
    b' ← value_expr_set_component_id b
    pure (regexp_expr b' negated lhs rhs)
  set_component_id (funcall b proc is_aggregate parms) =
      list_set_component_id b (λ b' es. funcall b' proc is_aggregate es)
        (set_component_id_list parms)
  set_component_id (coalesce b name value_exprs) =
      list_set_component_id b (λ b' es. coalesce b' name es) (set_component_id_list value_exprs)
  set_component_id (binop_expr b oper lhs rhs) =
      binop_expr_set_component_id b oper (set_component_id lhs) (set_component_id rhs)
  set_component_id (case_expr b condition true_expr false_expr) =
      case_expr_set_component_id b (set_component_id condition) (set_component_id true_expr)
        (set_component_id false_expr)
  set_component_id (cast_expr b use_convert target inner) =
      cast_expr_set_component_id b use_convert target (set_component_id inner)
  set_component_id (interval_expr b is_add unit date_expr amount) =
      interval_expr_set_component_id b is_add unit (set_component_id date_expr)
        (set_component_id amount)
  set_component_id (mysql_json_op b arrow json_path lhs) =
      mysql_json_op_set_component_id b arrow json_path (set_component_id lhs)
  set_component_id (not_expr b inner) = not_expr_set_component_id b (set_component_id inner)
  set_component_id (null_predicate b is_null expr) =
      null_predicate_set_component_id b is_null (set_component_id expr)
  set_component_id (between_op b use_eq lhs mhs rhs) =
      between_op_set_component_id b use_eq (set_component_id lhs) (set_component_id mhs)
        (set_component_id rhs)
  set_component_id (like_op b operator format lhs) =
      like_op_set_component_id b operator format (set_component_id lhs)
  set_component_id (bool_term b has_equal is_or lhs rhs) =
      bool_term_set_component_id b has_equal is_or (set_component_id lhs) (set_component_id rhs)
  set_component_id (comparison_op b oper lhs rhs) =
      bool_binop_set_component_id b (λ b' l r. comparison_op b' oper l r) (set_component_id lhs)
        (set_component_id rhs)
  set_component_id (distinct_pred b lhs rhs) =
      bool_binop_set_component_id b distinct_pred (set_component_id lhs) (set_component_id rhs)
  set_component_id (comp_subquery b comp_op lhs query) =
      comp_subquery_set_component_id b comp_op (set_component_id lhs) (set_component_id_query query)

  pub set_component_id_query : Subquery → Counter Subquery
  set_component_id_query (query_spec before after search) = do
    s ← set_component_id search
    pure (query_spec before after s)
  set_component_id_query (unioned_query before middle after left right) = do
    l ← set_component_id left
    r ← set_component_id right
    pure (unioned_query before middle after l r)

  pub set_component_id_list : ValueExprs → Counter ValueExprs
  set_component_id_list no_expr = pure no_expr
  set_component_id_list (more_expr expr exprs) = do
    e ← set_component_id expr
    es ← set_component_id_list exprs
    pure (more_expr e es)
