-- ===== src/Expr/Out.antt =====
-- `out` of the classes of src/expr. An expression that is transformed prints its equal expression,
-- in which the pointer back to it prints it plainly (`has_print_eq_expr`): `out self e` prints `e`
-- where `self` is what that pointer prints.
use dbfuzz_multidb.Common.{Bool, true, false, Text, codes, [], ◌++◌}
use dbfuzz_multidb.Expr.Syntax.{
  Truth, arithmetic, comparison, logic, Sql, verbatim, literal, call, operation, distinct_from,
  case_when, cast_as, interval_of, json_at, negation, null_test, between, like, regexp, query_test,
  union_test, Sqls, no_sql, more_sql, ValueExpr, share_this, printed_expr, const_expr,
  column_reference, atomic_subselect, funcall, coalesce, binop_expr, case_expr, cast_expr,
  interval_expr, mysql_json_op, const_bool, not_expr, null_predicate, between_op, like_op,
  bool_term, comparison_op, distinct_pred, comp_subquery, regexp_expr, ValueExprs, no_expr,
  more_expr, Subquery, query_spec, unioned_query, Base, base, EqExpr, no_eq, eq,
}

abbrev pub greater_equal : Text
greater_equal = codes ">="

abbrev pub less_equal : Text
less_equal = codes "<="

-- Each class by what its operands print: the text where it is not transformed.
abbrev pub const_expr_out : Text → Sql
const_expr_out expr = verbatim expr

abbrev pub column_reference_out : Text → Text → Sql
column_reference_out reference collation = verbatim (reference ++ collation)

abbrev pub atomic_subselect_out : Text → Sql
atomic_subselect_out query = verbatim query

-- An aggregate without parameters prints a star.
abbrev pub funcall_out : Text → Bool → Sqls → Sql
funcall_out proc true no_sql = call proc (codes ",") (more_sql (verbatim (codes "*")) no_sql)
funcall_out proc _ parms = call proc (codes ",") parms

abbrev pub coalesce_out : Text → Sqls → Sql
coalesce_out name value_exprs = call name (codes ", ") value_exprs

abbrev pub binop_expr_out : Text → Sql → Sql → Sql
binop_expr_out oper lhs rhs = operation (arithmetic oper) lhs rhs

abbrev pub case_expr_out : Sql → Sql → Sql → Sql
case_expr_out condition true_expr false_expr = case_when condition true_expr false_expr

abbrev pub cast_expr_out : Bool → Text → Sql → Sql
cast_expr_out use_convert target_type_name inner = cast_as use_convert target_type_name inner

abbrev pub interval_expr_out : Bool → Text → Sql → Sql → Sql
interval_expr_out is_add unit date_expr amount = interval_of is_add unit date_expr amount

abbrev pub mysql_json_op_out : Bool → Text → Sql → Sql
mysql_json_op_out arrow json_path lhs = json_at arrow json_path lhs

abbrev pub const_bool_out : Truth → Sql
const_bool_out op = literal op

abbrev pub not_expr_out : Sql → Sql
not_expr_out inner = negation inner

abbrev pub null_predicate_out : Bool → Sql → Sql
null_predicate_out is_null expr = null_test is_null expr

abbrev pub comparison_op_out : Text → Sql → Sql → Sql
comparison_op_out oper lhs rhs = operation (comparison oper) lhs rhs

abbrev pub distinct_pred_out : Sql → Sql → Sql
distinct_pred_out lhs rhs = distinct_from lhs rhs

-- Where `has_equal_expr` is set, `equal_expr` is printed, which `equivalent_transform` has built.
abbrev pub bool_term_out : Bool → Bool → Sql → Sql → Sql
bool_term_out true is_or lhs rhs =
    not_expr_out (operation (logic is_or) (not_expr_out rhs) (not_expr_out lhs))
bool_term_out false is_or lhs rhs = operation (logic is_or) lhs rhs

-- Where `use_eq_expr` is set, the two comparisons are printed.
abbrev pub between_op_out : Bool → Sql → Sql → Sql → Sql
between_op_out true lhs mhs rhs =
    bool_term_out false false (comparison_op_out greater_equal mhs lhs)
      (comparison_op_out less_equal mhs rhs)
between_op_out false lhs mhs rhs = between mhs lhs rhs

abbrev pub like_op_out : Text → Text → Sql → Sql
like_op_out like_operator like_format lhs = like like_operator like_format lhs

abbrev pub regexp_expr_out : Bool → Sql → Sql → Sql
regexp_expr_out negated lhs rhs = regexp negated lhs rhs

unfoldable mutual
  pub out : Sql → ValueExpr → Sql
  out self share_this = self
  out self (printed_expr b printed_str) = printed_str
  out self (const_expr b expr) = out_base (const_expr_out expr) b
  out self (column_reference b reference collation) =
      out_base (column_reference_out reference collation) b
  out self (atomic_subselect b query) = out_base (atomic_subselect_out query) b
  out self (funcall b proc is_aggregate parms) =
      out_base (funcall_out proc is_aggregate (out_list self parms)) b
  out self (coalesce b name value_exprs) =
      out_base (coalesce_out name (out_list self value_exprs)) b
  out self (binop_expr b oper lhs rhs) =
      out_base (binop_expr_out oper (out self lhs) (out self rhs)) b
  out self (case_expr b condition true_expr false_expr) =
      out_base (case_expr_out (out self condition) (out self true_expr) (out self false_expr)) b
  out self (cast_expr b use_convert target inner) =
      out_base (cast_expr_out use_convert target (out self inner)) b
  out self (interval_expr b is_add unit date_expr amount) =
      out_base (interval_expr_out is_add unit (out self date_expr) (out self amount)) b
  out self (mysql_json_op b arrow json_path lhs) =
      out_base (mysql_json_op_out arrow json_path (out self lhs)) b
  out self (const_bool b op) = out_base (const_bool_out op) b
  out self (not_expr b inner) = out_base (not_expr_out (out self inner)) b
  out self (null_predicate b is_null expr) = out_base (null_predicate_out is_null (out self expr)) b
  out self (between_op b use_eq lhs mhs rhs) =
      out_base (between_op_out use_eq (out self lhs) (out self mhs) (out self rhs)) b
  out self (like_op b like_operator like_format lhs) =
      out_base (like_op_out like_operator like_format (out self lhs)) b
  out self (bool_term b has_equal is_or lhs rhs) =
      out_base (bool_term_out has_equal is_or (out self lhs) (out self rhs)) b
  out self (comparison_op b oper lhs rhs) =
      out_base (comparison_op_out oper (out self lhs) (out self rhs)) b
  out self (distinct_pred b lhs rhs) = out_base (distinct_pred_out (out self lhs) (out self rhs)) b
  out self (comp_subquery b comp_op lhs query) =
      out_base (comp_subquery_out self comp_op (out self lhs) query) b
  -- the class prints itself, transformed or not
  out self (regexp_expr b negated lhs rhs) = regexp_expr_out negated (out self lhs) (out self rhs)

  pub comp_subquery_out : Sql → Text → Sql → Subquery → Sql
  comp_subquery_out self comp_op lhs (query_spec before after search) =
      query_test comp_op lhs before after (out self search)
  comp_subquery_out self comp_op lhs (unioned_query before middle after left right) =
      union_test comp_op lhs before middle after (out self left) (out self right)

  pub out_list : Sql → ValueExprs → Sqls
  out_list self no_expr = no_sql
  out_list self (more_expr expr exprs) = more_sql (out self expr) (out_list self exprs)

  -- OUTPUT_EQ_BOOL_EXPR, and the same test in the classes that are not Boolean.
  pub out_base : Sql → Base → Sql
  out_base plain (base true equal id) = out_eq_value_expr plain equal
  out_base plain (base false equal id) = plain

  -- `out_eq_value_expr` and `out_eq_bool_expr`.
  pub out_eq_value_expr : Sql → EqExpr → Sql
  out_eq_value_expr plain no_eq = plain
  out_eq_value_expr plain (eq equal) = out plain equal

-- What a statement prints, where no pointer back is met.
abbrev pub printed : ValueExpr → Sql
printed e = out (verbatim []) e
