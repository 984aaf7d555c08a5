-- ===== src/Expr/Find.antt =====
-- `get_component_from_id` and `set_component_from_id` of the classes of src/expr. An expression
-- looks at its operands one after another, at each before what is below it; it does not look at
-- itself. `none` stands for the answer false, and nothing is changed then.
use dbfuzz_multidb.Common.{ℕ, Bool, true, false, Option, none, some, if◌then◌else◌, ◌==◌}
use dbfuzz_multidb.Expr.Syntax.{
  ValueExpr, share_this, printed_expr, const_expr, column_reference, atomic_subselect, funcall,
  coalesce, binop_expr, case_expr, cast_expr, interval_expr, mysql_json_op, const_bool, not_expr,
  null_predicate, between_op, like_op, bool_term, comparison_op, distinct_pred, comp_subquery,
  regexp_expr, ValueExprs, no_expr, more_expr, Subquery, query_spec, unioned_query, Base, base,
  is_bool_expr,
}

abbrev pub first_found {ℓ} : {A : Type ℓ} → Option A → Option A → Option A
first_found (some a) rest = some a
first_found none rest = rest

abbrev pub found_in {ℓ κ} : {A : Type ℓ} {B : Type κ} → (A → B) → Option A → Option B
found_in build (some a) = some (build a)
found_in build none = none

abbrev pub base_id : Base → Option ℕ
base_id (base marked equal id) = id

abbrev pub set_base_id : ℕ → Base → Base
set_base_id n (base marked equal id) = base marked equal (some n)

-- The field `component_id`.
unfoldable pub component_id : ValueExpr → Option ℕ
component_id share_this = none
component_id (printed_expr b text) = base_id b
component_id (const_expr b text) = base_id b
component_id (column_reference b reference collation) = base_id b
component_id (atomic_subselect b query) = base_id b
component_id (funcall b proc is_aggregate parms) = base_id b
component_id (coalesce b name value_exprs) = base_id b
component_id (binop_expr b oper lhs rhs) = base_id b
component_id (case_expr b c t f) = base_id b
component_id (cast_expr b use_convert target inner) = base_id b
component_id (interval_expr b is_add unit d a) = base_id b
component_id (mysql_json_op b arrow json_path lhs) = base_id b
component_id (const_bool b op) = base_id b
component_id (not_expr b inner) = base_id b
component_id (null_predicate b is_null expr) = base_id b
component_id (between_op b use_eq lhs mhs rhs) = base_id b
component_id (like_op b operator format lhs) = base_id b
component_id (bool_term b has_equal is_or lhs rhs) = base_id b
component_id (comparison_op b oper lhs rhs) = base_id b
component_id (distinct_pred b lhs rhs) = base_id b
component_id (comp_subquery b comp_op lhs query) = base_id b
component_id (regexp_expr b negated lhs rhs) = base_id b

-- The assignment to that field.
unfoldable pub with_component_id : ℕ → ValueExpr → ValueExpr
with_component_id n share_this = share_this
with_component_id n (printed_expr b text) = printed_expr (set_base_id n b) text
with_component_id n (const_expr b text) = const_expr (set_base_id n b) text
with_component_id n (column_reference b reference collation) =
    column_reference (set_base_id n b) reference collation
with_component_id n (atomic_subselect b query) = atomic_subselect (set_base_id n b) query
with_component_id n (funcall b proc is_aggregate parms) =
    funcall (set_base_id n b) proc is_aggregate parms
with_component_id n (coalesce b name value_exprs) = coalesce (set_base_id n b) name value_exprs
with_component_id n (binop_expr b oper lhs rhs) = binop_expr (set_base_id n b) oper lhs rhs
with_component_id n (case_expr b c t f) = case_expr (set_base_id n b) c t f
with_component_id n (cast_expr b use_convert target inner) =
    cast_expr (set_base_id n b) use_convert target inner
with_component_id n (interval_expr b is_add unit d a) =
    interval_expr (set_base_id n b) is_add unit d a
with_component_id n (mysql_json_op b arrow json_path lhs) =
    mysql_json_op (set_base_id n b) arrow json_path lhs
with_component_id n (const_bool b op) = const_bool (set_base_id n b) op
with_component_id n (not_expr b inner) = not_expr (set_base_id n b) inner
with_component_id n (null_predicate b is_null expr) = null_predicate (set_base_id n b) is_null expr
with_component_id n (between_op b use_eq lhs mhs rhs) =
    between_op (set_base_id n b) use_eq lhs mhs rhs
with_component_id n (like_op b operator format lhs) = like_op (set_base_id n b) operator format lhs
with_component_id n (bool_term b has_equal is_or lhs rhs) =
    bool_term (set_base_id n b) has_equal is_or lhs rhs
with_component_id n (comparison_op b oper lhs rhs) = comparison_op (set_base_id n b) oper lhs rhs
with_component_id n (distinct_pred b lhs rhs) = distinct_pred (set_base_id n b) lhs rhs
with_component_id n (comp_subquery b comp_op lhs query) =
    comp_subquery (set_base_id n b) comp_op lhs query
with_component_id n (regexp_expr b negated lhs rhs) = regexp_expr (set_base_id n b) negated lhs rhs

abbrev pub is_id : ℕ → Option ℕ → Bool
is_id n (some m) = m == n
is_id n none = false

-- GET_COMPONENT_FROM_ID_CHILD, where `below` is what the operand's method answers.
abbrev pub get_child : ℕ → ValueExpr → Option ValueExpr → Option ValueExpr
get_child id child below = if is_id id (component_id child) then some child else below

-- SET_COMPONENT_FROM_ID_CHILD, and the same for an operand that has to be Boolean.
abbrev pub set_child : ℕ → ValueExpr → ValueExpr → Option ValueExpr → Option ValueExpr
set_child id component child below =
    if is_id id (component_id child) then some (with_component_id id component) else below

abbrev pub set_bool_child : ℕ → ValueExpr → ValueExpr → Option ValueExpr → Option ValueExpr
set_bool_child id component child below =
    if is_bool_expr component then set_child id component child below else below

abbrev pub binop_expr_get_component_from_id : Option ValueExpr → Option ValueExpr → Option ValueExpr
binop_expr_get_component_from_id lhs rhs = first_found lhs rhs

abbrev pub case_expr_get_component_from_id :
    Option ValueExpr → Option ValueExpr → Option ValueExpr → Option ValueExpr
case_expr_get_component_from_id condition true_expr false_expr =
    first_found condition (first_found true_expr false_expr)

abbrev pub cast_expr_get_component_from_id : Option ValueExpr → Option ValueExpr
cast_expr_get_component_from_id inner = inner

abbrev pub interval_expr_get_component_from_id :
    Option ValueExpr → Option ValueExpr → Option ValueExpr
interval_expr_get_component_from_id date_expr amount = first_found date_expr amount

abbrev pub mysql_json_op_get_component_from_id : Option ValueExpr → Option ValueExpr
mysql_json_op_get_component_from_id lhs = lhs

abbrev pub not_expr_get_component_from_id : Option ValueExpr → Option ValueExpr
not_expr_get_component_from_id inner = inner

abbrev pub null_predicate_get_component_from_id : Option ValueExpr → Option ValueExpr
null_predicate_get_component_from_id expr = expr

abbrev pub between_op_get_component_from_id :
    Option ValueExpr → Option ValueExpr → Option ValueExpr → Option ValueExpr
between_op_get_component_from_id lhs mhs rhs = first_found lhs (first_found mhs rhs)

abbrev pub like_op_get_component_from_id : Option ValueExpr → Option ValueExpr
like_op_get_component_from_id lhs = lhs

abbrev pub bool_binop_get_component_from_id : Option ValueExpr → Option ValueExpr → Option ValueExpr
bool_binop_get_component_from_id lhs rhs = first_found lhs rhs

-- The operands are looked for below `equal_expr` first, where the right one stands first.
abbrev pub bool_term_get_component_from_id :
    Bool → Option ValueExpr → Option ValueExpr → Option ValueExpr
bool_term_get_component_from_id true lhs rhs =
    first_found (first_found rhs lhs) (bool_binop_get_component_from_id lhs rhs)
bool_term_get_component_from_id false lhs rhs = bool_binop_get_component_from_id lhs rhs

-- The query is looked at before the operand.
abbrev pub comp_subquery_get_component_from_id :
    Option ValueExpr → Option ValueExpr → Option ValueExpr
comp_subquery_get_component_from_id lhs query = first_found query lhs

unfoldable mutual
  pub get_component_from_id : ℕ → ValueExpr → Option ValueExpr
  get_component_from_id id (funcall b proc is_aggregate parms) = get_component_from_id_list id parms
  get_component_from_id id (coalesce b name value_exprs) = get_component_from_id_list id value_exprs
  get_component_from_id id (binop_expr b oper lhs rhs) =
      binop_expr_get_component_from_id (get_child id lhs (get_component_from_id id lhs))
        (get_child id rhs (get_component_from_id id rhs))
  get_component_from_id id (case_expr b condition true_expr false_expr) =
      case_expr_get_component_from_id (get_child id condition (get_component_from_id id condition))
        (get_child id true_expr (get_component_from_id id true_expr))
        (get_child id false_expr (get_component_from_id id false_expr))
  get_component_from_id id (cast_expr b use_convert target inner) =
      cast_expr_get_component_from_id (get_child id inner (get_component_from_id id inner))
  get_component_from_id id (interval_expr b is_add unit date_expr amount) =
      interval_expr_get_component_from_id
        (get_child id date_expr (get_component_from_id id date_expr))
        (get_child id amount (get_component_from_id id amount))
  get_component_from_id id (mysql_json_op b arrow json_path lhs) =
      mysql_json_op_get_component_from_id (get_child id lhs (get_component_from_id id lhs))
  get_component_from_id id (not_expr b inner) =
      not_expr_get_component_from_id (get_child id inner (get_component_from_id id inner))
  get_component_from_id id (null_predicate b is_null expr) =
      null_predicate_get_component_from_id (get_child id expr (get_component_from_id id expr))
  get_component_from_id id (between_op b use_eq lhs mhs rhs) =
      between_op_get_component_from_id (get_child id lhs (get_component_from_id id lhs))
        (get_child id mhs (get_component_from_id id mhs))
        (get_child id rhs (get_component_from_id id rhs))
  get_component_from_id id (like_op b operator format lhs) =
      like_op_get_component_from_id (get_child id lhs (get_component_from_id id lhs))
  get_component_from_id id (bool_term b has_equal is_or lhs rhs) =
      bool_term_get_component_from_id has_equal (get_child id lhs (get_component_from_id id lhs))
        (get_child id rhs (get_component_from_id id rhs))
  get_component_from_id id (comparison_op b oper lhs rhs) =
      bool_binop_get_component_from_id (get_child id lhs (get_component_from_id id lhs))
        (get_child id rhs (get_component_from_id id rhs))
  get_component_from_id id (distinct_pred b lhs rhs) =
      bool_binop_get_component_from_id (get_child id lhs (get_component_from_id id lhs))
        (get_child id rhs (get_component_from_id id rhs))
  get_component_from_id id (comp_subquery b comp_op lhs query) =
      comp_subquery_get_component_from_id (get_child id lhs (get_component_from_id id lhs))
        (get_component_from_id_query id query)
  -- the method of `value_expr`
  get_component_from_id id _ = none

  pub get_component_from_id_query : ℕ → Subquery → Option ValueExpr
  get_component_from_id_query id (query_spec before after search) =
      get_child id search (get_component_from_id id search)
  get_component_from_id_query id (unioned_query before middle after left right) =
      first_found (get_child id left (get_component_from_id id left))
        (get_child id right (get_component_from_id id right))

  pub get_component_from_id_list : ℕ → ValueExprs → Option ValueExpr
  get_component_from_id_list id no_expr = none
  get_component_from_id_list id (more_expr expr exprs) =
      first_found (get_child id expr (get_component_from_id id expr))
        (get_component_from_id_list id exprs)
