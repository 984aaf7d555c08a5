-- ===== src/Expr/Replace.antt =====
-- `set_component_from_id` of the classes of src/expr. `none` stands for the answer false, and nothing
-- is changed then.
use dbfuzz_multidb.Common.{ℕ, Bool, true, false, Text, Option, none}
use dbfuzz_multidb.Expr.Syntax.{
  ValueExpr, funcall, coalesce, binop_expr, case_expr, cast_expr, interval_expr, mysql_json_op,
  not_expr, null_predicate, between_op, like_op, bool_term, comparison_op, distinct_pred,
  comp_subquery, ValueExprs, no_expr, more_expr, Subquery, query_spec, unioned_query, Base,
}
use dbfuzz_multidb.Expr.Find.{first_found, found_in, set_child, set_bool_child}

-- Each class by what its operands answer.
abbrev pub binop_expr_set_component_from_id :
    Base → Text → ValueExpr → ValueExpr → Option ValueExpr → Option ValueExpr → Option ValueExpr
binop_expr_set_component_from_id b oper lhs rhs lhs_set rhs_set =
    first_found (found_in (λ e. binop_expr b oper e rhs) lhs_set)
      (found_in (λ e. binop_expr b oper lhs e) rhs_set)

abbrev pub case_expr_set_component_from_id :
    Base
    → ValueExpr
    → ValueExpr
    → ValueExpr
    → Option ValueExpr
    → Option ValueExpr
    → Option ValueExpr
    → Option ValueExpr
case_expr_set_component_from_id b condition true_expr false_expr condition_set true_expr_set
      false_expr_set =
    first_found (found_in (λ e. case_expr b e true_expr false_expr) condition_set) (
      first_found (found_in (λ e. case_expr b condition e false_expr) true_expr_set)
        (found_in (λ e. case_expr b condition true_expr e) false_expr_set))

abbrev pub cast_expr_set_component_from_id :
    Base → Bool → Text → ValueExpr → Option ValueExpr → Option ValueExpr
cast_expr_set_component_from_id b use_convert target inner inner_set =
    found_in (λ e. cast_expr b use_convert target e) inner_set

abbrev pub interval_expr_set_component_from_id :
    Base
    → Bool
    → Text
    → ValueExpr
    → ValueExpr
    → Option ValueExpr
    → Option ValueExpr
    → Option ValueExpr
interval_expr_set_component_from_id b is_add unit date_expr amount date_expr_set amount_set =
    first_found (found_in (λ e. interval_expr b is_add unit e amount) date_expr_set)
      (found_in (λ e. interval_expr b is_add unit date_expr e) amount_set)

abbrev pub mysql_json_op_set_component_from_id :
    Base → Bool → Text → ValueExpr → Option ValueExpr → Option ValueExpr
mysql_json_op_set_component_from_id b arrow json_path lhs lhs_set =
    found_in (λ e. mysql_json_op b arrow json_path e) lhs_set

abbrev pub not_expr_set_component_from_id : Base → ValueExpr → Option ValueExpr → Option ValueExpr
not_expr_set_component_from_id b inner inner_set = found_in (λ e. not_expr b e) inner_set

abbrev pub null_predicate_set_component_from_id :
    Base → Bool → ValueExpr → Option ValueExpr → Option ValueExpr
null_predicate_set_component_from_id b is_null expr expr_set =
    found_in (λ e. null_predicate b is_null e) expr_set

abbrev pub between_op_set_component_from_id :
    Base
    → Bool
    → ValueExpr
    → ValueExpr
    → ValueExpr
    → Option ValueExpr
    → Option ValueExpr
    → Option ValueExpr
    → Option ValueExpr
between_op_set_component_from_id b use_eq lhs mhs rhs lhs_set mhs_set rhs_set =
    first_found (found_in (λ e. between_op b use_eq e mhs rhs) lhs_set) (
      first_found (found_in (λ e. between_op b use_eq lhs e rhs) mhs_set)
        (found_in (λ e. between_op b use_eq lhs mhs e) rhs_set))

abbrev pub like_op_set_component_from_id :
    Base → Text → Text → ValueExpr → Option ValueExpr → Option ValueExpr
like_op_set_component_from_id b operator format lhs lhs_set =
    found_in (λ e. like_op b operator format e) lhs_set

abbrev pub bool_binop_set_component_from_id :
    (ValueExpr → ValueExpr → ValueExpr)
    → ValueExpr
    → ValueExpr
    → Option ValueExpr
    → Option ValueExpr
    → Option ValueExpr
bool_binop_set_component_from_id build lhs rhs lhs_set rhs_set =
    first_found (found_in (λ e. build e rhs) lhs_set) (found_in (λ e. build lhs e) rhs_set)

-- Where `has_equal_expr` is set the code would part `equal_expr` from the operands; components are
-- replaced in expressions that are not transformed, and the model answers false.
abbrev pub bool_term_set_component_from_id :
    Base
    → Bool
    → Bool
    → ValueExpr
    → ValueExpr
    → Option ValueExpr
    → Option ValueExpr
    → Option ValueExpr
bool_term_set_component_from_id b true is_or lhs rhs lhs_set rhs_set = none
bool_term_set_component_from_id b false is_or lhs rhs lhs_set rhs_set =
    bool_binop_set_component_from_id (bool_term b false is_or) lhs rhs lhs_set rhs_set

abbrev pub comp_subquery_set_component_from_id :
    Base → Text → ValueExpr → Subquery → Option ValueExpr → Option Subquery → Option ValueExpr
comp_subquery_set_component_from_id b comp_op lhs query lhs_set query_set =
    first_found (found_in (λ q. comp_subquery b comp_op lhs q) query_set)
      (found_in (λ e. comp_subquery b comp_op e query) lhs_set)

module _ (id : ℕ) (component : ValueExpr) where
  unfoldable mutual
    pub set_component_from_id : ValueExpr → Option ValueExpr
    set_component_from_id (funcall b proc is_aggregate parms) =
        found_in (λ es. funcall b proc is_aggregate es) (set_component_from_id_list parms)
    set_component_from_id (coalesce b name value_exprs) =
        found_in (λ es. coalesce b name es) (set_component_from_id_list value_exprs)
    set_component_from_id (binop_expr b oper lhs rhs) =
        binop_expr_set_component_from_id b oper lhs rhs
          (set_child id component lhs (set_component_from_id lhs))
          (set_child id component rhs (set_component_from_id rhs))
    set_component_from_id (case_expr b condition true_expr false_expr) =
        case_expr_set_component_from_id b condition true_expr false_expr
          (set_bool_child id component condition (set_component_from_id condition))
          (set_child id component true_expr (set_component_from_id true_expr))
          (set_child id component false_expr (set_component_from_id false_expr))
    set_component_from_id (cast_expr b use_convert target inner) =
        cast_expr_set_component_from_id b use_convert target inner
          (set_child id component inner (set_component_from_id inner))
    set_component_from_id (interval_expr b is_add unit date_expr amount) =
        interval_expr_set_component_from_id b is_add unit date_expr amount
          (set_child id component date_expr (set_component_from_id date_expr))
          (set_child id component amount (set_component_from_id amount))
    set_component_from_id (mysql_json_op b arrow json_path lhs) =
        mysql_json_op_set_component_from_id b arrow json_path lhs
          (set_child id component lhs (set_component_from_id lhs))
    set_component_from_id (not_expr b inner) =
        not_expr_set_component_from_id b inner
          (set_bool_child id component inner (set_component_from_id inner))
    set_component_from_id (null_predicate b is_null expr) =
        null_predicate_set_component_from_id b is_null expr
          (set_child id component expr (set_component_from_id expr))
    set_component_from_id (between_op b use_eq lhs mhs rhs) =
        between_op_set_component_from_id b use_eq lhs mhs rhs
          (set_child id component lhs (set_component_from_id lhs))
          (set_child id component mhs (set_component_from_id mhs))
          (set_child id component rhs (set_component_from_id rhs))
    set_component_from_id (like_op b operator format lhs) =
        like_op_set_component_from_id b operator format lhs
          (set_child id component lhs (set_component_from_id lhs))
    set_component_from_id (bool_term b has_equal is_or lhs rhs) =
        bool_term_set_component_from_id b has_equal is_or lhs rhs
          (set_child id component lhs (set_component_from_id lhs))
          (set_child id component rhs (set_component_from_id rhs))
    set_component_from_id (comparison_op b oper lhs rhs) =
        bool_binop_set_component_from_id (comparison_op b oper) lhs rhs
          (set_child id component lhs (set_component_from_id lhs))
          (set_child id component rhs (set_component_from_id rhs))
    set_component_from_id (distinct_pred b lhs rhs) =
        bool_binop_set_component_from_id (distinct_pred b) lhs rhs
          (set_child id component lhs (set_component_from_id lhs))
          (set_child id component rhs (set_component_from_id rhs))
    set_component_from_id (comp_subquery b comp_op lhs query) =
        comp_subquery_set_component_from_id b comp_op lhs query
          (set_child id component lhs (set_component_from_id lhs))
          (set_component_from_id_query query)
    -- the method of `value_expr`
    set_component_from_id _ = none

    pub set_component_from_id_query : Subquery → Option Subquery
    set_component_from_id_query (query_spec before after search) =
        found_in (λ e. query_spec before after e)
          (set_bool_child id component search (set_component_from_id search))
    set_component_from_id_query (unioned_query before middle after left right) =
        first_found
          (found_in (λ e. unioned_query before middle after e right)
            (set_bool_child id component left (set_component_from_id left)))
          (found_in (λ e. unioned_query before middle after left e)
            (set_bool_child id component right (set_component_from_id right)))

    pub set_component_from_id_list : ValueExprs → Option ValueExprs
    set_component_from_id_list no_expr = none
    set_component_from_id_list (more_expr expr exprs) =
        first_found
          (found_in (λ e. more_expr e exprs)
            (set_child id component expr (set_component_from_id expr)))
          (found_in (λ es. more_expr expr es) (set_component_from_id_list exprs))
