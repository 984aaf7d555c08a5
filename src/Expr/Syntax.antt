-- ===== src/Expr/Syntax.antt =====
-- The expressions of src/expr as data: a constructor for each class, with the fields of the class.
-- `Sql` is what `out` prints, kept as a tree; the code puts brackets around what it nests, and the
-- white space of `indent` is left out.
use dbfuzz_multidb.Common.{ℕ, Bool, true, false, Option, none, Text}

-- The three truth values of SQL, which `const_bool` prints.
pub data Truth : Type 0 where
  tru fls unk : Truth

-- The operators between two operands in brackets.
pub data Operator : Type 0 where
  -- an operator of the schema, by its name
  arithmetic : Text → Operator
  comparison : Text → Operator
  -- "or" for true, "and" for false
  logic : Bool → Operator

mutual
  pub data Sql : Type 0 where
    verbatim : Text → Sql
    -- the literal of a truth value, with the cast that some databases want
    literal : Truth → Sql
    -- the name, the separator and the arguments
    call : Text → Text → Sqls → Sql
    -- (l) op (r)
    operation : Operator → Sql → Sql → Sql
    -- (l) is distinct from (r)
    distinct_from : Sql → Sql → Sql
    -- case when (c) then (t) else (f) end
    case_when : Sql → Sql → Sql → Sql
    -- convert(e, type) for true, cast(e as type) for false
    cast_as : Bool → Text → Sql → Sql
    -- (d) + interval (a) unit for true, with - for false
    interval_of : Bool → Text → Sql → Sql → Sql
    -- (e)->path for true, (e)->>path for false
    json_at : Bool → Text → Sql → Sql
    -- not (e)
    negation : Sql → Sql
    -- (e) is null for true, (e) is not null for false
    null_test : Bool → Sql → Sql
    -- (m) between (l) and (r)
    between : Sql → Sql → Sql → Sql
    -- (e) like 'format', with the operator's text
    like : Text → Text → Sql → Sql
    -- l not regexp r for true, l regexp r for false
    regexp : Bool → Sql → Sql → Sql
    -- (l) op ( a query ), the query by its text before and after the search condition
    query_test : Text → Sql → Text → Text → Sql → Sql
    -- the same with a union of two queries
    union_test : Text → Sql → Text → Text → Text → Sql → Sql → Sql

  pub data Sqls : Type 0 where
    no_sql : Sqls
    more_sql : Sql → Sqls → Sqls

mutual
  pub data ValueExpr : Type 0 where
    -- the pointer back to the expression that owns an equal expression
    share_this : ValueExpr
    printed_expr : Base → Sql → ValueExpr
    const_expr : Base → Text → ValueExpr
    -- reference and collation
    column_reference : Base → Text → Text → ValueExpr
    -- the text of the subquery
    atomic_subselect : Base → Text → ValueExpr
    -- proc, is_aggregate, parms
    funcall : Base → Text → Bool → ValueExprs → ValueExpr
    -- abbrev_, value_exprs
    coalesce : Base → Text → ValueExprs → ValueExpr
    -- oper, lhs, rhs
    binop_expr : Base → Text → ValueExpr → ValueExpr → ValueExpr
    -- condition, true_expr, false_expr
    case_expr : Base → ValueExpr → ValueExpr → ValueExpr → ValueExpr
    -- use_convert, target_type_name, inner_expr
    cast_expr : Base → Bool → Text → ValueExpr → ValueExpr
    -- is_add, interval_unit, date_expr, amount
    interval_expr : Base → Bool → Text → ValueExpr → ValueExpr → ValueExpr
    -- whether op is JSON_ARROW, json_path, lhs
    mysql_json_op : Base → Bool → Text → ValueExpr → ValueExpr
    -- op; `eq_expr` stands where the other classes have `eq_bool_expr`
    const_bool : Base → Truth → ValueExpr
    -- inner_expr
    not_expr : Base → ValueExpr → ValueExpr
    -- whether negate is empty, expr
    null_predicate : Base → Bool → ValueExpr → ValueExpr
    -- use_eq_expr, lhs, mhs, rhs
    between_op : Base → Bool → ValueExpr → ValueExpr → ValueExpr → ValueExpr
    -- like_operator, like_format, lhs
    like_op : Base → Text → Text → ValueExpr → ValueExpr
    -- has_equal_expr, whether op is "or", lhs, rhs; where has_equal_expr is set, `equal_expr` is
    -- not ((not rhs) op (not lhs)) and shares lhs and rhs
    bool_term : Base → Bool → Bool → ValueExpr → ValueExpr → ValueExpr
    -- oper, lhs, rhs
    comparison_op : Base → Text → ValueExpr → ValueExpr → ValueExpr
    -- lhs, rhs
    distinct_pred : Base → ValueExpr → ValueExpr → ValueExpr
    -- comp_op, lhs, target_subquery
    comp_subquery : Base → Text → ValueExpr → Subquery → ValueExpr
    -- negated, lhs, rhs
    regexp_expr : Base → Bool → ValueExpr → ValueExpr → ValueExpr

  pub data ValueExprs : Type 0 where
    no_expr : ValueExprs
    more_expr : ValueExpr → ValueExprs → ValueExprs

  -- A query with its `search`, and the text around it.
  pub data Subquery : Type 0 where
    query_spec : Text → Text → ValueExpr → Subquery
    unioned_query : Text → Text → Text → ValueExpr → ValueExpr → Subquery

  -- The fields of `value_expr`: is_transformed, the equal expression, and component_id, where
  -- `none` stands for -1.
  pub data Base : Type 0 where
    base : Bool → EqExpr → Option ℕ → Base

  -- `eq_value_expr` or `eq_bool_expr`, which may be null.
  pub data EqExpr : Type 0 where
    no_eq : EqExpr
    eq : ValueExpr → EqExpr

-- What a constructor of a class leaves in the fields of `value_expr`.
abbrev pub fresh_base : Base
fresh_base = base false no_eq none

-- `dynamic_pointer_cast<bool_expr>` succeeds.
unfoldable pub is_bool_expr : ValueExpr → Bool
is_bool_expr (const_bool b op) = true
is_bool_expr (not_expr b inner) = true
is_bool_expr (null_predicate b is_null inner) = true
is_bool_expr (between_op b use_eq lhs mhs rhs) = true
is_bool_expr (like_op b operator format lhs) = true
is_bool_expr (bool_term b has_equal is_or lhs rhs) = true
is_bool_expr (comparison_op b oper lhs rhs) = true
is_bool_expr (distinct_pred b lhs rhs) = true
is_bool_expr (comp_subquery b op lhs query) = true
is_bool_expr (regexp_expr b negated lhs rhs) = true
is_bool_expr _ = false
