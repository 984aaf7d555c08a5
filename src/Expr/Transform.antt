-- ===== src/Expr/Transform.antt =====
-- `equivalent_transform` of the classes of src/expr.
use dbfuzz_multidb.Common.{ℕ, ◌+◌, Bool, true, false, not, Text, if◌then◌else◌, leb, ltb}
use dbfuzz_multidb.Txcheck.Result.{Result, ok, throw, assertion_failed, null_dereference}
use dbfuzz_multidb.Expr.Syntax.{
  Truth, tru, fls, unk, Sql, ValueExpr, share_this, printed_expr, const_expr, column_reference,
  atomic_subselect, funcall, coalesce, binop_expr, case_expr, cast_expr, interval_expr,
  mysql_json_op, const_bool, not_expr, null_predicate, between_op, like_op, bool_term,
  comparison_op, distinct_pred, comp_subquery, regexp_expr, ValueExprs, no_expr, more_expr,
  Subquery, query_spec, unioned_query, Base, base, no_eq, eq, fresh_base, is_bool_expr,
}
use dbfuzz_multidb.Expr.Out.{printed}
use dbfuzz_multidb.Expr.Counter.{Counter, ◌>>=◌, pure, lift}

-- What the transformation asks of the schema: whether the target is ClickHouse, and whether its
-- operators have both ">=" and "<=".
pub record TargetSchema : Type 0 where
  pub clickhouse : Bool
  pub has_ge_le : Bool

-- What one expression draws for its equal expression: what the two factories return once they do
-- not throw, `d9()` and `d6()`.
pub record Draw : Type 0 where
  pub random_value : ValueExpr
  pub random_bool : ValueExpr
  pub choice : ℕ
  pub coin : ℕ

-- rand or (not rand) or (rand is null), and rand and (not rand) and (rand is not null)
abbrev pub true_value : ValueExpr → ValueExpr
true_value rand =
    bool_term fresh_base false true
      (bool_term fresh_base false true rand (not_expr fresh_base rand))
      (null_predicate fresh_base true rand)

abbrev pub false_value : ValueExpr → ValueExpr
false_value rand =
    bool_term fresh_base false false
      (bool_term fresh_base false false rand (not_expr fresh_base rand))
      (null_predicate fresh_base false rand)

abbrev pub mark_transformed : Base → Result Base
mark_transformed (base true equal id) = throw assertion_failed
mark_transformed (base false equal id) = ok (base true equal id)

abbrev pub unmark_transformed : Base → Result Base
unmark_transformed (base true equal id) = ok (base false equal id)
unmark_transformed (base false equal id) = throw assertion_failed

-- The equal expression of a value; `plain` is what it prints while it is not marked.
abbrev pub new_eq_value_expr : Sql → Draw → ValueExpr
new_eq_value_expr plain d =
    if leb d.choice 3
    then case_expr fresh_base (true_value d.random_bool) share_this d.random_value
    else if leb d.choice 6
    then case_expr fresh_base (false_value d.random_bool) d.random_value share_this
    else if leb 3 d.coin
    then case_expr fresh_base d.random_bool (printed_expr fresh_base plain) share_this
    else case_expr fresh_base d.random_bool share_this (printed_expr fresh_base plain)

-- The equal expression of a Boolean.
abbrev pub new_eq_bool_expr : Draw → ValueExpr
new_eq_bool_expr d =
    if ltb 3 d.coin
    then bool_term fresh_base false false (true_value d.random_bool) share_this
    else bool_term fresh_base false true (false_value d.random_bool) share_this

-- The equal expression of a constant; that of null looks at no draw.
abbrev pub new_const_bool_eq_expr : Truth → Draw → ValueExpr
new_const_bool_eq_expr unk d = const_bool fresh_base unk
new_const_bool_eq_expr fls d =
    bool_term fresh_base false false d.random_bool (const_bool fresh_base fls)
new_const_bool_eq_expr tru d =
    bool_term fresh_base false true d.random_bool (const_bool fresh_base tru)

-- An equal expression that is there is kept.
abbrev pub fill_eq_expr : (ℕ → ValueExpr) → Base → Counter Base
fill_eq_expr new (base marked no_eq id) n = ok (base marked (eq (new n)) id, n + 1)
fill_eq_expr new b n = ok (b, n)

abbrev pub cast_bool_expr : ValueExpr → Result ValueExpr
cast_bool_expr e = if is_bool_expr e then ok e else throw null_dereference

module _ (schema : TargetSchema) (draws : ℕ → Draw) where
  unfoldable pub value_expr_equivalent_transform : Sql → Base → Counter Base
  value_expr_equivalent_transform plain b = do
    marked ← lift (mark_transformed b)
    fill_eq_expr (λ n. new_eq_value_expr plain (draws n)) marked

  unfoldable pub bool_expr_equivalent_transform : Base → Counter Base
  bool_expr_equivalent_transform b = do
    marked ← lift (mark_transformed b)
    fill_eq_expr (λ n. new_eq_bool_expr (draws n)) marked

  abbrev pub const_bool_equivalent_transform : Truth → Base → Counter ValueExpr
  const_bool_equivalent_transform op b = do
    marked ← lift (mark_transformed b)
    filled ← fill_eq_expr (λ n. new_const_bool_eq_expr op (draws n)) marked
    pure (const_bool filled op)

  -- Each class, by the transformation of its base and of its operands.
  abbrev pub funcall_equivalent_transform :
      Counter Base → Text → Bool → ValueExprs → Counter ValueExprs → Counter ValueExpr
  funcall_equivalent_transform base_call proc is_aggregate parms parms_call = do
    b ← base_call
    ps ← if schema.clickhouse then pure parms else parms_call
    pure (funcall b proc is_aggregate ps)

  abbrev pub coalesce_equivalent_transform :
      Counter Base → Text → Counter ValueExprs → Counter ValueExpr
  coalesce_equivalent_transform base_call name exprs_call = do
    b ← base_call
    es ← exprs_call
    pure (coalesce b name es)

  abbrev pub binop_expr_equivalent_transform :
      Counter Base → Text → Counter ValueExpr → Counter ValueExpr → Counter ValueExpr
  binop_expr_equivalent_transform base_call oper lhs_call rhs_call = do
    b ← base_call
    l ← lhs_call
    r ← rhs_call
    pure (binop_expr b oper l r)

  abbrev pub case_expr_equivalent_transform :
      Counter Base → Counter ValueExpr → Counter ValueExpr → Counter ValueExpr → Counter ValueExpr
  case_expr_equivalent_transform base_call condition_call true_call false_call = do
    b ← base_call
    c ← condition_call
    t ← true_call
    f ← false_call
    pure (case_expr b c t f)

  abbrev pub cast_expr_equivalent_transform :
      Counter Base → Bool → Text → Counter ValueExpr → Counter ValueExpr
  cast_expr_equivalent_transform base_call use_convert target inner_call = do
    b ← base_call
    e ← inner_call
    pure (cast_expr b use_convert target e)

  abbrev pub interval_expr_equivalent_transform :
      Counter Base → Bool → Text → Counter ValueExpr → Counter ValueExpr → Counter ValueExpr
  interval_expr_equivalent_transform base_call is_add unit date_call amount_call = do
    b ← base_call
    d ← date_call
    a ← amount_call
    pure (interval_expr b is_add unit d a)

  abbrev pub mysql_json_op_equivalent_transform :
      Counter Base → Bool → Text → Counter ValueExpr → Counter ValueExpr
  mysql_json_op_equivalent_transform base_call arrow json_path lhs_call = do
    b ← base_call
    e ← lhs_call
    pure (mysql_json_op b arrow json_path e)

  abbrev pub not_expr_equivalent_transform : Counter Base → Counter ValueExpr → Counter ValueExpr
  not_expr_equivalent_transform base_call inner_call = do
    b ← base_call
    e ← inner_call
    pure (not_expr b e)

  abbrev pub null_predicate_equivalent_transform :
      Counter Base → Bool → Counter ValueExpr → Counter ValueExpr
  null_predicate_equivalent_transform base_call is_null expr_call = do
    b ← base_call
    e ← expr_call
    pure (null_predicate b is_null e)

  -- Without both operators the pattern stays as it is.
  abbrev pub between_op_equivalent_transform :
      Counter Base
      → Bool
      → Counter ValueExpr
      → Counter ValueExpr
      → Counter ValueExpr
      → Counter ValueExpr
  between_op_equivalent_transform base_call use_eq lhs_call mhs_call rhs_call = do
    b ← base_call
    l ← lhs_call
    m ← mhs_call
    r ← rhs_call
    pure (between_op b (if schema.has_ge_le then true else use_eq) l m r)

  abbrev pub like_op_equivalent_transform :
      Counter Base → Text → Text → Counter ValueExpr → Counter ValueExpr
  like_op_equivalent_transform base_call like_operator like_format lhs_call = do
    b ← base_call
    e ← lhs_call
    pure (like_op b like_operator like_format e)

  abbrev pub bool_binop_equivalent_transform :
      Counter Base
      → (Base → ValueExpr → ValueExpr → ValueExpr)
      → Counter ValueExpr
      → Counter ValueExpr
      → Counter ValueExpr
  bool_binop_equivalent_transform base_call build lhs_call rhs_call = do
    b ← base_call
    l ← lhs_call
    r ← rhs_call
    pure (build b l r)

  -- `op` is swapped, and `equal_expr` is built over the operands, which have to be Boolean.
  abbrev pub bool_term_equivalent_transform :
      Counter Base → Bool → Counter ValueExpr → Counter ValueExpr → Counter ValueExpr
  bool_term_equivalent_transform base_call is_or lhs_call rhs_call = do
    b ← base_call
    l ← lhs_call
    r ← rhs_call
    bool_lhs ← lift (cast_bool_expr l)
    bool_rhs ← lift (cast_bool_expr r)
    pure (bool_term b true (not is_or) bool_lhs bool_rhs)

  abbrev pub comp_subquery_equivalent_transform :
      Counter Base → Text → Counter ValueExpr → Counter Subquery → Counter ValueExpr
  comp_subquery_equivalent_transform base_call comp_op lhs_call query_call = do
    b ← base_call
    l ← lhs_call
    q ← query_call
    pure (comp_subquery b comp_op l q)

  unfoldable mutual
    pub equivalent_transform : ValueExpr → Counter ValueExpr
    equivalent_transform share_this = lift (throw null_dereference)
    equivalent_transform (printed_expr b printed_str) = do
      b' ← value_expr_equivalent_transform printed_str b
      pure (printed_expr b' printed_str)
    equivalent_transform (const_expr b expr) = do
      b' ← value_expr_equivalent_transform (printed (const_expr b expr)) b
      pure (const_expr b' expr)
    equivalent_transform (column_reference b reference collation) = do
      b' ← value_expr_equivalent_transform (printed (column_reference b reference collation)) b
      pure (column_reference b' reference collation)
    equivalent_transform (atomic_subselect b query) = do
      b' ← value_expr_equivalent_transform (printed (atomic_subselect b query)) b
      pure (atomic_subselect b' query)
    equivalent_transform (funcall b proc is_aggregate parms) =
        funcall_equivalent_transform
          (value_expr_equivalent_transform (printed (funcall b proc is_aggregate parms)) b) proc
          is_aggregate parms (equivalent_transform_list parms)
    equivalent_transform (coalesce b name value_exprs) =
        coalesce_equivalent_transform
          (value_expr_equivalent_transform (printed (coalesce b name value_exprs)) b) name
          (equivalent_transform_list value_exprs)
    equivalent_transform (binop_expr b oper lhs rhs) =
        binop_expr_equivalent_transform
          (value_expr_equivalent_transform (printed (binop_expr b oper lhs rhs)) b) oper
          (equivalent_transform lhs) (equivalent_transform rhs)
    equivalent_transform (case_expr b condition true_expr false_expr) =
        case_expr_equivalent_transform
          (value_expr_equivalent_transform (printed (case_expr b condition true_expr false_expr)) b)
          (equivalent_transform condition) (equivalent_transform true_expr)
          (equivalent_transform false_expr)
    equivalent_transform (cast_expr b use_convert target inner) =
        cast_expr_equivalent_transform
          (value_expr_equivalent_transform (printed (cast_expr b use_convert target inner)) b)
          use_convert target (equivalent_transform inner)
    equivalent_transform (interval_expr b is_add unit date_expr amount) =
        interval_expr_equivalent_transform
          (value_expr_equivalent_transform (printed (interval_expr b is_add unit date_expr amount))
            b)
          is_add unit (equivalent_transform date_expr) (equivalent_transform amount)
    equivalent_transform (mysql_json_op b arrow json_path lhs) =
        mysql_json_op_equivalent_transform
          (value_expr_equivalent_transform (printed (mysql_json_op b arrow json_path lhs)) b) arrow
          json_path (equivalent_transform lhs)
    equivalent_transform (const_bool b op) = const_bool_equivalent_transform op b
    equivalent_transform (not_expr b inner) =
        not_expr_equivalent_transform (bool_expr_equivalent_transform b)
          (equivalent_transform inner)
    equivalent_transform (null_predicate b is_null expr) =
        null_predicate_equivalent_transform (bool_expr_equivalent_transform b) is_null
          (equivalent_transform expr)
    equivalent_transform (between_op b use_eq lhs mhs rhs) =
        between_op_equivalent_transform (bool_expr_equivalent_transform b) use_eq
          (equivalent_transform lhs) (equivalent_transform mhs) (equivalent_transform rhs)
    equivalent_transform (like_op b like_operator like_format lhs) =
        like_op_equivalent_transform (bool_expr_equivalent_transform b) like_operator like_format
          (equivalent_transform lhs)
    equivalent_transform (bool_term b has_equal is_or lhs rhs) =
        bool_term_equivalent_transform (bool_expr_equivalent_transform b) is_or
          (equivalent_transform lhs) (equivalent_transform rhs)
    equivalent_transform (comparison_op b oper lhs rhs) =
        bool_binop_equivalent_transform (bool_expr_equivalent_transform b)
          (λ b' l r. comparison_op b' oper l r) (equivalent_transform lhs)
          (equivalent_transform rhs)
    equivalent_transform (distinct_pred b lhs rhs) =
        bool_binop_equivalent_transform (bool_expr_equivalent_transform b) distinct_pred
          (equivalent_transform lhs) (equivalent_transform rhs)
    equivalent_transform (comp_subquery b comp_op lhs query) =
        comp_subquery_equivalent_transform (bool_expr_equivalent_transform b) comp_op
          (equivalent_transform lhs) (equivalent_transform_query query)
    -- the class has the method of `bool_expr`, which leaves the operands alone
    equivalent_transform (regexp_expr b negated lhs rhs) = do
      b' ← bool_expr_equivalent_transform b
      pure (regexp_expr b' negated lhs rhs)

    pub equivalent_transform_query : Subquery → Counter Subquery
    equivalent_transform_query (query_spec before after search) = do
      s ← equivalent_transform search
      pure (query_spec before after s)
    equivalent_transform_query (unioned_query before middle after left right) = do
      l ← equivalent_transform left
      r ← equivalent_transform right
      pure (unioned_query before middle after l r)

    pub equivalent_transform_list : ValueExprs → Counter ValueExprs
    equivalent_transform_list no_expr = pure no_expr
    equivalent_transform_list (more_expr expr exprs) = do
      e ← equivalent_transform expr
      es ← equivalent_transform_list exprs
      pure (more_expr e es)
