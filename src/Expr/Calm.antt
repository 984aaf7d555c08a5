-- ===== src/Expr/Calm.antt =====
-- Expressions as they are between two transformations: nothing is marked, Boolean operands are
-- Boolean, and an equal expression that an earlier transformation has left has the value of the
-- expression that owns it.
use dbfuzz_multidb.Common.{Text, true, false, ◌≡◌, refl, ap, []}
use dbfuzz_multidb.Expr.Syntax.{
  Sql, verbatim, Sqls, ValueExpr, share_this, printed_expr, const_expr, column_reference,
  atomic_subselect, funcall, coalesce, binop_expr, case_expr, cast_expr, interval_expr,
  mysql_json_op, const_bool, not_expr, null_predicate, between_op, like_op, bool_term,
  comparison_op, distinct_pred, comp_subquery, regexp_expr, ValueExprs, no_expr, more_expr,
  Subquery, query_spec, unioned_query, Base, base, EqExpr, no_eq, eq, is_bool_expr,
}
use dbfuzz_multidb.Expr.Out.{
  out, out_list, out_base, comp_subquery_out, printed, const_expr_out, column_reference_out,
  atomic_subselect_out, funcall_out, coalesce_out, binop_expr_out, case_expr_out, cast_expr_out,
  interval_expr_out, mysql_json_op_out, const_bool_out, not_expr_out, null_predicate_out,
  between_op_out, like_op_out, bool_term_out, comparison_op_out, distinct_pred_out, regexp_expr_out,
}
use dbfuzz_multidb.Expr.Meaning.{Database, ◌≈◌}

abbrev pub printed_list : ValueExprs → Sqls
printed_list = out_list (verbatim [])

module _ (db : Database) where
  -- The equal expression has the value of `plain` wherever the pointer back has it.
  abbrev pub KeepsValue : Sql → EqExpr → Type 0
  KeepsValue plain no_eq = Unit
  KeepsValue plain (eq equal) = (self : Sql) → ◌≈◌ db self plain → ◌≈◌ db (out self equal) plain

  abbrev pub IsIdle : Sql → Base → Type 0
  IsIdle plain (base true equal id) = ⊥
  IsIdle plain (base false equal id) = KeepsValue plain equal

  unfoldable mutual
    pub IsCalm : ValueExpr → Type 0
    -- these stand only in equal expressions
    IsCalm share_this = ⊥
    IsCalm (printed_expr b printed_str) = ⊥
    IsCalm (const_expr b expr) = IsIdle (const_expr_out expr) b
    IsCalm (column_reference b reference collation) =
        IsIdle (column_reference_out reference collation) b
    IsCalm (atomic_subselect b query) = IsIdle (atomic_subselect_out query) b
    IsCalm (funcall b proc is_aggregate parms) =
        IsIdle (funcall_out proc is_aggregate (printed_list parms)) b × AreCalm parms
    IsCalm (coalesce b name value_exprs) =
        IsIdle (coalesce_out name (printed_list value_exprs)) b × AreCalm value_exprs
    IsCalm (binop_expr b oper lhs rhs) =
        IsIdle (binop_expr_out oper (printed lhs) (printed rhs)) b × IsCalm lhs × IsCalm rhs
    IsCalm (case_expr b condition true_expr false_expr) =
        IsIdle (case_expr_out (printed condition) (printed true_expr) (printed false_expr)) b
        × IsCalm condition
        × IsCalm true_expr
        × IsCalm false_expr
        × (is_bool_expr condition ≡ true)
    IsCalm (cast_expr b use_convert target inner) =
        IsIdle (cast_expr_out use_convert target (printed inner)) b × IsCalm inner
    IsCalm (interval_expr b is_add unit date_expr amount) =
        IsIdle (interval_expr_out is_add unit (printed date_expr) (printed amount)) b
        × IsCalm date_expr
        × IsCalm amount
    IsCalm (mysql_json_op b arrow json_path lhs) =
        IsIdle (mysql_json_op_out arrow json_path (printed lhs)) b × IsCalm lhs
    IsCalm (const_bool b op) = IsIdle (const_bool_out op) b
    IsCalm (not_expr b inner) =
        IsIdle (not_expr_out (printed inner)) b × IsCalm inner × (is_bool_expr inner ≡ true)
    IsCalm (null_predicate b is_null expr) =
        IsIdle (null_predicate_out is_null (printed expr)) b × IsCalm expr
    IsCalm (between_op b use_eq lhs mhs rhs) =
        IsIdle (between_op_out use_eq (printed lhs) (printed mhs) (printed rhs)) b
        × IsCalm lhs
        × IsCalm mhs
        × IsCalm rhs
        × (use_eq ≡ false)
    IsCalm (like_op b like_operator like_format lhs) =
        IsIdle (like_op_out like_operator like_format (printed lhs)) b × IsCalm lhs
    IsCalm (bool_term b has_equal is_or lhs rhs) =
        IsIdle (bool_term_out has_equal is_or (printed lhs) (printed rhs)) b
        × IsCalm lhs
        × IsCalm rhs
        × (is_bool_expr lhs ≡ true)
        × (is_bool_expr rhs ≡ true)
        × (has_equal ≡ false)
    IsCalm (comparison_op b oper lhs rhs) =
        IsIdle (comparison_op_out oper (printed lhs) (printed rhs)) b × IsCalm lhs × IsCalm rhs
    IsCalm (distinct_pred b lhs rhs) =
        IsIdle (distinct_pred_out (printed lhs) (printed rhs)) b × IsCalm lhs × IsCalm rhs
    IsCalm (comp_subquery b comp_op lhs query) =
        IsIdle (comp_subquery_out (verbatim []) comp_op (printed lhs) query) b
        × IsCalm lhs
        × IsCalmQuery query
    IsCalm (regexp_expr b negated lhs rhs) =
        IsIdle (regexp_expr_out negated (printed lhs) (printed rhs)) b × IsCalm lhs × IsCalm rhs

    -- the search conditions are Boolean
    pub IsCalmQuery : Subquery → Type 0
    IsCalmQuery (query_spec before after search) = IsCalm search × (is_bool_expr search ≡ true)
    IsCalmQuery (unioned_query before middle after left right) =
        IsCalm left × IsCalm right × (is_bool_expr left ≡ true) × (is_bool_expr right ≡ true)

    pub AreCalm : ValueExprs → Type 0
    AreCalm no_expr = Unit
    AreCalm (more_expr expr exprs) = IsCalm expr × AreCalm exprs

  -- A base that is not marked prints plainly.
  pub out_base-IsIdle : (plain shown : Sql) (b : Base) → IsIdle plain b → out_base shown b ≡ shown
  unfolding out
  out_base-IsIdle plain shown (base true equal id) idle = absurd idle
  out_base-IsIdle plain shown (base false equal id) idle = refl

  mutual
    unfolding out IsCalm

    -- What a calm expression prints does not hang on the pointer back.
    pub out-IsCalm : (e : ValueExpr) (self : Sql) → IsCalm e → out self e ≡ printed e
    out-IsCalm share_this self calm = absurd calm
    out-IsCalm (printed_expr b printed_str) self calm = absurd calm
    out-IsCalm (const_expr b expr) self calm = refl
    out-IsCalm (column_reference b reference collation) self calm = refl
    out-IsCalm (atomic_subselect b query) self calm = refl
    out-IsCalm (funcall b proc is_aggregate parms) self calm =
        rw (out_list-AreCalm parms self calm.1) refl
    out-IsCalm (coalesce b name value_exprs) self calm =
        rw (out_list-AreCalm value_exprs self calm.1) refl
    out-IsCalm (binop_expr b oper lhs rhs) self calm =
        rw (out-IsCalm lhs self calm.1, out-IsCalm rhs self calm.2) refl
    out-IsCalm (case_expr b c t f) self calm =
        rw (out-IsCalm c self calm.1, out-IsCalm t self calm.2, out-IsCalm f self calm.3) refl
    out-IsCalm (cast_expr b use_convert target inner) self calm =
        rw (out-IsCalm inner self calm.1) refl
    out-IsCalm (interval_expr b is_add unit date_expr amount) self calm =
        rw (out-IsCalm date_expr self calm.1, out-IsCalm amount self calm.2) refl
    out-IsCalm (mysql_json_op b arrow json_path lhs) self calm =
        rw (out-IsCalm lhs self calm.1) refl
    out-IsCalm (const_bool b op) self calm = refl
    out-IsCalm (not_expr b inner) self calm = rw (out-IsCalm inner self calm.1) refl
    out-IsCalm (null_predicate b is_null expr) self calm = rw (out-IsCalm expr self calm.1) refl
    out-IsCalm (between_op b use_eq lhs mhs rhs) self calm =
        rw (out-IsCalm lhs self calm.1, out-IsCalm mhs self calm.2, out-IsCalm rhs self calm.3) refl
    out-IsCalm (like_op b like_operator like_format lhs) self calm =
        rw (out-IsCalm lhs self calm.1) refl
    out-IsCalm (bool_term b has_equal is_or lhs rhs) self calm =
        rw (out-IsCalm lhs self calm.1, out-IsCalm rhs self calm.2) refl
    out-IsCalm (comparison_op b oper lhs rhs) self calm =
        rw (out-IsCalm lhs self calm.1, out-IsCalm rhs self calm.2) refl
    out-IsCalm (distinct_pred b lhs rhs) self calm =
        rw (out-IsCalm lhs self calm.1, out-IsCalm rhs self calm.2) refl
    out-IsCalm (comp_subquery b comp_op lhs query) self calm =
        rw (out-IsCalm lhs self calm.1)
          (ap (λ s. out_base s b) (query-IsCalm comp_op (printed lhs) query self calm.2))
    out-IsCalm (regexp_expr b negated lhs rhs) self calm =
        rw (out-IsCalm lhs self calm.1, out-IsCalm rhs self calm.2) refl

    pub query-IsCalm :
        (comp_op : Text) (lhs : Sql) (q : Subquery) (self : Sql)
        → IsCalmQuery q
        → comp_subquery_out self comp_op lhs q ≡ comp_subquery_out (verbatim []) comp_op lhs q
    query-IsCalm comp_op lhs (query_spec before after search) self calm =
        rw (out-IsCalm search self calm.0) refl
    query-IsCalm comp_op lhs (unioned_query before middle after left right) self calm =
        rw (out-IsCalm left self calm.0, out-IsCalm right self calm.1) refl

    pub out_list-AreCalm :
        (es : ValueExprs) (self : Sql) → AreCalm es → out_list self es ≡ printed_list es
    out_list-AreCalm no_expr self calm = refl
    out_list-AreCalm (more_expr expr exprs) self calm =
        rw (out-IsCalm expr self calm.0, out_list-AreCalm exprs self calm.1) refl
