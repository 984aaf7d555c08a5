-- ===== src/Expr/Frames.antt =====
-- The transformation of the classes of src/expr with no operand, one or two that print their
-- operands in one fixed frame.
use dbfuzz_multidb.Common.{Bool, true, ◌≡◌, refl, ◌∙◌, Text}
use dbfuzz_multidb.Expr.Syntax.{
  Truth, ValueExpr, const_expr, column_reference, atomic_subselect, binop_expr, cast_expr,
  interval_expr, mysql_json_op, const_bool, not_expr, null_predicate, like_op, comparison_op,
  distinct_pred, Base, is_bool_expr,
}
use dbfuzz_multidb.Expr.Out.{
  out, printed, cast_expr_out, mysql_json_op_out, not_expr_out, null_predicate_out, like_op_out,
  binop_expr_out, interval_expr_out, comparison_op_out, distinct_pred_out, const_expr_out,
  column_reference_out, atomic_subselect_out, const_bool_out,
}
use dbfuzz_multidb.Expr.Transform.{TargetSchema}
use dbfuzz_multidb.Expr.Back.{back_transform}
use dbfuzz_multidb.Expr.Meaning.{Database, eval}
use dbfuzz_multidb.Expr.Calm.{IsCalm, IsIdle}
use dbfuzz_multidb.Expr.Marks.{IsMarked}
use dbfuzz_multidb.Expr.Transformed.{
  IsTransformed, leaf-IsTransformed, unary-IsTransformed, binary-IsTransformed,
}

module _ (db : Database) (schema : TargetSchema) where
  pub const_expr-IsTransformed :
      (b b' : Base) (expr : Text)
      → IsIdle db (const_expr_out expr) b
      → IsMarked db (const_expr_out expr) b'
      → IsTransformed db schema (const_expr b expr) (const_expr b' expr)
  unfolding out back_transform IsCalm is_bool_expr
  const_expr-IsTransformed b b' expr idle marked =
      leaf-IsTransformed db schema (λ c. const_expr c expr) (const_expr_out expr) (λ s c. refl)
        (λ c d. refl) (λ c d unmarked. rw unmarked refl) (λ c idle_c. idle_c) b b' idle marked

  pub column_reference-IsTransformed :
      (b b' : Base) (reference : Text) (collation : Text)
      → IsIdle db (column_reference_out reference collation) b
      → IsMarked db (column_reference_out reference collation) b'
      → IsTransformed db schema
          (column_reference b reference collation)
          (column_reference b' reference collation)
  unfolding out back_transform IsCalm is_bool_expr
  column_reference-IsTransformed b b' reference collation idle marked =
      leaf-IsTransformed db schema (λ c. column_reference c reference collation)
        (column_reference_out reference collation) (λ s c. refl) (λ c d. refl)
        (λ c d unmarked. rw unmarked refl) (λ c idle_c. idle_c) b b' idle marked

  pub atomic_subselect-IsTransformed :
      (b b' : Base) (query : Text)
      → IsIdle db (atomic_subselect_out query) b
      → IsMarked db (atomic_subselect_out query) b'
      → IsTransformed db schema (atomic_subselect b query) (atomic_subselect b' query)
  unfolding out back_transform IsCalm is_bool_expr
  atomic_subselect-IsTransformed b b' query idle marked =
      leaf-IsTransformed db schema (λ c. atomic_subselect c query) (atomic_subselect_out query)
        (λ s c. refl) (λ c d. refl) (λ c d unmarked. rw unmarked refl) (λ c idle_c. idle_c) b b'
        idle marked

  pub const_bool-IsTransformed :
      (b b' : Base) (op : Truth)
      → IsIdle db (const_bool_out op) b
      → IsMarked db (const_bool_out op) b'
      → IsTransformed db schema (const_bool b op) (const_bool b' op)
  unfolding out back_transform IsCalm is_bool_expr
  const_bool-IsTransformed b b' op idle marked =
      leaf-IsTransformed db schema (λ c. const_bool c op) (const_bool_out op) (λ s c. refl)
        (λ c d. refl) (λ c d unmarked. rw unmarked refl) (λ c idle_c. idle_c) b b' idle marked

  pub cast_expr-IsTransformed :
      (b b' : Base) (use_convert : Bool) (target : Text) (x x' : ValueExpr)
      → IsIdle db (cast_expr_out use_convert target (printed x)) b
      → IsMarked db (cast_expr_out use_convert target (printed x)) b'
      → IsTransformed db schema x x'
      → IsTransformed db schema
          (cast_expr b use_convert target x)
          (cast_expr b' use_convert target x')
  unfolding out back_transform IsCalm is_bool_expr eval
  cast_expr-IsTransformed b b' use_convert target x x' idle marked tx =
      unary-IsTransformed db schema (λ c. cast_expr c use_convert target)
        (cast_expr_out use_convert target) (λ s c y. refl)
        (λ s t h r i. db.cast_op use_convert target (h r i)) (λ c d y z. refl)
        (λ c d y z unmarked back. rw (back, unmarked) refl) b b' x x'
        (λ c y idle_c calm_y kind_y. (idle_c, calm_y)) idle marked tx

  pub mysql_json_op-IsTransformed :
      (b b' : Base) (arrow : Bool) (json_path : Text) (x x' : ValueExpr)
      → IsIdle db (mysql_json_op_out arrow json_path (printed x)) b
      → IsMarked db (mysql_json_op_out arrow json_path (printed x)) b'
      → IsTransformed db schema x x'
      → IsTransformed db schema
          (mysql_json_op b arrow json_path x)
          (mysql_json_op b' arrow json_path x')
  unfolding out back_transform IsCalm is_bool_expr eval
  mysql_json_op-IsTransformed b b' arrow json_path x x' idle marked tx =
      unary-IsTransformed db schema (λ c. mysql_json_op c arrow json_path)
        (mysql_json_op_out arrow json_path) (λ s c y. refl)
        (λ s t h r i. db.json_op arrow json_path (h r i)) (λ c d y z. refl)
        (λ c d y z unmarked back. rw (back, unmarked) refl) b b' x x'
        (λ c y idle_c calm_y kind_y. (idle_c, calm_y)) idle marked tx

  pub not_expr-IsTransformed :
      (b b' : Base) (x x' : ValueExpr)
      → is_bool_expr x ≡ true
      → IsIdle db (not_expr_out (printed x)) b
      → IsMarked db (not_expr_out (printed x)) b'
      → IsTransformed db schema x x'
      → IsTransformed db schema (not_expr b x) (not_expr b' x')
  unfolding out back_transform IsCalm is_bool_expr eval
  not_expr-IsTransformed b b' x x' boolean idle marked tx =
      unary-IsTransformed db schema (λ c. not_expr c) not_expr_out (λ s c y. refl)
        (λ s t h r i. db.not_op (h r i)) (λ c d y z. refl)
        (λ c d y z unmarked back. rw (back, unmarked) refl) b b' x x'
        (λ c y idle_c calm_y kind_y. (idle_c, calm_y, kind_y ∙ boolean)) idle marked tx

  pub null_predicate-IsTransformed :
      (b b' : Base) (is_null : Bool) (x x' : ValueExpr)
      → IsIdle db (null_predicate_out is_null (printed x)) b
      → IsMarked db (null_predicate_out is_null (printed x)) b'
      → IsTransformed db schema x x'
      → IsTransformed db schema (null_predicate b is_null x) (null_predicate b' is_null x')
  unfolding out back_transform IsCalm is_bool_expr eval
  null_predicate-IsTransformed b b' is_null x x' idle marked tx =
      unary-IsTransformed db schema (λ c. null_predicate c is_null) (null_predicate_out is_null)
        (λ s c y. refl) (λ s t h r i. db.null_op is_null (h r i)) (λ c d y z. refl)
        (λ c d y z unmarked back. rw (back, unmarked) refl) b b' x x'
        (λ c y idle_c calm_y kind_y. (idle_c, calm_y)) idle marked tx

  pub like_op-IsTransformed :
      (b b' : Base) (operator : Text) (format : Text) (x x' : ValueExpr)
      → IsIdle db (like_op_out operator format (printed x)) b
      → IsMarked db (like_op_out operator format (printed x)) b'
      → IsTransformed db schema x x'
      → IsTransformed db schema (like_op b operator format x) (like_op b' operator format x')
  unfolding out back_transform IsCalm is_bool_expr eval
  like_op-IsTransformed b b' operator format x x' idle marked tx =
      unary-IsTransformed db schema (λ c. like_op c operator format) (like_op_out operator format)
        (λ s c y. refl) (λ s t h r i. db.like_op operator format (h r i)) (λ c d y z. refl)
        (λ c d y z unmarked back. rw (back, unmarked) refl) b b' x x'
        (λ c y idle_c calm_y kind_y. (idle_c, calm_y)) idle marked tx

  pub binop_expr-IsTransformed :
      (b b' : Base) (oper : Text) (x x' y y' : ValueExpr)
      → IsIdle db (binop_expr_out oper (printed x) (printed y)) b
      → IsMarked db (binop_expr_out oper (printed x) (printed y)) b'
      → IsTransformed db schema x x'
      → IsTransformed db schema y y'
      → IsTransformed db schema (binop_expr b oper x y) (binop_expr b' oper x' y')
  unfolding out back_transform IsCalm is_bool_expr eval
  binop_expr-IsTransformed b b' oper x x' y y' idle marked tx ty =
      binary-IsTransformed db schema (λ c. binop_expr c oper) (binop_expr_out oper)
        (λ s c l m. refl) (λ s t u v h k r i. db.arithmetic_op oper (h r i) (k r i))
        (λ c d l m n k. refl)
        (λ c d l l' m m' unmarked back_l back_m. rw (back_l, back_m, unmarked) refl)
        (λ c l m idle_c calm_l calm_m. (idle_c, calm_l, calm_m)) b b' x x' y y' idle marked tx ty

  pub interval_expr-IsTransformed :
      (b b' : Base) (is_add : Bool) (unit : Text) (x x' y y' : ValueExpr)
      → IsIdle db (interval_expr_out is_add unit (printed x) (printed y)) b
      → IsMarked db (interval_expr_out is_add unit (printed x) (printed y)) b'
      → IsTransformed db schema x x'
      → IsTransformed db schema y y'
      → IsTransformed db schema
          (interval_expr b is_add unit x y)
          (interval_expr b' is_add unit x' y')
  unfolding out back_transform IsCalm is_bool_expr eval
  interval_expr-IsTransformed b b' is_add unit x x' y y' idle marked tx ty =
      binary-IsTransformed db schema (λ c. interval_expr c is_add unit)
        (interval_expr_out is_add unit) (λ s c l m. refl)
        (λ s t u v h k r i. db.interval_op is_add unit (h r i) (k r i)) (λ c d l m n k. refl)
        (λ c d l l' m m' unmarked back_l back_m. rw (back_l, back_m, unmarked) refl)
        (λ c l m idle_c calm_l calm_m. (idle_c, calm_l, calm_m)) b b' x x' y y' idle marked tx ty

  pub comparison_op-IsTransformed :
      (b b' : Base) (oper : Text) (x x' y y' : ValueExpr)
      → IsIdle db (comparison_op_out oper (printed x) (printed y)) b
      → IsMarked db (comparison_op_out oper (printed x) (printed y)) b'
      → IsTransformed db schema x x'
      → IsTransformed db schema y y'
      → IsTransformed db schema (comparison_op b oper x y) (comparison_op b' oper x' y')
  unfolding out back_transform IsCalm is_bool_expr eval
  comparison_op-IsTransformed b b' oper x x' y y' idle marked tx ty =
      binary-IsTransformed db schema (λ c. comparison_op c oper) (comparison_op_out oper)
        (λ s c l m. refl) (λ s t u v h k r i. db.comparison_op oper (h r i) (k r i))
        (λ c d l m n k. refl)
        (λ c d l l' m m' unmarked back_l back_m. rw (back_l, back_m, unmarked) refl)
        (λ c l m idle_c calm_l calm_m. (idle_c, calm_l, calm_m)) b b' x x' y y' idle marked tx ty

  pub distinct_pred-IsTransformed :
      (b b' : Base) (x x' y y' : ValueExpr)
      → IsIdle db (distinct_pred_out (printed x) (printed y)) b
      → IsMarked db (distinct_pred_out (printed x) (printed y)) b'
      → IsTransformed db schema x x'
      → IsTransformed db schema y y'
      → IsTransformed db schema (distinct_pred b x y) (distinct_pred b' x' y')
  unfolding out back_transform IsCalm is_bool_expr eval
  distinct_pred-IsTransformed b b' x x' y y' idle marked tx ty =
      binary-IsTransformed db schema (λ c. distinct_pred c) distinct_pred_out (λ s c l m. refl)
        (λ s t u v h k r i. db.distinct_op (h r i) (k r i)) (λ c d l m n k. refl)
        (λ c d l l' m m' unmarked back_l back_m. rw (back_l, back_m, unmarked) refl)
        (λ c l m idle_c calm_l calm_m. (idle_c, calm_l, calm_m)) b b' x x' y y' idle marked tx ty
