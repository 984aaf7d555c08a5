-- ===== src/Expr/Restore.antt =====
-- Replacing the component with a number and putting the old one back restores the expression.
use dbfuzz_multidb.Common.{ℕ, true, false, ◌≡◌, refl, ◌∙◌, Option, none, some, sym}
use dbfuzz_multidb.Expr.Syntax.{
  ValueExpr, share_this, printed_expr, const_expr, column_reference, atomic_subselect, funcall,
  coalesce, binop_expr, case_expr, cast_expr, interval_expr, mysql_json_op, const_bool, not_expr,
  null_predicate, between_op, like_op, bool_term, comparison_op, distinct_pred, comp_subquery,
  regexp_expr, ValueExprs, no_expr, more_expr, Subquery, query_spec, unioned_query, is_bool_expr,
}
use dbfuzz_multidb.Expr.Find.{
  component_id, get_child, get_component_from_id, get_component_from_id_list,
  get_component_from_id_query,
}
use dbfuzz_multidb.Expr.Replace.{
  set_component_from_id, set_component_from_id_list, set_component_from_id_query,
}
use dbfuzz_multidb.Expr.Typed.{IsTyped, IsTypedQuery, AreTyped}
use dbfuzz_multidb.Expr.Undo.{
  Alike, Undoes, one_part, two_parts, three_parts, KeepsTyping, value_setter, bool_setter,
  value_child, bool_child,
}

some_injective : {A : Type 0} {a b : A} → some a ≡ some b → a ≡ b
some_injective h = cc

module _ (id : ℕ) (x : ValueExpr) (boolean : is_bool_expr x ≡ true) (typed_x : IsTyped x) where
  abbrev below : ValueExpr → ValueExpr → Option ValueExpr
  below y e = set_component_from_id id y e

  abbrev list_below : ValueExpr → ValueExprs → Option ValueExprs
  list_below y es = set_component_from_id_list id y es

  abbrev query_below : ValueExpr → Subquery → Option Subquery
  query_below y q = set_component_from_id_query id y q

  abbrev KeepsQuery : Subquery → Subquery → Type 0
  KeepsQuery q q' = IsTypedQuery q → IsTypedQuery q'

  abbrev KeepsList : ValueExprs → ValueExprs → Type 0
  KeepsList es es' = AreTyped es → AreTyped es'

  abbrev values : ValueExpr → ValueExpr → Option ValueExpr
  values = value_setter id x below boolean typed_x

  abbrev bools : ValueExpr → ValueExpr → Option ValueExpr
  bools = bool_setter id x below boolean typed_x

  abbrev Restores : ValueExpr → Type 0
  Restores e = Undoes id x below Alike e (get_component_from_id id e)

  value_child-Restores :
      (e : ValueExpr)
      → Restores e
      → Undoes id x values KeepsTyping e (get_child id e (get_component_from_id id e))
  value_child-Restores e h = value_child id x below boolean typed_x e (get_component_from_id id e) h

  bool_child-Restores :
      (e : ValueExpr)
      → is_bool_expr e ≡ true
      → Restores e
      → Undoes id x bools KeepsTyping e (get_child id e (get_component_from_id id e))
  bool_child-Restores e is_bool h =
      bool_child id x below boolean typed_x e (get_component_from_id id e) is_bool h

  mutual
    unfolding get_component_from_id set_component_from_id IsTyped component_id is_bool_expr

    get_component_from_id-Restores : (e : ValueExpr) → IsTyped e → Restores e
    get_component_from_id-Restores (funcall b proc is_aggregate parms) typed =
        one_part id x list_below KeepsList below Alike (λ es. funcall b proc is_aggregate es)
          (λ y es. refl) (λ es es' k. (refl, refl, k)) parms _ (list-Undoes parms typed)
    get_component_from_id-Restores (coalesce b name value_exprs) typed =
        one_part id x list_below KeepsList below Alike (λ es. coalesce b name es) (λ y es. refl)
          (λ es es' k. (refl, refl, k)) value_exprs _ (list-Undoes value_exprs typed)
    get_component_from_id-Restores (binop_expr b oper lhs rhs) typed =
        two_parts id x values KeepsTyping values KeepsTyping below Alike (binop_expr b oper)
          (λ y e f. refl) (λ e e' f k. (refl, refl, λ t. (k.0 t.0, t.1)))
          (λ e f f' k. (refl, refl, λ t. (t.0, k.0 t.1))) lhs rhs _ _
          (value_child-Restores lhs (get_component_from_id-Restores lhs typed.0))
          (value_child-Restores rhs (get_component_from_id-Restores rhs typed.1))
    get_component_from_id-Restores (case_expr b condition true_expr false_expr) typed =
        three_parts id x bools KeepsTyping values KeepsTyping values KeepsTyping below Alike
          (case_expr b) (λ y e f g. refl)
          (λ e e' f g k. (refl, refl, λ t. (k.0 t.0, t.1, t.2, k.1 t.3)))
          (λ e f f' g k. (refl, refl, λ t. (t.0, k.0 t.1, t.2, t.3)))
          (λ e f g g' k. (refl, refl, λ t. (t.0, t.1, k.0 t.2, t.3))) condition true_expr false_expr
          _ _ _
          (bool_child-Restores condition typed.3 (get_component_from_id-Restores condition typed.0))
          (value_child-Restores true_expr (get_component_from_id-Restores true_expr typed.1))
          (value_child-Restores false_expr (get_component_from_id-Restores false_expr typed.2))
    get_component_from_id-Restores (cast_expr b use_convert target inner) typed =
        one_part id x values KeepsTyping below Alike (cast_expr b use_convert target) (λ y e. refl)
          (λ e e' k. (refl, refl, λ t. k.0 t)) inner _
          (value_child-Restores inner (get_component_from_id-Restores inner typed))
    get_component_from_id-Restores (interval_expr b is_add unit date_expr amount) typed =
        two_parts id x values KeepsTyping values KeepsTyping below Alike
          (interval_expr b is_add unit) (λ y e f. refl)
          (λ e e' f k. (refl, refl, λ t. (k.0 t.0, t.1)))
          (λ e f f' k. (refl, refl, λ t. (t.0, k.0 t.1))) date_expr amount _ _
          (value_child-Restores date_expr (get_component_from_id-Restores date_expr typed.0))
          (value_child-Restores amount (get_component_from_id-Restores amount typed.1))
    get_component_from_id-Restores (mysql_json_op b arrow json_path lhs) typed =
        one_part id x values KeepsTyping below Alike (mysql_json_op b arrow json_path) (λ y e. refl)
          (λ e e' k. (refl, refl, λ t. k.0 t)) lhs _
          (value_child-Restores lhs (get_component_from_id-Restores lhs typed))
    get_component_from_id-Restores (not_expr b inner) typed =
        one_part id x bools KeepsTyping below Alike (not_expr b) (λ y e. refl)
          (λ e e' k. (refl, refl, λ t. (k.0 t.0, k.1 t.1))) inner _
          (bool_child-Restores inner typed.1 (get_component_from_id-Restores inner typed.0))
    get_component_from_id-Restores (null_predicate b is_null expr) typed =
        one_part id x values KeepsTyping below Alike (null_predicate b is_null) (λ y e. refl)
          (λ e e' k. (refl, refl, λ t. k.0 t)) expr _
          (value_child-Restores expr (get_component_from_id-Restores expr typed))
    get_component_from_id-Restores (between_op b use_eq lhs mhs rhs) typed =
        three_parts id x values KeepsTyping values KeepsTyping values KeepsTyping below Alike
          (between_op b use_eq) (λ y e f g. refl)
          (λ e e' f g k. (refl, refl, λ t. (k.0 t.0, t.1, t.2)))
          (λ e f f' g k. (refl, refl, λ t. (t.0, k.0 t.1, t.2)))
          (λ e f g g' k. (refl, refl, λ t. (t.0, t.1, k.0 t.2))) lhs mhs rhs _ _ _
          (value_child-Restores lhs (get_component_from_id-Restores lhs typed.0))
          (value_child-Restores mhs (get_component_from_id-Restores mhs typed.1))
          (value_child-Restores rhs (get_component_from_id-Restores rhs typed.2))
    get_component_from_id-Restores (like_op b operator format lhs) typed =
        one_part id x values KeepsTyping below Alike (like_op b operator format) (λ y e. refl)
          (λ e e' k. (refl, refl, λ t. k.0 t)) lhs _
          (value_child-Restores lhs (get_component_from_id-Restores lhs typed))
    get_component_from_id-Restores (bool_term b true is_or lhs rhs) typed = cc
    get_component_from_id-Restores (bool_term b false is_or lhs rhs) typed =
        two_parts id x values KeepsTyping values KeepsTyping below Alike (bool_term b false is_or)
          (λ y e f. refl) (λ e e' f k. (refl, refl, λ t. (k.0 t.0, t.1, k.1 t.2, t.3, t.4)))
          (λ e f f' k. (refl, refl, λ t. (t.0, k.0 t.1, t.2, k.1 t.3, t.4))) lhs rhs _ _
          (value_child-Restores lhs (get_component_from_id-Restores lhs typed.0))
          (value_child-Restores rhs (get_component_from_id-Restores rhs typed.1))
    get_component_from_id-Restores (comparison_op b oper lhs rhs) typed =
        two_parts id x values KeepsTyping values KeepsTyping below Alike (comparison_op b oper)
          (λ y e f. refl) (λ e e' f k. (refl, refl, λ t. (k.0 t.0, t.1)))
          (λ e f f' k. (refl, refl, λ t. (t.0, k.0 t.1))) lhs rhs _ _
          (value_child-Restores lhs (get_component_from_id-Restores lhs typed.0))
          (value_child-Restores rhs (get_component_from_id-Restores rhs typed.1))
    get_component_from_id-Restores (distinct_pred b lhs rhs) typed =
        two_parts id x values KeepsTyping values KeepsTyping below Alike (distinct_pred b)
          (λ y e f. refl) (λ e e' f k. (refl, refl, λ t. (k.0 t.0, t.1)))
          (λ e f f' k. (refl, refl, λ t. (t.0, k.0 t.1))) lhs rhs _ _
          (value_child-Restores lhs (get_component_from_id-Restores lhs typed.0))
          (value_child-Restores rhs (get_component_from_id-Restores rhs typed.1))
    get_component_from_id-Restores (comp_subquery b comp_op lhs query) typed =
        two_parts id x query_below KeepsQuery values KeepsTyping below Alike
          (λ q e. comp_subquery b comp_op e q) (λ y q e. refl)
          (λ q q' e k. (refl, refl, λ t. (t.0, k t.1)))
          (λ q e e' k. (refl, refl, λ t. (k.0 t.0, t.1))) query lhs _ _ (query-Undoes query typed.1)
          (value_child-Restores lhs (get_component_from_id-Restores lhs typed.0))
    get_component_from_id-Restores share_this typed = λ y. refl
    get_component_from_id-Restores (printed_expr b text) typed = λ y. refl
    get_component_from_id-Restores (const_expr b text) typed = λ y. refl
    get_component_from_id-Restores (column_reference b reference collation) typed = λ y. refl
    get_component_from_id-Restores (atomic_subselect b query) typed = λ y. refl
    get_component_from_id-Restores (const_bool b op) typed = λ y. refl
    get_component_from_id-Restores (regexp_expr b negated lhs rhs) typed = λ y. refl

    query-Undoes :
        (q : Subquery)
        → IsTypedQuery q
        → Undoes id x query_below KeepsQuery q (get_component_from_id_query id q)
    query-Undoes (query_spec before after search) typed =
        one_part id x bools KeepsTyping query_below KeepsQuery (query_spec before after)
          (λ y e. refl) (λ e e' k t. (k.0 t.0, k.1 t.1)) search _
          (bool_child-Restores search typed.1 (get_component_from_id-Restores search typed.0))
    query-Undoes (unioned_query before middle after left right) typed =
        two_parts id x bools KeepsTyping bools KeepsTyping query_below KeepsQuery
          (unioned_query before middle after) (λ y e f. refl)
          (λ e e' f k t. (k.0 t.0, t.1, k.1 t.2, t.3)) (λ e f f' k t. (t.0, k.0 t.1, t.2, k.1 t.3))
          left right _ _
          (bool_child-Restores left typed.2 (get_component_from_id-Restores left typed.0))
          (bool_child-Restores right typed.3 (get_component_from_id-Restores right typed.1))

    list-Undoes :
        (es : ValueExprs)
        → AreTyped es
        → Undoes id x list_below KeepsList es (get_component_from_id_list id es)
    list-Undoes no_expr typed = λ y. refl
    list-Undoes (more_expr expr exprs) typed =
        two_parts id x values KeepsTyping list_below KeepsList list_below KeepsList more_expr
          (λ y e es. refl) (λ e e' es k t. (k.0 t.0, t.1)) (λ e es es' k t. (t.0, k t.1)) expr exprs
          _ _ (value_child-Restores expr (get_component_from_id-Restores expr typed.0))
          (list-Undoes exprs typed.1)

  found :
      (e c : ValueExpr) (o : Option ValueExpr)
      → o ≡ some c
      → Undoes id x below Alike e o
      → (e' : ValueExpr) × (set_component_from_id id x e ≡ some e')
        × (set_component_from_id id c e' ≡ some e)
        × (is_bool_expr e' ≡ is_bool_expr e)
  found e c none h undoes = cc
  found e c (some d) h (e', put, back, alike) = (e', put, rw (← some_injective h) back, alike.1)

  after_set-IsTyped :
      (e e' : ValueExpr) (o : Option ValueExpr)
      → IsTyped e
      → set_component_from_id id x e ≡ some e'
      → Undoes id x below Alike e o
      → IsTyped e' × (is_bool_expr e' ≡ is_bool_expr e)
  after_set-IsTyped e e' none typed h undoes = cc (undoes x)
  after_set-IsTyped e e' (some c) typed h (e'', put, back, alike) =
      rw (some_injective (sym h ∙ put)) (alike.2 typed, alike.1)

  -- What `minimize_testcase` does with a component: where `get_component_from_id` finds the number
  -- in an expression that is typed and not transformed, `set_component_from_id` puts a typed Boolean
  -- in its place, and a second call with the component that was found gives the first expression
  -- back.
  pub set_component_from_id-restores :
      (e c : ValueExpr)
      → IsTyped e
      → get_component_from_id id e ≡ some c
      → (e' : ValueExpr) × (set_component_from_id id x e ≡ some e')
        × (set_component_from_id id c e' ≡ some e)
        × (is_bool_expr e' ≡ is_bool_expr e)
  set_component_from_id-restores e c typed h =
      found e c (get_component_from_id id e) h (get_component_from_id-Restores e typed)

  -- `set_component_from_id` of a typed Boolean keeps an expression typed, and Boolean if it was:
  -- no conversion to `bool_expr` fails in what it returns.
  pub set_component_from_id-IsTyped :
      (e e' : ValueExpr)
      → IsTyped e
      → set_component_from_id id x e ≡ some e'
      → IsTyped e' × (is_bool_expr e' ≡ is_bool_expr e)
  set_component_from_id-IsTyped e e' typed h =
      after_set-IsTyped e e' (get_component_from_id id e) typed h
        (get_component_from_id-Restores e typed)
