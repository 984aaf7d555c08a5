-- ===== src/Expr/Undo.antt =====
-- A component that `set_component_from_id` has replaced is put back by the same method: the parts
-- of the proof.
use dbfuzz_multidb.Common.{
  ℕ, Bool, true, false, ◌≡◌, refl, ap, ◌∙◌, Option, none, some, arith, if◌then◌else◌,
}
use dbfuzz_multidb.Expr.Syntax.{
  ValueExpr, share_this, printed_expr, const_expr, column_reference, atomic_subselect, funcall,
  coalesce, binop_expr, case_expr, cast_expr, interval_expr, mysql_json_op, const_bool, not_expr,
  null_predicate, between_op, like_op, bool_term, comparison_op, distinct_pred, comp_subquery,
  regexp_expr, Base, base, is_bool_expr,
}
use dbfuzz_multidb.Expr.Typed.{IsTyped}
use dbfuzz_multidb.Expr.Find.{
  first_found, found_in, component_id, with_component_id, is_id, get_child, set_child,
  set_bool_child, set_base_id, base_id,
}

is_id→eq : (n : ℕ) (o : Option ℕ) → is_id n o ≡ true → o ≡ some n
is_id→eq n (some m) h = ap some (ground arith)
is_id→eq n none h = cc

is_id_self : (n : ℕ) → is_id n (some n) ≡ true
is_id_self n = ground arith

set_base_id_same : (n : ℕ) (b : Base) → is_id n (base_id b) ≡ true → set_base_id n b ≡ b
set_base_id_same n (base marked equal id) h = rw (is_id→eq n id h) refl

base_id-set_base_id : (n : ℕ) (b : Base) → base_id (set_base_id n b) ≡ some n
base_id-set_base_id n (base marked equal id) = refl

-- A component that has the number keeps it.
with_component_id_same :
    (n : ℕ) (e : ValueExpr) → is_id n (component_id e) ≡ true → with_component_id n e ≡ e
unfolding component_id with_component_id
with_component_id_same n share_this h = cc
with_component_id_same n (printed_expr b text) h =
    ap (λ b'. printed_expr b' text) (set_base_id_same n b h)
with_component_id_same n (const_expr b text) h =
    ap (λ b'. const_expr b' text) (set_base_id_same n b h)
with_component_id_same n (column_reference b reference collation) h =
    ap (λ b'. column_reference b' reference collation) (set_base_id_same n b h)
with_component_id_same n (atomic_subselect b query) h =
    ap (λ b'. atomic_subselect b' query) (set_base_id_same n b h)
with_component_id_same n (funcall b proc is_aggregate parms) h =
    ap (λ b'. funcall b' proc is_aggregate parms) (set_base_id_same n b h)
with_component_id_same n (coalesce b name value_exprs) h =
    ap (λ b'. coalesce b' name value_exprs) (set_base_id_same n b h)
with_component_id_same n (binop_expr b oper lhs rhs) h =
    ap (λ b'. binop_expr b' oper lhs rhs) (set_base_id_same n b h)
with_component_id_same n (case_expr b c t f) h =
    ap (λ b'. case_expr b' c t f) (set_base_id_same n b h)
with_component_id_same n (cast_expr b use_convert target inner) h =
    ap (λ b'. cast_expr b' use_convert target inner) (set_base_id_same n b h)
with_component_id_same n (interval_expr b is_add unit d a) h =
    ap (λ b'. interval_expr b' is_add unit d a) (set_base_id_same n b h)
with_component_id_same n (mysql_json_op b arrow json_path lhs) h =
    ap (λ b'. mysql_json_op b' arrow json_path lhs) (set_base_id_same n b h)
with_component_id_same n (const_bool b op) h = ap (λ b'. const_bool b' op) (set_base_id_same n b h)
with_component_id_same n (not_expr b inner) h =
    ap (λ b'. not_expr b' inner) (set_base_id_same n b h)
with_component_id_same n (null_predicate b is_null expr) h =
    ap (λ b'. null_predicate b' is_null expr) (set_base_id_same n b h)
with_component_id_same n (between_op b use_eq lhs mhs rhs) h =
    ap (λ b'. between_op b' use_eq lhs mhs rhs) (set_base_id_same n b h)
with_component_id_same n (like_op b operator format lhs) h =
    ap (λ b'. like_op b' operator format lhs) (set_base_id_same n b h)
with_component_id_same n (bool_term b has_equal is_or lhs rhs) h =
    ap (λ b'. bool_term b' has_equal is_or lhs rhs) (set_base_id_same n b h)
with_component_id_same n (comparison_op b oper lhs rhs) h =
    ap (λ b'. comparison_op b' oper lhs rhs) (set_base_id_same n b h)
with_component_id_same n (distinct_pred b lhs rhs) h =
    ap (λ b'. distinct_pred b' lhs rhs) (set_base_id_same n b h)
with_component_id_same n (comp_subquery b comp_op lhs query) h =
    ap (λ b'. comp_subquery b' comp_op lhs query) (set_base_id_same n b h)
with_component_id_same n (regexp_expr b negated lhs rhs) h =
    ap (λ b'. regexp_expr b' negated lhs rhs) (set_base_id_same n b h)

component_id-with_component_id :
    (n : ℕ) (e : ValueExpr) → is_bool_expr e ≡ true → component_id (with_component_id n e) ≡ some n
unfolding component_id with_component_id is_bool_expr
component_id-with_component_id n (const_bool b op) h = base_id-set_base_id n b
component_id-with_component_id n (not_expr b inner) h = base_id-set_base_id n b
component_id-with_component_id n (null_predicate b is_null expr) h = base_id-set_base_id n b
component_id-with_component_id n (between_op b use_eq lhs mhs rhs) h = base_id-set_base_id n b
component_id-with_component_id n (like_op b operator format lhs) h = base_id-set_base_id n b
component_id-with_component_id n (bool_term b has_equal is_or lhs rhs) h = base_id-set_base_id n b
component_id-with_component_id n (comparison_op b oper lhs rhs) h = base_id-set_base_id n b
component_id-with_component_id n (distinct_pred b lhs rhs) h = base_id-set_base_id n b
component_id-with_component_id n (comp_subquery b comp_op lhs query) h = base_id-set_base_id n b
component_id-with_component_id n (regexp_expr b negated lhs rhs) h = base_id-set_base_id n b
component_id-with_component_id n _ h = cc

is_bool_expr-with_component_id :
    (n : ℕ) (e : ValueExpr) → is_bool_expr (with_component_id n e) ≡ is_bool_expr e
unfolding with_component_id is_bool_expr
is_bool_expr-with_component_id n share_this = refl
is_bool_expr-with_component_id n (printed_expr b text) = refl
is_bool_expr-with_component_id n (const_expr b text) = refl
is_bool_expr-with_component_id n (column_reference b reference collation) = refl
is_bool_expr-with_component_id n (atomic_subselect b query) = refl
is_bool_expr-with_component_id n (funcall b proc is_aggregate parms) = refl
is_bool_expr-with_component_id n (coalesce b name value_exprs) = refl
is_bool_expr-with_component_id n (binop_expr b oper lhs rhs) = refl
is_bool_expr-with_component_id n (case_expr b c t f) = refl
is_bool_expr-with_component_id n (cast_expr b use_convert target inner) = refl
is_bool_expr-with_component_id n (interval_expr b is_add unit d a) = refl
is_bool_expr-with_component_id n (mysql_json_op b arrow json_path lhs) = refl
is_bool_expr-with_component_id n (const_bool b op) = refl
is_bool_expr-with_component_id n (not_expr b inner) = refl
is_bool_expr-with_component_id n (null_predicate b is_null expr) = refl
is_bool_expr-with_component_id n (between_op b use_eq lhs mhs rhs) = refl
is_bool_expr-with_component_id n (like_op b operator format lhs) = refl
is_bool_expr-with_component_id n (bool_term b has_equal is_or lhs rhs) = refl
is_bool_expr-with_component_id n (comparison_op b oper lhs rhs) = refl
is_bool_expr-with_component_id n (distinct_pred b lhs rhs) = refl
is_bool_expr-with_component_id n (comp_subquery b comp_op lhs query) = refl
is_bool_expr-with_component_id n (regexp_expr b negated lhs rhs) = refl

with_component_id-IsTyped : (n : ℕ) (e : ValueExpr) → IsTyped e → IsTyped (with_component_id n e)
unfolding with_component_id IsTyped
with_component_id-IsTyped n share_this typed = typed
with_component_id-IsTyped n (printed_expr b text) typed = typed
with_component_id-IsTyped n (const_expr b text) typed = typed
with_component_id-IsTyped n (column_reference b reference collation) typed = typed
with_component_id-IsTyped n (atomic_subselect b query) typed = typed
with_component_id-IsTyped n (funcall b proc is_aggregate parms) typed = typed
with_component_id-IsTyped n (coalesce b name value_exprs) typed = typed
with_component_id-IsTyped n (binop_expr b oper lhs rhs) typed = typed
with_component_id-IsTyped n (case_expr b c t f) typed = typed
with_component_id-IsTyped n (cast_expr b use_convert target inner) typed = typed
with_component_id-IsTyped n (interval_expr b is_add unit d a) typed = typed
with_component_id-IsTyped n (mysql_json_op b arrow json_path lhs) typed = typed
with_component_id-IsTyped n (const_bool b op) typed = typed
with_component_id-IsTyped n (not_expr b inner) typed = typed
with_component_id-IsTyped n (null_predicate b is_null expr) typed = typed
with_component_id-IsTyped n (between_op b use_eq lhs mhs rhs) typed = typed
with_component_id-IsTyped n (like_op b operator format lhs) typed = typed
with_component_id-IsTyped n (bool_term b has_equal is_or lhs rhs) typed = typed
with_component_id-IsTyped n (comparison_op b oper lhs rhs) typed = typed
with_component_id-IsTyped n (distinct_pred b lhs rhs) typed = typed
with_component_id-IsTyped n (comp_subquery b comp_op lhs query) typed = typed
with_component_id-IsTyped n (regexp_expr b negated lhs rhs) typed = typed

either {ℓ} : {A : Type ℓ} {z : A} (b : Bool) (p q : A) → p ≡ z → q ≡ z → (if b then p else q) ≡ z
either true p q h k = h
either false p q h k = k

-- A typed expression stays typed, and a Boolean one Boolean.
abbrev pub KeepsTyping : ValueExpr → ValueExpr → Type 0
KeepsTyping e e' = (IsTyped e → IsTyped e') × (is_bool_expr e ≡ true → is_bool_expr e' ≡ true)

-- So does the class of an expression, which also keeps its number.
abbrev pub Alike : ValueExpr → ValueExpr → Type 0
Alike e e' =
    (component_id e' ≡ component_id e)
    × (is_bool_expr e' ≡ is_bool_expr e)
    × (IsTyped e → IsTyped e')

-- `id` and the component that takes the place of the one with that number.
module _ (id : ℕ) (x : ValueExpr) where
  -- What a part's setter does where the look-up answers: nothing, or it puts `x` there, and then the
  -- component that was found back.
  abbrev pub Undoes :
      {A : Type 0} → (ValueExpr → A → Option A) → (A → A → Type 0) → A → Option ValueExpr → Type 0
  Undoes {A} setter K a none = (y : ValueExpr) → setter y a ≡ none
  Undoes {A} setter K a (some c) =
      (a' : A) × (setter x a ≡ some a') × (setter c a' ≡ some a) × K a a'

  module _ {A B : Type 0} (set_a : ValueExpr → A → Option A) (KA : A → A → Type 0)
      (set_b : ValueExpr → B → Option B) (K : B → B → Type 0) (build : A → B)
      (sets : (y : ValueExpr) (a : A) → set_b y (build a) ≡ found_in build (set_a y a))
      (alike : (a a' : A) → KA a a' → K (build a) (build a')) where
    pub one_part : (a : A) (o : Option ValueExpr) → Undoes set_a KA a o → Undoes set_b K (build a) o
    one_part a none h = λ y. sets y a ∙ ap (found_in build) (h y)
    one_part a (some c) (a', put, back, k) = (
      build a',
      sets x a ∙ ap (found_in build) put,
      sets c a' ∙ ap (found_in build) back,
      alike a a' k,
    )

  module _ {A B C : Type 0} (set_a : ValueExpr → A → Option A) (KA : A → A → Type 0)
      (set_b : ValueExpr → B → Option B) (KB : B → B → Type 0) (set_c : ValueExpr → C → Option C)
      (K : C → C → Type 0) (build : A → B → C)
      (sets : (y : ValueExpr) (a : A) (b : B)
        → set_c y (build a b)
          ≡ first_found (found_in (λ e. build e b) (set_a y a)) (found_in (build a) (set_b y b)))
      (alike_a : (a a' : A) (b : B) → KA a a' → K (build a b) (build a' b))
      (alike_b : (a : A) (b b' : B) → KB b b' → K (build a b) (build a b')) where
    -- The first part is looked at before the second.
    pub two_parts :
        (a : A) (b : B) (o p : Option ValueExpr)
        → Undoes set_a KA a o
        → Undoes set_b KB b p
        → Undoes set_c K (build a b) (first_found o p)
    two_parts a b none none h k = λ y. sets y a b ∙ rw (h y, k y) refl
    two_parts a b none (some c) h (b', put, back, same) = (
      build a b',
      sets x a b ∙ rw (h x, put) refl,
      sets c a b' ∙ rw (h c, back) refl,
      alike_b a b b' same,
    )
    two_parts a b (some c) p (a', put, back, same) k =
        (build a' b, sets x a b ∙ rw put refl, sets c a' b ∙ rw back refl, alike_a a a' b same)

  module _ {A B C D : Type 0} (set_a : ValueExpr → A → Option A) (KA : A → A → Type 0)
      (set_b : ValueExpr → B → Option B) (KB : B → B → Type 0) (set_c : ValueExpr → C → Option C)
      (KC : C → C → Type 0) (set_d : ValueExpr → D → Option D) (K : D → D → Type 0)
      (build : A → B → C → D)
      (sets : (y : ValueExpr) (a : A) (b : B) (c : C)
        → set_d y (build a b c)
          ≡ first_found (found_in (λ e. build e b c) (set_a y a)) (
              first_found
                (found_in (λ e. build a e c) (set_b y b))
                (found_in (λ e. build a b e) (set_c y c))))
      (alike_a : (a a' : A) (b : B) (c : C) → KA a a' → K (build a b c) (build a' b c))
      (alike_b : (a : A) (b b' : B) (c : C) → KB b b' → K (build a b c) (build a b' c))
      (alike_c : (a : A) (b : B) (c c' : C) → KC c c' → K (build a b c) (build a b c')) where
    pub three_parts :
        (a : A) (b : B) (c : C) (o p q : Option ValueExpr)
        → Undoes set_a KA a o
        → Undoes set_b KB b p
        → Undoes set_c KC c q
        → Undoes set_d K (build a b c) (first_found o (first_found p q))
    three_parts a b c none none none h k l = λ y. sets y a b c ∙ rw (h y, k y, l y) refl
    three_parts a b c none none (some f) h k (c', put, back, same) = (
      build a b c',
      sets x a b c ∙ rw (h x, k x, put) refl,
      sets f a b c' ∙ rw (h f, k f, back) refl,
      alike_c a b c c' same,
    )
    three_parts a b c none (some f) q h (b', put, back, same) l = (
      build a b' c,
      sets x a b c ∙ rw (h x, put) refl,
      sets f a b' c ∙ rw (h f, back) refl,
      alike_b a b b' c same,
    )
    three_parts a b c (some f) p q (a', put, back, same) k l = (
      build a' b c,
      sets x a b c ∙ rw put refl,
      sets f a' b c ∙ rw back refl,
      alike_a a a' b c same,
    )

  module _ (set_below : ValueExpr → ValueExpr → Option ValueExpr) (boolean : is_bool_expr x ≡ true)
      (typed : IsTyped x) where
    abbrev pub value_setter : ValueExpr → ValueExpr → Option ValueExpr
    value_setter y e = set_child id y e (set_below y e)

    abbrev pub bool_setter : ValueExpr → ValueExpr → Option ValueExpr
    bool_setter y e = set_bool_child id y e (set_below y e)

    replaced : (e : ValueExpr) → KeepsTyping e (with_component_id id x)
    replaced e = (
      λ _. with_component_id-IsTyped id x typed,
      λ _. is_bool_expr-with_component_id id x ∙ boolean,
    )

    value_child_by :
        (e : ValueExpr) (o : Option ValueExpr) (here : Bool)
        → is_id id (component_id e) ≡ here
        → Undoes set_below Alike e o
        → Undoes value_setter KeepsTyping e (if here then some e else o)
    value_child_by e o true found h = (
      with_component_id id x,
      rw found refl,
      rw (component_id-with_component_id id x boolean, is_id_self id)
          (ap some (with_component_id_same id e found)),
      replaced e,
    )
    value_child_by e none false other h = λ y. rw other (h y)
    value_child_by e (some c) false other (e', put, back, alike) =
        (e', rw other put, rw (alike.0, other) back, (alike.2, λ is. alike.1 ∙ is))

    -- An operand, from what is below it.
    pub value_child :
        (e : ValueExpr) (o : Option ValueExpr)
        → Undoes set_below Alike e o
        → Undoes value_setter KeepsTyping e (get_child id e o)
    value_child e o h = value_child_by e o _ refl h

    bool_child_by :
        (e : ValueExpr) (o : Option ValueExpr) (here : Bool)
        → is_bool_expr e ≡ true
        → is_id id (component_id e) ≡ here
        → Undoes set_below Alike e o
        → Undoes bool_setter KeepsTyping e (if here then some e else o)
    bool_child_by e o true is_bool found h = (
      with_component_id id x,
      rw (boolean, found) refl,
      rw (is_bool, component_id-with_component_id id x boolean, is_id_self id)
          (ap some (with_component_id_same id e found)),
      replaced e,
    )
    bool_child_by e none false is_bool other h =
        λ y. rw other (either (is_bool_expr y) _ _ (h y) (h y))
    bool_child_by e (some c) false is_bool other (e', put, back, alike) = (
      e',
      rw (boolean, other) put,
      rw (alike.0, other) (either (is_bool_expr c) _ _ back back),
      (alike.2, λ is. alike.1 ∙ is),
    )

    -- The same for an operand that is Boolean.
    pub bool_child :
        (e : ValueExpr) (o : Option ValueExpr)
        → is_bool_expr e ≡ true
        → Undoes set_below Alike e o
        → Undoes bool_setter KeepsTyping e (get_child id e o)
    bool_child e o is_bool h = bool_child_by e o _ is_bool refl h
