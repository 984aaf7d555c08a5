-- ===== src/Expr/Marks.antt =====
-- The equal expressions that `value_expr`, `bool_expr` and `const_bool` build have the value of the
-- expression, and what the base of an expression holds after `equivalent_transform`.
use dbfuzz_multidb.Common.{
  ℕ, ◌+◌, Bool, true, false, ◌≡◌, refl, ap, ◌∙◌, sym, leb, ltb, if◌then◌else◌,
}
use dbfuzz_multidb.Txcheck.Result.{ok}
use dbfuzz_multidb.Expr.Syntax.{
  Truth, tru, fls, unk, Sql, ValueExpr, Base, base, no_eq, eq, is_bool_expr,
}
use dbfuzz_multidb.Expr.Out.{out, out_base, const_bool_out}
use dbfuzz_multidb.Expr.Counter.{Counter, ◌>>=◌, lift}
use dbfuzz_multidb.Expr.Transform.{
  Draw, TargetSchema, value_expr_equivalent_transform, bool_expr_equivalent_transform,
  mark_transformed, unmark_transformed, new_eq_value_expr, new_eq_bool_expr, new_const_bool_eq_expr,
  fill_eq_expr,
}
use dbfuzz_multidb.Expr.Meaning.{
  Database, IsSql, eval, ◌≈◌, IsTruth, and_table, or_table, case_table, logic_table,
}
use dbfuzz_multidb.Expr.Calm.{IsCalm, IsIdle, KeepsValue, out-IsCalm}
use dbfuzz_multidb.Expr.Booleans.{printed-IsTruth, true_value-eval, false_value-eval}

and_false : (t : Truth) → and_table t fls ≡ fls
and_false tru = refl
and_false fls = refl
and_false unk = refl

or_true : (t : Truth) → or_table t tru ≡ tru
or_true tru = refl
or_true fls = refl
or_true unk = refl

case_same {ℓ} : {A : Type ℓ} (t : Truth) (x y z : A) → x ≡ z → y ≡ z → case_table t x y ≡ z
case_same tru x y z p q = p
case_same fls x y z p q = q
case_same unk x y z p q = q

module _ (db : Database) where
  -- What a draw gives is calm, and its Boolean is one.
  abbrev pub IsCalmDraw : Draw → Type 0
  IsCalmDraw d =
      IsCalm db d.random_value × IsCalm db d.random_bool × (is_bool_expr d.random_bool ≡ true)

  -- The base of a transformed expression: it prints the value of `plain`, and the mark can be taken
  -- away again.
  abbrev pub IsMarked : Sql → Base → Type 0
  IsMarked plain b =
      ((shown : Sql) → ◌≈◌ db shown plain → ◌≈◌ db (out_base shown b) plain)
      × ((b' : Base) × (unmark_transformed b ≡ ok b') × IsIdle db plain b')

  -- The call returns a base of that kind.
  abbrev pub Marks : Sql → Counter Base → Type 0
  Marks plain run = (n : ℕ) → (b : Base) × (m : ℕ) × (run n ≡ ok (b, m)) × IsMarked plain b

  pub fill_eq_expr-Marks :
      (plain : Sql) (new : ℕ → ValueExpr) (b : Base)
      → ((n : ℕ) → KeepsValue db plain (eq (new n)))
      → IsIdle db plain b
      → Marks plain (λ n. (lift (mark_transformed b) >>= fill_eq_expr new) n)
  unfolding out
  fill_eq_expr-Marks plain new (base true equal id) keeps idle n = absurd idle
  fill_eq_expr-Marks plain new (base false no_eq id) keeps idle n = (
    base true (eq (new n)) id,
    n + 1,
    refl,
    (keeps n, (base false (eq (new n)) id, refl, keeps n)),
  )
  fill_eq_expr-Marks plain new (base false (eq equal) id) keeps idle n =
      (base true (eq equal) id, n, refl, (idle, (base false (eq equal) id, refl, idle)))

  if-KeepsValue :
      (plain : Sql) (b : Bool) (x y : ValueExpr)
      → KeepsValue db plain (eq x)
      → KeepsValue db plain (eq y)
      → KeepsValue db plain (eq (if b then x else y))
  if-KeepsValue plain true x y h k = h
  if-KeepsValue plain false x y h k = k

module _ (db : Database) (sql : IsSql db) (d : Draw) (calm : IsCalmDraw db d) where
  pub new_eq_value_expr-KeepsValue :
      (plain : Sql) → KeepsValue db plain (eq (new_eq_value_expr plain d))
  unfolding out eval
  new_eq_value_expr-KeepsValue plain =
      if-KeepsValue db plain (leb d.choice 3) _ _
        (λ self h r.
          ap (λ c. db.case_op c (eval db self r) (eval db (out self d.random_value) r))
            (true_value-eval db sql d.random_bool self r calm.1 calm.2)
          ∙ sql.case_law tru _ _
          ∙ h r)
        (if-KeepsValue db plain (leb d.choice 6) _ _
          (λ self h r.
            ap (λ c. db.case_op c (eval db (out self d.random_value) r) (eval db self r))
              (false_value-eval db sql d.random_bool self r calm.1 calm.2)
            ∙ sql.case_law fls _ _
            ∙ h r)
          (if-KeepsValue db plain (leb 3 d.coin) _ _
            (λ self h r. random_case self r _ _ _ refl (h r))
            (λ self h r. random_case self r _ _ _ (h r) refl)))
    where
      random_case :
          (self : Sql) (r : db.Row) (x y z : db.Value)
          → x ≡ z
          → y ≡ z
          → db.case_op (eval db (out self d.random_bool) r) x y ≡ z
      random_case self r x y z p q =
          let (t, e) = printed-IsTruth db sql d.random_bool calm.1 calm.2 r in
          rw (out-IsCalm db d.random_bool self calm.1, e)
            (sql.case_law t x y ∙ case_same t x y z p q)

  pub new_eq_bool_expr-KeepsValue :
      (plain : Sql) → IsTruth db plain → KeepsValue db plain (eq (new_eq_bool_expr d))
  unfolding out eval
  new_eq_bool_expr-KeepsValue plain truth =
      if-KeepsValue db plain (ltb 3 d.coin) _ _
        (λ self h r.
          with_table false self r tru (h r)
            (true_value-eval db sql d.random_bool self r calm.1 calm.2) refl)
        (λ self h r.
          with_table true self r fls (h r)
            (false_value-eval db sql d.random_bool self r calm.1 calm.2) refl)
    where
      with_table :
          (is_or : Bool) (self : Sql) (r : db.Row) {v : db.Value} (t : Truth)
          → eval db self r ≡ eval db plain r
          → v ≡ db.truth t
          → logic_table is_or t (truth r).0 ≡ (truth r).0
          → db.logic_op is_or v (eval db self r) ≡ eval db plain r
      with_table is_or self r t same left table =
          ap (λ l. db.logic_op is_or l (eval db self r)) left
          ∙ ap (db.logic_op is_or (db.truth t)) (same ∙ (truth r).1)
          ∙ sql.logic_law is_or t (truth r).0
          ∙ ap db.truth table
          ∙ sym (truth r).1

  pub new_const_bool_eq_expr-KeepsValue :
      (op : Truth) → KeepsValue db (const_bool_out op) (eq (new_const_bool_eq_expr op d))
  unfolding out eval
  new_const_bool_eq_expr-KeepsValue unk self h r = refl
  new_const_bool_eq_expr-KeepsValue fls self h r =
      let (t, e) = printed-IsTruth db sql d.random_bool calm.1 calm.2 r in
      rw (out-IsCalm db d.random_bool self calm.1) (
        ap (λ l. db.logic_op false l (db.truth fls)) e
        ∙ sql.logic_law false t fls
        ∙ ap db.truth (and_false t))
  new_const_bool_eq_expr-KeepsValue tru self h r =
      let (t, e) = printed-IsTruth db sql d.random_bool calm.1 calm.2 r in
      rw (out-IsCalm db d.random_bool self calm.1) (
        ap (λ l. db.logic_op true l (db.truth tru)) e
        ∙ sql.logic_law true t tru
        ∙ ap db.truth (or_true t))

-- `equivalent_transform` of `value_expr` and of `bool_expr`, with calm draws.
module _ (db : Database) (sql : IsSql db) (schema : TargetSchema) (draws : ℕ → Draw)
    (calm : (n : ℕ) → IsCalmDraw db (draws n)) where
  pub value_expr_equivalent_transform-Marks :
      (plain : Sql) (b : Base)
      → IsIdle db plain b
      → Marks db plain (value_expr_equivalent_transform schema draws plain b)
  unfolding value_expr_equivalent_transform
  value_expr_equivalent_transform-Marks plain b idle n =
      fill_eq_expr-Marks db plain (λ k. new_eq_value_expr plain (draws k)) b
        (λ k. new_eq_value_expr-KeepsValue db sql (draws k) (calm k) plain) idle n

  pub bool_expr_equivalent_transform-Marks :
      (plain : Sql) (b : Base)
      → IsTruth db plain
      → IsIdle db plain b
      → Marks db plain (bool_expr_equivalent_transform schema draws b)
  unfolding bool_expr_equivalent_transform
  bool_expr_equivalent_transform-Marks plain b truth idle n =
      fill_eq_expr-Marks db plain (λ k. new_eq_bool_expr (draws k)) b
        (λ k. new_eq_bool_expr-KeepsValue db sql (draws k) (calm k) plain truth) idle n
