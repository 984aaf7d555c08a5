-- ===== src/Expr/Runs.antt =====
-- `equivalent_transform` of the base, of a constant and of a function call returns.
use dbfuzz_multidb.Common.{
  ℕ, Bool, true, false, ◌≡◌, refl, ap, ◌∙◌, Text, Bool-cases, inl, inr, if◌then◌else◌,
}
use dbfuzz_multidb.Txcheck.Result.{ok}
use dbfuzz_multidb.Expr.Syntax.{
  Truth, Sql, ValueExpr, funcall, const_bool, ValueExprs, Subquery, Base, base, is_bool_expr,
}
use dbfuzz_multidb.Expr.Out.{out, out_base, printed, funcall_out}
use dbfuzz_multidb.Expr.Transform.{
  TargetSchema, Draw, equivalent_transform, equivalent_transform_list, equivalent_transform_query,
  value_expr_equivalent_transform, bool_expr_equivalent_transform, new_const_bool_eq_expr,
  const_bool_equivalent_transform, mark_transformed, fill_eq_expr,
}
use dbfuzz_multidb.Expr.Back.{back_transform_list}
use dbfuzz_multidb.Expr.Counter.{Counter, ◌>>=◌, next_with, pure, lift}
use dbfuzz_multidb.Expr.Meaning.{Database, IsSql, eval_list, eval_list}
use dbfuzz_multidb.Expr.Calm.{IsCalm, IsIdle, printed_list, out_base-IsIdle, out_list-AreCalm}
use dbfuzz_multidb.Expr.Booleans.{printed-IsTruth}
use dbfuzz_multidb.Expr.Marks.{
  IsCalmDraw, Marks, value_expr_equivalent_transform-Marks, bool_expr_equivalent_transform-Marks,
}
use dbfuzz_multidb.Expr.Transformed.{Transforms}
use dbfuzz_multidb.Expr.Operands.{AreTransformed, IsQueryTransformed, funcall-IsTransformed}

if_true {ℓ} : {A : Type ℓ} (b : Bool) (x y : A) → b ≡ true → (if b then x else y) ≡ x
if_true b x y h = rw h refl

if_false {ℓ} : {A : Type ℓ} (b : Bool) (x y : A) → b ≡ false → (if b then x else y) ≡ y
if_false b x y h = rw h refl

module _ (db : Database) (sql : IsSql db) (schema : TargetSchema) (draws : ℕ → Draw)
    (calm_draws : (n : ℕ) → IsCalmDraw db (draws n)) where
  -- The base of an expression that prints `plain`.
  -- The base of an expression that prints `plain`.
  pub value_base-Marks :
      (plain : Sql) (b : Base)
      → IsIdle db plain b
      → Marks db plain (value_expr_equivalent_transform schema draws (out_base plain b) b)
  value_base-Marks plain b idle =
      rw (out_base-IsIdle db plain plain b idle)
        (value_expr_equivalent_transform-Marks db sql schema draws calm_draws plain b idle)

  -- The base of a Boolean expression `e` that prints `plain`.
  pub bool_base-Marks :
      (e : ValueExpr) (plain : Sql) (b : Base)
      → IsCalm db e
      → is_bool_expr e ≡ true
      → printed e ≡ out_base plain b
      → IsIdle db plain b
      → Marks db plain (bool_expr_equivalent_transform schema draws b)
  bool_base-Marks e plain b calm boolean prints idle =
      bool_expr_equivalent_transform-Marks db sql schema draws calm_draws plain b
        (rw (← (prints ∙ out_base-IsIdle db plain plain b idle))
          (printed-IsTruth db sql e calm boolean))
        idle

  abbrev pub AllTransform : ValueExprs → Type 0
  AllTransform es =
      (n : ℕ)
      → (es' : ValueExprs) × (m : ℕ) × (equivalent_transform_list schema draws es n ≡ ok (es', m))
        × AreTransformed db schema es es'

  abbrev pub QueryTransforms : Subquery → Type 0
  QueryTransforms q =
      (n : ℕ)
      → (q' : Subquery) × (m : ℕ) × (equivalent_transform_query schema draws q n ≡ ok (q', m))
        × IsQueryTransformed db schema q q'

  pub const_run :
      (b : Base) (op : Truth) (n : ℕ) (b' : Base) (m : ℕ)
      → (lift (mark_transformed b) >>= fill_eq_expr (λ k. new_const_bool_eq_expr op (draws k))) n
        ≡ ok (b', m)
      → const_bool_equivalent_transform schema draws op b n ≡ ok (const_bool b' op, m)
  const_run (base true equal id) op n b' m e = cc
  const_run (base false equal id) op n b' m e = ap (next_with (λ c. pure (const_bool c op))) e

  -- The parameters are left alone for ClickHouse.
  pub funcall-Transforms :
      (b : Base) (proc : Text) (is_aggregate : Bool) (ps : ValueExprs)
      → IsCalm db (funcall b proc is_aggregate ps)
      → AllTransform ps
      → Transforms db schema
          (funcall b proc is_aggregate ps)
          (equivalent_transform schema draws (funcall b proc is_aggregate ps))
  unfolding equivalent_transform out IsCalm
  funcall-Transforms b proc is_aggregate ps calm all n =
      let plain = funcall_out proc is_aggregate (printed_list ps) in
      let (b', k, eb, mb) = value_base-Marks plain b calm.0 n in
      elim (Bool-cases schema.clickhouse) [
        | inl yes_ ↦ (
          funcall b' proc is_aggregate ps,
          k,
          rw eb (
              ap
                (λ (c : Counter ValueExprs).
                  next_with (λ es. pure (funcall b' proc is_aggregate es)) (c k))
                (if_true schema.clickhouse (pure ps) (equivalent_transform_list schema draws ps)
                  yes_)),
          funcall-IsTransformed db schema b b' proc is_aggregate ps ps ps calm.0 mb
              (λ s. ap (eval_list db) (out_list-AreCalm db ps s calm.1))
              (if_true schema.clickhouse (ok ps) (back_transform_list schema ps) yes_) calm.1 refl,
        )
        | inr no_ ↦
            let (ps', m, ep, tp) = all k in
            let (ps'', back, calm', text) = tp.go_back in
            (
              funcall b' proc is_aggregate ps',
              m,
              rw eb (
                  ap
                    (λ (c : Counter ValueExprs).
                      next_with (λ es. pure (funcall b' proc is_aggregate es)) (c k))
                    (if_false schema.clickhouse (pure ps)
                      (equivalent_transform_list schema draws ps) no_)
                  ∙ ap (next_with (λ es. pure (funcall b' proc is_aggregate es))) ep),
              funcall-IsTransformed db schema b b' proc is_aggregate ps ps' ps'' calm.0 mb
                  tp.same_values
                  (if_false schema.clickhouse (ok ps') (back_transform_list schema ps') no_ ∙ back)
                  calm' text,
            )
      ]
