-- ===== src/Expr/Transformed.antt =====
-- What an expression is after `equivalent_transform`, and how it follows for a class from its base
-- and its operands.
use dbfuzz_multidb.Common.{ℕ, ◌≡◌, refl, ap, ◌∙◌, sym, subst, []}
use dbfuzz_multidb.Txcheck.Result.{ok}
use dbfuzz_multidb.Expr.Syntax.{Sql, verbatim, ValueExpr, Base, is_bool_expr}
use dbfuzz_multidb.Expr.Out.{out, out_base, printed}
use dbfuzz_multidb.Expr.Counter.{Counter}
use dbfuzz_multidb.Expr.Transform.{TargetSchema, unmark_transformed}
use dbfuzz_multidb.Expr.Back.{back_transform}
use dbfuzz_multidb.Expr.Meaning.{Database, eval, ◌≈◌}
use dbfuzz_multidb.Expr.Calm.{IsCalm, IsIdle, out_base-IsIdle}
use dbfuzz_multidb.Expr.Marks.{IsMarked}

module _ (db : Database) (schema : TargetSchema) where
  -- The expression before and after a transformation: it is Boolean as before, prints a text of the
  -- same value, and `back_transform` returns a calm expression with the text that was printed
  -- before.
  pub record IsTransformed (e e' : ValueExpr) : Type 0 where
    pub same_kind : is_bool_expr e' ≡ is_bool_expr e
    pub same_value : (self : Sql) → ◌≈◌ db (out self e') (printed e)
    pub goes_back :
        (e'' : ValueExpr) × (back_transform schema e' ≡ ok e'')
        × IsCalm db e''
        × (printed e'' ≡ printed e)
        × (is_bool_expr e'' ≡ is_bool_expr e)

  abbrev pub Transforms : ValueExpr → Counter ValueExpr → Type 0
  Transforms e run =
      (n : ℕ) → (e' : ValueExpr) × (m : ℕ) × (run n ≡ ok (e', m)) × IsTransformed e e'

  -- From what the base and the operands print.
  pub shown_value :
      (plain shown : Sql) (b' : Base)
      → IsMarked db plain b'
      → ◌≈◌ db shown plain
      → (s : Sql) → s ≡ plain
      → ◌≈◌ db (out_base shown b') s
  shown_value plain shown b' marked same s e r =
      marked.0 shown same r ∙ ap (λ t. eval db t r) (sym e)

  module _ (build : Base → ValueExpr) (plain : Sql)
      (outs : (s : Sql) (b : Base) → out s (build b) ≡ out_base plain b)
      (kinds : (b c : Base) → is_bool_expr (build b) ≡ is_bool_expr (build c))
      (backs : (b c : Base)
        → unmark_transformed b ≡ ok c
        → back_transform schema (build b) ≡ ok (build c))
      (calms : (b : Base) → IsIdle db plain b → IsCalm db (build b)) where
    -- A class without operands.
    pub leaf-IsTransformed :
        (b b' : Base)
        → IsIdle db plain b
        → IsMarked db plain b'
        → IsTransformed (build b) (build b')
    leaf-IsTransformed b b' idle marked =
        let (b'', unmarked, idle') = marked.1 in
        let before = outs (verbatim []) b ∙ out_base-IsIdle db plain plain b idle in
        let after = outs (verbatim []) b'' ∙ out_base-IsIdle db plain plain b'' idle' in
        record {
          same_kind = kinds b' b;
          same_value = λ s r.
              ap (λ t. eval db t r) (outs s b')
              ∙ shown_value plain plain b' marked (λ _. refl) (printed (build b)) before r;
          goes_back =
              (build b'', backs b' b'' unmarked, calms b'' idle', after ∙ sym before, kinds b'' b);
        }

  module _ (build : Base → ValueExpr → ValueExpr) (print : Sql → Sql)
      (outs : (s : Sql) (b : Base) (x : ValueExpr)
        → out s (build b x) ≡ out_base (print (out s x)) b)
      (same : (s t : Sql) → ◌≈◌ db s t → ◌≈◌ db (print s) (print t))
      (kinds : (b c : Base) (x y : ValueExpr) → is_bool_expr (build b x) ≡ is_bool_expr (build c y))
      (backs : (b c : Base) (x y : ValueExpr)
        → unmark_transformed b ≡ ok c
        → back_transform schema x ≡ ok y
        → back_transform schema (build b x) ≡ ok (build c y)) where
    -- A class with one operand.
    pub unary-IsTransformed :
        (b b' : Base) (x x' : ValueExpr)
        → ((c : Base) (y : ValueExpr)
            → IsIdle db (print (printed y)) c
            → IsCalm db y
            → is_bool_expr y ≡ is_bool_expr x
            → IsCalm db (build c y))
        → IsIdle db (print (printed x)) b
        → IsMarked db (print (printed x)) b'
        → IsTransformed x x'
        → IsTransformed (build b x) (build b' x')
    unary-IsTransformed b b' x x' calms idle marked tx =
        let (b'', unmarked, idle') = marked.1 in
        let (x'', back, calm, text, kind) = tx.goes_back in
        let plain = print (printed x) in
        let before = outs (verbatim []) b x ∙ out_base-IsIdle db plain plain b idle in
        let after =
          outs (verbatim []) b'' x''
          ∙ ap (λ t. out_base (print t) b'') text
          ∙ out_base-IsIdle db plain plain b'' idle' in
        record {
          same_kind = kinds b' b x' x;
          same_value = λ s r.
              ap (λ t. eval db t r) (outs s b' x')
              ∙ shown_value plain (print (out s x')) b' marked (same _ _ (tx.same_value s))
                  (printed (build b x)) before r;
          goes_back = (
            build b'' x'',
            backs b' b'' x' x'' unmarked back,
            calms b'' x'' (subst (λ t. IsIdle db (print t) b'') (sym text) idle') calm kind,
            after ∙ sym before,
            kinds b'' b x'' x,
          );
        }

  module _ (build : Base → ValueExpr → ValueExpr → ValueExpr) (print : Sql → Sql → Sql)
      (outs : (s : Sql) (b : Base) (x y : ValueExpr)
        → out s (build b x y) ≡ out_base (print (out s x) (out s y)) b)
      (same : (s t u v : Sql) → ◌≈◌ db s t → ◌≈◌ db u v → ◌≈◌ db (print s u) (print t v))
      (kinds : (b c : Base) (x y z w : ValueExpr)
        → is_bool_expr (build b x y) ≡ is_bool_expr (build c z w))
      (backs : (b c : Base) (x x' y y' : ValueExpr)
        → unmark_transformed b ≡ ok c
        → back_transform schema x ≡ ok x'
        → back_transform schema y ≡ ok y'
        → back_transform schema (build b x y) ≡ ok (build c x' y'))
      (calms : (b : Base) (x y : ValueExpr)
        → IsIdle db (print (printed x) (printed y)) b
        → IsCalm db x
        → IsCalm db y
        → IsCalm db (build b x y)) where
    -- A class with two operands.
    pub binary-IsTransformed :
        (b b' : Base) (x x' y y' : ValueExpr)
        → IsIdle db (print (printed x) (printed y)) b
        → IsMarked db (print (printed x) (printed y)) b'
        → IsTransformed x x'
        → IsTransformed y y'
        → IsTransformed (build b x y) (build b' x' y')
    binary-IsTransformed b b' x x' y y' idle marked tx ty =
        let (b'', unmarked, idle') = marked.1 in
        let (x'', back_x, calm_x, text_x, _) = tx.goes_back in
        let (y'', back_y, calm_y, text_y, _) = ty.goes_back in
        let plain = print (printed x) (printed y) in
        let before = outs (verbatim []) b x y ∙ out_base-IsIdle db plain plain b idle in
        let texts : print (printed x'') (printed y'') ≡ plain = rw (text_x, text_y) refl in
        let idle_back = subst (λ t. IsIdle db t b'') (sym texts) idle' in
        let after =
          outs (verbatim []) b'' x'' y''
          ∙ ap (λ t. out_base t b'') texts
          ∙ out_base-IsIdle db plain plain b'' idle' in
        record {
          same_kind = kinds b' b x' y' x y;
          same_value = λ s r.
              ap (λ t. eval db t r) (outs s b' x' y')
              ∙ shown_value plain (print (out s x') (out s y')) b' marked
                  (same _ _ _ _ (tx.same_value s) (ty.same_value s)) (printed (build b x y)) before
                  r;
          goes_back = (
            build b'' x'' y'',
            backs b' b'' x' x'' y' y'' unmarked back_x back_y,
            calms b'' x'' y'' idle_back calm_x calm_y,
            after ∙ sym before,
            kinds b'' b x'' y'' x y,
          );
        }
