-- ===== src/Expr/Classes.antt =====
-- The transformation of the classes of src/expr that are not like their neighbours: a case, a
-- pattern with between, and, or, a comparison with a query, and a regular expression.
use dbfuzz_multidb.Common.{Bool, true, false, not, ◌≡◌, refl, ap, ◌∙◌, sym, [], Text}
use dbfuzz_multidb.Expr.Syntax.{
  Truth, tru, fls, unk, logic, Sql, verbatim, operation, between, ValueExpr, case_expr, between_op,
  bool_term, comp_subquery, regexp_expr, Subquery, Base, is_bool_expr,
}
use dbfuzz_multidb.Expr.Out.{
  greater_equal, less_equal, out, printed, comp_subquery_out, bool_term_out, between_op_out,
  case_expr_out, regexp_expr_out,
}
use dbfuzz_multidb.Expr.Transform.{TargetSchema}
use dbfuzz_multidb.Expr.Back.{back_transform}
use dbfuzz_multidb.Expr.Meaning.{Database, IsSql, eval, ◌≈◌, IsTruth, logic_table, not_table}
use dbfuzz_multidb.Expr.Calm.{IsCalm, IsIdle, out-IsCalm}
use dbfuzz_multidb.Expr.Marks.{IsMarked}
use dbfuzz_multidb.Expr.Transformed.{IsTransformed}
use dbfuzz_multidb.Expr.Operands.{IsQueryTransformed, text_back, value_kept}

-- De Morgan's law in three-valued logic, as `bool_term` uses it.
de_morgan :
    (is_or : Bool) (a b : Truth)
    → not_table (logic_table (not is_or) (not_table b) (not_table a)) ≡ logic_table is_or a b
de_morgan true tru tru = refl
de_morgan true tru fls = refl
de_morgan true tru unk = refl
de_morgan true fls tru = refl
de_morgan true fls fls = refl
de_morgan true fls unk = refl
de_morgan true unk tru = refl
de_morgan true unk fls = refl
de_morgan true unk unk = refl
de_morgan false tru tru = refl
de_morgan false tru fls = refl
de_morgan false tru unk = refl
de_morgan false fls tru = refl
de_morgan false fls fls = refl
de_morgan false fls unk = refl
de_morgan false unk tru = refl
de_morgan false unk fls = refl
de_morgan false unk unk = refl

module _ (db : Database) (schema : TargetSchema) where
  pub case_expr-IsTransformed :
      (b b' : Base) (c c' t t' f f' : ValueExpr)
      → is_bool_expr c ≡ true
      → IsIdle db (case_expr_out (printed c) (printed t) (printed f)) b
      → IsMarked db (case_expr_out (printed c) (printed t) (printed f)) b'
      → IsTransformed db schema c c'
      → IsTransformed db schema t t'
      → IsTransformed db schema f f'
      → IsTransformed db schema (case_expr b c t f) (case_expr b' c' t' f')
  unfolding out back_transform IsCalm is_bool_expr eval
  case_expr-IsTransformed b b' c c' t t' f f' boolean idle marked tc tt_ tf =
      let plain = case_expr_out (printed c) (printed t) (printed f) in
      let (b'', unmarked, idle') = marked.1 in
      let (c'', back_c, calm_c, text_c, kind_c) = tc.goes_back in
      let (t'', back_t, calm_t, text_t, _) = tt_.goes_back in
      let (f'', back_f, calm_f, text_f, _) = tf.goes_back in
      record {
        same_kind = refl;
        same_value = λ s.
            value_kept db schema plain (case_expr_out (out s c') (out s t') (out s f')) b b' idle
              marked
              (λ r i.
                db.case_op (tc.same_value s r i) (tt_.same_value s r i) (tf.same_value s r i));
        goes_back = (
          case_expr b'' c'' t'' f'',
          rw (back_f, back_t, back_c, unmarked) refl,
          (rw (text_c, text_t, text_f) idle', calm_c, calm_t, calm_f, kind_c ∙ boolean),
          text_back db schema plain _ b b'' idle idle' (rw (text_c, text_t, text_f) refl),
          refl,
        );
      }

  pub comp_subquery-IsTransformed :
      (b b' : Base) (comp_op : Text) (e e' : ValueExpr) (q q' : Subquery)
      → IsIdle db (comp_subquery_out (verbatim []) comp_op (printed e) q) b
      → IsMarked db (comp_subquery_out (verbatim []) comp_op (printed e) q) b'
      → IsTransformed db schema e e'
      → IsQueryTransformed db schema q q'
      → IsTransformed db schema (comp_subquery b comp_op e q) (comp_subquery b' comp_op e' q')
  unfolding out back_transform IsCalm is_bool_expr
  comp_subquery-IsTransformed b b' comp_op e e' q q' idle marked te tq =
      let plain = comp_subquery_out (verbatim []) comp_op (printed e) q in
      let (b'', unmarked, idle') = marked.1 in
      let (e'', back_e, calm_e, text_e, _) = te.goes_back in
      let (q'', back_q, calm_q, text_q) = tq.query_back in
      record {
        same_kind = refl;
        same_value = λ s.
            value_kept db schema plain (comp_subquery_out s comp_op (out s e') q') b b' idle marked
              (tq.same_test s comp_op _ _ (te.same_value s));
        goes_back = (
          comp_subquery b'' comp_op e'' q'',
          rw (back_q, back_e, unmarked) refl,
          (rw (text_e, text_q comp_op (printed e)) idle', calm_e, calm_q),
          text_back db schema plain _ b b'' idle idle' (rw text_e (text_q comp_op (printed e))),
          refl,
        );
      }

  -- The class prints itself even where it is marked, and its operands are left alone.
  pub regexp_expr-IsTransformed :
      (b b' : Base) (negated : Bool) (l r : ValueExpr)
      → IsCalm db l
      → IsCalm db r
      → IsMarked db (regexp_expr_out negated (printed l) (printed r)) b'
      → IsTransformed db schema (regexp_expr b negated l r) (regexp_expr b' negated l r)
  unfolding out back_transform IsCalm is_bool_expr
  regexp_expr-IsTransformed b b' negated l r calm_l calm_r marked =
      let (b'', unmarked, idle') = marked.1 in
      record {
        same_kind = refl;
        same_value = λ s _. rw (out-IsCalm db l s calm_l, out-IsCalm db r s calm_r) refl;
        goes_back =
            (regexp_expr b'' negated l r, rw unmarked refl, (idle', calm_l, calm_r), refl, refl);
      }

module _ (db : Database) (sql : IsSql db) (schema : TargetSchema) where
  -- Both patterns have the same value.
  between_op_out-eval :
      (use_eq : Bool) (l m h l' m' h' : Sql)
      → ◌≈◌ db l' l
      → ◌≈◌ db m' m
      → ◌≈◌ db h' h
      → ◌≈◌ db (between_op_out use_eq l' m' h') (between m l h)
  unfolding eval
  between_op_out-eval true l m h l' m' h' el em eh r =
      (λ i.
        db.logic_op false (db.comparison_op greater_equal (em r i) (el r i))
          (db.comparison_op less_equal (em r i) (eh r i)))
      ∙ sym (sql.between_law _ _ _)
  between_op_out-eval false l m h l' m' h' el em eh r =
      λ i. db.between_op (em r i) (el r i) (eh r i)

  pub between_op-IsTransformed :
      (use_eq : Bool) (b b' : Base) (l l' m m' h h' : ValueExpr)
      → IsIdle db (between_op_out false (printed l) (printed m) (printed h)) b
      → IsMarked db (between_op_out false (printed l) (printed m) (printed h)) b'
      → IsTransformed db schema l l'
      → IsTransformed db schema m m'
      → IsTransformed db schema h h'
      → IsTransformed db schema (between_op b false l m h) (between_op b' use_eq l' m' h')
  unfolding out back_transform IsCalm is_bool_expr
  between_op-IsTransformed use_eq b b' l l' m m' h h' idle marked tl tm th =
      let plain = between_op_out false (printed l) (printed m) (printed h) in
      let (b'', unmarked, idle') = marked.1 in
      let (l'', back_l, calm_l, text_l, _) = tl.goes_back in
      let (m'', back_m, calm_m, text_m, _) = tm.goes_back in
      let (h'', back_h, calm_h, text_h, _) = th.goes_back in
      record {
        same_kind = refl;
        same_value = λ s.
            value_kept db schema plain (between_op_out use_eq (out s l') (out s m') (out s h')) b b'
              idle marked
              (between_op_out-eval use_eq _ _ _ _ _ _ (tl.same_value s) (tm.same_value s)
                (th.same_value s));
        goes_back = (
          between_op b'' false l'' m'' h'',
          rw (back_h, back_m, back_l, unmarked) refl,
          (rw (text_l, text_m, text_h) idle', calm_l, calm_m, calm_h, refl),
          text_back db schema plain _ b b'' idle idle' (rw (text_l, text_m, text_h) refl),
          refl,
        );
      }

  -- What `equal_expr` prints has the value of the term.
  bool_term_out-eval :
      (is_or : Bool) (s t s' t' : Sql)
      → IsTruth db s
      → IsTruth db t
      → ◌≈◌ db s' s
      → ◌≈◌ db t' t
      → ◌≈◌ db (bool_term_out true (not is_or) s' t') (operation (logic is_or) s t)
  unfolding eval
  bool_term_out-eval is_or s t s' t' hs ht es et r =
      let (a, ea) = hs r in
      let (b, eb) = ht r in
      with_truth a b (es r ∙ ea) (et r ∙ eb)
      ∙ sym (
          ap (λ v. db.logic_op is_or v (eval db t r)) ea
          ∙ ap (db.logic_op is_or (db.truth a)) eb
          ∙ sql.logic_law is_or a b)
    where
      with_truth :
          (a b : Truth)
          → eval db s' r ≡ db.truth a
          → eval db t' r ≡ db.truth b
          → eval db (bool_term_out true (not is_or) s' t') r ≡ db.truth (logic_table is_or a b)
      with_truth a b ea eb =
          ap (λ v. db.not_op (db.logic_op (not is_or) (db.not_op v) (db.not_op (eval db s' r)))) eb
          ∙ ap (λ v. db.not_op (db.logic_op (not is_or) (db.not_op (db.truth b)) (db.not_op v))) ea
          ∙ ap (λ v. db.not_op (db.logic_op (not is_or) v (db.not_op (db.truth a)))) (sql.not_law b)
          ∙ ap (λ v. db.not_op (db.logic_op (not is_or) (db.truth (not_table b)) v)) (sql.not_law a)
          ∙ ap db.not_op (sql.logic_law (not is_or) (not_table b) (not_table a))
          ∙ sql.not_law _
          ∙ ap db.truth (de_morgan is_or a b)

  not-not : (b : Bool) → not (not b) ≡ b
  not-not true = refl
  not-not false = refl

  pub bool_term-IsTransformed :
      (is_or : Bool) (b b' : Base) (l l' r r' : ValueExpr)
      → is_bool_expr l ≡ true
      → is_bool_expr r ≡ true
      → IsTruth db (printed l)
      → IsTruth db (printed r)
      → IsIdle db (bool_term_out false is_or (printed l) (printed r)) b
      → IsMarked db (bool_term_out false is_or (printed l) (printed r)) b'
      → IsTransformed db schema l l'
      → IsTransformed db schema r r'
      → IsTransformed db schema (bool_term b false is_or l r) (bool_term b' true (not is_or) l' r')
  unfolding out back_transform IsCalm is_bool_expr
  bool_term-IsTransformed is_or b b' l l' r r' bl br hl hr idle marked tl tr =
      let plain = bool_term_out false is_or (printed l) (printed r) in
      let (b'', unmarked, idle') = marked.1 in
      let (l'', back_l, calm_l, text_l, kind_l) = tl.goes_back in
      let (r'', back_r, calm_r, text_r, kind_r) = tr.goes_back in
      record {
        same_kind = refl;
        same_value = λ s.
            value_kept db schema plain (bool_term_out true (not is_or) (out s l') (out s r')) b b'
              idle marked
              (bool_term_out-eval is_or _ _ _ _ hl hr (tl.same_value s) (tr.same_value s));
        goes_back = (
          bool_term b'' false is_or l'' r'',
          rw (back_r, back_l, unmarked, not-not is_or) refl,
          (rw (text_l, text_r) idle', calm_l, calm_r, kind_l ∙ bl, kind_r ∙ br, refl),
          text_back db schema plain _ b b'' idle idle' (rw (text_l, text_r) refl),
          refl,
        );
      }
