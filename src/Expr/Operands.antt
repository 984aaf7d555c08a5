-- ===== src/Expr/Operands.antt =====
-- The transformation of a class with operands of other shapes: three operands, a list, a query, or
-- a class that rewrites itself.
use dbfuzz_multidb.Common.{
  Bool, true, false, ◌≡◌, refl, ap, ◌∙◌, sym, fun_ext, Text, [], if◌then◌else◌,
}
use dbfuzz_multidb.Txcheck.Result.{ok}
use dbfuzz_multidb.Expr.Syntax.{
  Sql, verbatim, Sqls, no_sql, more_sql, ValueExpr, funcall, coalesce, ValueExprs, no_expr,
  more_expr, Subquery, query_spec, unioned_query, Base, is_bool_expr,
}
use dbfuzz_multidb.Expr.Out.{
  out, out_list, out_base, printed, comp_subquery_out, funcall_out, coalesce_out,
}
use dbfuzz_multidb.Expr.Transform.{TargetSchema}
use dbfuzz_multidb.Expr.Back.{back_transform, back_transform_list, back_transform_query}
use dbfuzz_multidb.Expr.Meaning.{Database, eval, eval_list, ◌≈◌}
use dbfuzz_multidb.Expr.Calm.{IsCalm, IsIdle, AreCalm, IsCalmQuery, printed_list, out_base-IsIdle}
use dbfuzz_multidb.Expr.Marks.{IsMarked}
use dbfuzz_multidb.Expr.Transformed.{IsTransformed, shown_value}

module _ (db : Database) (schema : TargetSchema) where
  -- The arguments of a function.
  pub record AreTransformed (es es' : ValueExprs) : Type 0 where
    pub same_values :
        (self : Sql) → eval_list db (out_list self es') ≡ eval_list db (printed_list es)
    pub go_back :
        (es'' : ValueExprs) × (back_transform_list schema es' ≡ ok es'')
        × AreCalm db es''
        × (printed_list es'' ≡ printed_list es)

  -- The query of a comparison.
  pub record IsQueryTransformed (q q' : Subquery) : Type 0 where
    pub same_test :
        (self : Sql) (comp_op : Text) (s t : Sql)
        → ◌≈◌ db s t
        → ◌≈◌ db (comp_subquery_out self comp_op s q') (comp_subquery_out (verbatim []) comp_op t q)
    pub query_back :
        (q'' : Subquery) × (back_transform_query schema q' ≡ ok q'')
        × IsCalmQuery db q''
        × ((comp_op : Text) (s : Sql)
            → comp_subquery_out (verbatim []) comp_op s q''
              ≡ comp_subquery_out (verbatim []) comp_op s q)

  pub no_expr-AreTransformed : AreTransformed no_expr no_expr
  unfolding out back_transform IsCalm
  no_expr-AreTransformed = record {
    same_values = λ self. refl;
    go_back = (no_expr, refl, tt, refl);
  }

  pub more_expr-AreTransformed :
      (e e' : ValueExpr) (es es' : ValueExprs)
      → IsTransformed db schema e e'
      → AreTransformed es es'
      → AreTransformed (more_expr e es) (more_expr e' es')
  unfolding out back_transform IsCalm eval
  more_expr-AreTransformed e e' es es' te tes =
      let (e'', back_e, calm_e, text_e, _) = te.goes_back in
      let (es'', back_es, calm_es, text_es) = tes.go_back in
      record {
        same_values = λ self. rw (fun_ext (te.same_value self), tes.same_values self) refl;
        go_back = (
          more_expr e'' es'',
          rw (back_e, back_es) refl,
          (calm_e, calm_es),
          rw (text_e, text_es) refl,
        );
      }

  pub query_spec-IsQueryTransformed :
      (before after : Text) (e e' : ValueExpr)
      → is_bool_expr e ≡ true
      → IsTransformed db schema e e'
      → IsQueryTransformed (query_spec before after e) (query_spec before after e')
  unfolding out back_transform IsCalm eval
  query_spec-IsQueryTransformed before after e e' boolean te =
      let (e'', back, calm, text, kind) = te.goes_back in
      record {
        same_test = λ self comp_op s t same r.
            ap (λ f. db.query_op comp_op (eval db s r) before after f r)
              (fun_ext (te.same_value self))
            ∙ ap (λ v. db.query_op comp_op v before after (eval db (printed e)) r) (same r);
        query_back = (
          query_spec before after e'',
          rw back refl,
          (calm, kind ∙ boolean),
          λ comp_op s. rw text refl,
        );
      }

  pub unioned_query-IsQueryTransformed :
      (before middle after : Text) (e e' f f' : ValueExpr)
      → is_bool_expr e ≡ true
      → is_bool_expr f ≡ true
      → IsTransformed db schema e e'
      → IsTransformed db schema f f'
      → IsQueryTransformed
          (unioned_query before middle after e f)
          (unioned_query before middle after e' f')
  unfolding out back_transform IsCalm eval
  unioned_query-IsQueryTransformed before middle after e e' f f' be bf te tf =
      let (e'', back_e, calm_e, text_e, kind_e) = te.goes_back in
      let (f'', back_f, calm_f, text_f, kind_f) = tf.goes_back in
      record {
        same_test = λ self comp_op s t same r.
            ap
              (λ g.
                db.union_op comp_op (eval db s r) before middle after g (eval db (out self f')) r)
              (fun_ext (te.same_value self))
            ∙ ap
                (λ g.
                  db.union_op comp_op (eval db s r) before middle after (eval db (printed e)) g r)
                (fun_ext (tf.same_value self))
            ∙ ap
                (λ v.
                  db.union_op comp_op v before middle after (eval db (printed e))
                    (eval db (printed f)) r)
                (same r);
        query_back = (
          unioned_query before middle after e'' f'',
          rw (back_e, back_f) refl,
          (calm_e, calm_f, kind_e ∙ be, kind_f ∙ bf),
          λ comp_op s. rw (text_e, text_f) refl,
        );
      }

  funcall_out-eval :
      (proc : Text) (is_aggregate : Bool) (ss ts : Sqls)
      → eval_list db ss ≡ eval_list db ts
      → ◌≈◌ db (funcall_out proc is_aggregate ss) (funcall_out proc is_aggregate ts)
  unfolding eval
  funcall_out-eval proc true no_sql no_sql e r = refl
  funcall_out-eval proc true no_sql (more_sql t ts) e r = cc
  funcall_out-eval proc true (more_sql s ss) no_sql e r = cc
  funcall_out-eval proc true (more_sql s ss) (more_sql t ts) e r = rw e refl
  funcall_out-eval proc false ss ts e r = rw e refl

  -- The last part of a class's proof: what it prints before, between and after.
  pub text_back :
      (plain after : Sql) (b b'' : Base)
      → IsIdle db plain b
      → IsIdle db plain b''
      → after ≡ plain
      → out_base after b'' ≡ out_base plain b
  text_back plain after b b'' idle idle' e =
      ap (λ t. out_base t b'') e
      ∙ out_base-IsIdle db plain plain b'' idle'
      ∙ sym (out_base-IsIdle db plain plain b idle)

  pub value_kept :
      (plain shown : Sql) (b b' : Base)
      → IsIdle db plain b
      → IsMarked db plain b'
      → ◌≈◌ db shown plain
      → ◌≈◌ db (out_base shown b') (out_base plain b)
  value_kept plain shown b b' idle marked same =
      shown_value db schema plain shown b' marked same (out_base plain b)
        (out_base-IsIdle db plain plain b idle)

  -- `ps` and `ps'` are the parameters before and after; they are left alone for ClickHouse.
  pub funcall-IsTransformed :
      (b b' : Base) (proc : Text) (is_aggregate : Bool) (ps ps' ps'' : ValueExprs)
      → IsIdle db (funcall_out proc is_aggregate (printed_list ps)) b
      → IsMarked db (funcall_out proc is_aggregate (printed_list ps)) b'
      → ((self : Sql) → eval_list db (out_list self ps') ≡ eval_list db (printed_list ps))
      → (if schema.clickhouse then ok ps' else back_transform_list schema ps') ≡ ok ps''
      → AreCalm db ps''
      → printed_list ps'' ≡ printed_list ps
      → IsTransformed db schema (funcall b proc is_aggregate ps) (funcall b' proc is_aggregate ps')
  unfolding out back_transform IsCalm is_bool_expr
  funcall-IsTransformed b b' proc is_aggregate ps ps' ps'' idle marked same back calm text =
      let plain = funcall_out proc is_aggregate (printed_list ps) in
      let (b'', unmarked, idle') = marked.1 in
      record {
        same_kind = refl;
        same_value = λ s.
            value_kept plain (funcall_out proc is_aggregate (out_list s ps')) b b' idle marked
              (funcall_out-eval proc is_aggregate _ _ (same s));
        goes_back = (
          funcall b'' proc is_aggregate ps'',
          rw (unmarked, back) refl,
          (rw text idle', calm),
          text_back plain _ b b'' idle idle' (rw text refl),
          refl,
        );
      }

  pub coalesce-IsTransformed :
      (b b' : Base) (name : Text) (es es' : ValueExprs)
      → IsIdle db (coalesce_out name (printed_list es)) b
      → IsMarked db (coalesce_out name (printed_list es)) b'
      → AreTransformed es es'
      → IsTransformed db schema (coalesce b name es) (coalesce b' name es')
  unfolding out back_transform IsCalm is_bool_expr eval
  coalesce-IsTransformed b b' name es es' idle marked tes =
      let plain = coalesce_out name (printed_list es) in
      let (b'', unmarked, idle') = marked.1 in
      let (es'', back, calm, text) = tes.go_back in
      record {
        same_kind = refl;
        same_value = λ s.
            value_kept plain (coalesce_out name (out_list s es')) b b' idle marked
              (λ r. rw (tes.same_values s) refl);
        goes_back = (
          coalesce b'' name es'',
          rw (back, unmarked) refl,
          (rw text idle', calm),
          text_back plain _ b b'' idle idle' (rw text refl),
          refl,
        );
      }
