-- ===== src/Eet/Correct.antt =====
-- A transformed query has the answer of the query, and the way back restores its text.
use dbfuzz_multidb.Common.{
  ℕ, Bool, true, false, if◌then◌else◌, ◌≡◌, refl, ap, ◌∙◌, fun_ext, [], Text, List,
}
use dbfuzz_multidb.Txcheck.Result.{ok}
use dbfuzz_multidb.Expr.Syntax.{ValueExprs, verbatim}
use dbfuzz_multidb.Expr.Out.{printed}
use dbfuzz_multidb.Expr.Counter.{pure}
use dbfuzz_multidb.Expr.Transform.{TargetSchema, Draw, equivalent_transform_list}
use dbfuzz_multidb.Expr.Back.{back_transform_list}
use dbfuzz_multidb.Expr.Meaning.{Database, IsSql, eval, eval_list}
use dbfuzz_multidb.Expr.Calm.{AreCalm, printed_list}
use dbfuzz_multidb.Expr.Marks.{IsCalmDraw}
use dbfuzz_multidb.Expr.Correct.{
  equivalent_transform-Transforms, equivalent_transform_list-AllTransform,
}
use dbfuzz_multidb.Eet.Query.{
  QuerySpec, query_spec, Having, no_group, group_by, has_group, TableRef, table_or_query_name,
  table_subquery, joined_table, having, query_out, table_out, having_out, eq_transform_query,
  eq_transform_table_ref, eq_transform_having,
}
use dbfuzz_multidb.Eet.Back.{back_transform_query, back_transform_table_ref, back_transform_having}
use dbfuzz_multidb.Eet.Meaning.{
  Queries, eval_query, eval_table, eval_having, IsCalmSpec, IsCalmTable, IsCalmHaving,
}

module _ (db : Database) (queries : Queries db) (schema : TargetSchema) where
  -- A query before and after its transformation.
  pub record IsTransformedQuery (q q' : QuerySpec) : Type 0 where
    pub same_answer : eval_query db queries (query_out q') ≡ eval_query db queries (query_out q)
    pub query_back :
        (q'' : QuerySpec) × (back_transform_query schema q' ≡ ok q'')
        × IsCalmSpec db q''
        × (query_out q'' ≡ query_out q)

  pub record IsTransformedTable (t t' : TableRef) : Type 0 where
    pub same_table : eval_table db queries (table_out t') ≡ eval_table db queries (table_out t)
    pub table_back :
        (t'' : TableRef) × (back_transform_table_ref schema t' ≡ ok t'')
        × IsCalmTable db t''
        × (table_out t'' ≡ table_out t)

  pub record IsTransformedHaving (g g' : Having) : Type 0 where
    pub same_grouped : has_group g' ≡ has_group g
    pub same_groups :
        (frame : Text) (selected : List (db.Row → db.Value)) (from : queries.Relation)
        (search : db.Row → db.Value)
        → eval_having db queries frame selected from search (having_out g')
          ≡ eval_having db queries frame selected from search (having_out g)
    pub having_back :
        (g'' : Having) × (back_transform_having schema g' ≡ ok g'')
        × IsCalmHaving db g''
        × (having_out g'' ≡ having_out g)

module _ (db : Database) (sql : IsSql db) (queries : Queries db) (schema : TargetSchema)
    (draws : ℕ → Draw) (calm_draws : (n : ℕ) → IsCalmDraw db (draws n)) where
  -- The select list, which is left alone where `clickhouse` or `grouped` is true.
  abbrev SelectedTransforms : Bool → Bool → ValueExprs → ℕ → Type 0
  SelectedTransforms clickhouse grouped es n =
      (es' : ValueExprs) × (m : ℕ) × ((if clickhouse
            then pure es
            else if grouped
            then pure es
            else equivalent_transform_list schema draws es)
          n
        ≡ ok (es', m))
      × (eval_list db (printed_list es') ≡ eval_list db (printed_list es))
      × ((es'' : ValueExprs) × ((if clickhouse
              then ok es'
              else if grouped
              then ok es'
              else back_transform_list schema es')
            ≡ ok es'')
          × AreCalm db es''
          × (printed_list es'' ≡ printed_list es))

  selected-Transforms :
      (clickhouse grouped : Bool) (es : ValueExprs) (n : ℕ)
      → AreCalm db es
      → SelectedTransforms clickhouse grouped es n
  selected-Transforms true grouped es n calm = (es, n, refl, refl, (es, refl, calm, refl))
  selected-Transforms false true es n calm = (es, n, refl, refl, (es, refl, calm, refl))
  selected-Transforms false false es n calm =
      let (es', m, run, t) =
        equivalent_transform_list-AllTransform db sql schema draws calm_draws es calm n in
      (es', m, run, t.same_values (verbatim []), t.go_back)

  having-Transforms :
      (g : Having) (n : ℕ)
      → IsCalmHaving db g
      → (g' : Having) × (m : ℕ) × (eq_transform_having schema draws g n ≡ ok (g', m))
        × IsTransformedHaving db queries schema g g'
  unfolding having_out
  having-Transforms no_group n calm = (
    no_group,
    n,
    refl,
    record {
      same_grouped = refl;
      same_groups = λ _ _ _ _. refl;
      having_back = (no_group, refl, tt, refl);
    },
  )
  having-Transforms (group_by text cond) n calm =
      let (c', m, run, t) =
        equivalent_transform-Transforms db sql schema draws calm_draws cond calm.0 n in
      let (c'', back, calm', same, kind) = t.goes_back in
      (
        group_by text c',
        m,
        rw run refl,
        record {
          same_grouped = refl;
          same_groups = λ frame selected from search.
              ap (queries.select_groups frame selected from search text)
                (fun_ext (t.same_value (verbatim [])));
          having_back =
              (group_by text c'', rw back refl, (calm', kind ∙ calm.1), ap (having text) same);
        },
      )

  mutual
    unfolding eq_transform_query back_transform_query query_out eval_query IsCalmSpec

    pub eq_transform_query-Transforms :
        (q : QuerySpec)
        → IsCalmSpec db q
        → (n : ℕ)
        → (q' : QuerySpec) × (m : ℕ) × (eq_transform_query schema draws q n ≡ ok (q', m))
          × IsTransformedQuery db queries schema q q'
    eq_transform_query-Transforms (query_spec frame es from search group) calm n =
        let (es', k1, e1, same_es, (es'', back_es, calm_es, text_es)) =
          selected-Transforms schema.clickhouse (has_group group) es n calm.0 in
        let (from', k2, e2, tf) = eq_transform_table_ref-Transforms from calm.1 k1 in
        let (s', k3, e3, ts) =
          equivalent_transform-Transforms db sql schema draws calm_draws search calm.2 k2 in
        let (g', k4, e4, tg) = having-Transforms group k3 calm.4 in
        let (from'', back_f, calm_f, text_f) = tf.table_back in
        let (s'', back_s, calm_s, text_s, kind_s) = ts.goes_back in
        let (g'', back_g, calm_g, text_g) = tg.having_back in
        (
          query_spec frame es' from' s' g',
          k4,
          rw (e1, e2, e3, e4) refl,
          record {
            same_answer =
                tg.same_groups frame (eval_list db (printed_list es'))
                  (eval_table db queries (table_out from')) (eval db (printed s'))
                ∙ (λ i.
                    eval_having db queries frame (same_es i) (tf.same_table i)
                      (fun_ext (ts.same_value (verbatim [])) i) (having_out group));
            query_back = (
              query_spec frame es'' from'' s'' g'',
              rw (tg.same_grouped, back_es, back_f, back_s, back_g) refl,
              (calm_es, calm_f, calm_s, kind_s ∙ calm.3, calm_g),
              rw (text_es, text_f, text_s, text_g) refl,
            );
          },
        )

    pub eq_transform_table_ref-Transforms :
        (t : TableRef)
        → IsCalmTable db t
        → (n : ℕ)
        → (t' : TableRef) × (m : ℕ) × (eq_transform_table_ref schema draws t n ≡ ok (t', m))
          × IsTransformedTable db queries schema t t'
    eq_transform_table_ref-Transforms (table_or_query_name name) calm n = (
      table_or_query_name name,
      n,
      refl,
      record { same_table = refl; table_back = (table_or_query_name name, refl, tt, refl) },
    )
    eq_transform_table_ref-Transforms (table_subquery alias query) calm n =
        let (q', m, run, t) = eq_transform_query-Transforms query calm n in
        let (q'', back, calm', text) = t.query_back in
        (
          table_subquery alias q',
          m,
          rw run refl,
          record {
            same_table = ap (queries.answer_table alias) t.same_answer;
            table_back = (table_subquery alias q'', rw back refl, calm', rw text refl);
          },
        )
    eq_transform_table_ref-Transforms (joined_table text lhs rhs) calm n =
        let (l', k, run_l, tl) = eq_transform_table_ref-Transforms lhs calm.0 n in
        let (r', m, run_r, tr) = eq_transform_table_ref-Transforms rhs calm.1 k in
        let (l'', back_l, calm_l, text_l) = tl.table_back in
        let (r'', back_r, calm_r, text_r) = tr.table_back in
        (
          joined_table text l' r',
          m,
          rw (run_l, run_r) refl,
          record {
            same_table = λ i. queries.join text (tl.same_table i) (tr.same_table i);
            table_back = (
              joined_table text l'' r'',
              rw (back_l, back_r) refl,
              (calm_l, calm_r),
              rw (text_l, text_r) refl,
            );
          },
        )
