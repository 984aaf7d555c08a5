-- ===== src/Eet/Back.antt =====
-- `back_transform_query` of src/eet/qcn_tester/qcn_select_tester.cc.
use dbfuzz_multidb.Common.{Bool, if◌then◌else◌}
use dbfuzz_multidb.Txcheck.Result.{Result, ok, ◌>>=◌}
use dbfuzz_multidb.Expr.Syntax.{ValueExprs}
use dbfuzz_multidb.Expr.Transform.{TargetSchema}
use dbfuzz_multidb.Expr.Back.{back_transform, back_transform_list}
use dbfuzz_multidb.Eet.Query.{
  QuerySpec, query_spec, Having, no_group, group_by, has_group, TableRef, table_or_query_name,
  table_subquery, joined_table,
}

module _ (schema : TargetSchema) where
  abbrev pub back_transform_selected : Bool → ValueExprs → Result ValueExprs
  back_transform_selected grouped selected =
      if schema.clickhouse
      then ok selected
      else if grouped
      then ok selected
      else back_transform_list schema selected

  abbrev pub back_transform_having : Having → Result Having
  back_transform_having no_group = ok no_group
  back_transform_having (group_by text cond) = do
    c ← back_transform schema cond
    ok (group_by text c)

  unfoldable mutual
    pub back_transform_query : QuerySpec → Result QuerySpec
    back_transform_query (query_spec frame selected from search group) = do
      es ← back_transform_selected (has_group group) selected
      t ← back_transform_table_ref from
      s ← back_transform schema search
      g ← back_transform_having group
      ok (query_spec frame es t s g)

    pub back_transform_table_ref : TableRef → Result TableRef
    back_transform_table_ref (table_or_query_name name) = ok (table_or_query_name name)
    back_transform_table_ref (table_subquery alias query) = do
      q ← back_transform_query query
      ok (table_subquery alias q)
    back_transform_table_ref (joined_table text lhs rhs) = do
      l ← back_transform_table_ref lhs
      r ← back_transform_table_ref rhs
      ok (joined_table text l r)
