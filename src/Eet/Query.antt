-- ===== src/Eet/Query.antt =====
-- The queries of src/eet/qcn_tester/qcn_select_tester.cc: what they print and their transformation.
use dbfuzz_multidb.Common.{ℕ, Bool, true, false, Text, if◌then◌else◌, []}
use dbfuzz_multidb.Expr.Syntax.{Sql, Sqls, ValueExpr, ValueExprs, verbatim}
use dbfuzz_multidb.Expr.Out.{out_list, printed}
use dbfuzz_multidb.Expr.Transform.{
  TargetSchema, Draw, equivalent_transform, equivalent_transform_list,
}
use dbfuzz_multidb.Expr.Counter.{Counter, ◌>>=◌, pure}

-- `frame` is the text that no transformation touches: the quantifier, the window clause, the order
-- and the limit. `reflist.back()` is the table reference; the ones before it belong to the frame.
-- A query has the search condition of its having clause exactly where `has_group` is set.
mutual
  pub data QuerySpec : Type 0 where
    query_spec : Text → ValueExprs → TableRef → ValueExpr → Having → QuerySpec

  pub data Having : Type 0 where
    no_group : Having
    -- the text of the group clause, having_cond_search
    group_by : Text → ValueExpr → Having

  pub data TableRef : Type 0 where
    table_or_query_name : Text → TableRef
    -- alias, query
    table_subquery : Text → QuerySpec → TableRef
    -- the text of the join and its condition, lhs, rhs
    joined_table : Text → TableRef → TableRef → TableRef

-- What `out` prints.
mutual
  pub data QuerySql : Type 0 where
    select_from_where : Text → Sqls → TableSql → Sql → HavingSql → QuerySql

  pub data HavingSql : Type 0 where
    no_having : HavingSql
    having : Text → Sql → HavingSql

  pub data TableSql : Type 0 where
    table_name : Text → TableSql
    subquery_as : Text → QuerySql → TableSql
    join_of : Text → TableSql → TableSql → TableSql

unfoldable pub having_out : Having → HavingSql
having_out no_group = no_having
having_out (group_by text cond) = having text (printed cond)

unfoldable mutual
  pub query_out : QuerySpec → QuerySql
  query_out (query_spec frame selected from search group) =
      select_from_where frame (out_list (verbatim []) selected) (table_out from) (printed search)
        (having_out group)

  pub table_out : TableRef → TableSql
  table_out (table_or_query_name name) = table_name name
  table_out (table_subquery alias query) = subquery_as alias (query_out query)
  table_out (joined_table text lhs rhs) = join_of text (table_out lhs) (table_out rhs)

abbrev pub has_group : Having → Bool
has_group no_group = false
has_group (group_by text cond) = true

module _ (schema : TargetSchema) (draws : ℕ → Draw) where
  -- The select list is left alone for ClickHouse and in a query with groups.
  abbrev pub eq_transform_selected : Bool → ValueExprs → Counter ValueExprs
  eq_transform_selected grouped selected =
      if schema.clickhouse
      then pure selected
      else if grouped
      then pure selected
      else equivalent_transform_list schema draws selected

  abbrev pub eq_transform_having : Having → Counter Having
  eq_transform_having no_group = pure no_group
  eq_transform_having (group_by text cond) = do
    c ← equivalent_transform schema draws cond
    pure (group_by text c)

  unfoldable mutual
    pub eq_transform_query : QuerySpec → Counter QuerySpec
    eq_transform_query (query_spec frame selected from search group) = do
      es ← eq_transform_selected (has_group group) selected
      t ← eq_transform_table_ref from
      s ← equivalent_transform schema draws search
      g ← eq_transform_having group
      pure (query_spec frame es t s g)

    pub eq_transform_table_ref : TableRef → Counter TableRef
    eq_transform_table_ref (table_or_query_name name) = pure (table_or_query_name name)
    eq_transform_table_ref (table_subquery alias query) = do
      q ← eq_transform_query query
      pure (table_subquery alias q)
    eq_transform_table_ref (joined_table text lhs rhs) = do
      l ← eq_transform_table_ref lhs
      r ← eq_transform_table_ref rhs
      pure (joined_table text l r)
