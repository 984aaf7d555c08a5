-- ===== src/Eet/Meaning.antt =====
-- What a database answers to a query: its rows, found from the meanings of the parts.
use dbfuzz_multidb.Common.{true, ◌≡◌, Text, List}
use dbfuzz_multidb.Expr.Syntax.{is_bool_expr}
use dbfuzz_multidb.Expr.Meaning.{Database, eval, eval_list}
use dbfuzz_multidb.Expr.Calm.{IsCalm, AreCalm}
use dbfuzz_multidb.Eet.Query.{
  QuerySql, select_from_where, HavingSql, no_having, having, TableSql, table_name, subquery_as,
  join_of, QuerySpec, query_spec, Having, no_group, group_by, TableRef, table_or_query_name,
  table_subquery, joined_table,
}

-- `Answer` is what the tester compares, a multiset of rows.
pub record Queries (db : Database) : Type 1 where
  pub Relation : Type 0
  pub Answer : Type 0
  pub named_table : Text → Relation
  pub answer_table : Text → Answer → Relation
  pub join : Text → Relation → Relation → Relation
  pub select : Text → List (db.Row → db.Value) → Relation → (db.Row → db.Value) → Answer
  pub select_groups :
      Text
      → List (db.Row → db.Value)
      → Relation
      → (db.Row → db.Value)
      → Text
      → (db.Row → db.Value)
      → Answer

module _ (db : Database) (queries : Queries db) where
  abbrev pub eval_having :
      Text
      → List (db.Row → db.Value)
      → queries.Relation
      → (db.Row → db.Value)
      → HavingSql
      → queries.Answer
  eval_having frame selected from search no_having = queries.select frame selected from search
  eval_having frame selected from search (having text cond) =
      queries.select_groups frame selected from search text (eval db cond)

  unfoldable mutual
    pub eval_query : QuerySql → queries.Answer
    eval_query (select_from_where frame selected from search group) =
        eval_having frame (eval_list db selected) (eval_table from) (eval db search) group

    pub eval_table : TableSql → queries.Relation
    eval_table (table_name name) = queries.named_table name
    eval_table (subquery_as alias query) = queries.answer_table alias (eval_query query)
    eval_table (join_of text lhs rhs) = queries.join text (eval_table lhs) (eval_table rhs)

-- Queries between two transformations: all their expressions are calm, their conditions Boolean.
module _ (db : Database) where
  abbrev pub IsCalmHaving : Having → Type 0
  IsCalmHaving no_group = Unit
  IsCalmHaving (group_by text cond) = IsCalm db cond × (is_bool_expr cond ≡ true)

  unfoldable mutual
    pub IsCalmSpec : QuerySpec → Type 0
    IsCalmSpec (query_spec frame selected from search group) =
        AreCalm db selected
        × IsCalmTable from
        × IsCalm db search
        × (is_bool_expr search ≡ true)
        × IsCalmHaving group

    pub IsCalmTable : TableRef → Type 0
    IsCalmTable (table_or_query_name name) = Unit
    IsCalmTable (table_subquery alias query) = IsCalmSpec query
    IsCalmTable (joined_table text lhs rhs) = IsCalmTable lhs × IsCalmTable rhs
