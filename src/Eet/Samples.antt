-- ===== src/Eet/Samples.antt =====
-- The theorems about the tester of queries at concrete inputs.
use dbfuzz_multidb.Common.{ℕ, Bool, true, false, ◌≡◌, refl, [], codes}
use dbfuzz_multidb.Txcheck.Result.{ok}
use dbfuzz_multidb.Expr.Syntax.{Truth, tru, fls, unk, no_expr, more_expr, is_bool_expr}
use dbfuzz_multidb.Expr.Calm.{IsCalm}
use dbfuzz_multidb.Expr.Samples.{
  three_values, three_values-IsSql, mysql, same_draw, same_draw-IsCalmDraw, search_expr,
  search_expr-IsCalm, column_c1, same_truth,
}
use dbfuzz_multidb.Eet.Query.{
  QuerySpec, query_spec, no_group, table_or_query_name, table_subquery, joined_table, QuerySql,
  query_out,
}
use dbfuzz_multidb.Eet.Meaning.{Queries, eval_query, IsCalmSpec}
use dbfuzz_multidb.Eet.Tester.{
  Execution, rows, QcnSelectTester, qcn_test, qcn_test_without_initialization,
}
use dbfuzz_multidb.Eet.Sound.{IsReady, NoBug, qcn_test-NoBug}
use dbfuzz_multidb.Eet.Verdict.{qcn_test_without_initialization-verdict}

-- A table is its one row, and a query answers with its search condition there.
abbrev one_row : Queries three_values
one_row = record {
  Relation = Truth;
  Answer = Truth;
  named_table = λ name. tru;
  answer_table = λ alias answer. answer;
  join = λ text l r. same_truth l r;
  select = λ frame selected from search. search from;
  select_groups = λ frame selected from search text cond. same_truth (search from) (cond from);
}

-- select t.c1 from (select t.c1 from t where ...) join t where ...
abbrev inner_query : QuerySpec
inner_query =
    query_spec [] (more_expr column_c1 no_expr) (table_or_query_name (codes "t")) search_expr
      no_group

abbrev sample_query : QuerySpec
sample_query =
    query_spec [] (more_expr column_c1 no_expr)
      (joined_table (codes "cross join") (table_subquery (codes "s") inner_query)
        (table_or_query_name (codes "t")))
      search_expr no_group

abbrev answer_of : QuerySql → Truth
answer_of s = eval_query three_values one_row s

abbrev honest : ℕ → QuerySql → Execution Truth
honest k s = rows (answer_of s)

abbrev sample_tester : QcnSelectTester Truth
sample_tester = record {
  query = sample_query;
  original_query = query_out sample_query;
  qit_query = query_out inner_query;
  original_query_result = answer_of (query_out sample_query);
  qit_query_result = unk;
  skip_one_original_execution = true;
  executions = 0;
  drawn = 0;
}

-- The comparison of two answers.
abbrev alike : Truth → Truth → Bool
alike tru tru = true
alike fls fls = true
alike unk unk = true
alike _ _ = false

alike_refl : (t : Truth) → alike t t ≡ true
alike_refl tru = refl
alike_refl fls = refl
alike_refl unk = refl

sample_tester-IsReady : IsReady three_values one_row sample_tester
unfolding IsCalmSpec IsCalm is_bool_expr
sample_tester-IsReady = (
  ((tt, tt), (((tt, tt), tt, search_expr-IsCalm, refl, tt), tt), search_expr-IsCalm, refl, tt),
  λ _. refl,
)

rows_injective : {a b : Truth} → rows a ≡ rows b → b ≡ a
rows_injective h = cc

qcn_test-NoBug_example :
    NoBug three_values one_row
      (query_out sample_query)
      (qcn_test mysql (λ n. same_draw) honest unk alike sample_tester)
qcn_test-NoBug_example =
    qcn_test-NoBug three_values three_values-IsSql one_row mysql (λ n. same_draw)
      same_draw-IsCalmDraw honest unk alike alike_refl (λ k s a e. rows_injective e) sample_tester
      sample_tester-IsReady

qcn_test_without_initialization-verdict_example :
    (t' : QcnSelectTester Truth) × (qcn_test_without_initialization mysql
        (λ n. same_draw)
        honest
        unk
        alike
        sample_tester
      ≡ ok (alike (answer_of (query_out inner_query)) (answer_of (query_out sample_query)), t'))
qcn_test_without_initialization-verdict_example =
    qcn_test_without_initialization-verdict mysql (λ n. same_draw) honest unk alike answer_of
      (λ k s. refl) sample_tester (λ _. refl)
