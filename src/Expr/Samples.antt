-- ===== src/Expr/Samples.antt =====
-- A small database, and the theorems about expressions at concrete inputs.
use dbfuzz_multidb.Common.{ℕ, some, true, false, ◌≡◌, refl, [], codes}
use dbfuzz_multidb.Txcheck.Result.{ok, throw, null_dereference}
use dbfuzz_multidb.Expr.Syntax.{
  Truth, tru, fls, unk, ValueExpr, const_expr, column_reference, const_bool, between_op, bool_term,
  comparison_op, Base, base, no_eq, fresh_base, is_bool_expr,
}
use dbfuzz_multidb.Expr.Out.{printed}
use dbfuzz_multidb.Expr.Transform.{TargetSchema, Draw, equivalent_transform}
use dbfuzz_multidb.Expr.Back.{back_transform}
use dbfuzz_multidb.Expr.Meaning.{
  Database, IsSql, eval, and_table, not_table, null_table, logic_table, case_table,
}
use dbfuzz_multidb.Expr.Calm.{IsCalm}
use dbfuzz_multidb.Expr.Marks.{IsCalmDraw}
use dbfuzz_multidb.Expr.Ids.{set_component_id}
use dbfuzz_multidb.Expr.Find.{get_component_from_id, component_id, with_component_id}
use dbfuzz_multidb.Expr.Replace.{set_component_from_id}
use dbfuzz_multidb.Expr.Typed.{IsTyped}
use dbfuzz_multidb.Expr.Numbered.{IsNumbered, set_component_id-IsNumbered}
use dbfuzz_multidb.Expr.Restore.{set_component_from_id-restores, set_component_from_id-IsTyped}
use dbfuzz_multidb.Expr.Correct.{equivalent_transform-value, back_transform-equivalent_transform}

-- A database in which every value is a truth value, and a column has the value of the row.
abbrev pub same_truth : Truth → Truth → Truth
same_truth tru b = b
same_truth fls b = not_table b
same_truth unk b = unk

abbrev pub three_values : Database
three_values = record {
  Value = Truth;
  Row = Truth;
  truth = λ t. t;
  plain_text = λ text row. row;
  function = λ name args row. unk;
  arithmetic_op = λ oper x y. unk;
  comparison_op = λ oper x y. same_truth x y;
  logic_op = logic_table;
  distinct_op = λ x y. not_table (same_truth x y);
  case_op = λ c x y. case_table c x y;
  cast_op = λ convert target x. x;
  interval_op = λ is_add unit x y. unk;
  json_op = λ arrow path x. unk;
  not_op = not_table;
  null_op = null_table;
  between_op = λ m l r. and_table (same_truth m l) (same_truth m r);
  like_op = λ operator format x. x;
  regexp_op = λ negated x y. same_truth x y;
  query_op = λ comp_op x before after search row. same_truth x (search row);
  union_op = λ comp_op x before middle after left right row. same_truth x (left row);
}

pub three_values-IsSql : IsSql three_values
three_values-IsSql = record {
  logic_law = λ is_or a b. refl;
  not_law = λ a. refl;
  null_law = λ is_null a. refl;
  case_law = λ a x y. refl;
  between_law = λ m l r. refl;
  comparison_truth = λ oper x y. (same_truth x y, refl);
  distinct_truth = λ x y. (not_table (same_truth x y), refl);
  null_truth = λ is_null x. (null_table is_null x, refl);
  like_truth = λ operator format x. (x, refl);
  regexp_truth = λ negated x y. (same_truth x y, refl);
  query_truth = λ comp_op x before after search r. (same_truth x (search r), refl);
  union_truth = λ comp_op x before middle after left right r. (same_truth x (left r), refl);
}

abbrev pub mysql : TargetSchema
mysql = record { clickhouse = false; has_ge_le = true }

-- Every draw is the column c2 for a value and c1 = c1 for a Boolean.
abbrev pub column_c1 : ValueExpr
column_c1 = column_reference fresh_base (codes "t.c1") []

abbrev pub same_draw : Draw
same_draw = record {
  random_value = column_reference fresh_base (codes "t.c2") [];
  random_bool = comparison_op fresh_base (codes "=") column_c1 column_c1;
  choice = 5;
  coin = 4;
}

pub same_draw-IsCalmDraw : (n : ℕ) → IsCalmDraw three_values same_draw
unfolding IsCalm is_bool_expr
same_draw-IsCalmDraw n = (tt, (tt, tt, tt), refl)

-- (t.c1 = t.c1) or (t.c1 between 1 and t.c1)
abbrev pub search_expr : ValueExpr
search_expr =
    bool_term fresh_base false true (comparison_op fresh_base (codes "=") column_c1 column_c1)
      (between_op fresh_base false (const_expr fresh_base (codes "1")) column_c1 column_c1)

pub search_expr-IsCalm : IsCalm three_values search_expr
unfolding IsCalm is_bool_expr
search_expr-IsCalm = (tt, (tt, tt, tt), (tt, tt, tt, tt, refl), refl, refl, refl)

search_expr_marked_once : back_transform mysql search_expr ≡ throw null_dereference
unfolding back_transform
search_expr_marked_once = refl

equivalent_transform-value_example :
    (e' : ValueExpr) × (m : ℕ) × (equivalent_transform mysql (λ n. same_draw) search_expr 0
      ≡ ok (e', m))
    × ((r : Truth) → eval three_values (printed e') r ≡ eval three_values (printed search_expr) r)
equivalent_transform-value_example =
    equivalent_transform-value three_values three_values-IsSql mysql (λ n. same_draw)
      same_draw-IsCalmDraw search_expr search_expr-IsCalm 0

back_transform-equivalent_transform_example :
    (e' : ValueExpr) × (m : ℕ) × (equivalent_transform mysql (λ n. same_draw) search_expr 0
      ≡ ok (e', m))
    × ((e'' : ValueExpr) × (back_transform mysql e' ≡ ok e'')
        × IsCalm three_values e''
        × (printed e'' ≡ printed search_expr)
        × (is_bool_expr e'' ≡ is_bool_expr search_expr))
back_transform-equivalent_transform_example =
    back_transform-equivalent_transform three_values three_values-IsSql mysql (λ n. same_draw)
      same_draw-IsCalmDraw search_expr search_expr-IsCalm 0

-- The same search with its components numbered, and null in the place of the column in the middle.
abbrev numbered : ℕ → Base
numbered n = base false no_eq (some n)

abbrev numbered_column : ℕ → ValueExpr
numbered_column n = column_reference (numbered n) (codes "t.c1") []

abbrev numbered_search : ValueExpr → ValueExpr
numbered_search middle =
    bool_term (numbered 0) false true
      (comparison_op (numbered 1) (codes "=") (numbered_column 2) (numbered_column 3))
      (between_op (numbered 4) false (const_expr (numbered 5) (codes "1")) middle
        (numbered_column 7))

numbers_search : set_component_id search_expr 0 ≡ ok (numbered_search (numbered_column 6), 8)
unfolding set_component_id
numbers_search = refl

finds_column :
    get_component_from_id 6 (numbered_search (numbered_column 6)) ≡ some (numbered_column 6)
unfolding get_component_from_id component_id
finds_column = refl

puts_null :
    set_component_from_id 6 (const_bool fresh_base unk) (numbered_search (numbered_column 6))
    ≡ some (numbered_search (const_bool (numbered 6) unk))
unfolding set_component_from_id component_id with_component_id is_bool_expr
puts_null = refl

search_IsTyped : IsTyped (numbered_search (numbered_column 6))
unfolding IsTyped is_bool_expr
search_IsTyped = ((tt, tt), (tt, tt, tt), refl, refl, refl)

null_IsTyped : IsTyped (const_bool fresh_base unk)
unfolding IsTyped
null_IsTyped = tt

null_is_bool : is_bool_expr (const_bool fresh_base unk) ≡ true
unfolding is_bool_expr
null_is_bool = refl

set_component_from_id-restores_example :
    (e' : ValueExpr) × (set_component_from_id 6
        (const_bool fresh_base unk)
        (numbered_search (numbered_column 6))
      ≡ some e')
    × (set_component_from_id 6 (numbered_column 6) e' ≡ some (numbered_search (numbered_column 6)))
    × (is_bool_expr e' ≡ is_bool_expr (numbered_search (numbered_column 6)))
set_component_from_id-restores_example =
    set_component_from_id-restores 6 (const_bool fresh_base unk) null_is_bool null_IsTyped
      (numbered_search (numbered_column 6)) (numbered_column 6) search_IsTyped finds_column

set_component_from_id-IsTyped_example :
    IsTyped (numbered_search (const_bool (numbered 6) unk))
    × (is_bool_expr (numbered_search (const_bool (numbered 6) unk))
        ≡ is_bool_expr (numbered_search (numbered_column 6)))
set_component_from_id-IsTyped_example =
    set_component_from_id-IsTyped 6 (const_bool fresh_base unk) null_is_bool null_IsTyped
      (numbered_search (numbered_column 6)) (numbered_search (const_bool (numbered 6) unk))
      search_IsTyped puts_null

set_component_id-IsNumbered_example :
    (e' : ValueExpr) × (m : ℕ) × (set_component_id search_expr 0 ≡ ok (e', m)) × IsNumbered 0 m e'
set_component_id-IsNumbered_example =
    set_component_id-IsNumbered three_values search_expr search_expr-IsCalm 0
