-- ===== src/Expr/Numbered.antt =====
-- After `set_component_id` the look-up finds each component by its number.
use dbfuzz_multidb.Common.{ℕ, ◌+◌, ◌≡◌, refl, true, false, Option, some}
use dbfuzz_multidb.Txcheck.Result.{ok}
use dbfuzz_multidb.Expr.Syntax.{
  Sql, ValueExpr, share_this, printed_expr, const_expr, column_reference, atomic_subselect, funcall,
  coalesce, binop_expr, case_expr, cast_expr, interval_expr, mysql_json_op, const_bool, not_expr,
  null_predicate, between_op, like_op, bool_term, comparison_op, distinct_pred, comp_subquery,
  regexp_expr, ValueExprs, no_expr, more_expr, Subquery, query_spec, unioned_query, Base, base,
}
use dbfuzz_multidb.Expr.Ids.{
  value_expr_set_component_id, set_component_id, set_component_id_list, set_component_id_query,
}
use dbfuzz_multidb.Expr.Find.{
  component_id, base_id, get_component_from_id, get_component_from_id_list,
  get_component_from_id_query, get_child, first_found,
}
use dbfuzz_multidb.Expr.Meaning.{Database}
use dbfuzz_multidb.Expr.Calm.{IsCalm, IsIdle, AreCalm, IsCalmQuery}
use dbfuzz_multidb.Expr.Covers.{
  Covers, none-Covers, first_found-Covers, first_found-Covers_later, get_child-Covers,
}

-- The expression has the number n, and its components the numbers after it, below m.
abbrev pub IsNumbered : ℕ → ℕ → ValueExpr → Type 0
IsNumbered n m e = (component_id e ≡ some n) × Covers (λ k. get_component_from_id k e) (n + 1) m

abbrev look_at : ValueExpr → ℕ → Option ValueExpr
look_at e k = get_child k e (get_component_from_id k e)

operand-Covers : (e : ValueExpr) (n m : ℕ) → IsNumbered n m e → Covers (look_at e) n m
operand-Covers e n m (has, covers) =
    get_child-Covers e (λ k. get_component_from_id k e) n m has covers

two-Covers :
    (e f : ValueExpr) (n k m : ℕ)
    → IsNumbered n k e
    → IsNumbered k m f
    → Covers (λ i. first_found (look_at e i) (look_at f i)) n m
two-Covers e f n k m h g =
    first_found-Covers (look_at e) (look_at f) n k m (operand-Covers e n k h)
      (operand-Covers f k m g)

module _ (db : Database) where
  abbrev Numbers : ValueExpr → Type 0
  Numbers e =
      (n : ℕ) → (e' : ValueExpr) × (m : ℕ) × (set_component_id e n ≡ ok (e', m)) × IsNumbered n m e'

  base-IsNumbered :
      (plain : Sql) (b : Base)
      → IsIdle db plain b
      → (n : ℕ)
      → (b' : Base) × (value_expr_set_component_id b n ≡ ok (b', n + 1)) × (base_id b' ≡ some n)
  base-IsNumbered plain (base true equal id) idle n = absurd idle
  base-IsNumbered plain (base false equal id) idle n = (base false equal (some n), refl, refl)

  mutual
    unfolding set_component_id get_component_from_id component_id IsCalm

    set_component_id-Numbers : (e : ValueExpr) → IsCalm db e → Numbers e
    set_component_id-Numbers share_this calm n = absurd calm
    set_component_id-Numbers (printed_expr b text) calm n = absurd calm
    set_component_id-Numbers (const_expr b text) calm n =
        let (b', eb, ib) = base-IsNumbered _ b calm n in
        (const_expr b' text, n + 1, rw eb refl, (ib, none-Covers (n + 1)))
    set_component_id-Numbers (column_reference b reference collation) calm n =
        let (b', eb, ib) = base-IsNumbered _ b calm n in
        (column_reference b' reference collation, n + 1, rw eb refl, (ib, none-Covers (n + 1)))
    set_component_id-Numbers (atomic_subselect b query) calm n =
        let (b', eb, ib) = base-IsNumbered _ b calm n in
        (atomic_subselect b' query, n + 1, rw eb refl, (ib, none-Covers (n + 1)))
    set_component_id-Numbers (const_bool b op) calm n =
        let (b', eb, ib) = base-IsNumbered _ b calm n in
        (const_bool b' op, n + 1, rw eb refl, (ib, none-Covers (n + 1)))
    set_component_id-Numbers (regexp_expr b negated lhs rhs) calm n =
        let (b', eb, ib) = base-IsNumbered _ b calm.0 n in
        (regexp_expr b' negated lhs rhs, n + 1, rw eb refl, (ib, none-Covers (n + 1)))
    set_component_id-Numbers (funcall b proc is_aggregate parms) calm n =
        let (b', eb, ib) = base-IsNumbered _ b calm.0 n in
        let (es, m, run, covers) = list-Numbers parms calm.1 (n + 1) in
        (funcall b' proc is_aggregate es, m, rw (eb, run) refl, (ib, covers))
    set_component_id-Numbers (coalesce b name value_exprs) calm n =
        let (b', eb, ib) = base-IsNumbered _ b calm.0 n in
        let (es, m, run, covers) = list-Numbers value_exprs calm.1 (n + 1) in
        (coalesce b' name es, m, rw (eb, run) refl, (ib, covers))
    set_component_id-Numbers (binop_expr b oper lhs rhs) calm n =
        let (b', eb, ib) = base-IsNumbered _ b calm.0 n in
        let (x1, k1, e1, h1) = set_component_id-Numbers lhs calm.1 (n + 1) in
        let (x2, k2, e2, h2) = set_component_id-Numbers rhs calm.2 k1 in
        (
          binop_expr b' oper x1 x2,
          k2,
          rw (eb, e1, e2) refl,
          (ib, two-Covers x1 x2 (n + 1) k1 k2 h1 h2),
        )
    set_component_id-Numbers (case_expr b condition true_expr false_expr) calm n =
        let (b', eb, ib) = base-IsNumbered _ b calm.0 n in
        let (x1, k1, e1, h1) = set_component_id-Numbers condition calm.1 (n + 1) in
        let (x2, k2, e2, h2) = set_component_id-Numbers true_expr calm.2 k1 in
        let (x3, k3, e3, h3) = set_component_id-Numbers false_expr calm.3 k2 in
        (
          case_expr b' x1 x2 x3,
          k3,
          rw (eb, e1, e2, e3) refl,
          (
            ib,
            first_found-Covers (look_at x1) (λ i. first_found (look_at x2 i) (look_at x3 i)) (n + 1)
                k1 k3 (operand-Covers x1 (n + 1) k1 h1) (two-Covers x2 x3 k1 k2 k3 h2 h3),
          ),
        )
    set_component_id-Numbers (cast_expr b use_convert target inner) calm n =
        let (b', eb, ib) = base-IsNumbered _ b calm.0 n in
        let (x1, k1, e1, h1) = set_component_id-Numbers inner calm.1 (n + 1) in
        (
          cast_expr b' use_convert target x1,
          k1,
          rw (eb, e1) refl,
          (ib, operand-Covers x1 (n + 1) k1 h1),
        )
    set_component_id-Numbers (interval_expr b is_add unit date_expr amount) calm n =
        let (b', eb, ib) = base-IsNumbered _ b calm.0 n in
        let (x1, k1, e1, h1) = set_component_id-Numbers date_expr calm.1 (n + 1) in
        let (x2, k2, e2, h2) = set_component_id-Numbers amount calm.2 k1 in
        (
          interval_expr b' is_add unit x1 x2,
          k2,
          rw (eb, e1, e2) refl,
          (ib, two-Covers x1 x2 (n + 1) k1 k2 h1 h2),
        )
    set_component_id-Numbers (mysql_json_op b arrow json_path lhs) calm n =
        let (b', eb, ib) = base-IsNumbered _ b calm.0 n in
        let (x1, k1, e1, h1) = set_component_id-Numbers lhs calm.1 (n + 1) in
        (
          mysql_json_op b' arrow json_path x1,
          k1,
          rw (eb, e1) refl,
          (ib, operand-Covers x1 (n + 1) k1 h1),
        )
    set_component_id-Numbers (not_expr b inner) calm n =
        let (b', eb, ib) = base-IsNumbered _ b calm.0 n in
        let (x1, k1, e1, h1) = set_component_id-Numbers inner calm.1 (n + 1) in
        (not_expr b' x1, k1, rw (eb, e1) refl, (ib, operand-Covers x1 (n + 1) k1 h1))
    set_component_id-Numbers (null_predicate b is_null expr) calm n =
        let (b', eb, ib) = base-IsNumbered _ b calm.0 n in
        let (x1, k1, e1, h1) = set_component_id-Numbers expr calm.1 (n + 1) in
        (null_predicate b' is_null x1, k1, rw (eb, e1) refl, (ib, operand-Covers x1 (n + 1) k1 h1))
    set_component_id-Numbers (between_op b use_eq lhs mhs rhs) calm n =
        let (b', eb, ib) = base-IsNumbered _ b calm.0 n in
        let (x1, k1, e1, h1) = set_component_id-Numbers lhs calm.1 (n + 1) in
        let (x2, k2, e2, h2) = set_component_id-Numbers mhs calm.2 k1 in
        let (x3, k3, e3, h3) = set_component_id-Numbers rhs calm.3 k2 in
        (
          between_op b' use_eq x1 x2 x3,
          k3,
          rw (eb, e1, e2, e3) refl,
          (
            ib,
            first_found-Covers (look_at x1) (λ i. first_found (look_at x2 i) (look_at x3 i)) (n + 1)
                k1 k3 (operand-Covers x1 (n + 1) k1 h1) (two-Covers x2 x3 k1 k2 k3 h2 h3),
          ),
        )
    set_component_id-Numbers (like_op b operator format lhs) calm n =
        let (b', eb, ib) = base-IsNumbered _ b calm.0 n in
        let (x1, k1, e1, h1) = set_component_id-Numbers lhs calm.1 (n + 1) in
        (like_op b' operator format x1, k1, rw (eb, e1) refl, (ib, operand-Covers x1 (n + 1) k1 h1))
    set_component_id-Numbers (bool_term b true is_or lhs rhs) calm n = cc
    set_component_id-Numbers (bool_term b false is_or lhs rhs) calm n =
        let (b', eb, ib) = base-IsNumbered _ b calm.0 n in
        let (x1, k1, e1, h1) = set_component_id-Numbers lhs calm.1 (n + 1) in
        let (x2, k2, e2, h2) = set_component_id-Numbers rhs calm.2 k1 in
        (
          bool_term b' false is_or x1 x2,
          k2,
          rw (eb, e1, e2) refl,
          (ib, two-Covers x1 x2 (n + 1) k1 k2 h1 h2),
        )
    set_component_id-Numbers (comparison_op b oper lhs rhs) calm n =
        let (b', eb, ib) = base-IsNumbered _ b calm.0 n in
        let (x1, k1, e1, h1) = set_component_id-Numbers lhs calm.1 (n + 1) in
        let (x2, k2, e2, h2) = set_component_id-Numbers rhs calm.2 k1 in
        (
          comparison_op b' oper x1 x2,
          k2,
          rw (eb, e1, e2) refl,
          (ib, two-Covers x1 x2 (n + 1) k1 k2 h1 h2),
        )
    set_component_id-Numbers (distinct_pred b lhs rhs) calm n =
        let (b', eb, ib) = base-IsNumbered _ b calm.0 n in
        let (x1, k1, e1, h1) = set_component_id-Numbers lhs calm.1 (n + 1) in
        let (x2, k2, e2, h2) = set_component_id-Numbers rhs calm.2 k1 in
        (
          distinct_pred b' x1 x2,
          k2,
          rw (eb, e1, e2) refl,
          (ib, two-Covers x1 x2 (n + 1) k1 k2 h1 h2),
        )
    set_component_id-Numbers (comp_subquery b comp_op lhs query) calm n =
        let (b', eb, ib) = base-IsNumbered _ b calm.0 n in
        let (x1, k1, e1, h1) = set_component_id-Numbers lhs calm.1 (n + 1) in
        let (q, m, e2, covers) = query-Numbers query calm.2 k1 in
        (
          comp_subquery b' comp_op x1 q,
          m,
          rw (eb, e1, e2) refl,
          (
            ib,
            first_found-Covers_later (look_at x1) (λ i. get_component_from_id_query i q) (n + 1) k1
                m (operand-Covers x1 (n + 1) k1 h1) covers,
          ),
        )

    query-Numbers :
        (q : Subquery)
        → IsCalmQuery db q
        → (n : ℕ)
        → (q' : Subquery) × (m : ℕ) × (set_component_id_query q n ≡ ok (q', m))
          × Covers (λ k. get_component_from_id_query k q') n m
    query-Numbers (query_spec before after search) calm n =
        let (x1, k1, e1, h1) = set_component_id-Numbers search calm.0 n in
        (query_spec before after x1, k1, rw e1 refl, operand-Covers x1 n k1 h1)
    query-Numbers (unioned_query before middle after left right) calm n =
        let (x1, k1, e1, h1) = set_component_id-Numbers left calm.0 n in
        let (x2, k2, e2, h2) = set_component_id-Numbers right calm.1 k1 in
        (
          unioned_query before middle after x1 x2,
          k2,
          rw (e1, e2) refl,
          two-Covers x1 x2 n k1 k2 h1 h2,
        )

    list-Numbers :
        (es : ValueExprs)
        → AreCalm db es
        → (n : ℕ)
        → (es' : ValueExprs) × (m : ℕ) × (set_component_id_list es n ≡ ok (es', m))
          × Covers (λ k. get_component_from_id_list k es') n m
    list-Numbers no_expr calm n = (no_expr, n, refl, none-Covers n)
    list-Numbers (more_expr expr exprs) calm n =
        let (x1, k1, e1, h1) = set_component_id-Numbers expr calm.0 n in
        let (xs, m, run, covers) = list-Numbers exprs calm.1 k1 in
        (
          more_expr x1 xs,
          m,
          rw (e1, run) refl,
          first_found-Covers (look_at x1) (λ k. get_component_from_id_list k xs) n k1 m
              (operand-Covers x1 n k1 h1) covers,
        )

  -- For a calm expression `set_component_id` returns; the expression has the number it was called
  -- with, and `get_component_from_id` finds for each number after it, and below the number that the
  -- call leaves behind, a component that has this number, and for no other number anything.
  pub set_component_id-IsNumbered :
      (e : ValueExpr)
      → IsCalm db e
      → (n : ℕ)
      → (e' : ValueExpr) × (m : ℕ) × (set_component_id e n ≡ ok (e', m)) × IsNumbered n m e'
  set_component_id-IsNumbered e calm n = set_component_id-Numbers e calm n
