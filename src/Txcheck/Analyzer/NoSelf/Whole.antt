-- ===== src/Txcheck/Analyzer/NoSelf/Whole.antt =====
-- The dependencies between rows and versions leave no transaction dependent on itself.
use dbfuzz_multidb.Common.{
  ℕ, suc, ℤ, ◌+◌, ◌||◌, subst, List, [], ◌∷◌, if◌then◌else◌, range, text_eq,
}
use dbfuzz_multidb.Txcheck.Usage.{
  has_type, update_write, insert_write, delete_write, version_set_read,
}
use dbfuzz_multidb.Txcheck.Result.{
  ok, ensure, instrument_err, >>=-eq-ok, ok-injective, fold_result-keeps,
}
use dbfuzz_multidb.Txcheck.Analyzer.{Analyzer, StmtOutput, OperateUnit, overwrite_depend}
use dbfuzz_multidb.Txcheck.Analyzer.Item.{build_item_dependency}
use dbfuzz_multidb.Txcheck.Analyzer.Instrument.{usage_of, tid_of}
use dbfuzz_multidb.Txcheck.Analyzer.Predicate.{
  PvPair, ow_changed, ow_inserted, ow_inserted_rows, after_read, before_read, previous, output_at,
  pairs_meet, keys_meet, both_named, vs_read, ow_read, vs_stmt, ow_stmt, build_vs_dependency,
  build_ow_dependency, original_index, primary_set, pv_pair_set,
}
use dbfuzz_multidb.Txcheck.Analyzer.Construct.{item_ops, build_item_dependencies}
use dbfuzz_multidb.Txcheck.Analyzer.NoSelf.{
  NoSelf, NoSelf-if, Keeps, Keeps-ok, Keeps-if, depend_predicate-NoSelf,
  build_item_dependency-Keeps, vs_stmt-Keeps,
}

module _ (da : Analyzer) (i original : ℕ) (pairs : List PvPair) (keys : List ℤ) (j : ℕ)
    (s : Analyzer) (p : NoSelf s) where
  ow_changed-Keeps : Keeps (ow_changed da i original pairs j s)
  ow_changed-Keeps t e =
      let (before_idx, e1, h1) = >>=-eq-ok (previous j) _ e in
      let (u, e2, h2) = >>=-eq-ok (before_read da before_idx) _ h1 in
      let (rows, e3, h3) = >>=-eq-ok (output_at da before_idx) _ h2 in
      let (before, e4, h4) = >>=-eq-ok (pv_pair_set da rows) _ h3 in
      subst NoSelf (ok-injective h4) (
        NoSelf-if (pairs_meet pairs before) _ s
          (depend_predicate-NoSelf (tid_of da i) (tid_of da j) original before_idx overwrite_depend
            s p)
          p)

  ow_inserted_rows-Keeps :
      (rows : StmtOutput) → Keeps (ow_inserted_rows da i original keys j rows s)
  ow_inserted_rows-Keeps [] = Keeps-ok s p
  ow_inserted_rows-Keeps (row ∷ rows) = λ t e.
      let (after, e1, h1) = >>=-eq-ok (primary_set da (row ∷ rows)) _ e in
      subst NoSelf (ok-injective h1) (
        NoSelf-if (keys_meet keys after) s _ p
          (depend_predicate-NoSelf (tid_of da i) (tid_of da j) original j overwrite_depend s p))

  ow_inserted-Keeps : Keeps (ow_inserted da i original keys j s)
  ow_inserted-Keeps t e =
      let (u, e1, h1) = >>=-eq-ok (after_read da (j + 1)) _ e in
      let (_, e2, h2) = >>=-eq-ok (ensure (both_named u (usage_of da i)) instrument_err) _ h1 in
      let (rows, e3, h3) = >>=-eq-ok (output_at da (j + 1)) _ h2 in
      Keeps-if (text_eq u.target_table (usage_of da i).target_table)
        (ow_inserted_rows da i original keys j rows s) (ok s) (ow_inserted_rows-Keeps rows)
        (Keeps-ok s p) t h3

  ow_stmt-Keeps : Keeps (ow_stmt da i original pairs keys j s)
  unfolding ow_stmt
  ow_stmt-Keeps =
      Keeps-if (has_type (usage_of da j) update_write || has_type (usage_of da j) delete_write)
        (ow_changed da i original pairs j s)
        (if has_type (usage_of da j) insert_write then ow_inserted da i original keys j s else ok s)
        ow_changed-Keeps
        (Keeps-if (has_type (usage_of da j) insert_write) (ow_inserted da i original keys j s)
          (ok s) ow_inserted-Keeps (Keeps-ok s p))

module _ (da : Analyzer) where
  vs_read-Keeps : (i : ℕ) (s : Analyzer) → NoSelf s → Keeps (vs_read da i s)
  vs_read-Keeps i s p t e =
      let (rows, e1, h1) = >>=-eq-ok (output_at da i) _ e in
      let (pairs, e2, h2) = >>=-eq-ok (pv_pair_set da rows) _ h1 in
      let (keys, e3, h3) = >>=-eq-ok (primary_set da rows) _ h2 in
      fold_result-keeps NoSelf (vs_stmt da i pairs keys)
        (λ j u v k q. vs_stmt-Keeps da i pairs keys j u q v k) (range 0 da.stmt_num) s t h3 p

  ow_read-Keeps : (i : ℕ) (s : Analyzer) → NoSelf s → Keeps (ow_read da i s)
  ow_read-Keeps i s p t e =
      let (rows, e1, h1) = >>=-eq-ok (output_at da i) _ e in
      let (pairs, e2, h2) = >>=-eq-ok (pv_pair_set da rows) _ h1 in
      let (keys, e3, h3) = >>=-eq-ok (primary_set da rows) _ h2 in
      let (original, e4, h4) = >>=-eq-ok (original_index da i) _ h3 in
      fold_result-keeps NoSelf (ow_stmt da i original pairs keys)
        (λ j u v k q. ow_stmt-Keeps da i original pairs keys j u q v k) (range 0 da.stmt_num) s t h4
        p

  pub build_vs_dependency-Keeps : NoSelf da → Keeps (build_vs_dependency da)
  unfolding build_vs_dependency
  build_vs_dependency-Keeps p t e =
      fold_result-keeps NoSelf _
        (λ i u v k q.
          Keeps-if (has_type (usage_of da i) version_set_read) (vs_read da i u) (ok u)
            (vs_read-Keeps i u q) (Keeps-ok u q) v k)
        (range 0 da.stmt_num) da t e p

  pub build_ow_dependency-Keeps : NoSelf da → Keeps (build_ow_dependency da)
  unfolding build_ow_dependency
  build_ow_dependency-Keeps p t e =
      fold_result-keeps NoSelf _
        (λ i u v k q.
          Keeps-if (has_type (usage_of da i) version_set_read) (ow_read da i u) (ok u)
            (ow_read-Keeps i u q) (Keeps-ok u q) v k)
        (range 0 da.stmt_num) da t e p

item_ops-Keeps :
    (op_list : List OperateUnit) (i : ℕ) (ops : List OperateUnit) (da : Analyzer)
    → NoSelf da
    → Keeps (item_ops op_list i ops da)
item_ops-Keeps op_list i [] da p = Keeps-ok da p
item_ops-Keeps op_list i (op ∷ ops) da p = λ t e.
    let (s, e1, h1) = >>=-eq-ok (build_item_dependency op_list i op da) _ e in
    item_ops-Keeps op_list (suc i) ops s (build_item_dependency-Keeps op_list i op da p s e1) t h1

pub build_item_dependencies-Keeps : (da : Analyzer) → NoSelf da → Keeps (build_item_dependencies da)
unfolding build_item_dependencies
build_item_dependencies-Keeps da p t e =
    fold_result-keeps NoSelf _
      (λ rch u v k q. item_ops-Keeps rch.row_op_list 0 rch.row_op_list u q v k) da.change_history da
      t e p
