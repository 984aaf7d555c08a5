-- ===== src/Txcheck/Analyzer/NoSelf/Constructor.antt =====
-- The constructor of `dependency_analyzer` leaves no transaction dependent on itself.
use dbfuzz_multidb.Common.{
  ℕ, suc, ◌+◌, ◌-◌, ◌||◌, ◌&&◌, ◌==◌, ◌≡◌, refl, subst, inl, inr, ◌∙◌, false, List, [], ◌∷◌, ltb,
  leb, if◌then◌else◌, range, length, none, some, get_or, Bool-cases,
}
use dbfuzz_multidb.Txcheck.Usage.{
  StmtUsage, TxnStatus, has_type, usage, before_write_read, after_write_read, update_write,
  insert_write, delete_write, version_set_read,
}
use dbfuzz_multidb.Txcheck.Result.{
  ok, ensure, instrument_err, size_mismatch, >>=-eq-ok, ok-injective, fold_result,
  fold_result-keeps,
}
use dbfuzz_multidb.Txcheck.Analyzer.{
  Analyzer, Index, StmtOutput, RowOutput, build_stmt_depend_from_stmt_idx, inner_depend,
}
use dbfuzz_multidb.Txcheck.Analyzer.History.{row_key}
use dbfuzz_multidb.Txcheck.Analyzer.Order.{build_start_dependency, build_stmt_inner_dependency}
use dbfuzz_multidb.Txcheck.Analyzer.Order.Edges.{
  depends, for_each-same, build_start_dependency-outside,
}
use dbfuzz_multidb.Txcheck.Analyzer.Instrument.{
  usage_of, tid_of, find_normal, before_write_case, after_write_case, version_set_case,
  instrument_stmt, build_stmt_instrument_dependency,
}
use dbfuzz_multidb.Txcheck.Analyzer.Predicate.{build_vs_dependency, build_ow_dependency}
use dbfuzz_multidb.Txcheck.Analyzer.Construct.{
  record_row, record_init, record_stmts, build_item_dependencies, blank_analyzer,
  build_dependencies, dependency_analyzer,
}
use dbfuzz_multidb.Txcheck.Analyzer.NoSelf.{NoSelf, Keeps, Keeps-ok, Keeps-if}
use dbfuzz_multidb.Txcheck.Analyzer.NoSelf.Whole.{
  build_item_dependencies-Keeps, build_vs_dependency-Keeps, build_ow_dependency-Keeps,
}

module _ (da : Analyzer) (i : ℕ) (s : Analyzer) (p : NoSelf s) where
  before_write-Keeps : Keeps (before_write_case da i s)
  unfolding build_stmt_depend_from_stmt_idx
  before_write-Keeps t e =
      let (_, e1, h1) = >>=-eq-ok (ensure (ltb (i + 1) da.stmt_num) instrument_err) _ e in
      let (_, e2, h2) = >>=-eq-ok (ensure (tid_of da (i + 1) == tid_of da i) instrument_err) _ h1 in
      let (_, e3, h3) =
        >>=-eq-ok
          (ensure
            (has_type (usage_of da (i + 1)) update_write
              || has_type (usage_of da (i + 1)) delete_write)
            instrument_err)
          _ h2 in
      subst NoSelf (ok-injective h3) p

  after_write-Keeps : Keeps (after_write_case da i s)
  unfolding build_stmt_depend_from_stmt_idx
  after_write-Keeps t e =
      let (_, e1, h1) = >>=-eq-ok (ensure (leb 1 i) instrument_err) _ e in
      let (_, e2, h2) = >>=-eq-ok (ensure (tid_of da (i - 1) == tid_of da i) instrument_err) _ h1 in
      let (_, e3, h3) =
        >>=-eq-ok
          (ensure
            (has_type (usage_of da (i - 1)) update_write
              || has_type (usage_of da (i - 1)) insert_write)
            instrument_err)
          _ h2 in
      subst NoSelf (ok-injective h3) p

  version_set-Keeps : Keeps (version_set_case da i s)
  unfolding build_stmt_depend_from_stmt_idx
  version_set-Keeps t e =
      let (k, e1, h1) =
        >>=-eq-ok (find_normal da (tid_of da i) (da.stmt_num - (i + 1)) (i + 1)) _ e in
      subst NoSelf (ok-injective h1) p

  instrument_stmt-Keeps : Keeps (instrument_stmt da i s)
  unfolding instrument_stmt
  instrument_stmt-Keeps =
      Keeps-if (has_type (usage_of da i) before_write_read) _ _ before_write-Keeps (
        Keeps-if (has_type (usage_of da i) after_write_read) _ _ after_write-Keeps (
          Keeps-if (has_type (usage_of da i) version_set_read) _ _ version_set-Keeps
            (Keeps-ok s p)))

build_stmt_inner-NoSelf : (da : Analyzer) → NoSelf da → NoSelf (build_stmt_inner_dependency da)
unfolding build_stmt_inner_dependency build_stmt_depend_from_stmt_idx
build_stmt_inner-NoSelf da p a dt =
    for_each-same (depends a a dt) _
      (λ i s. for_each-same (depends a a dt) _ (λ j t. one i j t) (range 0 i) s)
      (range 0 da.stmt_num) da
    ∙ p a dt
  where
    one :
        (i j : ℕ) (t : Analyzer)
        → depends a a dt (
            if get_or da.f_txn_id_queue j 0 == get_or da.f_txn_id_queue i 0
            then build_stmt_depend_from_stmt_idx j i inner_depend t
            else t)
          ≡ depends a a dt t
    one i j t = elim (Bool-cases (get_or da.f_txn_id_queue j 0 == get_or da.f_txn_id_queue i 0)) [
      | inl e ↦ rw e
      | inr e ↦ rw e
    ]

build_dependencies-Keeps : (da : Analyzer) → NoSelf da → Keeps (build_dependencies da)
unfolding build_dependencies build_stmt_instrument_dependency
build_dependencies-Keeps da p t e =
    let (s1, e1, h1) = >>=-eq-ok (build_stmt_instrument_dependency da) _ e in
    let p1 =
      fold_result-keeps NoSelf (instrument_stmt da)
        (λ i u v k q. instrument_stmt-Keeps da i u q v k) (range 0 da.stmt_num) da s1 e1 p in
    let (s2, e2, h2) = >>=-eq-ok (build_item_dependencies s1) _ h1 in
    let p2 = build_item_dependencies-Keeps s1 p1 s2 e2 in
    let p3 : NoSelf (build_start_dependency s2) =
      λ a dt. build_start_dependency-outside s2 a a dt (inl (inl refl)) ∙ p2 a dt in
    let (s4, e4, h4) = >>=-eq-ok (build_vs_dependency (build_start_dependency s2)) _ h2 in
    let p4 = build_vs_dependency-Keeps (build_start_dependency s2) p3 s4 e4 in
    let (s5, e5, h5) = >>=-eq-ok (build_ow_dependency s4) _ h4 in
    let p5 = build_ow_dependency-Keeps s4 p4 s5 e5 in
    subst NoSelf (ok-injective h5) (build_stmt_inner-NoSelf s5 p5)

record_row-Keeps :
    (u : StmtUsage) (tid : ℕ) (stmt_idx : Index) (row : RowOutput) (da : Analyzer)
    → NoSelf da
    → Keeps (record_row u tid stmt_idx row da)
unfolding record_row
record_row-Keeps u tid stmt_idx row da p t e =
    let (row_id, e1, h1) = >>=-eq-ok (row_key da.primary_key_index row) _ e in
    let (write_op_id, e2, h2) = >>=-eq-ok (row_key da.version_key_index row) _ h1 in
    subst NoSelf (ok-injective h2) p

rows-Keeps :
    (u : StmtUsage) (tid : ℕ) (stmt_idx : Index) (rows : StmtOutput) (da : Analyzer)
    → NoSelf da
    → Keeps (fold_result (record_row u tid stmt_idx) rows da)
rows-Keeps u tid stmt_idx rows da p t e =
    fold_result-keeps NoSelf (record_row u tid stmt_idx)
      (λ row s v k q. record_row-Keeps u tid stmt_idx row s q v k) rows da t e p

record_stmts-Keeps :
    (i : ℕ) (outputs : List StmtOutput) (da : Analyzer)
    → NoSelf da
    → Keeps (record_stmts i outputs da)
record_stmts-Keeps i [] da p = Keeps-ok da p
record_stmts-Keeps i (rows ∷ outputs) da p = λ t e.
    let (s, e1, h1) =
      >>=-eq-ok (fold_result (record_row (usage_of da i) (tid_of da i) (some i)) rows da) _ e in
    record_stmts-Keeps (suc i) outputs s
      (rows-Keeps (usage_of da i) (tid_of da i) (some i) rows da p s e1) t h1

-- In the analyzer that the constructor returns no transaction depends on itself, in any of the kinds
-- of dependency and whatever the outputs are.
pub dependency_analyzer-NoSelf :
    (init_output total_output : List StmtOutput) (final_tid_queue : List ℕ)
    (final_stmt_usage : List StmtUsage) (final_txn_status : List TxnStatus)
    (t_num primary_key_idx write_op_key_idx : ℕ) (da : Analyzer)
    → dependency_analyzer init_output total_output final_tid_queue final_stmt_usage final_txn_status
        t_num primary_key_idx write_op_key_idx
      ≡ ok da
    → NoSelf da
unfolding dependency_analyzer
dependency_analyzer-NoSelf init_output total_output final_tid_queue final_stmt_usage
      final_txn_status t_num primary_key_idx write_op_key_idx da e =
    let (_, e0, h0) =
      >>=-eq-ok
        (ensure
          (length total_output == length final_tid_queue
            && length total_output == length final_stmt_usage)
          size_mismatch)
        _ e in
    let blank =
      blank_analyzer total_output final_tid_queue final_stmt_usage final_txn_status t_num
        primary_key_idx write_op_key_idx in
    let (filled, e1, h1) = >>=-eq-ok (fold_result record_init init_output blank) _ h0 in
    let p1 =
      fold_result-keeps NoSelf record_init
        (λ rows s v k q.
          rows-Keeps (usage after_write_read false) (s.tid_num - 1) none rows s q v k)
        init_output blank filled e1 (λ a dt. refl) in
    let (recorded, e2, h2) = >>=-eq-ok (record_stmts 0 total_output filled) _ h1 in
    build_dependencies-Keeps recorded (record_stmts-Keeps 0 total_output filled p1 recorded e2) da
      h2
