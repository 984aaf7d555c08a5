-- ===== src/Txcheck/Analyzer/NoSelf.antt =====
-- No transaction comes to depend on itself, whatever the outputs are.
pub mod Whole
pub mod Constructor
use dbfuzz_multidb.Common.{
  ℤ, ◌+◌, ◌-◌, ◌||◌, text_eq, ◌==◌, ℕ, ◌≡◌, refl, subst, Bool, true, false, List, [], ◌∷◌, arith,
  if◌then◌else◌, range, Bool-cases, inl, inr, Option, none, some,
}
use dbfuzz_multidb.Txcheck.Usage.{
  has_type, before_write_read, after_write_read, update_write, insert_write, delete_write,
}
use dbfuzz_multidb.Txcheck.Result.{
  ensure, instrument_err, Result, ok, throw, ◌>>=◌, >>=-eq-ok, ok-injective, fold_result,
  fold_result-keeps,
}
use dbfuzz_multidb.Txcheck.Analyzer.{
  version_set_depend, overwrite_depend, Analyzer, Index, StmtOutput, add_txn_edge, write_read,
  write_write, read_write, DependencyType, OperateUnit, build_stmt_depend_from_stmt_idx,
  insert_txn_dependency,
}
use dbfuzz_multidb.Txcheck.Analyzer.Item.{
  build_overwrite_dependency, depend_stmts, depend_found, depend_ops, depend_reads, is_read_of,
  build_wr_dependency, build_ww_dependency, build_rw_dependency, build_item_dependency,
  nearest_write,
}
use dbfuzz_multidb.Txcheck.Analyzer.Instrument.{usage_of, tid_of}
use dbfuzz_multidb.Txcheck.Analyzer.Predicate.{
  ow_inserted_rows, vs_deleted_rows, PvPair, vs_changed, vs_deleted, ow_changed, ow_inserted,
  after_read, before_read, previous, output_at, pairs_meet, keys_meet, both_named, depend_predicate,
  vs_stmt, ow_stmt, build_vs_dependency, build_ow_dependency, original_index, primary_set,
  pv_pair_set,
}

-- No transaction depends on itself.
abbrev pub NoSelf : Analyzer → Type 0
NoSelf da = (a : ℕ) (dt : DependencyType) → da.dependency_graph a a dt ≡ false

-- What a function returns, if it returns, is such an analyzer.
abbrev pub Keeps : Result Analyzer → Type 0
Keeps m = (t : Analyzer) → m ≡ ok t → NoSelf t

pub Keeps-ok : (s : Analyzer) → NoSelf s → Keeps (ok s)
Keeps-ok s p t e = subst NoSelf (ok-injective e) p

pub Keeps-after {ℓ} :
    {A : Type ℓ} (m : Result A) (f : A → Result Analyzer)
    → ((a : A) → Keeps (f a))
    → Keeps (m >>= f)
Keeps-after (ok a) f keep t e = keep a t e
Keeps-after (throw problem) f keep t e = cc

pub Keeps-then :
    (m : Result Analyzer) (f : Analyzer → Result Analyzer)
    → Keeps m
    → ((s : Analyzer) → NoSelf s → Keeps (f s))
    → Keeps (m >>= f)
Keeps-then (ok s) f first keep t e = keep s (first s refl) t e
Keeps-then (throw problem) f first keep t e = cc

pub Keeps-if :
    (b : Bool) (m m' : Result Analyzer) → Keeps m → Keeps m' → Keeps (if b then m else m')
Keeps-if true m m' p p' = p
Keeps-if false m m' p p' = p'

pub NoSelf-if : (b : Bool) (s s' : Analyzer) → NoSelf s → NoSelf s' → NoSelf (if b then s else s')
NoSelf-if true s s' p p' = p
NoSelf-if false s s' p p' = p'

-- An edge between different transactions.
insert-NoSelf :
    (i j : ℕ) (dt : DependencyType) (da : Analyzer) (c : ℕ) (d : DependencyType)
    → (i == j) ≡ false
    → NoSelf da
    → add_txn_edge i j dt da.dependency_graph c c d ≡ false
insert-NoSelf i j dt da c d ne p = ground (arith, p c d)

pub depend_predicate-NoSelf :
    (i j a b : ℕ) (dt : DependencyType) (da : Analyzer)
    → NoSelf da
    → NoSelf (depend_predicate i j a b dt da)
unfolding depend_predicate build_stmt_depend_from_stmt_idx insert_txn_dependency
depend_predicate-NoSelf i j a b dt da p c d = elim (Bool-cases (i == j)) [
  | inl e ↦ rw e (p c d)
  | inr e ↦ rw e (insert-NoSelf i j dt da c d e p)
]

depend_stmts-NoSelf :
    (a b : Index) (dt : DependencyType) (da : Analyzer)
    → NoSelf da
    → NoSelf (depend_stmts a b dt da)
unfolding build_stmt_depend_from_stmt_idx
depend_stmts-NoSelf none b dt da p = p
depend_stmts-NoSelf (some a) none dt da p = p
depend_stmts-NoSelf (some a) (some b) dt da p = p

depend_ops-NoSelf :
    (source target : OperateUnit) (dt : DependencyType) (da : Analyzer)
    → NoSelf da
    → NoSelf (depend_ops source target dt da)
unfolding depend_ops insert_txn_dependency
depend_ops-NoSelf source target dt da p c d = elim (Bool-cases (source.tid == target.tid)) [
  | inl e ↦ rw e (depend_stmts-NoSelf source.stmt_idx target.stmt_idx dt da p c d)
  | inr e ↦ rw e (
      insert-NoSelf source.tid target.tid dt (depend_stmts source.stmt_idx target.stmt_idx dt da) c
        d e (depend_stmts-NoSelf source.stmt_idx target.stmt_idx dt da p))
]

depend_reads-NoSelf :
    (target : OperateUnit) (ops : List OperateUnit) (da : Analyzer)
    → NoSelf da
    → NoSelf (depend_reads target ops da)
unfolding depend_reads
depend_reads-NoSelf target [] da p = p
depend_reads-NoSelf target (op ∷ ops) da p =
    depend_reads-NoSelf target ops _
      (NoSelf-if (is_read_of target op) _ _ (depend_ops-NoSelf op target read_write da p) p)

depend_found-Keeps :
    (o : Option OperateUnit) (target : OperateUnit) (dt : DependencyType) (da : Analyzer)
    → NoSelf da
    → Keeps (depend_found o target dt da)
depend_found-Keeps none target dt da p t e = cc
depend_found-Keeps (some op) target dt da p t e =
    subst NoSelf (ok-injective e) (depend_ops-NoSelf op target dt da p)

module _ (ops : List OperateUnit) (i : ℕ) (op : OperateUnit) where
  overwrite-Keeps : (da : Analyzer) → NoSelf da → Keeps (build_overwrite_dependency ops i op da)
  unfolding build_ww_dependency build_rw_dependency
  overwrite-Keeps da p =
      Keeps-if (has_type op.stmt_u before_write_read)
        (build_ww_dependency ops op i da >>= build_rw_dependency ops op) (ok da) both
        (Keeps-ok da p)
    where
      both : Keeps (build_ww_dependency ops op i da >>= build_rw_dependency ops op)
      both t e =
          let (s, e1, h1) = >>=-eq-ok (build_ww_dependency ops op i da) _ e in
          let (_, e2, h2) = >>=-eq-ok (ensure (has_type op.stmt_u before_write_read) _) _ e1 in
          let (_, e3, h3) = >>=-eq-ok (ensure (has_type op.stmt_u before_write_read) _) _ h1 in
          let q = depend_found-Keeps (nearest_write ops op i) op write_write da p s h2 in
          subst NoSelf (ok-injective h3) (depend_reads-NoSelf op ops s q)

  pub build_item_dependency-Keeps :
      (da : Analyzer) → NoSelf da → Keeps (build_item_dependency ops i op da)
  unfolding build_item_dependency build_wr_dependency
  build_item_dependency-Keeps da p =
      Keeps-if (op.tid == da.tid_num - 1 || has_type op.stmt_u after_write_read) (ok da)
        (build_wr_dependency ops op i da >>= build_overwrite_dependency ops i op) (Keeps-ok da p)
        (Keeps-then (build_wr_dependency ops op i da) (build_overwrite_dependency ops i op)
          (depend_found-Keeps (nearest_write ops op i) op write_read da p) overwrite-Keeps)

-- The tests of a version read against one statement.
module _ (da : Analyzer) (i : ℕ) (pairs : List PvPair) (keys : List ℤ) (j : ℕ) (s : Analyzer)
    (p : NoSelf s) where
  vs_changed-Keeps : Keeps (vs_changed da i pairs j s)
  vs_changed-Keeps t e =
      let (u, e1, h1) = >>=-eq-ok (after_read da (j + 1)) _ e in
      let (rows, e2, h2) = >>=-eq-ok (output_at da (j + 1)) _ h1 in
      let (after, e3, h3) = >>=-eq-ok (pv_pair_set da rows) _ h2 in
      subst NoSelf (ok-injective h3) (
        NoSelf-if (pairs_meet pairs after) _ s
          (depend_predicate-NoSelf (tid_of da j) (tid_of da i) (j + 1) i version_set_depend s p) p)

  vs_deleted_rows-Keeps : (rows : StmtOutput) → Keeps (vs_deleted_rows da i keys j rows s)
  vs_deleted_rows-Keeps [] = Keeps-ok s p
  vs_deleted_rows-Keeps (row ∷ rows) = λ t e.
      let (before, e1, h1) = >>=-eq-ok (primary_set da (row ∷ rows)) _ e in
      subst NoSelf (ok-injective h1) (
        NoSelf-if (keys_meet keys before) s _ p
          (depend_predicate-NoSelf (tid_of da j) (tid_of da i) j i version_set_depend s p))

  vs_deleted-Keeps : Keeps (vs_deleted da i keys j s)
  vs_deleted-Keeps t e =
      let (before_idx, e1, h1) = >>=-eq-ok (previous j) _ e in
      let (u, e2, h2) = >>=-eq-ok (before_read da before_idx) _ h1 in
      let (_, e3, h3) = >>=-eq-ok (ensure (both_named u (usage_of da i)) instrument_err) _ h2 in
      let (rows, e4, h4) = >>=-eq-ok (output_at da before_idx) _ h3 in
      Keeps-if (text_eq u.target_table (usage_of da i).target_table)
        (vs_deleted_rows da i keys j rows s) (ok s) (vs_deleted_rows-Keeps rows) (Keeps-ok s p) t h4

  pub vs_stmt-Keeps : Keeps (vs_stmt da i pairs keys j s)
  unfolding vs_stmt
  vs_stmt-Keeps =
      Keeps-if (has_type (usage_of da j) update_write || has_type (usage_of da j) insert_write)
        (vs_changed da i pairs j s)
        (if has_type (usage_of da j) delete_write then vs_deleted da i keys j s else ok s)
        vs_changed-Keeps
        (Keeps-if (has_type (usage_of da j) delete_write) (vs_deleted da i keys j s) (ok s)
          vs_deleted-Keeps (Keeps-ok s p))
