-- ===== src/Txcheck/Analyzer/Item.antt =====
-- The item dependencies: `build_WR_dependency`, `build_RW_dependency` and `build_WW_dependency` of
-- src/txcheck/dependency_analyzer.cc. `op_list[op_idx]` is given as `target`.
use dbfuzz_multidb.Common.{
  ℕ, zero, suc, ◌-◌, Bool, false, ◌&&◌, ◌||◌, ◌==◌, List, [], ◌∷◌, Option, none, some,
  if◌then◌else◌, int_eq, get_elem?,
}
use dbfuzz_multidb.Txcheck.Usage.{has_type, select_read, before_write_read, after_write_read}
use dbfuzz_multidb.Txcheck.Result.{
  Result, ok, throw, ensure, cannot_find_write, not_before_write_read, ◌>>=◌, ◌>>◌,
}
use dbfuzz_multidb.Txcheck.Analyzer.{
  Analyzer, OperateUnit, Index, DependencyType, write_read, write_write, read_write,
  build_stmt_depend_from_stmt_idx, insert_txn_dependency,
}

-- `if (source.stmt_idx >= 0 && target.stmt_idx >= 0) build_stmt_depend_from_stmt_idx(…)`
abbrev pub depend_stmts : Index → Index → DependencyType → Analyzer → Analyzer
depend_stmts (some a) (some b) dt da = build_stmt_depend_from_stmt_idx a b dt da
depend_stmts _ _ dt da = da

-- Both edges from a found operation to the target operation.
unfoldable pub depend_ops : OperateUnit → OperateUnit → DependencyType → Analyzer → Analyzer
unfolding build_stmt_depend_from_stmt_idx insert_txn_dependency
depend_ops source target dt da =
    let da' = depend_stmts source.stmt_idx target.stmt_idx dt da in
    if source.tid == target.tid then da' else insert_txn_dependency source.tid target.tid dt da'

-- An AFTER_WRITE_READ that saw the very row that the target saw.
abbrev pub is_write_of : OperateUnit → OperateUnit → Bool
is_write_of target op = has_type op.stmt_u after_write_read && op.hash == target.hash

abbrev op_passes : (OperateUnit → Bool) → Option OperateUnit → Bool
op_passes p none = false
op_passes p (some op) = p op

-- `for (i = op_idx - 1; i >= 0; i--)`: the nearest such operation before `op_idx`.
unfoldable pub nearest_write : List OperateUnit → OperateUnit → ℕ → Option OperateUnit
nearest_write op_list target zero = none
nearest_write op_list target (suc i) =
    let rest = nearest_write op_list target i in
    if op_passes (is_write_of target) (get_elem? op_list i) then get_elem? op_list i else rest

abbrev pub depend_found :
    Option OperateUnit → OperateUnit → DependencyType → Analyzer → Result Analyzer
depend_found none target dt da = throw cannot_find_write
depend_found (some op) target dt da = ok (depend_ops op target dt da)

unfoldable pub build_wr_dependency : List OperateUnit → OperateUnit → ℕ → Analyzer → Result Analyzer
unfolding nearest_write
build_wr_dependency op_list target op_idx da =
    depend_found (nearest_write op_list target op_idx) target write_read da

unfoldable pub build_ww_dependency : List OperateUnit → OperateUnit → ℕ → Analyzer → Result Analyzer
unfolding nearest_write
build_ww_dependency op_list target op_idx da = do
  ensure (has_type target.stmt_u before_write_read) not_before_write_read
  depend_found (nearest_write op_list target op_idx) target write_write da

-- A read of the version that the target overwrites.
abbrev pub is_read_of : OperateUnit → OperateUnit → Bool
is_read_of target op =
    (has_type op.stmt_u select_read || has_type op.stmt_u after_write_read)
    && int_eq op.write_op_id target.write_op_id

-- The loop of `build_RW_dependency` over the whole list, with no break.
unfoldable pub depend_reads : OperateUnit → List OperateUnit → Analyzer → Analyzer
unfolding depend_ops
depend_reads target [] da = da
depend_reads target (op ∷ ops) da =
    depend_reads target ops
      (if is_read_of target op then depend_ops op target read_write da else da)

unfoldable pub build_rw_dependency : List OperateUnit → OperateUnit → Analyzer → Result Analyzer
unfolding depend_reads
build_rw_dependency op_list target da = do
  ensure (has_type target.stmt_u before_write_read) not_before_write_read
  ok (depend_reads target op_list da)

-- What a BEFORE_WRITE_READ adds to its read dependency.
abbrev pub build_overwrite_dependency :
    List OperateUnit → ℕ → OperateUnit → Analyzer → Result Analyzer
build_overwrite_dependency op_list op_idx op_unit da =
    if has_type op_unit.stmt_u before_write_read
    then build_ww_dependency op_list op_unit op_idx da >>= build_rw_dependency op_list op_unit
    else ok da

-- The body of the constructor's loop over the operations of one row.
unfoldable pub build_item_dependency :
    List OperateUnit → ℕ → OperateUnit → Analyzer → Result Analyzer
unfolding build_wr_dependency build_ww_dependency build_rw_dependency
build_item_dependency op_list op_idx op_unit da =
    if op_unit.tid == da.tid_num - 1 || has_type op_unit.stmt_u after_write_read
    then ok da
    else build_wr_dependency op_list op_unit op_idx da
      >>= build_overwrite_dependency op_list op_idx op_unit
