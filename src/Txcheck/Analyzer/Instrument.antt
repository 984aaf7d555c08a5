-- ===== src/Txcheck/Analyzer/Instrument.antt =====
-- The dependencies between a statement and the reads that the instrumentor put around it:
-- `build_stmt_instrument_dependency` of src/txcheck/dependency_analyzer.cc.
use dbfuzz_multidb.Common.{
  ℕ, zero, suc, ◌+◌, ◌-◌, Bool, false, ◌||◌, ◌==◌, ltb, leb, if◌then◌else◌, get_or, range,
}
use dbfuzz_multidb.Txcheck.Usage.{
  StmtUsage, usage, has_type, init_type, select_read, update_write, insert_write, delete_write,
  before_write_read, after_write_read, version_set_read,
}
use dbfuzz_multidb.Txcheck.Result.{
  Result, ok, throw, ensure, fold_result, instrument_err, ◌>>=◌, ◌>>◌,
}
use dbfuzz_multidb.Txcheck.Analyzer.{Analyzer, instrument_depend, build_stmt_depend_from_stmt_idx}

-- One of the four statements of the test case itself.
abbrev pub is_normal : StmtUsage → Bool
is_normal u =
    has_type u select_read
    || has_type u update_write
    || has_type u delete_write
    || has_type u insert_write

-- `f_stmt_usage[i]` and `f_txn_id_queue[i]`, which are read below `stmt_num`.
abbrev pub usage_of : Analyzer → ℕ → StmtUsage
usage_of da i = get_or da.f_stmt_usage i (usage init_type false)

abbrev pub tid_of : Analyzer → ℕ → ℕ
tid_of da i = get_or da.f_txn_id_queue i 0

-- The `while` loop of a VERSION_SET_READ, with `left` statements from `normal_pos` on.
unfoldable pub find_normal : Analyzer → ℕ → ℕ → ℕ → Result ℕ
find_normal da cur_tid zero normal_pos = throw instrument_err
find_normal da cur_tid (suc left) normal_pos =
    let rest = find_normal da cur_tid left (suc normal_pos) in
    if tid_of da normal_pos == cur_tid
    then (if is_normal (usage_of da normal_pos) then ok normal_pos else rest)
    else throw instrument_err

abbrev pub before_write_case : Analyzer → ℕ → Analyzer → Result Analyzer
before_write_case da i s = do
  ensure (ltb (i + 1) da.stmt_num) instrument_err
  ensure (tid_of da (i + 1) == tid_of da i) instrument_err
  ensure
      (has_type (usage_of da (i + 1)) update_write || has_type (usage_of da (i + 1)) delete_write)
      instrument_err
  ok (build_stmt_depend_from_stmt_idx i (i + 1) instrument_depend s)

abbrev pub after_write_case : Analyzer → ℕ → Analyzer → Result Analyzer
after_write_case da i s = do
  ensure (leb 1 i) instrument_err
  ensure (tid_of da (i - 1) == tid_of da i) instrument_err
  ensure
      (has_type (usage_of da (i - 1)) update_write || has_type (usage_of da (i - 1)) insert_write)
      instrument_err
  ok (build_stmt_depend_from_stmt_idx (i - 1) i instrument_depend s)

abbrev pub version_set_case : Analyzer → ℕ → Analyzer → Result Analyzer
version_set_case da i s = do
  normal_pos ← find_normal da (tid_of da i) (da.stmt_num - (i + 1)) (i + 1)
  ok (build_stmt_depend_from_stmt_idx i normal_pos instrument_depend s)

-- The body of the loop: `da` gives the queue, `s` is the state that grows.
unfoldable pub instrument_stmt : Analyzer → ℕ → Analyzer → Result Analyzer
unfolding find_normal build_stmt_depend_from_stmt_idx
instrument_stmt da i s =
    if has_type (usage_of da i) before_write_read
    then before_write_case da i s
    else if has_type (usage_of da i) after_write_read
    then after_write_case da i s
    else if has_type (usage_of da i) version_set_read
    then version_set_case da i s
    else ok s

unfoldable pub build_stmt_instrument_dependency : Analyzer → Result Analyzer
unfolding instrument_stmt
build_stmt_instrument_dependency da = fold_result (instrument_stmt da) (range 0 da.stmt_num) da
