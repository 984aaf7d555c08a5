-- ===== src/Txcheck/Analyzer/Construct.antt =====
-- The constructor of `dependency_analyzer` (src/txcheck/dependency_analyzer.cc): it reads the rows
-- of all outputs into the history and then builds the dependencies in a fixed order.
use dbfuzz_multidb.Common.{
  ℕ, suc, ◌+◌, ◌-◌, ◌%◌, ◌^◌, false, ◌&&◌, ◌==◌, List, [], ◌∷◌, ◌++◌, Option, none, some, map,
  range, length,
}
use dbfuzz_multidb.Txcheck.Usage.{StmtUsage, TxnStatus, usage, txn_commit, after_write_read}
use dbfuzz_multidb.Txcheck.StmtId.{occurrences}
use dbfuzz_multidb.Txcheck.Result.{Result, ok, ensure, fold_result, size_mismatch, ◌>>=◌, ◌>>◌}
use dbfuzz_multidb.Txcheck.Analyzer.{
  Analyzer, RowOutput, StmtOutput, Index, OperateUnit, RowChangeHistory, no_deps,
}
use dbfuzz_multidb.Txcheck.Analyzer.History.{hash_output, insert_to_history, row_key}
use dbfuzz_multidb.Txcheck.Analyzer.Item.{build_item_dependency}
use dbfuzz_multidb.Txcheck.Analyzer.Order.{
  set_at, build_start_dependency, build_stmt_inner_dependency,
}
use dbfuzz_multidb.Txcheck.Analyzer.Instrument.{usage_of, tid_of, build_stmt_instrument_dependency}
use dbfuzz_multidb.Txcheck.Analyzer.Predicate.{build_vs_dependency, build_ow_dependency}

-- `hash_to_output[hash] = row`: the key of the map is an `int`, so the hash is cut to 32 bits.
abbrev remember : ℕ → RowOutput → (ℕ → Option RowOutput) → ℕ → Option RowOutput
remember hash row = set_at (hash % 2 ^ 32) (some row)

-- The body of the loops over the rows of one output.
unfoldable pub record_row : StmtUsage → ℕ → Index → RowOutput → Analyzer → Result Analyzer
unfolding hash_output insert_to_history row_key
record_row u tid stmt_idx row da = do
  row_id ← row_key da.primary_key_index row
  write_op_id ← row_key da.version_key_index row
  ok (record da {
    hash_to_output = remember (hash_output row) row da.hash_to_output;
    change_history =
        insert_to_history
          (record {
            stmt_u = u;
            write_op_id = write_op_id;
            tid = tid;
            stmt_idx = stmt_idx;
            row_id = row_id;
            hash = hash_output row;
          })
          da.change_history;
  })

-- The rows of the initial contents belong to the init transaction, `tid_num - 1`, and to no
-- statement.
abbrev pub record_init : StmtOutput → Analyzer → Result Analyzer
record_init rows da =
    fold_result (record_row (usage after_write_read false) (da.tid_num - 1) none) rows da

abbrev pub record_stmts : ℕ → List StmtOutput → Analyzer → Result Analyzer
record_stmts i [] da = ok da
record_stmts i (rows ∷ outputs) da =
    fold_result (record_row (usage_of da i) (tid_of da i) (some i)) rows da
    >>= record_stmts (suc i) outputs

-- The loops over the operations of one row, and over the rows.
abbrev pub item_ops : List OperateUnit → ℕ → List OperateUnit → Analyzer → Result Analyzer
item_ops op_list i [] da = ok da
item_ops op_list i (op ∷ ops) da =
    build_item_dependency op_list i op da >>= item_ops op_list (suc i) ops

abbrev pub item_rows : List RowChangeHistory → Analyzer → Result Analyzer
item_rows = fold_result (λ rch. item_ops rch.row_op_list 0 rch.row_op_list)

unfoldable pub build_item_dependencies : Analyzer → Result Analyzer
unfolding build_item_dependency
build_item_dependencies da = item_rows da.change_history da

-- `f_txn_size`: the number of statements of each transaction.
abbrev txn_sizes : ℕ → List ℕ → List ℕ
txn_sizes tid_num queue = map (λ txn_id. occurrences txn_id queue (length queue)) (range 0 tid_num)

-- The state before the first row is read. One tid is added for the init transaction, which
-- is committed.
abbrev pub blank_analyzer :
    List StmtOutput → List ℕ → List StmtUsage → List TxnStatus → ℕ → ℕ → ℕ → Analyzer
blank_analyzer total_output tid_queue stmt_usages txn_statuses t_num primary_key_idx
      write_op_key_idx =
    record {
      change_history = [];
      tid_num = t_num + 1;
      stmt_num = length total_output;
      tid_begin_idx = λ _. none;
      tid_strict_begin_idx = λ _. none;
      tid_end_idx = λ _. none;
      primary_key_index = primary_key_idx;
      version_key_index = write_op_key_idx;
      f_txn_status = txn_statuses ++ txn_commit ∷ [];
      f_txn_id_queue = tid_queue;
      f_txn_size = txn_sizes (t_num + 1) tid_queue;
      f_stmt_usage = stmt_usages;
      f_stmt_output = total_output;
      hash_to_output = λ _. none;
      dependency_graph = λ _ _. no_deps;
      stmt_dependency_graph = λ _ _. none;
    }

-- The dependencies, in the order of the constructor's calls.
unfoldable pub build_dependencies : Analyzer → Result Analyzer
unfolding build_stmt_instrument_dependency build_item_dependencies build_start_dependency
    build_vs_dependency build_ow_dependency build_stmt_inner_dependency
build_dependencies da = do
  instrumented ← build_stmt_instrument_dependency da
  items ← build_item_dependencies instrumented
  seen ← build_vs_dependency (build_start_dependency items)
  overwritten ← build_ow_dependency seen
  ok (build_stmt_inner_dependency overwritten)

unfoldable pub dependency_analyzer :
    List StmtOutput
    → List StmtOutput
    → List ℕ
    → List StmtUsage
    → List TxnStatus
    → ℕ
    → ℕ
    → ℕ
    → Result Analyzer
unfolding record_row build_dependencies
dependency_analyzer init_output total_output final_tid_queue final_stmt_usage final_txn_status t_num
      primary_key_idx write_op_key_idx =
    do
      ensure
          (length total_output == length final_tid_queue
            && length total_output == length final_stmt_usage)
          size_mismatch
      let da =
          blank_analyzer total_output final_tid_queue final_stmt_usage final_txn_status t_num
            primary_key_idx write_op_key_idx
      filled ← fold_result record_init init_output da
      recorded ← record_stmts 0 total_output filled
      build_dependencies recorded
