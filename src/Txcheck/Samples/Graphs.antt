-- ===== src/Txcheck/Samples/Graphs.antt =====
-- The reductions and the checks at small graphs of transactions.
use mathlib.Core.List.{Memᴰ}
use dbfuzz_multidb.Common.{
  ℕ, ◌≡◌, refl, ◌↔◌, Bool, true, false, ◌&&◌, ◌||◌, ◌==◌, List, [], ◌∷◌, none, some, arith,
  if◌then◌else◌, pos,
}
use dbfuzz_multidb.Txcheck.Usage.{
  StmtUsage, TxnStatus, txn_commit, txn_abort, usage, select_read, before_write_read,
  after_write_read,
}
use dbfuzz_multidb.Txcheck.Reduce.{Matrix, reduce_graph_indegree, reduce_graph_outdegree}
use dbfuzz_multidb.Txcheck.Reduce.Cycle.{HasCycle}
use dbfuzz_multidb.Txcheck.Reduce.Correct.{reduce_indegree_decides}
use dbfuzz_multidb.Txcheck.Analyzer.{
  Analyzer, TxnGraph, write_read, write_write, read_write, OperateUnit, RowChangeHistory,
  add_txn_edge, no_deps,
}
use dbfuzz_multidb.Txcheck.Checks.{
  check_G1a, check_G1b, check_G1c, check_G2_item, check_gsia, check_gsib, has_cycle, rw_loop,
  set_cell, reduced_result,
}
use dbfuzz_multidb.Txcheck.Checks.Cycles.{DsgCycle, check_G1c_decides, check_G2_item_decides}
use dbfuzz_multidb.Txcheck.Checks.Reads.{AbortedRead, check_G1a_iff}
use dbfuzz_multidb.Txcheck.Checks.Overwritten.{IntermediateRead, check_G1b_iff}
use dbfuzz_multidb.Txcheck.Checks.Snapshot.{rw_loop-first_only}
use dbfuzz_multidb.Txcheck.Checks.MissedEffects.{MissedEffects}

-- 0 → 1 → 2 → 0, and 3 → 0.
abbrev ring : Matrix
ring a b =
    if a == 0 && b == 1 || a == 1 && b == 2 || a == 2 && b == 0 || a == 3 && b == 0 then 1 else 0

reduce_indegree_decides_example :
    (r : Bool) × (h : Matrix) × (reduce_graph_indegree ring 4 ≡ some (r, h))
    × ((r ≡ true) ↔ HasCycle ring 4)
    × (HasCycle h 4 ↔ HasCycle ring 4)
reduce_indegree_decides_example = reduce_indegree_decides ring 4

ring_reduces :
    (reduced_result (reduce_graph_indegree ring 4) ≡ some true)
    × (reduced_result (reduce_graph_outdegree ring 3) ≡ some true)
    × (reduced_result (reduce_graph_indegree ring 2) ≡ some false)
unfolding reduce_graph_indegree reduce_graph_outdegree
ring_reduces = (refl, refl, refl)

-- An analyzer with a given graph of four transactions.
abbrev pub analyzer_with : List TxnStatus → TxnGraph → List RowChangeHistory → Analyzer
analyzer_with statuses graph rows = record {
  change_history = rows;
  tid_num = 4;
  stmt_num = 0;
  tid_begin_idx = λ _. none;
  tid_strict_begin_idx = λ _. none;
  tid_end_idx = λ _. some 5;
  primary_key_index = 1;
  version_key_index = 0;
  f_txn_status = statuses;
  f_txn_id_queue = [];
  f_txn_size = [];
  f_stmt_usage = [];
  f_stmt_output = [];
  hash_to_output = λ _. none;
  dependency_graph = graph;
  stmt_dependency_graph = λ _ _. none;
}

abbrev all_committed : List TxnStatus
all_committed = txn_commit ∷ txn_commit ∷ txn_commit ∷ txn_commit ∷ []

abbrev empty_graph : TxnGraph
empty_graph _ _ = no_deps

-- 0 and 1 depend on each other by a read and a write.
abbrev cyclic : Analyzer
cyclic =
    analyzer_with all_committed
      (add_txn_edge 0 1 write_read (add_txn_edge 1 0 write_write empty_graph)) []

check_G1c_decides_example :
    (r : Bool) × (check_G1c cyclic ≡ some r)
    × ((r ≡ true) ↔ DsgCycle (write_write ∷ write_read ∷ []) cyclic)
check_G1c_decides_example = check_G1c_decides cyclic

check_G2_item_decides_example :
    (r : Bool) × (check_G2_item cyclic ≡ some r)
    × ((r ≡ true) ↔ DsgCycle (write_write ∷ write_read ∷ read_write ∷ []) cyclic)
check_G2_item_decides_example = check_G2_item_decides cyclic

cyclic_found : (check_G1c cyclic ≡ some true) × (check_G2_item cyclic ≡ some true)
unfolding check_G1c check_G2_item reduce_graph_indegree reduce_graph_outdegree has_cycle
cyclic_found = (refl, refl)

-- 0 is aborted, and 1 has read from it without having started later.
abbrev dirty : Analyzer
dirty =
    analyzer_with (txn_abort ∷ txn_commit ∷ txn_commit ∷ txn_commit ∷ [])
      (add_txn_edge 0 1 write_read empty_graph) []

check_G1a_iff_example : (check_G1a dirty ≡ true) ↔ AbortedRead dirty
check_G1a_iff_example = check_G1a_iff dirty

dirty_found : (check_G1a dirty ≡ true) × (check_gsia dirty ≡ true) × (check_G1a cyclic ≡ false)
unfolding check_G1a check_gsia
dirty_found = (refl, refl, refl)

abbrev op_on_row : StmtUsage → ℕ → ℕ → ℕ → OperateUnit
op_on_row u version tid stmt_idx = record {
  stmt_u = u;
  write_op_id = pos version;
  tid = tid;
  stmt_idx = some stmt_idx;
  row_id = pos 1;
  hash = version;
}

-- Transaction 0 writes version 7, transaction 1 reads it, and 0 overwrites it.
abbrev overwritten : Analyzer
overwritten = analyzer_with all_committed empty_graph (
    record {
      row_id = pos 1;
      row_op_list =
          op_on_row (usage after_write_read true) 7 0 2
          ∷ op_on_row (usage select_read false) 7 1 3
          ∷ op_on_row (usage before_write_read true) 7 0 4
          ∷ [];
    }
    ∷ [])

check_G1b_iff_example : (check_G1b overwritten ≡ true) ↔ (
    (rch : RowChangeHistory) × Memᴰ rch overwritten.change_history
    × IntermediateRead overwritten rch.row_op_list)
check_G1b_iff_example = check_G1b_iff overwritten

overwritten_found : (check_G1b overwritten ≡ true) × (check_G1b cyclic ≡ false)
unfolding check_G1b
overwritten_found = (refl, refl)

-- One READ_WRITE edge closes a cycle with a WRITE_WRITE edge.
abbrev skewed : Analyzer
skewed =
    analyzer_with all_committed
      (add_txn_edge 0 1 read_write (add_txn_edge 1 0 write_write empty_graph)) []

-- The same cycle between 2 and 3, behind two transactions that READ_WRITE edges alone connect: the
-- check returns false, since the first edge empties the graph.
abbrev hidden : Analyzer
hidden =
    analyzer_with all_committed
      (add_txn_edge 0 1 read_write (
        add_txn_edge 1 0 read_write
          (add_txn_edge 2 3 read_write (add_txn_edge 3 2 write_write empty_graph))))
      []

hidden_missed : check_gsib hidden ≡ some false
unfolding check_gsib reduce_graph_indegree reduce_graph_outdegree
hidden_missed = refl

-- What is left of that graph without the READ_WRITE edges.
abbrev remainder : Matrix
remainder a b = if a == 3 && b == 2 then 1 else 0

acyclic :
    (g : Matrix) (n : ℕ) → reduced_result (reduce_graph_indegree g n) ≡ some false → ¬ HasCycle g n
acyclic g n h c =
    let (r, left, returned, decides, _) = reduce_indegree_decides g n in
    cc (decides.1 c, h, returned)

remainder_acyclic : ¬ HasCycle (set_cell remainder (0, 1) 1) 4
unfolding reduce_graph_indegree
remainder_acyclic = acyclic (set_cell remainder (0, 1) 1) 4 refl

rw_loop-first_only_example : rw_loop 4 ((0, 1) ∷ (1, 0) ∷ (2, 3) ∷ []) remainder ≡ some false
rw_loop-first_only_example =
    rw_loop-first_only 4 (0, 1) ((1, 0) ∷ (2, 3) ∷ []) remainder remainder_acyclic
      (ground arith, (ground arith, tt))

-- The third edge alone would close a cycle.
third_edge_closes : rw_loop 4 ((2, 3) ∷ []) remainder ≡ some true
unfolding rw_loop reduce_graph_indegree
third_edge_closes = refl
