-- ===== src/Txcheck/Checks.antt =====
-- The isolation checks of `dependency_analyzer` (src/txcheck/dependency_analyzer.cc): `check_G1a`,
-- `check_G1b`, `check_G1c`, `check_G2_item`, `check_GSIa` and `check_GSIb`. What they print is left
-- out. A check that reduces a graph is `none` where the reduction's fuel runs out.
pub mod Cycles
pub mod Reads
pub mod Overwritten
pub mod Snapshot
pub mod Ssg
pub mod MissedEffects
use dbfuzz_multidb.Common.{
  ℕ, zero, suc, ◌+◌, ◌-◌, Bool, true, false, not, ◌&&◌, ◌||◌, ◌==◌, ltb, List, [], ◌∷◌, ◌++◌,
  Option, none, some, if◌then◌else◌, get_or, any, length, select, range, exists_from, ℤ, int_eq,
}
use dbfuzz_multidb.Txcheck.Usage.{
  TxnStatus, not_defined, is_commit, is_abort, has_type, before_write_read, after_write_read,
}
use dbfuzz_multidb.Txcheck.Reduce.{Matrix, Reduced, reduce_graph_indegree, reduce_graph_outdegree}
use dbfuzz_multidb.Txcheck.Analyzer.{
  Analyzer, DepSet, DependencyType, write_read, write_write, read_write, start_depend,
  strict_start_depend, instrument_depend, version_set_depend, overwrite_depend, inner_depend, Index,
  index_lt, OperateUnit, RowChangeHistory,
}

abbrev pub status_of : Analyzer → ℕ → TxnStatus
status_of da i = get_or da.f_txn_status i not_defined

unfoldable pub check_G1a : Analyzer → Bool
check_G1a da =
    exists_from
      (λ j.
        is_abort (status_of da j)
        && exists_from (λ i. is_commit (status_of da i) && da.dependency_graph j i write_read) 0
            da.tid_num)
      0 da.tid_num

-- The two tests of the inner loop of `check_G1b`, for a write `first` and a later operation.
abbrev pub is_other_read : OperateUnit → OperateUnit → Bool
is_other_read first op = int_eq op.write_op_id first.write_op_id && not (op.tid == first.tid)

abbrev pub is_second_write : OperateUnit → OperateUnit → Bool
is_second_write first op = op.tid == first.tid && has_type op.stmt_u before_write_read

-- The inner loop: `other` and `second` say that the indices have been set.
unfoldable pub scan_after_write : Index → OperateUnit → Bool → Bool → List OperateUnit → Bool
scan_after_write txn_end first other second [] = false
scan_after_write txn_end first other second (op ∷ ops) =
    let other' = other || is_other_read first op in
    let second' = second || is_second_write first op in
    let rest = scan_after_write txn_end first other' second' ops in
    if index_lt txn_end op.stmt_idx then false else if other' && second' then true else rest

unfoldable pub check_row_G1b : Analyzer → List OperateUnit → Bool
unfolding scan_after_write
check_row_G1b da [] = false
check_row_G1b da (op ∷ ops) =
    has_type op.stmt_u after_write_read
      && scan_after_write (da.tid_end_idx op.tid) op false false ops
    || check_row_G1b da ops

unfoldable pub check_G1b : Analyzer → Bool
unfolding check_row_G1b
check_G1b da = any (λ rch. check_row_G1b da rch.row_op_list) da.change_history

-- `tmp_dgraph`: an edge between committed transactions for each pair with a wanted dependency.
abbrev pub wanted_graph : List DependencyType → Analyzer → Matrix
wanted_graph wanted da i j =
    if is_commit (status_of da i)
      && is_commit (status_of da j)
      && any (da.dependency_graph i j) wanted
    then 1
    else 0

abbrev pub reduced_result : Reduced → Option Bool
reduced_result none = none
reduced_result (some (r, h)) = some r

-- `reduce_graph_indegree(g, n); have_cycle = reduce_graph_outdegree(g, n);`
unfoldable pub has_cycle : Matrix → ℕ → Option Bool
has_cycle g n = elim (reduce_graph_indegree g n) [
  | none ↦ none
  | some (r, h) ↦ reduced_result (reduce_graph_outdegree h n)
]

abbrev pub ww_wr_set : List DependencyType
ww_wr_set = write_write ∷ write_read ∷ []

abbrev pub ww_wr_rw_set : List DependencyType
ww_wr_rw_set = write_write ∷ write_read ∷ read_write ∷ []

abbrev pub gsib_set : List DependencyType
gsib_set = write_write ∷ write_read ∷ read_write ∷ strict_start_depend ∷ []

unfoldable pub check_G1c : Analyzer → Option Bool
check_G1c da = has_cycle (wanted_graph ww_wr_set da) da.tid_num

unfoldable pub check_G2_item : Analyzer → Option Bool
check_G2_item da = has_cycle (wanted_graph ww_wr_rw_set da) da.tid_num

unfoldable pub check_gsia : Analyzer → Bool
check_gsia da =
    exists_from
      (λ i.
        exists_from
          (λ j.
            (da.dependency_graph i j write_write || da.dependency_graph i j write_read)
            && not (da.dependency_graph i j start_depend))
          0 da.tid_num)
      0 da.tid_num

-- `size()` of a set of dependencies.
abbrev pub dep_size : DepSet → ℕ
dep_size s = length (
    select s (
      write_read ∷ write_write ∷ read_write ∷ start_depend ∷ strict_start_depend ∷ instrument_depend
      ∷ version_set_depend ∷ overwrite_depend ∷ inner_depend ∷ []))

-- An edge of the reduced graph that is there for a READ_WRITE dependency alone.
abbrev pub is_rw_edge : Analyzer → Matrix → ℕ → ℕ → Bool
is_rw_edge da g i j =
    not (g i j == 0)
    && not (ltb 1 (dep_size (da.dependency_graph i j)))
    && da.dependency_graph i j read_write

abbrev pub set_cell : Matrix → ℕ × ℕ → ℕ → Matrix
set_cell g (i, j) v a b = if a == i && b == j then v else g a b

-- `rw_edges`, row by row.
abbrev row_rw_edges : (ℕ → Bool) → ℕ → List ℕ → List (ℕ × ℕ)
row_rw_edges p i [] = []
row_rw_edges p i (j ∷ js) = if p j then (i, j) ∷ row_rw_edges p i js else row_rw_edges p i js

abbrev pub rw_edges_of : Analyzer → Matrix → ℕ → List ℕ → List (ℕ × ℕ)
rw_edges_of da g n [] = []
rw_edges_of da g n (i ∷ is) =
    row_rw_edges (is_rw_edge da g i) i (range 0 n) ++ rw_edges_of da g n is

-- The graph without those edges.
abbrev pub without_rw : Analyzer → Matrix → Matrix
without_rw da g i j = if is_rw_edge da g i j then 0 else g i j

-- One edge is put back at a time. The reduction changes the graph for the rounds to come.
unfoldable pub rw_loop : ℕ → List (ℕ × ℕ) → Matrix → Option Bool
rw_loop n [] g = some false
rw_loop n (rw_edge ∷ rest) g = elim (reduce_graph_indegree (set_cell g rw_edge 1) n) [
  | none ↦ none
  | some (true, h) ↦ some true
  | some (false, h) ↦ rw_loop n rest (set_cell h rw_edge 0)
]

abbrev check_rw_edges : Analyzer → Reduced → Option Bool
check_rw_edges da none = none
check_rw_edges da (some (false, g)) = some false
check_rw_edges da (some (true, g)) =
    rw_loop da.tid_num (rw_edges_of da g da.tid_num (range 0 da.tid_num)) (without_rw da g)

unfoldable pub check_gsib : Analyzer → Option Bool
unfolding rw_loop
check_gsib da = elim (reduce_graph_indegree (wanted_graph gsib_set da) da.tid_num) [
  | none ↦ none
  | some (false, g) ↦ some false
  | some (true, g) ↦ check_rw_edges da (reduce_graph_outdegree g da.tid_num)
]
