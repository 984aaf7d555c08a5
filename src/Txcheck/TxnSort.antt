-- ===== src/Txcheck/TxnSort.antt =====
-- `check_txn_graph_cycle` of src/txcheck/dependency_analyzer.cc: a topological sort of the
-- committed transactions, and the transactions that it cannot place.
pub mod Invariant
pub mod Sorted
pub mod Correct
use dbfuzz_multidb.Common.{
  ℕ, zero, suc, ◌-◌, Bool, true, false, not, ◌&&◌, ltb, List, [], ◌∷◌, ◌++◌, Option, none, some,
  if◌then◌else◌, length, mem, any, select, range, find_from, exists_from,
}
use dbfuzz_multidb.Txcheck.Usage.{is_abort}
use dbfuzz_multidb.Txcheck.Analyzer.{
  Analyzer, DependencyType, write_read, write_write, read_write, version_set_depend,
  overwrite_depend,
}
use dbfuzz_multidb.Txcheck.Checks.{status_of}

-- The dependencies that order two transactions.
abbrev pub txn_edge : Analyzer → ℕ → ℕ → Bool
txn_edge da j i =
    any (da.dependency_graph j i)
      (write_read ∷ write_write ∷ read_write ∷ version_set_depend ∷ overwrite_depend ∷ [])

-- `set::insert`
abbrev pub insert_tid : ℕ → List ℕ → List ℕ
insert_tid i xs = if mem i xs then xs else i ∷ xs

abbrev pub insert_aborted : Analyzer → List ℕ → List ℕ → List ℕ
insert_aborted da [] removed = removed
insert_aborted da (i ∷ is) removed =
    insert_aborted da is (if is_abort (status_of da i) then insert_tid i removed else removed)

-- `removed_txn` before the loop: the aborted transactions and the init transaction.
unfoldable pub initially_removed : Analyzer → List ℕ
initially_removed da = insert_tid (da.tid_num - 1) (insert_aborted da (range 0 da.tid_num) [])

abbrev pub has_txn_indegree : Analyzer → List ℕ → ℕ → Bool
has_txn_indegree da removed i =
    exists_from (λ j. not (mem j removed) && txn_edge da j i) 0 da.tid_num

abbrev pub zero_txn_indegree : Analyzer → List ℕ → Option ℕ
zero_txn_indegree da removed =
    find_from (λ i. not (mem i removed) && not (has_txn_indegree da removed i)) 0 da.tid_num

-- The `while` loop: the removed and the sorted transactions where it ends. `none` means that the
-- fuel ran out.
unfoldable pub sort_loop : ℕ → Analyzer → List ℕ → List ℕ → Option (List ℕ × List ℕ)
sort_loop zero da removed sorted = none
sort_loop (suc fuel) da removed sorted =
    if ltb (length removed) da.tid_num
    then (elim (zero_txn_indegree da removed) [
      | none ↦ some (removed, sorted)
      | some i ↦ sort_loop fuel da (i ∷ removed) (sorted ++ i ∷ [])
    ])
    else some (removed, sorted)

abbrev pub left_over : Analyzer → List ℕ → List ℕ
left_over da removed = select (λ i. not (mem i removed)) (range 0 da.tid_num)

abbrev sort_result : Analyzer → Option (List ℕ × List ℕ) → Option (List ℕ × List ℕ)
sort_result da none = none
sort_result da (some (removed, sorted)) = some (left_over da removed, sorted)

-- `cycle_nodes` and `sorted_nodes`.
unfoldable pub check_txn_graph_cycle : Analyzer → Option (List ℕ × List ℕ)
unfolding sort_loop initially_removed
check_txn_graph_cycle da = sort_result da (sort_loop (suc da.tid_num) da (initially_removed da) [])
