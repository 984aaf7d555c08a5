-- ===== src/Txcheck/Samples/Sorting.antt =====
-- The sort of the transaction graph at a small analyzer.
use dbfuzz_multidb.Common.{ℕ, ◌≡◌, refl, ◌↔◌, ◌&&◌, ◌||◌, ltb, List, [], ◌∷◌, some, arith, mem}
use dbfuzz_multidb.Txcheck.Usage.{txn_commit, txn_abort}
use dbfuzz_multidb.Txcheck.Reduce.Cycle.{HasCycle}
use dbfuzz_multidb.Txcheck.Analyzer.{Analyzer, write_read, write_write, add_txn_edge, no_deps}
use dbfuzz_multidb.Txcheck.TxnSort.{check_txn_graph_cycle}
use dbfuzz_multidb.Txcheck.TxnSort.Sorted.{Topological}
use dbfuzz_multidb.Txcheck.TxnSort.Invariant.{is_live, live_graph}
use dbfuzz_multidb.Txcheck.TxnSort.Correct.{check_txn_graph_cycle_sorts}
use dbfuzz_multidb.Txcheck.Samples.Graphs.{analyzer_with}

-- Transaction 1 comes before 0, 2 is aborted and 3 is the init transaction.
abbrev two_live : Analyzer
two_live =
    analyzer_with (txn_commit ∷ txn_commit ∷ txn_abort ∷ txn_commit ∷ [])
      (add_txn_edge 1 0 write_read (add_txn_edge 0 2 write_write (λ _ _. no_deps))) []

two_live_sorted : check_txn_graph_cycle two_live ≡ some ([], 1 ∷ 0 ∷ [])
unfolding check_txn_graph_cycle
two_live_sorted = refl

check_txn_graph_cycle_sorts_example :
    (cycle sorted : List ℕ) × (check_txn_graph_cycle two_live ≡ some (cycle, sorted))
    × Topological (live_graph two_live) 4 [] sorted
    × ((k : ℕ) → (mem k sorted || mem k cycle) ≡ (ltb k 4 && is_live two_live k))
    × ((cycle ≡ []) ↔ ¬ HasCycle (live_graph two_live) 4)
check_txn_graph_cycle_sorts_example = check_txn_graph_cycle_sorts two_live (omega arith)
