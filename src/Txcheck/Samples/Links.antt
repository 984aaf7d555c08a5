-- ===== src/Txcheck/Samples/Links.antt =====
-- The statements that belong together in a small queue.
use dbfuzz_multidb.Common.{ℕ, ◌≡◌, refl, ◌↔◌, true, List, [], ◌∷◌, some, none, arith, mem, Option}
use dbfuzz_multidb.Txcheck.Usage.{txn_commit}
use dbfuzz_multidb.Txcheck.Analyzer.{
  Analyzer, StmtGraph, instrument_depend, build_stmt_depend_from_stmt_idx, no_deps,
}
use dbfuzz_multidb.Txcheck.Analyzer.Linked.{get_instrumented_stmt_set}
use dbfuzz_multidb.Txcheck.Analyzer.Linked.Sets.{Ascending, SameDeps}
use dbfuzz_multidb.Txcheck.Analyzer.Linked.Scan.{Joined}
use dbfuzz_multidb.Txcheck.Analyzer.Linked.Closure.{get_instrumented_stmt_set_closes}
use dbfuzz_multidb.Txcheck.Samples.Graphs.{analyzer_with}

abbrev set_of : Option (List ℕ × Analyzer) → List ℕ
set_of none = []
set_of (some (set, da)) = set

-- Three statements of transaction 0 around one of transaction 1, the first three joined.
abbrev linked_queue : Analyzer
unfolding build_stmt_depend_from_stmt_idx
linked_queue = build_stmt_depend_from_stmt_idx 0 1 instrument_depend (
    build_stmt_depend_from_stmt_idx 1 3 instrument_depend
      (record (analyzer_with (txn_commit ∷ txn_commit ∷ []) (λ _ _. no_deps) []) {
        stmt_num = 4;
        f_txn_id_queue = 0 ∷ 0 ∷ 1 ∷ 0 ∷ [];
      }))

linked_queue_set : set_of (get_instrumented_stmt_set 3 linked_queue) ≡ 0 ∷ 1 ∷ 3 ∷ []
unfolding get_instrumented_stmt_set linked_queue
linked_queue_set = refl

get_instrumented_stmt_set_closes_example :
    (set : List ℕ) × (h : StmtGraph) × (get_instrumented_stmt_set 3 linked_queue
      ≡ some (set, record linked_queue { stmt_dependency_graph = h }))
    × Ascending set
    × ((k : ℕ) → (mem k set ≡ true) ↔ Joined linked_queue 3 k)
    × SameDeps linked_queue.stmt_dependency_graph h
unfolding linked_queue
get_instrumented_stmt_set_closes_example =
    get_instrumented_stmt_set_closes linked_queue 3 (omega arith)
