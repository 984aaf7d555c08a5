-- ===== src/Txcheck/Paths/Sort.antt =====
-- The main loop of `topological_sort_path` and the statements that it leaves out at the end.
use dbfuzz_multidb.Common.{
  ℕ, zero, suc, ◌+◌, Bool, true, false, not, ◌&&◌, ◌||◌, ◌==◌, ltb, leb, List, [], ◌∷◌, ◌++◌, none,
  some, length, mem, select, get_or,
}
use dbfuzz_multidb.Txcheck.Usage.{has_type, init_type}
use dbfuzz_multidb.Txcheck.StmtId.{StmtId, transfer_2_stmt_idx}
use dbfuzz_multidb.Txcheck.Result.{Result, ok, demand, out_of_bounds, ◌>>=◌}
use dbfuzz_multidb.Txcheck.Analyzer.{Analyzer}
use dbfuzz_multidb.Txcheck.Analyzer.Order.{for_each}
use dbfuzz_multidb.Txcheck.Analyzer.Instrument.{usage_of}
use dbfuzz_multidb.Txcheck.Analyzer.Linked.{insert_idx}
use dbfuzz_multidb.Txcheck.Paths.{
  PathSort, insert_id, name_of, erase_edges, strip_order, delete_uncommitted, is_done, set_of_place,
  find_block, edge_num,
}

-- The search for the set with the most edges, from place `i` on: `n` places are left. Of two sets
-- with as many edges the later one is taken.
unfoldable pub find_target : ℕ → ℕ → List ℕ → ℕ → ℕ → PathSort → Result (ℕ × PathSort)
unfolding set_of_place
find_target i zero checked max_edge_num target st = ok (target, st)
find_target i (suc n) checked max_edge_num target st = elim (mem i checked || is_done st i) [
  | true ↦ find_target (suc i) n checked max_edge_num target st
  | false ↦ set_of_place i st >>= λ (set, st').
      let checked' = for_each insert_idx set checked in
      let edges = edge_num st' set in
      elim (leb max_edge_num edges) [
        | true ↦ find_target (suc i) n checked' edges i st'
        | false ↦ find_target (suc i) n checked' max_edge_num target st'
      ]
]

-- The set of a place is deleted with its edges.
unfoldable pub delete_set : List ℕ → PathSort → PathSort
unfolding for_each erase_edges
delete_set set st =
    for_each
      (λ c t. record t {
        deleted = insert_id (name_of t.da c) t.deleted;
        graph = erase_edges t.da (name_of t.da c) t.graph;
      })
      set st

-- The set of a place is put at the end of the path, and its edges are erased.
unfoldable pub output_set : List ℕ → PathSort → PathSort
unfolding for_each erase_edges
output_set set st =
    for_each
      (λ c t. record t {
        path = t.path ++ name_of t.da c ∷ [];
        outputted = insert_id (name_of t.da c) t.outputted;
        graph = erase_edges t.da (name_of t.da c) t.graph;
      })
      set st

-- A round without a set that is free of dependencies: one set is deleted.
unfoldable pub break_cycle : PathSort → Result PathSort
unfolding find_target transfer_2_stmt_idx set_of_place delete_set
break_cycle st = do
  chosen ← find_target 0 st.da.stmt_num [] 0 0 (record st { delete_flag = true })
  queue_idx ←
      demand (transfer_2_stmt_idx (name_of chosen.1.da chosen.0) chosen.1.da.f_txn_id_queue)
        out_of_bounds
  found ← set_of_place queue_idx chosen.1
  ok (delete_set found.0 found.1)

unfoldable pub output_block : ℕ → PathSort → Result PathSort
unfolding set_of_place output_set
output_block i st = do found ← set_of_place i st; ok (output_set found.0 found.1)

-- The body of the `while` loop.
unfoldable pub sort_round : PathSort → Result PathSort
unfolding find_block break_cycle output_block
sort_round st = do
  found ← find_block st.da.stmt_num [] st
  elim found.0 [ none ↦ break_cycle found.1 | some i ↦ output_block i found.1 ]

-- The `while` loop; running out of fuel is `out_of_bounds` too.
unfoldable pub path_loop : ℕ → PathSort → Result PathSort
unfolding sort_round
path_loop zero st = demand none out_of_bounds
path_loop (suc fuel) st = elim (ltb (length st.outputted + length st.deleted) st.da.stmt_num) [
  | true ↦ sort_round st >>= path_loop fuel
  | false ↦ ok st
]

-- Neither the first nor the last statement of its transaction.
abbrev pub is_inner : Analyzer → StmtId → Bool
is_inner da s =
    not (s.stmt_idx_in_txn == 0) && not (get_or da.f_txn_size s.txn_id 0 == suc s.stmt_idx_in_txn)

-- A statement that was not replaced. The names on the path are those of statements of the queue.
abbrev pub is_kept : Analyzer → StmtId → Bool
unfolding transfer_2_stmt_idx
is_kept da s = elim (transfer_2_stmt_idx s da.f_txn_id_queue) [
  | none ↦ false
  | some i ↦ not (has_type (usage_of da i) init_type)
]

-- The path, `delete_flag` and the analyzer with the entries that the look-ups made.
unfoldable pub topological_sort_path :
    List StmtId → Analyzer → Result (List StmtId × Bool × Analyzer)
unfolding delete_uncommitted strip_order path_loop
topological_sort_path deleted_nodes da = do
  let start = delete_uncommitted (record {
    da = da;
    graph = da.stmt_dependency_graph;
    outputted = [];
    deleted = deleted_nodes;
    path = [];
    delete_flag = false;
  })
  last ← path_loop (suc da.stmt_num) (record start { graph = strip_order da start.graph })
  ok (select (is_kept da) (select (is_inner da) last.path), last.delete_flag, last.da)
