-- ===== src/Txcheck/Analyzer/Linked.antt =====
-- The statements that belong together by their instrument dependencies:
-- `get_instrumented_stmt_set` of src/txcheck/dependency_analyzer.cc.
pub mod Sets
pub mod Scan
pub mod Closure
use dbfuzz_multidb.Common.{
  ℕ, zero, suc, Bool, true, false, ◌&&◌, ◌==◌, ltb, List, [], ◌∷◌, Option, none, some, mem, range,
  if◌then◌else◌,
}
use dbfuzz_multidb.Txcheck.StmtId.{StmtId, id_eq, of_stmt_idx}
use dbfuzz_multidb.Txcheck.Analyzer.{
  Analyzer, StmtGraph, DependencyType, DepSet, instrument_depend, no_deps,
}
use dbfuzz_multidb.Txcheck.Analyzer.Order.{for_each}

-- `set<int>::insert`: the set is its elements in order.
abbrev pub insert_idx : ℕ → List ℕ → List ℕ
insert_idx i [] = i ∷ []
insert_idx i (x ∷ xs) =
    let rest = insert_idx i xs in
    if ltb i x then i ∷ x ∷ xs else (if i == x then x ∷ xs else x ∷ rest)

abbrev pub count_dep : Option DepSet → DependencyType → Bool
count_dep none dt = false
count_dep (some s) dt = s dt

-- `graph[pair].count(dt) > 0`, for a pair that may be missing.
abbrev pub has_dep : StmtGraph → StmtId → StmtId → DependencyType → Bool
has_dep g a b dt = count_dep (g a b) dt

-- The entry that `graph[pair]` makes where there is none.
abbrev pub touch : StmtId → StmtId → StmtGraph → StmtGraph
touch a b g x y = elim (g x y) [
  | none ↦ if id_eq x a && id_eq y b then some no_deps else none
  | some s ↦ some s
]

-- `instrument_pair`: the names of two places, the earlier place first.
abbrev pub instrument_pair : List ℕ → ℕ → ℕ → StmtId × StmtId
unfolding of_stmt_idx
instrument_pair queue select_idx i =
    if ltb i select_idx
    then (of_stmt_idx queue i, of_stmt_idx queue select_idx)
    else (of_stmt_idx queue select_idx, of_stmt_idx queue i)

-- Whether the pair has an INSTRUMENT_DEPEND dependency.
abbrev pub is_linked : List ℕ → StmtGraph → ℕ → ℕ → Bool
is_linked queue g select_idx i =
    let pair = instrument_pair queue select_idx i in has_dep g pair.0 pair.1 instrument_depend

-- The body of the `for` loop, on `init_idx_set` and the graph.
abbrev pub link_step : List ℕ → ℕ → List ℕ → ℕ → List ℕ × StmtGraph → List ℕ × StmtGraph
link_step queue select_idx processed i (init, g) =
    let pair = instrument_pair queue select_idx i in
    if mem i processed
    then (init, g)
    else (if is_linked queue g select_idx i then insert_idx i init else init, touch pair.0 pair.1 g)

-- The `while` loop. `none` means that the fuel ran out.
unfoldable pub link_loop :
    ℕ → List ℕ → ℕ → List ℕ → List ℕ → StmtGraph → Option (List ℕ × StmtGraph)
unfolding for_each
link_loop zero queue stmt_num init processed g = none
link_loop (suc fuel) queue stmt_num [] processed g = some (processed, g)
link_loop (suc fuel) queue stmt_num (select_idx ∷ init) processed g =
    let processed' = insert_idx select_idx processed in
    let next = for_each (link_step queue select_idx processed') (range 0 stmt_num) (init, g) in
    link_loop fuel queue stmt_num next.0 processed' next.1

abbrev link_result : Analyzer → Option (List ℕ × StmtGraph) → Option (List ℕ × Analyzer)
link_result da none = none
link_result da (some (processed, g)) = some (processed, record da { stmt_dependency_graph = g })

-- The set, and the analyzer with the entries that were looked up.
unfoldable pub get_instrumented_stmt_set : ℕ → Analyzer → Option (List ℕ × Analyzer)
unfolding link_loop
get_instrumented_stmt_set queue_idx da = link_result da (
    link_loop (suc da.stmt_num) da.f_txn_id_queue da.stmt_num (queue_idx ∷ []) []
      da.stmt_dependency_graph)
