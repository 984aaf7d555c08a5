-- ===== src/Txcheck/Paths.antt =====
-- `topological_sort_path` of src/txcheck/dependency_analyzer.cc: an order of the statements of the
-- committed transactions, in which the statements that belong together stay together.
pub mod Sort
use dbfuzz_multidb.Common.{
  ℕ, zero, suc, ◌+◌, ◌-◌, Bool, true, false, not, ◌&&◌, ◌||◌, ◌==◌, ltb, leb, List, [], ◌∷◌, ◌++◌,
  Option, none, some, length, mem, range, any, select, map, exists_from, get_or, if◌then◌else◌,
}
use dbfuzz_multidb.Txcheck.Usage.{StmtUsage, usage, has_type, init_type, is_commit}
use dbfuzz_multidb.Txcheck.StmtId.{StmtId, id_eq, of_stmt_idx, transfer_2_stmt_idx}
use dbfuzz_multidb.Txcheck.Result.{Result, ok, demand, out_of_bounds, ◌>>=◌}
use dbfuzz_multidb.Txcheck.Analyzer.{
  Analyzer, StmtGraph, DependencyType, DepSet, write_read, write_write, read_write, start_depend,
  strict_start_depend, instrument_depend, version_set_depend, overwrite_depend, inner_depend,
}
use dbfuzz_multidb.Txcheck.Analyzer.Order.{for_each}
use dbfuzz_multidb.Txcheck.Analyzer.Instrument.{usage_of, tid_of}
use dbfuzz_multidb.Txcheck.Analyzer.Linked.{insert_idx, get_instrumented_stmt_set}
use dbfuzz_multidb.Txcheck.Checks.{status_of}

abbrev pub mem_id : StmtId → List StmtId → Bool
mem_id s xs = any (λ x. id_eq x s) xs

-- `set<stmt_id>::insert`
abbrev pub insert_id : StmtId → List StmtId → List StmtId
insert_id s xs = if mem_id s xs then xs else s ∷ xs

abbrev pub name_of : Analyzer → ℕ → StmtId
unfolding of_stmt_idx
name_of da i = of_stmt_idx da.f_txn_id_queue i

-- `graph.count(pair) > 0`
abbrev pub has_entry : StmtGraph → StmtId → StmtId → Bool
has_entry g a b = elim (g a b) [ none ↦ false | some s ↦ true ]

-- `graph.erase(pair)`
abbrev pub erase_entry : StmtId → StmtId → StmtGraph → StmtGraph
erase_entry a b g x y = if id_eq x a && id_eq y b then none else g x y

-- The loops that erase both pairs of a statement with each statement of the queue.
unfoldable pub erase_edges : Analyzer → StmtId → StmtGraph → StmtGraph
unfolding for_each
erase_edges da s g =
    for_each (λ j h. erase_entry (name_of da j) s (erase_entry s (name_of da j) h))
      (range 0 da.stmt_num) g

abbrev all_types : List DependencyType
all_types =
    write_read ∷ write_write ∷ read_write ∷ start_depend ∷ strict_start_depend ∷ instrument_depend
    ∷ version_set_depend ∷ overwrite_depend ∷ inner_depend ∷ []

abbrev is_order_type : DependencyType → Bool
is_order_type start_depend = true
is_order_type strict_start_depend = true
is_order_type inner_depend = true
is_order_type _ = false

abbrev without_order : DepSet → DepSet
without_order s dt = not (is_order_type dt) && s dt

abbrev nonempty : DepSet → Option DepSet
nonempty s = if any s all_types then some s else none

-- The dependencies of one pair without those of the order, and without the entry if none is left.
abbrev pub strip_entry : StmtId → StmtId → StmtGraph → StmtGraph
strip_entry a b g x y =
    if id_eq x a && id_eq y b
    then (elim (g a b) [ none ↦ none | some s ↦ nonempty (without_order s) ])
    else g x y

unfoldable pub strip_order : Analyzer → StmtGraph → StmtGraph
unfolding for_each
strip_order da g =
    for_each
      (λ i h.
        for_each
          (λ j k.
            strip_entry (name_of da j) (name_of da i) (strip_entry (name_of da i) (name_of da j) k))
          (range i (da.stmt_num - i)) h)
      (range 0 da.stmt_num) g

-- The local variables of the main loop. The analyzer is one of them, since look-ups change it.
pub record PathSort : Type 0 where
  pub da : Analyzer
  pub graph : StmtGraph
  pub outputted : List StmtId
  pub deleted : List StmtId
  pub path : List StmtId
  pub delete_flag : Bool

-- Statements of transactions that did not commit are deleted at once.
unfoldable pub delete_uncommitted : PathSort → PathSort
unfolding for_each erase_edges
delete_uncommitted st =
    for_each
      (λ i t. if is_commit (status_of t.da (tid_of t.da i)) then t else record t {
        deleted = insert_id (name_of t.da i) t.deleted;
        graph = erase_edges t.da (name_of t.da i) t.graph;
      })
      (range 0 st.da.stmt_num) st

abbrev pub is_done : PathSort → ℕ → Bool
is_done st i = mem_id (name_of st.da i) st.outputted || mem_id (name_of st.da i) st.deleted

-- The set of a place, and the state with the entries that the search for it made.
unfoldable pub set_of_place : ℕ → PathSort → Result (List ℕ × PathSort)
unfolding get_instrumented_stmt_set
set_of_place i st = do
  found ← demand (get_instrumented_stmt_set i st.da) out_of_bounds
  ok (found.0, record st { da = found.1 })

-- Whether a statement of the set depends on one outside it, and the places that were looked at.
abbrev pub block_indegree : PathSort → List ℕ → List ℕ → List ℕ → Bool × List ℕ
block_indegree st set [] checked = (false, checked)
block_indegree st set (c ∷ cs) checked =
    let rest = block_indegree st set cs (insert_idx c checked) in
    if exists_from (λ j. not (mem j set) && has_entry st.graph (name_of st.da j) (name_of st.da c))
      0 st.da.stmt_num
    then (true, insert_idx c checked)
    else rest

-- The search for a set without dependencies from outside, from the last place down: `n` places are
-- left.
unfoldable pub find_block : ℕ → List ℕ → PathSort → Result (Option ℕ × PathSort)
unfolding set_of_place
find_block zero checked st = ok (none, st)
find_block (suc i) checked st = elim (mem i checked || is_done st i) [
  | true ↦ find_block i checked st
  | false ↦ set_of_place i st >>= λ (set, st').
      let (has, checked') = block_indegree st' set set checked in
      elim has [ true ↦ find_block i checked' st' | false ↦ ok (some i, st') ]
]

-- The edges between a set and the rest of the queue.
abbrev pub edge_num : PathSort → List ℕ → ℕ
edge_num st set = sum (
    map
      (λ c. sum (
        map
          (λ j.
            (if has_entry st.graph (name_of st.da j) (name_of st.da c) then 1 else 0)
            + (if has_entry st.graph (name_of st.da c) (name_of st.da j) then 1 else 0))
          (select (λ j. not (mem j set)) (range 0 st.da.stmt_num))))
      set)
  where
    sum : List ℕ → ℕ
    sum [] = 0
    sum (x ∷ xs) = x + sum xs
