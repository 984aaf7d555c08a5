-- ===== src/Txcheck/TxnSort/Correct.antt =====
-- `check_txn_graph_cycle` sorts the live transactions, or names those that it cannot sort.
use dbfuzz_multidb.Common.{
  ℕ, suc, ◌<◌, ◌≡◌, refl, ◌∙◌, ◌↔◌, inl, inr, false, not, ◌&&◌, ◌||◌, ltb, List, [], ◌∷◌, some,
  arith, Bool-cases, mem, range,
}
use dbfuzz_multidb.Common.Counting.{distinct-full, mem-range_eq}
use dbfuzz_multidb.Txcheck.Reduce.Cycle.{HasCycle, Walk-first}
use dbfuzz_multidb.Txcheck.Analyzer.{Analyzer}
use dbfuzz_multidb.Txcheck.TxnSort.{initially_removed, left_over, check_txn_graph_cycle}
use dbfuzz_multidb.Txcheck.TxnSort.Sorted.{Topological, Topological-no_cycle}
use dbfuzz_multidb.Txcheck.TxnSort.Invariant.{
  mem-select, is_live, live_graph, initially_removed-IsTidSet, mem-initially_removed, SortEnd,
  sort_loop-SortEnd,
}

nil_of_mem : (xs : List ℕ) → ((k : ℕ) → mem k xs ≡ false) → xs ≡ []
nil_of_mem [] absent = refl
nil_of_mem (x ∷ xs) absent = absurd (ground (arith, absent x))

module _ (da : Analyzer) (removed sorted : List ℕ) (last : SortEnd da removed sorted) where
  mem-left_over : (k : ℕ) → mem k (left_over da removed) ≡ (ltb k da.tid_num && not (mem k removed))
  mem-left_over k = ground (
    arith,
    mem-select k (λ i. not (mem i removed)) (range 0 da.tid_num),
    mem-range_eq k da.tid_num,
  )

  placed :
      (k : ℕ) → (mem k sorted || mem k (left_over da removed)) ≡ (ltb k da.tid_num && is_live da k)
  placed k = elim (Bool-cases (mem k removed)) [
    | inl m ↦
        ground (arith, mem-left_over k, last.inv.split k, last.inv.set.1 k m, last.inv.fresh k)
    | inr m ↦ ground (arith, mem-left_over k, last.inv.split k)
  ]

  nothing_of_cycle : left_over da removed ≡ [] → ¬ HasCycle (live_graph da) da.tid_num
  nothing_of_cycle e (k, w) =
      let (j, first) = Walk-first w in
      let none_left : mem k (left_over da removed) ≡ false = rw e in
      Topological-no_cycle (live_graph da) da.tid_num sorted [] last.inv.ordered
        (λ i j' f m. absurd (ground arith)) k (ground (arith, placed k, first)) w

  cycle_of_nothing : ¬ HasCycle (live_graph da) da.tid_num → left_over da removed ≡ []
  cycle_of_nothing acyclic = elim last.complete [
    | inr c ↦ absurd (acyclic c)
    | inl full ↦ nil_of_mem (left_over da removed) λ k. elim (Bool-cases (ltb k da.tid_num)) [
      | inl lt ↦ ground (
        arith,
        mem-left_over k,
        distinct-full da.tid_num removed last.inv.set.0 last.inv.set.1 full k (ground arith),
      )
      | inr ge ↦ ground (arith, mem-left_over k)
    ]
  ]

-- Where there is a tid at all (the init transaction has one), `check_txn_graph_cycle` returns; every
-- transaction that is neither aborted nor the init transaction is in `sorted_nodes` or in
-- `cycle_nodes`, and no other; `sorted_nodes` is in topological order, so that a dependency into a
-- placed transaction comes from one placed before it; and `cycle_nodes` is empty exactly when these
-- transactions have no directed cycle of dependencies.
pub check_txn_graph_cycle_sorts :
    (da : Analyzer)
    → 0 < da.tid_num
    → (cycle sorted : List ℕ) × (check_txn_graph_cycle da ≡ some (cycle, sorted))
      × Topological (live_graph da) da.tid_num [] sorted
      × ((k : ℕ) → (mem k sorted || mem k cycle) ≡ (ltb k da.tid_num && is_live da k))
      × ((cycle ≡ []) ↔ ¬ HasCycle (live_graph da) da.tid_num)
unfolding check_txn_graph_cycle
check_txn_graph_cycle_sorts da some_tid =
    let (removed, sorted, returned, last) =
      sort_loop-SortEnd da (suc da.tid_num) (initially_removed da) [] (omega arith) (record {
        set = initially_removed-IsTidSet da some_tid;
        split = λ k. mem-initially_removed da k ∙ ground arith;
        fresh = λ k. refl;
        ordered = tt;
      }) in
    (
      left_over da removed,
      sorted,
      rw (returned, check_txn_graph_cycle),
      last.inv.ordered,
      placed da removed sorted last,
      (nothing_of_cycle da removed sorted last, cycle_of_nothing da removed sorted last),
    )
