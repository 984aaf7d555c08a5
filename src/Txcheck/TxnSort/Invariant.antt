-- ===== src/Txcheck/TxnSort/Invariant.antt =====
-- The loop of `check_txn_graph_cycle` ends; what it has placed is in topological order, and something
-- is left over exactly when there is a cycle.
use dbfuzz_multidb.Common.{
  ℕ, zero, suc, ◌+◌, ◌-◌, ◌≤◌, ◌<◌, ◌≡◌, refl, ap, ◌∙◌, ◌⊎◌, inl, inr, Bool, true, false, not, ◌&&◌,
  ◌||◌, ◌==◌, ltb, List, [], ◌∷◌, ◌++◌, none, some, arith, if◌then◌else◌, Bool-cases, Option-cases,
  length, mem, distinct, select, range, find_from-some, find_from-none, exists_from-true,
  exists_from-false,
}
use dbfuzz_multidb.Common.Counting.{
  AllBelow, distinct-length-below, distinct-missing, mem-range_eq, mem-range_bounds,
}
use dbfuzz_multidb.Txcheck.Usage.{is_abort}
use dbfuzz_multidb.Txcheck.Reduce.{Matrix}
use dbfuzz_multidb.Txcheck.Reduce.Cycle.{Edge, HasCycle}
use dbfuzz_multidb.Txcheck.Reduce.Walk.{HasCycle-of_inside}
use dbfuzz_multidb.Txcheck.Analyzer.{Analyzer}
use dbfuzz_multidb.Txcheck.Checks.{status_of}
use dbfuzz_multidb.Txcheck.TxnSort.{
  txn_edge, insert_tid, insert_aborted, initially_removed, has_txn_indegree, zero_txn_indegree,
  sort_loop,
}
use dbfuzz_multidb.Txcheck.TxnSort.Sorted.{Topological, Topological-append}

mem-append : (k : ℕ) (xs ys : List ℕ) → mem k (xs ++ ys) ≡ (mem k xs || mem k ys)
mem-append k [] ys = refl
mem-append k (x ∷ xs) ys = ground (arith, mem-append k xs ys)

pub mem-select : (k : ℕ) (p : ℕ → Bool) (xs : List ℕ) → mem k (select p xs) ≡ (mem k xs && p k)
mem-select k p [] = refl
mem-select k p (x ∷ xs) = elim (Bool-cases (x == k)) [
  | inl e ↦ let same : x ≡ k = ground arith in ground (arith, mem-select k p xs, ap p same)
  | inr e ↦ ground (arith, mem-select k p xs)
]

module _ (da : Analyzer) where
  -- Neither aborted nor the init transaction.
  abbrev pub is_live : ℕ → Bool
  is_live i = not (ltb i da.tid_num && is_abort (status_of da i)) && not (i == (da.tid_num - 1))

  mem-insert_tid : (k i : ℕ) (xs : List ℕ) → mem k (insert_tid i xs) ≡ (mem k xs || (i == k))
  mem-insert_tid k i xs = elim (Bool-cases (mem i xs)) [
    | inl old ↦ elim (Bool-cases (i == k)) [
      | inl e ↦ let same : i ≡ k = ground arith in rw (old, ← same, old) (ground arith)
      | inr e ↦ ground arith
    ]
    | inr new ↦ ground arith
  ]

  mem-insert_aborted :
      (k : ℕ) (is removed : List ℕ)
      → mem k (insert_aborted da is removed)
        ≡ (mem k removed || (mem k is && is_abort (status_of da k)))
  mem-insert_aborted k [] removed = ground arith
  mem-insert_aborted k (i ∷ is) removed =
      mem-insert_aborted k is (if is_abort (status_of da i) then insert_tid i removed else removed)
      ∙ (elim (Bool-cases (i == k)) [
        | inl e ↦
            let same : i ≡ k = ground arith in
            ground (arith, mem-insert_tid k i removed, ap (λ t. is_abort (status_of da t)) same)
        | inr e ↦ ground (arith, mem-insert_tid k i removed)
      ])

  pub mem-initially_removed : (k : ℕ) → mem k (initially_removed da) ≡ not (is_live k)
  unfolding initially_removed
  mem-initially_removed k = ground (
    arith,
    mem-insert_tid k (da.tid_num - 1) (insert_aborted da (range 0 da.tid_num) []),
    mem-insert_aborted k (range 0 da.tid_num) [],
    mem-range_eq k da.tid_num,
  )

  -- The graph that is sorted.
  abbrev pub live_graph : Matrix
  live_graph i j = if is_live i && is_live j && txn_edge da i j then 1 else 0

  abbrev pub IsTidSet : List ℕ → Type 0
  IsTidSet xs = (distinct xs ≡ true) × AllBelow da.tid_num xs

  insert_tid-IsTidSet :
      (i : ℕ) (xs : List ℕ) → i < da.tid_num → IsTidSet xs → IsTidSet (insert_tid i xs)
  insert_tid-IsTidSet i xs lt (different, below) = elim (Bool-cases (mem i xs)) [
    | inl old ↦ rw old (different, below)
    | inr new ↦ rw new (ground arith, λ a m. ground (arith, below a))
  ]

  insert_aborted-IsTidSet :
      (is removed : List ℕ)
      → AllBelow da.tid_num is
      → IsTidSet removed
      → IsTidSet (insert_aborted da is removed)
  insert_aborted-IsTidSet [] removed below set = set
  insert_aborted-IsTidSet (i ∷ is) removed below set =
      insert_aborted-IsTidSet is _ (λ a m. below a (ground arith))
        (elim (Bool-cases (is_abort (status_of da i))) [
          | inl e ↦ rw e (insert_tid-IsTidSet i removed (below i (ground arith)) set)
          | inr e ↦ rw e set
        ])

  pub initially_removed-IsTidSet : 0 < da.tid_num → IsTidSet (initially_removed da)
  unfolding initially_removed
  initially_removed-IsTidSet some_tid = insert_tid-IsTidSet (da.tid_num - 1) _ (omega arith) (
      insert_aborted-IsTidSet (range 0 da.tid_num) []
        (λ a m. omega (arith, mem-range_bounds a 0 da.tid_num m)) (refl, λ a m. ground arith))

  pub record SortInv (removed sorted : List ℕ) : Type 0 where
    pub set : IsTidSet removed
    pub split : (k : ℕ) → mem k removed ≡ (not (is_live k) || mem k sorted)
    pub fresh : (k : ℕ) → (mem k sorted && not (is_live k)) ≡ false
    pub ordered : Topological live_graph da.tid_num [] sorted

  module _ (removed sorted : List ℕ) (inv : SortInv removed sorted) where
    abbrev IsLeft : ℕ → Type 0
    IsLeft i = mem i removed ≡ false

    stuck_before :
        zero_txn_indegree da removed ≡ none
        → (i : ℕ) → i < da.tid_num
        → IsLeft i
        → (j : ℕ) × Edge live_graph da.tid_num j i × IsLeft j
    stuck_before e i lt left =
        let some_in : has_txn_indegree da removed i ≡ true = ground (
          arith,
          find_from-none (λ k. not (mem k removed) && not (has_txn_indegree da removed k)) 0
              da.tid_num i e,
        ) in
        let (j, _, below, test) =
          exists_from-true (λ j. not (mem j removed) && txn_edge da j i) 0 da.tid_num some_in in
        (j, (omega arith, lt, ground (arith, inv.split i, inv.split j)), ground arith)

    stuck_cycle :
        length removed < da.tid_num
        → zero_txn_indegree da removed ≡ none
        → HasCycle live_graph da.tid_num
    stuck_cycle short e =
        let (i, lt, left) = distinct-missing da.tid_num removed short in
        HasCycle-of_inside live_graph da.tid_num IsLeft (stuck_before e) i lt left

    module _ (i : ℕ) (found : zero_txn_indegree da removed ≡ some i) where
      source : (i < da.tid_num) × (mem i removed ≡ false) × (has_txn_indegree da removed i ≡ false)
      source =
          let (_, lt, test) =
            find_from-some (λ k. not (mem k removed) && not (has_txn_indegree da removed k)) 0
              da.tid_num i found in
          (omega arith, ground arith, ground arith)

      source_into : (j : ℕ) → Edge live_graph da.tid_num j i → mem j sorted ≡ true
      source_into j e = ground (
        arith,
        source,
        inv.split j,
        exists_from-false (λ k. not (mem k removed) && txn_edge da k i) 0 da.tid_num j source.2,
      )

      SortInv-cons : SortInv (i ∷ removed) (sorted ++ i ∷ [])
      SortInv-cons = record {
        set = (
          ground (arith, source, inv.set.0),
          λ a m. elim (Bool-cases (i == a)) [
            | inl q ↦ let p : i ≡ a = ground arith in rw (← p) source.0
            | inr q ↦ inv.set.1 a (ground arith)
          ],
        );
        split = λ k. ground (arith, inv.split k, mem-append k sorted (i ∷ []));
        fresh = λ k. ground (arith, inv.fresh k, inv.split i, source, mem-append k sorted (i ∷ []));
        ordered =
            Topological-append live_graph da.tid_num i sorted [] inv.ordered refl
              (ground (arith, source, inv.split i)) source_into;
      }

  -- What the loop returns: the invariant holds, and nothing is left or there is a cycle.
  pub record SortEnd (removed sorted : List ℕ) : Type 0 where
    pub inv : SortInv removed sorted
    pub complete : (length removed ≡ da.tid_num) ⊎ HasCycle live_graph da.tid_num

  pub sort_loop-SortEnd :
      (fuel : ℕ) (removed sorted : List ℕ)
      → suc da.tid_num ≤ length removed + fuel
      → SortInv removed sorted
      → (r s : List ℕ) × (sort_loop fuel da removed sorted ≡ some (r, s)) × SortEnd r s
  unfolding sort_loop
  sort_loop-SortEnd zero removed sorted size inv =
      absurd (omega (arith, distinct-length-below da.tid_num removed inv.set.0 inv.set.1))
  sort_loop-SortEnd (suc fuel) removed sorted size inv =
      let most = distinct-length-below da.tid_num removed inv.set.0 inv.set.1 in
      elim (Bool-cases (ltb (length removed) da.tid_num)) [
        | inr full ↦ (removed, sorted, rw full, record { inv = inv; complete = inl (ground arith) })
        | inl short ↦ elim (Option-cases (zero_txn_indegree da removed)) [
          | inl e ↦ (
            removed,
            sorted,
            rw (short, e),
            record { inv = inv; complete = inr (stuck_cycle removed sorted inv (ground arith) e) },
          )
          | inr (i, e) ↦
              let (r, s, returned, last) =
                sort_loop-SortEnd fuel (i ∷ removed) (sorted ++ i ∷ []) (omega arith)
                  (SortInv-cons removed sorted inv i e) in
              (r, s, rw (short, e) returned, last)
        ]
      ]
