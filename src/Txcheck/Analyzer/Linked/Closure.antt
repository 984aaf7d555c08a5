-- ===== src/Txcheck/Analyzer/Linked/Closure.antt =====
-- `get_instrumented_stmt_set` returns the closure of a statement under instrument dependencies.
use dbfuzz_multidb.Common.{
  ℕ, zero, suc, ◌+◌, ◌<◌, ◌≡◌, refl, subst, ap, ◌∙◌, ◌↔◌, true, false, ◌&&◌, ◌||◌, ◌==◌, inl, inr,
  ltb, List, [], ◌∷◌, some, arith, Bool-cases, length, mem, range,
}
use dbfuzz_multidb.Common.Counting.{AllBelow, distinct-length-below, mem-range_eq}
use dbfuzz_multidb.Txcheck.Analyzer.{Analyzer, StmtGraph}
use dbfuzz_multidb.Txcheck.Analyzer.Order.{for_each}
use dbfuzz_multidb.Txcheck.Analyzer.Linked.Sets.{
  mem-insert_idx, Ascending, Ascending-insert, Ascending-distinct, length-insert_idx, SameDeps,
}
use dbfuzz_multidb.Txcheck.Analyzer.Linked.{
  insert_idx, is_linked, link_step, link_loop, get_instrumented_stmt_set,
}
use dbfuzz_multidb.Txcheck.Analyzer.Linked.Scan.{
  IsLink, Joined, found, Scanned, scan-Scanned, is_linked-joined, itself, next,
}

module _ (da : Analyzer) where
  record Progress (queue_idx : ℕ) (init processed : List ℕ) (g : StmtGraph) : Type 0 where
    ordered_init : Ascending init
    ordered : Ascending processed
    apart : (k : ℕ) → (mem k init && mem k processed) ≡ false
    below_init : AllBelow da.stmt_num init
    below : AllBelow da.stmt_num processed
    started : (mem queue_idx init || mem queue_idx processed) ≡ true
    joined : (k : ℕ) → (mem k init || mem k processed) ≡ true → Joined da queue_idx k
    closed :
        (i j : ℕ)
        → mem i processed ≡ true
        → j < da.stmt_num
        → IsLink da i j
        → (mem j init || mem j processed) ≡ true
    same : SameDeps da.stmt_dependency_graph g

  record Closed (queue_idx : ℕ) (processed : List ℕ) (g : StmtGraph) : Type 0 where
    in_order : Ascending processed
    members : (k : ℕ) → (mem k processed ≡ true) ↔ Joined da queue_idx k
    same : SameDeps da.stmt_dependency_graph g

  Joined-mem :
      (queue_idx k : ℕ) (processed : List ℕ) (g : StmtGraph)
      → Progress queue_idx [] processed g
      → Joined da queue_idx k
      → mem k processed ≡ true
  Joined-mem queue_idx k processed g inv itself = inv.started
  Joined-mem queue_idx k processed g inv (next {i = i} {j = j} before lt link) =
      inv.closed i j (Joined-mem queue_idx i processed g inv before) lt link

  module _ (queue_idx x : ℕ) (init processed : List ℕ) (g : StmtGraph)
      (inv : Progress queue_idx (x ∷ init) processed g) where
    abbrev after : List ℕ × StmtGraph
    after =
        for_each (link_step da.f_txn_id_queue x (insert_idx x processed)) (range 0 da.stmt_num)
          (init, g)

    scanned : Scanned da x (insert_idx x processed) (range 0 da.stmt_num) init after
    scanned =
        scan-Scanned da x (insert_idx x processed) (range 0 da.stmt_num) init g (inv.ordered_init.1)
          inv.same

    mem-after :
        (k : ℕ)
        → mem k after.0
          ≡ (mem k init || (ltb k da.stmt_num && found da x (insert_idx x processed) k))
    mem-after k = scanned.members k ∙ ground (arith, mem-range_eq k da.stmt_num)

    Joined-after :
        (k : ℕ) → (mem k after.0 || mem k (insert_idx x processed)) ≡ true → Joined da queue_idx k
    Joined-after k m = elim (Bool-cases (mem k (x ∷ init) || mem k processed)) [
      | inl old ↦ inv.joined k old
      | inr new ↦
          next (inv.joined x (ground arith))
            (ground (arith, mem-after k, mem-insert_idx k x processed, is_linked-joined da x k))
            (ground (arith, mem-after k, mem-insert_idx k x processed, is_linked-joined da x k))
    ]

    closed-after :
        (i j : ℕ)
        → mem i (insert_idx x processed) ≡ true
        → j < da.stmt_num
        → IsLink da i j
        → (mem j after.0 || mem j (insert_idx x processed)) ≡ true
    closed-after i j m lt link = elim (Bool-cases (x == i)) [
      | inl e ↦
          let here : x ≡ i = ground arith in
          ground (
            arith,
            mem-after j,
            is_linked-joined da x j,
            is_linked-joined da i j,
            ap (λ t. is_linked da.f_txn_id_queue da.stmt_dependency_graph t j) here,
          )
      | inr e ↦ ground (
        arith,
        mem-after j,
        mem-insert_idx i x processed,
        mem-insert_idx j x processed,
        inv.closed i j,
      )
    ]

    Progress-next : Progress queue_idx after.0 (insert_idx x processed) after.1
    Progress-next = record {
      ordered_init = scanned.ascending;
      ordered = Ascending-insert x processed inv.ordered;
      apart = λ k.
          ground
            (arith, mem-after k, mem-insert_idx k x processed, inv.apart k, inv.ordered_init.0 k);
      below_init = λ k m. ground (arith, mem-after k, inv.below_init k);
      below = λ k m. ground (arith, mem-insert_idx k x processed, inv.below k, inv.below_init k);
      started =
          ground (arith, mem-after queue_idx, mem-insert_idx queue_idx x processed, inv.started);
      joined = Joined-after;
      closed = closed-after;
      same = scanned.same;
    }

  link_loop-Closed :
      (fuel queue_idx : ℕ) (init processed : List ℕ) (g : StmtGraph)
      → da.stmt_num < length processed + fuel
      → Progress queue_idx init processed g
      → (set : List ℕ) × (h : StmtGraph) × (link_loop fuel da.f_txn_id_queue da.stmt_num init
            processed g
          ≡ some (set, h))
        × Closed queue_idx set h
  unfolding link_loop
  link_loop-Closed zero queue_idx init processed g enough inv = absurd (
      omega (
        arith,
        distinct-length-below da.stmt_num processed (Ascending-distinct processed inv.ordered)
            inv.below,
      ))
  link_loop-Closed (suc fuel) queue_idx [] processed g enough inv = (
    processed,
    g,
    refl,
    record {
      in_order = inv.ordered;
      members = λ k. (λ m. inv.joined k (ground arith), Joined-mem queue_idx k processed g inv);
      same = inv.same;
    },
  )
  link_loop-Closed (suc fuel) queue_idx (x ∷ init) processed g enough inv =
      let next = after queue_idx x init processed g inv in
      let fresh : mem x processed ≡ false = ground (arith, inv.apart x) in
      link_loop-Closed fuel queue_idx next.0 (insert_idx x processed) next.1
        (omega (arith, length-insert_idx x processed fresh))
        (Progress-next queue_idx x init processed g inv)

-- For a place of the queue, `get_instrumented_stmt_set` returns, in ascending order, the places that
-- a chain of INSTRUMENT_DEPEND dependencies joins to it. The look-ups of the search add entries to
-- the graph of statements, but no dependency.
pub get_instrumented_stmt_set_closes :
    (da : Analyzer) (queue_idx : ℕ)
    → queue_idx < da.stmt_num
    → (set : List ℕ) × (h : StmtGraph) × (get_instrumented_stmt_set queue_idx da
        ≡ some (set, record da { stmt_dependency_graph = h }))
      × Ascending set
      × ((k : ℕ) → (mem k set ≡ true) ↔ Joined da queue_idx k)
      × SameDeps da.stmt_dependency_graph h
unfolding get_instrumented_stmt_set
get_instrumented_stmt_set_closes da queue_idx lt =
    let (set, h, returned, done) =
      link_loop-Closed da (suc da.stmt_num) queue_idx (queue_idx ∷ []) [] da.stmt_dependency_graph
        (omega arith)
        (record {
          ordered_init = ((λ k m. ground arith), tt);
          ordered = tt;
          apart = λ k. ground arith;
          below_init = λ k m. ground arith;
          below = λ k m. ground arith;
          started = ground arith;
          joined = λ k m.
              let here : queue_idx ≡ k = ground arith in subst (Joined da queue_idx) here itself;
          closed = λ i j m. ground arith;
          same = λ a b dt. refl;
        }) in
    (set, h, rw returned, done.in_order, done.members, done.same)
