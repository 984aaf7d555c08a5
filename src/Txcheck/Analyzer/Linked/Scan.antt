-- ===== src/Txcheck/Analyzer/Linked/Scan.antt =====
-- The `for` loop of `get_instrumented_stmt_set` finds the statements that are linked to one.
use dbfuzz_multidb.Common.{
  ℕ, ◌<◌, ◌≡◌, ap, ◌∙◌, Bool, true, false, not, ◌&&◌, ◌||◌, ◌==◌, ◌⊎◌, inl, inr, ltb, List, [], ◌∷◌,
  arith, if◌then◌else◌, Bool-cases, mem,
}
use dbfuzz_multidb.Txcheck.StmtId.{StmtId, of_stmt_idx}
use dbfuzz_multidb.Txcheck.Analyzer.{Analyzer, StmtGraph, instrument_depend}
use dbfuzz_multidb.Txcheck.Analyzer.Order.{for_each}
use dbfuzz_multidb.Txcheck.Analyzer.Linked.Sets.{
  mem-insert_idx, Ascending, Ascending-insert, SameDeps, touch-SameDeps,
}
use dbfuzz_multidb.Txcheck.Analyzer.Linked.{has_dep, insert_idx, is_linked, link_step}

three_cases : (i j : ℕ) → ((i < j) ⊎ (i ≡ j)) ⊎ (j < i)
three_cases i j = ground arith

module _ (da : Analyzer) where
  abbrev pub name_of : ℕ → StmtId
  name_of i = of_stmt_idx da.f_txn_id_queue i

  abbrev pub is_joined : ℕ → ℕ → Bool
  is_joined i j =
      (ltb i j && has_dep da.stmt_dependency_graph (name_of i) (name_of j) instrument_depend)
      || (not (ltb i j)
          && has_dep da.stmt_dependency_graph (name_of j) (name_of i) instrument_depend)

  -- Two places whose statements have an INSTRUMENT_DEPEND dependency, the earlier one first.
  abbrev pub IsLink : ℕ → ℕ → Type 0
  IsLink i j = is_joined i j ≡ true

  pub is_linked-joined :
      (i j : ℕ) → is_linked da.f_txn_id_queue da.stmt_dependency_graph i j ≡ is_joined i j
  unfolding of_stmt_idx
  is_linked-joined i j = elim (three_cases i j) [
    | inl (inl less) ↦
        let yes : ltb i j ≡ true = ground arith in
        let no : ltb j i ≡ false = ground arith in rw (yes, no) (ground arith)
    | inl (inr e) ↦ let no : ltb j j ≡ false = ground arith in rw (e, no) (ground arith)
    | inr more ↦
        let no : ltb i j ≡ false = ground arith in
        let yes : ltb j i ≡ true = ground arith in rw (yes, no) (ground arith)
  ]

  -- The places that a chain of such dependencies joins to `queue_idx`.
  pub data Joined (queue_idx : ℕ) : ℕ → Type 0 where
    itself : Joined queue_idx queue_idx
    next : {i j : ℕ} → Joined queue_idx i → j < da.stmt_num → IsLink i j → Joined queue_idx j

  abbrev pub found : ℕ → List ℕ → ℕ → Bool
  found select_idx processed k =
      not (mem k processed) && is_linked da.f_txn_id_queue da.stmt_dependency_graph select_idx k

  pub record Scanned (select_idx : ℕ) (processed is init : List ℕ) (next : List ℕ × StmtGraph)
      : Type 0 where
    pub members :
        (k : ℕ) → mem k next.0 ≡ (mem k init || (mem k is && found select_idx processed k))
    pub ascending : Ascending next.0
    pub same : SameDeps da.stmt_dependency_graph next.1

  link_step-Scanned :
      (select_idx i : ℕ) (processed init : List ℕ) (g : StmtGraph)
      → Ascending init
      → SameDeps da.stmt_dependency_graph g
      → Scanned select_idx processed
          (i ∷ [])
          init
          (link_step da.f_txn_id_queue select_idx processed i (init, g))
  link_step-Scanned select_idx i processed init g asc same = elim (Bool-cases (mem i processed)) [
    | inl m ↦ rw m (record {
      members = λ k. elim (Bool-cases (i == k)) [
        | inl e ↦ let here : i ≡ k = ground arith in ground (arith, ap (λ t. mem t processed) here)
        | inr e ↦ ground arith
      ];
      ascending = asc;
      same = same;
    })
    | inr m ↦ rw m (record {
      members = λ k. joined_members m k;
      ascending = elim (Bool-cases (is_linked da.f_txn_id_queue g select_idx i)) [
        | inl e ↦ rw e (Ascending-insert i init asc)
        | inr e ↦ rw e asc
      ];
      same = touch-SameDeps _ _ da.stmt_dependency_graph g same;
    })
  ]
    where
      same_link :
          is_linked da.f_txn_id_queue g select_idx i
          ≡ is_linked da.f_txn_id_queue da.stmt_dependency_graph select_idx i
      same_link = same _ _ instrument_depend

      joined_members :
          mem i processed ≡ false
          → (k : ℕ)
          → mem k (if is_linked da.f_txn_id_queue g select_idx i then insert_idx i init else init)
            ≡ (mem k init || (mem k (i ∷ []) && found select_idx processed k))
      joined_members m k = elim (Bool-cases (i == k)) [
        | inl e ↦
            let here : i ≡ k = ground arith in
            ground (
              arith,
              mem-insert_idx k i init,
              same_link,
              ap (λ t. mem t processed) here,
              ap (is_linked da.f_txn_id_queue da.stmt_dependency_graph select_idx) here,
            )
        | inr e ↦ ground (arith, mem-insert_idx k i init)
      ]

  pub scan-Scanned :
      (select_idx : ℕ) (processed is init : List ℕ) (g : StmtGraph)
      → Ascending init
      → SameDeps da.stmt_dependency_graph g
      → Scanned select_idx processed is init
          (for_each (link_step da.f_txn_id_queue select_idx processed) is (init, g))
  unfolding for_each
  scan-Scanned select_idx processed [] init g asc same = record {
    members = λ k. ground arith;
    ascending = asc;
    same = same;
  }
  scan-Scanned select_idx processed (i ∷ is) init g asc same =
      let first = link_step-Scanned select_idx i processed init g asc same in
      let next = link_step da.f_txn_id_queue select_idx processed i (init, g) in
      let rest = scan-Scanned select_idx processed is next.0 next.1 first.ascending first.same in
      record {
        members = λ k. rest.members k ∙ ground (arith, first.members k);
        ascending = rest.ascending;
        same = rest.same;
      }
