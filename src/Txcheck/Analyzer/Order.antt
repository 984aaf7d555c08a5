-- ===== src/Txcheck/Analyzer/Order.antt =====
-- The dependencies that follow from the order of the statements: `build_start_dependency`,
-- `build_stmt_start_dependency` and `build_stmt_inner_dependency` of
-- src/txcheck/dependency_analyzer.cc.
pub mod Scan
pub mod Edges
pub mod Precedes
use dbfuzz_multidb.Common.{
  ℕ, zero, suc, ◌-◌, Bool, true, false, not, ◌&&◌, ◌==◌, List, [], ◌∷◌, Option, none, some,
  if◌then◌else◌, get_or, range,
}
use dbfuzz_multidb.Txcheck.Analyzer.{
  Analyzer, Index, index_lt, DependencyType, start_depend, strict_start_depend, inner_depend,
  build_stmt_depend_from_stmt_idx, insert_txn_dependency,
}

-- A loop over a list whose body only changes the state.
unfoldable pub for_each {ℓ κ} : {A : Type ℓ} {S : Type κ} → (A → S → S) → List A → S → S
for_each body [] s = s
for_each body (x ∷ xs) s = for_each body xs (body x s)

-- The arrays that the scan of the queue fills. A tid is used once its first statement is seen.
pub record StartScan : Type 0 where
  pub used : ℕ → Bool
  pub strict_begin : ℕ → Index
  pub begin : ℕ → Index
  pub last : ℕ → Index

abbrev pub set_at {ℓ} : {A : Type ℓ} → ℕ → A → (ℕ → A) → ℕ → A
set_at i v f j = if j == i then v else f j

abbrev is_unset : Index → Bool
is_unset none = true
is_unset (some i) = false

-- One round: the first statement of a transaction is its start, the later ones set begin and end.
unfoldable pub scan_stmt : ℕ → ℕ → StartScan → StartScan
scan_stmt tid i s =
    if s.used tid
    then record s {
      begin = if is_unset (s.begin tid) then set_at tid (some i) s.begin else s.begin;
      last = if index_lt (s.last tid) (some i) then set_at tid (some i) s.last else s.last;
    }
    else record s {
      used = set_at tid true s.used;
      strict_begin = set_at tid (some i) s.strict_begin;
    }

abbrev pub scan_init : StartScan
scan_init = record {
  used = λ _. false;
  strict_begin = λ _. none;
  begin = λ _. none;
  last = λ _. none;
}

-- The loop over the queue, whose head stands at index `i`.
unfoldable pub scan_queue : ℕ → List ℕ → StartScan → StartScan
unfolding scan_stmt
scan_queue i [] s = s
scan_queue i (tid ∷ queue) s = scan_queue (suc i) queue (scan_stmt tid i s)

unfoldable pub build_stmt_start_dependency : ℕ → ℕ → DependencyType → Analyzer → Analyzer
unfolding for_each build_stmt_depend_from_stmt_idx
build_stmt_start_dependency prev_tid later_tid dt da =
    for_each
      (λ i s.
        if get_or da.f_txn_id_queue i 0 == prev_tid
        then for_each
            (λ j t.
              if get_or da.f_txn_id_queue j 0 == later_tid
              then build_stmt_depend_from_stmt_idx i j dt t
              else t)
            (range (suc i) (da.stmt_num - suc i)) s
        else s)
      (range 0 da.stmt_num) da

-- The two tests of the loop body for a pair of different transactions.
abbrev pub start_edge : Bool → ℕ → ℕ → DependencyType → Analyzer → Analyzer
start_edge test i j dt da =
    if test then build_stmt_start_dependency i j dt (insert_txn_dependency i j dt da) else da

abbrev pub start_pair : StartScan → ℕ → ℕ → Analyzer → Analyzer
start_pair s i j da =
    if i == j
    then da
    else start_edge (index_lt (s.last i) (s.strict_begin j)) i j strict_start_depend
        (start_edge (index_lt (s.last i) (s.begin j)) i j start_depend da)

unfoldable pub build_start_dependency : Analyzer → Analyzer
unfolding scan_queue for_each build_stmt_start_dependency insert_txn_dependency
build_start_dependency da =
    let s = scan_queue 0 da.f_txn_id_queue scan_init in
    for_each (λ i. for_each (λ j. start_pair s i j) (range 0 da.tid_num)) (range 0 da.tid_num)
      (record da {
        tid_strict_begin_idx = s.strict_begin;
        tid_begin_idx = s.begin;
        tid_end_idx = s.last;
      })

unfoldable pub build_stmt_inner_dependency : Analyzer → Analyzer
unfolding for_each build_stmt_depend_from_stmt_idx
build_stmt_inner_dependency da =
    for_each
      (λ i.
        for_each
          (λ j t.
            if get_or da.f_txn_id_queue j 0 == get_or da.f_txn_id_queue i 0
            then build_stmt_depend_from_stmt_idx j i inner_depend t
            else t)
          (range 0 i))
      (range 0 da.stmt_num) da
