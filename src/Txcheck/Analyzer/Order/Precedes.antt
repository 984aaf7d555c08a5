-- ===== src/Txcheck/Analyzer/Order/Precedes.antt =====
-- What START_DEPEND and STRICT_START_DEPEND dependencies mean for the order of the statements.
use dbfuzz_multidb.Common.{
  ℕ, ◌≤◌, ◌<◌, ◌≡◌, ◌≢◌, ◌↔◌, inl, inr, true, false, List, some, arith, length,
}
use dbfuzz_multidb.Txcheck.Analyzer.{Analyzer, start_depend, strict_start_depend}
use dbfuzz_multidb.Txcheck.Analyzer.Order.{StartScan, scan_init, scan_queue, build_start_dependency}
use dbfuzz_multidb.Txcheck.Analyzer.Order.Scan.{
  IsAt, IsAt-lt, ScanOf, unseen, once, many, scan_queue-ScanOf,
}
use dbfuzz_multidb.Txcheck.Analyzer.Order.Edges.{build_start_dependency-depends}

-- All statements of transaction `a` stand before all of transaction `b` in the queue.
abbrev pub Precedes : List ℕ → ℕ → ℕ → Type 0
Precedes queue a b = (p q : ℕ) → IsAt queue a p → IsAt queue b q → p < q

module _ (queue : List ℕ) (s : StartScan) (t : ℕ) where
  -- With two statements, the end of a transaction is its last one.
  last_bound :
      (p p' : ℕ)
      → p < p'
      → IsAt queue t p
      → IsAt queue t p'
      → ScanOf queue (length queue) s t
      → (l : ℕ) × (s.last t ≡ some l) × IsAt queue t l × ((x : ℕ) → IsAt queue t x → x ≤ l)
  last_bound p p' lt at at' (unseen a b c d absent) = absurd (absent p (IsAt-lt queue t p at) at)
  last_bound p p' lt at at' (once k a b c d below at_k only) =
      absurd (omega (arith, only p (IsAt-lt queue t p at) at, only p' (IsAt-lt queue t p' at') at'))
  last_bound p p' lt at at' (many k b l u c d e order at_k at_b at_l only) = (
    l,
    e,
    at_l,
    λ x at_x. elim (only x (IsAt-lt queue t x at_x) at_x) [
      | inl first ↦ omega (arith, order.0, order.1)
      | inr between ↦ between.1
    ],
  )

  -- The strict begin of a transaction is its first statement.
  first_bound :
      (q : ℕ)
      → IsAt queue t q
      → ScanOf queue (length queue) s t
      → (k : ℕ) × (s.strict_begin t ≡ some k) × IsAt queue t k × ((y : ℕ) → IsAt queue t y → k ≤ y)
  first_bound q at (unseen a b c d absent) = absurd (absent q (IsAt-lt queue t q at) at)
  first_bound q at (once k a b c d below at_k only) =
      (k, b, at_k, λ y at_y. omega (arith, only y (IsAt-lt queue t y at_y) at_y))
  first_bound q at (many k b l u c d e order at_k at_b at_l only) = (
    k,
    c,
    at_k,
    λ y at_y. elim (only y (IsAt-lt queue t y at_y) at_y) [
      | inl first ↦ omega arith
      | inr between ↦ omega (arith, order.0, between.0)
    ],
  )

  -- With two statements, the begin of a transaction is its second one.
  second_bound :
      (q q' : ℕ)
      → q < q'
      → IsAt queue t q
      → IsAt queue t q'
      → ScanOf queue (length queue) s t
      → (k b : ℕ) × (s.begin t ≡ some b)
        × (k < b)
        × IsAt queue t k
        × IsAt queue t b
        × ((y y' : ℕ) → y < y' → IsAt queue t y → IsAt queue t y' → b ≤ y')
  second_bound q q' lt at at' (unseen a b c d absent) = absurd (absent q (IsAt-lt queue t q at) at)
  second_bound q q' lt at at' (once k a b c d below at_k only) =
      absurd (omega (arith, only q (IsAt-lt queue t q at) at, only q' (IsAt-lt queue t q' at') at'))
  second_bound q q' lt at at' (many k b l u c d e order at_k at_b at_l only) = (
    k,
    b,
    d,
    order.0,
    at_k,
    at_b,
    λ y y' before at_y at_y'. elim (only y' (IsAt-lt queue t y' at_y') at_y') [
      | inr between ↦ between.0
      | inl first ↦ elim (only y (IsAt-lt queue t y at_y) at_y) [
        | inl same ↦ omega (arith, order.0)
        | inr between ↦ omega (arith, order.0, between.0)
      ]
    ],
  )

-- All statements of transaction `a` stand before the statements of transaction `b` behind its first.
abbrev pub PrecedesRest : List ℕ → ℕ → ℕ → Type 0
PrecedesRest queue a b =
    (p q q' : ℕ) → IsAt queue a p → IsAt queue b q → IsAt queue b q' → q < q' → p < q'

-- Between two different transactions, of which the first has at least two statements and the second
-- at least one, `build_start_dependency` adds a STRICT_START_DEPEND dependency exactly when every
-- statement of the first stands before every statement of the second.
pub strict_start-Precedes :
    (da : Analyzer) (a b p p' q : ℕ)
    → a < da.tid_num
    → b < da.tid_num
    → a ≢ b
    → da.dependency_graph a b strict_start_depend ≡ false
    → p < p'
    → IsAt da.f_txn_id_queue a p
    → IsAt da.f_txn_id_queue a p'
    → IsAt da.f_txn_id_queue b q
    → ((build_start_dependency da).dependency_graph a b strict_start_depend ≡ true)
      ↔ Precedes da.f_txn_id_queue a b
strict_start-Precedes da a b p p' q ha hb ne fresh lt at at' at_q =
    let queue = da.f_txn_id_queue in
    let s = scan_queue 0 queue scan_init in
    let (l, last_l, at_l, up) = last_bound queue s a p p' lt at at' (scan_queue-ScanOf queue a) in
    let (k, first_k, at_k, down) = first_bound queue s b q at_q (scan_queue-ScanOf queue b) in
    let built = build_start_dependency-depends da a b strict_start_depend ha hb ne in
    (
      λ edge x y at_x at_y. ground (arith, up x at_x, down y at_y, built),
      λ ahead. ground (arith, ahead l k at_l at_k, built),
    )

-- Between two different transactions that have at least two statements each, `build_start_dependency`
-- adds a START_DEPEND dependency exactly when every statement of the first stands before every
-- statement of the second but its first.
pub start-PrecedesRest :
    (da : Analyzer) (a b p p' q q' : ℕ)
    → a < da.tid_num
    → b < da.tid_num
    → a ≢ b
    → da.dependency_graph a b start_depend ≡ false
    → p < p'
    → IsAt da.f_txn_id_queue a p
    → IsAt da.f_txn_id_queue a p'
    → q < q'
    → IsAt da.f_txn_id_queue b q
    → IsAt da.f_txn_id_queue b q'
    → ((build_start_dependency da).dependency_graph a b start_depend ≡ true)
      ↔ PrecedesRest da.f_txn_id_queue a b
start-PrecedesRest da a b p p' q q' ha hb ne fresh lt at at' lt_q at_q at_q' =
    let queue = da.f_txn_id_queue in
    let s = scan_queue 0 queue scan_init in
    let (l, last_l, at_l, up) = last_bound queue s a p p' lt at at' (scan_queue-ScanOf queue a) in
    let (k, m, begin_m, before, at_k, at_m, down) =
      second_bound queue s b q q' lt_q at_q at_q' (scan_queue-ScanOf queue b) in
    let built = build_start_dependency-depends da a b start_depend ha hb ne in
    (
      λ edge x y y' at_x at_y at_y' below.
          ground (arith, up x at_x, down y y' below at_y at_y', built),
      λ ahead. ground (arith, ahead l k m at_l at_k at_m before, built),
    )
