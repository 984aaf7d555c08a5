-- ===== src/Txcheck/Reduce/Cycle.antt =====
-- Walks and cycles of a graph over the nodes below n, and how they change when a source is cleared.
use dbfuzz_multidb.Common.{
  ℕ, ◌<◌, ◌≡◌, inl, inr, false, ◌==◌, arith, Bool-cases, ltb, exists_from-false,
}
use dbfuzz_multidb.Txcheck.Reduce.{Matrix, clear_row, has_indegree}

-- An edge between two nodes of the graph.
abbrev pub Edge : Matrix → ℕ → ℕ → ℕ → Type 0
Edge g n i j = (i < n) × (j < n) × (0 < g i j)

-- A walk of at least one edge.
pub data Walk (g : Matrix) (n : ℕ) (i : ℕ) : ℕ → Type 0 where
  edge : {j : ℕ} → Edge g n i j → Walk g n i j
  step : {j k : ℕ} → Walk g n i j → Edge g n j k → Walk g n i k

-- A directed cycle: a walk from a node back to it.
abbrev pub HasCycle : Matrix → ℕ → Type 0
HasCycle g n = (i : ℕ) × Walk g n i i

pub Walk-cons : {g : Matrix} {n i j k : ℕ} → Edge g n i j → Walk g n j k → Walk g n i k
Walk-cons e (edge f) = step (edge e) f
Walk-cons e (step w f) = step (Walk-cons e w) f

-- A node that a walk leads to has an edge in.
pub Walk-last : {g : Matrix} {n i k : ℕ} → Walk g n i k → (j : ℕ) × Edge g n j k
Walk-last {i = i} (edge e) = (i, e)
Walk-last (step {j = j} w e) = (j, e)

pub Walk-first : {g : Matrix} {n i k : ℕ} → Walk g n i k → (j : ℕ) × Edge g n i j
Walk-first (edge {j = j} e) = (j, e)
Walk-first (step w e) = Walk-first w

-- The cycle of a matrix is a cycle of its transpose.
pub Walk-flip : {g : Matrix} {n i k : ℕ} → Walk g n i k → Walk (λ a b. g b a) n k i
Walk-flip (edge e) = edge (e.1, e.0, e.2)
Walk-flip (step w e) = Walk-cons (e.1, e.0, e.2) (Walk-flip w)

pub HasCycle-flip : (g : Matrix) (n : ℕ) → HasCycle g n → HasCycle (λ a b. g b a) n
HasCycle-flip g n (i, w) = (i, Walk-flip w)

-- More edges keep the walks.
pub Walk-mono :
    {g h : Matrix} {n i k : ℕ} → ((a b : ℕ) → 0 < g a b → 0 < h a b) → Walk g n i k → Walk h n i k
Walk-mono more (edge {j = j} e) = edge (e.0, e.1, more _ j e.2)
Walk-mono more (step {j = j} {k = k} w e) = step (Walk-mono more w) (e.0, e.1, more j k e.2)

module _ (g : Matrix) (n r : ℕ) (source : has_indegree g n r ≡ false) where
  into_source : (j : ℕ) → ¬ Edge g n j r
  into_source j e = absurd (ground (arith, exists_from-false (λ j. ltb 0 (g j r)) 0 n j source))

  edge_kept : (j k : ℕ) → (j == r) ≡ false → Edge g n j k → Edge (clear_row g r) n j k
  edge_kept j k ne e = (e.0, e.1, ground arith)

  not_source : (j k : ℕ) → Edge g n j k → (k == r) ≡ false
  not_source j k e = elim (Bool-cases (k == r)) [
    | inl q ↦
        let q' : k ≡ r = ground arith in absurd (into_source j (e.0, omega arith, rw (← q') e.2))
    | inr q ↦ q
  ]

  Walk-clear : {i k : ℕ} → (i == r) ≡ false → Walk g n i k → Walk (clear_row g r) n i k
  Walk-clear {i} ne (edge {j = j} e) = edge (edge_kept i j ne e)
  Walk-clear {i} ne (step {j = j} {k = k} w e) =
      let (before, last) = Walk-last w in
      step (Walk-clear ne w) (edge_kept j k (not_source before j last) e)

  -- Clearing the edges out of a node with no edge in keeps every cycle.
  pub HasCycle-clear : HasCycle g n → HasCycle (clear_row g r) n
  HasCycle-clear (i, w) =
      let (before, last) = Walk-last w in (i, Walk-clear (not_source before i last) w)

-- It makes none.
pub HasCycle-of_clear : (g : Matrix) (n r : ℕ) → HasCycle (clear_row g r) n → HasCycle g n
HasCycle-of_clear g n r (i, w) = (i, Walk-mono (λ a b h. ground arith) w)
