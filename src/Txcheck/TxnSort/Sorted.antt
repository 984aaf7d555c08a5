-- ===== src/Txcheck/TxnSort/Sorted.antt =====
-- Topological order, and why it excludes a cycle.
use dbfuzz_multidb.Common.{
  ℕ, ◌≡◌, inl, inr, true, false, ◌||◌, List, [], ◌∷◌, ◌++◌, arith, mem, ◌==◌, Bool-cases,
}
use dbfuzz_multidb.Txcheck.Reduce.{Matrix}
use dbfuzz_multidb.Txcheck.Reduce.Cycle.{Edge, Walk, edge, step}

module _ (g : Matrix) (n : ℕ) where
  -- Each node of the list is new, and its edges come from nodes before it or in `seen`.
  abbrev pub Topological : List ℕ → List ℕ → Type 0
  Topological seen [] = Unit {0}
  Topological seen (j ∷ js) =
      (mem j seen ≡ false)
      × ((i : ℕ) → Edge g n i j → mem i seen ≡ true)
      × Topological (j ∷ seen) js

  pub Topological-append :
      (x : ℕ) (js seen : List ℕ)
      → Topological seen js
      → mem x seen ≡ false
      → mem x js ≡ false
      → ((i : ℕ) → Edge g n i x → (mem i seen || mem i js) ≡ true)
      → Topological seen (js ++ x ∷ [])
  Topological-append x [] seen t fresh absent into = (fresh, λ i e. ground (arith, into i e), tt)
  Topological-append x (j ∷ js) seen t fresh absent into = (
    t.0,
    t.1,
    Topological-append x js (j ∷ seen) t.2 (ground arith) (ground arith)
        (λ i e. ground (arith, into i e)),
  )

  -- With each node the set holds the nodes that have an edge to it.
  abbrev Closed : List ℕ → Type 0
  Closed seen = (i j : ℕ) → Edge g n i j → mem j seen ≡ true → mem i seen ≡ true

  Walk-Closed :
      {i k : ℕ} (seen : List ℕ) → Closed seen → Walk g n i k → mem k seen ≡ true → mem i seen ≡ true
  Walk-Closed {i} seen closed (edge {j = j} e) m = closed i j e m
  Walk-Closed seen closed (step {j = j} {k = k} w e) m = Walk-Closed seen closed w (closed j k e m)

  Closed-cons :
      (j : ℕ) (seen : List ℕ)
      → Closed seen
      → ((i : ℕ) → Edge g n i j → mem i seen ≡ true)
      → Closed (j ∷ seen)
  Closed-cons j seen closed into i k e m = elim (Bool-cases (j == k)) [
    | inl q ↦
        let same : j ≡ k = ground arith in
        let old : mem i seen ≡ true = into i (rw same e) in ground arith
    | inr q ↦ ground (arith, closed i k e)
  ]

  cycle_into :
      (j : ℕ) (seen : List ℕ)
      → Closed seen
      → ((i : ℕ) → Edge g n i j → mem i seen ≡ true)
      → Walk g n j j
      → mem j seen ≡ true
  cycle_into j seen closed into (edge e) = into j e
  cycle_into j seen closed into (step {j = k} w e) = Walk-Closed seen closed w (into k e)

  pub Topological-no_cycle :
      (js seen : List ℕ)
      → Topological seen js
      → Closed seen
      → (k : ℕ) → mem k js ≡ true
      → ¬ Walk g n k k
  Topological-no_cycle [] seen t closed k m w = absurd (ground arith)
  Topological-no_cycle (j ∷ js) seen t closed k m w = elim (Bool-cases (j == k)) [
    | inl q ↦
        let same : j ≡ k = ground arith in
        let back = cycle_into j seen closed t.1 (rw same w) in absurd (ground arith)
    | inr q ↦
        Topological-no_cycle js (j ∷ seen) t.2 (Closed-cons j seen closed t.1) k (ground arith) w
  ]
