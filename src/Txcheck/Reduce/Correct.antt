-- ===== src/Txcheck/Reduce/Correct.antt =====
-- The reductions end, and their result says whether the graph has a directed cycle.
use dbfuzz_multidb.Common.{
  ℕ, zero, suc, ◌+◌, ◌<◌, ◌≡◌, refl, ◌↔◌, ◌⊎◌, inl, inr, Bool, true, false, not, ◌&&◌, ◌==◌, arith,
  Bool-cases, Option-cases, none, some, List, [], ◌∷◌, length, mem, distinct, ltb, find_from-some,
  find_from-none, exists_from-true,
}
use dbfuzz_multidb.Common.Counting.{
  AllBelow, distinct-full, distinct-missing, distinct-length-below,
}
use dbfuzz_multidb.Txcheck.Reduce.{
  Matrix, clear_row, has_indegree, zero_indegree, Reduced, reduce_indegree_loop,
  reduce_graph_indegree,
}
use dbfuzz_multidb.Txcheck.Reduce.Cycle.{
  Edge, HasCycle, Walk-first, HasCycle-clear, HasCycle-of_clear,
}
use dbfuzz_multidb.Txcheck.Reduce.Walk.{HasCycle-of_inside}

-- What the loop keeps: the deleted nodes are different nodes without an edge out.
pub record Deleted (g : Matrix) (n : ℕ) (deleted : List ℕ) : Type 0 where
  pub different : distinct deleted ≡ true
  pub below : AllBelow n deleted
  pub no_out : (i j : ℕ) → mem i deleted ≡ true → g i j ≡ 0

-- What a reduction that returns (r, h) for the graph g has achieved.
pub record Outcome (g : Matrix) (n : ℕ) (r : Bool) (h : Matrix) : Type 0 where
  pub decides : (r ≡ true) ↔ HasCycle g n
  pub keeps : HasCycle h n ↔ HasCycle g n
  pub subgraph : (a b : ℕ) → (h a b ≡ g a b) ⊎ (h a b ≡ 0)
  pub emptied : (a b : ℕ) → r ≡ false → a < n → h a b ≡ 0

abbrev pub Returns : Matrix → ℕ → Reduced → Type 0
Returns g n reduced = (r : Bool) × (h : Matrix) × (reduced ≡ some (r, h)) × Outcome g n r h

module _ (g : Matrix) (n : ℕ) (deleted : List ℕ) (d : Deleted g n deleted) where
  no_edges : length deleted ≡ n → (a b : ℕ) → a < n → g a b ≡ 0
  no_edges e a b lt = d.no_out a b (distinct-full n deleted d.different d.below e a lt)

  no_cycle : length deleted ≡ n → ¬ HasCycle g n
  no_cycle e (i, w) =
      let (j, first) = Walk-first w in absurd (omega (arith, no_edges e i j first.0))

  finish : length deleted ≡ n → Outcome g n false g
  finish e = record {
    decides = (λ t. cc, λ c. absurd (no_cycle e c));
    keeps = (λ c. c, λ c. c);
    subgraph = λ a b. inl refl;
    emptied = λ a b _ lt. no_edges e a b lt;
  }

  abbrev IsLeft : ℕ → Type 0
  IsLeft i = mem i deleted ≡ false

  -- With no source left, each node that is left has an edge in from one that is left.
  before :
      zero_indegree g n deleted ≡ none
      → (i : ℕ) → i < n
      → IsLeft i
      → (j : ℕ) × Edge g n j i × IsLeft j
  before e i lt left =
      let some_in : has_indegree g n i ≡ true =
        ground
          (arith, find_from-none (λ k. not (mem k deleted) && not (has_indegree g n k)) 0 n i e) in
      let (j, _, below, positive) = exists_from-true (λ j. ltb 0 (g j i)) 0 n some_in in
      (
        j,
        (omega arith, lt, ground arith),
        elim (Bool-cases (mem j deleted)) [
          | inl m ↦ absurd (ground (arith, d.no_out j i m))
          | inr m ↦ m
        ],
      )

  stuck : length deleted < n → zero_indegree g n deleted ≡ none → HasCycle g n
  stuck short e =
      let (i, lt, left) = distinct-missing n deleted short in
      HasCycle-of_inside g n IsLeft (before e) i lt left

  stop : length deleted < n → zero_indegree g n deleted ≡ none → Outcome g n true g
  stop short e = record {
    decides = (λ _. stuck short e, λ _. refl);
    keeps = (λ c. c, λ c. c);
    subgraph = λ a b. inl refl;
    emptied = λ a b h. cc;
  }

  module _ (i : ℕ) (found : zero_indegree g n deleted ≡ some i) where
    found_facts : (i < n) × (mem i deleted ≡ false) × (has_indegree g n i ≡ false)
    found_facts =
        let (_, lt, test) =
          find_from-some (λ k. not (mem k deleted) && not (has_indegree g n k)) 0 n i found in
        (omega arith, ground arith, ground arith)

    Deleted-cons : Deleted (clear_row g i) n (i ∷ deleted)
    Deleted-cons = record {
      different = ground (arith, found_facts, d.different);
      below = λ a m. elim (Bool-cases (i == a)) [
        | inl q ↦ let p : i ≡ a = ground arith in rw (← p) found_facts.0
        | inr q ↦ d.below a (ground arith)
      ];
      no_out = λ a b m. elim (Bool-cases (i == a)) [
        | inl q ↦ ground arith
        | inr q ↦ ground (arith, d.no_out a b)
      ];
    }

    Outcome-clear : (r : Bool) (h : Matrix) → Outcome (clear_row g i) n r h → Outcome g n r h
    Outcome-clear r h o = record {
      decides = (λ e. back (o.decides.0 e), λ c. o.decides.1 (forth c));
      keeps = (λ c. back (o.keeps.0 c), λ c. o.keeps.1 (forth c));
      subgraph = λ a b. ground (arith, o.subgraph a b);
      emptied = o.emptied;
    }
      where
        back : HasCycle (clear_row g i) n → HasCycle g n
        back = HasCycle-of_clear g n i

        forth : HasCycle g n → HasCycle (clear_row g i) n
        forth = HasCycle-clear g n i found_facts.2

reduce_indegree_loop-Returns :
    (fuel : ℕ) (g : Matrix) (n : ℕ) (deleted : List ℕ)
    → length deleted + fuel ≡ suc n
    → Deleted g n deleted
    → Returns g n (reduce_indegree_loop fuel g n deleted)
unfolding reduce_indegree_loop
reduce_indegree_loop-Returns zero g n deleted size d =
    absurd (omega (arith, distinct-length-below n deleted d.different d.below))
reduce_indegree_loop-Returns (suc fuel) g n deleted size d =
    elim (Bool-cases (length deleted == n)) [
      | inl full ↦ (false, g, rw full, finish g n deleted d (ground arith))
      | inr more ↦
          let short : length deleted < n =
            ground (arith, distinct-length-below n deleted d.different d.below) in
          elim (Option-cases (zero_indegree g n deleted)) [
            | inl e ↦ (true, g, rw (more, e), stop g n deleted d short e)
            | inr (i, e) ↦
                let (r, h, returned, o) =
                  reduce_indegree_loop-Returns fuel (clear_row g i) n (i ∷ deleted) (omega arith)
                    (Deleted-cons g n deleted d i e) in
                (r, h, rw (more, e) returned, Outcome-clear g n deleted d i e r h o)
          ]
    ]

pub reduce_indegree-Returns : (g : Matrix) (n : ℕ) → Returns g n (reduce_graph_indegree g n)
unfolding reduce_graph_indegree
reduce_indegree-Returns g n =
    reduce_indegree_loop-Returns (suc n) g n [] (omega arith)
      (record { different = refl; below = λ a m. ground arith; no_out = λ i j m. ground arith })

-- `reduce_graph_indegree` returns, and it returns true exactly when the graph has a directed cycle.
-- The graph that it leaves behind has a cycle exactly when the given one has.
pub reduce_indegree_decides :
    (g : Matrix) (n : ℕ)
    → (r : Bool) × (h : Matrix) × (reduce_graph_indegree g n ≡ some (r, h))
      × ((r ≡ true) ↔ HasCycle g n)
      × (HasCycle h n ↔ HasCycle g n)
reduce_indegree_decides g n =
    let (r, h, e, o) = reduce_indegree-Returns g n in (r, h, e, o.decides, o.keeps)
