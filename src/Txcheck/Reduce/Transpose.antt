-- ===== src/Txcheck/Reduce/Transpose.antt =====
-- The reduction by out-degree, through the transposed graph.
use dbfuzz_multidb.Common.{
  ℕ, zero, suc, ◌<◌, ◌≡◌, refl, ◌↔◌, ◌⊎◌, Bool, true, false, ◌==◌, Option, none, some, List, [],
  ◌∷◌, length, if◌then◌else◌,
}
use dbfuzz_multidb.Txcheck.Reduce.{
  Matrix, zero_indegree, Reduced, reduce_indegree_loop, reduce_outdegree_loop,
  reduce_graph_indegree, reduce_graph_outdegree,
}
use dbfuzz_multidb.Txcheck.Reduce.Cycle.{HasCycle, HasCycle-flip}
use dbfuzz_multidb.Txcheck.Reduce.Correct.{reduce_indegree-Returns}

abbrev pub flip : Matrix → Matrix
flip g a b = g b a

abbrev flip_result : Reduced → Reduced
flip_result none = none
flip_result (some (r, h)) = some (r, flip h)

flip_result-step :
    (full : Bool) (found : Option ℕ) (b : Bool) (g : Matrix) (next next' : ℕ → Reduced)
    → ((i : ℕ) → next i ≡ flip_result (next' i))
    → (if full then some (b, g) else (elim found [ none ↦ some (true, g) | some i ↦ next i ]))
      ≡ flip_result (
          if full
          then some (b, flip g)
          else (elim found [ none ↦ some (true, flip g) | some i ↦ next' i ]))
flip_result-step true found b g next next' h = refl
flip_result-step false none b g next next' h = refl
flip_result-step false (some i) b g next next' h = h i

-- The reduction by out-degree is the reduction by in-degree of the transposed graph.
reduce_outdegree_loop-flip :
    (fuel : ℕ) (g : Matrix) (n : ℕ) (deleted : List ℕ)
    → reduce_outdegree_loop fuel g n deleted
      ≡ flip_result (reduce_indegree_loop fuel (flip g) n deleted)
unfolding reduce_indegree_loop reduce_outdegree_loop
reduce_outdegree_loop-flip zero g n deleted = refl
reduce_outdegree_loop-flip (suc fuel) g n deleted =
    flip_result-step (length deleted == n) (zero_indegree (flip g) n deleted) false g _ _
      (λ i. reduce_outdegree_loop-flip fuel _ n (i ∷ deleted))

pub reduce_outdegree-flip :
    (g : Matrix) (n : ℕ)
    → reduce_graph_outdegree g n ≡ flip_result (reduce_graph_indegree (flip g) n)
unfolding reduce_graph_indegree reduce_graph_outdegree
reduce_outdegree-flip g n = reduce_outdegree_loop-flip (suc n) g n []

-- What the reduction by out-degree achieves: columns are emptied in place of rows.
pub record OutOutcome (g : Matrix) (n : ℕ) (r : Bool) (h : Matrix) : Type 0 where
  pub decides : (r ≡ true) ↔ HasCycle g n
  pub keeps : HasCycle h n ↔ HasCycle g n
  pub subgraph : (a b : ℕ) → (h a b ≡ g a b) ⊎ (h a b ≡ 0)
  pub emptied : (a b : ℕ) → r ≡ false → b < n → h a b ≡ 0

abbrev pub OutReturns : Matrix → ℕ → Reduced → Type 0
OutReturns g n reduced = (r : Bool) × (h : Matrix) × (reduced ≡ some (r, h)) × OutOutcome g n r h

pub reduce_outdegree-Returns : (g : Matrix) (n : ℕ) → OutReturns g n (reduce_graph_outdegree g n)
reduce_outdegree-Returns g n =
    let (r, h, e, o) = reduce_indegree-Returns (flip g) n in
    (
      r,
      flip h,
      rw (reduce_outdegree-flip g n, e),
      record {
        decides =
            (λ t. HasCycle-flip (flip g) n (o.decides.0 t), λ c. o.decides.1 (HasCycle-flip g n c));
        keeps = (
          λ c. HasCycle-flip (flip g) n (o.keeps.0 (HasCycle-flip (flip h) n c)),
          λ c. HasCycle-flip h n (o.keeps.1 (HasCycle-flip g n c)),
        );
        subgraph = λ a b. o.subgraph b a;
        emptied = λ a b e lt. o.emptied b a e lt;
      },
    )

-- `reduce_graph_outdegree` returns, and it returns true exactly when the graph has a directed cycle.
-- The graph that it leaves behind has a cycle exactly when the given one has.
pub reduce_outdegree_decides :
    (g : Matrix) (n : ℕ)
    → (r : Bool) × (h : Matrix) × (reduce_graph_outdegree g n ≡ some (r, h))
      × ((r ≡ true) ↔ HasCycle g n)
      × (HasCycle h n ↔ HasCycle g n)
reduce_outdegree_decides g n =
    let (r, h, e, o) = reduce_outdegree-Returns g n in (r, h, e, o.decides, o.keeps)
