-- ===== src/Txcheck/Reduce.antt =====
-- The two graph reductions of src/txcheck/dependency_analyzer.cc, `reduce_graph_indegree` and
-- `reduce_graph_outdegree`. `int **direct_graph` is a function of the two indices, of which the
-- code reads and writes those below `length` alone. The `while (1)` loop runs on fuel: `none` means
-- that the fuel ran out, and a loop over n nodes is given n + 1 rounds.
pub mod Cycle
pub mod Walk
pub mod Correct
pub mod Transpose
use dbfuzz_multidb.Common.{
  ℕ, zero, suc, Bool, true, false, not, ◌&&◌, Option, none, some, List, [], ◌∷◌, ◌==◌, ltb,
  if◌then◌else◌, length, mem, find_from, exists_from,
}

abbrev pub Matrix : Type 0
Matrix = ℕ → ℕ → ℕ

-- `for (j = 0; j < length; j++) direct_graph[i][j] = 0`
abbrev pub clear_row : Matrix → ℕ → Matrix
clear_row g i a b = if a == i then 0 else g a b

-- `for (j = 0; j < length; j++) direct_graph[j][i] = 0`
abbrev pub clear_column : Matrix → ℕ → Matrix
clear_column g i a b = if b == i then 0 else g a b

-- The inner loops that set `has_indegree` and `has_outdegree`.
abbrev pub has_indegree : Matrix → ℕ → ℕ → Bool
has_indegree g n i = exists_from (λ j. ltb 0 (g j i)) 0 n

abbrev pub has_outdegree : Matrix → ℕ → ℕ → Bool
has_outdegree g n i = exists_from (λ j. ltb 0 (g i j)) 0 n

-- The loops that find a node that is not deleted and has no edge in, or none out.
abbrev pub zero_indegree : Matrix → ℕ → List ℕ → Option ℕ
zero_indegree g n deleted = find_from (λ i. not (mem i deleted) && not (has_indegree g n i)) 0 n

abbrev pub zero_outdegree : Matrix → ℕ → List ℕ → Option ℕ
zero_outdegree g n deleted = find_from (λ i. not (mem i deleted) && not (has_outdegree g n i)) 0 n

-- The result and the graph that is left behind, which the callers go on with.
abbrev pub Reduced : Type 0
Reduced = Option (Bool × Matrix)

pub reduce_indegree_loop : ℕ → Matrix → ℕ → List ℕ → Reduced
reduce_indegree_loop zero g n deleted = none
reduce_indegree_loop (suc fuel) g n deleted =
    if length deleted == n then some (false, g) else (elim (zero_indegree g n deleted) [
      | none ↦ some (true, g)
      | some i ↦ reduce_indegree_loop fuel (clear_row g i) n (i ∷ deleted)
    ])

pub reduce_outdegree_loop : ℕ → Matrix → ℕ → List ℕ → Reduced
reduce_outdegree_loop zero g n deleted = none
reduce_outdegree_loop (suc fuel) g n deleted =
    if length deleted == n then some (false, g) else (elim (zero_outdegree g n deleted) [
      | none ↦ some (true, g)
      | some i ↦ reduce_outdegree_loop fuel (clear_column g i) n (i ∷ deleted)
    ])

unfoldable pub reduce_graph_indegree : Matrix → ℕ → Reduced
unfolding reduce_indegree_loop
reduce_graph_indegree g n = reduce_indegree_loop (suc n) g n []

unfoldable pub reduce_graph_outdegree : Matrix → ℕ → Reduced
unfolding reduce_outdegree_loop
reduce_graph_outdegree g n = reduce_outdegree_loop (suc n) g n []
