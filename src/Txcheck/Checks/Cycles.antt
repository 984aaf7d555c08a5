-- ===== src/Txcheck/Checks/Cycles.antt =====
-- What the checks that look for a cycle decide.
use dbfuzz_multidb.Common.{ℕ, ◌<◌, ◌≡◌, ap, ◌↔◌, Bool, true, List, [], ◌∷◌, some, arith, any}
use dbfuzz_multidb.Txcheck.Usage.{is_commit}
use dbfuzz_multidb.Txcheck.Reduce.{Matrix}
use dbfuzz_multidb.Txcheck.Reduce.Cycle.{Edge, Walk, edge, step, HasCycle}
use dbfuzz_multidb.Txcheck.Reduce.Correct.{reduce_indegree-Returns}
use dbfuzz_multidb.Txcheck.Reduce.Transpose.{reduce_outdegree-Returns}
use dbfuzz_multidb.Txcheck.Analyzer.{Analyzer, DependencyType, write_read, write_write, read_write}
use dbfuzz_multidb.Txcheck.Checks.{
  status_of, wanted_graph, has_cycle, reduced_result, ww_wr_set, ww_wr_rw_set, check_G1c,
  check_G2_item,
}

pub has_cycle_decides :
    (g : Matrix) (n : ℕ) → (r : Bool) × (has_cycle g n ≡ some r) × ((r ≡ true) ↔ HasCycle g n)
unfolding has_cycle
has_cycle_decides g n =
    let (r, h, e, o) = reduce_indegree-Returns g n in
    let (r', h', e', o') = reduce_outdegree-Returns h n in
    (
      r',
      rw (e, has_cycle) (ap reduced_result e'),
      (λ t. o.keeps.0 (o'.decides.0 t), λ c. o'.decides.1 (o.keeps.1 c)),
    )

-- An edge of the direct serialization graph: both transactions are committed, and the second
-- depends on the first in one of the given ways.
pub record DsgEdge (wanted : List DependencyType) (da : Analyzer) (i j : ℕ) : Type 0 where
  pub below : (i < da.tid_num) × (j < da.tid_num)
  pub committed : (is_commit (status_of da i) ≡ true) × (is_commit (status_of da j) ≡ true)
  pub depends : any (da.dependency_graph i j) wanted ≡ true

pub data DsgWalk (wanted : List DependencyType) (da : Analyzer) (i : ℕ) : ℕ → Type 0 where
  one : {j : ℕ} → DsgEdge wanted da i j → DsgWalk wanted da i j
  more : {j k : ℕ} → DsgWalk wanted da i j → DsgEdge wanted da j k → DsgWalk wanted da i k

-- A directed cycle of that graph.
abbrev pub DsgCycle : List DependencyType → Analyzer → Type 0
DsgCycle wanted da = (i : ℕ) × DsgWalk wanted da i i

module _ (wanted : List DependencyType) (da : Analyzer) where
  pub Edge-DsgEdge :
      (i j : ℕ) → Edge (wanted_graph wanted da) da.tid_num i j ↔ DsgEdge wanted da i j
  Edge-DsgEdge i j = (
    λ e. record { below = (e.0, e.1); committed = ground arith; depends = ground arith },
    λ d. (d.below.0, d.below.1, ground (arith, d.committed, d.depends)),
  )

  to_dsg : {i j : ℕ} → Walk (wanted_graph wanted da) da.tid_num i j → DsgWalk wanted da i j
  to_dsg {i} (edge {j = j} e) = one ((Edge-DsgEdge i j).0 e)
  to_dsg (step {j = j} {k = k} w e) = more (to_dsg w) ((Edge-DsgEdge j k).0 e)

  of_dsg : {i j : ℕ} → DsgWalk wanted da i j → Walk (wanted_graph wanted da) da.tid_num i j
  of_dsg {i} (one {j = j} e) = edge ((Edge-DsgEdge i j).1 e)
  of_dsg (more {j = j} {k = k} w e) = step (of_dsg w) ((Edge-DsgEdge j k).1 e)

  pub HasCycle-DsgCycle : HasCycle (wanted_graph wanted da) da.tid_num ↔ DsgCycle wanted da
  HasCycle-DsgCycle = (λ (i, w). (i, to_dsg w), λ (i, w). (i, of_dsg w))

  pub has_cycle-DsgCycle :
      (r : Bool) × (has_cycle (wanted_graph wanted da) da.tid_num ≡ some r)
      × ((r ≡ true) ↔ DsgCycle wanted da)
  has_cycle-DsgCycle =
      let (r, e, o) = has_cycle_decides (wanted_graph wanted da) da.tid_num in
      (r, e, (λ t. HasCycle-DsgCycle.0 (o.0 t), λ c. o.1 (HasCycle-DsgCycle.1 c)))

-- `check_G1c` returns, and it returns true exactly when the committed transactions have a directed
-- cycle of WRITE_WRITE and WRITE_READ dependencies.
pub check_G1c_decides :
    (da : Analyzer)
    → (r : Bool) × (check_G1c da ≡ some r)
      × ((r ≡ true) ↔ DsgCycle (write_write ∷ write_read ∷ []) da)
unfolding check_G1c
check_G1c_decides da = has_cycle-DsgCycle ww_wr_set da

-- `check_G2_item` returns, and it returns true exactly when the committed transactions have a
-- directed cycle of WRITE_WRITE, WRITE_READ and READ_WRITE dependencies, whether or not a READ_WRITE
-- dependency is among them.
pub check_G2_item_decides :
    (da : Analyzer)
    → (r : Bool) × (check_G2_item da ≡ some r)
      × ((r ≡ true) ↔ DsgCycle (write_write ∷ write_read ∷ read_write ∷ []) da)
unfolding check_G2_item
check_G2_item_decides da = has_cycle-DsgCycle ww_wr_rw_set da
