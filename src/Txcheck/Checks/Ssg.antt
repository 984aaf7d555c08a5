-- ===== src/Txcheck/Checks/Ssg.antt =====
-- The edges of the graph of `check_GSIb` (src/txcheck/dependency_analyzer.cc) that are there for a
-- READ_WRITE dependency alone, and the cycles with one of them.
use dbfuzz_multidb.Common.{
  ℕ, ◌+◌, ◌<◌, ◌≤◌, ◌≡◌, ◌≢◌, refl, ap, ◌⊎◌, inl, inr, Bool, true, false, List, [], ◌∷◌, arith,
  if◌then◌else◌, Bool-cases, ◌==◌, ◌&&◌, length, select,
}
use dbfuzz_multidb.Txcheck.Reduce.{Matrix}
use dbfuzz_multidb.Txcheck.Reduce.Cycle.{Edge, Walk, edge, step}
use dbfuzz_multidb.Txcheck.Analyzer.{
  Analyzer, DepSet, DependencyType, write_read, write_write, read_write, start_depend,
  strict_start_depend, instrument_depend, version_set_depend, overwrite_depend, inner_depend,
}
use dbfuzz_multidb.Txcheck.Checks.Cycles.{DsgEdge, Edge-DsgEdge}
use dbfuzz_multidb.Txcheck.Checks.{
  wanted_graph, gsib_set, is_rw_edge, dep_size, set_cell, without_rw,
}

-- READ_WRITE is the one dependency of the second transaction on the first.
pub record OnlyReadWrite (da : Analyzer) (i j : ℕ) : Type 0 where
  pub is_there : da.dependency_graph i j read_write ≡ true
  pub alone : (d : DependencyType) → da.dependency_graph i j d ≡ true → d ≡ read_write

-- The dependencies that the graph of `check_GSIb` is built from.
abbrev pub SsgEdge : Analyzer → ℕ → ℕ → Type 0
SsgEdge = DsgEdge (write_write ∷ write_read ∷ read_write ∷ strict_start_depend ∷ [])

-- A step of the cycle: an edge that is not there for a READ_WRITE dependency alone, or the one edge
-- from `a` to `b`.
abbrev pub CycleStep : Analyzer → ℕ → ℕ → ℕ → ℕ → Type 0
CycleStep da a b i j = (SsgEdge da i j × ¬ OnlyReadWrite da i j) ⊎ ((i ≡ a) × (j ≡ b))

pub data CycleWalk (da : Analyzer) (a b i : ℕ) : ℕ → Type 0 where
  one : {j : ℕ} → CycleStep da a b i j → CycleWalk da a b i j
  more : {j k : ℕ} → CycleWalk da a b i j → CycleStep da a b j k → CycleWalk da a b i k

abbrev bit : Bool → ℕ
bit b = if b then 1 else 0

-- How many of the kinds are in the set.
abbrev bits : DepSet → List DependencyType → ℕ
bits s [] = 0
bits s (d ∷ ds) = bit (s d) + bits s ds

length-select-bits : (s : DepSet) (ds : List DependencyType) → length (select s ds) ≡ bits s ds
length-select-bits s [] = refl
length-select-bits s (d ∷ ds) = ground (arith, length-select-bits s ds)

dep_size-bits :
    (s : DepSet)
    → dep_size s
      ≡ bits s (
          write_read ∷ write_write ∷ read_write ∷ start_depend ∷ strict_start_depend
          ∷ instrument_depend ∷ version_set_depend ∷ overwrite_depend ∷ inner_depend ∷ [])
dep_size-bits s = length-select-bits s (
    write_read ∷ write_write ∷ read_write ∷ start_depend ∷ strict_start_depend ∷ instrument_depend
    ∷ version_set_depend ∷ overwrite_depend ∷ inner_depend ∷ [])

dep_size-alone :
    (s : DepSet)
    → s read_write ≡ true
    → dep_size s ≤ 1
    → (d : DependencyType) → s d ≡ true
    → d ≡ read_write
dep_size-alone s there small read_write h = refl
dep_size-alone s there small write_read h =
    absurd (omega (arith, dep_size-bits s, ap bit there, ap bit h))
dep_size-alone s there small write_write h =
    absurd (omega (arith, dep_size-bits s, ap bit there, ap bit h))
dep_size-alone s there small start_depend h =
    absurd (omega (arith, dep_size-bits s, ap bit there, ap bit h))
dep_size-alone s there small strict_start_depend h =
    absurd (omega (arith, dep_size-bits s, ap bit there, ap bit h))
dep_size-alone s there small instrument_depend h =
    absurd (omega (arith, dep_size-bits s, ap bit there, ap bit h))
dep_size-alone s there small version_set_depend h =
    absurd (omega (arith, dep_size-bits s, ap bit there, ap bit h))
dep_size-alone s there small overwrite_depend h =
    absurd (omega (arith, dep_size-bits s, ap bit there, ap bit h))
dep_size-alone s there small inner_depend h =
    absurd (omega (arith, dep_size-bits s, ap bit there, ap bit h))

dep_size-one :
    (s : DepSet)
    → s read_write ≡ true
    → ((d : DependencyType) → s d ≡ true → d ≡ read_write)
    → dep_size s ≤ 1
dep_size-one s there alone = omega (
  arith,
  dep_size-bits s,
  ap bit there,
  ap bit (absent write_read (λ e. cc)),
  ap bit (absent write_write (λ e. cc)),
  ap bit (absent start_depend (λ e. cc)),
  ap bit (absent strict_start_depend (λ e. cc)),
  ap bit (absent instrument_depend (λ e. cc)),
  ap bit (absent version_set_depend (λ e. cc)),
  ap bit (absent overwrite_depend (λ e. cc)),
  ap bit (absent inner_depend (λ e. cc)),
)
  where
    absent : (d : DependencyType) → d ≢ read_write → s d ≡ false
    absent d other = elim (Bool-cases (s d)) [ inl h ↦ absurd (other (alone d h)) | inr h ↦ h ]

pub is_rw_edge-OnlyReadWrite :
    (da : Analyzer) (g : Matrix) (i j : ℕ) → is_rw_edge da g i j ≡ true → OnlyReadWrite da i j
is_rw_edge-OnlyReadWrite da g i j h = record {
  is_there = ground arith;
  alone = dep_size-alone (da.dependency_graph i j) (ground arith) (ground arith);
}

OnlyReadWrite-is_rw_edge :
    (da : Analyzer) (g : Matrix) (i j : ℕ)
    → 0 < g i j
    → OnlyReadWrite da i j
    → is_rw_edge da g i j ≡ true
OnlyReadWrite-is_rw_edge da g i j positive only =
    let small = dep_size-one (da.dependency_graph i j) only.is_there only.alone in
    let there = only.is_there in ground arith

module _ (da : Analyzer) (a b : ℕ) where
  Edge-CycleStep :
      (i j : ℕ)
      → Edge (set_cell (without_rw da (wanted_graph gsib_set da)) (a, b) 1) da.tid_num i j
      → CycleStep da a b i j
  Edge-CycleStep i j (below_i, below_j, positive) = elim (Bool-cases (i == a && j == b)) [
    | inl h ↦ inr (ground arith, ground arith)
    | inr h ↦ elim (Bool-cases (is_rw_edge da (wanted_graph gsib_set da) i j)) [
      | inl rw_edge ↦ absurd (ground arith)
      | inr other ↦
          let wanted : 0 < wanted_graph gsib_set da i j = ground arith in
          inl (
            (Edge-DsgEdge gsib_set da i j).0 (below_i, below_j, wanted),
            λ only.
                let clash =
                  OnlyReadWrite-is_rw_edge da (wanted_graph gsib_set da) i j wanted only in
                ground arith,
          )
    ]
  ]

  pub Walk-CycleWalk :
      {i j : ℕ}
      → Walk (set_cell (without_rw da (wanted_graph gsib_set da)) (a, b) 1) da.tid_num i j
      → CycleWalk da a b i j
  Walk-CycleWalk {i} (edge {j = j} e) = one (Edge-CycleStep i j e)
  Walk-CycleWalk (step {j = j} {k = k} w e) = more (Walk-CycleWalk w) (Edge-CycleStep j k e)
