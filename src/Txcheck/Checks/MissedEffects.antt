-- ===== src/Txcheck/Checks/MissedEffects.antt =====
-- What `check_GSIb` reports is there: the edges that it puts back are READ_WRITE edges of the graph
-- of the committed transactions, and the cycle that it saw is a cycle of that graph.
use mathlib.Core.List.{Memᴰ}
use mathlib.Core.List.Memᴰ
use dbfuzz_multidb.Common.{
  ℕ, zero, suc, ◌+◌, ◌<◌, ◌≡◌, refl, ap, sym, subst, ◌⊎◌, inl, inr, Bool, true, false, List, [],
  ◌∷◌, some, arith, if◌then◌else◌, Bool-cases, range,
}
use dbfuzz_multidb.Txcheck.Reduce.{Matrix}
use dbfuzz_multidb.Txcheck.Reduce.Cycle.{HasCycle, Walk-mono}
use dbfuzz_multidb.Txcheck.Reduce.Correct.{reduce_indegree-Returns}
use dbfuzz_multidb.Txcheck.Reduce.Transpose.{reduce_outdegree-Returns}
use dbfuzz_multidb.Txcheck.Analyzer.{Analyzer}
use dbfuzz_multidb.Txcheck.Checks.Cycles.{Edge-DsgEdge}
use dbfuzz_multidb.Txcheck.Checks.Ssg.{
  OnlyReadWrite, SsgEdge, CycleWalk, is_rw_edge-OnlyReadWrite, Walk-CycleWalk,
}
use dbfuzz_multidb.Txcheck.Checks.{
  wanted_graph, gsib_set, is_rw_edge, set_cell, rw_edges_of, row_rw_edges, without_rw, rw_loop,
  check_rw_edges, check_gsib,
}

-- Every edge of the first graph is one of the second.
abbrev IsSubgraph : Matrix → Matrix → Type 0
IsSubgraph g h = (a b : ℕ) → 0 < g a b → 0 < h a b

set_cell-IsSubgraph :
    (g h : Matrix) (e : ℕ × ℕ) → IsSubgraph g h → IsSubgraph (set_cell g e 1) (set_cell h e 1)
set_cell-IsSubgraph g h (i, j) sub a b positive = ground (arith, sub a b)

HasCycle-IsSubgraph : (g h : Matrix) (n : ℕ) → IsSubgraph g h → HasCycle g n → HasCycle h n
HasCycle-IsSubgraph g h n sub (i, w) = (i, Walk-mono sub w)

range-below : (i n k : ℕ) → Memᴰ k (range i n) → k < i + n
range-below i zero k m = absurd (Memᴰ.not-nil m)
range-below i (suc n) k m = elim (Memᴰ.cases_cons m) [
  | inl q ↦ omega arith
  | inr later ↦ let below = range-below (suc i) n k later in omega arith
]

below_start : (n k : ℕ) → Memᴰ k (range 0 n) → k < n
below_start n k m = let below = range-below 0 n k m in omega arith

-- What the loop reports: whether an edge closes a cycle, at least if it says so.
abbrev LoopReport : ℕ → List (ℕ × ℕ) → Matrix → Bool → Type 0
LoopReport n es base false = Unit
LoopReport n es base true = (e : ℕ × ℕ) × Memᴰ e es × HasCycle (set_cell base e 1) n

LoopReport-tail :
    (n : ℕ) (e : ℕ × ℕ) (es : List (ℕ × ℕ)) (base : Matrix) (r : Bool)
    → LoopReport n es base r
    → LoopReport n (e ∷ es) base r
LoopReport-tail n e es base false p = tt
LoopReport-tail n e es base true (f, m, c) = (f, Memᴰ.tail m, c)

rw_loop-reports :
    (n : ℕ) (es : List (ℕ × ℕ)) (g base : Matrix)
    → IsSubgraph g base
    → (r : Bool) × (rw_loop n es g ≡ some r) × LoopReport n es base r
unfolding rw_loop
rw_loop-reports n [] g base sub = (false, refl, tt)
rw_loop-reports n (e ∷ es) g base sub =
    let (hit, h, returned, o) = reduce_indegree-Returns (set_cell g e 1) n in
    elim (Bool-cases hit) [
      | inl found ↦ (
        true,
        rw (returned, rw_loop) (rw found),
        (
          e,
          Memᴰ.head refl,
          HasCycle-IsSubgraph _ _ n (set_cell-IsSubgraph g base e sub) (o.decides.0 found),
        ),
      )
      | inr missed ↦
          let (r, k, p) = rw_loop-reports n es (set_cell h e 0) base (left g h e sub o.subgraph) in
          (r, rw (returned, rw_loop) (rw missed k), LoopReport-tail n e es base r p)
    ]
  where
    left :
        (g h : Matrix) (e : ℕ × ℕ)
        → IsSubgraph g base
        → ((a b : ℕ) → (h a b ≡ set_cell g e 1 a b) ⊎ (h a b ≡ 0))
        → IsSubgraph (set_cell h e 0) base
    left g h (i, j) sub kept a b positive = ground (arith, sub a b, kept a b)

row_rw_edges-mem :
    (p : ℕ → Bool) (i : ℕ) (js : List ℕ) (e : ℕ × ℕ)
    → Memᴰ e (row_rw_edges p i js)
    → (e.0 ≡ i) × (p e.1 ≡ true)
row_rw_edges-mem p i [] e m = absurd (Memᴰ.not-nil m)
row_rw_edges-mem p i (j ∷ js) e m = elim (Bool-cases (p j)) [
  | inl pass ↦ elim (Memᴰ.cases_cons (pick m pass)) [
    | inl q ↦ (ap (λ (k : ℕ × ℕ). k.0) q, rw q pass)
    | inr m' ↦ row_rw_edges-mem p i js e m'
  ]
  | inr skip ↦ row_rw_edges-mem p i js e (rw skip at m)
]
  where
    pick : Memᴰ e (row_rw_edges p i (j ∷ js)) → p j ≡ true → Memᴰ e ((i, j) ∷ row_rw_edges p i js)
    pick m pass = rw pass at m

rw_edges_of-mem :
    (da : Analyzer) (g : Matrix) (n : ℕ) (is : List ℕ) (e : ℕ × ℕ)
    → Memᴰ e (rw_edges_of da g n is)
    → is_rw_edge da g e.0 e.1 ≡ true
rw_edges_of-mem da g n [] e m = absurd (Memᴰ.not-nil m)
rw_edges_of-mem da g n (i ∷ is) e m =
    elim (Memᴰ.append_cases (row_rw_edges (is_rw_edge da g i) i (range 0 n)) m) [
      | inl here ↦ let (q, p) = row_rw_edges-mem (is_rw_edge da g i) i (range 0 n) e here in rw q p
      | inr there ↦ rw_edges_of-mem da g n is e there
    ]

-- G-SIb: between committed transactions an edge for a READ_WRITE dependency alone, and a cycle that
-- has no other such edge.
pub record MissedEffects (da : Analyzer) : Type 0 where
  pub from : ℕ
  pub to : ℕ
  pub is_edge : SsgEdge da from to
  pub is_rw : OnlyReadWrite da from to
  pub on_cycle : ℕ
  pub cycle : CycleWalk da from to on_cycle on_cycle

is_rw_edge-kept :
    (da : Analyzer) (g h : Matrix) (a b : ℕ)
    → (h a b ≡ g a b) ⊎ (h a b ≡ 0)
    → is_rw_edge da h a b ≡ true
    → is_rw_edge da g a b ≡ true
is_rw_edge-kept da g h a b kept e = elim kept [
  | inl same ↦ rw same at e
  | inr gone ↦ let bad : false ≡ true = rw gone at e in cc
]

without_rw-IsSubgraph :
    (da : Analyzer) (g h : Matrix)
    → ((a b : ℕ) → (h a b ≡ g a b) ⊎ (h a b ≡ 0))
    → IsSubgraph (without_rw da h) (without_rw da g)
without_rw-IsSubgraph da g h kept a b positive = elim (kept a b) [
  | inl same ↦ rw same at positive
  | inr gone ↦ absurd (bad (rw gone at positive))
]
  where
    bad : ¬ (0 < (if false then 0 else 0))
    bad p = omega arith

row_rw_edges-below :
    (p : ℕ → Bool) (i : ℕ) (js : List ℕ) (e : ℕ × ℕ) → Memᴰ e (row_rw_edges p i js) → Memᴰ e.1 js
row_rw_edges-below p i [] e m = absurd (Memᴰ.not-nil m)
row_rw_edges-below p i (j ∷ js) e m = elim (Bool-cases (p j)) [
  | inr skip ↦ Memᴰ.tail (row_rw_edges-below p i js e (rw skip at m))
  | inl pass ↦ elim (Memᴰ.cases_cons (pick m pass)) [
    | inl q ↦ Memᴰ.head (ap (λ (k : ℕ × ℕ). k.1) q)
    | inr m' ↦ Memᴰ.tail (row_rw_edges-below p i js e m')
  ]
]
  where
    pick : Memᴰ e (row_rw_edges p i (j ∷ js)) → p j ≡ true → Memᴰ e ((i, j) ∷ row_rw_edges p i js)
    pick m pass = rw pass at m

rw_edges_of-below :
    (da : Analyzer) (g : Matrix) (n : ℕ) (is : List ℕ) (e : ℕ × ℕ)
    → Memᴰ e (rw_edges_of da g n is)
    → ((k : ℕ) → Memᴰ k is → k < n)
    → (e.0 < n) × (e.1 < n)
rw_edges_of-below da g n [] e m below = absurd (Memᴰ.not-nil m)
rw_edges_of-below da g n (i ∷ is) e m below =
    elim (Memᴰ.append_cases (row_rw_edges (is_rw_edge da g i) i (range 0 n)) m) [
      | inl here ↦
          let (q, _) = row_rw_edges-mem (is_rw_edge da g i) i (range 0 n) e here in
          (
            subst (λ k. k < n) (sym q) (below i (Memᴰ.head refl)),
            below_start n e.1 (row_rw_edges-below (is_rw_edge da g i) i (range 0 n) e here),
          )
      | inr there ↦ rw_edges_of-below da g n is e there (λ k at. below k (Memᴰ.tail at))
    ]

abbrev Report : Analyzer → Bool → Type 0
Report da false = Unit
Report da true = MissedEffects da

module _ (da : Analyzer) (g : Matrix)
    (kept : (a b : ℕ) → (g a b ≡ wanted_graph gsib_set da a b) ⊎ (g a b ≡ 0)) where
  report :
      (r : Bool)
      → LoopReport da.tid_num
          (rw_edges_of da g da.tid_num (range 0 da.tid_num))
          (without_rw da (wanted_graph gsib_set da))
          r
      → Report da r
  report false p = tt
  report true (e, m, (i, w)) =
      let found =
        is_rw_edge-kept da (wanted_graph gsib_set da) g e.0 e.1 (kept e.0 e.1)
          (rw_edges_of-mem da g da.tid_num (range 0 da.tid_num) e m) in
      let (below_0, below_1) =
        rw_edges_of-below da g da.tid_num (range 0 da.tid_num) e m
          (λ k at. below_start da.tid_num k at) in
      let is_edge = (Edge-DsgEdge gsib_set da e.0 e.1).0 (below_0, below_1, ground arith) in
      record {
        from = e.0;
        to = e.1;
        is_edge = is_edge;
        is_rw = is_rw_edge-OnlyReadWrite da (wanted_graph gsib_set da) e.0 e.1 found;
        on_cycle = i;
        cycle = Walk-CycleWalk da e.0 e.1 w;
      }

kept-twice :
    (f g h : Matrix) (a b : ℕ)
    → (g a b ≡ f a b) ⊎ (g a b ≡ 0)
    → (h a b ≡ g a b) ⊎ (h a b ≡ 0)
    → (h a b ≡ f a b) ⊎ (h a b ≡ 0)
kept-twice f g h a b p q = ground arith

check_gsib-Report : (da : Analyzer) → (r : Bool) × (check_gsib da ≡ some r) × Report da r
unfolding check_gsib
check_gsib-Report da =
    let n = da.tid_num in
    let (r1, g1, e1, o1) = reduce_indegree-Returns (wanted_graph gsib_set da) n in
    let (r2, g2, e2, o2) = reduce_outdegree-Returns g1 n in
    let kept = λ (a b : ℕ).
      kept-twice (wanted_graph gsib_set da) g1 g2 a b (o1.subgraph a b) (o2.subgraph a b) in
    let (r, e, p) =
      rw_loop-reports n (rw_edges_of da g2 n (range 0 n)) (without_rw da g2)
        (without_rw da (wanted_graph gsib_set da)) (without_rw-IsSubgraph da _ g2 kept) in
    elim (Bool-cases r1) [
      | inr acyclic ↦ (false, rw (e1, check_gsib) (rw acyclic), tt)
      | inl cyclic ↦ elim (Bool-cases r2) [
        | inr acyclic ↦
            (false, rw (e1, check_gsib) (rw cyclic (rw (e2, check_rw_edges) (rw acyclic))), tt)
        | inl cyclic' ↦ (
          r,
          rw (e1, check_gsib) (rw cyclic (rw (e2, check_rw_edges) (rw cyclic' e))),
          report da g2 kept r p,
        )
      ]
    ]

-- `check_GSIb` returns.
pub check_gsib_returns : (da : Analyzer) → (r : Bool) × (check_gsib da ≡ some r)
check_gsib_returns da = let (r, e, _) = check_gsib-Report da in (r, e)
