-- ===== src/Txcheck/Reduce/Walk.antt =====
-- Where every node of a non-empty set has an edge in from the set, there is a cycle: following such
-- edges backwards comes to a node for the second time.
use dbfuzz_multidb.Common.{
  ℕ, zero, suc, ◌+◌, ◌<◌, ◌≡◌, refl, ◌⊎◌, inl, inr, true, false, ◌==◌, arith, Bool-cases, List, [],
  ◌∷◌, length, mem, distinct,
}
use dbfuzz_multidb.Common.Counting.{AllBelow, distinct-length-below}
use dbfuzz_multidb.Txcheck.Reduce.{Matrix}
use dbfuzz_multidb.Txcheck.Reduce.Cycle.{Edge, Walk, edge, step, HasCycle, Walk-cons}

module _ (g : Matrix) (n : ℕ) (Inside : ℕ → Type 0)
    (before : (i : ℕ) → i < n → Inside i → (j : ℕ) × Edge g n j i × Inside j) where
  -- The nodes visited so far lie on walks out of the last one.
  record Trail (cur : ℕ) (visited : List ℕ) : Type 0 where
    below : AllBelow n visited
    different : distinct visited ≡ true
    here : mem cur visited ≡ true
    ahead : (a : ℕ) → mem a visited ≡ true → (a ≡ cur) ⊎ Walk g n cur a

  Trail-cons :
      (cur next : ℕ) (visited : List ℕ)
      → Trail cur visited
      → Edge g n next cur
      → mem next visited ≡ false
      → Trail next (next ∷ visited)
  Trail-cons cur next visited t e fresh = record {
    below = λ a m. elim (Bool-cases (next == a)) [
      | inl q ↦ let p : next ≡ a = ground arith in rw (← p) e.0
      | inr q ↦ t.below a (ground arith)
    ];
    different = ground arith;
    here = ground arith;
    ahead = λ a m. elim (Bool-cases (next == a)) [
      | inl q ↦ inl (ground arith)
      | inr q ↦ elim (t.ahead a (ground arith)) [
        | inl p ↦ inr (rw p (edge e))
        | inr w ↦ inr (Walk-cons e w)
      ]
    ];
  }

  chase :
      (room cur : ℕ) (visited : List ℕ)
      → room + length visited ≡ suc n
      → Trail cur visited
      → Inside cur
      → HasCycle g n
  chase zero cur visited size t inside =
      absurd (omega (arith, distinct-length-below n visited t.different t.below))
  chase (suc room) cur visited size t inside =
      let (next, e, inside') = before cur (t.below cur t.here) inside in
      elim (Bool-cases (mem next visited)) [
        | inl seen ↦ elim (t.ahead next seen) [
          | inl same ↦ (cur, edge (rw same at e))
          | inr w ↦ (cur, step w e)
        ]
        | inr fresh ↦
            chase room next (next ∷ visited) (omega arith) (Trail-cons cur next visited t e fresh)
              inside'
      ]

  pub HasCycle-of_inside : (i : ℕ) → i < n → Inside i → HasCycle g n
  HasCycle-of_inside i lt inside =
      chase n i (i ∷ []) (omega arith)
        (record {
          below = λ a m. ground arith;
          different = refl;
          here = ground arith;
          ahead = λ a m. inl (ground arith);
        })
        inside
