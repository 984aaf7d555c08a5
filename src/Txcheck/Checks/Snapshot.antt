-- ===== src/Txcheck/Checks/Snapshot.antt =====
-- `check_GSIb`, which puts one READ_WRITE edge at a time back into the reduced graph.
use dbfuzz_multidb.Common.{
  ℕ, ◌<◌, ◌≡◌, ◌≢◌, refl, ◌∙◌, ◌↔◌, Bool, true, false, List, [], ◌∷◌, some, arith,
}
use dbfuzz_multidb.Txcheck.Reduce.{Matrix}
use dbfuzz_multidb.Txcheck.Reduce.Cycle.{Edge, HasCycle, Walk-first, Walk-last}
use dbfuzz_multidb.Txcheck.Reduce.Correct.{reduce_indegree-Returns}
use dbfuzz_multidb.Txcheck.Checks.{set_cell, rw_loop}

-- A graph whose nodes have no edge out.
abbrev IsEmptied : Matrix → ℕ → Type 0
IsEmptied g n = (a b : ℕ) → a < n → g a b ≡ 0

abbrev pub NoLoops : List (ℕ × ℕ) → Type 0
NoLoops [] = Unit
NoLoops ((i, j) ∷ es) = (i ≢ j) × NoLoops es

only_edge :
    (g : Matrix) (n i j a b : ℕ)
    → IsEmptied g n
    → Edge (set_cell g (i, j) 1) n a b
    → (a ≡ i) × (b ≡ j)
only_edge g n i j a b empty e = ground (arith, empty a b)

one_edge_no_cycle :
    (g : Matrix) (n i j : ℕ) → IsEmptied g n → i ≢ j → ¬ HasCycle (set_cell g (i, j) 1) n
one_edge_no_cycle g n i j empty ne (k, w) =
    let (before, last) = Walk-last w in
    let (after, first) = Walk-first w in
    ne (cc ((only_edge g n i j before k empty last).1, (only_edge g n i j k after empty first).0))

not-decides : {P : Type 0} (r : Bool) → (r ≡ true) ↔ P → ¬ P → r ≡ false
not-decides true d absent = absurd (absent (d.0 refl))
not-decides false d absent = refl

-- A round whose edge closes no cycle leaves an emptied graph behind.
rw_loop-step :
    (n : ℕ) (e : ℕ × ℕ) (rest : List (ℕ × ℕ)) (g : Matrix)
    → ¬ HasCycle (set_cell g e 1) n
    → (h : Matrix) × (rw_loop n (e ∷ rest) g ≡ rw_loop n rest (set_cell h e 0)) × IsEmptied h n
unfolding rw_loop
rw_loop-step n e rest g absent =
    let (r, h, returned, o) = reduce_indegree-Returns (set_cell g e 1) n in
    let no_hit : r ≡ false = not-decides r o.decides absent in
    (h, rw (returned, rw_loop) (rw (no_hit)), λ a b lt. o.emptied a b no_hit lt)

set_cell-IsEmptied : (g : Matrix) (n : ℕ) (e : ℕ × ℕ) → IsEmptied g n → IsEmptied (set_cell g e 0) n
set_cell-IsEmptied g n (i, j) empty a b lt = ground (arith, empty a b)

rw_loop-IsEmptied :
    (n : ℕ) (es : List (ℕ × ℕ)) (g : Matrix)
    → IsEmptied g n
    → NoLoops es
    → rw_loop n es g ≡ some false
rw_loop-IsEmptied n [] g empty ok = unfold rw_loop in refl
rw_loop-IsEmptied n ((i, j) ∷ es) g empty ok =
    let (h, e, empty') = rw_loop-step n (i, j) es g (one_edge_no_cycle g n i j empty ok.0) in
    e ∙ rw_loop-IsEmptied n es (set_cell h (i, j) 0) (set_cell-IsEmptied h n (i, j) empty') ok.1

-- If the first READ_WRITE edge that `check_GSIb` puts back closes no cycle, then its loop returns
-- false, whatever edges follow (none of them from a transaction to itself) and whatever cycles
-- these would close in the graph that the loop began with.
pub rw_loop-first_only :
    (n : ℕ) (rw_edge : ℕ × ℕ) (rest : List (ℕ × ℕ)) (g : Matrix)
    → ¬ HasCycle (set_cell g rw_edge 1) n
    → NoLoops rest
    → rw_loop n (rw_edge ∷ rest) g ≡ some false
rw_loop-first_only n rw_edge rest g absent ok =
    let (h, e, empty) = rw_loop-step n rw_edge rest g absent in
    e ∙ rw_loop-IsEmptied n rest (set_cell h rw_edge 0) (set_cell-IsEmptied h n rw_edge empty) ok
