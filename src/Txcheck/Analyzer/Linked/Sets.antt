-- ===== src/Txcheck/Analyzer/Linked/Sets.antt =====
-- The ordered sets and the look-ups of `get_instrumented_stmt_set`.
use dbfuzz_multidb.Common.{
  ℕ, suc, ◌<◌, ◌≡◌, refl, ◌∙◌, inl, inr, Bool, true, false, ◌&&◌, ◌||◌, ◌==◌, ltb, List, [], ◌∷◌,
  Option, none, some, arith, if◌then◌else◌, Bool-cases, length, mem, distinct,
}
use dbfuzz_multidb.Txcheck.StmtId.{StmtId, id_eq}
use dbfuzz_multidb.Txcheck.Analyzer.{StmtGraph, DependencyType, DepSet, no_deps}
use dbfuzz_multidb.Txcheck.Analyzer.Linked.{insert_idx, count_dep, has_dep, touch}

pub mem-insert_idx : (k i : ℕ) (xs : List ℕ) → mem k (insert_idx i xs) ≡ (mem k xs || (i == k))
mem-insert_idx k i [] = ground arith
mem-insert_idx k i (x ∷ xs) = ground (arith, mem-insert_idx k i xs)

-- Strictly ascending, as the elements of an ordered set are.
abbrev pub Ascending : List ℕ → Type 0
Ascending [] = Unit {0}
Ascending (x ∷ xs) = ((k : ℕ) → mem k xs ≡ true → x < k) × Ascending xs

pub Ascending-insert : (i : ℕ) (xs : List ℕ) → Ascending xs → Ascending (insert_idx i xs)
Ascending-insert i [] a = (λ k m. ground arith, tt)
Ascending-insert i (x ∷ xs) (above, rest) = elim (Bool-cases (ltb i x)) [
  | inl less ↦ rw less ((λ k m. ground (arith, above k)), (above, rest))
  | inr not_less ↦ elim (Bool-cases (i == x)) [
    | inl e ↦ rw (not_less, e) (above, rest)
    | inr e ↦
        rw (not_less, e)
          ((λ k m. ground (arith, above k, mem-insert_idx k i xs)), Ascending-insert i xs rest)
  ]
]

pub Ascending-distinct : (xs : List ℕ) → Ascending xs → distinct xs ≡ true
Ascending-distinct [] a = refl
Ascending-distinct (x ∷ xs) (above, rest) = ground (arith, Ascending-distinct xs rest, above x)

pub length-insert_idx :
    (i : ℕ) (xs : List ℕ) → mem i xs ≡ false → length (insert_idx i xs) ≡ suc (length xs)
length-insert_idx i [] h = refl
length-insert_idx i (x ∷ xs) h = ground (arith, length-insert_idx i xs)

-- Two graphs with the same dependencies; one may have more entries without any.
abbrev pub SameDeps : StmtGraph → StmtGraph → Type 0
SameDeps g h = (a b : StmtId) (dt : DependencyType) → has_dep h a b dt ≡ has_dep g a b dt

pub touch-SameDeps : (a b : StmtId) (g h : StmtGraph) → SameDeps g h → SameDeps g (touch a b h)
touch-SameDeps a b g h same x y dt = touched (h x y) ∙ same x y dt
  where
    no_dep : (new : Bool) → count_dep (if new then some no_deps else none) dt ≡ false
    no_dep true = refl
    no_dep false = refl

    touched :
        (o : Option DepSet) → has_dep (touch a b (λ _ _. o)) x y dt ≡ has_dep (λ _ _. o) x y dt
    touched none = no_dep (id_eq x a && id_eq y b)
    touched (some s) = refl
