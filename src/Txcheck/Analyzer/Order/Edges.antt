-- ===== src/Txcheck/Analyzer/Order/Edges.antt =====
-- Which start dependencies `build_start_dependency` builds.
use dbfuzz_multidb.Common.{
  ℕ, zero, suc, ◌+◌, ◌≤◌, ◌<◌, ◌≡◌, ◌≢◌, refl, ap, ◌∙◌, ◌⊎◌, inl, inr, Bool, true, false, not, ◌&&◌,
  ◌||◌, ◌==◌, ltb, List, [], ◌∷◌, arith, if◌then◌else◌, Bool-cases, range, any, get_or, ◌-◌,
}
use dbfuzz_multidb.Txcheck.Analyzer.{
  Analyzer, index_lt, DependencyType, start_depend, strict_start_depend, dependency_eq,
  insert_txn_dependency, build_stmt_depend_from_stmt_idx,
}
use dbfuzz_multidb.Txcheck.Analyzer.Order.{
  for_each, StartScan, scan_init, scan_queue, start_pair, start_edge, build_stmt_start_dependency,
  build_start_dependency,
}

-- A body that raises a flag at some elements raises it in the loop if one of them comes.
for_each-or :
    {A S : Type 0} (view : S → Bool) (hit : A → Bool) (body : A → S → S)
    → ((x : A) (s : S) → view (body x s) ≡ (view s || hit x))
    → (xs : List A) (s : S) → view (for_each body xs s) ≡ (view s || any hit xs)
unfolding for_each
for_each-or view hit body each [] s = ground arith
for_each-or view hit body each (x ∷ xs) s =
    ground (arith, for_each-or view hit body each xs (body x s), each x s)

-- A body that keeps a value keeps it in the loop.
pub for_each-same :
    {A S B : Type 0} (view : S → B) (body : A → S → S)
    → ((x : A) (s : S) → view (body x s) ≡ view s)
    → (xs : List A) (s : S) → view (for_each body xs s) ≡ view s
unfolding for_each
for_each-same view body each [] s = refl
for_each-same view body each (x ∷ xs) s = for_each-same view body each xs (body x s) ∙ each x s

any-range :
    (p : ℕ → Bool) (a i n : ℕ)
    → any (λ k. k == a && p k) (range i n) ≡ (not (ltb a i) && ltb a (i + n) && p a)
any-range p a i zero = ground arith
any-range p a i (suc n) = elim (Bool-cases (i == a)) [
  | inl e ↦ let same : i ≡ a = ground arith in ground (arith, any-range p a (suc i) n, ap p same)
  | inr e ↦ ground (arith, any-range p a (suc i) n)
]

-- The view of one entry of the transaction graph.
abbrev pub depends : ℕ → ℕ → DependencyType → Analyzer → Bool
depends a b d da = da.dependency_graph a b d

build_stmt_start-depends :
    (a b : ℕ) (d : DependencyType) (i j : ℕ) (dt : DependencyType) (da : Analyzer)
    → depends a b d (build_stmt_start_dependency i j dt da) ≡ depends a b d da
unfolding build_stmt_start_dependency
build_stmt_start-depends a b d i j dt da =
    for_each-same (depends a b d) _ (λ p s. inner (get_or da.f_txn_id_queue p 0 == i) p s)
      (range 0 da.stmt_num) da
  where
    one :
        (test : Bool) (p q : ℕ) (s : Analyzer)
        → depends a b d (if test then build_stmt_depend_from_stmt_idx p q dt s else s)
          ≡ depends a b d s
    one true p q s = refl
    one false p q s = refl

    inner :
        (test : Bool) (p : ℕ) (s : Analyzer)
        → depends a b d (
            if test
            then for_each
                (λ q t.
                  if get_or da.f_txn_id_queue q 0 == j
                  then build_stmt_depend_from_stmt_idx p q dt t
                  else t)
                (range (suc p) (da.stmt_num - suc p))
                s
            else s)
          ≡ depends a b d s
    inner false p s = refl
    inner true p s =
        for_each-same (depends a b d) _ (λ q t. one (get_or da.f_txn_id_queue q 0 == j) p q t)
          (range (suc p) (da.stmt_num - suc p)) s

insert_txn-depends :
    (a b : ℕ) (d : DependencyType) (i j : ℕ) (dt : DependencyType) (da : Analyzer)
    → depends a b d (insert_txn_dependency i j dt da)
      ≡ (depends a b d da || (i == a && j == b && dependency_eq d dt))
unfolding insert_txn_dependency
insert_txn-depends a b d i j dt da = elim (Bool-cases (a == i && b == j)) [
  | inl e ↦
      let e1 : a ≡ i = ground arith in
      let e2 : b ≡ j = ground arith in rw (← e1, ← e2) (ground arith)
  | inr e ↦ ground arith
]

start_edge-depends :
    (a b : ℕ) (d : DependencyType) (test : Bool) (i j : ℕ) (dt : DependencyType) (da : Analyzer)
    → depends a b d (start_edge test i j dt da)
      ≡ (depends a b d da || (i == a && j == b && test && dependency_eq d dt))
start_edge-depends a b d true i j dt da = ground (
  arith,
  build_stmt_start-depends a b d i j dt (insert_txn_dependency i j dt da),
  insert_txn-depends a b d i j dt da,
)
start_edge-depends a b d false i j dt da = ground arith

-- The two tests of a pair of transactions, for a kind of dependency.
abbrev pub start_test : StartScan → ℕ → ℕ → DependencyType → Bool
start_test s i j d =
    dependency_eq d start_depend && index_lt (s.last i) (s.begin j)
    || dependency_eq d strict_start_depend && index_lt (s.last i) (s.strict_begin j)

module _ (s : StartScan) (a b : ℕ) (d : DependencyType) where
  abbrev pair_test : ℕ → ℕ → Bool
  pair_test i j = not (i == j) && start_test s i j d

  start_pair-depends :
      (i j : ℕ) (da : Analyzer)
      → depends a b d (start_pair s i j da)
        ≡ (depends a b d da || (j == b && (i == a && pair_test i j)))
  start_pair-depends i j da =
      let first = start_edge (index_lt (s.last i) (s.begin j)) i j start_depend da in
      ground (
        arith,
        start_edge-depends a b d (index_lt (s.last i) (s.begin j)) i j start_depend da,
        start_edge-depends a b d (index_lt (s.last i) (s.strict_begin j)) i j strict_start_depend
            first,
      )

  start_row-depends :
      (n i : ℕ) (da : Analyzer)
      → depends a b d (for_each (λ j. start_pair s i j) (range 0 n) da)
        ≡ (depends a b d da || (i == a && (ltb b n && pair_test i b)))
  start_row-depends n i da =
      for_each-or (depends a b d) (λ j. j == b && (i == a && pair_test i j)) (λ j. start_pair s i j)
        (start_pair-depends i) (range 0 n) da
      ∙ ground (arith, any-range (λ j. i == a && pair_test i j) b 0 n)

  start_rows-depends :
      (n : ℕ) (da : Analyzer)
      → depends a b d (for_each (λ i. for_each (λ j. start_pair s i j) (range 0 n)) (range 0 n) da)
        ≡ (depends a b d da || (ltb a n && (ltb b n && pair_test a b)))
  start_rows-depends n da =
      for_each-or (depends a b d) (λ i. i == a && (ltb b n && pair_test i b)) _
        (start_row-depends n) (range 0 n) da
      ∙ ground (arith, any-range (λ i. ltb b n && pair_test i b) a 0 n)

-- Between two different transactions `build_start_dependency` adds START_DEPEND and
-- STRICT_START_DEPEND exactly where the index of the last statement that the scan of the queue
-- recorded for the first is less than that of the second, or first, statement that it recorded for
-- the second transaction, and it adds no dependency of another kind.
pub build_start_dependency-depends :
    (da : Analyzer) (a b : ℕ) (d : DependencyType)
    → a < da.tid_num
    → b < da.tid_num
    → a ≢ b
    → depends a b d (build_start_dependency da)
      ≡ (depends a b d da || start_test (scan_queue 0 da.f_txn_id_queue scan_init) a b d)
unfolding build_start_dependency
build_start_dependency-depends da a b d ha hb ne =
    let s = scan_queue 0 da.f_txn_id_queue scan_init in
    start_rows-depends s a b d da.tid_num _ ∙ ground arith

-- No transaction comes to depend on itself, and none outside the range of tids on another.
pub build_start_dependency-outside :
    (da : Analyzer) (a b : ℕ) (d : DependencyType)
    → ((a ≡ b) ⊎ (da.tid_num ≤ a)) ⊎ (da.tid_num ≤ b)
    → depends a b d (build_start_dependency da) ≡ depends a b d da
unfolding build_start_dependency
build_start_dependency-outside da a b d out =
    let s = scan_queue 0 da.f_txn_id_queue scan_init in
    start_rows-depends s a b d da.tid_num _ ∙ ground arith
