-- ===== src/Expr/Covers.antt =====
-- Which numbers a look-up answers: those of a range, each with the component that has it.
use dbfuzz_multidb.Common.{
  ℕ, ◌+◌, ◌≤◌, ◌<◌, ◌≡◌, refl, ◌⊎◌, inl, inr, false, Option, none, some, ltb, ltb→lt, ◌==◌,
  Bool-cases, arith,
}
use dbfuzz_multidb.Expr.Syntax.{ValueExpr}
use dbfuzz_multidb.Expr.Find.{first_found, component_id, get_child}

abbrev pub Covers : (ℕ → Option ValueExpr) → ℕ → ℕ → Type 0
Covers look n m =
    (n ≤ m)
    × ((k : ℕ) → n ≤ k → k < m → (c : ValueExpr) × (look k ≡ some c) × (component_id c ≡ some k))
    × ((k : ℕ) → (k < n) ⊎ (m ≤ k) → look k ≡ none)

pub none-Covers : (n : ℕ) → Covers (λ _. none) n n
none-Covers n = (omega arith, λ k low high. absurd (omega arith), λ k out. refl)

module _ (look see : ℕ → Option ValueExpr) (n k m : ℕ) (first : Covers look n k)
    (second : Covers see k m) where
  outside : (i : ℕ) → (i < n) ⊎ (m ≤ i) → (look i ≡ none) × (see i ≡ none)
  outside i (inl low) = (first.2 i (inl low), second.2 i (inl (omega (arith, low, first.0))))
  outside i (inr high) = (first.2 i (inr (omega (arith, high, second.0))), second.2 i (inr high))

  -- One range after another.
  pub first_found-Covers : Covers (λ i. first_found (look i) (see i)) n m
  first_found-Covers = (
    omega (arith, first.0, second.0),
    λ i low high. elim (Bool-cases (ltb i k)) [
      | inl before ↦
          let (c, found, has) = first.1 i low (ltb→lt i k before) in (c, rw found refl, has)
      | inr after_ ↦
          let (c, found, has) = second.1 i (ground arith) high in
          (c, rw (first.2 i (inr (ground arith))) found, has)
    ],
    λ i out. rw ((outside i out).0) ((outside i out).1),
  )

  -- The same where the later range is looked at first.
  pub first_found-Covers_later : Covers (λ i. first_found (see i) (look i)) n m
  first_found-Covers_later = (
    omega (arith, first.0, second.0),
    λ i low high. elim (Bool-cases (ltb i k)) [
      | inl before ↦
          let (c, found, has) = first.1 i low (ltb→lt i k before) in
          (c, rw (second.2 i (inl (ltb→lt i k before))) found, has)
      | inr after_ ↦ let (c, found, has) = second.1 i (ground arith) high in (c, rw found refl, has)
    ],
    λ i out. rw ((outside i out).1) ((outside i out).0),
  )

-- An operand that has the number n, and below it the numbers up to m.
pub get_child-Covers :
    (e : ValueExpr) (below : ℕ → Option ValueExpr) (n m : ℕ)
    → component_id e ≡ some n
    → Covers below (n + 1) m
    → Covers (λ k. get_child k e (below k)) n m
get_child-Covers e below n m has covers = (
  omega (arith, covers.0),
  λ k low high. elim (Bool-cases (n == k)) [
    | inl same ↦ (e, rw (has, same) refl, rw has (ground arith))
    | inr other ↦
        let (c, found, number) = covers.1 k (ground arith) high in
        (c, rw (has, other) found, number)
  ],
  λ k out. rw (has, other_number k out covers.0) (covers.2 k (below_range k out)),
)
  where
    other_number : (k : ℕ) → (k < n) ⊎ (m ≤ k) → n + 1 ≤ m → (n == k) ≡ false
    other_number k (inl low) h = ground arith
    other_number k (inr high) h = ground arith

    below_range : (k : ℕ) → (k < n) ⊎ (m ≤ k) → (k < n + 1) ⊎ (m ≤ k)
    below_range k (inl low) = inl (omega arith)
    below_range k (inr high) = inr high
