-- ===== src/Common/Counting.antt =====
-- Counting with lists without repetition: the pigeonhole principle for finite sets of numbers.
use Prim.Native.Nat.{ℕ, zero, suc, ◌+◌, ◌≤◌, ◌<◌}
use mathlib.Core.Path.{◌≡◌, refl}
use mathlib.Core.Logic.{inl, inr}
use mathlib.Core.Bool.{true, false}
use mathlib.Core.List.{List, [], ◌∷◌}
use mathlib.Core.Option.{Option, none, some}
use native.Mathlib.Omega.{arith}
use dbfuzz_multidb.Common.Tests.{◌==◌, if◌then◌else◌, Bool-cases, ltb}
use dbfuzz_multidb.Common.Lists.{
  length, range, mem, distinct, find_from, find_from-some, find_from-none,
}

abbrev erase : ℕ → List ℕ → List ℕ
erase a [] = []
erase a (x ∷ xs) = if x == a then xs else x ∷ erase a xs

length-erase : (a : ℕ) (xs : List ℕ) → mem a xs ≡ true → suc (length (erase a xs)) ≡ length xs
length-erase a [] h = ground arith
length-erase a (x ∷ xs) h = ground (arith, length-erase a xs)

mem-erase : (a b : ℕ) (xs : List ℕ) → mem b xs ≡ true → (a == b) ≡ false → mem b (erase a xs) ≡ true
mem-erase a b [] h e = ground arith
mem-erase a b (x ∷ xs) h e = ground (arith, mem-erase a b xs)

mem-ne : (a b : ℕ) (xs : List ℕ) → mem a xs ≡ false → mem b xs ≡ true → (a == b) ≡ false
mem-ne a b xs h k = elim (Bool-cases (a == b)) [
  | inl e ↦ let e' : a ≡ b = ground arith in ground (arith, rw e' at h)
  | inr e ↦ e
]

-- A list without repetition whose elements all stand in `ys` is no longer than `ys`.
pub distinct-length-le :
    (xs ys : List ℕ)
    → distinct xs ≡ true
    → ((a : ℕ) → mem a xs ≡ true → mem a ys ≡ true)
    → length xs ≤ length ys
distinct-length-le [] ys d h = omega arith
distinct-length-le (x ∷ xs) ys d h =
    let fresh : mem x xs ≡ false = ground arith in
    let tail_distinct : distinct xs ≡ true = ground arith in
    let here : mem x ys ≡ true = h x (ground arith) in
    let smaller =
      distinct-length-le xs (erase x ys) tail_distinct
        λ a m. mem-erase x a ys (h a (ground arith)) (mem-ne x a xs fresh m) in
    omega (arith, smaller, length-erase x ys here)

pub mem-range : (a i n : ℕ) → i ≤ a → a < i + n → mem a (range i n) ≡ true
mem-range a i zero h k = absurd (omega arith)
mem-range a i (suc n) h k = elim (Bool-cases (i == a)) [
  | inl e ↦ ground arith
  | inr e ↦ ground (arith, mem-range a (suc i) n)
]

pub mem-range_bounds : (a i n : ℕ) → mem a (range i n) ≡ true → (i ≤ a) × (a < i + n)
mem-range_bounds a i zero h = ground arith
mem-range_bounds a i (suc n) h = ground (arith, mem-range_bounds a (suc i) n)

pub mem-range_eq : (k n : ℕ) → mem k (range 0 n) ≡ ltb k n
mem-range_eq k n = elim (Bool-cases (mem k (range 0 n))) [
  | inl m ↦ ground (arith, mem-range_bounds k 0 n m)
  | inr m ↦ ground (arith, mem-range k 0 n (omega arith))
]

pub length-range : (i n : ℕ) → length (range i n) ≡ n
length-range i zero = refl
length-range i (suc n) = omega (arith, length-range (suc i) n)

pub distinct-range : (i n : ℕ) → distinct (range i n) ≡ true
distinct-range i zero = refl
distinct-range i (suc n) = elim (Bool-cases (mem i (range (suc i) n))) [
  | inl m ↦ absurd (omega (arith, mem-range_bounds i (suc i) n m))
  | inr m ↦ ground (arith, distinct-range (suc i) n)
]

abbrev pub AllBelow : ℕ → List ℕ → Type 0
AllBelow n xs = (a : ℕ) → mem a xs ≡ true → a < n

-- A list of different numbers below `n` has at most `n` elements.
pub distinct-length-below :
    (n : ℕ) (xs : List ℕ) → distinct xs ≡ true → AllBelow n xs → length xs ≤ n
distinct-length-below n xs d h = omega (
  arith,
  distinct-length-le xs (range 0 n) d (λ a m. mem-range a 0 n (omega arith) (omega (arith, h a m))),
  length-range 0 n,
)

-- If it has `n` elements, then it holds every number below `n`.
pub distinct-full :
    (n : ℕ) (xs : List ℕ)
    → distinct xs ≡ true
    → AllBelow n xs
    → length xs ≡ n
    → (a : ℕ) → a < n
    → mem a xs ≡ true
distinct-full n xs d h e a lt = elim (Bool-cases (mem a xs)) [
  | inl m ↦ m
  | inr m ↦
      absurd (omega (arith, distinct-length-below n (a ∷ xs) (ground arith) (λ b mb. more b mb)))
]
  where
    more : AllBelow n (a ∷ xs)
    more b mb = elim (Bool-cases (a == b)) [ inl q ↦ ground arith | inr q ↦ h b (ground arith) ]

-- If it has fewer, then some number below `n` is missing.
pub distinct-missing :
    (n : ℕ) (xs : List ℕ) → length xs < n → (a : ℕ) × (a < n) × (mem a xs ≡ false)
distinct-missing n xs short = go (find_from (λ a. if mem a xs then false else true) 0 n) refl
  where
    go :
        (r : Option ℕ)
        → find_from (λ a. if mem a xs then false else true) 0 n ≡ r
        → (a : ℕ) × (a < n) × (mem a xs ≡ false)
    go (some a) e =
        let (p, q, t) = find_from-some (λ a. if mem a xs then false else true) 0 n a e in
        (a, omega arith, ground arith)
    go none e = absurd (
        omega (
          arith,
          length-range 0 n,
          distinct-length-le (range 0 n) xs (distinct-range 0 n) λ a m. ground (
            arith,
            mem-range_bounds a 0 n m,
            find_from-none (λ a. if mem a xs then false else true) 0 n a e,
          ),
        ))
