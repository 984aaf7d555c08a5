-- ===== src/Common/Lists.antt =====
-- Lists measured and indexed by native numbers, and sets of numbers as lists without repetition.
use Prim.Native.Nat.{ℕ, zero, suc, ◌+◌, ◌≤◌, ◌<◌}
use mathlib.Core.Path.{◌≡◌, refl}
use mathlib.Core.Logic.{inl, inr}
use mathlib.Core.Bool.{Bool, true, false, ◌||◌, ◌&&◌, not}
use mathlib.Core.List.{List, [], ◌∷◌, ◌++◌}
use mathlib.Core.Option.{Option, none, some}
use native.Mathlib.Omega.{arith}
use dbfuzz_multidb.Common.Tests.{◌==◌, if◌then◌else◌, Bool-cases}

module _ {ℓ} {A : Type ℓ} where
  abbrev pub length : List A → ℕ
  length [] = 0
  length (x ∷ xs) = suc (length xs)

  abbrev pub get_elem? : List A → ℕ → Option A
  get_elem? [] i = none
  get_elem? (x ∷ xs) zero = some x
  get_elem? (x ∷ xs) (suc i) = get_elem? xs i

  abbrev pub get_or : List A → ℕ → A → A
  get_or [] i d = d
  get_or (x ∷ xs) zero d = x
  get_or (x ∷ xs) (suc i) d = get_or xs i d

  abbrev pub take : ℕ → List A → List A
  take zero xs = []
  take (suc n) [] = []
  take (suc n) (x ∷ xs) = x ∷ take n xs

  -- Some element of the list passes the test; all of them do.
  abbrev pub any : (A → Bool) → List A → Bool
  any p [] = false
  any p (x ∷ xs) = p x || any p xs

  abbrev pub all : (A → Bool) → List A → Bool
  all p [] = true
  all p (x ∷ xs) = p x && all p xs

  -- The elements that pass the test, in their order.
  abbrev pub select : (A → Bool) → List A → List A
  select p [] = []
  select p (x ∷ xs) = if p x then x ∷ select p xs else select p xs

  pub length-append : (xs ys : List A) → length (xs ++ ys) ≡ length xs + length ys
  length-append [] ys = omega arith
  length-append (x ∷ xs) ys = omega (arith, length-append xs ys)

  pub select-append :
      (p : A → Bool) (xs ys : List A) → select p (xs ++ ys) ≡ select p xs ++ select p ys
  select-append p [] ys = refl
  select-append p (x ∷ xs) ys = ground (arith, select-append p xs ys)

-- The numbers i, i + 1, … of a loop of `n` rounds that starts at `i`.
pub select-snoc {ℓ} :
    {A : Type ℓ} (p : A → Bool) (xs : List A) (x : A)
    → select p (xs ++ x ∷ []) ≡ (if p x then select p xs ++ x ∷ [] else select p xs)
select-snoc p [] x = ground arith
select-snoc p (y ∷ xs) x = ground (arith, select-snoc p xs x)

pub all-snoc {ℓ} :
    {A : Type ℓ} (p : A → Bool) (xs : List A) (x : A) → all p (xs ++ x ∷ []) ≡ all p xs && p x
all-snoc p [] x = ground arith
all-snoc p (y ∷ xs) x = ground (arith, all-snoc p xs x)

pub get_elem?-below {ℓ} :
    {A : Type ℓ} (xs : List A) (i : ℕ) → i < length xs → (x : A) × (get_elem? xs i ≡ some x)
get_elem?-below [] i h = absurd (omega arith)
get_elem?-below (x ∷ xs) zero h = (x, refl)
get_elem?-below (x ∷ xs) (suc i) h = get_elem?-below xs i (omega arith)

abbrev pub range : ℕ → ℕ → List ℕ
range i zero = []
range i (suc n) = i ∷ range (suc i) n

-- The first number from `i` on, among `n`, that passes the test: a search that stops at a hit.
abbrev pub find_from : (ℕ → Bool) → ℕ → ℕ → Option ℕ
find_from p i zero = none
find_from p i (suc n) = let rest = find_from p (suc i) n in if p i then some i else rest

-- Some number from `i` on, among `n`, passes the test: a flag set by a loop that stops at a hit.
abbrev pub exists_from : (ℕ → Bool) → ℕ → ℕ → Bool
exists_from p i zero = false
exists_from p i (suc n) = p i || exists_from p (suc i) n

abbrev pub mem : ℕ → List ℕ → Bool
mem a [] = false
mem a (x ∷ xs) = (x == a) || mem a xs

-- The numbers are pairwise different.
abbrev pub distinct : List ℕ → Bool
distinct [] = true
distinct (x ∷ xs) = not (mem x xs) && distinct xs

pub find_from-some :
    (p : ℕ → Bool) (i n k : ℕ) → find_from p i n ≡ some k → (i ≤ k) × (k < i + n) × (p k ≡ true)
find_from-some p i zero k h = ground arith
find_from-some p i (suc n) k h = ground (arith, find_from-some p (suc i) n k)

pub find_from-none :
    (p : ℕ → Bool) (i n k : ℕ) → find_from p i n ≡ none → i ≤ k → k < i + n → p k ≡ false
find_from-none p i zero k h a b = absurd (omega arith)
find_from-none p i (suc n) k h a b = elim (Bool-cases (i == k)) [
  | inl e ↦ ground arith
  | inr e ↦ ground (arith, find_from-none p (suc i) n k)
]

pub exists_from-true :
    (p : ℕ → Bool) (i n : ℕ)
    → exists_from p i n ≡ true
    → (k : ℕ) × (i ≤ k) × (k < i + n) × (p k ≡ true)
exists_from-true p i zero h = ground arith
exists_from-true p i (suc n) h = elim (Bool-cases (p i)) [
  | inl e ↦ (i, omega arith, omega arith, e)
  | inr e ↦
      let (k, a, b, c) = exists_from-true p (suc i) n (ground arith) in
      (k, omega arith, omega arith, c)
]

pub exists_from-false :
    (p : ℕ → Bool) (i n k : ℕ) → exists_from p i n ≡ false → i ≤ k → k < i + n → p k ≡ false
exists_from-false p i zero k h a b = absurd (omega arith)
exists_from-false p i (suc n) k h a b = elim (Bool-cases (i == k)) [
  | inl e ↦ ground arith
  | inr e ↦ ground (arith, exists_from-false p (suc i) n k)
]

pub exists_from-intro :
    (p : ℕ → Bool) (i n k : ℕ) → i ≤ k → k < i + n → p k ≡ true → exists_from p i n ≡ true
exists_from-intro p i n k a b c = elim (Bool-cases (exists_from p i n)) [
  | inl e ↦ e
  | inr e ↦ ground (arith, exists_from-false p i n k)
]
