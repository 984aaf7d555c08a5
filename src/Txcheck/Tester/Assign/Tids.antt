-- ===== src/Txcheck/Tester/Assign/Tids.antt =====
-- The sets of tids and the queue of `assign_txn_id` (src/txcheck/transaction_test.cc).
use dbfuzz_multidb.Common.{
  ℕ, zero, suc, ◌+◌, ◌<◌, ◌≤◌, arith, ◌≡◌, refl, ap, true, not, ◌&&◌, ◌||◌, ◌==◌, List, [], ◌∷◌,
  ◌++◌, some, length, get_elem?, select, take, mem, if◌then◌else◌,
}
use dbfuzz_multidb.Txcheck.Tester.Assign.{add_tid, erase_tid}

pub mem-add_tid : (x t : ℕ) (xs : List ℕ) → mem x (add_tid t xs) ≡ (t == x) || mem x xs
mem-add_tid x t [] = ground arith
mem-add_tid x t (y ∷ ys) = ground (arith, mem-add_tid x t ys)

pub mem-erase_tid : (x t : ℕ) (xs : List ℕ) → mem x (erase_tid t xs) ≡ not (x == t) && mem x xs
mem-erase_tid x t [] = ground arith
mem-erase_tid x t (y ∷ ys) = ground (arith, mem-erase_tid x t ys)

pub length-add_tid : (t : ℕ) (xs : List ℕ) → length (add_tid t xs) ≤ suc (length xs)
length-add_tid t [] = omega arith
length-add_tid t (y ∷ ys) = ground (arith, length-add_tid t ys)

pub length-erase_tid : (t : ℕ) (xs : List ℕ) → length (erase_tid t xs) ≤ length xs
length-erase_tid t [] = omega arith
length-erase_tid t (y ∷ ys) = ground (arith, length-erase_tid t ys)

pub mem-get_elem? : (xs : List ℕ) (i x : ℕ) → get_elem? xs i ≡ some x → mem x xs ≡ true
mem-get_elem? [] i x h = ground arith
mem-get_elem? (y ∷ ys) zero x h = ground arith
mem-get_elem? (y ∷ ys) (suc i) x h = ground (arith, mem-get_elem? ys i x h)

-- How often a tid stands in a queue.
abbrev pub count : ℕ → List ℕ → ℕ
count t queue = length (select (λ x. x == t) queue)

pub count-snoc :
    (t x : ℕ) (xs : List ℕ) → count t (xs ++ x ∷ []) ≡ count t xs + (if x == t then 1 else 0)
count-snoc t x [] = ground arith
count-snoc t x (y ∷ xs) = ground (arith, count-snoc t x xs)

pub take-snoc-le : (k : ℕ) (xs : List ℕ) (x : ℕ) → k ≤ length xs → take k (xs ++ x ∷ []) ≡ take k xs
take-snoc-le zero xs x h = refl
take-snoc-le (suc k) [] x h = absurd (omega arith)
take-snoc-le (suc k) (y ∷ xs) x h = ap (λ l. y ∷ l) (take-snoc-le k xs x (omega arith))

pub take-snoc-gt :
    (k : ℕ) (xs : List ℕ) (x : ℕ) → length xs < k → take k (xs ++ x ∷ []) ≡ xs ++ x ∷ []
take-snoc-gt zero xs x h = absurd (omega arith)
take-snoc-gt (suc zero) [] x h = refl
take-snoc-gt (suc (suc k)) [] x h = refl
take-snoc-gt (suc k) (y ∷ xs) x h = ap (λ l. y ∷ l) (take-snoc-gt k xs x (omega arith))
