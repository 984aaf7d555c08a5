-- ===== src/Txcheck/Tester/Queue.antt =====
-- Facts on the queue and on `status_queue` of src/txcheck/transaction_test.cc.
use dbfuzz_multidb.Common.{
  ℕ, zero, suc, ◌<◌, ◌≤◌, arith, ◌≡◌, ◌≢◌, refl, ap, Bool, true, false, ◌&&◌, ◌||◌, ◌==◌, List, [],
  ◌∷◌, ◌++◌, some, length, get_elem?, get_or, select, if◌then◌else◌,
}
use dbfuzz_multidb.Txcheck.Instrumentor.{Prod, Entry}
use dbfuzz_multidb.Txcheck.Tester.{set_elem, set_stmt}
use dbfuzz_multidb.Txcheck.Tester.Run.{tid_at, executed_num}

module _ {E : Type 0} where
  -- The executed statements of a transaction, in the order of the queue.
  abbrev pub executed_of : ℕ → List Bool → List (Entry E) → List (Entry E)
  executed_of t [] es = []
  executed_of t (b ∷ bs) [] = []
  executed_of t (b ∷ bs) (e ∷ es) =
      let rest = executed_of t bs es in if b && (e.tid == t) then e ∷ rest else rest

  pub executed_of-none :
      (t : ℕ) (bs : List Bool) (es : List (Entry E))
      → ((j : ℕ) → tid_at es j ≡ t → get_or bs j false ≡ false)
      → executed_of t bs es ≡ []
  executed_of-none t [] es h = refl
  executed_of-none t (b ∷ bs) [] h = refl
  executed_of-none t (b ∷ bs) (e ∷ es) h =
      ground (arith, h 0, executed_of-none t bs es (λ j. h (suc j)))

  -- Another transaction's statement is executed.
  pub executed_of-other :
      (t i : ℕ) (bs : List Bool) (es : List (Entry E))
      → tid_at es i ≢ t
      → executed_of t (set_elem i true bs) es ≡ executed_of t bs es
  executed_of-other t i [] es h = refl
  executed_of-other t zero (b ∷ bs) [] h = refl
  executed_of-other t (suc i) (b ∷ bs) [] h = refl
  executed_of-other t zero (b ∷ bs) (e ∷ es) h = ground arith
  executed_of-other t (suc i) (b ∷ bs) (e ∷ es) h = ground (arith, executed_of-other t i bs es h)

  -- The first statement of the transaction that is left is executed.
  pub executed_of-next :
      (i : ℕ) (e : Entry E) (bs : List Bool) (es : List (Entry E))
      → length bs ≡ length es
      → get_elem? es i ≡ some e
      → get_or bs i false ≡ false
      → ((j : ℕ) → i < j → tid_at es j ≡ e.tid → get_or bs j false ≡ false)
      → executed_of e.tid (set_elem i true bs) es ≡ executed_of e.tid bs es ++ e ∷ []
  executed_of-next i e [] [] n g u later = ground arith
  executed_of-next i e (b ∷ bs) [] n g u later = ground arith
  executed_of-next i e [] (f ∷ es) n g u later = ground arith
  executed_of-next zero e (b ∷ bs) (f ∷ es) n g u later =
      ground (arith, executed_of-none e.tid bs es (λ j. later (suc j) (omega arith)))
  executed_of-next (suc i) e (b ∷ bs) (f ∷ es) n g u later =
      ground
        (arith, executed_of-next i e bs es (omega arith) g u (λ j l. later (suc j) (omega arith)))

  -- A statement that is not executed may change.
  pub executed_of-set_stmt :
      (t i : ℕ) (p : Prod E) (bs : List Bool) (es : List (Entry E))
      → get_or bs i false ≡ false
      → executed_of t bs (set_stmt i p es) ≡ executed_of t bs es
  executed_of-set_stmt t i p [] es h = refl
  executed_of-set_stmt t i p (b ∷ bs) [] h = refl
  executed_of-set_stmt t zero p (b ∷ bs) (e ∷ es) h = ground arith
  executed_of-set_stmt t (suc i) p (b ∷ bs) (e ∷ es) h =
      ground (arith, executed_of-set_stmt t i p bs es h)

  pub tid_at-get_elem? :
      (es : List (Entry E)) (i : ℕ) (e : Entry E) → get_elem? es i ≡ some e → tid_at es i ≡ e.tid
  tid_at-get_elem? es i e g = ground arith

  pub below-get_elem? :
      (es : List (Entry E)) (i : ℕ) (e : Entry E) → get_elem? es i ≡ some e → i < length es
  below-get_elem? [] i e g = ground arith
  below-get_elem? (f ∷ es) zero e g = omega arith
  below-get_elem? (f ∷ es) (suc i) e g = omega (arith, below-get_elem? es i e g)

  pub length-set_stmt :
      (i : ℕ) (p : Prod E) (es : List (Entry E)) → length (set_stmt i p es) ≡ length es
  length-set_stmt i p [] = refl
  length-set_stmt zero p (e ∷ es) = refl
  length-set_stmt (suc i) p (e ∷ es) = ap suc (length-set_stmt i p es)

  pub tid_at-set_stmt :
      (i j : ℕ) (p : Prod E) (es : List (Entry E)) → tid_at (set_stmt i p es) j ≡ tid_at es j
  tid_at-set_stmt i j p [] = refl
  tid_at-set_stmt zero zero p (e ∷ es) = refl
  tid_at-set_stmt zero (suc j) p (e ∷ es) = refl
  tid_at-set_stmt (suc i) zero p (e ∷ es) = refl
  tid_at-set_stmt (suc i) (suc j) p (e ∷ es) = tid_at-set_stmt i j p es

pub length-set_elem : (i : ℕ) (bs : List Bool) → length (set_elem i true bs) ≡ length bs
length-set_elem i [] = refl
length-set_elem zero (b ∷ bs) = refl
length-set_elem (suc i) (b ∷ bs) = ap suc (length-set_elem i bs)

pub get_or-set_elem :
    (i j : ℕ) (bs : List Bool)
    → i < length bs
    → get_or (set_elem i true bs) j false ≡ (j == i) || get_or bs j false
get_or-set_elem i j [] l = absurd (omega arith)
get_or-set_elem zero zero (b ∷ bs) l = ground arith
get_or-set_elem zero (suc j) (b ∷ bs) l = ground arith
get_or-set_elem (suc i) zero (b ∷ bs) l = ground arith
get_or-set_elem (suc i) (suc j) (b ∷ bs) l = ground (arith, get_or-set_elem i j bs (omega arith))

pub executed_num-set_elem :
    (i : ℕ) (bs : List Bool)
    → i < length bs
    → get_or bs i false ≡ false
    → executed_num (set_elem i true bs) ≡ suc (executed_num bs)
executed_num-set_elem i [] l h = absurd (omega arith)
executed_num-set_elem zero (b ∷ bs) l h = ground arith
executed_num-set_elem (suc i) (b ∷ bs) l h =
    ground (arith, executed_num-set_elem i bs (omega arith) h)

pub executed_num-le : (bs : List Bool) → executed_num bs ≤ length bs
executed_num-le [] = omega arith
executed_num-le (b ∷ bs) = ground (arith, executed_num-le bs)

pub executed_num_mono :
    (xs bs : List Bool)
    → length xs ≡ length bs
    → ((j : ℕ) → get_or xs j false ≡ true → get_or bs j false ≡ true)
    → executed_num xs ≤ executed_num bs
executed_num_mono [] bs n h = omega arith
executed_num_mono (a ∷ xs) [] n h = absurd (omega arith)
executed_num_mono (a ∷ xs) (b ∷ bs) n h =
    ground (arith, h 0, executed_num_mono xs bs (omega arith) (λ j. h (suc j)))

-- When all are executed, these are all the statements of the transaction.
pub executed_of-all :
    {E : Type 0} (t : ℕ) (bs : List Bool) (es : List (Entry E))
    → length bs ≡ length es
    → executed_num bs ≡ length es
    → executed_of t bs es ≡ select (λ e. e.tid == t) es
executed_of-all t [] [] n h = refl
executed_of-all t [] (e ∷ es) n h = absurd (omega arith)
executed_of-all t (b ∷ bs) [] n h = absurd (omega arith)
executed_of-all t (true ∷ bs) (e ∷ es) n h =
    ground (arith, executed_of-all t bs es (omega arith) (omega arith))
executed_of-all t (false ∷ bs) (e ∷ es) n h = absurd (omega (arith, executed_num-le bs))
