-- ===== src/Txcheck/Tester/Assign/Open.antt =====
-- The invariant of the loop of `assign_txn_id` (src/txcheck/transaction_test.cc).
use dbfuzz_multidb.Common.{
  ℕ, zero, suc, ◌+◌, ◌-◌, ◌<◌, ◌≤◌, arith, ◌≡◌, refl, subst, true, Bool-cases, ◌&&◌, ◌==◌, ltb, leb,
  inl, inr, List, [], ◌∷◌, ◌++◌, length, take, mem, distinct, if◌then◌else◌,
}
use dbfuzz_multidb.Common.Counting.{distinct-length-le}
use dbfuzz_multidb.Txcheck.Tester.Assign.{add_tid, Assign, push_tid, turn_num}
use dbfuzz_multidb.Txcheck.Tester.Assign.Tids.{
  mem-add_tid, mem-erase_tid, length-add_tid, length-erase_tid, count-snoc, take-snoc-le,
  take-snoc-gt, count,
}

module _ (stmt_num : ℕ → ℕ) where
  -- A transaction has begun in the queue and not ended.
  abbrev pub IsOpen : List ℕ → ℕ → Type 0
  IsOpen queue t = (0 < count t queue) × (count t queue < turn_num stmt_num t)

  -- At no time are more than three transactions open.
  abbrev pub AtMostThree : List ℕ → Type 0
  AtMostThree queue =
      (k : ℕ) (xs : List ℕ)
      → distinct xs ≡ true
      → ((t : ℕ) → mem t xs ≡ true → IsOpen (take k queue) t)
      → length xs ≤ 3

  pub AtMostThree-empty : AtMostThree []
  AtMostThree-empty k [] d h = omega arith
  AtMostThree-empty zero (x ∷ xs) d h = absurd (omega (arith, (h x (ground arith)).0))
  AtMostThree-empty (suc k) (x ∷ xs) d h = absurd (omega (arith, (h x (ground arith)).0))

  AtMostThree-snoc :
      (queue : List ℕ) (tid : ℕ) (concurrent : List ℕ)
      → AtMostThree queue
      → ((t : ℕ) → IsOpen (queue ++ tid ∷ []) t → mem t concurrent ≡ true)
      → length concurrent ≤ 3
      → AtMostThree (queue ++ tid ∷ [])
  AtMostThree-snoc queue tid concurrent fair inside three k xs d h =
      elim (Bool-cases (leb k (length queue))) [
        | inl le ↦
            fair k xs d
              λ t m. subst (λ q. IsOpen q t) (take-snoc-le k queue tid (ground (arith, le))) (h t m)
        | inr gt ↦
            let below = distinct-length-le xs concurrent d λ t m.
              inside t
                (subst (λ q. IsOpen q t) (take-snoc-gt k queue tid (ground (arith, gt))) (h t m)) in
            omega (arith, below)
      ]

  -- The invariant of the loop for `n` transactions.
  pub record Sound (n : ℕ) (a : Assign) : Type 0 where
    pub available :
        (t : ℕ)
        → mem t a.available_tid ≡ ltb t n && ltb (a.tid_insertd_stmt t) (turn_num stmt_num t)
    pub concurrent : (t : ℕ) → mem t a.concurrent_tid ≡ true → mem t a.available_tid ≡ true
    pub three : length a.concurrent_tid ≤ 3
    pub counted : (t : ℕ) → count t a.tid_queue ≡ a.tid_insertd_stmt t
    pub bounded : (t : ℕ) → a.tid_insertd_stmt t ≤ turn_num stmt_num t
    pub outside : (t : ℕ) → n ≤ t → a.tid_insertd_stmt t ≡ 0
    pub begun :
        (t : ℕ)
        → 0 < a.tid_insertd_stmt t
        → a.tid_insertd_stmt t < turn_num stmt_num t
        → mem t a.concurrent_tid ≡ true
    pub fair : AtMostThree a.tid_queue

  -- What is left to do.
  abbrev pub left : (ℕ → ℕ) → ℕ → ℕ
  left inserted zero = 0
  left inserted (suc n) = left inserted n + (turn_num stmt_num n - inserted n)

  pub Sound-insert :
      (n tid : ℕ) (a : Assign)
      → Sound n a
      → mem tid a.available_tid ≡ true
      → length a.concurrent_tid < 3
      → Sound n (record a { concurrent_tid = add_tid tid a.concurrent_tid })
  Sound-insert n tid a s m short = record {
    available = s.available;
    concurrent = λ t h. elim (Bool-cases (tid == t)) [
      | inl e ↦ ground (arith, m)
      | inr e ↦ s.concurrent t (ground (arith, mem-add_tid t tid a.concurrent_tid, h))
    ];
    three = omega (arith, length-add_tid tid a.concurrent_tid);
    counted = s.counted;
    bounded = s.bounded;
    outside = s.outside;
    begun = λ t l u. ground (arith, mem-add_tid t tid a.concurrent_tid, s.begun t l u);
    fair = s.fair;
  }

  pub Sound-push :
      (n tid : ℕ) (a : Assign)
      → Sound n a
      → mem tid a.concurrent_tid ≡ true
      → Sound n (push_tid stmt_num tid a)
  Sound-push n tid a s m =
      let here = s.available tid in
      let avail = s.concurrent tid m in
      record {
        available =
            λ t. ground (arith, here, avail, s.available t, mem-erase_tid t tid a.available_tid);
        concurrent = λ t h. ground (
          arith,
          s.concurrent t,
          mem-erase_tid t tid a.available_tid,
          mem-erase_tid t tid a.concurrent_tid,
        );
        three = ground (arith, s.three, length-erase_tid tid a.concurrent_tid);
        counted = λ t. ground (arith, count-snoc t tid a.tid_queue, s.counted t);
        bounded = λ t. ground (arith, here, avail, s.bounded t);
        outside = λ t l. ground (arith, here, avail, s.outside t l);
        begun = λ t l u. ground (arith, m, s.begun t, mem-erase_tid t tid a.concurrent_tid);
        fair =
            AtMostThree-snoc a.tid_queue tid (push_tid stmt_num tid a).concurrent_tid s.fair
              (λ t (l, u). ground (
                arith,
                m,
                s.begun t,
                s.counted t,
                mem-erase_tid t tid a.concurrent_tid,
                count-snoc t tid a.tid_queue,
              ))
              (ground (arith, s.three, length-erase_tid tid a.concurrent_tid));
      }

  left-other :
      (inserted : ℕ → ℕ) (n tid : ℕ)
      → n ≤ tid
      → left (λ t. if t == tid then suc (inserted tid) else inserted t) n ≡ left inserted n
  left-other inserted zero tid h = refl
  left-other inserted (suc n) tid h = ground (arith, left-other inserted n tid (omega arith))

  pub left-push :
      (inserted : ℕ → ℕ) (n tid : ℕ)
      → tid < n
      → inserted tid < turn_num stmt_num tid
      → suc (left (λ t. if t == tid then suc (inserted tid) else inserted t) n) ≡ left inserted n
  left-push inserted zero tid h l = absurd (omega arith)
  left-push inserted (suc n) tid h l = elim (Bool-cases (n == tid)) [
    | inl e ↦ ground (arith, left-other inserted n tid (ground (arith, e)))
    | inr e ↦ ground (arith, left-push inserted n tid (ground (arith, e)) l)
  ]

  pub left-none :
      (inserted : ℕ → ℕ) (n t : ℕ) → left inserted n ≡ 0 → t < n → turn_num stmt_num t ≤ inserted t
  left-none inserted zero t h l = absurd (omega arith)
  left-none inserted (suc n) t h l = elim (Bool-cases (n == t)) [
    | inl e ↦
        let same : n ≡ t = ground (arith, e) in
        subst (λ k. turn_num stmt_num k ≤ inserted k) same (omega arith)
    | inr e ↦ left-none inserted n t (omega arith) (ground (arith, e))
  ]
