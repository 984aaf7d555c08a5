-- ===== src/Txcheck/Tester/Order.antt =====
-- The loops of `retry_block_stmt` and `trans_test` of src/txcheck/transaction_test.cc: each leaves
-- the queues sound and the statements it has passed executed or blocked.
use dbfuzz_multidb.Common.{
  ℕ, zero, suc, ◌+◌, ◌<◌, ◌≤◌, arith, ◌≡◌, ◌≢◌, refl, sym, ap, subst, ◌∙◌, Bool, true, false,
  Bool-cases, inl, inr, List, ◌∷◌, length, ◌==◌, ==_iff, ◌||◌, ||-false, Text, range, if◌then◌else◌,
  Each-length,
}
use dbfuzz_multidb.Txcheck.Result.{Result, ok, ◌>>=◌}
use dbfuzz_multidb.Txcheck.Instrumentor.{Prod, Entry}
use dbfuzz_multidb.Txcheck.Dbms.{Dbms}
use dbfuzz_multidb.Txcheck.Tester.{Tester, Outcome}
use dbfuzz_multidb.Txcheck.Tester.Run.{
  tid_at, is_blocked_at, has_run, settle_again, visit, later_tries,
}
use dbfuzz_multidb.Txcheck.Tester.Kept.{Ends, Ends->>=, Ends-map}
use dbfuzz_multidb.Txcheck.Tester.Attempt.{
  SoundAt, Before, Later, Later-refl, Later-trans, Later-widen, Tried, tid_at-Stays, Settles,
  settle_again-Settles, attempt-Tried,
}

module _ {E S : Type 0} where
  -- What is left before place `i` belongs to blocked transactions.
  abbrev pub Open : ℕ → Tester E S → Type 0
  Open i s = (j : ℕ) → j < i → is_blocked_at s j ≡ false → has_run s j ≡ true

  Open-Before : (i : ℕ) (s : Tester E S) → Open i s → is_blocked_at s i ≡ false → Before i s
  Open-Before i s op free j l same = op j l (ap (λ k. (s.trans_arr k).is_blocked) same ∙ free)

  pub Open-suc :
      (i : ℕ) (s : Tester E S)
      → Open i s
      → (is_blocked_at s i ≡ false → has_run s i ≡ true)
      → Open (suc i) s
  Open-suc i s op h j l free = elim (Bool-cases (j == i)) [
    | inl e ↦
        subst (λ j. has_run s j ≡ true) (sym ((==_iff j i).0 e))
          (h (subst (λ k. is_blocked_at s k ≡ false) ((==_iff j i).0 e) free))
    | inr n ↦ op j (ground arith) free
  ]

module _ (dbms : Dbms) {E : Type 0} (print : Prod E → Text) where
  -- What a loop keeps that changes the states before place `m`.
  abbrev pub Goes : ℕ → Tester E dbms.State → Tester E dbms.State → Type 0
  Goes m s t = SoundAt dbms print t × Later dbms print m s t

  pub same_length :
      (m : ℕ) (s t : Tester E dbms.State) → Later dbms print m s t → length s.queue ≡ length t.queue
  same_length m s t l = Each-length _ _ _ l.stays

  pub same_tid :
      (m : ℕ) (s t : Tester E dbms.State)
      → Later dbms print m s t
      → (j : ℕ) → tid_at t.queue j ≡ tid_at s.queue j
  same_tid m s t l = tid_at-Stays dbms print s.queue t.queue l.stays

  pub same_flag :
      (i : ℕ) (s t : Tester E dbms.State) (ended : Bool)
      → Tried dbms print i s ended t
      → (j : ℕ) → tid_at s.queue j ≢ tid_at s.queue i
      → is_blocked_at t j ≡ is_blocked_at s j
  same_flag i s t ended h j n =
      ap (λ k. (t.trans_arr k).is_blocked) (same_tid _ s t h.later j) ∙ h.others _ n

  Open-Tried :
      (i : ℕ) (s t : Tester E dbms.State) (ended : Bool)
      → Open i s
      → Before i s
      → Tried dbms print i s ended t
      → Open (suc i) t
  Open-Tried i s t ended op before h j l free = elim (Bool-cases (j == i)) [
    | inl e ↦ elim h.settled [
      | inl d ↦ subst (λ j. has_run t j ≡ true) (sym ((==_iff j i).0 e)) d
      | inr b ↦
          absurd (ground (arith, subst (λ k. is_blocked_at t k ≡ false) ((==_iff j i).0 e) free))
    ]
    | inr n ↦ elim (Bool-cases (tid_at s.queue j == tid_at s.queue i)) [
      | inl e ↦ h.later.goes_on j (before j (ground arith) (ground arith))
      | inr m ↦
          h.later.goes_on j
            (op j (ground arith) (sym (same_flag i s t ended h j (ground arith)) ∙ free))
    ]
  ]

  -- A visit at place `i`, where the nested retry keeps what it shall.
  pub visit-Open :
      (settle : ℕ → Entry E → Outcome → Tester E dbms.State → Tester E dbms.State)
      → Settles dbms print settle
      → (again : ℕ → Tester E dbms.State → Result (Tester E dbms.State))
      → (i : ℕ) (s : Tester E dbms.State)
      → ((t : Tester E dbms.State)
          → i ≤ length t.queue
          → SoundAt dbms print t
          → Ends (λ u. Goes i t u × Open i u) (again i t))
      → i < length s.queue
      → SoundAt dbms print s
      → Open i s
      → is_blocked_at s i ≡ false
      → has_run s i ≡ false
      → Ends (λ u. Goes (suc i) s u × Open (suc i) u) (visit dbms print settle again i s)
  visit-Open settle settles again i s keep below sound op free left =
      let before = Open-Before i s op free in
      Ends->>= (λ (ended, t). Tried dbms print i s ended t) (λ u. Goes (suc i) s u × Open (suc i) u)
        _ _ (attempt-Tried dbms print settle settles i s below sound left before)
        λ (ended, t) h. go ended t h (Open-Tried i s t ended op before h)
    where
      go :
          (ended : Bool) (t : Tester E dbms.State)
          → Tried dbms print i s ended t
          → Open (suc i) t
          → Ends (λ u. Goes (suc i) s u × Open (suc i) u) (if ended then again i t else ok t)
      go false t h o = ((h.sound, h.later), o)
      go true t h o =
          let below : i ≤ length t.queue = omega (arith, same_length (suc i) s t h.later) in
          Ends-map (λ u. Goes i t u × Open i u) (λ u. Goes (suc i) s u × Open (suc i) u) (again i t)
            (λ u (goes, before). (
              (
                goes.0,
                Later-trans dbms print _ _ s t u (omega arith) h.later
                    (Later-widen dbms print i (suc i) t u (omega arith) goes.1),
              ),
              Open-suc i u before λ _. goes.1.goes_on i (h.after_end refl),
            ))
            (keep t below h.sound)

  -- Two loops in turn keep what each keeps.
  pub Goes-trans :
      (k m : ℕ) (s t u : Tester E dbms.State)
      → k ≤ m
      → Later dbms print k s t
      → Goes m t u
      → Goes m s u
  Goes-trans k m s t u le l (sound, later) = (sound, Later-trans dbms print k m s t u le l later)

  pub later_tries-skip :
      (again : ℕ → Tester E dbms.State → Result (Tester E dbms.State))
      → (i : ℕ) (is : List ℕ) (s : Tester E dbms.State) → is_blocked_at s i || has_run s i ≡ true
      → later_tries dbms print again (i ∷ is) s ≡ later_tries dbms print again is s
  unfolding later_tries
  later_tries-skip again i is s h = rw (later_tries, h)

  later_tries-visit :
      (again : ℕ → Tester E dbms.State → Result (Tester E dbms.State))
      → (i : ℕ) (is : List ℕ) (s : Tester E dbms.State) → is_blocked_at s i || has_run s i ≡ false
      → later_tries dbms print again (i ∷ is) s
        ≡ visit dbms print settle_again again i s >>= later_tries dbms print again is
  unfolding later_tries
  later_tries-visit again i is s h = rw (later_tries, h)

  -- The second loop of the retry, from place `i` on.
  pub later_tries-Open :
      (again : ℕ → Tester E dbms.State → Result (Tester E dbms.State))
      → (i m n : ℕ) (s : Tester E dbms.State) → i + m ≡ n
      → ((k : ℕ) (t : Tester E dbms.State)
          → k < n
          → k ≤ length t.queue
          → SoundAt dbms print t
          → Ends (λ u. Goes k t u × Open k u) (again k t))
      → n ≤ length s.queue
      → SoundAt dbms print s
      → Open i s
      → Ends (λ t. Goes n s t × Open n t) (later_tries dbms print again (range i m) s)
  unfolding later_tries
  later_tries-Open again i zero n s sum keep below sound op =
      ((sound, Later-refl dbms print _ s), λ j l. op j (omega arith))
  later_tries-Open again i (suc m) n s sum keep below sound op =
      elim (Bool-cases (is_blocked_at s i || has_run s i)) [
        | inl h ↦
            subst (Ends (λ t. Goes n s t × Open n t))
              (sym (later_tries-skip again i (range (suc i) m) s h))
              (later_tries-Open again (suc i) m n s (omega arith) keep below sound
                (Open-suc i s op λ free. ground arith))
        | inr h ↦
            let (free, left) = ||-false (is_blocked_at s i) (has_run s i) h in
            subst (Ends (λ t. Goes n s t × Open n t))
              (sym (later_tries-visit again i (range (suc i) m) s h))
              (Ends->>= (λ u. Goes (suc i) s u × Open (suc i) u) (λ t. Goes n s t × Open n t) _ _
                (visit-Open settle_again (settle_again-Settles dbms print) again i s
                  (λ t l o. keep i t (omega arith) l o) (omega arith) sound op free left)
                λ t ((o, l), p).
                  Ends-map (λ u. Goes n t u × Open n u) (λ u. Goes n s u × Open n u) _
                    (λ u (g, q). (Goes-trans (suc i) n s t u (omega arith) l g, q))
                    (later_tries-Open again (suc i) m n t (omega arith) keep
                      (omega (arith, same_length (suc i) s t l)) o p))
      ]
