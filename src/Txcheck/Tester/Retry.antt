-- ===== src/Txcheck/Tester/Retry.antt =====
-- `retry_block_stmt` of src/txcheck/transaction_test.cc: its first loop, and both loops together.
use dbfuzz_multidb.Common.{
  ℕ, zero, suc, ◌+◌, ◌<◌, ◌≤◌, arith, ◌≡◌, ◌≢◌, sym, ap, subst, ◌∙◌, Bool, true, false, not,
  Bool-cases, inl, inr, List, [], ◌∷◌, length, ◌==◌, ◌||◌, Text, mem, range,
}
use dbfuzz_multidb.Txcheck.Result.{◌>>=◌}
use dbfuzz_multidb.Txcheck.Instrumentor.{Prod}
use dbfuzz_multidb.Txcheck.Dbms.{Dbms}
use dbfuzz_multidb.Txcheck.Tester.{Tester}
use dbfuzz_multidb.Txcheck.Tester.Run.{
  tid_at, is_blocked_at, has_run, settle_again, attempt, first_tries, retry_loop, retry_block_stmt,
}
use dbfuzz_multidb.Txcheck.Tester.Kept.{Ends, Ends->>=, Ends-map}
use dbfuzz_multidb.Txcheck.Tester.Attempt.{
  SoundAt, Later-refl, Tried, settle_again-Settles, attempt-Tried,
}
use dbfuzz_multidb.Txcheck.Tester.Order.{
  Open, Goes, Goes-trans, same_length, same_tid, same_flag, later_tries-Open,
}

module _ {E S : Type 0} where
  -- In the first loop of the retry: what is left before place `i` belongs to transactions that are
  -- tried or not blocked.
  abbrev FirstOpen : ℕ → List ℕ → Tester E S → Type 0
  FirstOpen i tried s =
      (j : ℕ)
      → j < i
      → is_blocked_at s j ≡ true
      → mem (tid_at s.queue j) tried ≡ false
      → has_run s j ≡ true

  FirstOpen-suc :
      (i : ℕ) (tried : List ℕ) (s : Tester E S)
      → FirstOpen i tried s
      → (is_blocked_at s i ≡ true → mem (tid_at s.queue i) tried ≡ false → has_run s i ≡ true)
      → FirstOpen (suc i) tried s
  FirstOpen-suc i tried s op h j l b u = elim (Bool-cases (j == i)) [
    | inl e ↦
        let same : i ≡ j = ground arith in
        subst
          (λ j.
            is_blocked_at s j ≡ true → mem (tid_at s.queue j) tried ≡ false → has_run s j ≡ true)
          same h b u
    | inr n ↦ op j (ground arith) b u
  ]

module _ (dbms : Dbms) {E : Type 0} (print : Prod E → Text) where
  pub first_tries-skip :
      (i : ℕ) (is tried : List ℕ) (s : Tester E dbms.State)
      → has_run s i || not (is_blocked_at s i) || mem (tid_at s.queue i) tried ≡ true
      → first_tries dbms print (i ∷ is) tried s ≡ first_tries dbms print is tried s
  unfolding first_tries
  first_tries-skip i is tried s h = rw (first_tries, h)

  first_tries-try :
      (i : ℕ) (is tried : List ℕ) (s : Tester E dbms.State)
      → has_run s i || not (is_blocked_at s i) || mem (tid_at s.queue i) tried ≡ false
      → first_tries dbms print (i ∷ is) tried s
        ≡ attempt dbms print settle_again i s >>= λ (_, t).
            first_tries dbms print is (tid_at s.queue i ∷ tried) t
  unfolding first_tries
  first_tries-try i is tried s h = rw (first_tries, h)

  -- A try of the first loop makes its transaction one of the tried ones.
  FirstOpen-Tried :
      (i : ℕ) (tried : List ℕ) (s t : Tester E dbms.State) (ended : Bool)
      → FirstOpen i tried s
      → Tried dbms print i s ended t
      → FirstOpen (suc i) (tid_at s.queue i ∷ tried) t
  FirstOpen-Tried i tried s t ended op h j l b m =
      let tids = same_tid dbms print (suc i) s t h.later j in
      let differs : tid_at s.queue j ≢ tid_at s.queue i = ground (arith, tids) in
      let below : j ≢ i = λ e. differs (ap (tid_at s.queue) e) in
      h.later.goes_on j (
        op j (omega arith) (sym (same_flag dbms print i s t ended h j differs) ∙ b)
          (ground (arith, tids)))

  -- The first loop of the retry, from place `i` on.
  first_tries-Goes :
      (i m n : ℕ) (tried : List ℕ) (s : Tester E dbms.State)
      → i + m ≡ n
      → n ≤ length s.queue
      → SoundAt dbms print s
      → FirstOpen i tried s
      → Ends (Goes dbms print n s) (first_tries dbms print (range i m) tried s)
  unfolding first_tries
  first_tries-Goes i zero n tried s sum below sound op = (sound, Later-refl dbms print _ s)
  first_tries-Goes i (suc m) n tried s sum below sound op =
      elim (Bool-cases (has_run s i || not (is_blocked_at s i) || mem (tid_at s.queue i) tried)) [
        | inl h ↦
            subst (Ends (Goes dbms print n s))
              (sym (first_tries-skip i (range (suc i) m) tried s h))
              (first_tries-Goes (suc i) m n tried s (omega arith) below sound
                (FirstOpen-suc i tried s op λ b u. ground arith))
        | inr h ↦
            subst (Ends (Goes dbms print n s)) (sym (first_tries-try i (range (suc i) m) tried s h))
              (Ends->>= (λ (ended, t). Tried dbms print i s ended t) (Goes dbms print n s) _ _
                (attempt-Tried dbms print settle_again (settle_again-Settles dbms print) i s
                  (omega arith) sound (ground arith)
                  λ j l same.
                    op j l (ap (λ k. (s.trans_arr k).is_blocked) same ∙ ground arith)
                      (ap (λ k. mem k tried) same ∙ ground arith))
                λ (ended, t) k.
                  Ends-map (Goes dbms print n t) (Goes dbms print n s) _
                    (λ u g. Goes-trans dbms print (suc i) n s t u (omega arith) k.later g)
                    (first_tries-Goes (suc i) m n (tid_at s.queue i ∷ tried) t (omega arith)
                      (omega (arith, same_length dbms print (suc i) s t k.later)) k.sound
                      (FirstOpen-Tried i tried s t ended op k)))
      ]

  -- The retry for the part of the queue before place `n`.
  retry_loop-Open :
      (fuel n : ℕ) (s : Tester E dbms.State)
      → n ≤ fuel
      → n ≤ length s.queue
      → SoundAt dbms print s
      → Ends (λ t. Goes dbms print n s t × Open n t) (retry_loop dbms print fuel n s)
  unfolding retry_loop
  retry_loop-Open zero n s enough below sound =
      ((sound, Later-refl dbms print n s), λ j l. absurd (omega arith))
  retry_loop-Open (suc fuel) n s enough below sound =
      Ends->>= (Goes dbms print n s) (λ t. Goes dbms print n s t × Open n t) _ _
        (first_tries-Goes 0 n n [] s (omega arith) below sound (λ j l. absurd (omega arith)))
        λ t (o, l).
          Ends-map (λ u. Goes dbms print n t u × Open n u) (λ u. Goes dbms print n s u × Open n u) _
            (λ u (g, q). (Goes-trans dbms print n n s t u (omega arith) l g, q))
            (later_tries-Open dbms print (retry_loop dbms print fuel) 0 n n t (omega arith)
              (λ k u b. retry_loop-Open fuel k u (omega arith))
              (omega (arith, same_length dbms print n s t l)) o (λ j b. absurd (omega arith)))

  pub retry_block_stmt-Open :
      (n : ℕ) (s : Tester E dbms.State)
      → n ≤ length s.queue
      → SoundAt dbms print s
      → Ends (λ t. Goes dbms print n s t × Open n t) (retry_block_stmt dbms print n s)
  unfolding retry_block_stmt
  retry_block_stmt-Open n s below sound = retry_loop-Open n n s (omega arith) below sound
