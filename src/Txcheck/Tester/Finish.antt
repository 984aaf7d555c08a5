-- ===== src/Txcheck/Tester/Finish.antt =====
-- `trans_test` of src/txcheck/transaction_test.cc: the loop over the queue and the loop behind it.
use dbfuzz_multidb.Common.{
  ℕ, zero, suc, ◌+◌, ◌-◌, ltb, ◌<◌, ◌≤◌, arith, ◌≡◌, ◌≢◌, refl, sym, subst, ◌∙◌, true, false,
  Bool-cases, inl, inr, List, ◌∷◌, length, Text, range,
}
use dbfuzz_multidb.Txcheck.Result.{Result, ok, ◌>>=◌}
use dbfuzz_multidb.Txcheck.Instrumentor.{Prod}
use dbfuzz_multidb.Txcheck.Dbms.{Dbms}
use dbfuzz_multidb.Txcheck.Tester.{Tester}
use dbfuzz_multidb.Txcheck.Tester.Run.{
  is_blocked_at, has_run, settle_first, visit, retry_block_stmt, run_queue, finish_loop,
  finish_round, executed_num,
}
use dbfuzz_multidb.Txcheck.Tester.Queue.{executed_num_mono, executed_num-le}
use dbfuzz_multidb.Txcheck.Tester.Kept.{Ends, Ends->>=, Ends-map}
use dbfuzz_multidb.Txcheck.Tester.Attempt.{SoundAt, Later-refl, Later-widen, settle_first-Settles}
use dbfuzz_multidb.Txcheck.Tester.Retry.{retry_block_stmt-Open}
use dbfuzz_multidb.Txcheck.Tester.Order.{Open, Open-suc, Goes, Goes-trans, same_length, visit-Open}

module _ (dbms : Dbms) {E : Type 0} (print : Prod E → Text) where
  run_queue-skip :
      (i : ℕ) (is : List ℕ) (s : Tester E dbms.State)
      → is_blocked_at s i ≡ true
      → run_queue dbms print (i ∷ is) s ≡ run_queue dbms print is s
  unfolding run_queue
  run_queue-skip i is s h = rw (run_queue, h)

  pub run_queue-visit :
      (i : ℕ) (is : List ℕ) (s : Tester E dbms.State)
      → is_blocked_at s i ≡ false
      → run_queue dbms print (i ∷ is) s
        ≡ visit dbms print settle_first (retry_block_stmt dbms print) i s
          >>= run_queue dbms print is
  unfolding run_queue
  run_queue-visit i is s h = rw (run_queue, h)

  -- The loop over the queue, from place `i` on, where nothing is executed yet.
  pub run_queue-Goes :
      (i m n : ℕ) (s : Tester E dbms.State)
      → i + m ≡ n
      → n ≤ length s.queue
      → SoundAt dbms print s
      → Open i s
      → ((j : ℕ) → i ≤ j → has_run s j ≡ false)
      → Ends (Goes dbms print n s) (run_queue dbms print (range i m) s)
  unfolding run_queue
  run_queue-Goes i zero n s sum below sound op fresh = (sound, Later-refl dbms print n s)
  run_queue-Goes i (suc m) n s sum below sound op fresh = elim (Bool-cases (is_blocked_at s i)) [
    | inl h ↦ subst (Ends (Goes dbms print n s)) (sym (run_queue-skip i (range (suc i) m) s h)) (
        run_queue-Goes (suc i) m n s (omega arith) below sound
          (Open-suc i s op λ free. ground arith) (λ j l. fresh j (omega arith)))
    | inr free ↦
        subst (Ends (Goes dbms print n s)) (sym (run_queue-visit i (range (suc i) m) s free)) (
          Ends->>= (λ u. Goes dbms print (suc i) s u × Open (suc i) u) (Goes dbms print n s) _ _
            (visit-Open dbms print settle_first (settle_first-Settles dbms print)
              (retry_block_stmt dbms print) i s (λ t. retry_block_stmt-Open dbms print i t)
              (omega arith) sound op free (fresh i (omega arith)))
            λ t ((o, l), p).
              Ends-map (Goes dbms print n t) (Goes dbms print n s) _
                (λ u g. Goes-trans dbms print (suc i) n s t u (omega arith) l g)
                (run_queue-Goes (suc i) m n t (omega arith)
                  (omega (arith, same_length dbms print (suc i) s t l)) o p
                  (λ j b. l.above j b ∙ fresh j (omega arith))))
  ]

  finish_round-Goes :
      (again : ℕ → ℕ → Tester E dbms.State → Result (Tester E dbms.State))
      → (P : Tester E dbms.State → Type 0) (no_change done : ℕ) (s : Tester E dbms.State) → P s
      → (done ≢ executed_num s.status_queue
          → Ends P (again no_change (executed_num s.status_queue) s))
      → (no_change < 2 → Ends P (again (suc no_change) (executed_num s.status_queue) s))
      → Ends P (finish_round dbms print again no_change done s)
  finish_round-Goes again P no_change done s stop more idle = ground arith

  pub finish_loop-stop :
      (fuel no_change done : ℕ) (s : Tester E dbms.State)
      → ltb done (length s.queue) ≡ false
      → finish_loop dbms print (suc fuel) no_change done s ≡ ok s
  unfolding finish_loop
  finish_loop-stop fuel no_change done s h = rw (finish_loop, h)

  finish_loop-round :
      (fuel no_change done : ℕ) (s : Tester E dbms.State)
      → ltb done (length s.queue) ≡ true
      → finish_loop dbms print (suc fuel) no_change done s
        ≡ retry_block_stmt dbms print (length s.queue) s
          >>= finish_round dbms print (finish_loop dbms print fuel) no_change done
  unfolding finish_loop
  finish_loop-round fuel no_change done s h = rw (finish_loop, h)

  -- The loop behind it: with the fuel that is left for the statements that are left and for the
  -- rounds without a change, it ends.
  pub finish_loop-Goes :
      (n fuel no_change done : ℕ) (s : Tester E dbms.State)
      → length s.queue ≡ n
      → SoundAt dbms print s
      → executed_num s.status_queue ≡ done
      → n - done + (3 - no_change) < fuel
      → Ends (Goes dbms print n s) (finish_loop dbms print fuel no_change done s)
  finish_loop-Goes n zero no_change done s len sound count enough = absurd (omega arith)
  finish_loop-Goes n (suc fuel) no_change done s len sound count enough =
      elim (Bool-cases (ltb done (length s.queue))) [
        | inr h ↦
            subst (Ends (Goes dbms print n s)) (sym (finish_loop-stop fuel no_change done s h))
              (sound, Later-refl dbms print n s)
        | inl h ↦
            subst (Ends (Goes dbms print n s)) (sym (finish_loop-round fuel no_change done s h)) (
              Ends->>= (λ t. Goes dbms print (length s.queue) s t × Open (length s.queue) t)
                (Goes dbms print n s) _ _
                (retry_block_stmt-Open dbms print (length s.queue) s (omega arith) sound)
                λ t ((o, l), _).
                  let lens : length s.queue ≡ length t.queue = same_length dbms print _ s t l in
                  let counts : length t.status_queue ≡ length t.queue = o.same_length in
                  let grows : done ≤ executed_num t.status_queue = omega (
                    arith,
                    executed_num_mono s.status_queue t.status_queue
                        (omega (arith, sound.same_length)) l.goes_on,
                    count,
                  ) in
                  let below : executed_num t.status_queue ≤ n =
                    omega (arith, executed_num-le t.status_queue) in
                  let next : (no_change : ℕ)
                      → n - executed_num t.status_queue + (3 - no_change) < fuel
                      → Ends (Goes dbms print n s)
                          (finish_loop dbms print fuel no_change (executed_num t.status_queue) t) =
                    λ c e.
                      Ends-map (Goes dbms print n t) (Goes dbms print n s) _
                        (λ u g. Goes-trans dbms print _ n s t u (omega arith) l g)
                        (finish_loop-Goes n fuel c (executed_num t.status_queue) t (omega arith) o
                          refl e) in
                  finish_round-Goes (finish_loop dbms print fuel) (Goes dbms print n s) no_change
                    done t (o, Later-widen dbms print _ n s t (omega arith) l)
                    (λ more. next no_change (ground arith))
                    (λ idle. next (suc no_change) (ground arith)))
      ]
