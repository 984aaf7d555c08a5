-- ===== src/Txcheck/Tester/Correct.antt =====
-- `trans_test` of src/txcheck/transaction_test.cc: what a run that ends well has executed, and how a
-- run ends.
use dbfuzz_multidb.Common.{
  ℕ, zero, suc, ◌+◌, arith, ◌≡◌, refl, sym, ap, subst, ◌∙◌, Bool, true, false, all, map, Bool-cases,
  ◌⊎◌, inl, inr, List, [], ◌∷◌, Option, none, some, length, get_or, select, ◌==◌, ==_iff, Text,
  Each,
}
use dbfuzz_multidb.Txcheck.Result.{
  empty_vector, Error, Result, ok, throw, lost_connection, process_exit, not_executed, dut_failed,
  demand, ◌>>=◌,
}
use dbfuzz_multidb.Txcheck.Analyzer.{StmtOutput}
use dbfuzz_multidb.Txcheck.Instrumentor.{Prod, Entry}
use dbfuzz_multidb.Txcheck.Dbms.{Dbms}
use dbfuzz_multidb.Txcheck.Tester.{Tester}
use dbfuzz_multidb.Txcheck.Tester.Run.{
  executed_num, connect_all, set_up, started, check_run, run_loops, trans_test,
}
use dbfuzz_multidb.Txcheck.Tester.Queue.{executed_of-none, executed_of-all}
use dbfuzz_multidb.Txcheck.Tester.Sound.{Sound}
use dbfuzz_multidb.Txcheck.Tester.Told.{Ran}
use dbfuzz_multidb.Txcheck.Tester.Kept.{Ends, Ends->>=, Ends-map, Stays}
use dbfuzz_multidb.Txcheck.Tester.Attempt.{SoundAt}
use dbfuzz_multidb.Txcheck.Tester.Order.{Goes, Goes-trans, same_length}
use dbfuzz_multidb.Txcheck.Tester.Finish.{run_queue-Goes, finish_loop-Goes}

module _ {E : Type 0} where
  nothing_done : (es : List (Entry E)) (j : ℕ) → get_or (map (λ _. false) es) j false ≡ false
  nothing_done [] j = refl
  nothing_done (e ∷ es) zero = refl
  nothing_done (e ∷ es) (suc j) = nothing_done es j

  pub length-map-false : (es : List (Entry E)) → length (map (λ _. false) es) ≡ length es
  length-map-false [] = refl
  length-map-false (e ∷ es) = ap suc (length-map-false es)

  executed_num-map-false : (es : List (Entry E)) → executed_num (map (λ _. false) es) ≡ 0
  executed_num-map-false [] = refl
  executed_num-map-false (e ∷ es) = executed_num-map-false es

demand-cases :
    {A : Type 0} (o : Option A)
    → ((a : A) × (demand o dut_failed ≡ ok a)) ⊎ (demand o dut_failed ≡ throw dut_failed)
demand-cases (some a) = inl (a, refl)
demand-cases none = inr refl

pub executed_num-all : (bs : List Bool) → all (λ b. b) bs ≡ true → executed_num bs ≡ length bs
executed_num-all [] h = refl
executed_num-all (b ∷ bs) h = ground (arith, executed_num-all bs)

module _ (dbms : Dbms) {E : Type 0} (print : Prod E → Text) where
  start-Sound : (es : List (Entry E)) → Sound dbms print (map (λ _. false) es) es []
  start-Sound es = record {
    same_length = length-map-false es;
    in_turn = λ i j l e d. ground (arith, nothing_done es j);
    follows = λ t.
        subst (Each (Ran dbms print) [])
          (sym (executed_of-none t (map (λ _. false) es) es (λ j _. nothing_done es j))) tt;
    counted = sym (executed_num-map-false es);
  }

  run_loops-Goes :
      (ready : List (Text × StmtOutput) × dbms.State) (s : Tester E dbms.State)
      → s.real ≡ []
      → Ends
          (Goes dbms print (length s.queue) (started dbms print ready s))
          (run_loops dbms print (started dbms print ready s))
  unfolding run_loops
  run_loops-Goes ready s empty =
      let n = length s.queue in
      let start = started dbms print ready s in
      let sound : SoundAt dbms print start =
        subst (Sound dbms print (map (λ _. false) s.queue) s.queue) (sym empty)
          (start-Sound s.queue) in
      Ends->>= (Goes dbms print n start) (Goes dbms print n start) _ _
        (run_queue-Goes dbms print 0 n n start (omega arith) (omega arith) sound
          (λ j l. absurd (omega arith)) (λ j _. nothing_done s.queue j))
        λ t (o, l).
          Ends-map (Goes dbms print n t) (Goes dbms print n start) _
            (λ u g. Goes-trans dbms print n n start t u (omega arith) l g)
            (finish_loop-Goes dbms print n (n + 4) 0 _ t (sym (same_length dbms print n start t l))
              o refl (omega arith))

  -- The end of a run: every statement of the queue is executed or skipped, each transaction's
  -- statements are in the `real_` queues in their order, and the queue is the one of the start but for
  -- failed commits.
  abbrev pub Finished : Tester E dbms.State → Tester E dbms.State → Type 0
  Finished s t =
      ((tid : ℕ)
        → Each (Ran dbms print) (select (λ r. r.tid == tid) t.real)
            (select (λ e. e.tid == tid) t.queue))
      × (length t.real ≡ length s.queue)
      × Each (Stays dbms print) s.queue t.queue

  -- Why a run may throw: the database could not be set up or its content not be read, statements are
  -- left, or the tester has lost the connection or found a bug, or a statement has
  -- changed, or `pop_back` is called on an empty vector.
  abbrev pub Cause : Error → Type 0
  Cause e =
      (e ≡ dut_failed)
      ⊎ ((e ≡ not_executed) ⊎ ((e ≡ lost_connection) ⊎ ((e ≡ process_exit) ⊎ (e ≡ empty_vector))))

  -- How a run ends.
  abbrev Ended : Tester E dbms.State → Result (Tester E dbms.State) → Type 0
  Ended s r =
      ((t : Tester E dbms.State) × (r ≡ ok t) × Finished s t)
      ⊎ ((e : Error) × (r ≡ throw e) × Cause e)

  pub connect_all-cases :
      (n : ℕ) (db : dbms.State)
      → ((d : dbms.State) × (connect_all dbms print n db ≡ ok d))
        ⊎ (connect_all dbms print n db ≡ throw dut_failed)
  connect_all-cases zero db = inl (db, refl)
  connect_all-cases (suc n) db = elim (connect_all-cases n db) [
    | inr h ↦ inr (ap (λ r. r >>= λ d. demand (dbms.connect n d) dut_failed) h)
    | inl (d, h) ↦
        let step = ap (λ r. r >>= λ d. demand (dbms.connect n d) dut_failed) h in
        elim (demand-cases (dbms.connect n d)) [
          | inl (c, k) ↦ inl (c, step ∙ k)
          | inr k ↦ inr (step ∙ k)
        ]
  ]

  set_up-cases :
      (n : ℕ) (db : dbms.State)
      → ((ready : List (Text × StmtOutput) × dbms.State) × (set_up dbms print n db ≡ ok ready))
        ⊎ (set_up dbms print n db ≡ throw dut_failed)
  set_up-cases n db = elim (demand-cases (dbms.reset_to_backup db)) [
    | inr h ↦ inr (rw h refl)
    | inl (reset, h) ↦ elim (demand-cases (dbms.get_content reset)) [
      | inr k ↦ inr (rw (h, k) refl)
      | inl (content, k) ↦ elim (connect_all-cases n reset) [
        | inr c ↦ inr (rw (h, k, c) refl)
        | inl (connected, c) ↦ inl ((content, connected), rw (h, k, c) refl)
      ]
    ]
  ]

  -- The size test behind the test of `status_queue` passes.
  check_run-Finished :
      (s start t : Tester E dbms.State)
      → start.queue ≡ s.queue
      → Goes dbms print (length s.queue) start t
      → Ended s (check_run dbms print t)
  check_run-Finished s start t same (o, l) = elim (Bool-cases (all (λ b. b) t.status_queue)) [
    | inr h ↦ inr (not_executed, rw (check_run, h), inr (inl refl))
    | inl h ↦
        let lens : length start.queue ≡ length t.queue = same_length dbms print _ _ t l in
        let full : executed_num t.status_queue ≡ length t.queue =
          executed_num-all t.status_queue h ∙ o.same_length in
        let size : (length t.real == length t.queue) ≡ true =
          (==_iff (length t.real) (length t.queue)).1 (omega (arith, o.counted)) in
        elim (demand-cases (dbms.get_content t.db)) [
          | inr k ↦ inr (dut_failed, rw (h, size, k), inl refl)
          | inl (content, k) ↦ inl (
            record t { trans_db_content = content },
            rw (h, size, k),
            (
              (λ tid.
                  subst (Each (Ran dbms print) (select (λ r. r.tid == tid) t.real))
                    (executed_of-all tid t.status_queue t.queue o.same_length full)
                    (o.follows tid)),
              omega (arith, o.counted, ap length same),
              subst (λ es. Each (Stays dbms print) es t.queue) same l.stays,
            ),
          )
        ]
  ]

  pub trans_test-cases :
      (trans_num : ℕ) (s : Tester E dbms.State)
      → s.real ≡ []
      → Ended s (trans_test dbms print trans_num s)
  unfolding trans_test
  trans_test-cases trans_num s empty = elim (set_up-cases trans_num s.db) [
    | inr h ↦ inr (
      dut_failed,
      ap
          (λ r.
            r
            >>= (λ ready. ok (started dbms print ready s))
            >>= run_loops dbms print
            >>= check_run dbms print)
          h,
      inl refl,
    )
    | inl (ready, h) ↦
        subst (Ended s)
          (sym (
            ap
              (λ r.
                r
                >>= (λ ready. ok (started dbms print ready s))
                >>= run_loops dbms print
                >>= check_run dbms print)
              h))
          (go ready (run_loops dbms print (started dbms print ready s))
            (run_loops-Goes ready s empty))
  ]
    where
      go :
          (ready : List (Text × StmtOutput) × dbms.State) (r : Result (Tester E dbms.State))
          → Ends (Goes dbms print (length s.queue) (started dbms print ready s)) r
          → Ended s (r >>= check_run dbms print)
      go ready (ok t) goes = check_run-Finished s (started dbms print ready s) t refl goes
      go ready (throw e) stopped = inr (e, refl, inr (inr stopped))

  -- From empty `real_` queues a run, whatever the database answers, returns or throws because the
  -- database cannot be reset, connected to or read, for a lost connection or an error that names a bug,
  -- for a changed statement, because `pop_back` is called on the empty vector of a transaction whose
  -- commit was refused, or because statements are left: its loops end, no index is past the end
  -- of a queue, and the test of the sizes never fails.
  pub trans_test-throws :
      (trans_num : ℕ) (s : Tester E dbms.State) (e : Error)
      → s.real ≡ []
      → trans_test dbms print trans_num s ≡ throw e
      → (e ≡ dut_failed)
        ⊎ ((e ≡ not_executed) ⊎ ((e ≡ lost_connection) ⊎ ((e ≡ process_exit) ⊎ (e ≡ empty_vector))))
  trans_test-throws trans_num s e empty thrown = elim (trans_test-cases trans_num s empty) [
    | inl (u, h, _) ↦ cc
    | inr (f, h, cause) ↦ ground (arith, cause)
  ]
