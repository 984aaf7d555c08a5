-- ===== src/Txcheck/Tester/Calm.antt =====
-- A run of `trans_test` (src/txcheck/transaction_test.cc) on a database that answers every statement.
use dbfuzz_multidb.Common.{
  ℕ, zero, suc, ◌+◌, ◌<◌, ◌≤◌, arith, ◌≡◌, refl, sym, ap, subst, ◌∙◌, Bool, true, false, inl, inr,
  List, [], ◌∷◌, some, Text, length, length-append, get_elem?, get_elem?-below, get_or, range, all,
  if◌then◌else◌, ◌==◌, Each, select,
}
use dbfuzz_multidb.Txcheck.Result.{
  Result, ok, throw, ensure, demand, out_of_bounds, not_executed, wrong_size, dut_failed,
  ok-injective, >>=-eq-ok, ◌>>=◌,
}
use dbfuzz_multidb.Txcheck.Analyzer.{StmtOutput}
use dbfuzz_multidb.Txcheck.Instrumentor.{Prod, Entry}
use dbfuzz_multidb.Txcheck.Dbms.{Dbms, rows, failure}
use dbfuzz_multidb.Txcheck.Tester.{
  Real, Tester, executed, push_result, unit_answer, trans_test_unit,
}
use dbfuzz_multidb.Txcheck.Tester.Run.{
  tid_at, has_run, real_of, settle_first, attempt, ends_txn, visit, first_tries, later_tries,
  retry_loop, retry_block_stmt, run_queue, finish_loop, executed_num, connect_all, set_up, started,
  check_run, run_loops, trans_test,
}
use dbfuzz_multidb.Txcheck.Tester.Told.{Executes, Ran}
use dbfuzz_multidb.Txcheck.Tester.Queue.{length-set_elem, get_or-set_elem}
use dbfuzz_multidb.Txcheck.Tester.Order.{later_tries-skip}
use dbfuzz_multidb.Txcheck.Tester.Retry.{first_tries-skip}
use dbfuzz_multidb.Txcheck.Tester.Finish.{run_queue-visit, finish_loop-stop}
use dbfuzz_multidb.Txcheck.Tester.Correct.{trans_test-cases, executed_num-all, length-map-false}

all-get_or :
    (bs : List Bool) → ((j : ℕ) → j < length bs → get_or bs j false ≡ true) → all (λ b. b) bs ≡ true
all-get_or [] h = refl
all-get_or (b ∷ bs) h =
    ground (arith, h 0 (omega arith), all-get_or bs (λ j l. h (suc j) (omega arith)))

module _ (dbms : Dbms) {E : Type 0} (print : Prod E → Text)
    (answers : (tid : ℕ) (stmt : Text) (st : dbms.State)
      → (output : StmtOutput) × ((dbms.test tid stmt st).0 ≡ rows output))
    (resets : (st : dbms.State) → (reset : dbms.State) × (dbms.reset_to_backup st ≡ some reset))
    (connects : (tid : ℕ) (st : dbms.State)
      → (connected : dbms.State) × (dbms.connect tid st ≡ some connected))
    (reads : (st : dbms.State)
      → (content : List (Text × StmtOutput)) × (dbms.get_content st ≡ some content)) where
  -- No transaction is blocked, and the statements before place `i` are executed.
  record Calm (i : ℕ) (s : Tester E dbms.State) : Type 0 where
    free : (k : ℕ) → (s.trans_arr k).is_blocked ≡ false
    done : (j : ℕ) → j < i → has_run s j ≡ true
    same_length : length s.status_queue ≡ length s.queue

  unit_executed :
      (i : ℕ) (s : Tester E dbms.State) (e : Entry E) (output : StmtOutput)
      → get_elem? s.queue i ≡ some e
      → (dbms.test e.tid (print e.stmt) s.db).0 ≡ rows output
      → trans_test_unit dbms print i s
        ≡ ok (
          executed output,
          push_result e.tid output [] (record s { db = (dbms.test e.tid (print e.stmt) s.db).1 }),
        )
  unfolding trans_test_unit
  unit_executed i s e output g a =
      ap
        (λ found. demand found out_of_bounds >>= λ f.
          unit_answer dbms print i f.tid (print f.stmt) (dbms.test f.tid (print f.stmt) s.db).0
            (record s { db = (dbms.test f.tid (print f.stmt) s.db).1 }))
        g
      ∙ ap
          (λ r.
            unit_answer dbms print i e.tid (print e.stmt) r
              (record s { db = (dbms.test e.tid (print e.stmt) s.db).1 }))
          a

  attempt-Calm :
      (i : ℕ) (s : Tester E dbms.State)
      → i < length s.queue
      → Calm i s
      → (ended : Bool) × (t : Tester E dbms.State) × (attempt dbms print settle_first i s
          ≡ ok (ended, t))
        × Calm (suc i) t
        × (t.queue ≡ s.queue)
        × (length t.real ≡ suc (length s.real))
  unfolding trans_test_unit
  attempt-Calm i s below calm =
      let (e, g) = get_elem?-below s.queue i below in
      let (output, a) = answers e.tid (print e.stmt) s.db in
      let t =
        push_result e.tid output [] (record s { db = (dbms.test e.tid (print e.stmt) s.db).1 }) in
      (
        ends_txn dbms print (executed output) e,
        settle_first i e (executed output) t,
        ap
              (λ r. r >>= λ (o, u). demand (get_elem? u.queue i) out_of_bounds >>= λ f.
                ok (ends_txn dbms print o f, settle_first i f o u))
              (unit_executed i s e output g a)
            ∙ ap
                (λ found. demand found out_of_bounds >>= λ f.
                  ok
                    (ends_txn dbms print (executed output) f, settle_first i f (executed output) t))
                g,
        record {
          free = λ k. ground (arith, calm.free k, calm.free e.tid);
          done = λ j l. ground (
            arith,
            calm.done j,
            get_or-set_elem i j s.status_queue (omega (arith, calm.same_length)),
          );
          same_length = length-set_elem i s.status_queue ∙ calm.same_length;
        },
        refl,
        omega (arith, length-append s.real (real_of e output ∷ [])),
      )

  first_tries-Calm :
      (is tried : List ℕ) (i : ℕ) (s : Tester E dbms.State)
      → Calm i s
      → first_tries dbms print is tried s ≡ ok s
  unfolding first_tries
  first_tries-Calm [] tried i s calm = refl
  first_tries-Calm (k ∷ is) tried i s calm =
      first_tries-skip dbms print k is tried s (ground (arith, calm.free (tid_at s.queue k)))
      ∙ first_tries-Calm is tried i s calm

  later_tries-Calm :
      (again : ℕ → Tester E dbms.State → Result (Tester E dbms.State)) (k m i : ℕ)
      (s : Tester E dbms.State)
      → k + m ≤ i
      → Calm i s
      → later_tries dbms print again (range k m) s ≡ ok s
  unfolding later_tries
  later_tries-Calm again k zero i s le calm = refl
  later_tries-Calm again k (suc m) i s le calm =
      later_tries-skip dbms print again k (range (suc k) m) s
        (ground (arith, calm.done k (omega arith)))
      ∙ later_tries-Calm again (suc k) m i s (omega arith) calm

  retry_loop-Calm :
      (fuel i : ℕ) (s : Tester E dbms.State) → Calm i s → retry_loop dbms print fuel i s ≡ ok s
  unfolding retry_loop
  retry_loop-Calm zero i s calm = refl
  retry_loop-Calm (suc fuel) i s calm =
      ap (λ r. r >>= later_tries dbms print (retry_loop dbms print fuel) (range 0 i))
        (first_tries-Calm (range 0 i) [] i s calm)
      ∙ later_tries-Calm (retry_loop dbms print fuel) 0 i i s (omega arith) calm

  retry_block_stmt-Calm :
      (i : ℕ) (s : Tester E dbms.State) → Calm (suc i) s → retry_block_stmt dbms print i s ≡ ok s
  unfolding retry_block_stmt
  retry_block_stmt-Calm i s calm = retry_loop-Calm i i s record {
    free = calm.free;
    done = λ j l. calm.done j (omega arith);
    same_length = calm.same_length;
  }

  -- A run of the loop has come to place `n`.
  abbrev Reaches : ℕ → Tester E dbms.State → Result (Tester E dbms.State) → Type 0
  Reaches n s r = (t : Tester E dbms.State) × (r ≡ ok t) × Calm n t × (t.queue ≡ s.queue)

  run_queue-Calm :
      (i m n : ℕ) (s : Tester E dbms.State)
      → i + m ≡ n
      → n ≤ length s.queue
      → Calm i s
      → Reaches n s (run_queue dbms print (range i m) s)
  unfolding run_queue
  run_queue-Calm i zero n s sum below calm =
      let same : i ≡ n = omega arith in (s, refl, subst (λ k. Calm k s) same calm, refl)
  run_queue-Calm i (suc m) n s sum below calm =
      let (ended, t, tried, next, queue, _) = attempt-Calm i s (omega arith) calm in
      let (u, run, last, same) =
        run_queue-Calm (suc i) m n t (omega arith) (omega (arith, ap length queue)) next in
      (
        u,
        run_queue-visit dbms print i (range (suc i) m) s (calm.free (tid_at s.queue i))
            ∙ ap (λ r. r >>= run_queue dbms print (range (suc i) m)) (visited ended t next tried)
            ∙ run,
        last,
        same ∙ queue,
      )
    where
      again :
          (ended : Bool) (t : Tester E dbms.State)
          → Calm (suc i) t
          → (if ended then retry_block_stmt dbms print i t else ok t) ≡ ok t
      again true t next = retry_block_stmt-Calm i t next
      again false t next = refl

      visited :
          (ended : Bool) (t : Tester E dbms.State)
          → Calm (suc i) t
          → attempt dbms print settle_first i s ≡ ok (ended, t)
          → visit dbms print settle_first (retry_block_stmt dbms print) i s ≡ ok t
      visited ended t next tried =
          ap (λ r. r >>= λ (ended, t). if ended then retry_block_stmt dbms print i t else ok t)
            tried
          ∙ again ended t next

  run_loops-Calm :
      (ready : List (Text × StmtOutput) × dbms.State) (s : Tester E dbms.State)
      → ((k : ℕ) → (s.trans_arr k).is_blocked ≡ false)
      → Reaches (length s.queue) s (run_loops dbms print (started dbms print ready s))
  unfolding run_loops
  run_loops-Calm ready s free =
      let n = length s.queue in
      let (t, run, calm, queue) =
        run_queue-Calm 0 n n (started dbms print ready s) (omega arith) (omega arith) record {
          free = free;
          done = λ j l. absurd (omega arith);
          same_length = length-map-false s.queue;
        } in
      let full : executed_num t.status_queue ≡ length t.queue =
        executed_num-all t.status_queue (
          all-get_or t.status_queue
            (λ j l. calm.done j (omega (arith, calm.same_length, ap length queue))))
        ∙ calm.same_length in
      let four : suc (n + 3) ≡ n + 4 = omega arith in
      (
        t,
        ap (λ r. r >>= λ u. finish_loop dbms print (n + 4) 0 (executed_num u.status_queue) u) run
            ∙ subst (λ k. finish_loop dbms print k 0 (executed_num t.status_queue) t ≡ ok t) four
                (finish_loop-stop dbms print (n + 3) 0 (executed_num t.status_queue) t
                  (ground (arith, full))),
        calm,
        queue,
      )

  connect_all-Calm :
      (n : ℕ) (db : dbms.State) → (d : dbms.State) × (connect_all dbms print n db ≡ ok d)
  connect_all-Calm zero db = (db, refl)
  connect_all-Calm (suc n) db =
      let (d, before) = connect_all-Calm n db in
      let (c, connected) = connects n d in (c, rw (before, connected) refl)

  set_up-Calm :
      (n : ℕ) (db : dbms.State)
      → (ready : List (Text × StmtOutput) × dbms.State) × (set_up dbms print n db ≡ ok ready)
  set_up-Calm n db =
      let (reset, h) = resets db in
      let (content, k) = reads reset in
      let (connected, c) = connect_all-Calm n reset in ((content, connected), rw (h, k, c) refl)

  -- A place of the `real_` queues holds the statement and the usage of a place of the queue, with an
  -- output that goes with the database's answer.
  abbrev pub RanAsGiven : Real E → Entry E → Type 0
  RanAsGiven r e =
      (r.tid ≡ e.tid)
      × (r.stmt ≡ e.stmt)
      × (r.stmt_u ≡ e.stmt_u)
      × Executes dbms print e.tid e.stmt r.output

  Ran-RanAsGiven : (r : Real E) (e : Entry E) → Ran dbms print r e → RanAsGiven r e
  Ran-RanAsGiven r e (tid, inl (stmt, usage, executes)) = (tid, stmt, usage, executes)
  Ran-RanAsGiven r e (tid, inr (_, _, _, (err, (db, refused), _))) =
      let (output, given) = answers e.tid (print e.stmt) db in
      let clash : rows output ≡ failure err = sym given ∙ refused in absurd cc

  Each-RanAsGiven :
      (rs : List (Real E)) (es : List (Entry E))
      → Each (Ran dbms print) rs es
      → Each RanAsGiven rs es
  Each-RanAsGiven [] [] h = tt
  Each-RanAsGiven [] (e ∷ es) h = absurd h
  Each-RanAsGiven (r ∷ rs) [] h = absurd h
  Each-RanAsGiven (r ∷ rs) (e ∷ es) (h, k) = (Ran-RanAsGiven r e h, Each-RanAsGiven rs es k)

  check_run-queue : (u t : Tester E dbms.State) → check_run dbms print u ≡ ok t → t.queue ≡ u.queue
  check_run-queue u t h =
      let (_, _, sized) = >>=-eq-ok (ensure (all (λ b. b) u.status_queue) not_executed) _ h in
      let (_, _, rest) = >>=-eq-ok (ensure (length u.real == length u.queue) wrong_size) _ sized in
      let (_, _, end) = >>=-eq-ok (demand (dbms.get_content u.db) dut_failed) _ rest in
      sym (ap (λ x. x.queue) (ok-injective end))

  -- The run has executed the queue that it was given, nothing is lost, and nothing is replaced.
  abbrev pub AllExecuted : Tester E dbms.State → Tester E dbms.State → Type 0
  AllExecuted s t =
      (t.queue ≡ s.queue)
      × ((tid : ℕ)
          → Each RanAsGiven (select (λ r. r.tid == tid) t.real)
              (select (λ e. e.tid == tid) s.queue))
      × (length t.real ≡ length s.queue)

  -- On a database that answers each statement with rows and that can be reset, connected to and read,
  -- and from empty `real_` queues and transactions that are not blocked, `trans_test` returns: the
  -- queue is as before, and the places of each transaction in the `real_` queues are, one by one, its
  -- statements of the queue with their usages.
  pub trans_test-returns :
      (trans_num : ℕ) (s : Tester E dbms.State)
      → ((k : ℕ) → (s.trans_arr k).is_blocked ≡ false)
      → s.real ≡ []
      → (t : Tester E dbms.State) × (trans_test dbms print trans_num s ≡ ok t) × AllExecuted s t
  unfolding trans_test
  trans_test-returns trans_num s free empty =
      let (ready, set) = set_up-Calm trans_num s.db in
      let (u, loops, calm, queue) = run_loops-Calm ready s free in
      let (content, readable) = reads u.db in
      let run : trans_test dbms print trans_num s ≡ check_run dbms print u =
        ap
          (λ r.
            r
            >>= (λ ready. ok (started dbms print ready s))
            >>= run_loops dbms print
            >>= check_run dbms print)
          set
        ∙ ap (λ r. r >>= check_run dbms print) loops in
      let full : all (λ b. b) u.status_queue ≡ true =
        all-get_or u.status_queue
          (λ j l. calm.done j (omega (arith, calm.same_length, ap length queue))) in
      elim (trans_test-cases dbms print trans_num s empty) [
        | inl (t, returned, (order, size, _)) ↦
            let same : t.queue ≡ s.queue = check_run-queue u t (sym run ∙ returned) ∙ queue in
            (
              t,
              returned,
              (
                same,
                (λ tid. Each-RanAsGiven _ _ (
                    subst
                      (λ es.
                        Each (Ran dbms print) (select (λ r. r.tid == tid) t.real)
                          (select (λ e. e.tid == tid) es))
                      same (order tid))),
                size,
              ),
            )
        | inr (e, thrown, cause) ↦
            let checked : check_run dbms print u ≡ throw e = sym run ∙ thrown in
            absurd (ground (arith, checked, full, cause, readable))
      ]
