-- ===== src/Txcheck/Tester/Schedule.antt =====
-- `block_scheduling` of src/txcheck/transaction_test.cc: the queue is run, and replaced by what was
-- executed, until both are the same. The test compares pointers to statements, which is the parameter
-- `same_stmts`. How often the loop turns hangs on the database, so that the model counts the rounds.
use dbfuzz_multidb.Common.{
  ℕ, zero, suc, ◌≡◌, ◌⊎◌, inl, inr, refl, sym, ap, subst, ◌∙◌, arith, Bool, true, false, ◌==◌, List,
  [], ◌∷◌, select, map, Text, Each, Each-trans,
}
use dbfuzz_multidb.Txcheck.Result.{Result, ok, throw, no_fuel, ◌>>=◌}
use dbfuzz_multidb.Txcheck.Usage.{usage, init_type}
use dbfuzz_multidb.Txcheck.Instrumentor.{Prod, txn_string_stmt, Entry}
use dbfuzz_multidb.Txcheck.Dbms.{Dbms}
use dbfuzz_multidb.Txcheck.Tester.{Real, Tester, space_holder, is_command}
use dbfuzz_multidb.Txcheck.Tester.Run.{trans_test}
use dbfuzz_multidb.Txcheck.Tester.Told.{Ran, Skips}
use dbfuzz_multidb.Txcheck.Tester.Kept.{Stays}
use dbfuzz_multidb.Txcheck.Tester.Correct.{Finished, Cause, connect_all-cases, trans_test-cases}
use dbfuzz_multidb.Txcheck.Tester.Setup.{cleared, clear_execution_status}

abbrev entry_of : {E : Type 0} → Real E → Entry E
entry_of r = record { tid = r.tid; stmt = r.stmt; stmt_u = r.stmt_u }

module _ (dbms : Dbms) {E : Type 0} (print : Prod E → Text)
    (same_stmts : List (Prod E) → List (Prod E) → Bool) where
  -- `stmt_queue = real_stmt_queue`, and so on.
  abbrev take_real : Tester E dbms.State → Tester E dbms.State
  take_real s = record s { queue = map entry_of s.real }

  -- Behind a run; `again` is the next round.
  abbrev schedule_round :
      (Tester E dbms.State → Result (Tester E dbms.State))
      → ℕ
      → Tester E dbms.State
      → Result (Tester E dbms.State)
  schedule_round again trans_num s =
      elim (same_stmts (map (λ e. e.stmt) s.queue) (map (λ r. r.stmt) s.real)) [
        | true ↦ clear_execution_status dbms print trans_num s
        | false ↦ clear_execution_status dbms print trans_num (take_real s) >>= again
      ]

  unfoldable pub block_scheduling : ℕ → ℕ → Tester E dbms.State → Result (Tester E dbms.State)
  block_scheduling zero trans_num s = throw no_fuel
  block_scheduling (suc rounds) trans_num s =
      trans_test dbms print trans_num s
      >>= schedule_round (block_scheduling rounds trans_num) trans_num

  -- A statement of the new queue stands for one of the old queue: it is the same, or the abort
  -- statement for a commit, or the placeholder for a statement, or the abort that it became, that the
  -- database told to skip.
  abbrev pub StandsFor : Entry E → Entry E → Type 0
  StandsFor f e =
      (f.tid ≡ e.tid)
      × (((f.stmt ≡ e.stmt) × (f.stmt_u ≡ e.stmt_u))
          ⊎ (((is_command dbms.commit_stmt (print e.stmt) ≡ true)
                × (f.stmt ≡ txn_string_stmt dbms.abort_stmt)
                × (f.stmt_u ≡ e.stmt_u))
              ⊎ ((f.stmt ≡ space_holder)
                  × (f.stmt_u ≡ usage init_type e.stmt_u.is_instrumented)
                  × (Skips dbms print e.tid e.stmt
                      ⊎ Skips dbms print e.tid (txn_string_stmt dbms.abort_stmt)))))

  -- Each transaction has the statements of the old queue in their order.
  abbrev pub Rescheduled : List (Entry E) → List (Entry E) → Type 0
  Rescheduled fs es =
      (tid : ℕ) → Each StandsFor (select (λ e. e.tid == tid) fs) (select (λ e. e.tid == tid) es)

  Skips-moved :
      (s t : ℕ) (p q : Prod E) → s ≡ t → p ≡ q → Skips dbms print s p → Skips dbms print t q
  Skips-moved s t p q hs hp skip =
      subst (λ k. Skips dbms print k q) hs (subst (Skips dbms print s) hp skip)

  -- How `block_scheduling` may end.
  abbrev pub Scheduled : List (Entry E) → Result (Tester E dbms.State) → Type 0
  Scheduled es (ok t) = Rescheduled t.queue es × (t.real ≡ [])
  Scheduled es (throw e) = Cause dbms print e ⊎ (e ≡ no_fuel)

  module _ (placeholder : is_command dbms.commit_stmt (print (space_holder {E = E})) ≡ false) where
    StandsFor-trans : (g f e : Entry E) → StandsFor g f → StandsFor f e → StandsFor g e
    StandsFor-trans g f e (gt, gh) (ft, fh) = (
      gt ∙ ft,
      elim gh [
        | inl (stmt, u) ↦ elim fh [
          | inl (stmt', u') ↦ inl (stmt ∙ stmt', u ∙ u')
          | inr (inl (c, stmt', u')) ↦ inr (inl (c, stmt ∙ stmt', u ∙ u'))
          | inr (inr (stmt', u', skip)) ↦ inr (inr (stmt ∙ stmt', u ∙ u', skip))
        ]
        | inr (inl (c, stmt, u)) ↦ elim fh [
          | inl (stmt', u') ↦ inr (
              inl (subst (λ p. is_command dbms.commit_stmt (print p) ≡ true) stmt' c, stmt, u ∙ u'))
          | inr (inl (c', stmt', u')) ↦ inr (inl (c', stmt, u ∙ u'))
          | inr (inr (stmt', u', skip)) ↦
              let clash : is_command dbms.commit_stmt (print (space_holder {E = E})) ≡ true =
                subst (λ p. is_command dbms.commit_stmt (print p) ≡ true) stmt' c in
              let wrong : true ≡ false = sym clash ∙ placeholder in absurd cc
        ]
        | inr (inr (stmt, u, skip)) ↦ elim fh [
          | inl (stmt', u') ↦ inr (
              inr (
                stmt,
                u ∙ ap (λ v. usage init_type v.is_instrumented) u',
                elim skip [
                  | inl k ↦ inl (Skips-moved f.tid e.tid f.stmt e.stmt ft stmt' k)
                  | inr k ↦ inr (Skips-moved f.tid e.tid _ _ ft refl k)
                ],
              ))
          | inr (inl (c, stmt', u')) ↦ inr (
              inr (
                stmt,
                u ∙ ap (λ v. usage init_type v.is_instrumented) u',
                elim skip [
                  | inl k ↦ inr (Skips-moved f.tid e.tid f.stmt _ ft stmt' k)
                  | inr k ↦ inr (Skips-moved f.tid e.tid _ _ ft refl k)
                ],
              ))
          | inr (inr (stmt', u', skip')) ↦
              inr (inr (stmt, u ∙ ap (λ v. usage init_type v.is_instrumented) u', skip'))
        ]
      ],
    )

    Rescheduled-trans :
        (gs fs es : List (Entry E)) → Rescheduled gs fs → Rescheduled fs es → Rescheduled gs es
    Rescheduled-trans gs fs es h k tid = Each-trans StandsFor StandsFor-trans _ _ _ (h tid) (k tid)

    Stays-StandsFor : (e f : Entry E) → Stays dbms print e f → StandsFor f e
    Stays-StandsFor e f (tid, u, how) =
        (tid, elim how [ inl same ↦ inl (same, u) | inr (c, to, _) ↦ inr (inl (c, to, u)) ])

    Rescheduled-Stays : (es fs : List (Entry E)) → Each (Stays dbms print) es fs → Rescheduled fs es
    Rescheduled-Stays [] [] h tid = tt
    Rescheduled-Stays [] (f ∷ fs) h tid = absurd h
    Rescheduled-Stays (e ∷ es) [] h tid = absurd h
    Rescheduled-Stays (e ∷ es) (f ∷ fs) h tid =
        let rest = Rescheduled-Stays es fs h.1 tid in
        let first = Stays-StandsFor e f h.0 in ground (arith, rest, first)

    Rescheduled-real :
        (rs : List (Real E)) (es : List (Entry E))
        → ((tid : ℕ)
            → Each (Ran dbms print) (select (λ r. r.tid == tid) rs) (select (λ e. e.tid == tid) es))
        → Rescheduled (map entry_of rs) es
    Rescheduled-real rs es h tid =
        subst (λ l. Each StandsFor l (select (λ e. e.tid == tid) es)) (sym (select-entry_of tid rs))
          (Each-StandsFor _ _ (h tid))
      where
        select-entry_of :
            (tid : ℕ) (rs : List (Real E))
            → select (λ e. e.tid == tid) (map entry_of rs)
              ≡ map entry_of (select (λ r. r.tid == tid) rs)
        select-entry_of tid [] = refl
        select-entry_of tid (r ∷ rs) = ground (arith, select-entry_of tid rs)

        Each-StandsFor :
            (rs : List (Real E)) (es : List (Entry E))
            → Each (Ran dbms print) rs es
            → Each StandsFor (map entry_of rs) es
        Each-StandsFor [] [] h = tt
        Each-StandsFor [] (e ∷ es) h = absurd h
        Each-StandsFor (r ∷ rs) [] h = absurd h
        Each-StandsFor (r ∷ rs) (e ∷ es) ((tid, how), h) = (
          (
            tid,
            elim how [
              | inl (stmt, same, _) ↦ inl (stmt, same)
              | inr (stmt, same, _, skip) ↦ inr (inr (stmt, same, inl skip))
            ],
          ),
          Each-StandsFor rs es h,
        )

    Scheduled-trans :
        (fs es : List (Entry E)) (r : Result (Tester E dbms.State))
        → Rescheduled fs es
        → Scheduled fs r
        → Scheduled es r
    Scheduled-trans fs es (ok t) h (k, empty) = (Rescheduled-trans t.queue fs es k h, empty)
    Scheduled-trans fs es (throw e) h cause = cause

    -- The connections anew, and what comes after them.
    cleared-Scheduled :
        (es : List (Entry E)) (trans_num : ℕ) (t : Tester E dbms.State)
        (next : Tester E dbms.State → Result (Tester E dbms.State))
        → ((db : dbms.State) → Scheduled es (next (cleared trans_num t db)))
        → Scheduled es (clear_execution_status dbms print trans_num t >>= next)
    unfolding clear_execution_status
    cleared-Scheduled es trans_num t next go = elim (connect_all-cases dbms print trans_num t.db) [
      | inl (db, h) ↦
          subst (Scheduled es)
            (sym (ap (λ r. r >>= (λ db. ok (cleared trans_num t db)) >>= next) h)) (go db)
      | inr h ↦
          subst (Scheduled es)
            (sym (ap (λ r. r >>= (λ db. ok (cleared trans_num t db)) >>= next) h)) (inl (inl refl))
    ]

    >>=-ok : {A : Type 0} (r : Result A) → (r >>= ok) ≡ r
    >>=-ok (ok a) = refl
    >>=-ok (throw e) = refl

    schedule_round-Scheduled :
        (again : Tester E dbms.State → Result (Tester E dbms.State)) (trans_num : ℕ)
        → ((u : Tester E dbms.State) → u.real ≡ [] → Scheduled u.queue (again u))
        → (s t : Tester E dbms.State) → Finished dbms print s t
        → Scheduled s.queue (schedule_round again trans_num t)
    schedule_round-Scheduled again trans_num keep s t (order, size, stays) =
        let kept = Rescheduled-Stays s.queue t.queue stays in
        elim (same_stmts (map (λ e. e.stmt) t.queue) (map (λ r. r.stmt) t.real))
          as (λ b. Scheduled s.queue (elim b [
            | true ↦ clear_execution_status dbms print trans_num t
            | false ↦ clear_execution_status dbms print trans_num (take_real t) >>= again
          ])) [
            | true ↦
                subst (Scheduled s.queue) (>>=-ok (clear_execution_status dbms print trans_num t))
                  (cleared-Scheduled s.queue trans_num t ok (λ db. (kept, refl)))
            | false ↦ cleared-Scheduled s.queue trans_num (take_real t) again λ db.
                Scheduled-trans (map entry_of t.real) s.queue
                  (again (cleared trans_num (take_real t) db))
                  (Rescheduled-trans (map entry_of t.real) t.queue s.queue
                    (Rescheduled-real t.real t.queue order) kept)
                  (keep (cleared trans_num (take_real t) db) refl)
          ]

    -- Where the placeholder is no commit by its text, and from empty `real_` queues, `block_scheduling`
    -- ends, however many rounds are allowed, with empty `real_` queues and a queue in which each
    -- transaction has its statements in their order: each is the same statement with the same usage, or
    -- the abort statement where it was a commit, or the placeholder with its mark as instrumented or
    -- not, only where the database told to skip it or the abort it became; or a run has thrown, or the
    -- transactions could not be connected, or the rounds are used up.
    pub block_scheduling-Scheduled :
        (rounds trans_num : ℕ) (s : Tester E dbms.State)
        → s.real ≡ []
        → Scheduled s.queue (block_scheduling rounds trans_num s)
    unfolding block_scheduling
    block_scheduling-Scheduled zero trans_num s empty = inr refl
    block_scheduling-Scheduled (suc rounds) trans_num s empty =
        elim (trans_test-cases dbms print trans_num s empty) [
          | inl (t, returned, finished) ↦
              subst (Scheduled s.queue)
                (sym (
                  ap (λ r. r >>= schedule_round (block_scheduling rounds trans_num) trans_num)
                    returned))
                (schedule_round-Scheduled (block_scheduling rounds trans_num) trans_num
                  (block_scheduling-Scheduled rounds trans_num) s t finished)
          | inr (e, thrown, cause) ↦
              subst (Scheduled s.queue)
                (sym (
                  ap (λ r. r >>= schedule_round (block_scheduling rounds trans_num) trans_num)
                    thrown))
                (inl cause)
        ]
