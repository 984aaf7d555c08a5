-- ===== src/Txcheck/Tester/Heard.antt =====
-- What the database has said where a try of a statement ends: `trans_test_unit` of
-- src/txcheck/transaction_test.cc.
use mathlib.Core.Option.{some-injective}
use dbfuzz_multidb.Common.{
  ℕ, zero, suc, ◌<◌, ◌≡◌, refl, sym, subst, ap, ◌∙◌, true, false, ◌||◌, Bool-cases, inl, inr, List,
  [], ◌∷◌, some, length, get_elem?, get_elem?-below, Text, codes,
}
use dbfuzz_multidb.Txcheck.Result.{out_of_bounds, demand, ◌>>=◌}
use dbfuzz_multidb.Txcheck.Instrumentor.{Prod, txn_string_stmt, Entry, contains_text}
use dbfuzz_multidb.Txcheck.Dbms.{Dbms, Response, rows, failure}
use dbfuzz_multidb.Txcheck.Tester.{
  Tester, Outcome, executed, skipped, blocked, is_command, set_stmt, push_result, trans_test_unit,
  unit_answer, turn_to_abort, abort_now, abort_answer,
}
use dbfuzz_multidb.Txcheck.Tester.Kept.{Ends, try_abort-Ends}
use dbfuzz_multidb.Txcheck.Tester.Told.{Fails, Told}

module _ (dbms : Dbms) {E : Type 0} (print : Prod E → Text) where
  -- What stands behind the outcome of a try, for the statement that stands at its place afterwards.
  abbrev pub ToldAt : ℕ → Outcome × Tester E dbms.State → Type 0
  ToldAt i (o, t) = (f : Entry E) → get_elem? t.queue i ≡ some f → Told dbms print o f.tid f.stmt

  get_elem?-set_stmt :
      (i : ℕ) (p : Prod E) (es : List (Entry E)) (e f : Entry E)
      → get_elem? es i ≡ some e
      → get_elem? (set_stmt i p es) i ≡ some f
      → (f.tid ≡ e.tid) × (f.stmt ≡ p)
  get_elem?-set_stmt i p [] e f g h = cc
  get_elem?-set_stmt zero p (d ∷ es) e f g h =
      let was = some-injective _ _ g in
      let is = some-injective _ _ h in
      (sym (ap (λ x. x.tid) is) ∙ ap (λ x. x.tid) was, sym (ap (λ x. x.stmt) is))
  get_elem?-set_stmt (suc i) p (d ∷ es) e f g h = get_elem?-set_stmt i p es e f g h

  abort_now-ToldAt :
      (i : ℕ) (e : Entry E) (s : Tester E dbms.State) (d : dbms.State)
      → get_elem? s.queue i ≡ some e
      → ToldAt i (abort_now dbms print i e.tid (record s { db = d }))
  abort_now-ToldAt i e s d g =
      go (dbms.test e.tid (print (txn_string_stmt dbms.abort_stmt)) d).0 refl
    where
      go :
          (answer : Response)
          → (dbms.test e.tid (print (txn_string_stmt dbms.abort_stmt)) d).0 ≡ answer
          → ToldAt i (
              abort_answer dbms print e.tid answer
                (record (turn_to_abort dbms print i e.tid (record s { db = d })) {
                  db = (dbms.test e.tid (print (txn_string_stmt dbms.abort_stmt)) d).1;
                }))
      go (rows output) said f h =
          let (tid, stmt) =
            get_elem?-set_stmt i (txn_string_stmt dbms.abort_stmt) s.queue e f g h in
          inr (
            refl,
            inr (
              stmt,
              (
                output,
                (
                  d,
                  subst (λ k. (dbms.test k (print f.stmt) d).0 ≡ rows output) (sym tid)
                      (subst (λ p. (dbms.test e.tid (print p) d).0 ≡ rows output) (sym stmt) said),
                ),
              ),
            ),
          )
      go (failure err) said f h = tt

  unit_answer-ToldAt :
      (i : ℕ) (e : Entry E) (s : Tester E dbms.State) (d : dbms.State) (answer : Response)
      → get_elem? s.queue i ≡ some e
      → (dbms.test e.tid (print e.stmt) s.db).0 ≡ answer
      → Ends (ToldAt i) (unit_answer dbms print i e.tid (print e.stmt) answer (record s { db = d }))
  unit_answer-ToldAt i e s d (rows output) g said = λ f h. inl (
    s.db,
    subst (λ x. (dbms.test x.tid (print x.stmt) s.db).0 ≡ rows output)
        (some-injective _ _ (sym g ∙ h)) said,
  )
  unit_answer-ToldAt i e s d (failure err) g said =
      let skip : contains_text (codes "skipped") err ≡ true
          → ToldAt i (skipped [], push_result e.tid [] [] (record s { db = d })) =
        λ c f h. (refl, (err, moved f h, c)) in
      let fail : contains_text (codes "blocked") err ≡ false
          → contains_text (codes "skipped") err ≡ false
          → ToldAt i (executed [], push_result e.tid [] err (record s { db = d })) =
        λ b c f h. inr (refl, inl (err, moved f h, b, c)) in
      let block : ToldAt i (blocked, record s { db = d }) = λ f h. tt in
      let abort =
        try_abort-Ends dbms print (ToldAt i) i e.tid (record s { db = d })
          (abort_now-ToldAt i e s d g) in
      elim (Bool-cases
        (contains_text (codes "ost connection") err || contains_text (codes "BUG") err)) [
          | inl a ↦ rw a (inl refl)
          | inr a ↦ rw a (elim (Bool-cases (contains_text (codes "blocked") err)) [
            | inl b ↦ rw b block
            | inr b ↦ rw b (elim (Bool-cases (contains_text (codes "skipped") err)) [
              | inl c ↦ rw c (skip c)
              | inr c ↦
                  rw c (elim (Bool-cases (contains_text (codes "sent sql stmt changed") err)) [
                    | inl k ↦ rw k (inr (inl refl))
                    | inr k ↦ rw k (elim (Bool-cases (is_command dbms.commit_stmt (print e.stmt))) [
                      | inl m ↦ rw m abort
                      | inr m ↦ rw m (fail b c)
                    ])
                  ])
            ])
          ])
        ]
    where
      moved : (f : Entry E) → get_elem? s.queue i ≡ some f → Fails dbms print f.tid f.stmt err
      moved f h = (
        s.db,
        subst (λ x. (dbms.test x.tid (print x.stmt) s.db).0 ≡ failure err)
            (some-injective _ _ (sym g ∙ h)) said,
      )

  pub unit_told :
      (i : ℕ) (s : Tester E dbms.State)
      → i < length s.queue
      → Ends (ToldAt i) (trans_test_unit dbms print i s)
  unfolding trans_test_unit
  unit_told i s l =
      let (e, g) = get_elem?-below s.queue i l in
      let answer = dbms.test e.tid (print e.stmt) s.db in
      subst
        (λ o. Ends (ToldAt i) (
          demand o out_of_bounds >>= λ e.
          unit_answer dbms print i e.tid (print e.stmt) (dbms.test e.tid (print e.stmt) s.db).0
            (record s { db = (dbms.test e.tid (print e.stmt) s.db).1 })))
        (sym g) (unit_answer-ToldAt i e s answer.1 answer.0 g refl)
