-- ===== src/Txcheck/Tester/Kept.antt =====
-- What each try of a statement keeps, and what one try does: `trans_test_unit` and the code behind
-- its calls in src/txcheck/transaction_test.cc.
use mathlib.Core.Option.{some-injective}
use dbfuzz_multidb.Common.{
  ℕ, zero, suc, ◌<◌, arith, ◌≡◌, refl, sym, subst, ◌∙◌, true, ◌⊎◌, inl, inr, List, [], ◌∷◌, some,
  length, get_elem?, get_elem?-below, Text, Each, Each-refl,
}
use dbfuzz_multidb.Txcheck.Result.{
  Result, ok, throw, lost_connection, process_exit, empty_vector, out_of_bounds, demand, ◌>>=◌,
}
use dbfuzz_multidb.Txcheck.Instrumentor.{Prod, txn_string_stmt, Entry}
use dbfuzz_multidb.Txcheck.Analyzer.{StmtOutput}
use dbfuzz_multidb.Txcheck.Dbms.{Dbms, Response, rows, failure}
use dbfuzz_multidb.Txcheck.Tester.{
  Tester, is_command, set_stmt, push_result, trans_test_unit, unit_answer, turn_to_abort, try_abort,
  abort_now, try_abort_of, Outcome, abort_answer,
}
use dbfuzz_multidb.Txcheck.Tester.Told.{Fails}

-- A run returns with `P`, or stops where the tester itself gives up or pops from an empty vector: it
-- never reads past a vector.
abbrev pub Ends : {A : Type 0} → (A → Type 0) → Result A → Type 0
Ends P (ok a) = P a
Ends P (throw e) = (e ≡ lost_connection) ⊎ ((e ≡ process_exit) ⊎ (e ≡ empty_vector))

pub Ends->>= :
    {A B : Type 0} (P : A → Type 0) (Q : B → Type 0) (r : Result A) (next : A → Result B)
    → Ends P r
    → ((a : A) → P a → Ends Q (next a))
    → Ends Q (r >>= next)
Ends->>= P Q (ok a) next p k = k a p
Ends->>= P Q (throw e) next p k = p

pub Ends-both :
    {A : Type 0} (P Q : A → Type 0) (r : Result A) → Ends P r → Ends Q r → Ends (λ a. P a × Q a) r
Ends-both P Q (ok a) p q = (p, q)
Ends-both P Q (throw e) p q = p

pub Ends-map :
    {A : Type 0} (P Q : A → Type 0) (r : Result A) → ((a : A) → P a → Q a) → Ends P r → Ends Q r
Ends-map P Q (ok a) k p = k a p
Ends-map P Q (throw e) k p = p

module _ (dbms : Dbms) {E : Type 0} (print : Prod E → Text) where
  -- A statement of the queue stays, but for a commit that the database refused.
  abbrev pub Stays : Entry E → Entry E → Type 0
  Stays e f =
      (f.tid ≡ e.tid)
      × (f.stmt_u ≡ e.stmt_u)
      × ((f.stmt ≡ e.stmt)
          ⊎ ((is_command dbms.commit_stmt (print e.stmt) ≡ true)
              × (f.stmt ≡ txn_string_stmt dbms.abort_stmt)
              × ((err : Text) × Fails dbms print e.tid e.stmt err)))

  pub Stays-refl : (e : Entry E) → Stays e e
  Stays-refl e = (refl, refl, inl refl)

  pub Stays-trans : (d e f : Entry E) → Stays d e → Stays e f → Stays d f
  Stays-trans d e f (dt, du, dh) (et, eu, eh) = (
    et ∙ dt,
    eu ∙ du,
    elim dh [
      | inl same ↦ elim eh [
        | inl same' ↦ inl (same' ∙ same)
        | inr (c, to, (err, (db, said))) ↦ inr (
          subst (λ p. is_command dbms.commit_stmt (print p) ≡ true) same c,
          to,
          (
            err,
            (
              db,
              subst (λ p. (dbms.test d.tid (print p) db).0 ≡ failure err) same
                  (subst (λ k. (dbms.test k (print e.stmt) db).0 ≡ failure err) dt said),
            ),
          ),
        )
      ]
      | inr (c, to, why) ↦ elim eh [
        | inl same' ↦ inr (c, same' ∙ to, why)
        | inr (c', to', why') ↦ inr (c, to', why)
      ]
    ],
  )

  -- What `trans_test_unit` leaves alone.
  pub record UnitKeeps (i : ℕ) (s t : Tester E dbms.State) : Type 0 where
    pub same_status : t.status_queue ≡ s.status_queue
    pub same_real : t.real ≡ s.real
    pub same_flags : (k : ℕ) → (t.trans_arr k).is_blocked ≡ (s.trans_arr k).is_blocked
    pub same_queue : (t.queue ≡ s.queue) ⊎ ((p : Prod E) × (t.queue ≡ set_stmt i p s.queue))
    pub stays : Each Stays s.queue t.queue

  set_stmt-Stays :
      (i : ℕ) (es : List (Entry E)) (e : Entry E)
      → get_elem? es i ≡ some e
      → is_command dbms.commit_stmt (print e.stmt) ≡ true
      → (err : Text) × Fails dbms print e.tid e.stmt err
      → Each Stays es (set_stmt i (txn_string_stmt dbms.abort_stmt) es)
  set_stmt-Stays i [] e g c refused = tt
  set_stmt-Stays zero (f ∷ es) e g c refused =
      subst (λ x. Each Stays (x ∷ es) (set_stmt 0 (txn_string_stmt dbms.abort_stmt) (x ∷ es)))
        (sym (some-injective _ _ g))
        ((refl, refl, inr (c, refl, refused)), Each-refl Stays Stays-refl es)
  set_stmt-Stays (suc i) (f ∷ es) e g c refused = (Stays-refl f, set_stmt-Stays i es e g c refused)

  db-UnitKeeps :
      (i : ℕ) (s : Tester E dbms.State) (d : dbms.State) → UnitKeeps i s (record s { db = d })
  db-UnitKeeps i s d = record {
    same_status = refl;
    same_real = refl;
    same_flags = λ k. refl;
    same_queue = inl refl;
    stays = Each-refl Stays Stays-refl s.queue;
  }

  push_result-UnitKeeps :
      (i tid : ℕ) (output : StmtOutput) (err : Text) (s t : Tester E dbms.State)
      → UnitKeeps i s t
      → UnitKeeps i s (push_result tid output err t)
  push_result-UnitKeeps i tid output err s t k = record {
    same_status = k.same_status;
    same_real = k.same_real;
    same_flags = λ j. ground (arith, k.same_flags j);
    same_queue = k.same_queue;
    stays = k.stays;
  }

  abort_answer-UnitKeeps :
      (i tid : ℕ) (s t : Tester E dbms.State) (answer : Response)
      → UnitKeeps i s t
      → UnitKeeps i s (abort_answer dbms print tid answer t).1
  abort_answer-UnitKeeps i tid s t (rows output) k = push_result-UnitKeeps i tid [] [] s t k
  abort_answer-UnitKeeps i tid s t (failure err) k = k

  abort_now-UnitKeeps :
      (i : ℕ) (e : Entry E) (s : Tester E dbms.State) (d : dbms.State)
      → get_elem? s.queue i ≡ some e
      → is_command dbms.commit_stmt (print e.stmt) ≡ true
      → (err : Text) × Fails dbms print e.tid e.stmt err
      → UnitKeeps i s (abort_now dbms print i e.tid (record s { db = d })).1
  abort_now-UnitKeeps i e s d g c refused =
      let t = turn_to_abort dbms print i e.tid (record s { db = d }) in
      let answer = dbms.test e.tid (print (txn_string_stmt dbms.abort_stmt)) t.db in
      abort_answer-UnitKeeps i e.tid s (record t { db = answer.1 }) answer.0
        record {
          same_status = refl;
          same_real = refl;
          same_flags = λ k. ground arith;
          same_queue = inr (txn_string_stmt dbms.abort_stmt, refl);
          stays = set_stmt-Stays i s.queue e g c refused;
        }

  pub try_abort-Ends :
      (P : Outcome × Tester E dbms.State → Type 0) (i tid : ℕ) (s : Tester E dbms.State)
      → P (abort_now dbms print i tid s)
      → Ends P (try_abort dbms print i tid s)
  try_abort-Ends P i tid s p = go (s.trans_arr tid).stmts
    where
      go : (stmts : List (Prod E)) → Ends P (try_abort_of dbms print stmts i tid s)
      go [] = inr (inr refl)
      go (stmt ∷ stmts) = p

  unit_answer-UnitKeeps :
      (i : ℕ) (e : Entry E) (s : Tester E dbms.State) (d : dbms.State) (answer : Response)
      → get_elem? s.queue i ≡ some e
      → (dbms.test e.tid (print e.stmt) s.db).0 ≡ answer
      → Ends
          (λ (o, t). UnitKeeps i s t)
          (unit_answer dbms print i e.tid (print e.stmt) answer (record s { db = d }))
  unit_answer-UnitKeeps i e s d (rows output) g said =
      push_result-UnitKeeps i e.tid output [] s _ (db-UnitKeeps i s d)
  unit_answer-UnitKeeps i e s d (failure err) g said =
      let keeps = db-UnitKeeps i s d in
      let skip = push_result-UnitKeeps i e.tid [] [] s (record s { db = d }) keeps in
      let fail = push_result-UnitKeeps i e.tid [] err s (record s { db = d }) keeps in
      let abort = λ (c : is_command dbms.commit_stmt (print e.stmt) ≡ true).
        try_abort-Ends (λ (o, t). UnitKeeps i s t) i e.tid (record s { db = d })
          (abort_now-UnitKeeps i e s d g c (err, (s.db, said))) in
      ground arith

  pub unit_keeps :
      (i : ℕ) (s : Tester E dbms.State)
      → i < length s.queue
      → Ends (λ (o, t). UnitKeeps i s t) (trans_test_unit dbms print i s)
  unfolding trans_test_unit
  unit_keeps i s l =
      let (e, g) = get_elem?-below s.queue i l in
      let answer = dbms.test e.tid (print e.stmt) s.db in
      subst
        (λ o.
          Ends (λ (o, t). UnitKeeps i s t)
            (demand o out_of_bounds >>= λ e.
              unit_answer dbms print i e.tid (print e.stmt) (dbms.test e.tid (print e.stmt) s.db).0
                (record s { db = (dbms.test e.tid (print e.stmt) s.db).1 })))
        (sym g) (unit_answer-UnitKeeps i e s answer.1 answer.0 g refl)
