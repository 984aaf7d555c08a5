-- ===== src/Txcheck/Tester/Attempt.antt =====
-- What one try of a statement does in the loops of src/txcheck/transaction_test.cc.
use dbfuzz_multidb.Common.{
  ℕ, zero, suc, ◌<◌, ◌≤◌, arith, ◌≡◌, ◌≢◌, refl, sym, ap, subst, ◌∙◌, Bool, true, false, ◌⊎◌, inl,
  inr, List, [], ◌∷◌, some, length, get_elem?, get_elem?-below, get_or, ◌==◌, ◌||◌, Text, Each,
  Each-length, Each-refl, Each-trans,
}
use dbfuzz_multidb.Txcheck.Result.{ok, out_of_bounds, demand, ◌>>=◌}
use dbfuzz_multidb.Txcheck.Instrumentor.{Prod, Entry}
use dbfuzz_multidb.Txcheck.Dbms.{Dbms}
use dbfuzz_multidb.Txcheck.Tester.{
  Txn, Real, Tester, Outcome, executed, skipped, blocked, set_blocked, set_elem,
}
use dbfuzz_multidb.Txcheck.Tester.Run.{
  tid_at, is_blocked_at, has_run, settle_first, settle_again, attempt, ends_txn, real_of,
  real_skipped, push_real,
}
use dbfuzz_multidb.Txcheck.Tester.Queue.{tid_at-get_elem?, get_or-set_elem, below-get_elem?}
use dbfuzz_multidb.Txcheck.Tester.Sound.{Sound, Sound-push, Sound-set_stmt}
use dbfuzz_multidb.Txcheck.Tester.Told.{Told, Ran}
use dbfuzz_multidb.Txcheck.Tester.Heard.{ToldAt, unit_told}
use dbfuzz_multidb.Txcheck.Tester.Kept.{
  Ends, Ends->>=, Ends-both, Stays, Stays-refl, Stays-trans, UnitKeeps, unit_keeps,
}

module _ {E S : Type 0} where
  -- Every statement of the transaction before place `i` is executed.
  abbrev pub Before : ℕ → Tester E S → Type 0
  Before i s = (j : ℕ) → j < i → tid_at s.queue j ≡ tid_at s.queue i → has_run s j ≡ true

module _ (dbms : Dbms) {E : Type 0} (print : Prod E → Text) where
  abbrev pub SoundAt : Tester E dbms.State → Type 0
  SoundAt s = Sound dbms print s.status_queue s.queue s.real

  -- From `s` to `t` the run goes on, with changes of the states before place `m` only.
  pub record Later (m : ℕ) (s t : Tester E dbms.State) : Type 0 where
    pub stays : Each (Stays dbms print) s.queue t.queue
    pub goes_on : (j : ℕ) → has_run s j ≡ true → has_run t j ≡ true
    pub above : (j : ℕ) → m ≤ j → has_run t j ≡ has_run s j

  pub tid_at-Stays :
      (es fs : List (Entry E)) → Each (Stays dbms print) es fs → (j : ℕ) → tid_at fs j ≡ tid_at es j
  tid_at-Stays [] [] h j = refl
  tid_at-Stays [] (f ∷ fs) h j = absurd h
  tid_at-Stays (e ∷ es) [] h j = absurd h
  tid_at-Stays (e ∷ es) (f ∷ fs) h zero = h.0.0
  tid_at-Stays (e ∷ es) (f ∷ fs) h (suc j) = tid_at-Stays es fs h.1 j

  pub Later-refl : (m : ℕ) (s : Tester E dbms.State) → Later m s s
  Later-refl m s = record {
    stays = Each-refl (Stays dbms print) (Stays-refl dbms print) s.queue;
    goes_on = λ j d. d;
    above = λ j l. refl;
  }

  pub Later-trans :
      (k m : ℕ) (s t u : Tester E dbms.State) → k ≤ m → Later k s t → Later m t u → Later m s u
  Later-trans k m s t u le h l = record {
    stays = Each-trans (Stays dbms print) (Stays-trans dbms print) _ _ _ h.stays l.stays;
    goes_on = λ j d. l.goes_on j (h.goes_on j d);
    above = λ j b. l.above j b ∙ h.above j (omega arith);
  }

  pub Later-widen : (k m : ℕ) (s t : Tester E dbms.State) → k ≤ m → Later k s t → Later m s t
  Later-widen k m s t le l = record {
    stays = l.stays;
    goes_on = l.goes_on;
    above = λ j b. l.above j (omega arith);
  }

  -- A try at place `i` that has ended.
  pub record Tried (i : ℕ) (s : Tester E dbms.State) (ended : Bool) (t : Tester E dbms.State)
      : Type 0 where
    pub sound : SoundAt t
    pub later : Later (suc i) s t
    pub others :
        (k : ℕ) → k ≢ tid_at s.queue i → (t.trans_arr k).is_blocked ≡ (s.trans_arr k).is_blocked
    pub settled : (has_run t i ≡ true) ⊎ (is_blocked_at t i ≡ true)
    pub after_end : ended ≡ true → has_run t i ≡ true

  SoundAt-UnitKeeps :
      (i : ℕ) (s t : Tester E dbms.State)
      → SoundAt s
      → has_run s i ≡ false
      → UnitKeeps dbms print i s t
      → SoundAt t
  SoundAt-UnitKeeps i s t h u k =
      subst (λ bs. Sound dbms print bs t.queue t.real) (sym k.same_status)
        (subst (Sound dbms print s.status_queue t.queue) (sym k.same_real) (elim k.same_queue [
          | inl e ↦ subst (λ es. Sound dbms print s.status_queue es s.real) (sym e) h
          | inr (p, e) ↦
              subst (λ es. Sound dbms print s.status_queue es s.real) (sym e)
                (Sound-set_stmt dbms print s.status_queue s.queue s.real i p u h)
        ]))

  module _ (i : ℕ) (s t : Tester E dbms.State) (sound : SoundAt s) (left : has_run s i ≡ false)
      (before : Before i s) (keeps : UnitKeeps dbms print i s t) (e : Entry E)
      (found : get_elem? t.queue i ≡ some e) where
    same_tid : tid_at s.queue i ≡ e.tid
    same_tid = sym (tid_at-Stays s.queue t.queue keeps.stays i) ∙ tid_at-get_elem? t.queue i e found

    same_done : (j : ℕ) → has_run t j ≡ has_run s j
    same_done j = ap (λ bs. get_or bs j false) keeps.same_status

    sound_after : SoundAt t
    sound_after = SoundAt-UnitKeeps i s t sound left keeps

    -- The statement has been pushed on the `real_` queues.
    Tried-push :
        (arr : ℕ → Txn E) (ended : Bool) (r : Real E)
        → ((k : ℕ) → k ≢ e.tid → (arr k).is_blocked ≡ (t.trans_arr k).is_blocked)
        → Ran dbms print r e
        → Tried i s ended (push_real i r (record t { trans_arr = arr }))
    Tried-push arr ended r others x =
        let below : i < length t.status_queue =
          omega (arith, below-get_elem? t.queue i e found, sound_after.same_length) in
        let set : (j : ℕ)
            → get_or (set_elem i true t.status_queue) j false ≡ (j == i) || has_run t j =
          λ j. get_or-set_elem i j t.status_queue below in
        record {
          sound =
              Sound-push dbms print t.status_queue t.queue t.real i e r sound_after found
                (same_done i ∙ left)
                (λ j l h.
                  same_done j
                  ∙ before j l
                      (sym (tid_at-Stays s.queue t.queue keeps.stays j) ∙ h ∙ sym same_tid))
                x;
          later = record {
            stays = keeps.stays;
            goes_on = λ j d. ground (arith, set j, same_done j);
            above = λ j l. ground (arith, set j, same_done j);
          };
          others = λ k n. others k (ground (arith, same_tid)) ∙ keeps.same_flags k;
          settled = inl ground (arith, set i);
          after_end = λ _. ground (arith, set i);
        }

    -- The statement has been found blocked.
    Tried-blocked : Tried i s false (set_blocked e.tid true t)
    Tried-blocked = record {
      sound = sound_after;
      later = record {
        stays = keeps.stays;
        goes_on = λ j d. same_done j ∙ d;
        above = λ j l. same_done j;
      };
      others = λ k n. ground (arith, same_tid, keeps.same_flags k);
      settled = inr ground (arith, tid_at-get_elem? t.queue i e found);
      after_end = λ h. ground arith;
    }

    settle_first-Tried :
        (o : Outcome)
        → Told dbms print o e.tid e.stmt
        → Tried i s (ends_txn dbms print o e) (settle_first i e o t)
    settle_first-Tried (executed output) told =
        Tried-push t.trans_arr _ (real_of e output) (λ k n. refl) (refl, inl (refl, refl, told))
    settle_first-Tried (skipped output) (empty, told) =
        Tried-push t.trans_arr _ (real_skipped e output) (λ k n. refl)
          (refl, inr (refl, refl, empty, told))
    settle_first-Tried blocked told = Tried-blocked

    settle_again-Tried :
        (o : Outcome)
        → Told dbms print o e.tid e.stmt
        → Tried i s (ends_txn dbms print o e) (settle_again i e o t)
    settle_again-Tried (executed output) told =
        Tried-push (set_blocked e.tid false t).trans_arr _ (real_of e output) (λ k n. ground arith)
          (refl, inl (refl, refl, told))
    settle_again-Tried (skipped output) (empty, told) =
        Tried-push (set_blocked e.tid false t).trans_arr _ (real_skipped e output)
          (λ k n. ground arith) (refl, inr (refl, refl, empty, told))
    settle_again-Tried blocked told = Tried-blocked

  -- The two ways to go on after a try.
  abbrev pub Settles : (ℕ → Entry E → Outcome → Tester E dbms.State → Tester E dbms.State) → Type 0
  Settles settle =
      (i : ℕ) (s t : Tester E dbms.State)
      → SoundAt s
      → has_run s i ≡ false
      → Before i s
      → UnitKeeps dbms print i s t
      → (e : Entry E) → get_elem? t.queue i ≡ some e
      → (o : Outcome) → Told dbms print o e.tid e.stmt
      → Tried i s (ends_txn dbms print o e) (settle i e o t)

  pub settle_first-Settles : Settles settle_first
  settle_first-Settles = settle_first-Tried

  pub settle_again-Settles : Settles settle_again
  settle_again-Settles = settle_again-Tried

  -- A try of the first statement of a transaction that is left.
  pub attempt-Tried :
      (settle : ℕ → Entry E → Outcome → Tester E dbms.State → Tester E dbms.State)
      → Settles settle
      → (i : ℕ) (s : Tester E dbms.State) → i < length s.queue
      → SoundAt s
      → has_run s i ≡ false
      → Before i s
      → Ends (λ (ended, t). Tried i s ended t) (attempt dbms print settle i s)
  attempt-Tried settle settles i s below sound left before =
      Ends->>= (λ (o, t). UnitKeeps dbms print i s t × ToldAt dbms print i (o, t))
        (λ (ended, t). Tried i s ended t) _ _
        (Ends-both (λ (o, t). UnitKeeps dbms print i s t) (ToldAt dbms print i) _
          (unit_keeps dbms print i s below) (unit_told dbms print i s below))
        λ (o, t) (keeps, told).
          let (e, g) = get_elem?-below t.queue i (omega (arith, Each-length _ _ _ keeps.stays)) in
          subst
            (λ f.
              Ends (λ (ended, t). Tried i s ended t)
                (demand f out_of_bounds >>= λ e. ok (ends_txn dbms print o e, settle i e o t)))
            (sym g) (settles i s t sound left before keeps e g o (told e g))
