-- ===== src/Txcheck/Tester/Sound.antt =====
-- The invariant of the queues of src/txcheck/transaction_test.cc, and what keeps it.
use dbfuzz_multidb.Common.{
  ℕ, ◌<◌, arith, Text, ◌≡◌, sym, subst, ◌∙◌, Bool, true, false, Bool-cases, inl, inr, List, [], ◌∷◌,
  ◌++◌, some, length, get_elem?, get_or, select, select-snoc, length-append, ◌==◌, ==_iff, Each,
  Each-append,
}
use dbfuzz_multidb.Txcheck.Instrumentor.{Prod, Entry}
use dbfuzz_multidb.Txcheck.Dbms.{Dbms}
use dbfuzz_multidb.Txcheck.Tester.{Real, set_elem, set_stmt}
use dbfuzz_multidb.Txcheck.Tester.Run.{tid_at, executed_num}
use dbfuzz_multidb.Txcheck.Tester.Told.{Ran}
use dbfuzz_multidb.Txcheck.Tester.Queue.{
  executed_of, executed_of-other, executed_of-next, executed_of-set_stmt, length-set_stmt,
  tid_at-set_stmt, length-set_elem, get_or-set_elem, executed_num-set_elem, below-get_elem?,
  tid_at-get_elem?,
}

module _ {E : Type 0} where
  -- The executed statements of a transaction are the first ones of it.
  abbrev pub InTurn : List Bool → List (Entry E) → Type 0
  InTurn bs es =
      (i j : ℕ)
      → i < j
      → tid_at es i ≡ tid_at es j
      → get_or bs j false ≡ true
      → get_or bs i false ≡ true

module _ (dbms : Dbms) {E : Type 0} (print : Prod E → Text) where
  abbrev pub Follows : List Bool → List (Entry E) → List (Real E) → Type 0
  Follows bs es rs =
      (t : ℕ) → Each (Ran dbms print) (select (λ r. r.tid == t) rs) (executed_of t bs es)

  -- The invariant of `status_queue`, the queue and the `real_` queues.
  pub record Sound (bs : List Bool) (es : List (Entry E)) (rs : List (Real E)) : Type 0 where
    pub same_length : length bs ≡ length es
    pub in_turn : InTurn bs es
    pub follows : Follows bs es rs
    pub counted : length rs ≡ executed_num bs

module _ (dbms : Dbms) {E : Type 0} (print : Prod E → Text) (bs : List Bool) (es : List (Entry E))
    (rs : List (Real E)) where
  pub Sound-set_stmt :
      (i : ℕ) (p : Prod E)
      → get_or bs i false ≡ false
      → Sound dbms print bs es rs
      → Sound dbms print bs (set_stmt i p es) rs
  Sound-set_stmt i p u s = record {
    same_length = s.same_length ∙ sym (length-set_stmt i p es);
    in_turn =
        λ j k l e. s.in_turn j k l (sym (tid_at-set_stmt i j p es) ∙ e ∙ tid_at-set_stmt i k p es);
    follows = λ t.
        subst (Each (Ran dbms print) _) (sym (executed_of-set_stmt t i p bs es u)) (s.follows t);
    counted = s.counted;
  }

  -- Nothing behind a statement that is left is executed in its transaction.
  later_left :
      (i : ℕ) (e : Entry E)
      → Sound dbms print bs es rs
      → get_elem? es i ≡ some e
      → get_or bs i false ≡ false
      → (j : ℕ) → i < j
      → tid_at es j ≡ e.tid
      → get_or bs j false ≡ false
  later_left i e s g u j l h = elim (Bool-cases (get_or bs j false)) [
    | inl d ↦ absurd (ground (arith, s.in_turn i j l (tid_at-get_elem? es i e g ∙ sym h) d))
    | inr n ↦ n
  ]

  Follows-push :
      (i : ℕ) (e : Entry E) (r : Real E)
      → Sound dbms print bs es rs
      → get_elem? es i ≡ some e
      → get_or bs i false ≡ false
      → Ran dbms print r e
      → Follows dbms print (set_elem i true bs) es (rs ++ r ∷ [])
  Follows-push i e r s g u x t = elim (Bool-cases (e.tid == t)) [
    | inl h ↦
        let left : select (λ r. r.tid == t) (rs ++ r ∷ []) ≡ select (λ r. r.tid == t) rs ++ r ∷ [] =
          ground (arith, select-snoc (λ r. r.tid == t) rs r, x) in
        let right : executed_of t (set_elem i true bs) es ≡ executed_of t bs es ++ e ∷ [] =
          subst (λ t. executed_of t (set_elem i true bs) es ≡ executed_of t bs es ++ e ∷ [])
            ((==_iff e.tid t).0 h)
            (executed_of-next i e bs es s.same_length g u (later_left i e s g u)) in
        subst (λ l. Each (Ran dbms print) l (executed_of t (set_elem i true bs) es)) (sym left)
          (subst (Each (Ran dbms print) _) (sym right)
            (Each-append (Ran dbms print) _ _ r e (s.follows t) x))
    | inr h ↦
        let left : select (λ r. r.tid == t) (rs ++ r ∷ []) ≡ select (λ r. r.tid == t) rs =
          ground (arith, select-snoc (λ r. r.tid == t) rs r, x) in
        subst (λ l. Each (Ran dbms print) l (executed_of t (set_elem i true bs) es)) (sym left)
          (subst (Each (Ran dbms print) _)
            (sym (executed_of-other t i bs es (ground (arith, tid_at-get_elem? es i e g))))
            (s.follows t))
  ]

  InTurn-push :
      (i : ℕ) (e : Entry E)
      → Sound dbms print bs es rs
      → get_elem? es i ≡ some e
      → ((j : ℕ) → j < i → tid_at es j ≡ e.tid → get_or bs j false ≡ true)
      → InTurn (set_elem i true bs) es
  InTurn-push i e s g before j k l same d =
      let below : i < length bs = omega (arith, below-get_elem? es i e g, s.same_length) in
      ground (
        arith,
        s.in_turn j k l same,
        before j,
        tid_at-get_elem? es i e g,
        get_or-set_elem i j bs below,
        get_or-set_elem i k bs below,
      )

  -- The first statement of a transaction that is left may be executed.
  pub Sound-push :
      (i : ℕ) (e : Entry E) (r : Real E)
      → Sound dbms print bs es rs
      → get_elem? es i ≡ some e
      → get_or bs i false ≡ false
      → ((j : ℕ) → j < i → tid_at es j ≡ e.tid → get_or bs j false ≡ true)
      → Ran dbms print r e
      → Sound dbms print (set_elem i true bs) es (rs ++ r ∷ [])
  Sound-push i e r s g u before x = record {
    same_length = length-set_elem i bs ∙ s.same_length;
    in_turn = InTurn-push i e s g before;
    follows = Follows-push i e r s g u x;
    counted = omega (
      arith,
      length-append rs (r ∷ []),
      executed_num-set_elem i bs (omega (arith, below-get_elem? es i e g, s.same_length)) u,
      s.counted,
    );
  }
