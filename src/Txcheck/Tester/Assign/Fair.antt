-- ===== src/Txcheck/Tester/Assign/Fair.antt =====
-- The queue of `assign_txn_id` (src/txcheck/transaction_test.cc) is complete, and at no time more than
-- three transactions are open.
use dbfuzz_multidb.Common.{
  ℕ, zero, suc, ◌≤◌, arith, ◌≡◌, refl, ap, ◌∙◌, Bool, true, false, ltb, List, [], ◌∷◌, length,
  get_elem?-below, mem, range, if◌then◌else◌,
}
use dbfuzz_multidb.Common.Counting.{mem-range_eq}
use dbfuzz_multidb.Txcheck.Result.{Result, ok, throw, no_fuel, ◌>>=◌}
use dbfuzz_multidb.Core.Random.{Source, dx}
use dbfuzz_multidb.Core.Random.Bounds.{Ready, Drawn, dx-bounds}
use dbfuzz_multidb.Txcheck.Tester.Assign.{
  add_tid, Assign, push_tid, turn_num, turns, choose_at, choose_tid, round_at, assign_round,
  assign_while, assign_loop, assign_txn_id,
}
use dbfuzz_multidb.Txcheck.Tester.Assign.Tids.{mem-add_tid, mem-get_elem?, count}
use dbfuzz_multidb.Txcheck.Tester.Assign.Open.{
  AtMostThree, Sound, left, Sound-insert, Sound-push, AtMostThree-empty, left-push, left-none,
}

module _ (stmt_num : ℕ → ℕ) {G : Type 0} (pick : (min max : ℕ) → G → ℕ × G)
    (in_range : (min max : ℕ) (g : G)
      → min ≤ max
      → (min ≤ (pick min max g).0) × ((pick min max g).0 ≤ max)) where
  -- A choice from a set that is not empty.
  abbrev Chosen : List ℕ → Result (ℕ × Source G) → Type 0
  Chosen tids r =
      (tid : ℕ) × (u : Source G) × (r ≡ ok (tid, u)) × (mem tid tids ≡ true) × Ready pick in_range u

  choose_at-Chosen :
      (tids : List ℕ) (r : ℕ × Source G)
      → Drawn pick in_range (length tids) r
      → Chosen tids (choose_at pick stmt_num tids r)
  choose_at-Chosen tids (zero, s) (low, high, ready) = absurd (omega arith)
  choose_at-Chosen tids (suc i, s) (low, high, ready) =
      let (tid, found) = get_elem?-below tids i (omega arith) in
      (tid, s, rw found refl, mem-get_elem? tids i tid found, ready)

  choose_tid-Chosen :
      (tids : List ℕ) (s : Source G)
      → 1 ≤ length tids
      → Ready pick in_range s
      → Chosen tids (choose_tid pick stmt_num tids s)
  choose_tid-Chosen tids s filled ready =
      choose_at-Chosen tids (dx pick (length tids) s)
        (dx-bounds pick in_range (length tids) s filled ready)

  -- A round from a sound state with something left stmt_num to do.
  abbrev Advanced : ℕ → Assign → Result (Assign × Source G) → Type 0
  Advanced n a r =
      (b : Assign) × (u : Source G) × (r ≡ ok (b, u))
      × Sound stmt_num n b
      × Ready pick in_range u
      × (suc (left stmt_num b.tid_insertd_stmt n) ≡ left stmt_num a.tid_insertd_stmt n)

  round_at-Advanced :
      (short : Bool) (n : ℕ) (a : Assign) (s : Source G)
      → Sound stmt_num n a
      → 1 ≤ length a.available_tid
      → Ready pick in_range s
      → ltb (length a.concurrent_tid) 3 ≡ short
      → Advanced n a (round_at pick stmt_num short a s)
  round_at-Advanced true n a s sound filled ready h =
      let (tid, u, chosen, m, next) = choose_tid-Chosen a.available_tid s filled ready in
      let c : Assign = record a { concurrent_tid = add_tid tid a.concurrent_tid } in
      (
        push_tid stmt_num tid c,
        u,
        ap
            (λ r. r >>= λ (tid, t). ok (
              push_tid stmt_num tid (record a { concurrent_tid = add_tid tid a.concurrent_tid }),
              t,
            ))
            chosen,
        Sound-push stmt_num n tid c (Sound-insert stmt_num n tid a sound m (ground (arith, h)))
            (ground (arith, mem-add_tid tid tid a.concurrent_tid)),
        next,
        left-push stmt_num a.tid_insertd_stmt n tid (ground (arith, sound.available tid, m))
            (ground (arith, sound.available tid, m)),
      )
  round_at-Advanced false n a s sound filled ready h =
      let (tid, u, chosen, m, next) =
        choose_tid-Chosen a.concurrent_tid s (ground (arith, h)) ready in
      let avail = sound.concurrent tid m in
      (
        push_tid stmt_num tid a,
        u,
        ap (λ r. r >>= λ (tid, t). ok (push_tid stmt_num tid a, t)) chosen,
        Sound-push stmt_num n tid a sound m,
        next,
        left-push stmt_num a.tid_insertd_stmt n tid (ground (arith, sound.available tid, avail))
            (ground (arith, sound.available tid, avail)),
      )

  -- The loop has come to its end.
  abbrev Completed : ℕ → Result (Assign × Source G) → Type 0
  Completed n r =
      (b : Assign) × (u : Source G) × (r ≡ ok (b, u)) × Sound stmt_num n b × (b.available_tid ≡ [])

  assign_loop-Completed :
      (fuel n : ℕ) (a : Assign) (s : Source G)
      → Sound stmt_num n a
      → Ready pick in_range s
      → left stmt_num a.tid_insertd_stmt n ≡ fuel
      → Completed n (assign_loop pick stmt_num fuel a s)
  unfolding assign_loop
  assign_loop-Completed zero n a s sound ready none_left = go a.available_tid refl
    where
      go :
          (av : List ℕ)
          → a.available_tid ≡ av
          → Completed n (assign_while pick stmt_num (λ b u. throw no_fuel) av a s)
      go [] e = (a, s, refl, sound, e)
      go (t ∷ ts) e = absurd (
          ground (
            arith,
            sound.available t,
            left-none stmt_num a.tid_insertd_stmt n t none_left,
            ap (mem t) e,
          ))
  assign_loop-Completed (suc fuel) n a s sound ready some_left =
      go (assign_loop-Completed fuel n) a.available_tid refl
    where
      go :
          ((b : Assign) (u : Source G)
            → Sound stmt_num n b
            → Ready pick in_range u
            → left stmt_num b.tid_insertd_stmt n ≡ fuel
            → Completed n (assign_loop pick stmt_num fuel b u))
          → (av : List ℕ) → a.available_tid ≡ av
          → Completed n (
              assign_while pick stmt_num
                (λ b u.
                  assign_round pick stmt_num b u >>= λ (c, v). assign_loop pick stmt_num fuel c v)
                av
                a
                s)
      go more [] e = (a, s, refl, sound, e)
      go more (t ∷ ts) e =
          let (b, u, advanced, better, next, less) =
            round_at-Advanced (ltb (length a.concurrent_tid) 3) n a s sound
              (omega (arith, ap length e)) ready refl in
          let (c, v, done, best, empty) = more b u better next (omega (arith, less, some_left)) in
          (
            c,
            v,
            ap (λ r. r >>= λ (c, v). assign_loop pick stmt_num fuel c v) advanced ∙ done,
            best,
            empty,
          )

  left-start : (n : ℕ) → left stmt_num (λ t. 0) n ≡ turns stmt_num n
  left-start zero = refl
  left-start (suc n) = omega (arith, left-start n)

  abbrev start : ℕ → Assign
  start n = record {
    concurrent_tid = [];
    available_tid = range 0 n;
    tid_insertd_stmt = λ t. 0;
    tid_queue = [];
  }

  start-Sound : (n : ℕ) → Sound stmt_num n (start n)
  start-Sound n = record {
    available = λ t. ground (arith, mem-range_eq t n);
    concurrent = λ t h. ground arith;
    three = omega arith;
    counted = λ t. refl;
    bounded = λ t. omega arith;
    outside = λ t l. refl;
    begun = λ t l. absurd (omega arith);
    fair = AtMostThree-empty stmt_num;
  }

  -- `assign_txn_id`, drawing from a source that is ready, returns: each of the transactions stands in
  -- the queue as often as it has statements, or once where it has none, no other tid stands in it, and
  -- at no time are more than three transactions open, begun and not ended.
  pub assign_txn_id-AtMostThree :
      (trans_num : ℕ) (s : Source G)
      → Ready pick in_range s
      → (queue : List ℕ) × (t : Source G) × (assign_txn_id pick stmt_num trans_num s
          ≡ ok (queue, t))
        × ((tid : ℕ) → count tid queue ≡ (if ltb tid trans_num then turn_num stmt_num tid else 0))
        × AtMostThree stmt_num queue
  unfolding assign_txn_id
  assign_txn_id-AtMostThree n s ready =
      let (b, u, done, sound, empty) =
        assign_loop-Completed (turns stmt_num n) n (start n) s (start-Sound n) ready
          (left-start n) in
      (
        b.tid_queue,
        u,
        ap (λ r. r >>= λ (a, t). ok (a.tid_queue, t)) done,
        (λ t. ground (
          arith,
          sound.available t,
          ap (mem t) empty,
          sound.counted t,
          sound.bounded t,
          sound.outside t,
        )),
        sound.fair,
      )
