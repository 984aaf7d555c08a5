-- ===== src/Txcheck/Tester/Assign.antt =====
-- `assign_txn_id` of src/txcheck/transaction_test.cc: a random order of the transactions' statements, at
-- most three transactions at a time. The two sets of tids are lists in ascending order. With fuel for
-- each statement the loop ends; how often it turns is part of what is proved.
pub mod Fair
pub mod Open
pub mod Tids
use dbfuzz_multidb.Common.{
  ℕ, zero, suc, ◌+◌, ◌-◌, Bool, true, false, not, ◌==◌, ltb, leb, List, [], ◌∷◌, ◌++◌, Option, none,
  some, length, get_elem?, select, mem, range, if◌then◌else◌,
}
use dbfuzz_multidb.Txcheck.Result.{Result, ok, throw, demand, out_of_bounds, no_fuel, ◌>>=◌}
use dbfuzz_multidb.Core.Random.{Source, dx}

-- MAX_CONCURRENT_TXN_NUM
abbrev pub max_concurrent_txn_num : ℕ
max_concurrent_txn_num = 3

-- `set::insert`
abbrev pub add_tid : ℕ → List ℕ → List ℕ
add_tid t [] = t ∷ []
add_tid t (x ∷ xs) = if t == x then x ∷ xs else if ltb t x then t ∷ x ∷ xs else x ∷ add_tid t xs

-- `set::erase`
abbrev pub erase_tid : ℕ → List ℕ → List ℕ
erase_tid t xs = select (λ x. not (x == t)) xs

-- The locals of the function, with `tid_queue`.
pub record Assign : Type 0 where
  pub concurrent_tid : List ℕ
  pub available_tid : List ℕ
  pub tid_insertd_stmt : ℕ → ℕ
  pub tid_queue : List ℕ

-- A tid that is chosen is pushed, and leaves the sets with its last statement.
abbrev pub push_tid : (ℕ → ℕ) → ℕ → Assign → Assign
push_tid stmt_num tid a =
    let inserted = suc (a.tid_insertd_stmt tid) in
    let full = leb (stmt_num tid) inserted in
    record {
      concurrent_tid = if full then erase_tid tid a.concurrent_tid else a.concurrent_tid;
      available_tid = if full then erase_tid tid a.available_tid else a.available_tid;
      tid_insertd_stmt = λ t. if t == tid then inserted else a.tid_insertd_stmt t;
      tid_queue = a.tid_queue ++ tid ∷ [];
    }

-- A transaction gets one statement where `stmt_num` is 0.
abbrev pub turn_num : (ℕ → ℕ) → ℕ → ℕ
turn_num stmt_num t = if stmt_num t == 0 then 1 else stmt_num t

abbrev pub turns : (ℕ → ℕ) → ℕ → ℕ
turns stmt_num zero = 0
turns stmt_num (suc n) = turns stmt_num n + turn_num stmt_num n

module _ {G : Type 0} (pick : (min max : ℕ) → G → ℕ × G) (stmt_num : ℕ → ℕ) where
  abbrev pub choose_at : List ℕ → ℕ × Source G → Result (ℕ × Source G)
  choose_at tids (zero, s) = throw out_of_bounds
  choose_at tids (suc idx, s) = demand (get_elem? tids idx) out_of_bounds >>= λ tid. ok (tid, s)

  -- `*next(tids.begin(), dx(tids.size()) - 1)`
  abbrev pub choose_tid : List ℕ → Source G → Result (ℕ × Source G)
  choose_tid tids s = choose_at tids (dx pick (length tids) s)

  -- One round of the loop, where `short` says that fewer transactions than allowed are open.
  abbrev pub round_at : Bool → Assign → Source G → Result (Assign × Source G)
  round_at true a s = choose_tid a.available_tid s >>= λ (tid, t).
      ok (push_tid stmt_num tid (record a { concurrent_tid = add_tid tid a.concurrent_tid }), t)
  round_at false a s = choose_tid a.concurrent_tid s >>= λ (tid, t). ok (push_tid stmt_num tid a, t)

  abbrev pub assign_round : Assign → Source G → Result (Assign × Source G)
  assign_round a s = round_at (ltb (length a.concurrent_tid) max_concurrent_txn_num) a s

  -- The test of the loop: `available` is not empty.
  abbrev pub assign_while :
      (Assign → Source G → Result (Assign × Source G))
      → List ℕ
      → Assign
      → Source G
      → Result (Assign × Source G)
  assign_while body [] a s = ok (a, s)
  assign_while body (t ∷ ts) a s = body a s

  unfoldable pub assign_loop : ℕ → Assign → Source G → Result (Assign × Source G)
  assign_loop zero a s = assign_while (λ b u. throw no_fuel) a.available_tid a s
  assign_loop (suc fuel) a s =
      assign_while (λ b u. assign_round b u >>= λ (c, v). assign_loop fuel c v) a.available_tid a s

  unfoldable pub assign_txn_id : ℕ → Source G → Result (List ℕ × Source G)
  unfolding assign_loop
  assign_txn_id trans_num s =
      assign_loop (turns stmt_num trans_num)
        (record {
          concurrent_tid = [];
          available_tid = range 0 trans_num;
          tid_insertd_stmt = λ t. 0;
          tid_queue = [];
        })
        s
      >>= λ (a, t). ok (a.tid_queue, t)
