-- ===== src/Txcheck/StmtId.antt =====
-- `stmt_id` of src/txcheck/dependency_analyzer.hh and .cc: a statement named by its transaction and
-- its position in that transaction, and the way back to its position in the queue.
pub mod RoundTrip
use dbfuzz_multidb.Common.{
  ℕ, zero, suc, ◌-◌, Bool, ◌&&◌, ◌||◌, ◌==◌, ltb, List, [], ◌∷◌, Option, none, some, if◌then◌else◌,
  get_or,
}

-- The default value (-1, -1), which stands for no statement, is `none` of `Option StmtId`.
pub record StmtId : Type 0 where
  pub txn_id : ℕ
  pub stmt_idx_in_txn : ℕ

abbrev pub id_eq : StmtId → StmtId → Bool
id_eq a b = (a.txn_id == b.txn_id) && (a.stmt_idx_in_txn == b.stmt_idx_in_txn)

abbrev pub id_lt : StmtId → StmtId → Bool
id_lt a b =
    if a.txn_id == b.txn_id then ltb a.stmt_idx_in_txn b.stmt_idx_in_txn else ltb a.txn_id b.txn_id

-- How many of the first `n` statements of the queue belong to transaction `t`.
abbrev pub occurrences : ℕ → List ℕ → ℕ → ℕ
occurrences t [] n = 0
occurrences t (q ∷ qs) zero = 0
occurrences t (q ∷ qs) (suc n) = let rest = occurrences t qs n in if q == t then suc rest else rest

-- The constructor of the queue's statement `stmt_idx`. The counter starts at -1, so the position is
-- one less than the number of statements of the transaction up to and with this one.
unfoldable pub of_stmt_idx : List ℕ → ℕ → StmtId
of_stmt_idx queue stmt_idx =
    let txn_id = get_or queue stmt_idx 0 in
    record { txn_id = txn_id; stmt_idx_in_txn = occurrences txn_id queue (suc stmt_idx) - 1 }

-- The loop of `transfer_2_stmt_idx`: `seen` statements of the transaction stood before index `i`.
abbrev pub transfer_loop : ℕ → ℕ → ℕ → ℕ → List ℕ → Option ℕ
transfer_loop t target seen i [] = none
transfer_loop t target seen i (q ∷ qs) =
    let rest = transfer_loop t target (if q == t then suc seen else seen) (suc i) qs in
    if q == t && seen == target then some i else rest

-- `none` is the error result -1.
unfoldable pub transfer_2_stmt_idx : StmtId → List ℕ → Option ℕ
transfer_2_stmt_idx s queue = transfer_loop s.txn_id s.stmt_idx_in_txn 0 0 queue
