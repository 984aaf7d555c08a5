-- ===== src/Txcheck/StmtId/RoundTrip.antt =====
-- A statement's name and its place in the queue determine one another.
use dbfuzz_multidb.Common.{
  ℕ, zero, suc, ◌+◌, ◌<◌, ◌≡◌, refl, ap, ◌==◌, arith, List, [], ◌∷◌, some, Bool-cases, inl, inr,
  length, get_or,
}
use dbfuzz_multidb.Txcheck.StmtId.{
  StmtId, occurrences, of_stmt_idx, transfer_loop, transfer_2_stmt_idx,
}

transfer_loop-occurrences :
    (t seen i j : ℕ) (queue : List ℕ)
    → j < length queue
    → get_or queue j 0 ≡ t
    → transfer_loop t (seen + occurrences t queue j) seen i queue ≡ some (i + j)
transfer_loop-occurrences t seen i j [] h e = absurd (omega arith)
transfer_loop-occurrences t seen i zero (q ∷ qs) h e = ground arith
transfer_loop-occurrences t seen i (suc j) (q ∷ qs) h e = elim (Bool-cases (q == t)) [
  | inl hit ↦ ground (
    arith,
    transfer_loop-occurrences t (suc seen) (suc i) j qs (omega arith) e,
    ap (λ (k : ℕ). transfer_loop t k (suc seen) (suc i) qs) {x = seen + suc (occurrences t qs j)}
        {y = suc seen + occurrences t qs j} (omega arith),
  )
  | inr miss ↦ ground (arith, transfer_loop-occurrences t seen (suc i) j qs (omega arith) e)
]

occurrences-suc :
    (t j : ℕ) (queue : List ℕ)
    → j < length queue
    → get_or queue j 0 ≡ t
    → occurrences t queue (suc j) ≡ suc (occurrences t queue j)
occurrences-suc t j [] h e = absurd (omega arith)
occurrences-suc t zero (q ∷ []) h e = ground arith
occurrences-suc t zero (q ∷ r ∷ qs) h e = ground arith
occurrences-suc t (suc j) (q ∷ qs) h e = ground (arith, occurrences-suc t j qs (omega arith) e)

transfer_loop-found :
    (t target seen i k : ℕ) (queue : List ℕ)
    → transfer_loop t target seen i queue ≡ some k
    → (j : ℕ) × (k ≡ i + j)
      × (j < length queue)
      × (get_or queue j 0 ≡ t)
      × (target ≡ seen + occurrences t queue j)
transfer_loop-found t target seen i k [] h = ground arith
transfer_loop-found t target seen i k (q ∷ qs) h = elim (Bool-cases (q == t)) [
  | inl hit ↦ elim (Bool-cases (seen == target)) [
    | inl done ↦ (0, ground arith, ground arith, ground arith, ground arith)
    | inr more ↦
        let (j, a, b, c, d) = transfer_loop-found t target (suc seen) (suc i) k qs (ground arith) in
        (suc j, omega arith, omega arith, c, ground arith)
  ]
  | inr miss ↦
      let (j, a, b, c, d) = transfer_loop-found t target seen (suc i) k qs (ground arith) in
      (suc j, omega arith, omega arith, c, ground arith)
]

-- The name of a statement of the queue leads back to its place.
pub transfer-of_stmt_idx :
    (queue : List ℕ) (i : ℕ)
    → i < length queue
    → transfer_2_stmt_idx (of_stmt_idx queue i) queue ≡ some i
unfolding of_stmt_idx transfer_2_stmt_idx
transfer-of_stmt_idx queue i h =
    let t = get_or queue i 0 in
    ground (arith, occurrences-suc t i queue h refl, transfer_loop-occurrences t 0 0 i queue h refl)

-- A name that leads to a place of the queue is the name of that place.
pub of_stmt_idx-transfer :
    (queue : List ℕ) (s : StmtId) (i : ℕ)
    → transfer_2_stmt_idx s queue ≡ some i
    → (i < length queue) × (of_stmt_idx queue i ≡ s)
unfolding of_stmt_idx transfer_2_stmt_idx
of_stmt_idx-transfer queue s i h =
    let (j, a, b, c, d) = transfer_loop-found s.txn_id s.stmt_idx_in_txn 0 0 i queue h in
    ground (arith, occurrences-suc s.txn_id j queue b c)

-- So two statements of the queue have different names.
pub of_stmt_idx-injective :
    (queue : List ℕ) (i j : ℕ)
    → i < length queue
    → j < length queue
    → of_stmt_idx queue i ≡ of_stmt_idx queue j
    → i ≡ j
of_stmt_idx-injective queue i j hi hj e =
    cc (transfer-of_stmt_idx queue i hi, transfer-of_stmt_idx queue j hj)
