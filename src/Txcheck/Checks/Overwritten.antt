-- ===== src/Txcheck/Checks/Overwritten.antt =====
-- What `check_G1b` decides about the operations of a row.
use dbfuzz_multidb.Common.{
  ◌≡◌, ◌==◌, int_eq, not, refl, ◌↔◌, inl, inr, Bool, true, false, ◌&&◌, ◌||◌, List, [], ◌∷◌, ◌++◌,
  arith, any, Bool-cases, &&-true,
}
use mathlib.Core.List.{Memᴰ}
use mathlib.Core.List.Memᴰ
use dbfuzz_multidb.Txcheck.Usage.{has_type, after_write_read, before_write_read}
use dbfuzz_multidb.Txcheck.Analyzer.{Analyzer, Index, index_lt, OperateUnit, RowChangeHistory}
use dbfuzz_multidb.Txcheck.Checks.{
  is_other_read, is_second_write, scan_after_write, check_row_G1b, check_G1b,
}

-- Another transaction has read the version that `first` wrote.
abbrev pub reads_from : OperateUnit → OperateUnit → Bool
reads_from first op = int_eq op.write_op_id first.write_op_id && not (op.tid == first.tid)

-- The writer of `first` is about to write the row.
abbrev pub writes_again : OperateUnit → OperateUnit → Bool
writes_again first op = op.tid == first.tid && has_type op.stmt_u before_write_read

-- What `check_G1b` looks for behind a write `first` in the operations of a row: an operation of
-- another transaction on the version that `first` wrote, and an overwrite by the writer itself.
-- Both stand before the first operation that comes after the end of the writer, in any order.
pub record IsOverwritten (txn_end : Index) (first : OperateUnit) (ops : List OperateUnit)
    : Type 0 where
  pub before : List OperateUnit
  pub rest : List OperateUnit
  pub split : ops ≡ before ++ rest
  pub in_time : any (λ op. index_lt txn_end op.stmt_idx) before ≡ false
  pub read_by_other : any (reads_from first) before ≡ true
  pub written_again : any (writes_again first) before ≡ true

module _ (txn_end : Index) (first : OperateUnit) where
  -- The same with the two flags that the loop has set so far.
  record ScanFinds (other second : Bool) (ops : List OperateUnit) : Type 0 where
    before : List OperateUnit
    rest : List OperateUnit
    split : ops ≡ before ++ rest
    in_time : any (λ op. index_lt txn_end op.stmt_idx) before ≡ false
    read_by_other : (other || any (is_other_read first) before) ≡ true
    written_again : (second || any (is_second_write first) before) ≡ true

  finds-step :
      (other second : Bool) (op : OperateUnit) (ops : List OperateUnit)
      → index_lt txn_end op.stmt_idx ≡ false
      → ScanFinds (other || is_other_read first op) (second || is_second_write first op) ops
      → ScanFinds other second (op ∷ ops)
  finds-step other second op ops now f = record {
    before = op ∷ f.before;
    rest = f.rest;
    split = cc (f.split);
    in_time = rw now (f.in_time);
    read_by_other = ground (arith, f.read_by_other);
    written_again = ground (arith, f.written_again);
  }

  scan-finds :
      (other second : Bool) (ops : List OperateUnit)
      → scan_after_write txn_end first other second ops ≡ true
      → ScanFinds other second ops
  unfolding scan_after_write
  scan-finds other second [] h = ground arith
  scan-finds other second (op ∷ ops) h = elim (Bool-cases (index_lt txn_end op.stmt_idx)) [
    | inl late ↦ ground arith
    | inr now ↦
        let other' = other || is_other_read first op in
        let second' = second || is_second_write first op in
        finds-step other second op ops now (elim (Bool-cases (other' && second')) [
          | inl both ↦ record {
            before = [];
            rest = ops;
            split = refl;
            in_time = refl;
            read_by_other = ground arith;
            written_again = ground arith;
          }
          | inr wait ↦ scan-finds other' second' ops (rw (now, wait) at h)
        ])
  ]

  finds-scan :
      (other second : Bool) (before rest : List OperateUnit)
      → (other && second) ≡ false
      → any (λ op. index_lt txn_end op.stmt_idx) before ≡ false
      → (other || any (is_other_read first) before) ≡ true
      → (second || any (is_second_write first) before) ≡ true
      → scan_after_write txn_end first other second (before ++ rest) ≡ true
  unfolding scan_after_write
  finds-scan other second [] rest start late r w = ground arith
  finds-scan other second (op ∷ before) rest start late r w =
      let other' = other || is_other_read first op in
      let second' = second || is_second_write first op in
      ground (arith, finds-scan other' second' before rest)

  pub scan_iff :
      (ops : List OperateUnit)
      → (scan_after_write txn_end first false false ops ≡ true) ↔ IsOverwritten txn_end first ops
  scan_iff ops = (
    λ h.
        let f = scan-finds false false ops h in
        record {
          before = f.before;
          rest = f.rest;
          split = f.split;
          in_time = f.in_time;
          read_by_other = f.read_by_other;
          written_again = f.written_again;
        },
    λ o.
        rw (o.split)
          (finds-scan false false o.before o.rest refl o.in_time o.read_by_other o.written_again),
  )

-- G1b in the operations of one row: `first` is a write among them.
pub record IntermediateRead (da : Analyzer) (ops : List OperateUnit) : Type 0 where
  pub earlier : List OperateUnit
  pub first : OperateUnit
  pub later : List OperateUnit
  pub split : ops ≡ earlier ++ first ∷ later
  pub is_write : has_type first.stmt_u after_write_read ≡ true
  pub overwritten : IsOverwritten (da.tid_end_idx first.tid) first later

check_row-finds :
    (da : Analyzer) (ops : List OperateUnit) → check_row_G1b da ops ≡ true → IntermediateRead da ops
unfolding check_row_G1b
check_row-finds da [] h = ground arith
check_row-finds da (op ∷ ops) h =
    elim (Bool-cases (
      has_type op.stmt_u after_write_read
      && scan_after_write (da.tid_end_idx op.tid) op false false ops)) [
        | inl here ↦
            let (write, scan) = &&-true _ _ here in
            record {
              earlier = [];
              first = op;
              later = ops;
              split = refl;
              is_write = write;
              overwritten = (scan_iff (da.tid_end_idx op.tid) op ops).0 scan;
            }
        | inr there ↦
            let f = check_row-finds da ops (rw there at h) in
            record {
              earlier = op ∷ f.earlier;
              first = f.first;
              later = f.later;
              split = cc (f.split);
              is_write = f.is_write;
              overwritten = f.overwritten;
            }
      ]

finds-check_row :
    (da : Analyzer) (earlier : List OperateUnit) (first : OperateUnit) (later : List OperateUnit)
    → has_type first.stmt_u after_write_read ≡ true
    → IsOverwritten (da.tid_end_idx first.tid) first later
    → check_row_G1b da (earlier ++ first ∷ later) ≡ true
unfolding check_row_G1b
finds-check_row da [] first later w o =
    rw (w, (scan_iff (da.tid_end_idx first.tid) first later).1 o)
finds-check_row da (op ∷ earlier) first later w o =
    ground (arith, finds-check_row da earlier first later w o)

any_rows-finds :
    (da : Analyzer) (rows : List RowChangeHistory)
    → any (λ rch. check_row_G1b da rch.row_op_list) rows ≡ true
    → (rch : RowChangeHistory) × Memᴰ rch rows × IntermediateRead da rch.row_op_list
any_rows-finds da [] h = ground arith
any_rows-finds da (rch ∷ rows) h = elim (Bool-cases (check_row_G1b da rch.row_op_list)) [
  | inl here ↦ (rch, Memᴰ.head refl, check_row-finds da rch.row_op_list here)
  | inr there ↦ let (r, m, f) = any_rows-finds da rows (rw there at h) in (r, Memᴰ.tail m, f)
]

finds-any_rows :
    (da : Analyzer) (rch : RowChangeHistory) (rows : List RowChangeHistory)
    → Memᴰ rch rows
    → check_row_G1b da rch.row_op_list ≡ true
    → any (λ r. check_row_G1b da r.row_op_list) rows ≡ true
finds-any_rows da rch [] m h = absurd (Memᴰ.not-nil m)
finds-any_rows da rch (r ∷ rows) m h = elim (Memᴰ.cases_cons m) [
  | inl e ↦ rw (← e) (rw h)
  | inr m' ↦ ground (arith, finds-any_rows da rch rows m' h)
]

-- `check_G1b` is true exactly when the history of some row holds a write that another transaction,
-- committed or not, read and the writer overwrote, both before any operation from after the end of
-- the writer.
pub check_G1b_iff :
    (da : Analyzer)
    → (check_G1b da ≡ true) ↔ (
        (rch : RowChangeHistory) × Memᴰ rch da.change_history × IntermediateRead da rch.row_op_list)
unfolding check_G1b
check_G1b_iff da = (
  any_rows-finds da da.change_history,
  λ (rch, m, f).
      finds-any_rows da rch da.change_history m
        (rw (f.split) (finds-check_row da f.earlier f.first f.later f.is_write f.overwritten)),
)
