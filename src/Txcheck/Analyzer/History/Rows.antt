-- ===== src/Txcheck/Analyzer/History/Rows.antt =====
-- The history keeps the operations of each row apart, in the order in which they were recorded.
use dbfuzz_multidb.Common.{
  ◌≡◌, refl, Bool, true, not, ◌&&◌, ◌||◌, List, [], ◌∷◌, arith, if◌then◌else◌, ℤ, int_eq,
  int_eq_iff, any, select,
}
use dbfuzz_multidb.Txcheck.Analyzer.{OperateUnit, RowChangeHistory}
use dbfuzz_multidb.Txcheck.Analyzer.History.{insert_to_history}

-- The operations that the history holds for a row: those of its first entry of that row.
abbrev pub row_ops : ℤ → List RowChangeHistory → List OperateUnit
row_ops r [] = []
row_ops r (rch ∷ rest) = if int_eq rch.row_id r then rch.row_op_list else row_ops r rest

-- Recording a list of operations, one after the other.
abbrev pub record_all : List OperateUnit → List RowChangeHistory → List RowChangeHistory
record_all [] h = h
record_all (op ∷ ops) h = record_all ops (insert_to_history op h)

abbrev pub ops_of_row : ℤ → List OperateUnit → List OperateUnit
ops_of_row r = select (λ op. int_eq op.row_id r)

abbrev has_row : ℤ → List RowChangeHistory → Bool
has_row r = any (λ rch. int_eq rch.row_id r)

-- No row has two entries.
abbrev pub distinct_rows : List RowChangeHistory → Bool
distinct_rows [] = true
distinct_rows (rch ∷ rest) = not (has_row rch.row_id rest) && distinct_rows rest

has_row-insert :
    (r : ℤ) (op : OperateUnit) (h : List RowChangeHistory)
    → has_row r (insert_to_history op h) ≡ (has_row r h || int_eq op.row_id r)
unfolding insert_to_history
has_row-insert r op [] = ground arith
has_row-insert r op (rch ∷ rest) = ground (
  arith,
  has_row-insert r op rest,
  int_eq_iff rch.row_id op.row_id,
  int_eq_iff rch.row_id r,
  int_eq_iff op.row_id r,
)

distinct_rows-insert :
    (op : OperateUnit) (h : List RowChangeHistory)
    → distinct_rows h ≡ true
    → distinct_rows (insert_to_history op h) ≡ true
unfolding insert_to_history
distinct_rows-insert op [] d = refl
distinct_rows-insert op (rch ∷ rest) d = ground (
  arith,
  distinct_rows-insert op rest,
  has_row-insert rch.row_id op rest,
  int_eq_iff rch.row_id op.row_id,
  int_eq_iff op.row_id rch.row_id,
)

distinct_rows-record_all :
    (ops : List OperateUnit) (h : List RowChangeHistory)
    → distinct_rows h ≡ true
    → distinct_rows (record_all ops h) ≡ true
distinct_rows-record_all [] h d = d
distinct_rows-record_all (op ∷ ops) h d =
    distinct_rows-record_all ops (insert_to_history op h) (distinct_rows-insert op h d)

-- After any sequence of operations has been recorded with `insert_to_history`, no row has two
-- entries in the history.
pub insert_to_history-distinct : (ops : List OperateUnit) → distinct_rows (record_all ops []) ≡ true
insert_to_history-distinct ops = distinct_rows-record_all ops [] refl
