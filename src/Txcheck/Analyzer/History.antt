-- ===== src/Txcheck/Analyzer/History.antt =====
-- Rows, their hashes and the history of their changes: `hash_output` and
-- `history::insert_to_history` of src/txcheck/dependency_analyzer.cc.
pub mod Rows
use dbfuzz_multidb.Common.{
  ℕ, ◌+◌, ◌-◌, ◌*◌, ◌%◌, ◌^◌, ltb, List, [], ◌∷◌, ◌++◌, if◌then◌else◌, int_eq, Text, get_elem?,
  Option, none, some, ℤ, stoi,
}
use dbfuzz_multidb.Txcheck.Result.{Result, ok, throw, demand, bad_key, ◌>>=◌}
use dbfuzz_multidb.Txcheck.Analyzer.{RowOutput, OperateUnit, RowChangeHistory}

-- `(size_t)str[i]`: a `char` is signed, so a byte from 128 on is extended by ones.
abbrev pub char_word : ℕ → ℕ
char_word b = if ltb b 128 then b else b + 2 ^ 64 - 256

abbrev hash_text : ℕ → Text → ℕ
hash_text h [] = h
hash_text h (c ∷ s) = hash_text ((h * 131 + char_word c) % 2 ^ 64) s

abbrev hash_from : ℕ → RowOutput → ℕ
hash_from h [] = h
hash_from h (str ∷ row) = hash_from (hash_text h str) row

-- All fields of a row in turn, in 64-bit arithmetic.
unfoldable pub hash_output : RowOutput → ℕ
hash_output row = hash_from 0 row

unfoldable pub insert_to_history : OperateUnit → List RowChangeHistory → List RowChangeHistory
insert_to_history op [] = record { row_id = op.row_id; row_op_list = op ∷ [] } ∷ []
insert_to_history op (rch ∷ rest) =
    if int_eq rch.row_id op.row_id
    then record rch { row_op_list = rch.row_op_list ++ op ∷ [] } ∷ rest
    else rch ∷ insert_to_history op rest

-- `stoi(row[key_idx])`
abbrev column_key : Option Text → Result ℤ
column_key none = throw bad_key
column_key (some str) = demand (stoi str) bad_key

unfoldable pub row_key : ℕ → RowOutput → Result ℤ
unfolding stoi
row_key key_idx row = column_key (get_elem? row key_idx)
