-- ===== src/Txcheck/Instrumentor.antt =====
-- The constructor of `instrumentor` (src/txcheck/instrumentor.cc): it puts reads around each
-- statement of the queue. The three final vectors grow together, so that they are one list of
-- entries. A statement is what the instrumentor uses of the syntax tree; its printed form, which
-- the grammar makes, is the parameter `print`. The scope that numbers identifiers is left out.
pub mod Block
pub mod Clean
pub mod Fits
pub mod Passes
use mathlib.Core.Option
use dbfuzz_multidb.Common.{
  ℕ, zero, suc, Bool, true, false, not, ◌&&◌, ◌||◌, List, [], ◌∷◌, ◌++◌, Option, none, some,
  if◌then◌else◌, get_elem?, any, select, map, Text, codes, text_eq,
}
use dbfuzz_multidb.Txcheck.Usage.{
  StmtUsage, usage, usage_on, init_type, select_read, update_write, insert_write, delete_write,
  before_write_read, after_write_read, version_set_read,
}
use dbfuzz_multidb.Txcheck.Result.{
  Result, ok, throw, ensure, demand, no_version_key, no_version_value, no_equal_op, out_of_bounds,
  ◌>>=◌, ◌>>◌,
}
use dbfuzz_multidb.Txcheck.Words.{starts_with, extract_words_begin_with}

-- `ident()` of a table is its name.
pub record Table : Type 0 where
  pub name : Text
  pub columns : List Text

-- `prod`, by the class that a dynamic cast finds. `E` is the type of expressions. The last three are
-- the statements that the instrumentor makes.
pub data Prod (E : Type 0) : Type 0 where
  update_stmt : (victim : Table) (search : E) (names : List Text) (value_exprs : List E) → Prod E
  delete_stmt : (victim : Table) (search : E) → Prod E
  insert_stmt : (victim : Table) (value_exprs_vector : List (List E)) → Prod E
  txn_string_stmt : (text : Text) → Prod E
  query : (text : Text) → Prod E
  -- `query_spec` with a table and the search condition of the write
  select_where : (table : Table) (search : E) → Prod E
  -- `query_spec` with a table, its version key column and the value that the column equals
  select_equal : (table : Table) (column : Text) (value : E) → Prod E

-- What the instrumentor asks of the schema.
pub record Schema : Type 0 where
  pub version_key_name : Text
  pub operators : List Text

pub record Entry (E : Type 0) : Type 0 where
  pub tid : ℕ
  pub stmt : Prod E
  pub stmt_u : StmtUsage

abbrev pub entry : {E : Type 0} → ℕ → Prod E → StmtUsage → Entry E
entry t p u = record { tid = t; stmt = p; stmt_u = u }

-- The first index of a name, as the loops with a `break` find it.
abbrev pub index_of : Text → List Text → Option ℕ
index_of w [] = none
index_of w (v ∷ vs) = if text_eq v w then some 0 else Option.map suc (index_of w vs)

-- `str.find(sub) != string::npos`
abbrev pub contains_text : Text → Text → Bool
contains_text sub [] = starts_with sub []
contains_text sub (c ∷ s) = starts_with sub (c ∷ s) || contains_text sub s

-- `set::erase`
abbrev pub erase_word : Text → List Text → List Text
erase_word w vs = select (λ v. not (text_eq v w)) vs

abbrev pub find_equal_op : Schema → Result (Unit {0})
find_equal_op db_schema =
    ensure (any (λ name. text_eq name (codes "=")) db_schema.operators) no_equal_op

abbrev pub version_read : {E : Type 0} → ℕ → Text → Entry E
version_read tid table_str =
    entry tid (txn_string_stmt (codes "SELECT * FROM " ++ table_str))
      (usage_on version_set_read true table_str)

module _ {E : Type 0} (print : Prod E → Text) where
  abbrev pub involved_tables : Prod E → List Text
  involved_tables stmt = extract_words_begin_with (print stmt) (codes "t_")

  -- A "SELECT * FROM" of each involved table.
  abbrev pub version_reads : ℕ → List Text → List (Entry E)
  version_reads tid tables = map (version_read tid) tables

  abbrev pub instrument_update :
      Schema → ℕ → Table → E → List Text → List E → Result (List (Entry E))
  instrument_update db_schema tid table search names value_exprs = do
    let stmt = update_stmt table search names value_exprs
    wkey_idx ← demand (index_of db_schema.version_key_name table.columns) no_version_key
    wkey_set_idx ← demand (index_of db_schema.version_key_name names) no_version_value
    wkey_value ← demand (get_elem? value_exprs wkey_set_idx) out_of_bounds
    find_equal_op db_schema
    wkey_column ← demand (get_elem? table.columns wkey_idx) out_of_bounds
    ok (
        version_reads tid (involved_tables stmt)
        ++ entry tid (select_where table search) (usage_on before_write_read true table.name)
          ∷ entry tid stmt (usage_on update_write false table.name)
          ∷ entry tid (select_equal table wkey_column wkey_value)
              (usage_on after_write_read true table.name)
          ∷ [])

  abbrev pub instrument_delete : ℕ → Table → E → Result (List (Entry E))
  instrument_delete tid table search = ok (
      version_reads tid (involved_tables (delete_stmt table search))
      ++ entry tid (select_where table search) (usage_on before_write_read true table.name)
        ∷ entry tid (delete_stmt table search) (usage_on delete_write false table.name)
        ∷ [])

  abbrev pub instrument_insert : Schema → ℕ → Table → List (List E) → Result (List (Entry E))
  instrument_insert db_schema tid table value_exprs_vector = do
    let stmt = insert_stmt table value_exprs_vector
    wkey_idx ← demand (index_of db_schema.version_key_name table.columns) no_version_key
    items ← demand (get_elem? value_exprs_vector 0) out_of_bounds
    wkey_value ← demand (get_elem? items wkey_idx) out_of_bounds
    find_equal_op db_schema
    wkey_column ← demand (get_elem? table.columns wkey_idx) out_of_bounds
    ok (
        version_reads tid (erase_word table.name (involved_tables stmt))
        ++ entry tid stmt (usage_on insert_write false table.name)
          ∷ entry tid (select_equal table wkey_column wkey_value)
              (usage_on after_write_read true table.name)
          ∷ [])

  -- A normal query.
  abbrev pub instrument_query : ℕ → Prod E → List (Entry E)
  instrument_query tid stmt =
      version_reads tid (involved_tables stmt) ++ entry tid stmt (usage select_read false) ∷ []

  -- Begin, commit, abort and the replaced statement stay alone; "SELECT * FROM t" is a query.
  abbrev pub instrument_string : ℕ → Text → List (Entry E)
  instrument_string tid text =
      if contains_text (codes "SELECT * FROM") (print (txn_string_stmt text))
      then instrument_query tid (txn_string_stmt text)
      else entry tid (txn_string_stmt text) (usage init_type false) ∷ []

  -- The body of the loop for one statement of the queue.
  unfoldable pub instrument_stmt : Schema → ℕ → Prod E → Result (List (Entry E))
  unfolding extract_words_begin_with
  instrument_stmt db_schema tid (update_stmt victim search names value_exprs) =
      instrument_update db_schema tid victim search names value_exprs
  instrument_stmt db_schema tid (delete_stmt victim search) = instrument_delete tid victim search
  instrument_stmt db_schema tid (insert_stmt victim value_exprs_vector) =
      instrument_insert db_schema tid victim value_exprs_vector
  instrument_stmt db_schema tid (txn_string_stmt text) = ok (instrument_string tid text)
  instrument_stmt db_schema tid stmt = ok (instrument_query tid stmt)

  -- `tid_queue[i]` beside `stmt_queue[i]`: the queue is given as pairs.
  unfoldable pub instrumentor : Schema → List (ℕ × Prod E) → Result (List (Entry E))
  unfolding instrument_stmt
  instrumentor db_schema [] = ok []
  instrumentor db_schema ((tid, stmt) ∷ queue) = do
    entries ← instrument_stmt db_schema tid stmt
    rest ← instrumentor db_schema queue
    ok (entries ++ rest)

-- `transaction_test::clean_instrument` of src/txcheck/transaction_test.cc on the three queues.
unfoldable pub clean_instrument : {E : Type 0} → List (Entry E) → List (Entry E)
clean_instrument [] = []
clean_instrument (e ∷ es) =
    if e.stmt_u.is_instrumented then clean_instrument es else e ∷ clean_instrument es
