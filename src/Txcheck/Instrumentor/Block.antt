-- ===== src/Txcheck/Instrumentor/Block.antt =====
-- The block of entries that one statement of the queue becomes.
use dbfuzz_multidb.Common.{
  ℕ, ◌≡◌, sym, Bool, true, false, List, [], ◌∷◌, ◌++◌, Text, get_elem?, if◌then◌else◌,
}
use dbfuzz_multidb.Txcheck.Usage.{
  usage, usage_on, init_type, select_read, update_write, insert_write, delete_write,
  before_write_read, after_write_read,
}
use dbfuzz_multidb.Txcheck.Result.{
  ok, demand, no_version_key, no_version_value, out_of_bounds, >>=-eq-ok, ok-injective,
}
use dbfuzz_multidb.Txcheck.Instrumentor.{
  Prod, Schema, Entry, Table, entry, update_stmt, delete_stmt, insert_stmt, txn_string_stmt, query,
  select_where, select_equal, version_reads, instrument_update, instrument_insert, instrument_query,
  instrument_stmt, involved_tables, erase_word, index_of, find_equal_op,
}

module _ {E : Type 0} (print : Prod E → Text) where
  -- Version reads, and then the statement with the reads of its kind.
  pub data Block (tid : ℕ) (stmt : Prod E) (es : List (Entry E)) : Type 0 where
    updated :
        (tables : List Text) (table : Text) (before after : Prod E)
        → es
          ≡ version_reads print tid tables
            ++ entry tid before (usage_on before_write_read true table)
              ∷ entry tid stmt (usage_on update_write false table)
              ∷ entry tid after (usage_on after_write_read true table)
              ∷ []
        → Block tid stmt es
    deleted :
        (tables : List Text) (table : Text) (before : Prod E)
        → es
          ≡ version_reads print tid tables
            ++ entry tid before (usage_on before_write_read true table)
              ∷ entry tid stmt (usage_on delete_write false table)
              ∷ []
        → Block tid stmt es
    inserted :
        (tables : List Text) (table : Text) (after : Prod E)
        → es
          ≡ version_reads print tid tables
            ++ entry tid stmt (usage_on insert_write false table)
              ∷ entry tid after (usage_on after_write_read true table)
              ∷ []
        → Block tid stmt es
    queried :
        (tables : List Text)
        → es ≡ version_reads print tid tables ++ entry tid stmt (usage select_read false) ∷ []
        → Block tid stmt es
    alone : es ≡ entry tid stmt (usage init_type false) ∷ [] → Block tid stmt es

  update-Block :
      (db_schema : Schema) (tid : ℕ) (table : Table) (search : E) (names : List Text)
      (value_exprs : List E) (es : List (Entry E))
      → instrument_update print db_schema tid table search names value_exprs ≡ ok es
      → Block tid (update_stmt table search names value_exprs) es
  update-Block db_schema tid table search names value_exprs es h =
      let (i, _, h1) =
        >>=-eq-ok (demand (index_of db_schema.version_key_name table.columns) no_version_key) _ h in
      let (j, _, h2) =
        >>=-eq-ok (demand (index_of db_schema.version_key_name names) no_version_value) _ h1 in
      let (value, _, h3) = >>=-eq-ok (demand (get_elem? value_exprs j) out_of_bounds) _ h2 in
      let (_, _, h4) = >>=-eq-ok (find_equal_op db_schema) _ h3 in
      let (column, _, h5) = >>=-eq-ok (demand (get_elem? table.columns i) out_of_bounds) _ h4 in
      updated (involved_tables print (update_stmt table search names value_exprs)) table.name
        (select_where table search) (select_equal table column value) (sym (ok-injective h5))

  insert-Block :
      (db_schema : Schema) (tid : ℕ) (table : Table) (rows : List (List E)) (es : List (Entry E))
      → instrument_insert print db_schema tid table rows ≡ ok es
      → Block tid (insert_stmt table rows) es
  insert-Block db_schema tid table rows es h =
      let (i, _, h1) =
        >>=-eq-ok (demand (index_of db_schema.version_key_name table.columns) no_version_key) _ h in
      let (items, _, h2) = >>=-eq-ok (demand (get_elem? rows 0) out_of_bounds) _ h1 in
      let (value, _, h3) = >>=-eq-ok (demand (get_elem? items i) out_of_bounds) _ h2 in
      let (_, _, h4) = >>=-eq-ok (find_equal_op db_schema) _ h3 in
      let (column, _, h5) = >>=-eq-ok (demand (get_elem? table.columns i) out_of_bounds) _ h4 in
      inserted (erase_word table.name (involved_tables print (insert_stmt table rows))) table.name
        (select_equal table column value) (sym (ok-injective h5))

  query-Block :
      (tid : ℕ) (stmt : Prod E) (es : List (Entry E))
      → ok (instrument_query print tid stmt) ≡ ok es
      → Block tid stmt es
  query-Block tid stmt es h = queried (involved_tables print stmt) (sym (ok-injective h))

  string-Block :
      (tid : ℕ) (stmt : Prod E) (es : List (Entry E)) (b : Bool)
      → ok (
          if b
          then instrument_query print tid stmt
          else entry tid stmt (usage init_type false) ∷ [])
        ≡ ok es
      → Block tid stmt es
  string-Block tid stmt es true h = query-Block tid stmt es h
  string-Block tid stmt es false h = alone (sym (ok-injective h))

  pub instrument_stmt-Block :
      (db_schema : Schema) (tid : ℕ) (stmt : Prod E) (es : List (Entry E))
      → instrument_stmt print db_schema tid stmt ≡ ok es
      → Block tid stmt es
  unfolding instrument_stmt
  instrument_stmt-Block db_schema tid (update_stmt table search names value_exprs) es h =
      update-Block db_schema tid table search names value_exprs es h
  instrument_stmt-Block db_schema tid (delete_stmt table search) es h =
      deleted (involved_tables print (delete_stmt table search)) table.name
        (select_where table search) (sym (ok-injective h))
  instrument_stmt-Block db_schema tid (insert_stmt table rows) es h =
      insert-Block db_schema tid table rows es h
  instrument_stmt-Block db_schema tid (txn_string_stmt text) es h =
      string-Block tid (txn_string_stmt text) es _ h
  instrument_stmt-Block db_schema tid (query text) es h = query-Block tid (query text) es h
  instrument_stmt-Block db_schema tid (select_where table search) es h =
      query-Block tid (select_where table search) es h
  instrument_stmt-Block db_schema tid (select_equal table column value) es h =
      query-Block tid (select_equal table column value) es h
