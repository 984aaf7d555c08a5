-- ===== src/Txcheck/Analyzer/Predicate.antt =====
-- The predicate dependencies: `build_VS_dependency` and `build_OW_dependency` of
-- src/txcheck/dependency_analyzer.cc. A `set` of keys is a list, since the code asks only whether
-- two sets meet. An index past the end of a vector is the error `out_of_bounds`.
use dbfuzz_multidb.Common.{
  ℕ, zero, suc, ◌+◌, ◌-◌, Bool, true, false, not, ◌&&◌, ◌||◌, ◌==◌, List, [], ◌∷◌, if◌then◌else◌,
  get_elem?, range, any, find_from, ℤ, int_eq, text_eq,
}
use dbfuzz_multidb.Txcheck.Usage.{
  StmtUsage, has_type, update_write, insert_write, delete_write, before_write_read,
  after_write_read, version_set_read,
}
use dbfuzz_multidb.Txcheck.Result.{
  Result, ok, throw, ensure, demand, fold_result, instrument_err, out_of_bounds, ◌>>=◌, ◌>>◌,
}
use dbfuzz_multidb.Txcheck.Analyzer.{
  Analyzer, StmtOutput, DependencyType, version_set_depend, overwrite_depend,
  build_stmt_depend_from_stmt_idx, insert_txn_dependency,
}
use dbfuzz_multidb.Txcheck.Analyzer.History.{row_key}
use dbfuzz_multidb.Txcheck.Analyzer.Instrument.{is_normal, usage_of, tid_of}

-- A primary key with a version key.
abbrev pub PvPair : Type 0
PvPair = ℤ × ℤ

unfoldable pub primary_set : Analyzer → StmtOutput → Result (List ℤ)
primary_set da [] = ok []
primary_set da (row ∷ rows) = do
  row_id ← row_key da.primary_key_index row
  rest ← primary_set da rows
  ok (row_id ∷ rest)

unfoldable pub pv_pair_set : Analyzer → StmtOutput → Result (List PvPair)
pv_pair_set da [] = ok []
pv_pair_set da (row ∷ rows) = do
  row_id ← row_key da.primary_key_index row
  version_id ← row_key da.version_key_index row
  rest ← pv_pair_set da rows
  ok ((row_id, version_id) ∷ rest)

abbrev pv_eq : PvPair → PvPair → Bool
pv_eq (a, v) (b, w) = int_eq a b && int_eq v w

-- `!res.empty()` after `set_intersection`.
abbrev pub pairs_meet : List PvPair → List PvPair → Bool
pairs_meet ps qs = any (λ p. any (pv_eq p) qs) ps

abbrev pub keys_meet : List ℤ → List ℤ → Bool
keys_meet ks ls = any (λ k. any (int_eq k) ls) ks

abbrev pub output_at : Analyzer → ℕ → Result StmtOutput
output_at da i = demand (get_elem? da.f_stmt_output i) out_of_bounds

abbrev usage_at : Analyzer → ℕ → Result StmtUsage
usage_at da i = demand (get_elem? da.f_stmt_usage i) out_of_bounds

-- `j - 1` where the code indexes a vector with it.
abbrev pub previous : ℕ → Result ℕ
previous zero = throw out_of_bounds
previous (suc j) = ok j

abbrev is_empty {ℓ} : {A : Type ℓ} → List A → Bool
is_empty [] = true
is_empty (x ∷ xs) = false

-- The read next to the write, which has to be of the given type.
abbrev pub after_read : Analyzer → ℕ → Result StmtUsage
after_read da idx = do
  u ← usage_at da idx
  ensure (has_type u after_write_read) instrument_err
  ok u

abbrev pub before_read : Analyzer → ℕ → Result StmtUsage
before_read da idx = do
  u ← usage_at da idx
  ensure (has_type u before_write_read) instrument_err
  ok u

abbrev pub both_named : StmtUsage → StmtUsage → Bool
both_named u v = not (is_empty u.target_table) && not (is_empty v.target_table)

-- The two edges, the one between transactions only where these differ.
unfoldable pub depend_predicate :
    (txn_from txn_to stmt_from stmt_to : ℕ) → DependencyType → Analyzer → Analyzer
unfolding build_stmt_depend_from_stmt_idx insert_txn_dependency
depend_predicate txn_from txn_to stmt_from stmt_to dt da =
    build_stmt_depend_from_stmt_idx stmt_from stmt_to dt
      (if txn_from == txn_to then da else insert_txn_dependency txn_from txn_to dt da)

-- An update or insert whose new version the version read `i` has seen.
abbrev pub vs_changed : Analyzer → ℕ → List PvPair → ℕ → Analyzer → Result Analyzer
vs_changed da i i_pairs j s = do
  u ← after_read da (j + 1)
  rows ← output_at da (j + 1)
  after_pairs ← pv_pair_set da rows
  ok (
      if pairs_meet i_pairs after_pairs
      then depend_predicate (tid_of da j) (tid_of da i) (j + 1) i version_set_depend s
      else s)

abbrev pub vs_deleted_rows : Analyzer → ℕ → List ℤ → ℕ → StmtOutput → Analyzer → Result Analyzer
vs_deleted_rows da i i_keys j [] s = ok s
vs_deleted_rows da i i_keys j (row ∷ rows) s = do
  before_keys ← primary_set da (row ∷ rows)
  ok (
      if keys_meet i_keys before_keys
      then s
      else depend_predicate (tid_of da j) (tid_of da i) j i version_set_depend s)

-- A delete from the same table whose rows the version read `i` has not seen.
abbrev pub vs_deleted : Analyzer → ℕ → List ℤ → ℕ → Analyzer → Result Analyzer
vs_deleted da i i_keys j s = do
  before_idx ← previous j
  u ← before_read da before_idx
  ensure (both_named u (usage_of da i)) instrument_err
  rows ← output_at da before_idx
  (if text_eq u.target_table (usage_of da i).target_table
      then vs_deleted_rows da i i_keys j rows s
      else ok s)

unfoldable pub vs_stmt : Analyzer → ℕ → List PvPair → List ℤ → ℕ → Analyzer → Result Analyzer
unfolding depend_predicate primary_set pv_pair_set row_key
vs_stmt da i i_pairs i_keys j s =
    if has_type (usage_of da j) update_write || has_type (usage_of da j) insert_write
    then vs_changed da i i_pairs j s
    else if has_type (usage_of da j) delete_write
    then vs_deleted da i i_keys j s
    else ok s

abbrev pub vs_read : Analyzer → ℕ → Analyzer → Result Analyzer
vs_read da i s = do
  rows ← output_at da i
  i_pairs ← pv_pair_set da rows
  i_keys ← primary_set da rows
  fold_result (vs_stmt da i i_pairs i_keys) (range 0 da.stmt_num) s

unfoldable pub build_vs_dependency : Analyzer → Result Analyzer
unfolding vs_stmt
build_vs_dependency da =
    fold_result (λ i s. if has_type (usage_of da i) version_set_read then vs_read da i s else ok s)
      (range 0 da.stmt_num) da

-- The statement that the version read at `i` belongs to; of an update or insert its
-- AFTER_WRITE_READ.
abbrev with_after_read : Analyzer → ℕ → Result ℕ
with_after_read da k =
    if has_type (usage_of da k) update_write || has_type (usage_of da k) insert_write
    then (after_read da (k + 1) >>= λ _. ok (k + 1))
    else ok k

unfoldable pub original_index : Analyzer → ℕ → Result ℕ
original_index da i =
    demand (find_from (λ j. is_normal (usage_of da j)) (i + 1) (da.stmt_num - (i + 1)))
      instrument_err
    >>= with_after_read da

-- An update or delete of a row version that the version read `i` has seen.
abbrev pub ow_changed : Analyzer → ℕ → ℕ → List PvPair → ℕ → Analyzer → Result Analyzer
ow_changed da i original i_pairs j s = do
  before_idx ← previous j
  u ← before_read da before_idx
  rows ← output_at da before_idx
  before_pairs ← pv_pair_set da rows
  ok (
      if pairs_meet i_pairs before_pairs
      then depend_predicate (tid_of da i) (tid_of da j) original before_idx overwrite_depend s
      else s)

abbrev pub ow_inserted_rows :
    Analyzer → ℕ → ℕ → List ℤ → ℕ → StmtOutput → Analyzer → Result Analyzer
ow_inserted_rows da i original i_keys j [] s = ok s
ow_inserted_rows da i original i_keys j (row ∷ rows) s = do
  after_keys ← primary_set da (row ∷ rows)
  ok (
      if keys_meet i_keys after_keys
      then s
      else depend_predicate (tid_of da i) (tid_of da j) original j overwrite_depend s)

-- An insert into the same table whose rows the version read `i` has not seen.
abbrev pub ow_inserted : Analyzer → ℕ → ℕ → List ℤ → ℕ → Analyzer → Result Analyzer
ow_inserted da i original i_keys j s = do
  u ← after_read da (j + 1)
  ensure (both_named u (usage_of da i)) instrument_err
  rows ← output_at da (j + 1)
  (if text_eq u.target_table (usage_of da i).target_table
      then ow_inserted_rows da i original i_keys j rows s
      else ok s)

unfoldable pub ow_stmt : Analyzer → ℕ → ℕ → List PvPair → List ℤ → ℕ → Analyzer → Result Analyzer
unfolding depend_predicate primary_set pv_pair_set row_key
ow_stmt da i original i_pairs i_keys j s =
    if has_type (usage_of da j) update_write || has_type (usage_of da j) delete_write
    then ow_changed da i original i_pairs j s
    else if has_type (usage_of da j) insert_write
    then ow_inserted da i original i_keys j s
    else ok s

abbrev pub ow_read : Analyzer → ℕ → Analyzer → Result Analyzer
ow_read da i s = do
  rows ← output_at da i
  i_pairs ← pv_pair_set da rows
  i_keys ← primary_set da rows
  original ← original_index da i
  fold_result (ow_stmt da i original i_pairs i_keys) (range 0 da.stmt_num) s

unfoldable pub build_ow_dependency : Analyzer → Result Analyzer
unfolding ow_stmt original_index
build_ow_dependency da =
    fold_result (λ i s. if has_type (usage_of da i) version_set_read then ow_read da i s else ok s)
      (range 0 da.stmt_num) da
