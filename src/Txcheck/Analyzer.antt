-- ===== src/Txcheck/Analyzer.antt =====
-- The state of `dependency_analyzer` (src/txcheck/dependency_analyzer.hh) and the two ways in which
-- it grows: an edge between statements and an edge between transactions. A two-dimensional array
-- and a map are functions; a map gives `none` for a key that it lacks.
pub mod History
pub mod Item
pub mod Order
pub mod Instrument
pub mod Linked
pub mod Predicate
pub mod Construct
pub mod NoSelf
use dbfuzz_multidb.Common.{
  ℕ, Bool, true, false, not, ◌&&◌, ◌==◌, ltb, List, [], ◌∷◌, Option, none, some, if◌then◌else◌, ℤ,
  Text,
}
use dbfuzz_multidb.Txcheck.Usage.{StmtUsage, TxnStatus}
use dbfuzz_multidb.Txcheck.StmtId.{StmtId, id_eq, of_stmt_idx}

pub data DependencyType : Type 0 where
  write_read : DependencyType
  write_write : DependencyType
  read_write : DependencyType
  start_depend : DependencyType
  strict_start_depend : DependencyType
  instrument_depend : DependencyType
  version_set_depend : DependencyType
  overwrite_depend : DependencyType
  inner_depend : DependencyType

abbrev pub dependency_code : DependencyType → ℕ
dependency_code write_read = 0
dependency_code write_write = 1
dependency_code read_write = 2
dependency_code start_depend = 3
dependency_code strict_start_depend = 4
dependency_code instrument_depend = 5
dependency_code version_set_depend = 6
dependency_code overwrite_depend = 7
dependency_code inner_depend = 8

abbrev pub dependency_eq : DependencyType → DependencyType → Bool
dependency_eq d e = dependency_code d == dependency_code e

-- `set<dependency_type>`, by membership.
abbrev pub DepSet : Type 0
DepSet = DependencyType → Bool

abbrev pub no_deps : DepSet
no_deps d = false

abbrev pub insert_dep : DependencyType → DepSet → DepSet
insert_dep d s e = if dependency_eq d e then true else s e

abbrev pub RowOutput : Type 0
RowOutput = List Text

abbrev pub StmtOutput : Type 0
StmtOutput = List RowOutput

-- An `int` index for which the code uses -1 where there is none.
abbrev pub Index : Type 0
Index = Option ℕ

-- `a < b` on such indices.
abbrev pub index_lt : Index → Index → Bool
index_lt none none = false
index_lt none (some b) = true
index_lt (some a) none = false
index_lt (some a) (some b) = ltb a b

pub record OperateUnit : Type 0 where
  pub stmt_u : StmtUsage
  pub write_op_id : ℤ
  pub tid : ℕ
  pub stmt_idx : Index
  pub row_id : ℤ
  pub hash : ℕ

pub record RowChangeHistory : Type 0 where
  pub row_id : ℤ
  pub row_op_list : List OperateUnit

abbrev pub TxnGraph : Type 0
TxnGraph = ℕ → ℕ → DepSet

abbrev pub StmtGraph : Type 0
StmtGraph = StmtId → StmtId → Option DepSet

-- `stmt_num` is the size of `f_stmt_output`; the arrays of indices are functions of the tid.
pub record Analyzer : Type 0 where
  pub change_history : List RowChangeHistory
  pub tid_num : ℕ
  pub stmt_num : ℕ
  pub tid_begin_idx : ℕ → Index
  pub tid_strict_begin_idx : ℕ → Index
  pub tid_end_idx : ℕ → Index
  pub primary_key_index : ℕ
  pub version_key_index : ℕ
  pub f_txn_status : List TxnStatus
  pub f_txn_id_queue : List ℕ
  pub f_txn_size : List ℕ
  pub f_stmt_usage : List StmtUsage
  pub f_stmt_output : List StmtOutput
  pub hash_to_output : ℕ → Option RowOutput
  pub dependency_graph : TxnGraph
  pub stmt_dependency_graph : StmtGraph

-- `stmt_dependency_graph[pair].insert(dt)`, which makes the set where the key is new.
abbrev pub add_stmt_edge : StmtId → StmtId → DependencyType → StmtGraph → StmtGraph
add_stmt_edge a b dt g x y =
    if id_eq x a && id_eq y b
    then (elim (g a b) [ none ↦ some (insert_dep dt no_deps) | some s ↦ some (insert_dep dt s) ])
    else g x y

-- `dependency_graph[i][j].insert(dt)`
abbrev pub add_txn_edge : ℕ → ℕ → DependencyType → TxnGraph → TxnGraph
add_txn_edge i j dt g a b = if a == i && b == j then insert_dep dt (g i j) else g a b

unfoldable pub build_stmt_depend_from_stmt_idx : ℕ → ℕ → DependencyType → Analyzer → Analyzer
unfolding of_stmt_idx
build_stmt_depend_from_stmt_idx stmt_idx1 stmt_idx2 dt da = record da {
  stmt_dependency_graph =
      add_stmt_edge (of_stmt_idx da.f_txn_id_queue stmt_idx1)
        (of_stmt_idx da.f_txn_id_queue stmt_idx2) dt da.stmt_dependency_graph;
}

unfoldable pub insert_txn_dependency : ℕ → ℕ → DependencyType → Analyzer → Analyzer
insert_txn_dependency i j dt da = record da {
  dependency_graph = add_txn_edge i j dt da.dependency_graph;
}
