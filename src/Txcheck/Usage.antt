-- ===== src/Txcheck/Usage.antt =====
-- What a statement of the queue is used for: `stmt_basic_type` and `stmt_usage` of
-- src/txcheck/instrumentor.hh, and `txn_status` of src/core/prod.hh.
use dbfuzz_multidb.Common.{ℕ, Bool, true, false, ◌&&◌, ◌==◌, [], Text, text_eq}

pub data StmtBasicType : Type 0 where
  init_type : StmtBasicType
  select_read : StmtBasicType
  update_write : StmtBasicType
  insert_write : StmtBasicType
  delete_write : StmtBasicType
  before_write_read : StmtBasicType
  after_write_read : StmtBasicType
  version_set_read : StmtBasicType

-- The number of the enumerator.
abbrev pub type_code : StmtBasicType → ℕ
type_code init_type = 0
type_code select_read = 1
type_code update_write = 2
type_code insert_write = 3
type_code delete_write = 4
type_code before_write_read = 5
type_code after_write_read = 6
type_code version_set_read = 7

abbrev pub type_eq : StmtBasicType → StmtBasicType → Bool
type_eq s t = type_code s == type_code t

pub data TxnStatus : Type 0 where
  not_defined : TxnStatus
  txn_commit : TxnStatus
  txn_abort : TxnStatus

abbrev pub is_commit : TxnStatus → Bool
is_commit txn_commit = true
is_commit _ = false

abbrev pub is_abort : TxnStatus → Bool
is_abort txn_abort = true
is_abort _ = false

pub record StmtUsage : Type 0 where
  pub stmt_type : StmtBasicType
  pub target_table : Text
  pub is_instrumented : Bool

-- The two constructors, without and with a target table.
abbrev pub usage : StmtBasicType → Bool → StmtUsage
usage t instrument = record { stmt_type = t; target_table = []; is_instrumented = instrument }

abbrev pub usage_on : StmtBasicType → Bool → Text → StmtUsage
usage_on t instrument table = record {
  stmt_type = t;
  target_table = table;
  is_instrumented = instrument;
}

-- `operator==` with a basic type, and with another usage.
abbrev pub has_type : StmtUsage → StmtBasicType → Bool
has_type u t = type_eq u.stmt_type t

abbrev pub usage_eq : StmtUsage → StmtUsage → Bool
usage_eq u v = type_eq u.stmt_type v.stmt_type && text_eq u.target_table v.target_table
