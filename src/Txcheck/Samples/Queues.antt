-- ===== src/Txcheck/Samples/Queues.antt =====
-- The queue of statements at small inputs: names of statements, instrumentation, history, order.
use dbfuzz_multidb.Common.{
  ℕ, ◌≡◌, refl, ◌↔◌, true, false, List, [], ◌∷◌, ◌++◌, none, some, arith, map, pos, Text, codes, ℤ,
}
use dbfuzz_multidb.Txcheck.Usage.{
  txn_commit, usage, usage_on, init_type, select_read, update_write, before_write_read,
  after_write_read, version_set_read,
}
use dbfuzz_multidb.Txcheck.StmtId.{of_stmt_idx, transfer_2_stmt_idx}
use dbfuzz_multidb.Txcheck.StmtId.RoundTrip.{transfer-of_stmt_idx}
use dbfuzz_multidb.Txcheck.Result.{ok}
use dbfuzz_multidb.Txcheck.Analyzer.{Analyzer, start_depend, strict_start_depend, OperateUnit}
use dbfuzz_multidb.Txcheck.Analyzer.Instrument.{build_stmt_instrument_dependency}
use dbfuzz_multidb.Txcheck.Analyzer.Order.{build_start_dependency}
use dbfuzz_multidb.Txcheck.Analyzer.Order.Edges.{depends}
use dbfuzz_multidb.Txcheck.Analyzer.Order.Precedes.{
  Precedes, strict_start-Precedes, PrecedesRest, start-PrecedesRest,
}
use dbfuzz_multidb.Txcheck.Analyzer.Construct.{blank_analyzer}
use dbfuzz_multidb.Txcheck.Instrumentor.{
  Prod, Schema, Entry, Table, update_stmt, txn_string_stmt, query, instrumentor, clean_instrument,
}
use dbfuzz_multidb.Txcheck.Instrumentor.Clean.{pair_of, clean-instrumentor}
use dbfuzz_multidb.Txcheck.Instrumentor.Passes.{instrument_dependency-instrumentor}

abbrev queue : List ℕ
queue = 0 ∷ 0 ∷ 1 ∷ 0 ∷ 1 ∷ 2 ∷ 2 ∷ []

transfer-of_stmt_idx_example : transfer_2_stmt_idx (of_stmt_idx queue 3) queue ≡ some 3
transfer-of_stmt_idx_example = transfer-of_stmt_idx queue 3 (omega arith)

third_of_0 : of_stmt_idx queue 3 ≡ record { txn_id = 0; stmt_idx_in_txn = 2 }
unfolding of_stmt_idx
third_of_0 = refl

second_of_1 : transfer_2_stmt_idx (record { txn_id = 1; stmt_idx_in_txn = 1 }) queue ≡ some 4
unfolding transfer_2_stmt_idx
second_of_1 = refl

-- Statements whose expressions are texts, and a printer that writes the tables.
abbrev print_text : Prod Text → Text
print_text (update_stmt victim search names values) = codes "update " ++ victim.name ++ search
print_text (txn_string_stmt text) = text
print_text (query text) = text
print_text stmt = []

abbrev account : Table
account = record { name = codes "t_1"; columns = codes "wkey" ∷ codes "pkey" ∷ [] }

abbrev schema : Schema
schema = record { version_key_name = codes "wkey"; operators = codes "+" ∷ codes "=" ∷ [] }

abbrev stmts : List (ℕ × Prod Text)
stmts =
    (0, txn_string_stmt (codes "begin"))
    ∷ (1, query (codes "select 1 from t_1 "))
    ∷ (0, update_stmt account (codes " where 1=1") (codes "wkey" ∷ []) (codes "8" ∷ []))
    ∷ []

abbrev read_t_1 : Prod Text
read_t_1 = txn_string_stmt (codes "SELECT * FROM t_1")

abbrev entries : List (Entry Text)
entries =
    record { tid = 0; stmt = txn_string_stmt (codes "begin"); stmt_u = usage init_type false }
    ∷ record { tid = 1; stmt = read_t_1; stmt_u = usage_on version_set_read true (codes "t_1") }
    ∷ record {
      tid = 1;
      stmt = query (codes "select 1 from t_1 ");
      stmt_u = usage select_read false;
    }
    ∷ record { tid = 0; stmt = read_t_1; stmt_u = usage_on version_set_read true (codes "t_1") }
    ∷ record {
      tid = 0;
      stmt = Prod.select_where account (codes " where 1=1");
      stmt_u = usage_on before_write_read true (codes "t_1");
    }
    ∷ record {
      tid = 0;
      stmt = update_stmt account (codes " where 1=1") (codes "wkey" ∷ []) (codes "8" ∷ []);
      stmt_u = usage_on update_write false (codes "t_1");
    }
    ∷ record {
      tid = 0;
      stmt = Prod.select_equal account (codes "wkey") (codes "8");
      stmt_u = usage_on after_write_read true (codes "t_1");
    }
    ∷ []

instrumented : instrumentor print_text schema stmts ≡ ok entries
unfolding instrumentor
instrumented = refl

clean-instrumentor_example : map pair_of (clean_instrument entries) ≡ stmts
clean-instrumentor_example = clean-instrumentor print_text schema stmts entries instrumented

abbrev instrumented_analyzer : Analyzer
instrumented_analyzer =
    blank_analyzer ([] ∷ [] ∷ [] ∷ [] ∷ [] ∷ [] ∷ [] ∷ []) (map (λ e. e.tid) entries)
      (map (λ e. e.stmt_u) entries) (txn_commit ∷ txn_commit ∷ []) 2 1 0

instrument_dependency-instrumentor_example :
    (t : Analyzer) × (build_stmt_instrument_dependency instrumented_analyzer ≡ ok t)
instrument_dependency-instrumentor_example =
    instrument_dependency-instrumentor print_text schema stmts entries instrumented_analyzer
      instrumented refl refl refl

abbrev op_on : ℤ → ℕ → OperateUnit
op_on row hash = record {
  stmt_u = usage select_read false;
  write_op_id = pos 0;
  tid = 0;
  stmt_idx = none;
  row_id = row;
  hash = hash;
}

abbrev ops : List OperateUnit
ops = op_on (pos 1) 5 ∷ op_on (pos 2) 6 ∷ op_on (pos 1) 7 ∷ []

-- Transaction 0 ends before transaction 2 begins.
abbrev ordered : Analyzer
ordered = blank_analyzer ([] ∷ [] ∷ [] ∷ [] ∷ [] ∷ [] ∷ [] ∷ []) queue [] [] 3 1 0

strict_start-Precedes_example :
    ((build_start_dependency ordered).dependency_graph 0 2 strict_start_depend ≡ true)
    ↔ Precedes queue 0 2
strict_start-Precedes_example =
    strict_start-Precedes ordered 0 2 0 1 5 (omega arith) (omega arith) (omega arith) refl
      (omega arith) refl refl refl

start-PrecedesRest_example :
    ((build_start_dependency ordered).dependency_graph 0 2 start_depend ≡ true)
    ↔ PrecedesRest queue 0 2
start-PrecedesRest_example =
    start-PrecedesRest ordered 0 2 0 1 5 6 (omega arith) (omega arith) (omega arith) refl
      (omega arith) refl refl (omega arith) refl refl

strict_built :
    (depends 0 2 strict_start_depend (build_start_dependency ordered) ≡ true)
    × (depends 0 1 strict_start_depend (build_start_dependency ordered) ≡ false)
unfolding build_start_dependency
strict_built = (refl, refl)
