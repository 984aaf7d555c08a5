-- ===== src/Txcheck/Dbms.antt =====
-- What the transaction tester asks of a database: `dut_base` of src/schema/dut.hh, whose
-- implementations call the client libraries and the servers.
use dbfuzz_multidb.Common.{ℕ, List, Option, Text}
use dbfuzz_multidb.Txcheck.Analyzer.{StmtOutput}

-- How `dut->test` ends: with rows, or with an exception and its text.
pub data Response : Type 0 where
  rows : StmtOutput → Response
  failure : Text → Response

-- `State` is the server with its open connections; a connection is named by the transaction that
-- uses it. The calls that set a test up may throw, which is `none`.
pub record Dbms : Type 1 where
  pub State : Type 0
  pub test : ℕ → Text → State → Response × State
  pub reset_to_backup : State → Option State
  pub connect : ℕ → State → Option State
  pub get_content : State → Option (List (Text × StmtOutput))
  pub begin_stmt : Text
  pub commit_stmt : Text
  pub abort_stmt : Text
