-- ===== src/Txcheck/Samples/Constructor.antt =====
-- The constructor of the analyzer on a small test case.
use dbfuzz_multidb.Common.{◌≡◌, refl, true, false, List, [], ◌∷◌, codes}
use dbfuzz_multidb.Txcheck.Usage.{StmtUsage, usage, init_type, select_read, txn_commit}
use dbfuzz_multidb.Txcheck.Result.{Result, ok, throw}
use dbfuzz_multidb.Txcheck.Analyzer.{Analyzer, RowOutput, StmtOutput, write_read}
use dbfuzz_multidb.Txcheck.Analyzer.Construct.{blank_analyzer, dependency_analyzer}
use dbfuzz_multidb.Txcheck.Analyzer.NoSelf.{NoSelf}
use dbfuzz_multidb.Txcheck.Analyzer.NoSelf.Constructor.{dependency_analyzer-NoSelf}

-- A row with version 5 and primary key 1.
abbrev pub first_row : RowOutput
first_row = codes "5" ∷ codes "1" ∷ []

-- Transaction 0 begins, reads the initial row and commits.
abbrev pub outputs : List StmtOutput
outputs = [] ∷ (first_row ∷ []) ∷ [] ∷ []

abbrev pub usages : List StmtUsage
usages = usage init_type false ∷ usage select_read false ∷ usage init_type false ∷ []

abbrev returned : Result Analyzer → Analyzer
returned (ok da) = da
returned (throw e) = blank_analyzer [] [] [] [] 0 0 0

unfoldable pub constructed : Analyzer
unfolding dependency_analyzer
constructed = returned (
    dependency_analyzer ((first_row ∷ []) ∷ []) outputs (0 ∷ 0 ∷ 0 ∷ []) usages (txn_commit ∷ []) 1
      1 0)

pub constructed_ok :
    dependency_analyzer
      ((first_row ∷ []) ∷ [])
      outputs
      (0 ∷ 0 ∷ 0 ∷ [])
      usages
      (txn_commit ∷ [])
      1
      1
      0
    ≡ ok constructed
unfolding dependency_analyzer constructed
constructed_ok = refl

constructed_reads : constructed.dependency_graph 1 0 write_read ≡ true
unfolding constructed
constructed_reads = refl

dependency_analyzer-NoSelf_example : NoSelf constructed
dependency_analyzer-NoSelf_example =
    dependency_analyzer-NoSelf ((first_row ∷ []) ∷ []) outputs (0 ∷ 0 ∷ 0 ∷ []) usages
      (txn_commit ∷ []) 1 1 0 constructed constructed_ok
