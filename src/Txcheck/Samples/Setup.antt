-- ===== src/Txcheck/Samples/Setup.antt =====
-- The set-up and the judgement of the small run.
use dbfuzz_multidb.Common.{
  ℕ, arith, ◌≡◌, refl, ◌↔◌, Bool, true, false, List, [], ◌∷◌, none, codes, ltb, if◌then◌else◌,
  text_eq, ◌&&◌,
}
use dbfuzz_multidb.Txcheck.Usage.{StmtUsage, usage, init_type, select_read, txn_abort}
use dbfuzz_multidb.Txcheck.Instrumentor.{txn_string_stmt, Prod}
use dbfuzz_multidb.Txcheck.Samples.Constructor.{constructed, constructed_ok, first_row}
use dbfuzz_multidb.Txcheck.Result.{ok, no_fuel, throw}
use dbfuzz_multidb.Txcheck.Analyzer.{StmtOutput}
use dbfuzz_multidb.Txcheck.Dbms.{Response}
use dbfuzz_multidb.Txcheck.Tester.{Tester, Real}
use dbfuzz_multidb.Txcheck.Samples.Runs.{
  blocked_script, script_dbms, print_text, run_start, returned,
}
use dbfuzz_multidb.Txcheck.Tester.Run.{trans_test}
use dbfuzz_multidb.Txcheck.Tester.Schedule.{block_scheduling, Scheduled, block_scheduling-Scheduled}
use dbfuzz_multidb.Txcheck.Tester.Setup.{
  change_txn_status, clear_execution_status, analyze_txn_dependency,
}
use dbfuzz_multidb.Txcheck.Tester.Verdict.{Anomaly, analyze_txn_dependency-Anomaly}
use dbfuzz_multidb.Txcheck.Tester.Assign.{assign_txn_id, turn_num}
use dbfuzz_multidb.Txcheck.Tester.Assign.Tids.{count}
use dbfuzz_multidb.Txcheck.Tester.Assign.Open.{AtMostThree}
use dbfuzz_multidb.Txcheck.Tester.Assign.Fair.{assign_txn_id-AtMostThree}
use dbfuzz_multidb.Txcheck.Samples.Results.{pick_least}
use dbfuzz_multidb.Core.Random.{Source}

abbrev ready_start : Tester ℕ (List Response)
ready_start = run_start []

-- The state after the second transaction has been changed to an abort.
abbrev after_change : Bool × Tester ℕ (List Response)
unfolding change_txn_status
after_change =
    returned (false, ready_start) (change_txn_status script_dbms print_text 1 txn_abort ready_start)

assign_txn_id-AtMostThree_example :
    (queue : List ℕ) × (t : Source (Unit {0})) × (assign_txn_id pick_least
        (λ t. t)
        6
        (record { using_file = none; rng = tt })
      ≡ ok (queue, t))
    × ((tid : ℕ) → count tid queue ≡ (if ltb tid 6 then turn_num (λ t. t) tid else 0))
    × AtMostThree (λ t. t) queue
assign_txn_id-AtMostThree_example =
    assign_txn_id-AtMostThree (λ t. t) pick_least (λ min max g le. (omega arith, le)) 6
      (record { using_file = none; rng = tt }) (λ m e. cc)

-- The run of the sample of the constructor.
abbrev judged : Tester ℕ (List Response)
judged = record ready_start {
  real =
      real_place [] (usage init_type false)
      ∷ real_place (first_row ∷ []) (usage select_read false)
      ∷ real_place [] (usage init_type false)
      ∷ [];
  init_db_content = (codes "t", first_row ∷ []) ∷ [];
}
  where
    real_place : StmtOutput → StmtUsage → Real ℕ
    real_place output stmt_u = record {
      tid = 0;
      stmt = txn_string_stmt [];
      output = output;
      stmt_u = stmt_u;
    }

analyze_txn_dependency-Anomaly_example :
    (r : Bool) × (analyze_txn_dependency 1 judged ≡ ok (r, constructed))
    × ((r ≡ true) ↔ Anomaly constructed)
analyze_txn_dependency-Anomaly_example =
    analyze_txn_dependency-Anomaly 1 judged constructed constructed_ok

abbrev same_texts : List (Prod ℕ) → List (Prod ℕ) → Bool
same_texts [] [] = true
same_texts (x ∷ xs) (y ∷ ys) = text_eq (print_text x) (print_text y) && same_texts xs ys
same_texts _ _ = false

-- The first round reorders the queue, so that one round is not enough.
schedule_ends :
    block_scheduling script_dbms print_text same_texts 1 2 (run_start blocked_script)
    ≡ throw no_fuel
unfolding block_scheduling trans_test clear_execution_status
schedule_ends = refl

block_scheduling-Scheduled_example :
    Scheduled script_dbms print_text same_texts
      (run_start blocked_script).queue
      (block_scheduling script_dbms print_text same_texts 3 2 (run_start blocked_script))
block_scheduling-Scheduled_example =
    block_scheduling-Scheduled script_dbms print_text same_texts refl 3 2 (run_start blocked_script)
      refl
