-- ===== src/Txcheck/Tester/Verdict.antt =====
-- What `analyze_txn_dependency` of src/txcheck/transaction_test.cc finds.
use mathlib.Core.List.{Memᴰ}
use dbfuzz_multidb.Common.{
  ◌≡◌, refl, ap, ◌∙◌, ◌⊎◌, inl, inr, ◌↔◌, ℕ, Bool, true, Bool-cases, [], ◌∷◌, arith,
}
use dbfuzz_multidb.Txcheck.Result.{ok, ◌>>=◌}
use dbfuzz_multidb.Txcheck.Analyzer.{Analyzer, RowChangeHistory, write_write, write_read}
use dbfuzz_multidb.Txcheck.Checks.{check_G1a, check_G1b}
use dbfuzz_multidb.Txcheck.Checks.Cycles.{DsgCycle, check_G1c_decides}
use dbfuzz_multidb.Txcheck.Checks.Overwritten.{IntermediateRead, check_G1b_iff}
use dbfuzz_multidb.Txcheck.Checks.Reads.{AbortedRead, check_G1a_iff}
use dbfuzz_multidb.Txcheck.Tester.{Tester}
use dbfuzz_multidb.Txcheck.Tester.Setup.{judge, make_analyzer, analyze_txn_dependency}

-- What the three checks look for: a committed transaction that read from an aborted one, a read of a
-- write that its transaction overwrote, whatever becomes of the reader, or a cycle.
abbrev pub Anomaly : Analyzer → Type 0
Anomaly da =
    AbortedRead da
    ⊎ (((rch : RowChangeHistory) × Memᴰ rch da.change_history × IntermediateRead da rch.row_op_list)
        ⊎ DsgCycle (write_write ∷ write_read ∷ []) da)

judge-Anomaly : (da : Analyzer) → (r : Bool) × (judge da ≡ ok (r, da)) × ((r ≡ true) ↔ Anomaly da)
judge-Anomaly da =
    let (cyclic, returned, cycle) = check_G1c_decides da in
    elim (Bool-cases (check_G1a da)) [
      | inl a ↦ (true, rw a refl, (λ _. inl ((check_G1a_iff da).0 a), λ _. refl))
      | inr a ↦ elim (Bool-cases (check_G1b da)) [
        | inl b ↦ (true, rw (a, b) refl, (λ _. inr (inl ((check_G1b_iff da).0 b)), λ _. refl))
        | inr b ↦ (
          cyclic,
          rw (a, b, returned) refl,
          (
            λ h. inr (inr (cycle.0 h)),
            λ anomaly. elim anomaly [
              | inl read ↦ absurd (ground (arith, (check_G1a_iff da).1 read))
              | inr (inl read) ↦ absurd (ground (arith, (check_G1b_iff da).1 read))
              | inr (inr walk) ↦ cycle.1 walk
            ],
          ),
        )
      ]
    ]

-- Where the analyzer can be built from the run, `analyze_txn_dependency` returns it, and answers true
-- exactly when it holds a committed transaction that read from an aborted one, a read by another
-- transaction, committed or not, of a write that its transaction overwrote, or a cycle of committed
-- transactions by WRITE_WRITE and WRITE_READ dependencies.
pub analyze_txn_dependency-Anomaly :
    {E S : Type 0} (trans_num : ℕ) (s : Tester E S) (da : Analyzer)
    → make_analyzer trans_num s ≡ ok da
    → (r : Bool) × (analyze_txn_dependency trans_num s ≡ ok (r, da)) × ((r ≡ true) ↔ Anomaly da)
unfolding analyze_txn_dependency
analyze_txn_dependency-Anomaly trans_num s da built =
    let (r, judged, anomaly) = judge-Anomaly da in
    (r, ap (λ a. a >>= judge) built ∙ judged, anomaly)
