-- ===== src/Txcheck/Checks/Reads.antt =====
-- What the checks that look at pairs of transactions and at the operations of a row decide.
use dbfuzz_multidb.Common.{
  ℕ, ◌<◌, ◌≡◌, ◌↔◌, ◌⊎◌, true, false, arith, exists_from-true, exists_from-intro, &&-true,
}
use dbfuzz_multidb.Txcheck.Usage.{is_commit, is_abort}
use dbfuzz_multidb.Txcheck.Analyzer.{Analyzer, write_read, write_write, start_depend}
use dbfuzz_multidb.Txcheck.Checks.{status_of, check_G1a, check_gsia}

-- G1a: a committed transaction has read from an aborted one.
pub record AbortedRead (da : Analyzer) : Type 0 where
  pub writer : ℕ
  pub reader : ℕ
  pub below : (writer < da.tid_num) × (reader < da.tid_num)
  pub aborted : is_abort (status_of da writer) ≡ true
  pub committed : is_commit (status_of da reader) ≡ true
  pub reads : da.dependency_graph writer reader write_read ≡ true

-- `check_G1a` is true exactly when a committed transaction has a WRITE_READ dependency on an
-- aborted one.
pub check_G1a_iff : (da : Analyzer) → (check_G1a da ≡ true) ↔ AbortedRead da
unfolding check_G1a
check_G1a_iff da = (
  λ h.
      let (j, _, below_j, test_j) = exists_from-true _ 0 da.tid_num h in
      let (aborted, inner) = &&-true _ _ test_j in
      let (i, _, below_i, test_i) = exists_from-true _ 0 da.tid_num inner in
      let (committed, reads) = &&-true _ _ test_i in
      record {
        writer = j;
        reader = i;
        below = (omega arith, omega arith);
        aborted = aborted;
        committed = committed;
        reads = reads;
      },
  λ a. exists_from-intro _ 0 da.tid_num a.writer (omega arith) (omega (arith, a.below.0)) (
      rw (a.aborted) (
        exists_from-intro _ 0 da.tid_num a.reader (omega arith) (omega (arith, a.below.1))
          (rw (a.committed, a.reads)))),
)

-- G-SIa: a read or write dependency without a start dependency.
pub record Interference (da : Analyzer) : Type 0 where
  pub from : ℕ
  pub to : ℕ
  pub below : (from < da.tid_num) × (to < da.tid_num)
  pub depends :
      (da.dependency_graph from to write_write ≡ true)
      ⊎ (da.dependency_graph from to write_read ≡ true)
  pub not_started : da.dependency_graph from to start_depend ≡ false

-- `check_GSIa` is true exactly when some pair of transactions has a WRITE_WRITE or WRITE_READ
-- dependency and no START_DEPEND dependency.
pub check_gsia_iff : (da : Analyzer) → (check_gsia da ≡ true) ↔ Interference da
unfolding check_gsia
check_gsia_iff da = (
  λ h.
      let (i, _, below_i, inner) = exists_from-true _ 0 da.tid_num h in
      let (j, _, below_j, test) = exists_from-true _ 0 da.tid_num inner in
      record {
        from = i;
        to = j;
        below = (omega arith, omega arith);
        depends = ground arith;
        not_started = ground arith;
      },
  λ a. exists_from-intro _ 0 da.tid_num a.from (omega arith) (omega (arith, a.below.0)) (
      exists_from-intro _ 0 da.tid_num a.to (omega arith) (omega (arith, a.below.1))
        (ground (arith, a.depends, a.not_started))),
)
