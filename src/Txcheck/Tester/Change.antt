-- ===== src/Txcheck/Tester/Change.antt =====
-- `change_txn_status` of src/txcheck/transaction_test.cc keeps the queue and the transactions in
-- agreement, and can be undone.
use dbfuzz_multidb.Common.{ℕ, ◌≡◌, true, ◌==◌, ◌⊎◌, Each, List, [], ◌∷◌, Text, if◌then◌else◌}
use dbfuzz_multidb.Txcheck.Usage.{TxnStatus, not_defined, txn_commit, txn_abort}
use dbfuzz_multidb.Txcheck.Instrumentor.{Prod, txn_string_stmt, Entry}
use dbfuzz_multidb.Txcheck.Dbms.{Dbms}
use dbfuzz_multidb.Txcheck.Tester.{Tester}
use dbfuzz_multidb.Txcheck.Tester.Setup.{is_end}

module _ (dbms : Dbms) {E : Type 0} (print : Prod E → Text) where
  -- The statement that a transaction of a status ends with.
  abbrev pub EndsWith : TxnStatus → Prod E → Type 0
  EndsWith txn_commit stmt = stmt ≡ txn_string_stmt dbms.commit_stmt
  EndsWith txn_abort stmt = stmt ≡ txn_string_stmt dbms.abort_stmt
  EndsWith not_defined stmt = Unit

  -- A commit or an abort in the queue is the one of its transaction's status.
  abbrev pub EntryAgrees : (ℕ → TxnStatus) → Entry E → Type 0
  EntryAgrees status e = is_end dbms print e.stmt ≡ true → EndsWith (status e.tid) e.stmt

  -- An entry stays, but that a commit or an abort of the transaction may be another statement.
  abbrev pub OnlyEnd : ℕ → Entry E → Entry E → Type 0
  OnlyEnd target f e =
      (f.tid ≡ e.tid)
      × (f.stmt_u ≡ e.stmt_u)
      × ((f.stmt ≡ e.stmt) ⊎ ((e.tid ≡ target) × (is_end dbms print e.stmt ≡ true)))

  abbrev pub QueueAgrees : (ℕ → TxnStatus) → List (Entry E) → Type 0
  QueueAgrees status [] = Unit
  QueueAgrees status (e ∷ es) = EntryAgrees status e × QueueAgrees status es

  abbrev pub EndsAgree : Tester E dbms.State → Type 0
  EndsAgree s = QueueAgrees (λ tid. (s.trans_arr tid).status) s.queue

  abbrev pub status_after : ℕ → TxnStatus → (ℕ → TxnStatus) → ℕ → TxnStatus
  status_after target final status tid = if tid == target then final else status tid

  -- The transaction has the final status, the ends of the queue agree with the statuses, and nothing
  -- else of the queue has changed.
  abbrev pub Changed : ℕ → TxnStatus → Tester E dbms.State → Tester E dbms.State → Type 0
  Changed target final s t =
      ((t.trans_arr target).status ≡ final) × EndsAgree t × Each (OnlyEnd target) t.queue s.queue
