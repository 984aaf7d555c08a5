-- ===== src/Lib.antt =====
-- The transaction tester and the expression tester of dbfuzz.
--
-- dbfuzz generates random SQL and looks for logic bugs of database systems. Its transaction tester
-- (src/txcheck) puts the statements of several transactions into one queue, lets the instrumentor
-- surround the writes and the queries with reads, runs the queue, gives the outputs to the
-- dependency analyzer, and asks it for the anomalies that the isolation level excludes. After a
-- test it takes the added reads out of the queue again, and it compares the run with one that
-- executes a path of the statements one by one. This library models the instrumentor, the
-- dependency analyzer, the running of the queue and the comparison, and the random choices that
-- all of it stands on, and shows what their answers mean.
--
-- Its other tester (src/eet) takes one query, replaces the expressions in it (src/expr) by
-- equivalent ones, runs both queries and compares the answers; a difference is a bug of the
-- database. To reduce a test case it numbers the expressions and puts null in their places one by
-- one. The library models the expressions with their printing, the transformation and the way back,
-- the numbering and the replacement, the queries, and the test.
--
-- The files:
--   Common: tests, lists, counting and integers over the native numbers.
--   Txcheck/Usage: `stmt_usage` (src/txcheck/instrumentor.hh) and `txn_status` (src/core/prod.hh).
--   Txcheck/StmtId: `stmt_id` and the two ways between a place in the queue and a name.
--   Txcheck/Result: what a function that throws returns.
--   Txcheck/Analyzer: the state of `dependency_analyzer` (src/txcheck/dependency_analyzer.hh). Its
--     children follow src/txcheck/dependency_analyzer.cc: History (`insert_to_history`,
--     `hash_output`), Item (`build_WR_dependency`, `build_WW_dependency`, `build_RW_dependency`),
--     Order (`build_start_dependency`, `build_stmt_start_dependency`,
--     `build_stmt_inner_dependency`), Instrument (`build_stmt_instrument_dependency`), Linked
--     (`get_instrumented_stmt_set`), Predicate (`build_VS_dependency`, `build_OW_dependency`) and
--     Construct (the constructor); NoSelf follows one invariant through all of them.
--   Txcheck/Reduce: `reduce_graph_indegree` and `reduce_graph_outdegree`.
--   Txcheck/Checks: `check_G1a` to `check_GSIb`.
--   Txcheck/TxnSort: `check_txn_graph_cycle`.
--   Txcheck/Paths: `topological_sort_path`.
--   Txcheck/Words and Txcheck/Instrumentor: src/txcheck/instrumentor.cc, and `clean_instrument` of
--     src/txcheck/transaction_test.cc.
--   Txcheck/Dbms: what the tester asks of a database, `dut_base` of src/schema/dut.hh.
--   Txcheck/Tester: `trans_test_unit` of src/txcheck/transaction_test.cc. Its child Run has
--     `retry_block_stmt` and `trans_test`, Normal has `normal_stmt_test` and
--     `check_normal_stmt_result`, Assign has `assign_txn_id`, Schedule has `block_scheduling`, and
--     Setup has `assign_txn_status`, `change_txn_status`, `clear_execution_status` and
--     `analyze_txn_dependency`. Sound is the invariant of the queues; Kept and Attempt are about one
--     try of a statement, Told and Heard about what the database said to it, Order, Retry and Finish
--     about the loops, Correct and Calm about a whole run, Agrees about the comparison, Change about
--     the change of a status, Verdict about the analysis of a run.
--   Core/Compare: `compare_content` and `compare_output` of src/core/general_process.cc.
--   Core/Random: src/core/random.cc and the templates of src/core/random.hh.
--   Core/KnownErrors: src/core/known_errors.cc.
--   Txcheck/Samples: the theorems at concrete inputs, and tests.
--   Expr/Syntax: the classes of src/expr as one data type, and what they print. Out has `out`,
--     Transform `equivalent_transform`, Back `back_transform`, Ids `set_component_id`, Find
--     `get_component_from_id` and Replace `set_component_from_id`, each with a definition for every
--     class that has the method and one that passes a call on to the class. Meaning is what a
--     database makes of an expression, with the laws of SQL that the transformation stands on; Calm
--     and Typed are the invariants. Booleans and Marks are about the equal expressions, Transformed,
--     Operands, Frames and Classes about each class, Runs and Correct about the whole; Covers and
--     Numbered are about the numbering, Undo and Restore about the replacement.
--   Eet/Query and Eet/Back: the queries of src/eet/qcn_tester/qcn_select_tester.cc. Tester has
--     `qcn_test`, with `execute_query` of src/eet/qcn_tester/qcn_tester.cc; Meaning is what a
--     database answers, Correct is about the transformation of a query, Outcome, Sound and Verdict
--     about the test.
--   Expr/Samples and Eet/Samples: the theorems at concrete inputs, and tests.
--
-- How the state corresponds: a vector is a list, `set<dependency_type>` is its characteristic
-- function, `dependency_graph` is a function of two tids, `stmt_dependency_graph` one of two names
-- with `none` for a pair without an entry, and an `int` that is -1 for "not there" is an option. A
-- function that changes the analyzer takes it and returns the changed one. A `throw` is a value
-- with the error's kind; reading past the end of a vector is an error of its own where the code
-- could do it. Keys are integers, tids and indices are natural numbers. The hash of a row keeps its
-- 64 bits.
--
-- An expression is its class with its fields; the fields of `value_expr` are a `Base`. The pointer
-- by which an equal expression refers back to its owner is a constructor of its own, `share_this`,
-- and `out` is given what that pointer prints. `equal_expr` of a `bool_term` and `eq_expr` of a
-- `between_op`, which share the operands, are flags, from which `out` builds them. Printed text is
-- kept as its syntax tree. What the random factories return, and the dice thrown after them, come
-- from a function of the draw's number. A failed `assert` and a null pointer are errors. An
-- expression is calm when nothing in it is marked as transformed, its Boolean operands are
-- Boolean, and an equal expression left from an earlier transformation has its value, as in every
-- expression fresh from its constructor; a draw is calm when its two expressions are. The value of
-- a text on a row is found from the values of its parts, so that the same text has the same value
-- wherever it stands.
--
-- The calls that reset the database, connect to it and read its content may throw; all such errors
-- are one, `dut_failed`. The `pop_back` for a refused commit of a transaction without statements
-- is an error too, since it has no defined behaviour; `change_txn_status` is modelled for
-- transactions with statements. `get_random_num` is asked for three bytes at most, so that an
-- `int` holds the number read.
--
-- Bounds: the loops of the reductions, of the sort of the transactions and of the search for the
-- statements that belong together run on one unit of fuel more than there are nodes. Each turn
-- but the last takes a node away, so this is enough, which is part of what is proved. The loop of
-- `topological_sort_path` has the same fuel. The nested calls of `retry_block_stmt` are for
-- earlier and earlier places of the queue, so that the place bounds them; the loop that finishes
-- what is left has fuel for each statement and for its three rounds without a change.
-- `random_string` may draw without end, so that its model allows a number of draws, and
-- `block_scheduling` may run a queue without end, so that its model allows a number of rounds.
--
-- Not modelled: the messages to the standard streams; the printing of statements for the
-- transaction tester (the printer is a parameter, and so is the type of expressions there) and all
-- random generation of statements and expressions; the types of expressions but for Boolean or
-- not; `in_query` and `exists_predicate`, which rewrite a query that they share, window functions
-- and the classes without a transformation of their own other than `regexp_expr`; the loop that
-- reduces a test case and the testers of statements other than a select; lateral subqueries; the
-- option that goes on after a crash of the database; connections, processes and files (a database
-- is a parameter that answers each statement); the release of memory; `longest_stmt_path` and the
-- enumeration of all paths; the generation of statements and the rounds of the transaction tester;
-- the printing of floating-point numbers, regular expressions and the generator of random numbers,
-- which are the standard library's and parameters here; the other testers.
pub mod Common
pub mod Core
pub mod Txcheck
pub mod Expr
pub mod Eet
