-- ===== src/Txcheck/Samples.antt =====
-- Small inputs: the theorems about the transaction tester at concrete values, and tests.
mod Graphs
mod Queues
mod Sorting
mod Links
mod Constructor
mod Runs
mod Results
mod Setup
