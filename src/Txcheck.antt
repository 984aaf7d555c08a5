-- ===== src/Txcheck.antt =====
-- The transaction tester (src/txcheck).
pub mod Reduce
pub mod Usage
pub mod StmtId
pub mod Result
pub mod Analyzer
pub mod Checks
pub mod Words
pub mod Instrumentor
pub mod TxnSort
pub mod Paths
pub mod Dbms
pub mod Tester
pub mod Samples
