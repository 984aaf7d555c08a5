-- ===== src/Expr.antt =====
-- The expressions of src/expr, their printing, and the equivalent transformation.
pub mod Syntax
pub mod Out
pub mod Counter
pub mod Transform
pub mod Back
pub mod Meaning
pub mod Calm
pub mod Booleans
pub mod Marks
pub mod Transformed
pub mod Operands
pub mod Frames
pub mod Classes
pub mod Runs
pub mod Correct
pub mod Ids
pub mod Find
pub mod Replace
pub mod Typed
mod Undo
pub mod Restore
mod Covers
pub mod Numbered
pub mod Samples
