-- ===== src/Core.antt =====
-- The part of the program under src/core that the testers stand on.
pub mod Compare
pub mod Random
pub mod KnownErrors
