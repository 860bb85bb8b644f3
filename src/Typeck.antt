-- ===== src/Typeck.antt =====
-- src/typeck: the type checker.
pub mod Types
pub mod Lifetimes
