-- ===== src/Borrowck.antt =====
-- src/borrowck: the borrow checker on control flow graphs.
pub mod Graph
pub mod Cfg
pub mod Liveness
pub mod Moves
pub mod Borrows
pub mod Regions
mod Examples
