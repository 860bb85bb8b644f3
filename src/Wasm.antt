-- ===== src/Wasm.antt =====
-- src/wasm.rs
pub mod Leb
pub mod Types
pub mod Reader
pub mod Instr
pub mod Sections
pub mod Encode
pub mod Format
mod Examples
