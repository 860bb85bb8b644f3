-- ===== src/Lexer.antt =====
-- src/lexer.rs: the lexer.
pub mod Token
pub mod Words
pub mod Bytes
pub mod Cursor
pub mod Literal
pub mod Tokenize
pub mod Moves
pub mod Takes
pub mod Rounds
pub mod Order
pub mod Spelling
pub mod RoundTrip
mod Examples
