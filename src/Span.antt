-- ===== src/Span.antt =====
-- src/span.rs: positions, spans and the compiler's error value.
use pocket_rust.Prelude.{ℕ, String, ◌+++◌, decimal}

pub record Pos : Type 0 where
  pub line : ℕ
  pub col : ℕ

pub record Span : Type 0 where
  pub start : Pos
  pub end : Pos

pub record Error : Type 0 where
  pub file : String
  pub message : String
  pub span : Span

pub format_error : Error → String
format_error err =
    err.file
    +++ ":"
    +++ decimal err.span.start.line
    +++ ":"
    +++ decimal err.span.start.col
    +++ ": "
    +++ err.message
