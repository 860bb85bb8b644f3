-- ===== src/Lexer/Cursor.antt =====
-- src/lexer.rs: the state of tokenize, and the runs of bytes that it skips or collects. The bytes from
-- `byte_pos` on are the list `rest`.
use pocket_rust.Prelude.{
  ℕ, zero, suc, ◌+◌, Bool, true, false, ◌&&◌, ◌==◌, Result, err, List, [], ◌∷◌, drop, as_u32,
  String,
}
use pocket_rust.Span.{Pos, Span, Error}

pub record Cursor : Type 0 where
  pub rest : List ℕ
  pub line : ℕ
  pub col : ℕ

-- `Pos::new(line, col)`
abbrev pub position : Cursor → Pos
position c = record { line = c.line; col = c.col }

abbrev pub between : Cursor → Cursor → Span
between a b = record { start = position a; end = position b }

abbrev pub fail {ℓ} : {A : Type ℓ} → String → String → Span → Result A Error
fail file message span = err (record { file = file; message = message; span = span })

-- The cursor behind `n` bytes of the line that take `width` columns.
abbrev pub skip : ℕ → ℕ → Cursor → Cursor
skip n width c = record { rest = drop n c.rest; line = c.line; col = as_u32 (c.col + width) }

abbrev pub next_line : List ℕ → ℕ → Cursor
next_line rest line = record { rest = rest; line = as_u32 (line + 1); col = 1 }

-- The bytes that pass the test, and the cursor behind them.
unfoldable pub run : (ℕ → Bool) → List ℕ → ℕ → ℕ → List ℕ × Cursor
run test [] line col = ([], record { rest = []; line = line; col = col })
run test (b ∷ bytes) line col = elim (test b) [
  | true ↦ let (taken, c) = run test bytes line (as_u32 (col + 1)) in (b ∷ taken, c)
  | false ↦ ([], record { rest = b ∷ bytes; line = line; col = col })
]

-- The loop over a block comment: the depth that is left at its end, and the cursor.
unfoldable pub comment_loop : List ℕ → ℕ → ℕ → ℕ → ℕ × Cursor
comment_loop rest line col zero = (0, record { rest = rest; line = line; col = col })
comment_loop [] line col (suc depth) = (suc depth, record { rest = []; line = line; col = col })
comment_loop (a ∷ []) line col (suc depth) = elim (a == 10) [
  | true ↦ (suc depth, next_line [] line)
  | false ↦ (suc depth, record { rest = []; line = line; col = as_u32 (col + 1) })
]
comment_loop (a ∷ b ∷ rest) line col (suc depth) = elim ((a == 47) && (b == 42)) [
  | true ↦ comment_loop rest line (as_u32 (col + 2)) (suc (suc depth))
  | false ↦ elim ((a == 42) && (b == 47)) [
    | true ↦ comment_loop rest line (as_u32 (col + 2)) depth
    | false ↦ elim (a == 10) [
      | true ↦ comment_loop (b ∷ rest) (as_u32 (line + 1)) 1 (suc depth)
      | false ↦ comment_loop (b ∷ rest) line (as_u32 (col + 1)) (suc depth)
    ]
  ]
]
