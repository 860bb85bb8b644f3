-- ===== src/Lexer/Rounds.antt =====
-- A round of tokenize takes a byte at least, and its token spans what it takes.
pub mod Signs
use pocket_rust.Prelude.{
  ◌≡◌, refl, sym, ap, ◌+◌, ◌≤◌, ◌<◌, ◌==◌, ◌&&◌, ◌||◌, ℕ, zero, suc, Bool, true, false, not, none,
  some, Result, ok, err, List, [], ◌∷◌, length, as_u32, String, find, arith,
}
use mathlib.Core.Path.{subst}
use pocket_rust.Span.{Pos, Error}
use pocket_rust.Lexer.Token.{TokenKind, Token, builtin, dot_dot_eq}
use pocket_rust.Lexer.Words.{double_signs, single_signs}
use pocket_rust.Lexer.Bytes.{is_digit, is_ident_start, is_ident_continue}
use pocket_rust.Lexer.Cursor.{Cursor, position, between, skip, run, comment_loop}
use pocket_rust.Lexer.Literal.{char_value, is_scalar, close_char, finish_char, lex_char}
use pocket_rust.Lexer.Tokenize.{
  Lexed, token, lex_word, lex_int, string_token, lex_string, line_comment, comment_end,
  block_comment, is_char_lit, char_token, lifetime_at, lex_quote, lex_single, lex_double, lex_sign,
  lex_one,
}
use pocket_rust.Lexer.Moves.{
  at_, Fits, Moves, Moves-Fits, Moves-then, length-drop, Moves-along, Moves-skip, Moves-line,
  run-Moves, choose, choose_option, comment_loop-Moves, OkMoves, moved, failed, OkMoves-then,
  string_loop-Moves,
}
use pocket_rust.Lexer.Takes.{Takes, takes, fails, choose_if, char_value-Takes}

-- The cursor is moved on by a byte at least.
pub record Steps (c d : Cursor) : Type 0 where
  pub moves : Moves c d
  pub less : length d.rest < length c.rest

-- The round fails, or its cursor moves on and its token spans what lies between the cursors.
pub data Round (c : Cursor) : Lexed → Type 0 where
  skipped : {d : Cursor} → Steps c d → Round c (ok (none, d))
  lexed : {d : Cursor} {t : Token} → Steps c d → t.span ≡ between c d → Round c (ok (some t, d))
  refused : {e : Error} → Round c (err e)

pub choose_eq {ℓ κ} :
    {A : Type ℓ} (P : A → Type κ) (t : Bool) (x y : A)
    → (t ≡ true → P x)
    → (t ≡ false → P y)
    → P (elim t [ true ↦ x | false ↦ y ])
choose_eq P true x y p q = p refl
choose_eq P false x y p q = q refl

pub Round-token : (kind : TokenKind) (c d : Cursor) → Steps c d → Round c (token kind c d)
Round-token kind c d s = lexed s refl

-- Behind one or more bytes of the line, a move on keeps the step.
pub Steps-then : (c d e : Cursor) → Steps c d → Moves d e → Steps c e
Steps-then c d e s m = record {
  moves = Moves-then c d e s.moves m;
  less = omega (arith, s.less, m.shorter);
}

pub Steps-skip :
    (c : Cursor) (n width : ℕ)
    → Fits c
    → suc n ≤ length c.rest
    → width ≤ suc n
    → Steps c (skip (suc n) width c)
Steps-skip c n width f h w = record {
  moves = Moves-skip c (suc n) width f h w;
  less = omega (arith, length-drop (suc n) c.rest);
}

run-Steps :
    (test : ℕ → Bool) (b : ℕ) (bytes : List ℕ) (line col : ℕ)
    → test b ≡ true
    → Fits (at_ (b ∷ bytes) line col)
    → Steps (at_ (b ∷ bytes) line col) (run test (b ∷ bytes) line col).1
unfolding run
run-Steps test b bytes line col e f =
    let c = at_ (b ∷ bytes) line col in
    let next = at_ bytes line (as_u32 (col + 1)) in
    let first : Steps c next = record {
      moves = Moves-along c bytes 1 1 f (omega arith) (omega arith);
      less = omega arith;
    } in
    let rest = run-Moves test bytes line (as_u32 (col + 1)) (Moves-Fits c next f first.moves) in
    rw (e, run) (Steps-then c next (run test bytes line (as_u32 (col + 1))).1 first rest)

pub Round-word :
    (b : ℕ) (bytes : List ℕ) (line col : ℕ)
    → is_ident_start b ≡ true
    → Fits (at_ (b ∷ bytes) line col)
    → Round (at_ (b ∷ bytes) line col) (lex_word (at_ (b ∷ bytes) line col))
unfolding lex_word is_ident_continue
Round-word b bytes line col e f =
    lexed (run-Steps is_ident_continue b bytes line col (rw e refl) f) refl

pub Round-int :
    (b : ℕ) (bytes : List ℕ) (line col : ℕ)
    → is_digit b ≡ true
    → Fits (at_ (b ∷ bytes) line col)
    → Round (at_ (b ∷ bytes) line col) (lex_int (at_ (b ∷ bytes) line col))
unfolding lex_int
Round-int b bytes line col e f = lexed (run-Steps is_digit b bytes line col e f) refl

string_token-Round :
    (c d : Cursor) (r : Result (List ℕ × Cursor) Error)
    → Steps c d
    → OkMoves d r
    → Round c (string_token c r)
string_token-Round c d r s (moved {d = e} m) = lexed (Steps-then c d e s m) refl
string_token-Round c d r s failed = refused

pub Round-string :
    (file : String) (c : Cursor) → Fits c → 1 ≤ length c.rest → Round c (lex_string file c)
unfolding lex_string
Round-string file c f h =
    let inside = skip 1 1 c in
    let s = Steps-skip c 0 1 f h (omega arith) in
    string_token-Round c inside _ s (
      string_loop-Moves file (position c) inside.rest inside.line inside.col []
        (Moves-Fits c inside f s.moves))

pub Round-line_comment : (c : Cursor) → Fits c → 2 ≤ length c.rest → Round c (line_comment c)
unfolding line_comment
Round-line_comment c f h =
    let inside = skip 2 2 c in
    let s = Steps-skip c 1 2 f h (omega arith) in
    skipped (
      Steps-then c inside _ s (
        run-Moves (λ b. not (b == 10)) inside.rest inside.line inside.col
          (Moves-Fits c inside f s.moves)))

comment_end-Round :
    (file : String) (c : Cursor) (depth : ℕ) (d : Cursor)
    → Steps c d
    → Round c (comment_end file (depth, d))
comment_end-Round file c zero d s = skipped s
comment_end-Round file c (suc depth) d s = refused

pub Round-block_comment :
    (file : String) (c : Cursor) → Fits c → 2 ≤ length c.rest → Round c (block_comment file c)
unfolding block_comment
Round-block_comment file c f h =
    let inside = skip 2 2 c in
    let s = Steps-skip c 1 2 f h (omega arith) in
    let (depth, d) = comment_loop inside.rest inside.line inside.col 1 in
    comment_end-Round file c depth d (
      Steps-then c inside d s
        (comment_loop-Moves inside.rest inside.line inside.col 1 (Moves-Fits c inside f s.moves)))
