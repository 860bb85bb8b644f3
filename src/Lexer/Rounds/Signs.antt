-- ===== src/Lexer/Rounds/Signs.antt =====
-- Quotes and signs, and with them every round.
use pocket_rust.Prelude.{
  ◌≡◌, refl, sym, ap, ◌≤◌, ◌==◌, ◌&&◌, ◌||◌, ℕ, suc, not, Result, List, [], ◌∷◌, length, as_u32,
  String, find, arith,
}
use mathlib.Core.Path.{subst}
use pocket_rust.Span.{Pos, Error}
use pocket_rust.Lexer.Token.{TokenKind, builtin, dot_dot_eq}
use pocket_rust.Lexer.Words.{double_signs, single_signs}
use pocket_rust.Lexer.Bytes.{is_digit, is_ident_start, is_ident_continue}
use pocket_rust.Lexer.Cursor.{Cursor, position, skip, run}
use pocket_rust.Lexer.Literal.{char_value, is_scalar, close_char, finish_char, lex_char}
use pocket_rust.Lexer.Tokenize.{
  Lexed, is_char_lit, char_token, lifetime_at, lex_quote, lex_single, lex_double, lex_sign, lex_one,
}
use pocket_rust.Lexer.Moves.{
  at_, Fits, Moves, Moves-Fits, Moves-skip, Moves-line, run-Moves, choose, choose_option, OkMoves,
  moved, failed, OkMoves-then,
}
use pocket_rust.Lexer.Takes.{Takes, takes, fails, choose_if, char_value-Takes}
use pocket_rust.Lexer.Rounds.{
  Steps, Round, skipped, lexed, refused, choose_eq, Round-token, Steps-then, Steps-skip, Round-word,
  Round-int, Round-string, Round-line_comment, Round-block_comment,
}

char_token-Round :
    (c d : Cursor) (r : Result (TokenKind × Cursor) Error)
    → Steps c d
    → OkMoves d r
    → Round c (char_token c r)
char_token-Round c d r s (moved {d = e} m) = lexed (Steps-then c d e s m) refl
char_token-Round c d r s failed = refused

close_char-Moves :
    (file : String) (start : Pos) (value : ℕ) (bytes : List ℕ) (c : Cursor)
    → Fits c
    → bytes ≡ c.rest
    → OkMoves c (close_char file start value bytes c)
close_char-Moves file start value [] c f e = failed
close_char-Moves file start value (b ∷ rest) c f e =
    choose_if {A = Result (TokenKind × Cursor) Error} (λ r. OkMoves c r) (not (b == 39)) _ _ failed
      (moved (Moves-skip c 1 1 f (omega (arith, ap length e)) (omega arith)))

finish_char-Moves :
    (file : String) (start : Pos) (c : Cursor) (r : Result (ℕ × ℕ) String)
    → Fits c
    → Takes (length c.rest) r
    → OkMoves c (finish_char file start c r)
finish_char-Moves file start c r f (takes {v = value} {n = n} h) =
    let d = skip n (as_u32 n) c in
    let m = Moves-skip c n (as_u32 n) f h (omega arith) in
    choose_if {A = Result (TokenKind × Cursor) Error} (λ r. OkMoves c r) (not (is_scalar value)) _ _
      failed
      (OkMoves-then c d (close_char file start value d.rest d) m
        (close_char-Moves file start value d.rest d (Moves-Fits c d f m) refl))
finish_char-Moves file start c r f fails = failed

lex_char-Moves :
    (file : String) (start : Pos) (c : Cursor) → Fits c → OkMoves c (lex_char file start c)
unfolding lex_char
lex_char-Moves file start c f =
    finish_char-Moves file start c (char_value c.rest) f (char_value-Takes c.rest)

Round-lifetime :
    (file : String) (c inside : Cursor) (bytes : List ℕ)
    → Steps c inside
    → Fits inside
    → bytes ≡ inside.rest
    → Round c (lifetime_at file c inside bytes)
unfolding lifetime_at
Round-lifetime file c inside [] s f e = refused
Round-lifetime file c inside (b ∷ rest) s f e =
    choose_if (λ r. Round c r) (not (is_ident_start b)) _ _ refused
      (lexed
        (Steps-then c inside _ s (
          let same : at_ (b ∷ rest) inside.line inside.col ≡ inside =
            ap (λ r. at_ r inside.line inside.col) e in
          subst (λ x. Moves x (run is_ident_continue (b ∷ rest) inside.line inside.col).1) same
            (run-Moves is_ident_continue (b ∷ rest) inside.line inside.col
              (subst (λ x. Fits x) (sym same) f))))
        refl)

Round-quote : (file : String) (c : Cursor) → Fits c → 1 ≤ length c.rest → Round c (lex_quote file c)
unfolding lex_quote
Round-quote file c f h =
    let inside = skip 1 1 c in
    let s = Steps-skip c 0 1 f h (omega arith) in
    let g = Moves-Fits c inside f s.moves in
    choose (λ r. Round c r) (is_char_lit inside.rest) _ _
      (char_token-Round c inside _ s (lex_char-Moves file (position c) inside g))
      (Round-lifetime file c inside inside.rest s g refl)

Round-single :
    (file : String) (b : ℕ) (c : Cursor)
    → Fits c
    → 1 ≤ length c.rest
    → Round c (lex_single file b c)
unfolding lex_single
Round-single file b c f h =
    choose_option (λ r. Round c r) (find (λ row. row.0 == b) single_signs) _ _
      (λ v. Round-token v.1 c (skip 1 1 c) (Steps-skip c 0 1 f h (omega arith))) refused

Round-double :
    (file : String) (a b : ℕ) (c : Cursor)
    → Fits c
    → 2 ≤ length c.rest
    → Round c (lex_double file a b c)
unfolding lex_double
Round-double file a b c f h =
    choose_option (λ r. Round c r) (find (λ row. (row.0.0 == a) && (row.0.1 == b)) double_signs) _ _
      (λ v. Round-token v.1 c (skip 2 2 c) (Steps-skip c 1 2 f h (omega arith)))
      (choose_if (λ r. Round c r) ((a == 0xc2) && (b == 0xa4)) _ _
        (Round-token builtin c (skip 2 1 c) (Steps-skip c 1 1 f h (omega arith)))
        (Round-single file a c f (omega arith)))

Round-sign :
    (file : String) (a : ℕ) (bytes : List ℕ) (c : Cursor)
    → Fits c
    → length c.rest ≡ suc (length bytes)
    → Round c (lex_sign file a bytes c)
unfolding lex_sign
Round-sign file a [] c f h = Round-single file a c f (omega arith)
Round-sign file a (b ∷ []) c f h =
    choose (λ r. Round c r) ((a == 47) && (b == 47)) _ _ (Round-line_comment c f (omega arith))
      (choose (λ r. Round c r) ((a == 47) && (b == 42)) _ _
        (Round-block_comment file c f (omega arith)) (Round-double file a b c f (omega arith)))
Round-sign file a (b ∷ d ∷ rest) c f h =
    choose (λ r. Round c r) ((a == 46) && (b == 46) && (d == 61)) _ _
      (Round-token dot_dot_eq c (skip 3 3 c) (Steps-skip c 2 3 f (omega arith) (omega arith)))
      (choose (λ r. Round c r) ((a == 47) && (b == 47)) _ _ (Round-line_comment c f (omega arith))
        (choose (λ r. Round c r) ((a == 47) && (b == 42)) _ _
          (Round-block_comment file c f (omega arith)) (Round-double file a b c f (omega arith))))

pub lex_one-Round :
    (file : String) (b : ℕ) (bytes : List ℕ) (line col : ℕ)
    → Fits (at_ (b ∷ bytes) line col)
    → Round (at_ (b ∷ bytes) line col) (lex_one file b bytes (at_ (b ∷ bytes) line col))
unfolding lex_one
lex_one-Round file b bytes line col f =
    let c = at_ (b ∷ bytes) line col in
    let P : Lexed → Type 0 = λ r. Round c r in
    choose P (b == 10) _ _
      (skipped (record { moves = Moves-line c bytes f (omega arith); less = omega arith }))
      (choose P ((b == 32) || (b == 9) || (b == 13)) _ _
        (skipped (Steps-skip c 0 1 f (omega arith) (omega arith)))
        (choose_eq P (is_ident_start b) _ _ (λ e. Round-word b bytes line col e f)
          (λ _. choose P (b == 34) _ _ (Round-string file c f (omega arith)) (
            choose_eq P (is_digit b) _ _ (λ e. Round-int b bytes line col e f)
              (λ _.
                choose P (b == 39) _ _ (Round-quote file c f (omega arith))
                  (Round-sign file b bytes c f (omega arith)))))))
