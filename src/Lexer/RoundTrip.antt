-- ===== src/Lexer/RoundTrip.antt =====
-- The tokens are read back from a text that spells them.
use pocket_rust.Prelude.{
  ◌≡◌, ◌↔◌, ◌⊎◌, inl, inr, refl, sym, ap, ◌∙◌, ◌+◌, ◌-◌, ◌*◌, ◌/◌, ◌%◌, ◌^◌, ◌≤◌, ◌<◌, ◌==◌, ◌&&◌,
  ◌||◌, ℕ, zero, suc, Bool, true, false, not, leb, Option, none, some, Result, ok, err, All, List,
  [], ◌∷◌, ◌++◌, append-nil, append_assoc, length, length-append, drop, push, for_each, as_u32,
  String, find, Bool-cases, if◌then◌else◌, arith,
}
use mathlib.Core.Logic.{⊎_elim}
use mathlib.Core.Path.{subst}
use pocket_rust.Span.{Pos, Error}
use pocket_rust.Lexer.Token.{
  TokenKind, Token, kw_fn, kw_mod, kw_struct, kw_let, kw_mut, kw_move, kw_const, kw_as, kw_unsafe,
  kw_impl, kw_trait, kw_dyn, kw_for, kw_in, kw_self_lower, kw_self_upper, kw_if, kw_else, kw_true,
  kw_false, kw_use, kw_pub, kw_enum, kw_match, kw_ref, kw_while, kw_break, kw_continue, kw_type,
  kw_where, kw_return, question, builtin, langle, rangle, lparen, rparen, lbrace, rbrace, lbracket,
  rbracket, arrow, semi, colon, dot, path_sep, comma, amp, star, plus, minus, slash, percent, bang,
  eq_eq, not_eq, lt_eq, gt_eq, eq, plus_eq, minus_eq, star_eq, slash_eq, percent_eq, and_and, or_or,
  underscore, pipe, at, hash, dot_dot, dot_dot_eq, fat_arrow, ident, lifetime, int_lit, char_lit,
  str_lit,
}
use pocket_rust.Lexer.Words.{keywords}
use pocket_rust.Lexer.Bytes.{is_digit, is_ident_start, is_ident_continue}
use pocket_rust.Lexer.Cursor.{Cursor, position, skip, run}
use pocket_rust.Lexer.Literal.{string_loop, escape}
use pocket_rust.Lexer.Tokenize.{
  Lexed, token, word_kind, int_value, lex_word, lex_int, string_token, lex_string, is_char_lit,
  lifetime_at, lex_quote, lex_single, lex_double, lex_sign, lex_one, bytes_eq, add_token,
  token_loop, tokenize,
}
use pocket_rust.Lexer.Moves.{at_}
use pocket_rust.Lexer.Spelling.{decimal_digits, spell_payload, spell, IsName, IsPlain, spell_all}
use pocket_rust.Lexer.RoundTrip.Parts.{Lexes}
use pocket_rust.Lexer.RoundTrip.Kinds.{plain-Lexes}
pub mod Parts
pub mod Names
pub mod Ints
pub mod Strings
pub mod Kinds

abbrev pub kinds : List Token → List TokenKind
kinds [] = []
kinds (t ∷ ts) = t.kind ∷ kinds ts

-- Two rounds, over a token and the blank behind it.
two_rounds :
    (fuel : ℕ) (file : String) (b : ℕ) (bs rest : List ℕ) (line col : ℕ) (tokens : List Token)
    (t : Token) (c : Cursor)
    → lex_one file b (bs ++ (32 ∷ rest)) (at_ (b ∷ (bs ++ (32 ∷ rest))) line col) ≡ ok (some t, c)
    → c.rest ≡ 32 ∷ rest
    → token_loop (suc (suc fuel)) file (b ∷ (bs ++ (32 ∷ rest))) line col tokens
      ≡ token_loop fuel file rest c.line (as_u32 (c.col + 1)) (push tokens t)
unfolding token_loop lex_one
two_rounds fuel file b bs rest line col tokens t c e left =
    rw (e, token_loop) (ap (λ xs. token_loop (suc fuel) file xs c.line c.col (push tokens t)) left)

-- The loop over the spelled tokens adds tokens of their kinds.
spelled :
    (fuel : ℕ) (file : String) (ks : List TokenKind) (line col : ℕ) (tokens : List Token)
    → All IsPlain ks
    → length (spell_all ks) ≤ fuel
    → (ts : List Token) × (token_loop fuel file (spell_all ks) line col tokens
        ≡ some (ok (tokens ++ ts)))
      × (kinds ts ≡ ks)
unfolding spell_all token_loop
spelled fuel file [] line col tokens h n =
    ([], ap (λ xs. some (ok xs)) (sym (append-nil tokens)), refl)
spelled fuel file (k ∷ ks) line col tokens (plain, others) n =
    let (b, bs, first, lexes) = plain-Lexes file k (spell_all ks) plain in
    let (t, c, round, kind, left) = lexes line col in
    let size : length (spell_all (k ∷ ks)) ≡ suc (length bs + suc (length (spell_all ks))) =
      ap (λ xs. length (xs ++ (32 ∷ spell_all ks))) first
      ∙ ap suc (length-append bs (32 ∷ spell_all ks)) in
    let fuel_lem : suc (suc (fuel - 2)) ≡ fuel = omega (arith, size, n) in
    let (ts, read, others_kinds) =
      spelled (fuel - 2) file ks c.line (as_u32 (c.col + 1)) (push tokens t) others
        (omega (arith, size, n)) in
    (
      t ∷ ts,
      ap (λ f. token_loop f file (spell_all (k ∷ ks)) line col tokens) (sym fuel_lem)
          ∙ ap
              (λ xs.
                token_loop (suc (suc (fuel - 2))) file (xs ++ (32 ∷ spell_all ks)) line col tokens)
              first
          ∙ two_rounds (fuel - 2) file b bs (spell_all ks) line col tokens t c round left
          ∙ read
          ∙ ap (λ xs. some (ok xs)) (append_assoc tokens (t ∷ []) ts),
      ap (λ x. x ∷ kinds ts) kind ∙ ap (λ xs. k ∷ xs) others_kinds,
    )

-- For every list of token kinds, each a word, a sign, a name that is no word of the language, a lifetime,
-- an integer below 2 ^ 64 or a string of bytes, and none a char literal, tokenize reads the text that
-- spells them with a blank behind each, and returns tokens of exactly those kinds in that order.
pub tokenize-spell_all :
    (file : String) (ks : List TokenKind)
    → All IsPlain ks
    → (ts : List Token) × (tokenize file (spell_all ks) ≡ some (ok ts)) × (kinds ts ≡ ks)
unfolding tokenize
tokenize-spell_all file ks h = spelled (length (spell_all ks)) file ks 1 1 [] h (omega arith)
