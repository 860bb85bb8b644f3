-- ===== src/Lexer/Examples.antt =====
-- The theorems about the lexer at a short source, and a run of it.
use pocket_rust.Prelude.{
  ◌≡◌, refl, Option, some, Result, ok, List, [], ◌∷◌, ◌++◌, ℕ, All, for_each, find, arith,
}
use pocket_rust.Span.{Error}
use pocket_rust.Lexer.Token.{
  TokenKind, Token, ident, kw_let, eq, lifetime, dot_dot_eq, int_lit, semi, str_lit, char_lit,
}
use pocket_rust.Lexer.Cursor.{run, comment_loop}
use pocket_rust.Lexer.Bytes.{
  is_digit, is_ident_start, is_ident_continue, decode_utf8_codepoint, decode_sequence,
  sequence_shape, continuation, check_length,
}
use pocket_rust.Lexer.Literal.{string_loop, escape, lex_char, char_value, char_escapes, char_escape}
use pocket_rust.Span.{Error}
use pocket_rust.Lexer.Tokenize.{
  word_kind, int_value, lex_word, lex_int, lex_string, lex_quote, is_char_lit, block_comment,
  lex_single, lex_double, lex_sign, lex_one, token_loop, tokenize,
}
use pocket_rust.Lexer.Spelling.{IsPlain, spell_all}
use pocket_rust.Lexer.RoundTrip.{tokenize-spell_all}
use pocket_rust.Lexer.RoundTrip
use pocket_rust.Lexer.Order.{Orderly, tokenize-Orderly}

-- `let a =/**/'¥' "\n" 17;`
abbrev source : List ℕ
source =
    108 ∷ 101 ∷ 116 ∷ 32 ∷ 97 ∷ 32 ∷ 61 ∷ 47 ∷ 42 ∷ 42 ∷ 47 ∷ 39 ∷ 0xc2 ∷ 0xa5 ∷ 39 ∷ 32 ∷ 34 ∷ 92
    ∷ 110 ∷ 34 ∷ 32 ∷ 49 ∷ 55 ∷ 59 ∷ []

abbrev kinds : Option (Result (List Token) Error) → List TokenKind
kinds (some (ok tokens)) = for_each (λ out t. out ++ (t.kind ∷ [])) [] tokens
kinds _ = []

lexed :
    kinds (tokenize "a.rs" source)
    ≡ kw_let ∷ ident (97 ∷ []) ∷ eq ∷ char_lit 0xa5 ∷ str_lit (10 ∷ []) ∷ int_lit 17 ∷ semi ∷ []
unfolding for_each tokenize token_loop lex_one lex_sign lex_double lex_single block_comment
    is_char_lit lex_quote lex_string lex_int lex_word int_value word_kind find run comment_loop
    is_digit is_ident_start is_ident_continue decode_utf8_codepoint decode_sequence sequence_shape
    continuation check_length string_loop escape lex_char char_value char_escapes char_escape
lexed = refl

tokenize-Orderly_example :
    (r : Result (List Token) Error) × (tokenize "a.rs" source ≡ some r) × Orderly r
tokenize-Orderly_example = tokenize-Orderly "a.rs" source (omega arith)

-- `let a = 'x "q\"" ..= 1070 ;`
abbrev spelled_kinds : List TokenKind
spelled_kinds =
    kw_let
    ∷ ident (97 ∷ [])
    ∷ eq
    ∷ lifetime (120 ∷ [])
    ∷ str_lit (113 ∷ 34 ∷ [])
    ∷ dot_dot_eq
    ∷ int_lit 1070
    ∷ semi
    ∷ []

spelled_kinds-IsPlain : All IsPlain spelled_kinds
unfolding find is_ident_start is_ident_continue is_digit
spelled_kinds-IsPlain =
    (tt, (((refl, tt), refl), (tt, ((refl, tt), (tt, (tt, (omega arith, (tt, tt))))))))

tokenize-spell_all_example :
    (ts : List Token) × (tokenize "a.rs" (spell_all spelled_kinds) ≡ some (ok ts))
    × (RoundTrip.kinds ts ≡ spelled_kinds)
tokenize-spell_all_example = tokenize-spell_all "a.rs" spelled_kinds spelled_kinds-IsPlain
