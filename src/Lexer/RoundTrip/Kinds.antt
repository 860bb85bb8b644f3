-- ===== src/Lexer/RoundTrip/Kinds.antt =====
-- Every token is read back from its text, words and signs by a run of the lexer.
use pocket_rust.Prelude.{refl, ℕ, List, [], ◌∷◌, String, find}
use pocket_rust.Lexer.Token.{
  TokenKind, kw_fn, kw_mod, kw_struct, kw_let, kw_mut, kw_move, kw_const, kw_as, kw_unsafe, kw_impl,
  kw_trait, kw_dyn, kw_for, kw_in, kw_self_lower, kw_self_upper, kw_if, kw_else, kw_true, kw_false,
  kw_use, kw_pub, kw_enum, kw_match, kw_ref, kw_while, kw_break, kw_continue, kw_type, kw_where,
  kw_return, question, builtin, langle, rangle, lparen, rparen, lbrace, rbrace, lbracket, rbracket,
  arrow, semi, colon, dot, path_sep, comma, amp, star, plus, minus, slash, percent, bang, eq_eq,
  not_eq, lt_eq, gt_eq, eq, plus_eq, minus_eq, star_eq, slash_eq, percent_eq, and_and, or_or,
  underscore, pipe, at, hash, dot_dot, dot_dot_eq, fat_arrow, ident, lifetime, int_lit, char_lit,
  str_lit,
}
use pocket_rust.Lexer.Bytes.{is_digit, is_ident_start, is_ident_continue}
use pocket_rust.Lexer.Cursor.{run}
use pocket_rust.Lexer.Tokenize.{word_kind, lex_word, lex_single, lex_double, lex_sign, lex_one}
use pocket_rust.Lexer.Spelling.{spell, IsPlain}
use pocket_rust.Lexer.RoundTrip.Parts.{Lexes}
use pocket_rust.Lexer.RoundTrip.Names.{ident-Lexes, lifetime-Lexes}
use pocket_rust.Lexer.RoundTrip.Ints.{int_lit-Lexes}
use pocket_rust.Lexer.RoundTrip.Strings.{str_lit-Lexes}

pub plain-Lexes :
    (file : String) (k : TokenKind) (rest : List ℕ) → IsPlain k → Lexes file k (spell k) rest
unfolding spell lex_one lex_word run is_ident_start is_ident_continue is_digit word_kind find
    lex_sign lex_double lex_single
plain-Lexes file kw_fn rest h = (102, 110 ∷ [], refl, λ line col. (_, _, refl, refl, refl))
plain-Lexes file kw_mod rest h = (109, 111 ∷ 100 ∷ [], refl, λ line col. (_, _, refl, refl, refl))
plain-Lexes file kw_struct rest h =
    (115, 116 ∷ 114 ∷ 117 ∷ 99 ∷ 116 ∷ [], refl, λ line col. (_, _, refl, refl, refl))
plain-Lexes file kw_let rest h = (108, 101 ∷ 116 ∷ [], refl, λ line col. (_, _, refl, refl, refl))
plain-Lexes file kw_mut rest h = (109, 117 ∷ 116 ∷ [], refl, λ line col. (_, _, refl, refl, refl))
plain-Lexes file kw_move rest h =
    (109, 111 ∷ 118 ∷ 101 ∷ [], refl, λ line col. (_, _, refl, refl, refl))
plain-Lexes file kw_const rest h =
    (99, 111 ∷ 110 ∷ 115 ∷ 116 ∷ [], refl, λ line col. (_, _, refl, refl, refl))
plain-Lexes file kw_as rest h = (97, 115 ∷ [], refl, λ line col. (_, _, refl, refl, refl))
plain-Lexes file kw_unsafe rest h =
    (117, 110 ∷ 115 ∷ 97 ∷ 102 ∷ 101 ∷ [], refl, λ line col. (_, _, refl, refl, refl))
plain-Lexes file kw_impl rest h =
    (105, 109 ∷ 112 ∷ 108 ∷ [], refl, λ line col. (_, _, refl, refl, refl))
plain-Lexes file kw_trait rest h =
    (116, 114 ∷ 97 ∷ 105 ∷ 116 ∷ [], refl, λ line col. (_, _, refl, refl, refl))
plain-Lexes file kw_dyn rest h = (100, 121 ∷ 110 ∷ [], refl, λ line col. (_, _, refl, refl, refl))
plain-Lexes file kw_for rest h = (102, 111 ∷ 114 ∷ [], refl, λ line col. (_, _, refl, refl, refl))
plain-Lexes file kw_in rest h = (105, 110 ∷ [], refl, λ line col. (_, _, refl, refl, refl))
plain-Lexes file kw_self_lower rest h =
    (115, 101 ∷ 108 ∷ 102 ∷ [], refl, λ line col. (_, _, refl, refl, refl))
plain-Lexes file kw_self_upper rest h =
    (83, 101 ∷ 108 ∷ 102 ∷ [], refl, λ line col. (_, _, refl, refl, refl))
plain-Lexes file kw_if rest h = (105, 102 ∷ [], refl, λ line col. (_, _, refl, refl, refl))
plain-Lexes file kw_else rest h =
    (101, 108 ∷ 115 ∷ 101 ∷ [], refl, λ line col. (_, _, refl, refl, refl))
plain-Lexes file kw_true rest h =
    (116, 114 ∷ 117 ∷ 101 ∷ [], refl, λ line col. (_, _, refl, refl, refl))
plain-Lexes file kw_false rest h =
    (102, 97 ∷ 108 ∷ 115 ∷ 101 ∷ [], refl, λ line col. (_, _, refl, refl, refl))
plain-Lexes file kw_use rest h = (117, 115 ∷ 101 ∷ [], refl, λ line col. (_, _, refl, refl, refl))
plain-Lexes file kw_pub rest h = (112, 117 ∷ 98 ∷ [], refl, λ line col. (_, _, refl, refl, refl))
plain-Lexes file kw_enum rest h =
    (101, 110 ∷ 117 ∷ 109 ∷ [], refl, λ line col. (_, _, refl, refl, refl))
plain-Lexes file kw_match rest h =
    (109, 97 ∷ 116 ∷ 99 ∷ 104 ∷ [], refl, λ line col. (_, _, refl, refl, refl))
plain-Lexes file kw_ref rest h = (114, 101 ∷ 102 ∷ [], refl, λ line col. (_, _, refl, refl, refl))
plain-Lexes file kw_while rest h =
    (119, 104 ∷ 105 ∷ 108 ∷ 101 ∷ [], refl, λ line col. (_, _, refl, refl, refl))
plain-Lexes file kw_break rest h =
    (98, 114 ∷ 101 ∷ 97 ∷ 107 ∷ [], refl, λ line col. (_, _, refl, refl, refl))
plain-Lexes file kw_continue rest h =
    (99, 111 ∷ 110 ∷ 116 ∷ 105 ∷ 110 ∷ 117 ∷ 101 ∷ [], refl, λ line col. (_, _, refl, refl, refl))
plain-Lexes file kw_type rest h =
    (116, 121 ∷ 112 ∷ 101 ∷ [], refl, λ line col. (_, _, refl, refl, refl))
plain-Lexes file kw_where rest h =
    (119, 104 ∷ 101 ∷ 114 ∷ 101 ∷ [], refl, λ line col. (_, _, refl, refl, refl))
plain-Lexes file kw_return rest h =
    (114, 101 ∷ 116 ∷ 117 ∷ 114 ∷ 110 ∷ [], refl, λ line col. (_, _, refl, refl, refl))
plain-Lexes file question [] h = (63, [], refl, λ line col. (_, _, refl, refl, refl))
plain-Lexes file question (r ∷ rs) h = (63, [], refl, λ line col. (_, _, refl, refl, refl))
plain-Lexes file builtin rest h = (0xc2, 0xa4 ∷ [], refl, λ line col. (_, _, refl, refl, refl))
plain-Lexes file langle [] h = (60, [], refl, λ line col. (_, _, refl, refl, refl))
plain-Lexes file langle (r ∷ rs) h = (60, [], refl, λ line col. (_, _, refl, refl, refl))
plain-Lexes file rangle [] h = (62, [], refl, λ line col. (_, _, refl, refl, refl))
plain-Lexes file rangle (r ∷ rs) h = (62, [], refl, λ line col. (_, _, refl, refl, refl))
plain-Lexes file lparen [] h = (40, [], refl, λ line col. (_, _, refl, refl, refl))
plain-Lexes file lparen (r ∷ rs) h = (40, [], refl, λ line col. (_, _, refl, refl, refl))
plain-Lexes file rparen [] h = (41, [], refl, λ line col. (_, _, refl, refl, refl))
plain-Lexes file rparen (r ∷ rs) h = (41, [], refl, λ line col. (_, _, refl, refl, refl))
plain-Lexes file lbrace [] h = (123, [], refl, λ line col. (_, _, refl, refl, refl))
plain-Lexes file lbrace (r ∷ rs) h = (123, [], refl, λ line col. (_, _, refl, refl, refl))
plain-Lexes file rbrace [] h = (125, [], refl, λ line col. (_, _, refl, refl, refl))
plain-Lexes file rbrace (r ∷ rs) h = (125, [], refl, λ line col. (_, _, refl, refl, refl))
plain-Lexes file lbracket [] h = (91, [], refl, λ line col. (_, _, refl, refl, refl))
plain-Lexes file lbracket (r ∷ rs) h = (91, [], refl, λ line col. (_, _, refl, refl, refl))
plain-Lexes file rbracket [] h = (93, [], refl, λ line col. (_, _, refl, refl, refl))
plain-Lexes file rbracket (r ∷ rs) h = (93, [], refl, λ line col. (_, _, refl, refl, refl))
plain-Lexes file arrow rest h = (45, 62 ∷ [], refl, λ line col. (_, _, refl, refl, refl))
plain-Lexes file semi [] h = (59, [], refl, λ line col. (_, _, refl, refl, refl))
plain-Lexes file semi (r ∷ rs) h = (59, [], refl, λ line col. (_, _, refl, refl, refl))
plain-Lexes file colon [] h = (58, [], refl, λ line col. (_, _, refl, refl, refl))
plain-Lexes file colon (r ∷ rs) h = (58, [], refl, λ line col. (_, _, refl, refl, refl))
plain-Lexes file dot [] h = (46, [], refl, λ line col. (_, _, refl, refl, refl))
plain-Lexes file dot (r ∷ rs) h = (46, [], refl, λ line col. (_, _, refl, refl, refl))
plain-Lexes file path_sep rest h = (58, 58 ∷ [], refl, λ line col. (_, _, refl, refl, refl))
plain-Lexes file comma [] h = (44, [], refl, λ line col. (_, _, refl, refl, refl))
plain-Lexes file comma (r ∷ rs) h = (44, [], refl, λ line col. (_, _, refl, refl, refl))
plain-Lexes file amp [] h = (38, [], refl, λ line col. (_, _, refl, refl, refl))
plain-Lexes file amp (r ∷ rs) h = (38, [], refl, λ line col. (_, _, refl, refl, refl))
plain-Lexes file star [] h = (42, [], refl, λ line col. (_, _, refl, refl, refl))
plain-Lexes file star (r ∷ rs) h = (42, [], refl, λ line col. (_, _, refl, refl, refl))
plain-Lexes file plus [] h = (43, [], refl, λ line col. (_, _, refl, refl, refl))
plain-Lexes file plus (r ∷ rs) h = (43, [], refl, λ line col. (_, _, refl, refl, refl))
plain-Lexes file minus [] h = (45, [], refl, λ line col. (_, _, refl, refl, refl))
plain-Lexes file minus (r ∷ rs) h = (45, [], refl, λ line col. (_, _, refl, refl, refl))
plain-Lexes file slash [] h = (47, [], refl, λ line col. (_, _, refl, refl, refl))
plain-Lexes file slash (r ∷ rs) h = (47, [], refl, λ line col. (_, _, refl, refl, refl))
plain-Lexes file percent [] h = (37, [], refl, λ line col. (_, _, refl, refl, refl))
plain-Lexes file percent (r ∷ rs) h = (37, [], refl, λ line col. (_, _, refl, refl, refl))
plain-Lexes file bang [] h = (33, [], refl, λ line col. (_, _, refl, refl, refl))
plain-Lexes file bang (r ∷ rs) h = (33, [], refl, λ line col. (_, _, refl, refl, refl))
plain-Lexes file eq_eq rest h = (61, 61 ∷ [], refl, λ line col. (_, _, refl, refl, refl))
plain-Lexes file not_eq rest h = (33, 61 ∷ [], refl, λ line col. (_, _, refl, refl, refl))
plain-Lexes file lt_eq rest h = (60, 61 ∷ [], refl, λ line col. (_, _, refl, refl, refl))
plain-Lexes file gt_eq rest h = (62, 61 ∷ [], refl, λ line col. (_, _, refl, refl, refl))
plain-Lexes file eq [] h = (61, [], refl, λ line col. (_, _, refl, refl, refl))
plain-Lexes file eq (r ∷ rs) h = (61, [], refl, λ line col. (_, _, refl, refl, refl))
plain-Lexes file plus_eq rest h = (43, 61 ∷ [], refl, λ line col. (_, _, refl, refl, refl))
plain-Lexes file minus_eq rest h = (45, 61 ∷ [], refl, λ line col. (_, _, refl, refl, refl))
plain-Lexes file star_eq rest h = (42, 61 ∷ [], refl, λ line col. (_, _, refl, refl, refl))
plain-Lexes file slash_eq rest h = (47, 61 ∷ [], refl, λ line col. (_, _, refl, refl, refl))
plain-Lexes file percent_eq rest h = (37, 61 ∷ [], refl, λ line col. (_, _, refl, refl, refl))
plain-Lexes file and_and rest h = (38, 38 ∷ [], refl, λ line col. (_, _, refl, refl, refl))
plain-Lexes file or_or rest h = (124, 124 ∷ [], refl, λ line col. (_, _, refl, refl, refl))
plain-Lexes file underscore rest h = (95, [], refl, λ line col. (_, _, refl, refl, refl))
plain-Lexes file pipe [] h = (124, [], refl, λ line col. (_, _, refl, refl, refl))
plain-Lexes file pipe (r ∷ rs) h = (124, [], refl, λ line col. (_, _, refl, refl, refl))
plain-Lexes file at [] h = (64, [], refl, λ line col. (_, _, refl, refl, refl))
plain-Lexes file at (r ∷ rs) h = (64, [], refl, λ line col. (_, _, refl, refl, refl))
plain-Lexes file hash [] h = (35, [], refl, λ line col. (_, _, refl, refl, refl))
plain-Lexes file hash (r ∷ rs) h = (35, [], refl, λ line col. (_, _, refl, refl, refl))
plain-Lexes file dot_dot rest h = (46, 46 ∷ [], refl, λ line col. (_, _, refl, refl, refl))
plain-Lexes file dot_dot_eq rest h = (46, 46 ∷ 61 ∷ [], refl, λ line col. (_, _, refl, refl, refl))
plain-Lexes file fat_arrow rest h = (61, 62 ∷ [], refl, λ line col. (_, _, refl, refl, refl))
plain-Lexes file (ident text) rest h = ident-Lexes file text rest h
plain-Lexes file (lifetime name) rest h = lifetime-Lexes file name rest h
plain-Lexes file (int_lit value) rest h = int_lit-Lexes file value rest h
plain-Lexes file (str_lit payload) rest h = str_lit-Lexes file payload rest
plain-Lexes file (char_lit value) rest h = absurd h
