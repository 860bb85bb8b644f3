-- ===== src/Lexer/Words.antt =====
-- src/lexer.rs: the words and the signs, a row for each branch of tokenize in its order.
use pocket_rust.Prelude.{ℕ, List, [], ◌∷◌}
use pocket_rust.Lexer.Token.{
  TokenKind, kw_fn, kw_mod, kw_struct, kw_let, kw_mut, kw_move, kw_const, kw_as, kw_unsafe, kw_impl,
  kw_trait, kw_dyn, kw_type, kw_where, kw_return, kw_for, kw_in, kw_self_lower, kw_self_upper,
  kw_if, kw_else, kw_true, kw_false, kw_use, kw_pub, kw_enum, kw_match, kw_ref, kw_while, kw_break,
  kw_continue, underscore, dot_dot, and_and, star_eq, plus_eq, slash_eq, percent_eq, eq_eq,
  fat_arrow, not_eq, lt_eq, gt_eq, arrow, minus_eq, path_sep, or_or, lparen, rparen, lbrace, rbrace,
  lbracket, rbracket, semi, comma, dot, amp, star, plus, slash, percent, eq, bang, question, langle,
  rangle, minus, colon, pipe, at, hash,
}

abbrev pub keywords : List (List ℕ × TokenKind)
keywords =
    (102 ∷ 110 ∷ [], kw_fn)
    ∷ (109 ∷ 111 ∷ 100 ∷ [], kw_mod)
    ∷ (115 ∷ 116 ∷ 114 ∷ 117 ∷ 99 ∷ 116 ∷ [], kw_struct)
    ∷ (108 ∷ 101 ∷ 116 ∷ [], kw_let)
    ∷ (109 ∷ 117 ∷ 116 ∷ [], kw_mut)
    ∷ (109 ∷ 111 ∷ 118 ∷ 101 ∷ [], kw_move)
    ∷ (99 ∷ 111 ∷ 110 ∷ 115 ∷ 116 ∷ [], kw_const)
    ∷ (97 ∷ 115 ∷ [], kw_as)
    ∷ (117 ∷ 110 ∷ 115 ∷ 97 ∷ 102 ∷ 101 ∷ [], kw_unsafe)
    ∷ (105 ∷ 109 ∷ 112 ∷ 108 ∷ [], kw_impl)
    ∷ (116 ∷ 114 ∷ 97 ∷ 105 ∷ 116 ∷ [], kw_trait)
    ∷ (100 ∷ 121 ∷ 110 ∷ [], kw_dyn)
    ∷ (116 ∷ 121 ∷ 112 ∷ 101 ∷ [], kw_type)
    ∷ (119 ∷ 104 ∷ 101 ∷ 114 ∷ 101 ∷ [], kw_where)
    ∷ (114 ∷ 101 ∷ 116 ∷ 117 ∷ 114 ∷ 110 ∷ [], kw_return)
    ∷ (102 ∷ 111 ∷ 114 ∷ [], kw_for)
    ∷ (105 ∷ 110 ∷ [], kw_in)
    ∷ (115 ∷ 101 ∷ 108 ∷ 102 ∷ [], kw_self_lower)
    ∷ (83 ∷ 101 ∷ 108 ∷ 102 ∷ [], kw_self_upper)
    ∷ (105 ∷ 102 ∷ [], kw_if)
    ∷ (101 ∷ 108 ∷ 115 ∷ 101 ∷ [], kw_else)
    ∷ (116 ∷ 114 ∷ 117 ∷ 101 ∷ [], kw_true)
    ∷ (102 ∷ 97 ∷ 108 ∷ 115 ∷ 101 ∷ [], kw_false)
    ∷ (117 ∷ 115 ∷ 101 ∷ [], kw_use)
    ∷ (112 ∷ 117 ∷ 98 ∷ [], kw_pub)
    ∷ (101 ∷ 110 ∷ 117 ∷ 109 ∷ [], kw_enum)
    ∷ (109 ∷ 97 ∷ 116 ∷ 99 ∷ 104 ∷ [], kw_match)
    ∷ (114 ∷ 101 ∷ 102 ∷ [], kw_ref)
    ∷ (119 ∷ 104 ∷ 105 ∷ 108 ∷ 101 ∷ [], kw_while)
    ∷ (98 ∷ 114 ∷ 101 ∷ 97 ∷ 107 ∷ [], kw_break)
    ∷ (99 ∷ 111 ∷ 110 ∷ 116 ∷ 105 ∷ 110 ∷ 117 ∷ 101 ∷ [], kw_continue)
    ∷ (95 ∷ [], underscore)
    ∷ []

-- Two bytes, of which the first starts a longer sign than it is itself.
abbrev pub double_signs : List ((ℕ × ℕ) × TokenKind)
double_signs =
    ((46, 46), dot_dot)
    ∷ ((38, 38), and_and)
    ∷ ((42, 61), star_eq)
    ∷ ((43, 61), plus_eq)
    ∷ ((47, 61), slash_eq)
    ∷ ((37, 61), percent_eq)
    ∷ ((61, 61), eq_eq)
    ∷ ((61, 62), fat_arrow)
    ∷ ((33, 61), not_eq)
    ∷ ((60, 61), lt_eq)
    ∷ ((62, 61), gt_eq)
    ∷ ((45, 62), arrow)
    ∷ ((45, 61), minus_eq)
    ∷ ((58, 58), path_sep)
    ∷ ((124, 124), or_or)
    ∷ []

abbrev pub single_signs : List (ℕ × TokenKind)
single_signs =
    (40, lparen)
    ∷ (41, rparen)
    ∷ (123, lbrace)
    ∷ (125, rbrace)
    ∷ (91, lbracket)
    ∷ (93, rbracket)
    ∷ (59, semi)
    ∷ (44, comma)
    ∷ (46, dot)
    ∷ (38, amp)
    ∷ (42, star)
    ∷ (43, plus)
    ∷ (47, slash)
    ∷ (37, percent)
    ∷ (61, eq)
    ∷ (33, bang)
    ∷ (63, question)
    ∷ (60, langle)
    ∷ (62, rangle)
    ∷ (45, minus)
    ∷ (58, colon)
    ∷ (124, pipe)
    ∷ (64, at)
    ∷ (35, hash)
    ∷ []
