-- ===== src/Lexer/Spelling.antt =====
-- How tokens are spelled: the words and signs, and the texts that a token of each kind may have. No part
-- of the program; a reference for the lexer.
use pocket_rust.Prelude.{
  ◌≡◌, ℕ, zero, suc, ◌+◌, ◌/◌, ◌%◌, ◌^◌, ◌<◌, ◌==◌, ◌||◌, true, false, none, All, List, [], ◌∷◌,
  ◌++◌, find,
}
use pocket_rust.Lexer.Token.{
  TokenKind, kw_fn, kw_mod, kw_struct, kw_let, kw_mut, kw_move, kw_const, kw_as, kw_unsafe, kw_impl,
  kw_trait, kw_dyn, kw_for, kw_in, kw_self_lower, kw_self_upper, kw_if, kw_else, kw_true, kw_false,
  kw_use, kw_pub, kw_enum, kw_match, kw_ref, kw_while, kw_break, kw_continue, kw_type, kw_where,
  kw_return, question, builtin, langle, rangle, lparen, rparen, lbrace, rbrace, lbracket, rbracket,
  arrow, semi, colon, dot, path_sep, comma, amp, star, plus, minus, slash, percent, bang, eq_eq,
  not_eq, lt_eq, gt_eq, eq, plus_eq, minus_eq, star_eq, slash_eq, percent_eq, and_and, or_or,
  underscore, pipe, at, hash, dot_dot, dot_dot_eq, fat_arrow, ident, lifetime, int_lit, char_lit,
  str_lit,
}
use pocket_rust.Lexer.Words.{keywords}
use pocket_rust.Lexer.Bytes.{is_ident_start, is_ident_continue}
use pocket_rust.Lexer.Tokenize.{bytes_eq}

-- The decimal digits of a number, in at most as many rounds as it says.
unfoldable pub decimal_digits : ℕ → ℕ → List ℕ
decimal_digits zero n = (n % 10 + 48) ∷ []
decimal_digits (suc rounds) n = elim (n / 10 == 0) [
  | true ↦ (n % 10 + 48) ∷ []
  | false ↦ decimal_digits rounds (n / 10) ++ ((n % 10 + 48) ∷ [])
]

-- A quote and a backslash are escaped in a string literal.
unfoldable pub spell_payload : List ℕ → List ℕ
spell_payload [] = []
spell_payload (b ∷ bytes) = elim ((b == 34) || (b == 92)) [
  | true ↦ 92 ∷ b ∷ spell_payload bytes
  | false ↦ b ∷ spell_payload bytes
]

unfoldable pub spell : TokenKind → List ℕ
spell kw_fn = 102 ∷ 110 ∷ []
spell kw_mod = 109 ∷ 111 ∷ 100 ∷ []
spell kw_struct = 115 ∷ 116 ∷ 114 ∷ 117 ∷ 99 ∷ 116 ∷ []
spell kw_let = 108 ∷ 101 ∷ 116 ∷ []
spell kw_mut = 109 ∷ 117 ∷ 116 ∷ []
spell kw_move = 109 ∷ 111 ∷ 118 ∷ 101 ∷ []
spell kw_const = 99 ∷ 111 ∷ 110 ∷ 115 ∷ 116 ∷ []
spell kw_as = 97 ∷ 115 ∷ []
spell kw_unsafe = 117 ∷ 110 ∷ 115 ∷ 97 ∷ 102 ∷ 101 ∷ []
spell kw_impl = 105 ∷ 109 ∷ 112 ∷ 108 ∷ []
spell kw_trait = 116 ∷ 114 ∷ 97 ∷ 105 ∷ 116 ∷ []
spell kw_dyn = 100 ∷ 121 ∷ 110 ∷ []
spell kw_for = 102 ∷ 111 ∷ 114 ∷ []
spell kw_in = 105 ∷ 110 ∷ []
spell kw_self_lower = 115 ∷ 101 ∷ 108 ∷ 102 ∷ []
spell kw_self_upper = 83 ∷ 101 ∷ 108 ∷ 102 ∷ []
spell kw_if = 105 ∷ 102 ∷ []
spell kw_else = 101 ∷ 108 ∷ 115 ∷ 101 ∷ []
spell kw_true = 116 ∷ 114 ∷ 117 ∷ 101 ∷ []
spell kw_false = 102 ∷ 97 ∷ 108 ∷ 115 ∷ 101 ∷ []
spell kw_use = 117 ∷ 115 ∷ 101 ∷ []
spell kw_pub = 112 ∷ 117 ∷ 98 ∷ []
spell kw_enum = 101 ∷ 110 ∷ 117 ∷ 109 ∷ []
spell kw_match = 109 ∷ 97 ∷ 116 ∷ 99 ∷ 104 ∷ []
spell kw_ref = 114 ∷ 101 ∷ 102 ∷ []
spell kw_while = 119 ∷ 104 ∷ 105 ∷ 108 ∷ 101 ∷ []
spell kw_break = 98 ∷ 114 ∷ 101 ∷ 97 ∷ 107 ∷ []
spell kw_continue = 99 ∷ 111 ∷ 110 ∷ 116 ∷ 105 ∷ 110 ∷ 117 ∷ 101 ∷ []
spell kw_type = 116 ∷ 121 ∷ 112 ∷ 101 ∷ []
spell kw_where = 119 ∷ 104 ∷ 101 ∷ 114 ∷ 101 ∷ []
spell kw_return = 114 ∷ 101 ∷ 116 ∷ 117 ∷ 114 ∷ 110 ∷ []
spell question = 63 ∷ []
spell builtin = 0xc2 ∷ 0xa4 ∷ []
spell langle = 60 ∷ []
spell rangle = 62 ∷ []
spell lparen = 40 ∷ []
spell rparen = 41 ∷ []
spell lbrace = 123 ∷ []
spell rbrace = 125 ∷ []
spell lbracket = 91 ∷ []
spell rbracket = 93 ∷ []
spell arrow = 45 ∷ 62 ∷ []
spell semi = 59 ∷ []
spell colon = 58 ∷ []
spell dot = 46 ∷ []
spell path_sep = 58 ∷ 58 ∷ []
spell comma = 44 ∷ []
spell amp = 38 ∷ []
spell star = 42 ∷ []
spell plus = 43 ∷ []
spell minus = 45 ∷ []
spell slash = 47 ∷ []
spell percent = 37 ∷ []
spell bang = 33 ∷ []
spell eq_eq = 61 ∷ 61 ∷ []
spell not_eq = 33 ∷ 61 ∷ []
spell lt_eq = 60 ∷ 61 ∷ []
spell gt_eq = 62 ∷ 61 ∷ []
spell eq = 61 ∷ []
spell plus_eq = 43 ∷ 61 ∷ []
spell minus_eq = 45 ∷ 61 ∷ []
spell star_eq = 42 ∷ 61 ∷ []
spell slash_eq = 47 ∷ 61 ∷ []
spell percent_eq = 37 ∷ 61 ∷ []
spell and_and = 38 ∷ 38 ∷ []
spell or_or = 124 ∷ 124 ∷ []
spell underscore = 95 ∷ []
spell pipe = 124 ∷ []
spell at = 64 ∷ []
spell hash = 35 ∷ []
spell dot_dot = 46 ∷ 46 ∷ []
spell dot_dot_eq = 46 ∷ 46 ∷ 61 ∷ []
spell fat_arrow = 61 ∷ 62 ∷ []
spell (ident text) = text
spell (lifetime name) = 39 ∷ name
spell (int_lit value) = decimal_digits value value
spell (str_lit payload) = 34 ∷ (spell_payload payload ++ (34 ∷ []))
spell (char_lit value) = []

-- The text begins like an identifier and goes on like one.
abbrev pub IsName : List ℕ → Type 0
IsName [] = ⊥
IsName (b ∷ bytes) = (is_ident_start b ≡ true) × All (λ c. is_ident_continue c ≡ true) bytes

-- A token as the lexer makes it: an identifier is a name and no word of the language, a lifetime is a
-- name, an integer is a u64. Char literals are left out.
abbrev pub IsPlain : TokenKind → Type 0
IsPlain (ident text) = IsName text × (find (λ row. bytes_eq text row.0) keywords ≡ none)
IsPlain (lifetime name) = IsName name
IsPlain (int_lit value) = value < 2 ^ 64
IsPlain (char_lit value) = ⊥
IsPlain _ = Unit

-- The tokens, each with a blank behind it.
unfoldable pub spell_all : List TokenKind → List ℕ
spell_all [] = []
spell_all (k ∷ ks) = spell k ++ (32 ∷ spell_all ks)
