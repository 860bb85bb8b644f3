-- ===== src/Lexer/Tokenize.antt =====
-- src/lexer.rs: tokenize.
use pocket_rust.Prelude.{
  ℕ, zero, suc, ◌+◌, ◌-◌, ◌*◌, ◌%◌, ◌^◌, Bool, true, false, not, ◌&&◌, ◌||◌, leb, ◌==◌, Option,
  none, some, Result, ok, err, List, [], ◌∷◌, length, push, as_u32, String, ◌+++◌, if◌then◌else◌,
  for_each, find,
}
use pocket_rust.Span.{Error}
use pocket_rust.Lexer.Token.{
  TokenKind, Token, ident, lifetime, int_lit, str_lit, dot_dot_eq, builtin,
}
use pocket_rust.Lexer.Words.{keywords, double_signs, single_signs}
use pocket_rust.Lexer.Bytes.{is_digit, is_ident_start, is_ident_continue}
use pocket_rust.Lexer.Cursor.{Cursor, position, between, fail, skip, next_line, run, comment_loop}
use pocket_rust.Lexer.Literal.{string_loop, lex_char, as_char}

abbrev pub bytes_eq : List ℕ → List ℕ → Bool
bytes_eq [] [] = true
bytes_eq (a ∷ as_) (b ∷ bs) = (a == b) && bytes_eq as_ bs
bytes_eq _ _ = false

-- The token kind of a word.
abbrev kind_or : Option (List ℕ × TokenKind) → List ℕ → TokenKind
kind_or none text = ident text
kind_or (some (word, kind)) text = kind

unfoldable pub word_kind : List ℕ → TokenKind
word_kind text = kind_or (find (λ row. bytes_eq text row.0) keywords) text

-- `value = value * 10 + digit` on a u64; a build with overflow checks stops where this wraps.
unfoldable pub int_value : List ℕ → ℕ
int_value digits = for_each (λ value b. (value * 10 + (b - 48)) % 2 ^ 64) 0 digits

-- A token, or none for blanks and comments, and the cursor behind it.
abbrev pub Lexed : Type 0
Lexed = Result (Option Token × Cursor) Error

abbrev pub token : TokenKind → Cursor → Cursor → Lexed
token kind a b = ok (some (record { kind = kind; span = between a b }), b)

abbrev pub blank : Cursor → Lexed
blank c = ok (none, c)

unfoldable pub lex_word : Cursor → Lexed
lex_word c =
    let (text, c') = run is_ident_continue c.rest c.line c.col in token (word_kind text) c c'

unfoldable pub lex_int : Cursor → Lexed
lex_int c =
    let (digits, c') = run is_digit c.rest c.line c.col in token (int_lit (int_value digits)) c c'

abbrev pub string_token : Cursor → Result (List ℕ × Cursor) Error → Lexed
string_token a (ok (payload, b)) = token (str_lit payload) a b
string_token a (err e) = err e

unfoldable pub lex_string : String → Cursor → Lexed
lex_string file c =
    let inside = skip 1 1 c in
    string_token c (string_loop file (position c) inside.rest inside.line inside.col [])

unfoldable pub line_comment : Cursor → Lexed
line_comment c =
    let inside = skip 2 2 c in blank (run (λ b. not (b == 10)) inside.rest inside.line inside.col).1

abbrev pub comment_end : String → ℕ × Cursor → Lexed
comment_end file (zero, c) = blank c
comment_end file (suc depth, c) = fail file "unterminated block comment" (between c c)

unfoldable pub block_comment : String → Cursor → Lexed
block_comment file c =
    let inside = skip 2 2 c in comment_end file (comment_loop inside.rest inside.line inside.col 1)

-- Whether what follows a quote is a char literal and no lifetime.
unfoldable pub is_char_lit : List ℕ → Bool
is_char_lit [] = false
is_char_lit (next ∷ []) = (next == 92) || leb 0x80 next
is_char_lit (next ∷ after ∷ rest) = (next == 92) || leb 0x80 next || (after == 39)

abbrev pub char_token : Cursor → Result (TokenKind × Cursor) Error → Lexed
char_token a (ok (kind, b)) = token kind a b
char_token a (err e) = err e

unfoldable pub lifetime_at : String → Cursor → Cursor → List ℕ → Lexed
lifetime_at file c inside [] = fail file "expected lifetime name after `'`" (between c inside)
lifetime_at file c inside (b ∷ rest) =
    if not (is_ident_start b)
    then fail file "expected lifetime name after `'`" (between c inside)
    else (let (name, c') = run is_ident_continue (b ∷ rest) inside.line inside.col in
        token (lifetime name) c c')

unfoldable pub lex_quote : String → Cursor → Lexed
lex_quote file c =
    let inside = skip 1 1 c in
    elim (is_char_lit inside.rest) [
      | true ↦ char_token c (lex_char file (position c) inside)
      | false ↦ lifetime_at file c inside inside.rest
    ]

unfoldable pub lex_single : String → ℕ → Cursor → Lexed
lex_single file b c = elim (find (λ row. row.0 == b) single_signs) [
  | some (sign, kind) ↦ token kind c (skip 1 1 c)
  | none ↦
      fail file ("unexpected character `" +++ as_char b +++ "`")
        (record { start = position c; end = record { line = c.line; col = as_u32 (c.col + 1) } })
]

unfoldable pub lex_double : String → ℕ → ℕ → Cursor → Lexed
lex_double file a b c = elim (find (λ row. (row.0.0 == a) && (row.0.1 == b)) double_signs) [
  | some (sign, kind) ↦ token kind c (skip 2 2 c)
  | none ↦ if (a == 0xc2) && (b == 0xa4) then token builtin c (skip 2 1 c) else lex_single file a c
]

-- The signs, the longest first.
unfoldable pub lex_sign : String → ℕ → List ℕ → Cursor → Lexed
lex_sign file a [] c = lex_single file a c
lex_sign file a (b ∷ []) c = elim ((a == 47) && (b == 47)) [
  | true ↦ line_comment c
  | false ↦ elim ((a == 47) && (b == 42)) [
    | true ↦ block_comment file c
    | false ↦ lex_double file a b c
  ]
]
lex_sign file a (b ∷ d ∷ rest) c = elim ((a == 46) && (b == 46) && (d == 61)) [
  | true ↦ token dot_dot_eq c (skip 3 3 c)
  | false ↦ elim ((a == 47) && (b == 47)) [
    | true ↦ line_comment c
    | false ↦ elim ((a == 47) && (b == 42)) [
      | true ↦ block_comment file c
      | false ↦ lex_double file a b c
    ]
  ]
]

-- One round of the loop, at the byte `b`.
unfoldable pub lex_one : String → ℕ → List ℕ → Cursor → Lexed
lex_one file b bytes c = elim (b == 10) [
  | true ↦ blank (next_line bytes c.line)
  | false ↦ elim ((b == 32) || (b == 9) || (b == 13)) [
    | true ↦ blank (skip 1 1 c)
    | false ↦ elim (is_ident_start b) [
      | true ↦ lex_word c
      | false ↦ elim (b == 34) [
        | true ↦ lex_string file c
        | false ↦ elim (is_digit b) [
          | true ↦ lex_int c
          | false ↦ elim (b == 39) [ true ↦ lex_quote file c | false ↦ lex_sign file b bytes c ]
        ]
      ]
    ]
  ]
]

abbrev pub add_token : List Token → Option Token → List Token
add_token tokens none = tokens
add_token tokens (some t) = push tokens t

-- The loop on fuel, from the cursor on; `none` when the fuel runs out.
unfoldable pub token_loop :
    ℕ → String → List ℕ → ℕ → ℕ → List Token → Option (Result (List Token) Error)
token_loop fuel file [] line col tokens = some (ok tokens)
token_loop zero file (b ∷ bytes) line col tokens = none
token_loop (suc fuel) file (b ∷ bytes) line col tokens =
    elim (lex_one file b bytes (record { rest = b ∷ bytes; line = line; col = col })) [
      | err e ↦ some (err e)
      | ok (t, c) ↦ token_loop fuel file c.rest c.line c.col (add_token tokens t)
    ]

-- A round takes a byte at least, so that as many rounds as bytes are enough.
unfoldable pub tokenize : String → List ℕ → Option (Result (List Token) Error)
tokenize file source = token_loop (length source) file source 1 1 []
