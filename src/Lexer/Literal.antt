-- ===== src/Lexer/Literal.antt =====
-- src/lexer.rs: string and char literals.
use Prim.Native.Nat.{compare, Ordering}
use Prim.Native.Char.{char, IsLt}
use pocket_rust.Prelude.{
  ℕ, ◌+◌, ◌*◌, ◌^◌, Bool, true, false, not, ◌&&◌, ◌||◌, ltb, leb, ◌==◌, Option, none, some, Result,
  ok, err, List, [], ◌∷◌, push, as_u32, String, ◌+++◌, if◌then◌else◌,
}
use pocket_rust.Span.{Pos, Error}
use pocket_rust.Lexer.Token.{TokenKind, char_lit}
use pocket_rust.Lexer.Bytes.{hex_digit_value, hex, decode_utf8_codepoint}
use pocket_rust.Lexer.Cursor.{Cursor, position, fail, skip}

-- The clauses of `IsScalar`, by which a number is a character.
abbrev BothLt : Ordering → Ordering → Type 0
BothLt Ordering.lt o = IsLt o
BothLt Ordering.eq _ = ⊥
BothLt Ordering.gt _ = ⊥

abbrev Scalar : Ordering → Ordering → Ordering → Type 0
Scalar Ordering.lt _ _ = Unit
Scalar Ordering.eq o p = BothLt o p
Scalar Ordering.gt o p = BothLt o p

abbrev below_surrogates : (o p q : Ordering) → Option (Scalar o p q)
below_surrogates Ordering.lt p q = some tt
below_surrogates Ordering.eq p q = none
below_surrogates Ordering.gt p q = none

-- `b as char`, for a byte.
unfoldable pub as_char : ℕ → String
as_char n = elim (below_surrogates (compare n 55296) (compare 57343 n) (compare n 1114112)) [
  | none ↦ ""
  | some s ↦ String.◌∷◌ (char n s) String.[]
]

unfoldable pub escape : ℕ → Option ℕ
escape b =
    if b == 110
    then some 10
    else if b == 114
    then some 13
    else if b == 116
    then some 9
    else if b == 92
    then some 92
    else if b == 34
    then some 34
    else if b == 48
    then some 0
    else none

-- The loop over a string literal that begins at `start`, with the bytes decoded so far.
unfoldable pub string_loop : String → Pos → List ℕ → ℕ → ℕ → List ℕ → Result (List ℕ × Cursor) Error
string_loop file start [] line col decoded =
    fail file "unterminated string literal"
      (record { start = start; end = record { line = line; col = col } })
string_loop file start (c ∷ []) line col decoded = elim (c == 34) [
  | true ↦ ok (decoded, record { rest = []; line = line; col = as_u32 (col + 1) })
  | false ↦ elim (c == 92) [
    | true ↦
        fail file "unterminated string literal"
          (record { start = start; end = record { line = line; col = col } })
    | false ↦ elim (c == 10) [
      | true ↦ string_loop file start [] (as_u32 (line + 1)) 1 (push decoded 10)
      | false ↦ string_loop file start [] line (as_u32 (col + 1)) (push decoded c)
    ]
  ]
]
string_loop file start (c ∷ e ∷ rest) line col decoded = elim (c == 34) [
  | true ↦ ok (decoded, record { rest = e ∷ rest; line = line; col = as_u32 (col + 1) })
  | false ↦ elim (c == 92) [
    | true ↦ elim (escape e) [
      | some resolved ↦ string_loop file start rest line (as_u32 (col + 2)) (push decoded resolved)
      | none ↦ fail file ("unknown escape sequence `\\" +++ as_char e +++ "`") (record {
        start = record { line = line; col = col };
        end = record { line = line; col = as_u32 (col + 2) };
      })
    ]
    | false ↦ elim (c == 10) [
      | true ↦ string_loop file start (e ∷ rest) (as_u32 (line + 1)) 1 (push decoded 10)
      | false ↦ string_loop file start (e ∷ rest) line (as_u32 (col + 1)) (push decoded c)
    ]
  ]
]

-- The escapes of one letter in a char literal.
unfoldable pub char_escape : ℕ → Option ℕ
char_escape b =
    if b == 110
    then some 10
    else if b == 114
    then some 13
    else if b == 116
    then some 9
    else if b == 92
    then some 92
    else if b == 39
    then some 39
    else if b == 34
    then some 34
    else if b == 48
    then some 0
    else none

unfoldable pub hex_pair : Option ℕ → Option ℕ → Result ℕ String
hex_pair (some h) (some l) =
    if ltb 0x7f (h * 16 + l)
    then err "`\\xNN` char escape must be ASCII (0x00..=0x7F)"
    else ok (h * 16 + l)
hex_pair _ _ = err "invalid hex digit in `\\x` char escape"

-- `cp.checked_mul(16).and_then(|v| v.checked_add(d)).unwrap_or(0x110000)`
unfoldable pub add_hex : ℕ → ℕ → ℕ
add_hex cp d = if ltb (cp * 16 + d) (2 ^ 32) then cp * 16 + d else 0x110000

-- The loop over the digits of `\u{…}`: the value and the number of bytes up to the closing brace.
unfoldable pub unicode_loop : List ℕ → ℕ → ℕ → Result (ℕ × ℕ) String
unicode_loop [] cp digits = err "unterminated `\\u{…}` escape"
unicode_loop (b ∷ rest) cp digits = elim (b == 125) [
  | true ↦ if digits == 0 then err "unterminated `\\u{…}` escape" else ok (cp, digits + 1)
  | false ↦ elim (hex_digit_value b) [
    | none ↦ err "invalid hex digit in `\\u{…}` escape"
    | some d ↦ elim (ltb 6 (digits + 1)) [
      | true ↦ err "too many hex digits in `\\u{…}` escape (max 6)"
      | false ↦ unicode_loop rest (add_hex cp d) (digits + 1)
    ]
  ]
]

unfoldable pub plus_used : ℕ → Result (ℕ × ℕ) String → Result (ℕ × ℕ) String
plus_used n (ok (cp, used)) = ok (cp, n + used)
plus_used n (err message) = err message

unfoldable pub unicode_escape : List ℕ → Result (ℕ × ℕ) String
unicode_escape [] = err "expected `{` after `\\u` in char literal"
unicode_escape (b ∷ rest) =
    if not (b == 123)
    then err "expected `{` after `\\u` in char literal"
    else plus_used 3 (unicode_loop rest 0 0)

unfoldable pub byte_escape : List ℕ → Result (ℕ × ℕ) String
byte_escape (hi ∷ lo ∷ rest) = elim (hex_pair (hex_digit_value hi) (hex_digit_value lo)) [
  | ok v ↦ ok (v, 4)
  | err message ↦ err message
]
byte_escape _ = err "unterminated `\\x` escape in char literal"

-- Behind a backslash: the value of the escape and the bytes that it takes.
unfoldable pub char_escapes : List ℕ → Result (ℕ × ℕ) String
char_escapes [] = err "unterminated char literal"
char_escapes (esc ∷ rest) = elim (char_escape esc) [
  | some v ↦ ok (v, 2)
  | none ↦
      if esc == 120
      then byte_escape rest
      else if esc == 117
      then unicode_escape rest
      else err ("unknown char escape `\\" +++ as_char esc +++ "`")
]

-- The value of a char literal and the bytes that it takes, behind the opening quote.
unfoldable pub char_value : List ℕ → Result (ℕ × ℕ) String
char_value [] = decode_utf8_codepoint []
char_value (b ∷ rest) = if b == 92 then char_escapes rest else decode_utf8_codepoint (b ∷ rest)

abbrev pub is_scalar : ℕ → Bool
is_scalar value = not (ltb 0x10ffff value || (leb 0xd800 value && leb value 0xdfff))

abbrev pub close_char : String → Pos → ℕ → List ℕ → Cursor → Result (TokenKind × Cursor) Error
close_char file start value [] c =
    fail file "expected `'` to close char literal" (record { start = start; end = position c })
close_char file start value (b ∷ rest) c =
    if not (b == 39)
    then fail file "expected `'` to close char literal" (record { start = start; end = position c })
    else ok (char_lit value, skip 1 1 c)

-- The checks on the value and the closing quote.
abbrev pub finish_char :
    String → Pos → Cursor → Result (ℕ × ℕ) String → Result (TokenKind × Cursor) Error
finish_char file start c (err message) =
    fail file message (record { start = start; end = position c })
finish_char file start c (ok (value, byte_len)) =
    let c = skip byte_len (as_u32 byte_len) c in
    if not (is_scalar value)
    then fail file ("invalid Unicode codepoint U+" +++ hex 4 4 value +++ " in char literal")
        (record { start = start; end = position c })
    else close_char file start value c.rest c

-- A char literal that begins at `start`, with the cursor behind the opening quote.
unfoldable pub lex_char : String → Pos → Cursor → Result (TokenKind × Cursor) Error
lex_char file start c = finish_char file start c (char_value c.rest)
