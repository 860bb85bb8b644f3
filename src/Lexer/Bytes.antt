-- ===== src/Lexer/Bytes.antt =====
-- src/lexer.rs: tests of bytes, digits and UTF-8 sequences. The bytes from `start` on are a list.
use pocket_rust.Prelude.{
  ℕ, zero, suc, ◌+◌, ◌-◌, ◌*◌, ◌/◌, ◌%◌, bit_and, bit_or, Bool, true, false, ◌&&◌, ◌||◌, ltb, leb,
  ◌==◌, Option, none, some, Result, ok, err, List, [], ◌∷◌, length, String, ◌+++◌, if◌then◌else◌,
}

unfoldable pub is_digit : ℕ → Bool
is_digit b = leb 48 b && leb b 57

unfoldable pub is_ident_start : ℕ → Bool
is_ident_start b = (leb 97 b && leb b 122) || (leb 65 b && leb b 90) || (b == 95)

unfoldable pub is_ident_continue : ℕ → Bool
is_ident_continue b = is_ident_start b || is_digit b

unfoldable pub hex_digit_value : ℕ → Option ℕ
hex_digit_value b =
    if leb 48 b && leb b 57
    then some (b - 48)
    else if leb 97 b && leb b 102
    then some (b - 97 + 10)
    else if leb 65 b && leb b 70
    then some (b - 65 + 10)
    else none

-- `{:X}`
abbrev hex_digit : ℕ → String
hex_digit d =
    if d == 0
    then "0"
    else if d == 1
    then "1"
    else if d == 2
    then "2"
    else if d == 3
    then "3"
    else if d == 4
    then "4"
    else if d == 5
    then "5"
    else if d == 6
    then "6"
    else if d == 7
    then "7"
    else if d == 8
    then "8"
    else if d == 9
    then "9"
    else if d == 10
    then "A"
    else if d == 11
    then "B"
    else if d == 12
    then "C"
    else if d == 13
    then "D"
    else if d == 14
    then "E"
    else "F"

-- At least `width` digits, and at most `rounds` more.
unfoldable pub hex : ℕ → ℕ → ℕ → String
hex zero zero n = ""
hex (suc rounds) zero n =
    let higher = hex rounds zero (n / 16) in if n == 0 then "" else higher +++ hex_digit (n % 16)
hex rounds (suc width) n = hex rounds width (n / 16) +++ hex_digit (n % 16)

-- The shape of a sequence: its length, the mask of its first byte and its least code point.
unfoldable pub sequence_shape : ℕ → Option (ℕ × ℕ × ℕ)
sequence_shape b0 =
    if bit_and b0 0xe0 == 0xc0
    then some (2, 0x1f, 0x80)
    else if bit_and b0 0xf0 == 0xe0
    then some (3, 0x0f, 0x800)
    else if bit_and b0 0xf8 == 0xf0
    then some (4, 0x07, 0x10000)
    else none

-- The loop over the bytes behind the first one; the test of the length keeps it in bounds.
unfoldable pub continuation : ℕ → List ℕ → ℕ → Result ℕ String
continuation zero bytes cp = ok cp
continuation (suc rounds) [] cp = err ""
continuation (suc rounds) (b ∷ bytes) cp = elim (bit_and b 0xc0 == 0x80) [
  | false ↦ err ("invalid UTF-8 continuation byte 0x" +++ hex 0 2 b)
  | true ↦ continuation rounds bytes (bit_or (cp * 64) (bit_and b 0x3f))
]

unfoldable pub check_length : ℕ → ℕ → Result ℕ String → Result (ℕ × ℕ) String
check_length len min_cp (err message) = err message
check_length len min_cp (ok cp) =
    if ltb cp min_cp
    then err ("over-long UTF-8 encoding for codepoint U+" +++ hex 4 4 cp)
    else ok (cp, len)

unfoldable pub decode_sequence : ℕ → List ℕ → Option (ℕ × ℕ × ℕ) → Result (ℕ × ℕ) String
decode_sequence b0 bytes none = err ("invalid UTF-8 leading byte 0x" +++ hex 0 2 b0)
decode_sequence b0 bytes (some (len, mask, min_cp)) =
    if ltb (suc (length bytes)) len
    then err "truncated UTF-8 sequence in char literal"
    else check_length len min_cp (continuation (len - 1) bytes (bit_and b0 mask))

unfoldable pub decode_utf8_codepoint : List ℕ → Result (ℕ × ℕ) String
decode_utf8_codepoint [] = err "unexpected end of input in char literal"
decode_utf8_codepoint (b0 ∷ bytes) =
    if ltb b0 0x80 then ok (b0, 1) else decode_sequence b0 bytes (sequence_shape b0)
