-- ===== src/Lexer/Takes.antt =====
-- A char literal takes no more bytes than there are.
use pocket_rust.Prelude.{
  ◌≡◌, inl, inr, ◌+◌, ◌≤◌, ◌==◌, ℕ, suc, Bool, true, false, not, Option, none, some, Result, ok,
  err, List, [], ◌∷◌, length, ltb, String, Bool-cases, if◌then◌else◌, arith,
}
use mathlib.Core.Path.{subst}
use pocket_rust.Lexer.Bytes.{
  hex_digit_value, decode_utf8_codepoint, decode_sequence, check_length, sequence_shape,
}
use pocket_rust.Lexer.Literal.{
  char_escape, hex_pair, unicode_loop, plus_used, add_hex, unicode_escape, byte_escape,
  char_escapes, char_value,
}
use pocket_rust.Lexer.Moves.{choose, choose_option}

-- The value takes no more bytes than the bound.
pub data Takes (bound : ℕ) : Result (ℕ × ℕ) String → Type 0 where
  takes : {v n : ℕ} → n ≤ bound → Takes bound (ok (v, n))
  fails : {message : String} → Takes bound (err message)

pub choose_if {ℓ κ} :
    {A : Type ℓ} (P : A → Type κ) (t : Bool) (x y : A) → P x → P y → P (if t then x else y)
choose_if P true x y p q = p
choose_if P false x y p q = q

unicode_loop-Takes :
    (rest : List ℕ) (cp digits : ℕ) → Takes (digits + length rest) (unicode_loop rest cp digits)
unfolding unicode_loop
unicode_loop-Takes [] cp digits = fails
unicode_loop-Takes (b ∷ rest) cp digits =
    let P : Result (ℕ × ℕ) String → Type 0 = λ r. Takes (digits + length (b ∷ rest)) r in
    choose P (b == 125) _ _ (choose_if P (digits == 0) _ _ fails (takes (omega arith))) (
      choose_option P (hex_digit_value b) _ _
        (λ d. choose P (ltb 6 (digits + 1)) _ _ fails (
          let r = unicode_loop-Takes rest (add_hex cp d) (digits + 1) in
          let e : digits + 1 + length rest ≡ digits + suc (length rest) = omega arith in
          subst (λ n. Takes n (unicode_loop rest (add_hex cp d) (digits + 1))) e r))
        fails)

plus_used-Takes : (k n : ℕ) (r : Result (ℕ × ℕ) String) → Takes n r → Takes (k + n) (plus_used k r)
unfolding plus_used
plus_used-Takes k n r (takes h) = takes (omega arith)
plus_used-Takes k n r fails = fails

unicode_escape-Takes : (rest : List ℕ) → Takes (suc (suc (length rest))) (unicode_escape rest)
unfolding unicode_escape
unicode_escape-Takes [] = fails
unicode_escape-Takes (b ∷ rest) =
    choose_if (λ r. Takes (suc (suc (length (b ∷ rest)))) r) (not (b == 123)) _ _ fails
      (let e : 3 + (0 + length rest) ≡ suc (suc (suc (length rest))) = omega arith in
        subst (λ n. Takes n (plus_used 3 (unicode_loop rest 0 0))) e
          (plus_used-Takes 3 (0 + length rest) (unicode_loop rest 0 0)
            (unicode_loop-Takes rest 0 0)))

byte_escape-Takes : (rest : List ℕ) → Takes (suc (suc (length rest))) (byte_escape rest)
unfolding byte_escape
byte_escape-Takes [] = fails
byte_escape-Takes (hi ∷ []) = fails
byte_escape-Takes (hi ∷ lo ∷ rest) =
    elim (hex_pair (hex_digit_value hi) (hex_digit_value lo))
      as (λ x.
        Takes (suc (suc (length (hi ∷ lo ∷ rest)))) (elim x as (λ _. Result (ℕ × ℕ) String) [
          | ok v ↦ ok (v, 4)
          | err message ↦ err message
        ])) [ ok v ↦ takes (omega arith) | err message ↦ fails ]

char_escapes-Takes : (rest : List ℕ) → Takes (suc (length rest)) (char_escapes rest)
unfolding char_escapes
char_escapes-Takes [] = fails
char_escapes-Takes (esc ∷ rest) =
    let P : Result (ℕ × ℕ) String → Type 0 = λ r. Takes (suc (length (esc ∷ rest))) r in
    choose_option P (char_escape esc) _ _ (λ v. takes (omega arith))
      (choose_if P (esc == 120) _ _ (byte_escape-Takes rest)
        (choose_if P (esc == 117) _ _ (unicode_escape-Takes rest) fails))

check_length-Takes :
    (len min_cp bound : ℕ) (r : Result ℕ String)
    → len ≤ bound
    → Takes bound (check_length len min_cp r)
unfolding check_length
check_length-Takes len min_cp bound (err message) h = fails
check_length-Takes len min_cp bound (ok cp) h =
    choose_if (λ r. Takes bound r) (ltb cp min_cp) _ _ fails (takes h)

decode-Takes :
    (b : ℕ) (bytes : List ℕ) (shape : Option (ℕ × ℕ × ℕ))
    → Takes (suc (length bytes)) (decode_sequence b bytes shape)
unfolding decode_sequence
decode-Takes b bytes none = fails
decode-Takes b bytes (some (len, mask, min_cp)) = elim (Bool-cases (ltb (suc (length bytes)) len)) [
  | inl e ↦ rw e fails
  | inr e ↦ rw e (check_length-Takes len min_cp (suc (length bytes)) _ (ground (arith, e)))
]

pub char_value-Takes : (bytes : List ℕ) → Takes (length bytes) (char_value bytes)
unfolding char_value decode_utf8_codepoint
char_value-Takes [] = fails
char_value-Takes (b ∷ rest) =
    let P : Result (ℕ × ℕ) String → Type 0 = λ r. Takes (length (b ∷ rest)) r in
    choose_if P (b == 92) _ _ (char_escapes-Takes rest)
      (choose_if P (ltb b 0x80) _ _ (takes (omega arith)) (decode-Takes b rest (sequence_shape b)))
