-- ===== src/Lexer/RoundTrip/Ints.antt =====
-- Integer literals are read back.
use pocket_rust.Prelude.{
  choose_false, choose_true, All-append, ◌≡◌, refl, ap, ◌∙◌, ◌+◌, ◌-◌, ◌*◌, ◌/◌, ◌%◌, ◌^◌, ◌≤◌, ◌<◌,
  ◌==◌, ◌||◌, ℕ, zero, suc, true, false, All, List, [], ◌∷◌, ◌++◌, for_each, String, arith,
}
use native.Mathlib.Decide.{ℕ_discrete}
use pocket_rust.Lexer.Token.{int_lit}
use pocket_rust.Lexer.Bytes.{is_digit, is_ident_start}
use pocket_rust.Lexer.Cursor.{Cursor}
use pocket_rust.Lexer.Tokenize.{int_value, lex_int, lex_one}
use pocket_rust.Lexer.Moves.{at_}
use pocket_rust.Lexer.Spelling.{decimal_digits}
use pocket_rust.Lexer.RoundTrip.Parts.{Lexes}
use pocket_rust.Lexer.RoundTrip.Names.{run_over}

-- The step of the loop over the digits.
abbrev add_digit : ℕ → ℕ → ℕ
add_digit value b = (value * 10 + (b - 48)) % 2 ^ 64

for_each-append :
    (xs : List ℕ) (b value : ℕ)
    → for_each add_digit value (xs ++ (b ∷ [])) ≡ add_digit (for_each add_digit value xs) b
unfolding for_each
for_each-append [] b value = refl
for_each-append (x ∷ xs) b value = for_each-append xs b (add_digit value x)

last_digit : (n : ℕ) → is_digit (n % 10 + 48) ≡ true
unfolding is_digit
last_digit n = ground arith

digits-All : (rounds n : ℕ) → All (λ d. is_digit d ≡ true) (decimal_digits rounds n)
unfolding decimal_digits
digits-All zero n = (last_digit n, tt)
digits-All (suc rounds) n =
    elim (n / 10 == 0)
      as (λ t.
        All (λ d. is_digit d ≡ true)
          (elim t as (λ _. List ℕ) [
            | true ↦ (n % 10 + 48) ∷ []
            | false ↦ decimal_digits rounds (n / 10) ++ ((n % 10 + 48) ∷ [])
          ])) [
            | true ↦ (last_digit n, tt)
            | false ↦
                All-append (λ d. is_digit d ≡ true) (decimal_digits rounds (n / 10))
                  ((n % 10 + 48) ∷ []) (digits-All rounds (n / 10)) (last_digit n, tt)
          ]

digits-value :
    (rounds n : ℕ) → n ≤ rounds → n < 2 ^ 64 → for_each add_digit 0 (decimal_digits rounds n) ≡ n
unfolding decimal_digits for_each
digits-value zero n h b = omega arith
digits-value (suc rounds) n h b =
    let higher = decimal_digits rounds (n / 10) ++ ((n % 10 + 48) ∷ []) in
    elim (ℕ_discrete (n / 10) 0) [
      | yes q ↦
          let e : (n / 10 == 0) ≡ true = ground arith in
          ap (λ xs. for_each add_digit 0 xs)
            (choose_true (n / 10 == 0) ((n % 10 + 48) ∷ []) higher e)
          ∙ (omega arith)
      | no q ↦
          let e : (n / 10 == 0) ≡ false = ground arith in
          let rest = digits-value rounds (n / 10) (omega arith) (omega arith) in
          ap (λ xs. for_each add_digit 0 xs)
            (choose_false (n / 10 == 0) ((n % 10 + 48) ∷ []) higher e)
          ∙ for_each-append (decimal_digits rounds (n / 10)) (n % 10 + 48) 0
          ∙ ap (λ v. add_digit v (n % 10 + 48)) rest
          ∙ (omega arith)
    ]

-- A digit begins nothing but a number.
digit_only :
    (b : ℕ)
    → is_digit b ≡ true
    → ((b == 10) ≡ false)
      × (((b == 32) || (b == 9) || (b == 13)) ≡ false)
      × (is_ident_start b ≡ false)
      × ((b == 34) ≡ false)
unfolding is_digit is_ident_start
digit_only b h = (ground arith, ground arith, ground arith, ground arith)

int_round :
    (file : String) (b : ℕ) (bytes : List ℕ) (c : Cursor)
    → is_digit b ≡ true
    → lex_one file b bytes c ≡ lex_int c
unfolding lex_one
int_round file b bytes c h =
    let (newline, space, start, quote) = digit_only b h in
    choose_false (b == 10) _ _ newline
    ∙ choose_false ((b == 32) || (b == 9) || (b == 13)) _ _ space
    ∙ choose_false (is_ident_start b) _ _ start
    ∙ choose_false (b == 34) _ _ quote
    ∙ choose_true (is_digit b) _ _ h

blank_stops : is_digit 32 ≡ false
unfolding is_digit
blank_stops = refl

digits-Lexes :
    (file : String) (digits : List ℕ) (value : ℕ) (rest : List ℕ)
    → All (λ d. is_digit d ≡ true) digits
    → (digits ≡ [] → ⊥)
    → for_each add_digit 0 digits ≡ value
    → Lexes file (int_lit value) digits rest
unfolding lex_int int_value
digits-Lexes file [] value rest h n e = absurd (n refl)
digits-Lexes file (b ∷ bytes) value rest h n e = (
  b,
  bytes,
  refl,
  λ line col.
      let c = at_ (b ∷ (bytes ++ (32 ∷ rest))) line col in
      let (taken, left) = run_over is_digit (b ∷ bytes) 32 rest line col h blank_stops in
      (
        _,
        _,
        int_round file b (bytes ++ (32 ∷ rest)) c h.0,
        ap int_lit (ap (λ xs. for_each add_digit 0 xs) taken ∙ e),
        left,
      ),
)

not_empty : (xs : List ℕ) (b : ℕ) → xs ++ (b ∷ []) ≡ [] → ⊥
not_empty [] b e = absurd (cc)
not_empty (x ∷ xs) b e = absurd (cc)

digits-some : (rounds n : ℕ) → decimal_digits rounds n ≡ [] → ⊥
unfolding decimal_digits
digits-some zero n e = absurd (cc)
digits-some (suc rounds) n e =
    (elim (n / 10 == 0)
        as (λ t.
          (elim t as (λ _. List ℕ) [
            | true ↦ (n % 10 + 48) ∷ []
            | false ↦ decimal_digits rounds (n / 10) ++ ((n % 10 + 48) ∷ [])
          ])
            ≡ []
          → ⊥) [
            | true ↦ λ e. absurd (cc)
            | false ↦ λ e. not_empty (decimal_digits rounds (n / 10)) (n % 10 + 48) e
          ])
      e

pub int_lit-Lexes :
    (file : String) (value : ℕ) (rest : List ℕ)
    → value < 2 ^ 64
    → Lexes file (int_lit value) (decimal_digits value value) rest
int_lit-Lexes file value rest h =
    digits-Lexes file (decimal_digits value value) value rest (digits-All value value)
      (digits-some value value) (digits-value value value (omega arith) h)
