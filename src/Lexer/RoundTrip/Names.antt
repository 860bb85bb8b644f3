-- ===== src/Lexer/RoundTrip/Names.antt =====
-- Identifiers and lifetimes are read back.
use pocket_rust.Prelude.{
  if_false, choose_false, choose_true, ◌≡◌, refl, ap, ◌∙◌, ◌+◌, ◌==◌, ◌||◌, ℕ, Bool, true, false,
  leb, none, All, List, [], ◌∷◌, ◌++◌, as_u32, String, find, arith,
}
use pocket_rust.Lexer.Token.{ident, lifetime}
use pocket_rust.Lexer.Words.{keywords}
use pocket_rust.Lexer.Bytes.{is_digit, is_ident_start, is_ident_continue}
use pocket_rust.Lexer.Cursor.{Cursor, run}
use pocket_rust.Lexer.Tokenize.{
  token, word_kind, lex_word, is_char_lit, lifetime_at, lex_quote, lex_one, bytes_eq,
}
use pocket_rust.Lexer.Moves.{at_}
use pocket_rust.Lexer.Spelling.{IsName, IsPlain}
use pocket_rust.Lexer.RoundTrip.Parts.{Lexes}

-- A run takes the bytes that pass, up to one that does not.
pub run_over :
    (test : ℕ → Bool) (xs : List ℕ) (stop : ℕ) (rest : List ℕ) (line col : ℕ)
    → All (λ b. test b ≡ true) xs
    → test stop ≡ false
    → let (taken, c) = run test (xs ++ (stop ∷ rest)) line col in
      (taken ≡ xs) × (c.rest ≡ stop ∷ rest)
unfolding run
run_over test [] stop rest line col h e = rw (e, run) (refl, refl)
run_over test (x ∷ xs) stop rest line col h e =
    let (taken, left) = run_over test xs stop rest line (as_u32 (col + 1)) h.1 e in
    rw (h.0, run) (ap (λ ys. x ∷ ys) taken, left)

-- A byte that begins an identifier begins nothing else.
start_only :
    (b : ℕ)
    → is_ident_start b ≡ true
    → ((b == 10) ≡ false) × (((b == 32) || (b == 9) || (b == 13)) ≡ false)
unfolding is_ident_start
start_only b h = (ground arith, ground arith)

word_round :
    (file : String) (b : ℕ) (bytes : List ℕ) (c : Cursor)
    → is_ident_start b ≡ true
    → lex_one file b bytes c ≡ lex_word c
unfolding lex_one
word_round file b bytes c h =
    let (newline, space) = start_only b h in
    choose_false (b == 10) _ _ newline
    ∙ choose_false ((b == 32) || (b == 9) || (b == 13)) _ _ space
    ∙ choose_true (is_ident_start b) _ _ h

name_continues : (b : ℕ) → is_ident_start b ≡ true → is_ident_continue b ≡ true
unfolding is_ident_continue
name_continues b h = rw h refl

word-ident :
    (text : List ℕ)
    → find (λ row. bytes_eq text row.0) keywords ≡ none
    → word_kind text ≡ ident text
unfolding word_kind
word-ident text h = rw h refl

blank_stops : is_ident_continue 32 ≡ false
unfolding is_ident_continue is_ident_start is_digit
blank_stops = refl

pub ident-Lexes :
    (file : String) (text rest : List ℕ) → IsPlain (ident text) → Lexes file (ident text) text rest
unfolding lex_word
ident-Lexes file [] rest h = absurd h.0
ident-Lexes file (b ∷ bytes) rest ((first, others), fresh) = (
  b,
  bytes,
  refl,
  λ line col.
      let c = at_ (b ∷ (bytes ++ (32 ∷ rest))) line col in
      let (taken, left) =
        run_over is_ident_continue (b ∷ bytes) 32 rest line col (name_continues b first, others)
          blank_stops in
      (
        _,
        _,
        word_round file b (bytes ++ (32 ∷ rest)) c first,
        ap word_kind taken ∙ word-ident (b ∷ bytes) fresh,
        left,
      ),
)

-- A name has no quote as its second byte, and begins no escape or longer sequence.
plain_byte : (b : ℕ) → is_ident_start b ≡ true → ((b == 92) ≡ false) × (leb 0x80 b ≡ false)
unfolding is_ident_start
plain_byte b h = (ground arith, ground arith)

no_quote : (b : ℕ) → is_ident_continue b ≡ true → (b == 39) ≡ false
unfolding is_ident_continue is_ident_start is_digit
no_quote b h = ground arith

name-no_char :
    (b : ℕ) (bytes rest : List ℕ)
    → is_ident_start b ≡ true
    → All (λ c. is_ident_continue c ≡ true) bytes
    → is_char_lit (b ∷ (bytes ++ (32 ∷ rest))) ≡ false
unfolding is_char_lit
name-no_char b [] rest first h = let (p, q) = plain_byte b first in rw (p, q) refl
name-no_char b (c ∷ bytes) rest first h =
    let (p, q) = plain_byte b first in rw (p, q, no_quote c h.0) refl

-- The name of a lifetime, behind the quote.
lifetime_round :
    (file : String) (b : ℕ) (bytes rest : List ℕ) (line col : ℕ)
    → is_ident_start b ≡ true
    → All (λ c. is_ident_continue c ≡ true) bytes
    → let text = b ∷ (bytes ++ (32 ∷ rest)) in
      let c = at_ (39 ∷ text) line col in
      let (name, left) = run is_ident_continue text line (as_u32 (col + 1)) in
      lex_quote file c ≡ token (lifetime name) c left
unfolding lex_quote lifetime_at
lifetime_round file b bytes rest line col first others =
    choose_false (is_char_lit (b ∷ (bytes ++ (32 ∷ rest)))) _ _
      (name-no_char b bytes rest first others)
    ∙ if_false (is_ident_start b) _ _ first

pub lifetime-Lexes :
    (file : String) (name rest : List ℕ) → IsName name → Lexes file (lifetime name) (39 ∷ name) rest
unfolding lex_one is_ident_start is_digit
lifetime-Lexes file [] rest h = absurd h
lifetime-Lexes file (b ∷ bytes) rest (first, others) = (
  39,
  b ∷ bytes,
  refl,
  λ line col.
      let (taken, left) =
        run_over is_ident_continue (b ∷ bytes) 32 rest line (as_u32 (col + 1))
          (name_continues b first, others) blank_stops in
      (_, _, lifetime_round file b bytes rest line col first others, ap lifetime taken, left),
)
