-- ===== src/Lexer/RoundTrip/Strings.antt =====
-- String literals are read back.
use pocket_rust.Prelude.{
  choose_false, choose_true, ◌≡◌, refl, sym, ap, ◌∙◌, ◌+◌, ◌==◌, ◌||◌, ℕ, true, false, some, Result,
  ok, List, [], ◌∷◌, ◌++◌, append-nil, append_assoc, push, as_u32, String, arith,
}
use mathlib.Core.Path.{subst}
use native.Mathlib.Decide.{ℕ_discrete}
use pocket_rust.Span.{Pos, Error}
use pocket_rust.Lexer.Token.{Token, str_lit}
use pocket_rust.Lexer.Bytes.{is_ident_start}
use pocket_rust.Lexer.Cursor.{Cursor, position}
use pocket_rust.Lexer.Literal.{string_loop, escape}
use pocket_rust.Lexer.Tokenize.{string_token, lex_string, lex_one}
use pocket_rust.Lexer.Moves.{at_}
use pocket_rust.Lexer.Spelling.{spell_payload}
use pocket_rust.Lexer.RoundTrip.Parts.{Lexes}

-- What a literal is read to: the bytes, and a blank behind it.
abbrev Reads : Result (List ℕ × Cursor) Error → List ℕ → List ℕ → Type 0
Reads r payload rest = (c : Cursor) × (r ≡ ok (payload, c)) × (c.rest ≡ 32 ∷ rest)

-- A byte that is neither a quote nor a backslash stands for itself.
string_plain :
    (file : String) (start : Pos) (b e : ℕ) (rest : List ℕ) (line col : ℕ) (decoded : List ℕ)
    → (b == 34) ≡ false
    → (b == 92) ≡ false
    → (l : ℕ) × (k : ℕ) × (string_loop file start (b ∷ e ∷ rest) line col decoded
        ≡ string_loop file start (e ∷ rest) l k (push decoded b))
unfolding string_loop
string_plain file start b e rest line col decoded q s =
    let inside = choose_false (b == 34) _ _ q ∙ choose_false (b == 92) _ _ s in
    elim (ℕ_discrete b 10) [
      | yes p ↦ (
        _,
        _,
        inside
            ∙ choose_true (b == 10) _ _ (ground arith)
            ∙ ap (λ d. string_loop file start (e ∷ rest) (as_u32 (line + 1)) 1 (push decoded d))
                (sym p),
      )
      | no p ↦ (_, _, inside ∙ choose_false (b == 10) _ _ (ground arith))
    ]

-- The rest of the literal has a byte at least.
payload-some :
    (payload rest : List ℕ)
    → (e : ℕ) × (es : List ℕ) × (spell_payload payload ++ (34 ∷ 32 ∷ rest) ≡ e ∷ es)
unfolding spell_payload
payload-some [] rest = (_, _, refl)
payload-some (b ∷ bytes) rest =
    elim ((b == 34) || (b == 92))
      as (λ t.
        (e : ℕ) × (es : List ℕ) × ((elim t as (λ _. List ℕ) [
          | true ↦ 92 ∷ b ∷ spell_payload bytes
          | false ↦ b ∷ spell_payload bytes
        ])
            ++ (34 ∷ 32 ∷ rest)
          ≡ e ∷ es)) [ true ↦ (_, _, refl) | false ↦ (_, _, refl) ]

-- One byte of the payload, as it is spelled.
payload_round :
    (file : String) (start : Pos) (b : ℕ) (bytes rest : List ℕ) (line col : ℕ) (decoded : List ℕ)
    → (l : ℕ) × (k : ℕ) × (string_loop file start
          (spell_payload (b ∷ bytes) ++ (34 ∷ 32 ∷ rest))
          line
          col
          decoded
        ≡ string_loop file start (spell_payload bytes ++ (34 ∷ 32 ∷ rest)) l k (push decoded b))
unfolding spell_payload string_loop escape
payload_round file start b bytes rest line col decoded =
    let loop : List ℕ → Result (List ℕ × Cursor) Error =
      λ xs. string_loop file start (xs ++ (34 ∷ 32 ∷ rest)) line col decoded in
    let escaped : (b == 34) || (b == 92) ≡ true
        → loop (spell_payload (b ∷ bytes)) ≡ loop (92 ∷ b ∷ spell_payload bytes) =
      λ e. ap loop (choose_true ((b == 34) || (b == 92)) _ _ e) in
    elim (ℕ_discrete b 34) [
      | yes p ↦ (
        _,
        _,
        escaped (ground arith)
            ∙ subst
                (λ d.
                  loop (92 ∷ d ∷ spell_payload bytes)
                  ≡ string_loop file start (spell_payload bytes ++ (34 ∷ 32 ∷ rest)) line
                      (as_u32 (col + 2)) (push decoded d))
                (sym p) refl,
      )
      | no p ↦ elim (ℕ_discrete b 92) [
        | yes q ↦ (
          _,
          _,
          escaped (ground arith)
              ∙ subst
                  (λ d.
                    loop (92 ∷ d ∷ spell_payload bytes)
                    ≡ string_loop file start (spell_payload bytes ++ (34 ∷ 32 ∷ rest)) line
                        (as_u32 (col + 2)) (push decoded d))
                  (sym q) refl,
        )
        | no q ↦
            let (e, es, first) = payload-some bytes rest in
            let (l, k, step) =
              string_plain file start b e es line col decoded (ground arith) (ground arith) in
            (
              l,
              k,
              ap loop (choose_false ((b == 34) || (b == 92)) _ _ (ground arith))
                  ∙ ap (λ xs. string_loop file start (b ∷ xs) line col decoded) first
                  ∙ step
                  ∙ ap (λ xs. string_loop file start xs l k (push decoded b)) (sym first),
            )
      ]
    ]

payload-Reads :
    (file : String) (start : Pos) (payload rest : List ℕ) (line col : ℕ) (decoded : List ℕ)
    → Reads
        (string_loop file start (spell_payload payload ++ (34 ∷ 32 ∷ rest)) line col decoded)
        (decoded ++ payload)
        rest
unfolding spell_payload string_loop
payload-Reads file start [] rest line col decoded = (
  _,
  ap (λ xs. ok (xs, record { rest = 32 ∷ rest; line = line; col = as_u32 (col + 1) }))
      (sym (append-nil decoded)),
  refl,
)
payload-Reads file start (b ∷ bytes) rest line col decoded =
    let (l, k, step) = payload_round file start b bytes rest line col decoded in
    let (c, read, left) = payload-Reads file start bytes rest l k (push decoded b) in
    (c, step ∙ read ∙ ap (λ xs. ok (xs, c)) (append_assoc decoded (b ∷ []) bytes), left)

-- Behind the opening quote.
string_round :
    (file : String) (payload rest : List ℕ) (line col : ℕ)
    → let text = spell_payload payload ++ (34 ∷ 32 ∷ rest) in
      (t : Token) × (c : Cursor) × (lex_one file 34 text (at_ (34 ∷ text) line col)
        ≡ ok (some t, c))
      × (t.kind ≡ str_lit payload)
      × (c.rest ≡ 32 ∷ rest)
unfolding lex_one lex_string is_ident_start
string_round file payload rest line col =
    let start = position (at_ [] line col) in
    let (c, read, left) = payload-Reads file start payload rest line (as_u32 (col + 1)) [] in
    (
      _,
      c,
      ap (string_token (at_ (34 ∷ (spell_payload payload ++ (34 ∷ 32 ∷ rest))) line col)) read,
      refl,
      left,
    )

pub str_lit-Lexes :
    (file : String) (payload rest : List ℕ)
    → Lexes file (str_lit payload) (34 ∷ (spell_payload payload ++ (34 ∷ []))) rest
str_lit-Lexes file payload rest = (
  34,
  spell_payload payload ++ (34 ∷ []),
  refl,
  λ line col.
      subst
        (λ text.
          (t : Token) × (c : Cursor) × (lex_one file 34 text (at_ (34 ∷ text) line col)
            ≡ ok (some t, c))
          × (t.kind ≡ str_lit payload)
          × (c.rest ≡ 32 ∷ rest))
        (sym (append_assoc (spell_payload payload) (34 ∷ []) (32 ∷ rest)))
        (string_round file payload rest line col),
)
