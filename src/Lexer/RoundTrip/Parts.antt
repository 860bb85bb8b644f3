-- ===== src/Lexer/RoundTrip/Parts.antt =====
-- What it is that a text is lexed as a token.
use pocket_rust.Prelude.{◌≡◌, ℕ, some, ok, List, ◌∷◌, ◌++◌, String}
use pocket_rust.Lexer.Token.{TokenKind, Token}
use pocket_rust.Lexer.Cursor.{Cursor}
use pocket_rust.Lexer.Tokenize.{lex_one}
use pocket_rust.Lexer.Moves.{at_}

-- With a blank and any bytes behind it, the text is lexed as one token of the kind.
abbrev pub Lexes : String → TokenKind → List ℕ → List ℕ → Type 0
Lexes file k bytes rest =
    (b : ℕ) × (bs : List ℕ) × (bytes ≡ b ∷ bs)
    × ((line col : ℕ)
        → (t : Token) × (c : Cursor) × (lex_one file b (bs ++ (32 ∷ rest))
              (at_ (b ∷ (bs ++ (32 ∷ rest))) line col)
            ≡ ok (some t, c))
          × (t.kind ≡ k)
          × (c.rest ≡ 32 ∷ rest))
