-- ===== src/Lexer/Order.antt =====
-- tokenize comes to an end, with tokens in the order of the source.
use pocket_rust.Prelude.{
  ◌≡◌, ◌⊎◌, inl, inr, refl, sym, ◌∙◌, ◌+◌, ◌≤◌, ◌<◌, ◌^◌, ℕ, zero, suc, Option, some, Result, ok,
  err, List, [], ◌∷◌, ◌++◌, length, push, String, append-nil, append_assoc, arith,
}
use mathlib.Core.Logic.{⊎_elim}
use mathlib.Core.Path.{subst}
use pocket_rust.Span.{Pos, Error}
use pocket_rust.Lexer.Token.{Token}
use pocket_rust.Lexer.Cursor.{Cursor, position}
use pocket_rust.Lexer.Tokenize.{Lexed, lex_one, add_token, token_loop, tokenize}
use pocket_rust.Lexer.Moves.{at_, Fits, Moves-Fits}
use pocket_rust.Lexer.Rounds.{Round, skipped, lexed, refused}
use pocket_rust.Lexer.Rounds.Signs.{lex_one-Round}

-- The second position does not stand before the first.
abbrev pub Upto : Pos → Pos → Type 0
Upto p q = (p.line < q.line) ⊎ ((p.line ≡ q.line) × (p.col ≤ q.col))

Upto-then : (p q r : Pos) → Upto p q → Upto q r → Upto p r
Upto-then p q r a b =
    ⊎_elim (λ l. inl (⊎_elim (λ m. omega arith) (λ m. omega (arith, m.0)) b))
      (λ l.
        ⊎_elim (λ m. inl (omega (arith, l.0)))
          (λ m. inr (omega (arith, l.0, m.0), omega (arith, l.1, m.1))) b)
      a

-- From the position on, each token begins where the one before it ends or later, and does not end
-- before it begins.
abbrev pub InOrder : Pos → List Token → Type 0
InOrder p [] = Unit
InOrder p (t ∷ ts) = Upto p t.span.start × Upto t.span.start t.span.end × InOrder t.span.end ts

InOrder-from : (p q : Pos) (ts : List Token) → Upto p q → InOrder q ts → InOrder p ts
InOrder-from p q [] a h = tt
InOrder-from p q (t ∷ ts) a (b, w, rest) = (Upto-then p q t.span.start a b, w, rest)

-- The loop returns an error, or the tokens so far and further ones in order.
abbrev Continues : Pos → List Token → Result (List Token) Error → Type 0
Continues p tokens (err e) = Unit
Continues p tokens (ok out) = (more : List Token) × (out ≡ tokens ++ more) × InOrder p more

abbrev Returns : Pos → List Token → Option (Result (List Token) Error) → Type 0
Returns p tokens answer = (r : Result (List Token) Error) × (answer ≡ some r) × Continues p tokens r

Continues-from :
    (p q : Pos) (tokens : List Token) (r : Result (List Token) Error)
    → Upto p q
    → Continues q tokens r
    → Continues p tokens r
Continues-from p q tokens (err e) a h = tt
Continues-from p q tokens (ok out) a (more, e, h) = (more, e, InOrder-from p q more a h)

Continues-token :
    (p : Pos) (t : Token) (tokens : List Token) (r : Result (List Token) Error)
    → Upto p t.span.start
    → Upto t.span.start t.span.end
    → Continues t.span.end (push tokens t) r
    → Continues p tokens r
Continues-token p t tokens (err e) a b h = tt
Continues-token p t tokens (ok out) a b (more, e, h) =
    (t ∷ more, e ∙ append_assoc tokens (t ∷ []) more, (a, b, h))

-- The rest of the loop, behind a round.
Round-Returns :
    (file : String) (fuel : ℕ) (c : Cursor) (tokens : List Token) (r : Lexed)
    → ((rest : List ℕ) (line col : ℕ) (tokens : List Token)
        → length rest ≤ fuel
        → Fits (at_ rest line col)
        → Returns
            (record { line = line; col = col })
            tokens
            (token_loop fuel file rest line col tokens))
    → length c.rest ≤ suc fuel
    → Fits c
    → Round c r
    → Returns (position c) tokens (elim r as (λ _. Option (Result (List Token) Error)) [
      | err e ↦ some (err e)
      | ok (t, d) ↦ token_loop fuel file d.rest d.line d.col (add_token tokens t)
    ])
Round-Returns file fuel c tokens r again h f (skipped {d = d} s) =
    let (out, e, more) =
      again d.rest d.line d.col tokens (omega (arith, s.less, h)) (Moves-Fits c d f s.moves) in
    (out, e, Continues-from (position c) (position d) tokens out s.moves.order more)
Round-Returns file fuel c tokens r again h f (lexed {d = d} {t = t} s e) =
    let (out, g, more) =
      again d.rest d.line d.col (push tokens t) (omega (arith, s.less, h))
        (Moves-Fits c d f s.moves) in
    (
      out,
      g,
      Continues-token (position c) t tokens out
          (subst (λ x. Upto (position c) x.start) (sym e) (inr (refl, omega arith)))
          (subst (λ x. Upto x.start x.end) (sym e) s.moves.order)
          (subst (λ x. Continues x.end (push tokens t) out) (sym e) more),
    )
Round-Returns file fuel c tokens r again h f (refused {e = e}) = (err e, refl, tt)

token_loop-Returns :
    (file : String) (fuel : ℕ) (rest : List ℕ) (line col : ℕ) (tokens : List Token)
    → length rest ≤ fuel
    → Fits (at_ rest line col)
    → Returns (record { line = line; col = col }) tokens (token_loop fuel file rest line col tokens)
unfolding token_loop
token_loop-Returns file fuel [] line col tokens h f =
    (ok tokens, refl, ([], sym (append-nil tokens), tt))
token_loop-Returns file zero (b ∷ bytes) line col tokens h f = absurd (omega arith)
token_loop-Returns file (suc fuel) (b ∷ bytes) line col tokens h f =
    Round-Returns file fuel (at_ (b ∷ bytes) line col) tokens
      (lex_one file b bytes (at_ (b ∷ bytes) line col)) (token_loop-Returns file fuel) h f
      (lex_one-Round file b bytes line col f)

-- An error, or tokens in order.
abbrev pub Orderly : Result (List Token) Error → Type 0
Orderly (err e) = Unit
Orderly (ok tokens) = InOrder (record { line = 1; col = 1 }) tokens

-- On a source of fewer than 2 ^ 32 - 2 bytes tokenize returns, with an error or with tokens each of which begins
-- where the one before it ends or later, and ends where it begins or later.
pub tokenize-Orderly :
    (file : String) (source : List ℕ)
    → length source + 2 < 2 ^ 32
    → (r : Result (List Token) Error) × (tokenize file source ≡ some r) × Orderly r
unfolding tokenize
tokenize-Orderly file source h =
    let (r, e, more) =
      token_loop-Returns file (length source) source 1 1 [] (omega arith)
        (omega arith, omega arith) in
    (r, e, ends r more)
  where
    ends :
        (r : Result (List Token) Error) → Continues (record { line = 1; col = 1 }) [] r → Orderly r
    ends (err e) more = tt
    ends (ok out) (more, e, h) = subst (λ ts. InOrder (record { line = 1; col = 1 }) ts) (sym e) h
