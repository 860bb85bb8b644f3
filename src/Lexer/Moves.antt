-- ===== src/Lexer/Moves.antt =====
-- Cursors go on: what is left of the source shrinks and the position does not go back.
use pocket_rust.Prelude.{
  ◌≡◌, ◌⊎◌, inl, inr, refl, ◌+◌, ◌-◌, ◌≤◌, ◌<◌, ◌^◌, ◌==◌, ◌&&◌, ℕ, zero, suc, Bool, true, false,
  Option, none, some, Result, ok, err, List, [], ◌∷◌, length, drop, push, as_u32, String, arith,
}
use mathlib.Core.Logic.{⊎_elim}
use pocket_rust.Span.{Pos, Error}
use pocket_rust.Lexer.Cursor.{Cursor, skip, next_line, run, comment_loop}
use pocket_rust.Lexer.Literal.{string_loop, escape}

abbrev pub at_ : List ℕ → ℕ → ℕ → Cursor
at_ rest line col = record { rest = rest; line = line; col = col }

-- No number of a position wraps, from the cursor to the end of the source.
abbrev pub Fits : Cursor → Type 0
Fits c = (c.line + c.col + length c.rest < 2 ^ 32) × (1 ≤ c.col)

-- The position does not go back.
abbrev pub NotBefore : Cursor → Cursor → Type 0
NotBefore a b = (a.line < b.line) ⊎ ((a.line ≡ b.line) × (a.col ≤ b.col))

pub record Moves (a b : Cursor) : Type 0 where
  pub shorter : length b.rest ≤ length a.rest
  pub size : b.line + b.col + length b.rest ≤ a.line + a.col + length a.rest
  pub in_line : 1 ≤ b.col
  pub order : NotBefore a b

pub Moves-Fits : (a b : Cursor) → Fits a → Moves a b → Fits b
Moves-Fits a b f m = (omega (arith, f.0, m.size), m.in_line)

pub Moves-here : (a : Cursor) → Fits a → Moves a a
Moves-here a f = record {
  shorter = omega arith;
  size = omega arith;
  in_line = f.1;
  order = inr (refl, omega arith);
}

NotBefore-then : (a b c : Cursor) → NotBefore a b → NotBefore b c → NotBefore a c
NotBefore-then a b c p q =
    ⊎_elim (λ l. inl (⊎_elim (λ m. omega arith) (λ m. omega (arith, m.0)) q))
      (λ l.
        ⊎_elim (λ m. inl (omega (arith, l.0)))
          (λ m. inr (omega (arith, l.0, m.0), omega (arith, l.1, m.1))) q)
      p

pub Moves-then : (a b c : Cursor) → Moves a b → Moves b c → Moves a c
Moves-then a b c m n = record {
  shorter = omega (arith, m.shorter, n.shorter);
  size = omega (arith, m.size, n.size);
  in_line = n.in_line;
  order = NotBefore-then a b c m.order n.order;
}

pub length-drop : (n : ℕ) (xs : List ℕ) → length (drop n xs) ≡ length xs - n
length-drop zero xs = omega arith
length-drop (suc n) [] = omega arith
length-drop (suc n) (x ∷ xs) = omega (arith, length-drop n xs)

pub as_u32_small : (n : ℕ) → n < 2 ^ 32 → as_u32 n ≡ n
as_u32_small n h = omega arith

-- Along the line, past `n` bytes.
pub Moves-along :
    (c : Cursor) (rest : List ℕ) (n width : ℕ)
    → Fits c
    → length rest + n ≡ length c.rest
    → width ≤ n
    → Moves c (at_ rest c.line (as_u32 (c.col + width)))
Moves-along c rest n width f e w =
    let s = as_u32_small (c.col + width) (omega (arith, f.0, e)) in
    record {
      shorter = omega (arith, e);
      size = omega (arith, s, e);
      in_line = omega (arith, s, f.1);
      order = inr (refl, omega (arith, s));
    }

pub Moves-skip :
    (c : Cursor) (n width : ℕ) → Fits c → n ≤ length c.rest → width ≤ n → Moves c (skip n width c)
Moves-skip c n width f h w =
    Moves-along c (drop n c.rest) n width f (omega (arith, length-drop n c.rest)) w

-- To the next line, past one byte.
pub Moves-line :
    (c : Cursor) (rest : List ℕ)
    → Fits c
    → suc (length rest) ≡ length c.rest
    → Moves c (next_line rest c.line)
Moves-line c rest f e =
    let s = as_u32_small (c.line + 1) (omega (arith, f.0, f.1)) in
    record {
      shorter = omega (arith, e);
      size = omega (arith, s, e, f.1);
      in_line = omega arith;
      order = inl (omega (arith, s));
    }

pub run-Moves :
    (test : ℕ → Bool) (bytes : List ℕ) (line col : ℕ)
    → Fits (at_ bytes line col)
    → Moves (at_ bytes line col) (run test bytes line col).1
unfolding run
run-Moves test [] line col f = Moves-here (at_ [] line col) f
run-Moves test (b ∷ bytes) line col f =
    let next = at_ bytes line (as_u32 (col + 1)) in
    let first = Moves-along (at_ (b ∷ bytes) line col) bytes 1 1 f (omega arith) (omega arith) in
    let rest = run-Moves test bytes line (as_u32 (col + 1)) (Moves-Fits _ next f first) in
    elim (test b)
      as (λ t.
        Moves (at_ (b ∷ bytes) line col)
          (elim t as (λ x. List ℕ × Cursor) [
            | true ↦ let (taken, c) = run test bytes line (as_u32 (col + 1)) in (b ∷ taken, c)
            | false ↦ ([], at_ (b ∷ bytes) line col)
          ]).1) [
            | true ↦
                Moves-then (at_ (b ∷ bytes) line col) next
                  (run test bytes line (as_u32 (col + 1))).1 first rest
            | false ↦ Moves-here (at_ (b ∷ bytes) line col) f
          ]

-- What holds of both branches holds of the choice.
pub choose {ℓ κ} :
    {A : Type ℓ} (P : A → Type κ) (t : Bool) (x y : A)
    → P x
    → P y
    → P (elim t [ true ↦ x | false ↦ y ])
choose P true x y p q = p
choose P false x y p q = q

pub choose_option {ℓ κ μ} :
    {V : Type ℓ} {A : Type κ} (P : A → Type μ) (o : Option V) (f : V → A) (y : A)
    → ((v : V) → P (f v))
    → P y
    → P (elim o [ some v ↦ f v | none ↦ y ])
choose_option P none f y p q = q
choose_option P (some v) f y p q = p v

pub comment_loop-Moves :
    (rest : List ℕ) (line col depth : ℕ)
    → Fits (at_ rest line col)
    → Moves (at_ rest line col) (comment_loop rest line col depth).1
unfolding comment_loop
comment_loop-Moves rest line col zero f = Moves-here (at_ rest line col) f
comment_loop-Moves [] line col (suc depth) f = Moves-here (at_ [] line col) f
comment_loop-Moves (a ∷ []) line col (suc depth) f =
    let c = at_ (a ∷ []) line col in
    choose {A = ℕ × Cursor} (λ r. Moves c r.1) (a == 10) _ _ (Moves-line c [] f (omega arith))
      (Moves-along c [] 1 1 f (omega arith) (omega arith))
comment_loop-Moves (a ∷ b ∷ rest) line col (suc depth) f =
    let c = at_ (a ∷ b ∷ rest) line col in
    let two = Moves-along c rest 2 2 f (omega arith) (omega arith) in
    let one = Moves-along c (b ∷ rest) 1 1 f (omega arith) (omega arith) in
    let down = Moves-line c (b ∷ rest) f (omega arith) in
    let behind = at_ rest line (as_u32 (col + 2)) in
    let along = at_ (b ∷ rest) line (as_u32 (col + 1)) in
    let below = next_line (b ∷ rest) line in
    choose {A = ℕ × Cursor} (λ r. Moves c r.1) ((a == 47) && (b == 42)) _ _
      (Moves-then c behind _ two (
        comment_loop-Moves rest line (as_u32 (col + 2)) (suc (suc depth))
          (Moves-Fits c behind f two)))
      (choose {A = ℕ × Cursor} (λ r. Moves c r.1) ((a == 42) && (b == 47)) _ _
        (Moves-then c behind _ two
          (comment_loop-Moves rest line (as_u32 (col + 2)) depth (Moves-Fits c behind f two)))
        (choose {A = ℕ × Cursor} (λ r. Moves c r.1) (a == 10) _ _
          (Moves-then c below _ down (
            comment_loop-Moves (b ∷ rest) (as_u32 (line + 1)) 1 (suc depth)
              (Moves-Fits c below f down)))
          (Moves-then c along _ one (
            comment_loop-Moves (b ∷ rest) line (as_u32 (col + 1)) (suc depth)
              (Moves-Fits c along f one)))))

-- A result that is an error, or a value with a cursor that is moved on.
pub data OkMoves {A : Type 0} (c : Cursor) : Result (A × Cursor) Error → Type 0 where
  moved : {a : A} {d : Cursor} → Moves c d → OkMoves c (ok (a, d))
  failed : {e : Error} → OkMoves c (err e)

pub OkMoves-then :
    {A : Type 0} (c d : Cursor) (r : Result (A × Cursor) Error)
    → Moves c d
    → OkMoves d r
    → OkMoves c r
OkMoves-then c d r m (moved {d = e} n) = moved (Moves-then c d e m n)
OkMoves-then c d r m failed = failed

pub string_loop-Moves :
    (file : String) (start : Pos) (rest : List ℕ) (line col : ℕ) (decoded : List ℕ)
    → Fits (at_ rest line col)
    → OkMoves (at_ rest line col) (string_loop file start rest line col decoded)
unfolding string_loop
string_loop-Moves file start [] line col decoded f = failed
string_loop-Moves file start (b ∷ []) line col decoded f =
    let c = at_ (b ∷ []) line col in
    choose {A = Result (List ℕ × Cursor) Error} (λ r. OkMoves c r) (b == 34) _ _
      (moved (Moves-along c [] 1 1 f (omega arith) (omega arith)))
      (choose {A = Result (List ℕ × Cursor) Error} (λ r. OkMoves c r) (b == 92) _ _ failed
        (choose {A = Result (List ℕ × Cursor) Error} (λ r. OkMoves c r) (b == 10) _ _ failed
          failed))
string_loop-Moves file start (b ∷ e ∷ rest) line col decoded f =
    let c = at_ (b ∷ e ∷ rest) line col in
    let two = Moves-along c rest 2 2 f (omega arith) (omega arith) in
    let one = Moves-along c (e ∷ rest) 1 1 f (omega arith) (omega arith) in
    let down = Moves-line c (e ∷ rest) f (omega arith) in
    let behind = at_ rest line (as_u32 (col + 2)) in
    let along = at_ (e ∷ rest) line (as_u32 (col + 1)) in
    let below = next_line (e ∷ rest) line in
    choose {A = Result (List ℕ × Cursor) Error} (λ r. OkMoves c r) (b == 34) _ _ (moved one)
      (choose {A = Result (List ℕ × Cursor) Error} (λ r. OkMoves c r) (b == 92) _ _
        (choose_option {A = Result (List ℕ × Cursor) Error} (λ r. OkMoves c r) (escape e) _ _
          (λ resolved. OkMoves-then c behind _ two (
            string_loop-Moves file start rest line (as_u32 (col + 2)) (push decoded resolved)
              (Moves-Fits c behind f two)))
          failed)
        (choose {A = Result (List ℕ × Cursor) Error} (λ r. OkMoves c r) (b == 10) _ _
          (OkMoves-then c below _ down (
            string_loop-Moves file start (e ∷ rest) (as_u32 (line + 1)) 1 (push decoded 10)
              (Moves-Fits c below f down)))
          (OkMoves-then c along _ one (
            string_loop-Moves file start (e ∷ rest) line (as_u32 (col + 1)) (push decoded b)
              (Moves-Fits c along f one)))))
