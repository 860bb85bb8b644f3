-- ===== src/Borrowck/Regions/Matrix.antt =====
-- Reads and writes of the square matrix that the solver fills.
use pocket_rust.Prelude.{
  ℕ, zero, suc, ◌<◌, ◌≡◌, ◌↔◌, ◌⊎◌, refl, ◌∙◌, true, false, [], length, get_or, set, replicate, All,
  All-get_or, All-set, All-replicate, get_or-set, get_or-replicate, length-set, length-replicate,
  arith,
}
use pocket_rust.Borrowck.Regions.{Matrix, at, mark}

pub record IsSquare (n : ℕ) (c : Matrix) : Type 0 where
  pub rows : length c ≡ n
  pub columns : All (λ row. length row ≡ n) c

pub IsSquare-blank : (n : ℕ) → IsSquare n (replicate n (replicate n false))
IsSquare-blank n = record {
  rows = length-replicate n (replicate n false);
  columns = All-replicate (λ row. length row ≡ n) n (replicate n false) (length-replicate n false);
}

row-length : {n : ℕ} {c : Matrix} → IsSquare n c → (a : ℕ) → a < n → length (get_or c a []) ≡ n
row-length {n} {c} sq a h =
    All-get_or (λ row. length row ≡ n) c a [] sq.columns (omega (arith, sq.rows))

pub IsSquare-mark : {n : ℕ} {c : Matrix} (a b : ℕ) → a < n → IsSquare n c → IsSquare n (mark c a b)
unfolding mark
IsSquare-mark {n} {c} a b h sq = record {
  rows = length-set c a (set (get_or c a []) b true) ∙ sq.rows;
  columns =
      All-set (λ row. length row ≡ n) c a (set (get_or c a []) b true) sq.columns
        (length-set (get_or c a []) b true ∙ row-length sq a h);
}

-- A write in bounds sets one entry and keeps the others.
pub at-mark :
    {n : ℕ} {c : Matrix} (a b x y : ℕ)
    → IsSquare n c
    → a < n
    → b < n
    → (at (mark c a b) x y ≡ true) ↔ ((at c x y ≡ true) ⊎ (x ≡ a) × (y ≡ b))
unfolding at mark
at-mark {n} {c} a b x y sq ha hb = ground (
  arith,
  get_or-set c a x (set (get_or c a []) b true) [],
  get_or-set (get_or c a []) b y true false,
  row-length sq a ha,
  sq.rows,
)

at-rows : (k n x y : ℕ) → at (replicate k (replicate n false)) x y ≡ false
unfolding at
at-rows zero n x y = refl
at-rows (suc k) n zero y = get_or-replicate n y false
at-rows (suc k) n (suc x) y = at-rows k n x y

pub at-blank : (n x y : ℕ) → at (replicate n (replicate n false)) x y ≡ false
at-blank n x y = at-rows n n x y
