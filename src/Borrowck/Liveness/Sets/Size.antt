-- ===== src/Borrowck/Liveness/Sets/Size.antt =====
-- How many elements a sorted list has.
use pocket_rust.Prelude.{
  ℕ, suc, ◌+◌, ◌<◌, ◌≤◌, ◌≡◌, ◌⊎◌, inl, inr, refl, sym, ap, ◌∙◌, true, List, [], ◌∷◌, length, All,
  arith,
}
use mathlib.Core.Logic.{⊎_elim}
use native.Mathlib.Decide.{dec_lt}
use pocket_rust.Borrowck.Liveness.Sets.Sorted.{IsSorted, member, member-below}

member_first : (x : ℕ) (xs : List ℕ) → member (x ∷ xs) x ≡ true
member_first x xs = ground arith

-- No element of a list is at or below a lower bound.
above : (xs : List ℕ) (x m : ℕ) → All (λ y. x < y) xs → member xs m ≡ true → x < m
above xs x m h p = elim (dec_lt x m) [
  | yes lt ↦ lt
  | no below ↦ let q = member-below xs x m h (omega arith) in absurd (cc)
]

member_later : (x m : ℕ) (xs : List ℕ) → x < m → member (x ∷ xs) m ≡ member xs m
member_later x m xs h = ground arith

tail_below :
    (xs : List ℕ) (k bound : ℕ)
    → IsSorted xs
    → All (λ y. k ≤ y) xs
    → k ≤ bound
    → ((m : ℕ) → member xs m ≡ true → m < bound)
    → length xs + k ≤ bound
tail_below [] k bound h low le f = omega arith
tail_below (x ∷ xs) k bound h low le f =
    let lt = f x (member_first x xs) in
    let rest =
      tail_below xs (suc x) bound h.1 (raise xs h.0) (omega arith)
        (λ m p. f m (member_later x m xs (above xs x m h.0 p) ∙ p)) in
    omega (arith, rest, low.0)
  where
    raise : (ys : List ℕ) → All (λ y. x < y) ys → All (λ y. suc x ≤ y) ys
    raise [] h = tt
    raise (y ∷ ys) h = (omega (arith, h.0), raise ys h.1)

-- A sorted list of numbers below a bound is no longer than the bound.
pub length-below :
    (xs : List ℕ) (bound : ℕ)
    → IsSorted xs
    → ((m : ℕ) → member xs m ≡ true → m < bound)
    → length xs ≤ bound
length-below xs bound h f = omega (arith, tail_below xs 0 bound h (all xs) (omega arith) f)
  where
    all : (ys : List ℕ) → All (λ y. 0 ≤ y) ys
    all [] = tt
    all (y ∷ ys) = (omega arith, all ys)

-- A sorted list that has all elements of another one is the same list or a longer one.
pub length-grows :
    (xs ys : List ℕ)
    → IsSorted xs
    → IsSorted ys
    → ((m : ℕ) → member xs m ≡ true → member ys m ≡ true)
    → (xs ≡ ys) ⊎ (length xs < length ys)
length-grows [] [] h k f = inl refl
length-grows [] (y ∷ ys) h k f = inr (omega arith)
length-grows (x ∷ xs) [] h k f = let p = f x (member_first x xs) in absurd (cc)
length-grows (x ∷ xs) (y ∷ ys) h k f =
    let p = f x (member_first x xs) in
    let place : (x ≡ y) ⊎ (y < x) = ground arith in
    ⊎_elim
      (λ e.
        ⊎_elim (λ q. inl (ap (λ z. z ∷ xs) e ∙ ap (λ zs. y ∷ zs) q)) (λ q. inr (omega arith))
          (length-grows xs ys h.1 k.1 (λ m q.
            let lt = above xs x m h.0 q in
            sym (member_later y m ys (omega arith)) ∙ f m (member_later x m xs lt ∙ q))))
      (λ lt.
        ⊎_elim (λ q. let r = ap length q in inr (omega (arith, r))) (λ q. inr (omega arith))
          (length-grows (x ∷ xs) ys h k.1 (λ m q.
            let low : x ≤ m = at_least m q in sym (member_later y m ys (omega arith)) ∙ f m q)))
      place
  where
    at_least : (m : ℕ) → member (x ∷ xs) m ≡ true → x ≤ m
    at_least m q = ground (arith, above xs x m h.0)
