-- ===== src/Typeck/Lifetimes/Elision/Refs.antt =====
-- The reference parameters of a function, counted.
use pocket_rust.Prelude.{
  ◌≡◌, inl, inr, refl, ◌+◌, ℕ, zero, suc, Bool, Option, none, some, List, [], ◌∷◌, Option-cases,
  arith, ap,
}
use mathlib.Core.Path.{subst, sym}
use pocket_rust.Typeck.Types.{RType}
use pocket_rust.Typeck.Lifetimes.Elision.{as_ref, ref_at, found_ref, count_refs}

abbrev add_ref : Option Bool → ℕ → ℕ
add_ref none n = n
add_ref (some mutable) n = suc n

-- The number of references among the parameters.
abbrev pub refs : List RType → ℕ
refs [] = 0
refs (t ∷ ts) = add_ref (as_ref t) (refs ts)

pub count_refs-refs :
    (ts : List RType) (i : ℕ) (source : Option ℕ) (count : ℕ)
    → (count_refs i ts (source, count)).1 ≡ count + refs ts
unfolding count_refs found_ref
count_refs-refs [] i source count = omega arith
count_refs-refs (t ∷ ts) i source count =
    elim (as_ref t)
      as (λ o.
        (count_refs (i + 1) ts (found_ref o i (source, count))).1 ≡ count + add_ref o (refs ts)) [
          | none ↦ count_refs-refs ts (i + 1) source count
          | some m ↦ omega (arith, count_refs-refs ts (i + 1) (some i) (count + 1))
        ]

-- The source that the loop has found.
abbrev pub source_of : ℕ → List RType → Option ℕ × ℕ → Option ℕ
source_of i ts found = (count_refs i ts found).0

-- No reference among the parameters: the source found before stays.
no_refs :
    (ts : List RType) (i : ℕ) (found : Option ℕ × ℕ)
    → refs ts ≡ 0
    → (source_of i ts found ≡ found.0) × ((k : ℕ) → ref_at ts k ≡ none)
unfolding count_refs ref_at found_ref
no_refs [] i found h = (refl, λ k. refl)
no_refs (t ∷ ts) i found h = elim (Option-cases (as_ref t)) [
  | inl e ↦
      let h' : refs ts ≡ 0 = subst (λ o. add_ref o (refs ts) ≡ 0) e h in
      let (f, g) = no_refs ts (i + 1) found h' in
      (
        subst (λ o. source_of (i + 1) ts (found_ref o i found) ≡ found.0) (sym e) f,
        λ k. elim k as (λ k. ref_at (t ∷ ts) k ≡ none) [ zero ↦ e | suc k' ↦ g k' ],
      )
  | inr (m, e) ↦
      let h' : suc (refs ts) ≡ 0 = subst (λ o. add_ref o (refs ts) ≡ 0) e h in absurd (omega arith)
]

-- The parameter `j` is the only reference.
abbrev pub Only : List RType → ℕ → Bool → Type 0
Only ts j m = (ref_at ts j ≡ some m) × ((k : ℕ) (m' : Bool) → ref_at ts k ≡ some m' → k ≡ j)

no_ref : (ts : List RType) → ((k : ℕ) (m : Bool) → ref_at ts k ≡ some m → ⊥) → refs ts ≡ 0
unfolding ref_at
no_ref [] h = refl
no_ref (t ∷ ts) h = elim (Option-cases (as_ref t)) [
  | inl e ↦ rw e (no_ref ts (λ k m r. h (suc k) m r))
  | inr (m, e) ↦ absurd (h zero m e)
]

pub Only-refs : (ts : List RType) (j : ℕ) (m : Bool) → Only ts j m → refs ts ≡ 1
unfolding ref_at
Only-refs [] j m h = let r = h.0 in absurd (cc)
Only-refs (t ∷ ts) zero m h =
    let z = no_ref ts (λ k m' r. let q = h.1 (suc k) m' r in absurd (omega arith)) in
    rw (h.0) (ap suc z)
Only-refs (t ∷ ts) (suc j) m h = elim (Option-cases (as_ref t)) [
  | inl e ↦ rw e (Only-refs ts j m (h.0, λ k m' r. let q = h.1 (suc k) m' r in omega arith))
  | inr (m', e) ↦ let q = h.1 zero m' e in absurd (omega arith)
]

Only-here :
    (t : RType) (ts : List RType) (m : Bool)
    → as_ref t ≡ some m
    → ((k : ℕ) → ref_at ts k ≡ none)
    → Only (t ∷ ts) zero m
unfolding ref_at
Only-here t ts m e g = (
  e,
  λ k m'. elim k as (λ k. ref_at (t ∷ ts) k ≡ some m' → k ≡ zero) [
    | zero ↦ λ r. refl
    | suc k' ↦ λ r. let n = g k' in absurd (cc)
  ],
)

Only-there :
    (t : RType) (ts : List RType) (j : ℕ) (m : Bool)
    → as_ref t ≡ none
    → Only ts j m
    → Only (t ∷ ts) (suc j) m
unfolding ref_at
Only-there t ts j m e only = (
  only.0,
  λ k m'. elim k as (λ k. ref_at (t ∷ ts) k ≡ some m' → k ≡ suc j) [
    | zero ↦ λ r. absurd (cc)
    | suc k' ↦ λ r. ap suc (only.1 k' m' r)
  ],
)

pub one_ref :
    (ts : List RType) (i : ℕ) (found : Option ℕ × ℕ)
    → refs ts ≡ 1
    → (j : ℕ) × (m : Bool) × Only ts j m × (source_of i ts found ≡ some (i + j))
unfolding count_refs found_ref
one_ref [] i found h = absurd (omega arith)
one_ref (t ∷ ts) i found h = elim (Option-cases (as_ref t)) [
  | inl e ↦
      let h' : refs ts ≡ 1 = subst (λ o. add_ref o (refs ts) ≡ 1) e h in
      let (j, m, only, f) = one_ref ts (i + 1) found h' in
      let c : i + 1 + j ≡ i + suc j = omega arith in
      let f' = subst (λ n. source_of (i + 1) ts found ≡ some n) c f in
      (
        suc j,
        m,
        Only-there t ts j m e only,
        subst (λ o. source_of (i + 1) ts (found_ref o i found) ≡ some (i + suc j)) (sym e) f',
      )
  | inr (m, e) ↦
      let h' : suc (refs ts) ≡ 1 = subst (λ o. add_ref o (refs ts) ≡ 1) e h in
      let (f, g) = no_refs ts (i + 1) (some i, found.1 + 1) (omega arith) in
      let c : i ≡ i + zero = omega arith in
      let f' = subst (λ n. source_of (i + 1) ts (some i, found.1 + 1) ≡ some n) c f in
      (
        zero,
        m,
        Only-here t ts m e g,
        subst (λ o. source_of (i + 1) ts (found_ref o i found) ≡ some (i + zero)) (sym e) f',
      )
]
