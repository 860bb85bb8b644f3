-- ===== src/Prelude/Results.antt =====
-- Results, searches in a list, and loops that stop early.
use Prim.Native.Nat.{ℕ, zero, suc, ◌+◌, ◌<◌, ◌≤◌}
use mathlib.Core.Path.{◌≡◌, refl, sym, subst}
use mathlib.Core.Logic.{⊎_elim, ◌↔◌, ◌⊎◌, inl, inr}
use mathlib.Core.Bool.{Bool, true, false}
use mathlib.Core.Option.{Option, none, some}
use mathlib.Core.List.{List, [], ◌∷◌, Memᴰ}
use mathlib.Core.List.Memᴰ
use native.Mathlib.Omega.{arith}
use native.Mathlib.Decide.{dec_lt}
use pocket_rust.Prelude.Tests.{if◌then◌else◌, Bool-cases}

unfoldable pub unwrap_or {ℓ} : {A : Type ℓ} → Option A → A → A
unwrap_or none d = d
unwrap_or (some a) d = a

pub data Result {ℓ κ} (A : Type ℓ) (E : Type κ) : Type (ℓ ⊔ κ) where
  ok : A → Result A E
  err : E → Result A E

-- The `?` operator on a result without a value.
abbrev pub also {κ} : {E : Type κ} → Result (Unit {0}) E → Result (Unit {0}) E → Result (Unit {0}) E
also (ok u) rest = rest
also (err e) rest = err e

-- `while i < end { check(i)?; i += 1; }` with `rounds` rounds left.
unfoldable pub check_range {κ} :
    {E : Type κ} → ℕ → ℕ → (ℕ → Result (Unit {0}) E) → Result (Unit {0}) E
check_range zero i check = ok tt
check_range (suc rounds) i check = also (check i) (check_range rounds (i + 1) check)

abbrev is_ok {κ} : {E : Type κ} → Result (Unit {0}) E → Bool
is_ok (ok u) = true
is_ok (err e) = false

also-ok {κ} :
    {E : Type κ} (r s : Result (Unit {0}) E) → (also r s ≡ ok tt) ↔ ((r ≡ ok tt) × (s ≡ ok tt))
also-ok (ok tt) s = (λ h. (refl, h), λ h. h.1)
also-ok (err e) s = (λ h. absurd (cc), λ h. h.0)

also-err {κ} :
    {E : Type κ} (r s : Result (Unit {0}) E) (e : E) → also r s ≡ err e → (r ≡ err e) ⊎ (s ≡ err e)
also-err (ok u) s e h = inr h
also-err (err x) s e h = inl h

pub check_range-ok {κ} :
    {E : Type κ} (rounds i : ℕ) (check : ℕ → Result (Unit {0}) E)
    → (check_range rounds i check ≡ ok tt) ↔ ((j : ℕ) → i ≤ j → j < i + rounds → check j ≡ ok tt)
unfolding check_range
check_range-ok zero i check = (λ h j p q. absurd (omega arith), λ h. refl)
check_range-ok (suc rounds) i check =
    let both = also-ok (check i) (check_range rounds (i + 1) check) in
    let rest = check_range-ok rounds (i + 1) check in
    (
      λ h j p q. elim (dec_lt i j) [
        | yes later ↦ rest.0 (both.0 h).1 j (omega arith) (omega arith)
        | no now ↦ let e : i ≡ j = omega arith in subst (λ k. check k ≡ ok tt) e (both.0 h).0
      ],
      λ h.
          both.1
            (h i (omega arith) (omega arith), rest.1 (λ j p q. h j (omega arith) (omega arith))),
    )

pub check_range-err {κ} :
    {E : Type κ} (rounds i : ℕ) (check : ℕ → Result (Unit {0}) E) (e : E)
    → check_range rounds i check ≡ err e
    → (j : ℕ) × (j < i + rounds) × (check j ≡ err e)
unfolding check_range
check_range-err zero i check e h = absurd (cc)
check_range-err (suc rounds) i check e h =
    elim (also-err (check i) (check_range rounds (i + 1) check) e h) [
      | inl now ↦ (i, omega arith, now)
      | inr later ↦
          let (j, b, f) = check_range-err rounds (i + 1) check e later in (j, omega arith, f)
    ]

-- `iter().find(test)`
unfoldable pub find {ℓ} : {A : Type ℓ} → (A → Bool) → List A → Option A
find test [] = none
find test (x ∷ xs) = let rest = find test xs in if test x then some x else rest

pub find-some {ℓ} :
    {A : Type ℓ} (test : A → Bool) (xs : List A) (a : A)
    → find test xs ≡ some a
    → Memᴰ a xs × (test a ≡ true)
unfolding find
find-some test [] a h = absurd (cc)
find-some test (x ∷ xs) a h = elim (Bool-cases (test x)) [
  | inl e ↦
      let q : some x ≡ some a = subst (λ b. (if b then some x else find test xs) ≡ some a) e h in
      let q : x ≡ a = cc in (Memᴰ.head (sym q), subst (λ y. test y ≡ true) q e)
  | inr e ↦
      let q : find test xs ≡ some a =
        subst (λ b. (if b then some x else find test xs) ≡ some a) e h in
      let (m, t) = find-some test xs a q in (Memᴰ.tail m, t)
]

pub find-none {ℓ} :
    {A : Type ℓ} (test : A → Bool) (xs : List A)
    → find test xs ≡ none
    → (a : A) → Memᴰ a xs
    → test a ≡ false
unfolding find
find-none test [] h a m = absurd (Memᴰ.not-nil m)
find-none test (x ∷ xs) h a m = elim (Bool-cases (test x)) [
  | inl e ↦
      let q : some x ≡ none = subst (λ b. (if b then some x else find test xs) ≡ none) e h in
      absurd (cc)
  | inr e ↦
      let q : find test xs ≡ none = subst (λ b. (if b then some x else find test xs) ≡ none) e h in
      ⊎_elim (λ f. subst (λ y. test y ≡ false) (sym f) e) (λ l. find-none test xs q a l)
        (Memᴰ.cases_cons m)
]
