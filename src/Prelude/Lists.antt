-- ===== src/Prelude/Lists.antt =====
-- Lists measured and indexed by native numbers, under the library's names.
use Prim.Native.Nat.{◌<◌, ◌≤◌, ℕ, zero, suc, ◌+◌, ◌%◌, ◌^◌}
use mathlib.Core.Path.{◌≡◌, refl, ap, sym, subst}
use mathlib.Core.Logic.{⊎_elim, ◌↔◌, ◌⊎◌, inl, inr}
use mathlib.Core.List.{List, [], ◌∷◌, ◌++◌, Memᴰ}
use mathlib.Core.List.Memᴰ
use mathlib.Core.Bool.{Bool, true, false}
use mathlib.Core.Option.{Option, none, some}
use pocket_rust.Prelude.Tests.{◌==◌, if◌then◌else◌}
use native.Mathlib.Omega.{arith}
use native.Mathlib.Decide.{ℕ_discrete}

module _ {ℓ} {A : Type ℓ} where
  abbrev pub length : List A → ℕ
  length [] = 0
  length (x ∷ xs) = suc (length xs)

  abbrev pub get_elem? : List A → ℕ → Option A
  get_elem? [] i = none
  get_elem? (x ∷ xs) zero = some x
  get_elem? (x ∷ xs) (suc i) = get_elem? xs i

  abbrev pub get_or : List A → ℕ → A → A
  get_or [] i d = d
  get_or (x ∷ xs) zero d = x
  get_or (x ∷ xs) (suc i) d = get_or xs i d

  abbrev pub set : List A → ℕ → A → List A
  set [] i v = []
  set (x ∷ xs) zero v = v ∷ xs
  set (x ∷ xs) (suc i) v = x ∷ set xs i v

  abbrev pub replicate : ℕ → A → List A
  replicate zero a = []
  replicate (suc n) a = a ∷ replicate n a

  abbrev pub All {κ} : (A → Type κ) → List A → Type κ
  All P [] = Unit {κ}
  All P (x ∷ xs) = P x × All P xs

  abbrev pub drop : ℕ → List A → List A
  drop zero xs = xs
  drop (suc n) [] = []
  drop (suc n) (x ∷ xs) = drop n xs

  -- `Vec::insert`
  abbrev pub insert_at : List A → ℕ → A → List A
  insert_at xs zero v = v ∷ xs
  insert_at [] (suc i) v = []
  insert_at (x ∷ xs) (suc i) v = x ∷ insert_at xs i v

  -- `Vec::remove`
  abbrev pub remove_at : List A → ℕ → List A
  remove_at [] i = []
  remove_at (x ∷ xs) zero = xs
  remove_at (x ∷ xs) (suc i) = x ∷ remove_at xs i

  abbrev pub is_empty : List A → Bool
  is_empty [] = true
  is_empty (x ∷ xs) = false

  -- `Vec::retain`
  abbrev pub retain : (A → Bool) → List A → List A
  retain test [] = []
  retain test (x ∷ xs) = let rest = retain test xs in if test x then x ∷ rest else rest

  -- `iter().any`
  abbrev pub any : (A → Bool) → List A → Bool
  any test [] = false
  any test (x ∷ xs) = let rest = any test xs in if test x then true else rest

  -- `Vec::push`
  abbrev pub push : List A → A → List A
  push out b = out ++ (b ∷ [])

  pub length-append : (xs ys : List A) → length (xs ++ ys) ≡ length xs + length ys
  length-append [] ys = omega arith
  length-append (x ∷ xs) ys = omega (arith, length-append xs ys)

  pub length-set : (xs : List A) (i : ℕ) (v : A) → length (set xs i v) ≡ length xs
  length-set [] i v = refl
  length-set (x ∷ xs) zero v = refl
  length-set (x ∷ xs) (suc i) v = ap suc (length-set xs i v)

  pub set_beyond : (xs : List A) (i : ℕ) (v : A) → length xs ≤ i → set xs i v ≡ xs
  set_beyond [] i v h = refl
  set_beyond (x ∷ xs) zero v h = absurd (omega arith)
  set_beyond (x ∷ xs) (suc i) v h = ap (λ ys. x ∷ ys) (set_beyond xs i v (omega arith))

  pub get_or-set :
      (xs : List A) (i j : ℕ) (v d : A)
      → i < length xs
      → get_or (set xs i v) j d ≡ (if i == j then v else get_or xs j d)
  get_or-set [] i j v d h = absurd (omega arith)
  get_or-set (x ∷ xs) zero zero v d h = ground arith
  get_or-set (x ∷ xs) zero (suc j) v d h = ground arith
  get_or-set (x ∷ xs) (suc i) zero v d h = ground arith
  get_or-set (x ∷ xs) (suc i) (suc j) v d h = ground (arith, get_or-set xs i j v d)

  -- A property of what stands where, after a write in bounds.
  pub get_or-set_cases {κ} :
      (P : ℕ → A → Type κ) (xs : List A) (i : ℕ) (v d : A)
      → i < length xs
      → P i v
      → ((j : ℕ) → (i ≡ j → ⊥) → P j (get_or xs j d))
      → (j : ℕ) → P j (get_or (set xs i v) j d)
  get_or-set_cases P xs i v d h p others j =
      let e = get_or-set xs i j v d h in
      elim (ℕ_discrete i j) [
        | yes same ↦
            let f : get_or (set xs i v) j d ≡ v = ground (arith, e) in
            subst (λ a. P j a) (sym f) (subst (λ k. P k v) same p)
        | no other ↦
            let f : get_or (set xs i v) j d ≡ get_or xs j d = ground (arith, e) in
            subst (λ a. P j a) (sym f) (others j other)
      ]

  pub get_or-set_same :
      (xs : List A) (i : ℕ) (v d : A) → i < length xs → get_or (set xs i v) i d ≡ v
  get_or-set_same xs i v d h = ground (arith, get_or-set xs i i v d h)

  pub get_or-set_other :
      (xs : List A) (i j : ℕ) (v d : A)
      → i < length xs
      → (i ≡ j → ⊥)
      → get_or (set xs i v) j d ≡ get_or xs j d
  get_or-set_other xs i j v d h other = ground (arith, get_or-set xs i j v d h)

  pub get_or-beyond : (xs : List A) (i : ℕ) (d : A) → length xs ≤ i → get_or xs i d ≡ d
  get_or-beyond [] i d h = refl
  get_or-beyond (x ∷ xs) zero d h = absurd (omega arith)
  get_or-beyond (x ∷ xs) (suc i) d h = get_or-beyond xs i d (omega arith)

  pub get_or-replicate : (n i : ℕ) (v : A) → get_or (replicate n v) i v ≡ v
  get_or-replicate zero i v = refl
  get_or-replicate (suc n) zero v = refl
  get_or-replicate (suc n) (suc i) v = get_or-replicate n i v

  pub All-get_or :
      (P : A → Type 0) (xs : List A) (i : ℕ) (d : A) → All P xs → i < length xs → P (get_or xs i d)
  All-get_or P [] i d h lt = absurd (omega arith)
  All-get_or P (x ∷ xs) zero d h lt = h.0
  All-get_or P (x ∷ xs) (suc i) d h lt = All-get_or P xs i d h.1 (omega arith)

  pub All-set : (P : A → Type 0) (xs : List A) (i : ℕ) (v : A) → All P xs → P v → All P (set xs i v)
  All-set P [] i v h p = tt
  All-set P (x ∷ xs) zero v h p = (p, h.1)
  All-set P (x ∷ xs) (suc i) v h p = (h.0, All-set P xs i v h.1 p)

  pub All-replicate : (P : A → Type 0) (n : ℕ) (v : A) → P v → All P (replicate n v)
  All-replicate P zero v p = tt
  All-replicate P (suc n) v p = (p, All-replicate P n v p)

  pub length-replicate : (n : ℕ) (a : A) → length (replicate n a) ≡ n
  length-replicate zero a = refl
  length-replicate (suc n) a = ap suc (length-replicate n a)

-- An element stays where it is when a list is extended, and an element of the extended list is an old
-- one or the new one.
pub push-Memᴰ {ℓ} :
    {A : Type ℓ} (xs : List A) (a b : A) → Memᴰ b (push xs a) ↔ (Memᴰ b xs ⊎ (b ≡ a))
push-Memᴰ [] a b = (
  λ h. ⊎_elim (λ e. inr e) (λ h. absurd (Memᴰ.not-nil h)) (Memᴰ.cases_cons h),
  ⊎_elim (λ h. absurd (Memᴰ.not-nil h)) (λ e. Memᴰ.head e),
)
push-Memᴰ (x ∷ xs) a b =
    let rest = push-Memᴰ xs a b in
    (
      λ h.
          ⊎_elim (λ e. inl (Memᴰ.head e))
            (λ m. ⊎_elim (λ k. inl (Memᴰ.tail k)) (λ e. inr e) (rest.0 m)) (Memᴰ.cases_cons h),
      ⊎_elim (λ h. ⊎_elim (λ e. Memᴰ.head e) (λ m. Memᴰ.tail (rest.1 (inl m))) (Memᴰ.cases_cons h))
          (λ e. Memᴰ.tail (rest.1 (inr e))),
    )

pub All-Memᴰ {ℓ κ} :
    {A : Type ℓ} (P : A → Type κ) (xs : List A) (a : A) → All P xs → Memᴰ a xs → P a
All-Memᴰ P [] a h m = absurd (Memᴰ.not-nil m)
All-Memᴰ P (x ∷ xs) a h m =
    ⊎_elim (λ e. subst P (sym e) h.0) (λ m'. All-Memᴰ P xs a h.1 m') (Memᴰ.cases_cons m)

-- `for x in xs { step(state, x) }`
unfoldable pub for_each {ℓ κ} : {S : Type ℓ} {A : Type κ} → (S → A → S) → S → List A → S
for_each step s [] = s
for_each step s (x ∷ xs) = for_each step (step s x) xs

-- `n as u32`
abbrev pub as_u32 : ℕ → ℕ
as_u32 n = n % 2 ^ 32

-- `while i < end { state = step(i, state); i += 1; }` with `rounds` rounds left.
unfoldable pub for_range {ℓ} : {S : Type ℓ} → ℕ → ℕ → (ℕ → S → S) → S → S
for_range zero i step s = s
for_range (suc rounds) i step s = for_range rounds (i + 1) step (step i s)

-- The loop rule: an invariant of the rounds holds at the end.
pub for_range_rule {ℓ κ} :
    {S : Type ℓ} (P : ℕ → S → Type κ) (step : ℕ → S → S) (end : ℕ)
    → ((i : ℕ) (s : S) → i < end → P i s → P (suc i) (step i s))
    → (rounds i : ℕ) (s : S) → i + rounds ≡ end
    → P i s
    → P end (for_range rounds i step s)
unfolding for_range
for_range_rule P step end keep zero i s e p =
    let e' : i ≡ end = omega arith in subst (λ j. P j s) e' p
for_range_rule P step end keep (suc rounds) i s e p =
    let e' : suc i ≡ i + 1 = omega arith in
    for_range_rule P step end keep rounds (i + 1) (step i s) (omega arith)
      (subst (λ j. P j (step i s)) e' (keep i s (omega arith) p))
