-- ===== src/Prelude/Filters.antt =====
-- What the searches and the filters of a list find and keep.
use mathlib.Core.Path.{◌≡◌, refl, sym, subst}
use mathlib.Core.Logic.{⊎_elim, ◌↔◌, ◌⊎◌, inl, inr}
use mathlib.Core.Bool.{Bool, true}
use mathlib.Core.List.{List, [], ◌∷◌, ◌++◌, Memᴰ}
use mathlib.Core.List.Memᴰ
use pocket_rust.Prelude.Tests.{if◌then◌else◌, Bool-cases}
use pocket_rust.Prelude.Lists.{any, retain, All}
use Prim.Native.Nat.{ℕ}
use native.Mathlib.Decide.{ℕ_discrete}

module _ {ℓ} {A : Type ℓ} where
  pub any-Memᴰ :
      (test : A → Bool) (xs : List A)
      → (any test xs ≡ true) ↔ ((a : A) × Memᴰ a xs × (test a ≡ true))
  any-Memᴰ test [] = (λ h. absurd (cc), λ (a, m, t). absurd (Memᴰ.not-nil m))
  any-Memᴰ test (x ∷ xs) =
      let rest = any-Memᴰ test xs in
      elim (Bool-cases (test x)) [
        | inl e ↦ (λ h. (x, Memᴰ.head refl, e), λ h. rw e refl)
        | inr e ↦ (
          λ h.
              let q : any test xs ≡ true =
                subst (λ b. (if b then true else any test xs) ≡ true) e h in
              let (a, m, t) = rest.0 q in (a, Memᴰ.tail m, t),
          λ (a, m, t). rw e (
              ⊎_elim (λ f. let t' : test x ≡ true = subst (λ y. test y ≡ true) f t in absurd (cc))
                (λ k. rest.1 (a, k, t)) (Memᴰ.cases_cons m)),
        )
      ]

  pub retain-Memᴰ :
      (test : A → Bool) (xs : List A) (a : A)
      → Memᴰ a (retain test xs) ↔ (Memᴰ a xs × (test a ≡ true))
  retain-Memᴰ test [] a = (λ m. absurd (Memᴰ.not-nil m), λ h. absurd (Memᴰ.not-nil h.0))
  retain-Memᴰ test (x ∷ xs) a =
      let rest = retain-Memᴰ test xs a in
      elim (Bool-cases (test x)) [
        | inl e ↦
            subst
              (λ b.
                Memᴰ a (if b then x ∷ retain test xs else retain test xs)
                ↔ (Memᴰ a (x ∷ xs) × (test a ≡ true)))
              (sym e)
              (
                λ m.
                    ⊎_elim (λ f. (Memᴰ.head f, subst (λ y. test y ≡ true) (sym f) e))
                      (λ k. let (p, t) = rest.0 k in (Memᴰ.tail p, t)) (Memᴰ.cases_cons m),
                λ (m, t).
                    ⊎_elim (λ f. Memᴰ.head f) (λ k. Memᴰ.tail (rest.1 (k, t))) (Memᴰ.cases_cons m),
              )
        | inr e ↦
            subst
              (λ b.
                Memᴰ a (if b then x ∷ retain test xs else retain test xs)
                ↔ (Memᴰ a (x ∷ xs) × (test a ≡ true)))
              (sym e)
              (
                λ m. let (p, t) = rest.0 m in (Memᴰ.tail p, t),
                λ (m, t).
                    ⊎_elim
                      (λ f. let t' : test x ≡ true = subst (λ y. test y ≡ true) f t in absurd (cc))
                      (λ k. rest.1 (k, t)) (Memᴰ.cases_cons m),
              )
      ]

  pub append-Memᴰ : (xs ys : List A) (a : A) → Memᴰ a (xs ++ ys) ↔ (Memᴰ a xs ⊎ Memᴰ a ys)
  append-Memᴰ [] ys a = (λ m. inr m, ⊎_elim (λ m. absurd (Memᴰ.not-nil m)) (λ m. m))
  append-Memᴰ (x ∷ xs) ys a =
      let rest = append-Memᴰ xs ys a in
      (
        λ m.
            ⊎_elim (λ e. inl (Memᴰ.head e))
              (λ k. ⊎_elim (λ l. inl (Memᴰ.tail l)) (λ r. inr r) (rest.0 k)) (Memᴰ.cases_cons m),
        ⊎_elim
            (λ m. ⊎_elim (λ e. Memᴰ.head e) (λ k. Memᴰ.tail (rest.1 (inl k))) (Memᴰ.cases_cons m))
            (λ m. Memᴰ.tail (rest.1 (inr m))),
      )

  pub All-append {κ} : (P : A → Type κ) (xs ys : List A) → All P xs → All P ys → All P (xs ++ ys)
  All-append P [] ys h g = g
  All-append P (x ∷ xs) ys h g = (h.0, All-append P xs ys h.1 g)

  pub All-map {κ κ'} :
      (P : A → Type κ) (Q : A → Type κ') (xs : List A) → ((a : A) → P a → Q a) → All P xs → All Q xs
  All-map P Q [] f h = tt
  All-map P Q (x ∷ xs) f h = (f x h.0, All-map P Q xs f h.1)

pub Memᴰ-cases : (b : ℕ) (xs : List ℕ) → Memᴰ b xs ⊎ (Memᴰ b xs → ⊥)
Memᴰ-cases b [] = inr (λ m. Memᴰ.not-nil m)
Memᴰ-cases b (x ∷ xs) = elim (ℕ_discrete b x) [
  | yes here ↦ inl (Memᴰ.head here)
  | no other ↦
      ⊎_elim (λ m. inl (Memᴰ.tail m)) (λ n. inr (λ m. ⊎_elim other n (Memᴰ.cases_cons m)))
        (Memᴰ-cases b xs)
]
