-- ===== src/Typeck/Lifetimes/Origins.antt =====
-- Which parameters find_lifetime_source returns.
use pocket_rust.Prelude.{
  ◌≡◌, ◌↔◌, ◌⊎◌, inl, inr, ◌+◌, ℕ, zero, suc, true, Option, none, some, List, [], ◌∷◌, get_elem?,
  push, if◌then◌else◌, Bool-cases, ==_iff, push-Memᴰ, arith, ap,
}
use mathlib.Core.Path.{subst, sym}
use mathlib.Core.Logic.{⊎_elim}
use mathlib.Core.List.{Memᴰ}
use mathlib.Core.List.Memᴰ
use text.Mathlib.TextEquality
use pocket_rust.Typeck.Types.{LifetimeRepr, named, inferred}
use pocket_rust.Typeck.Lifetimes.{lifetime_eq, is_source, source_loop, find_lifetime_source}

lifetime_eq_iff : (a b : LifetimeRepr) → (lifetime_eq a b ≡ true) ↔ (a ≡ b)
unfolding lifetime_eq
lifetime_eq_iff (named a) (named b) =
    let q = TextEquality.eq_iff a b in (λ h. ap named (q.0 h), λ h. q.1 (cc))
lifetime_eq_iff (inferred a) (inferred b) =
    let q = ==_iff a b in (λ h. ap inferred (q.0 h), λ h. q.1 (cc))
lifetime_eq_iff (named a) (inferred b) = (λ h. absurd (cc), λ h. absurd (cc))
lifetime_eq_iff (inferred a) (named b) = (λ h. absurd (cc), λ h. absurd (cc))

is_source_iff :
    (plt : Option LifetimeRepr) (target : LifetimeRepr)
    → (is_source plt target ≡ true) ↔ (plt ≡ some target)
unfolding is_source
is_source_iff none target = (λ h. absurd (cc), λ h. absurd (cc))
is_source_iff (some plt) target =
    let q = lifetime_eq_iff plt target in (λ h. ap some (q.0 h), λ h. q.1 (cc))

-- The position `k` counts from `i`.
abbrev FoundFrom : ℕ → List (Option LifetimeRepr) → LifetimeRepr → ℕ → Type 0
FoundFrom i params target k = (j : ℕ) × (k ≡ i + j) × (get_elem? params j ≡ some (some target))

FoundFrom-cons :
    (i : ℕ) (p : Option LifetimeRepr) (ps : List (Option LifetimeRepr)) (target : LifetimeRepr)
    (k : ℕ)
    → FoundFrom i (p ∷ ps) target k ↔ ((p ≡ some target) × (k ≡ i) ⊎ FoundFrom (i + 1) ps target k)
FoundFrom-cons i p ps target k = (
  λ h. let (j, e, g) = h in FoundFrom-split j e g,
  ⊎_elim (λ h. (zero, omega (arith, h.1), ap some h.0))
      (λ h. let (j, e, g) = h in (suc j, omega arith, g)),
)
  where
    FoundFrom-split :
        (j : ℕ)
        → k ≡ i + j
        → get_elem? (p ∷ ps) j ≡ some (some target)
        → (p ≡ some target) × (k ≡ i) ⊎ FoundFrom (i + 1) ps target k
    FoundFrom-split zero e g = inl (cc, omega arith)
    FoundFrom-split (suc j) e g = inr (j, omega arith, g)

source_loop-Memᴰ :
    (i : ℕ) (params : List (Option LifetimeRepr)) (target : LifetimeRepr) (out : List ℕ) (k : ℕ)
    → Memᴰ k (source_loop i params target out) ↔ (Memᴰ k out ⊎ FoundFrom i params target k)
unfolding source_loop
source_loop-Memᴰ i [] target out k =
    (λ m. inl m, ⊎_elim (λ m. m) (λ h. let (j, e, g) = h in absurd (cc)))
source_loop-Memᴰ i (p ∷ ps) target out k =
    let cons = FoundFrom-cons i p ps target k in
    let test = is_source_iff p target in
    elim (Bool-cases (is_source p target)) [
      | inl e ↦
          let rest = source_loop-Memᴰ (i + 1) ps target (push out i) k in
          let old = push-Memᴰ out i k in
          subst
            (λ b.
              Memᴰ k (source_loop (i + 1) ps target (if b then push out i else out))
              ↔ (Memᴰ k out ⊎ FoundFrom i (p ∷ ps) target k))
            (sym e)
            (
              λ m.
                  ⊎_elim
                    (λ x. ⊎_elim (λ o. inl o) (λ f. inr (cons.1 (inl (test.0 e, f)))) (old.0 x))
                    (λ f. inr (cons.1 (inr f))) (rest.0 m),
              ⊎_elim (λ o. rest.1 (inl (old.1 (inl o))))
                  (λ f.
                    ⊎_elim (λ g. rest.1 (inl (old.1 (inr g.1)))) (λ g. rest.1 (inr g)) (cons.0 f)),
            )
      | inr e ↦
          let rest = source_loop-Memᴰ (i + 1) ps target out k in
          subst
            (λ b.
              Memᴰ k (source_loop (i + 1) ps target (if b then push out i else out))
              ↔ (Memᴰ k out ⊎ FoundFrom i (p ∷ ps) target k))
            (sym e)
            (
              λ m. ⊎_elim (λ o. inl o) (λ f. inr (cons.1 (inr f))) (rest.0 m),
              ⊎_elim (λ o. rest.1 (inl o))
                  (λ f.
                    ⊎_elim (λ g. let t = test.1 (g.0) in absurd (cc)) (λ g. rest.1 (inr g))
                      (cons.0 f)),
            )
    ]

-- find_lifetime_source returns exactly the positions of the parameters whose lifetime is the target.
pub find_lifetime_source-Memᴰ :
    (params : List (Option LifetimeRepr)) (target : LifetimeRepr) (k : ℕ)
    → Memᴰ k (find_lifetime_source params target) ↔ (get_elem? params k ≡ some (some target))
unfolding find_lifetime_source
find_lifetime_source-Memᴰ params target k =
    let loop = source_loop-Memᴰ 0 params target [] k in
    (
      λ m.
          ⊎_elim (λ o. absurd (Memᴰ.not-nil o))
            (λ h.
              let (j, e, g) = h in
              let q : j ≡ k = omega arith in
              subst (λ x. get_elem? params x ≡ some (some target)) q g)
            (loop.0 m),
      λ g. loop.1 (inr (k, omega arith, g)),
    )
