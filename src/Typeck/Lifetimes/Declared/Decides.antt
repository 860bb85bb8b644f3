-- ===== src/Typeck/Lifetimes/Declared/Decides.antt =====
-- Checks that pass where every lifetime is good and fail at a bad one, and how they are chained.
use pocket_rust.Prelude.{
  All-append, ◌≡◌, ◌⊎◌, inl, inr, refl, ok, err, also, All, List, [], ◌∷◌, ◌++◌,
}
use mathlib.Core.Logic.{⊎_elim}
use mathlib.Core.List.{Memᴰ}
use mathlib.Core.List.Memᴰ
use pocket_rust.Span.{Error}
use pocket_rust.Typeck.Types.{LifetimeRepr}
use pocket_rust.Typeck.Lifetimes.Declared.{Checked}

-- The check passes where all the lifetimes are good, and fails with the error of a bad one else.
abbrev pub Decides :
    (LifetimeRepr → Type 0) → (LifetimeRepr → Error → Type 0) → Checked → List LifetimeRepr → Type 0
Decides Good Bad r lts =
    (r ≡ ok tt) × All Good lts
    ⊎ (lt : LifetimeRepr) × (e : Error) × Memᴰ lt lts × Bad lt e × (r ≡ err e)

module _ (Good : LifetimeRepr → Type 0) (Bad : LifetimeRepr → Error → Type 0) where
  Memᴰ-left : (lt : LifetimeRepr) (xs ys : List LifetimeRepr) → Memᴰ lt xs → Memᴰ lt (xs ++ ys)
  Memᴰ-left lt [] ys m = absurd (Memᴰ.not-nil m)
  Memᴰ-left lt (x ∷ xs) ys m =
      ⊎_elim (λ e. Memᴰ.head e) (λ k. Memᴰ.tail (Memᴰ-left lt xs ys k)) (Memᴰ.cases_cons m)

  Memᴰ-right : (lt : LifetimeRepr) (xs ys : List LifetimeRepr) → Memᴰ lt ys → Memᴰ lt (xs ++ ys)
  Memᴰ-right lt [] ys m = m
  Memᴰ-right lt (x ∷ xs) ys m = Memᴰ.tail (Memᴰ-right lt xs ys m)

  pub Decides-also :
      (r s : Checked) (xs ys : List LifetimeRepr)
      → Decides Good Bad r xs
      → Decides Good Bad s ys
      → Decides Good Bad (also r s) (xs ++ ys)
  Decides-also r s xs ys h g =
      ⊎_elim
        (λ p.
          ⊎_elim (λ q. inl (rw (p.0) q.0, All-append Good xs ys p.1 q.1))
            (λ q. let (lt, e, m, b, f) = q in inr (lt, e, Memᴰ-right lt xs ys m, b, rw (p.0) f)) g)
        (λ p. let (lt, e, m, b, f) = p in inr (lt, e, Memᴰ-left lt xs ys m, b, rw f refl)) h
