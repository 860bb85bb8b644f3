-- ===== src/Borrowck/Regions/Solve/Blame.antt =====
-- The constraint that the error of `solve` blames.
use pocket_rust.Prelude.{
  ℕ, zero, suc, ◌≡◌, ◌↔◌, ◌⊎◌, inl, inr, refl, sym, Bool, true, false, not, ◌&&◌, Bool-cases,
  unwrap_or, List, [], ◌∷◌, get_or, get_elem?,
}
use mathlib.Core.List.{Memᴰ}
use mathlib.Core.Logic.{⊎_elim}
use mathlib.Core.Path.{subst}
use pocket_rust.Borrowck.Graph.{RegionId, ConstraintSource, OutlivesConstraint}
use pocket_rust.Borrowck.Regions.{Matrix, at, is_declared}
use pocket_rust.Borrowck.Regions.Reach.{Outlives, here, next}
use pocket_rust.Borrowck.Regions.Solve.{get_at}

-- Every constraint, whatever its source.
abbrev pub anything : ConstraintSource → Bool
anything s = true

get_row : (row : List Bool) (b : ℕ) → unwrap_or (get_elem? row b) false ≡ get_or row b false
unfolding unwrap_or
get_row [] b = refl
get_row (x ∷ row) zero = refl
get_row (x ∷ row) (suc b) = get_row row b

pub get_at-at : (c : Matrix) (a b : ℕ) → get_at c a b ≡ at c a b
unfolding get_at at unwrap_or
get_at-at [] a b = refl
get_at-at (row ∷ c) zero b = get_row row b
get_at-at (row ∷ c) (suc a) b = get_at-at c a b

-- A requirement of the body on the way from `a` to `b`.
pub record Blamable (cons : List OutlivesConstraint) (a b : RegionId) (con : OutlivesConstraint)
    : Type 0 where
  pub listed : Memᴰ con cons
  pub required : is_declared con.source ≡ false
  pub before : Outlives anything cons a con.sup
  pub after : Outlives anything cons con.sub b

-- What all constraints imply is implied by the declared ones, or a requirement is on the way.
pub declared_or_Blamable :
    (cons : List OutlivesConstraint) {a b : RegionId}
    → Outlives anything cons a b
    → Outlives is_declared cons a b ⊎ ((con : OutlivesConstraint) × Blamable cons a b con)
declared_or_Blamable cons here = inl here
declared_or_Blamable cons {a} {b} (next {b = m} p (con, l, _, e, f)) =
    ⊎_elim
      (λ q.
        ⊎_elim (λ d. inl (next q (con, l, d, e, f)))
          (λ r. inr (
            con,
            record {
              listed = l;
              required = r;
              before = subst (λ j. Outlives anything cons a j) (sym e) p;
              after = subst (λ j. Outlives anything cons j b) (sym f) here;
            },
          ))
          (Bool-cases (is_declared con.source)))
      (λ (c, r). inr (
        c,
        record {
          listed = r.listed;
          required = r.required;
          before = r.before;
          after = next r.after (con, l, refl, e, f);
        },
      ))
      (declared_or_Blamable cons p)

pub path_branches :
    (a b c : Bool) → ((not a && (b && c)) ≡ true) ↔ ((a ≡ false) × (b ≡ true) × (c ≡ true))
path_branches false true true = (λ h. (refl, refl, refl), λ h. refl)
path_branches false true false = (λ h. absurd (cc), λ (p, q, r). absurd (cc))
path_branches false false c = (λ h. absurd (cc), λ (p, q, r). absurd (cc))
path_branches true b c = (λ h. absurd (cc), λ (p, q, r). absurd (cc))
