-- ===== src/Borrowck/Regions/Reach.antt =====
-- What the solver decides: the outlives relation that a set of constraints implies.
use pocket_rust.Prelude.{ℕ, suc, ◌<◌, ◌≡◌, ◌⊎◌, inl, inr, Bool, true, List, arith}
use mathlib.Core.List.{Memᴰ}
use mathlib.Core.Logic.{⊎_elim}
use mathlib.Core.Path.{subst}
use native.Mathlib.Decide.{dec_lt}
use pocket_rust.Borrowck.Graph.{RegionId, ConstraintSource, OutlivesConstraint}

-- One of the constraints that pass the test says that `sup` outlives `sub`.
abbrev pub Edge : (ConstraintSource → Bool) → List OutlivesConstraint → RegionId → RegionId → Type 0
Edge pred cons sup sub =
    (con : OutlivesConstraint) × Memᴰ con cons
    × (pred con.source ≡ true)
    × (con.sup ≡ sup)
    × (con.sub ≡ sub)

-- The reflexive and transitive closure of these constraints.
pub data Outlives (pred : ConstraintSource → Bool) (cons : List OutlivesConstraint) (a : RegionId)
    : RegionId → Type 0 where
  here : Outlives pred cons a a
  next : {b c : RegionId} → Outlives pred cons a b → Edge pred cons b c → Outlives pred cons a c

module _ {pred : ConstraintSource → Bool} {cons : List OutlivesConstraint} where
  pub Outlives-trans :
      {a b c : RegionId} → Outlives pred cons a b → Outlives pred cons b c → Outlives pred cons a c
  Outlives-trans p here = p
  Outlives-trans p (next q e) = next (Outlives-trans p q) e

-- A walk whose inner regions are below `k`, over single steps `S`.
pub data Via (S : ℕ → ℕ → Type 0) (k : ℕ) : ℕ → ℕ → Type 0 where
  single : {a b : ℕ} → S a b → Via S k a b
  join : {a b : ℕ} (m : ℕ) → m < k → Via S k a m → Via S k m b → Via S k a b

-- A walk below `k + 1` stays below `k`, or goes to `k` and from there on.
abbrev Split : (ℕ → ℕ → Type 0) → ℕ → ℕ → ℕ → Type 0
Split S k a b = Via S k a b ⊎ Via S k a k × Via S k k b

Split-below :
    {S : ℕ → ℕ → Type 0} {k a b : ℕ} (m : ℕ) → m < k → Split S k a m → Split S k m b → Split S k a b
Split-below m h (inl p) (inl q) = inl (join m h p q)
Split-below m h (inl p) (inr (q, r)) = inr (join m h p q, r)
Split-below m h (inr (p, r)) (inl q) = inr (p, join m h r q)
Split-below m h (inr (p, r)) (inr (q, t)) = inr (p, t)

Split-top : {S : ℕ → ℕ → Type 0} {k a b : ℕ} → Split S k a k → Split S k k b → Split S k a b
Split-top p q = inr (⊎_elim (λ x. x) (λ x. x.0) p, ⊎_elim (λ x. x) (λ x. x.1) q)

pub Via-split :
    {S : ℕ → ℕ → Type 0} {k a b : ℕ} → Via S (suc k) a b → Via S k a b ⊎ Via S k a k × Via S k k b
Via-split (single s) = inl (single s)
Via-split {S} {k} {a} {b} (join m h p q) =
    let before = Via-split p in
    let after = Via-split q in
    elim (dec_lt m k) [
      | yes below ↦ Split-below m below before after
      | no top ↦
          let e : m ≡ k = omega arith in
          Split-top (subst (λ i. Split S k a i) e before) (subst (λ i. Split S k i b) e after)
    ]
