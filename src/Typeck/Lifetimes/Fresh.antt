-- ===== src/Typeck/Lifetimes/Fresh.antt =====
-- The ids that freshen_inferred_lifetimes gives.
use pocket_rust.Prelude.{
  ◌≡◌, refl, ap, ◌+◌, ◌<◌, ◌^◌, ◌==◌, ℕ, zero, suc, some, List, [], ◌∷◌, length, get_elem?,
  if◌then◌else◌, arith,
}
use mathlib.Core.Path.{subst}
use pocket_rust.Typeck.Types.{LifetimeRepr, named, inferred, RType}
use pocket_rust.Typeck.Lifetimes.{
  freshen_lifetime, freshen_lifetime_args, freshen_inferred_lifetimes,
}
use pocket_rust.Typeck.Lifetimes.Slots.{slots, erase}
use pocket_rust.Typeck.Lifetimes.Walk.{freshen_inferred_lifetimes-Walk, keeps_shape}

-- 1 for an elided lifetime.
abbrev weight : LifetimeRepr → ℕ
weight (named name) = 0
weight (inferred id) = if id == 0 then 1 else 0

abbrev pub elided : List LifetimeRepr → ℕ
elided [] = 0
elided (lt ∷ lts) = weight lt + elided lts

-- The number of elided lifetimes that stand before a position.
abbrev pub elided_before : List LifetimeRepr → ℕ → ℕ
elided_before [] i = 0
elided_before (lt ∷ lts) zero = 0
elided_before (lt ∷ lts) (suc i) = weight lt + elided_before lts i

-- `after` has the lifetimes of `before`, the elided ones numbered in order from `n` up to `m`.
pub record Numbered (before after : List LifetimeRepr) (n m : ℕ) : Type 0 where
  pub same_length : length after ≡ length before
  pub counter : m ≡ n + elided before
  pub kept :
      (i : ℕ) (lt : LifetimeRepr)
      → get_elem? before i ≡ some lt
      → weight lt ≡ 0
      → get_elem? after i ≡ some lt
  pub fresh :
      (i : ℕ)
      → get_elem? before i ≡ some (inferred 0)
      → (get_elem? after i ≡ some (inferred (n + elided_before before i)))
        × (elided_before before i < elided before)
  pub distinct :
      (i j : ℕ)
      → i < j
      → j < length before
      → get_elem? before i ≡ some (inferred 0)
      → elided_before before i < elided_before before j

-- What the walk makes of one lifetime.
record NumberedHead (lt lt' : LifetimeRepr) (n m : ℕ) : Type 0 where
  counter : m ≡ n + weight lt
  kept : weight lt ≡ 0 → lt' ≡ lt
  fresh : lt ≡ inferred 0 → (lt' ≡ inferred n) × (weight lt ≡ 1)

Numbered-freshen_lifetime :
    (lt : LifetimeRepr) (n : ℕ)
    → n + weight lt < 2 ^ 32
    → NumberedHead lt (freshen_lifetime lt n).0 n (freshen_lifetime lt n).1
unfolding freshen_lifetime
Numbered-freshen_lifetime (named name) n bound = record {
  counter = omega arith;
  kept = λ z. refl;
  fresh = λ e. absurd (cc);
}
Numbered-freshen_lifetime (inferred zero) n bound = record {
  counter = omega arith;
  kept = λ z. absurd (omega arith);
  fresh = λ e. (refl, refl);
}
Numbered-freshen_lifetime (inferred (suc id)) n bound = record {
  counter = ground arith;
  kept = λ z. ground arith;
  fresh = λ e. absurd (cc);
}

module _ (lt lt' : LifetimeRepr) (before after : List LifetimeRepr) (n k m : ℕ)
    (head : NumberedHead lt lt' n k) (rest : Numbered before after k m) where
  cons_kept :
      (i : ℕ) (l : LifetimeRepr)
      → get_elem? (lt ∷ before) i ≡ some l
      → weight l ≡ 0
      → get_elem? (lt' ∷ after) i ≡ some l
  cons_kept zero l h z = let e : lt ≡ l = cc in let f = head.kept (rw e z) in cc
  cons_kept (suc i) l h z = rest.kept i l h z

  cons_fresh :
      (i : ℕ)
      → get_elem? (lt ∷ before) i ≡ some (inferred 0)
      → (get_elem? (lt' ∷ after) i ≡ some (inferred (n + elided_before (lt ∷ before) i)))
        × (elided_before (lt ∷ before) i < elided (lt ∷ before))
  cons_fresh zero h =
      let e : lt ≡ inferred 0 = cc in
      let (f, w) = head.fresh e in
      let z : n + 0 ≡ n = omega arith in (rw (z, f) refl, omega (arith, w))
  cons_fresh (suc i) h =
      let (f, b) = rest.fresh i h in
      let c : k + elided_before before i ≡ n + (weight lt + elided_before before i) =
        omega (arith, head.counter) in
      (subst (λ id. get_elem? after i ≡ some (inferred id)) c f, omega (arith, b))

  cons_distinct :
      (i j : ℕ)
      → i < j
      → j < length (lt ∷ before)
      → get_elem? (lt ∷ before) i ≡ some (inferred 0)
      → elided_before (lt ∷ before) i < elided_before (lt ∷ before) j
  cons_distinct i zero p q h = absurd (omega arith)
  cons_distinct zero (suc j) p q h =
      let e : lt ≡ inferred 0 = cc in let (f, w) = head.fresh e in omega (arith, w)
  cons_distinct (suc i) (suc j) p q h =
      let d = rest.distinct i j (omega arith) (omega arith) h in omega arith

  Numbered-cons : Numbered (lt ∷ before) (lt' ∷ after) n m
  Numbered-cons = record {
    same_length = ap suc rest.same_length;
    counter = omega (arith, rest.counter, head.counter);
    kept = cons_kept;
    fresh = cons_fresh;
    distinct = cons_distinct;
  }

Numbered-freshen_lifetime_args :
    (lts : List LifetimeRepr) (n : ℕ)
    → n + elided lts < 2 ^ 32
    → Numbered lts (freshen_lifetime_args lts n).0 n (freshen_lifetime_args lts n).1
unfolding freshen_lifetime_args
Numbered-freshen_lifetime_args [] n bound = record {
  same_length = refl;
  counter = omega arith;
  kept = λ i lt h z. absurd (cc);
  fresh = λ i h. absurd (cc);
  distinct = λ i j lt in_range h. absurd (omega arith);
}
Numbered-freshen_lifetime_args (lt ∷ lts) n bound =
    let head = Numbered-freshen_lifetime lt n (omega arith) in
    let (lt', k) = freshen_lifetime lt n in
    Numbered-cons lt lt' lts _ n k _ head
      (Numbered-freshen_lifetime_args lts k (omega (arith, head.counter)))

-- After freshen_inferred_lifetimes, which counts from `next_id` below 2 ^ 32, a type has its old shape, what
-- stands in the bounds of its trait objects included, where placeholders stay. Of the other lifetimes every
-- one that is not `Inferred(0)` is kept, and the placeholders in the order of the walk have the ids from
-- `next_id` up to the new counter, each a different one.
pub freshen_inferred_lifetimes-Numbered :
    (rt : RType) (next_id : ℕ)
    → next_id + elided (slots rt) < 2 ^ 32
    → let (fresh, next_id') = freshen_inferred_lifetimes rt next_id in
      (erase fresh ≡ erase rt) × Numbered (slots rt) (slots fresh) next_id next_id'
freshen_inferred_lifetimes-Numbered rt next_id bound = (
  keeps_shape rt next_id,
  subst (λ r. Numbered (slots rt) r.0 next_id r.1) (freshen_inferred_lifetimes-Walk rt next_id)
      (Numbered-freshen_lifetime_args (slots rt) next_id bound),
)
