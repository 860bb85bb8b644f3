-- ===== src/Borrowck/Regions/Solve/Fixed.antt =====
-- The number of regions that the solver makes room for, and the regions that the caller fixes.
use pocket_rust.Prelude.{
  ℕ, ◌+◌, ◌<◌, ◌≤◌, ◌≡◌, ◌↔◌, ◌⊎◌, inl, inr, refl, sym, ap, ◌∙◌, Bool, true, false, List, [], ◌∷◌,
  String, length, set, get_or, get_or-set, get_or-replicate, length-set, length-replicate,
  replicate, for_each, arith,
}
use mathlib.Core.List.{Memᴰ}
use mathlib.Core.List.Memᴰ
use mathlib.Core.Logic.{⊎_elim}
use mathlib.Core.Path.{subst}
use pocket_rust.Borrowck.Graph.{RegionId, static_region, OutlivesConstraint, RegionGraph}
use pocket_rust.Borrowck.Regions.{max_region, larger, build_fixed_set, fix_region}
use pocket_rust.Borrowck.Regions.Decides.{Below}

-- A loop whose rounds never lower a maximum, and end at or above the region of the round.
module _ {ℓ} {A : Type ℓ} (step : ℕ → A → ℕ) (rises : (m : ℕ) (x : A) → m ≤ step m x) where
  loop-rises : (m : ℕ) (xs : List A) → m ≤ for_each step m xs
  unfolding for_each
  loop-rises m [] = omega arith
  loop-rises m (x ∷ xs) = omega (arith, rises m x, loop-rises (step m x) xs)

  loop-bounds :
      (f : A → ℕ)
      → ((m : ℕ) (x : A) → f x ≤ step m x)
      → (m : ℕ) (xs : List A) (x : A) → Memᴰ x xs
      → f x ≤ for_each step m xs
  unfolding for_each
  loop-bounds f reaches m [] x h = absurd (Memᴰ.not-nil h)
  loop-bounds f reaches m (y ∷ xs) x h =
      ⊎_elim
        (λ e.
          subst (λ z. f z ≤ for_each step (step m y) xs) (sym e)
            (omega (arith, reaches m y, loop-rises (step m y) xs)))
        (λ h'. loop-bounds f reaches (step m y) xs x h') (Memᴰ.cases_cons h)

larger-left : (m r : ℕ) → m ≤ larger m r
larger-left m r = ground arith

larger-right : (m r : ℕ) → r ≤ larger m r
larger-right m r = ground arith

-- Every region of the graph is below the number of regions that `solve` makes room for.
pub record Bounded (graph : RegionGraph) (n : ℕ) : Type 0 where
  pub named : (x : String × RegionId) → Memᴰ x graph.sig_named → x.1 < n
  pub inferred : (x : ℕ × RegionId) → Memᴰ x graph.sig_inferred → x.1 < n
  pub constraints : Below n graph.outlives

pub max_region-Bounded : (graph : RegionGraph) → Bounded graph (max_region graph + 1)
unfolding max_region
max_region-Bounded graph =
    let step_named : ℕ → String × RegionId → ℕ = λ m (name, r). larger m r in
    let step_inferred : ℕ → ℕ × RegionId → ℕ = λ m (id, r). larger m r in
    let step_con : ℕ → OutlivesConstraint → ℕ = λ m c. larger (larger m c.sup) c.sub in
    let m1 = for_each step_named 0 graph.sig_named in
    let m2 = for_each step_inferred m1 graph.sig_inferred in
    let rises_con : (m : ℕ) (c : OutlivesConstraint) → m ≤ step_con m c = λ m c. ground arith in
    let r2 = loop-rises step_inferred (λ m x. larger-left m x.1) m1 graph.sig_inferred in
    let r3 = loop-rises step_con rises_con m2 graph.outlives in
    record {
      named = λ x h. omega (
        arith,
        r2,
        r3,
        loop-bounds step_named (λ m x. larger-left m x.1) (λ x. x.1) (λ m x. larger-right m x.1) 0
            graph.sig_named x h,
      );
      inferred = λ x h. omega (
        arith,
        r3,
        loop-bounds step_inferred (λ m x. larger-left m x.1) (λ x. x.1) (λ m x. larger-right m x.1)
            m1 graph.sig_inferred x h,
      );
      constraints = λ con h. (
        omega (
          arith,
          loop-bounds step_con rises_con (λ c. c.sup) (λ m c. ground arith) m2 graph.outlives con h,
        ),
        omega (
          arith,
          loop-bounds step_con rises_con (λ c. c.sub) (λ m c. ground arith) m2 graph.outlives con h,
        ),
      );
    }

-- The caller picks `'static` and the regions of the signature.
abbrev pub IsFixed : RegionGraph → RegionId → Type 0
IsFixed graph r =
    (r ≡ 0)
    ⊎ ((x : String × RegionId) × Memᴰ x graph.sig_named × (x.1 ≡ r))
    ⊎ ((x : ℕ × RegionId) × Memᴰ x graph.sig_inferred × (x.1 ≡ r))

-- A loop that sets the flag of one region in a round.
module _ {ℓ} {A : Type ℓ} (f : A → RegionId) where
  abbrev fix_all : List Bool → List A → List Bool
  fix_all fixed xs = for_each (λ fixed x. fix_region fixed (f x)) fixed xs

  length-fix_region : (fixed : List Bool) (r : ℕ) → length (fix_region fixed r) ≡ length fixed
  length-fix_region fixed r = ground (arith, length-set fixed r true)

  length-fix_all : (fixed : List Bool) (xs : List A) → length (fix_all fixed xs) ≡ length fixed
  unfolding for_each
  length-fix_all fixed [] = refl
  length-fix_all fixed (x ∷ xs) =
      length-fix_all (fix_region fixed (f x)) xs ∙ length-fix_region fixed (f x)

  get_or-fix_region :
      (fixed : List Bool) (r s : ℕ)
      → r < length fixed
      → (get_or (fix_region fixed r) s false ≡ true) ↔ ((get_or fixed s false ≡ true) ⊎ (r ≡ s))
  get_or-fix_region fixed r s h = ground (arith, get_or-set fixed r s true false)

  get_or-fix_all :
      (fixed : List Bool) (xs : List A) (s : ℕ)
      → ((x : A) → Memᴰ x xs → f x < length fixed)
      → (get_or (fix_all fixed xs) s false ≡ true)
        ↔ ((get_or fixed s false ≡ true) ⊎ ((x : A) × Memᴰ x xs × (f x ≡ s)))
  unfolding for_each
  get_or-fix_all fixed [] s h = (λ e. inl e, ⊎_elim (λ e. e) (λ (x, m, e). absurd (Memᴰ.not-nil m)))
  get_or-fix_all fixed (y ∷ xs) s h =
      let one = get_or-fix_region fixed (f y) s (h y (Memᴰ.head refl)) in
      let rest =
        get_or-fix_all (fix_region fixed (f y)) xs s
          (λ x m. subst (λ n. f x < n) (sym (length-fix_region fixed (f y))) (h x (Memᴰ.tail m))) in
      (
        λ e.
            ⊎_elim (λ p. ⊎_elim (λ q. inl q) (λ q. inr (y, Memᴰ.head refl, q)) (one.0 p))
              (λ (x, m, q). inr (x, Memᴰ.tail m, q)) (rest.0 e),
        ⊎_elim (λ e. rest.1 (inl (one.1 (inl e))))
            (λ (x, m, q).
              ⊎_elim (λ p. rest.1 (inl (one.1 (inr (ap f (sym p) ∙ q)))))
                (λ m'. rest.1 (inr (x, m', q))) (Memᴰ.cases_cons m)),
      )

pub build_fixed_set-IsFixed :
    (graph : RegionGraph) (n r : ℕ)
    → 0 < n
    → Bounded graph n
    → (get_or (build_fixed_set graph n) r false ≡ true) ↔ IsFixed graph r
unfolding build_fixed_set
build_fixed_set-IsFixed graph n r pos b =
    let start = set (replicate n false) static_region true in
    let key_named : String × RegionId → RegionId = λ x. x.1 in
    let key_inferred : ℕ × RegionId → RegionId = λ x. x.1 in
    let size : length start ≡ n =
      length-set (replicate n false) static_region true ∙ length-replicate n false in
    let named = fix_all key_named start graph.sig_named in
    let size' : length named ≡ n = length-fix_all key_named start graph.sig_named ∙ size in
    let zeroth : (get_or start r false ≡ true) ↔ (r ≡ 0) = ground (
      arith,
      get_or-set (replicate n false) 0 r true false,
      get_or-replicate n r false,
      length-replicate n false,
    ) in
    let one =
      get_or-fix_all key_named start graph.sig_named r (λ x m. omega (arith, size, b.named x m)) in
    let two =
      get_or-fix_all key_inferred named graph.sig_inferred r
        (λ x m. omega (arith, size', b.inferred x m)) in
    (
      λ e.
          ⊎_elim (λ p. ⊎_elim (λ q. inl (zeroth.0 q)) (λ q. inr (inl q)) (one.0 p))
            (λ p. inr (inr p)) (two.0 e),
      ⊎_elim (λ e. two.1 (inl (one.1 (inl (zeroth.1 e)))))
          (⊎_elim (λ p. two.1 (inl (one.1 (inr p)))) (λ p. two.1 (inr p))),
    )
