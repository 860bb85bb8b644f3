-- ===== src/Borrowck/Regions/Solve/Verdict.antt =====
-- What `solve` decides, and what its error points at.
use pocket_rust.Prelude.{
  ℕ, ◌+◌, ◌<◌, ◌≡◌, ◌↔◌, ◌⊎◌, inl, inr, refl, sym, ◌∙◌, Bool, true, false, not, ◌&&◌, Bool-cases,
  Option-cases, find, find-some, find-none, Result, ok, err, check_range, check_range-ok,
  check_range-err, List, String, ◌+++◌, get_or, ◌==◌, ==_iff, if◌then◌else◌, arith,
}
use mathlib.Core.List.{Memᴰ}
use mathlib.Core.Logic.{⊎_elim}
use mathlib.Core.Path.{subst}
use pocket_rust.Span.{Error}
use pocket_rust.Borrowck.Graph.{RegionId, OutlivesConstraint, RegionGraph}
use pocket_rust.Borrowck.Regions.{
  Matrix, at, is_declared, max_region, build_fixed_set, closure_over,
}
use pocket_rust.Borrowck.Regions.Reach.{Outlives, here}
use pocket_rust.Borrowck.Regions.Decides.{closure_over-Outlives}
use pocket_rust.Borrowck.Regions.Solve.{
  solve, check_pair, source_label, region_display, named_region, suggest, diag_for_pair, on_path,
  get_at,
}
use pocket_rust.Borrowck.Regions.Solve.Fixed.{IsFixed, max_region-Bounded, build_fixed_set-IsFixed}
use pocket_rust.Borrowck.Regions.Solve.Blame.{
  anything, get_at-at, Blamable, declared_or_Blamable, path_branches,
}

-- The branches of the innermost tests.
pair_branches {ℓ} :
    {E : Type ℓ} (fixed same full declared : Bool) (e : E)
    → let r : Result (Unit {0}) E =
        (if fixed && not same then (if full && not declared then err e else ok tt) else ok tt) in
      ((r ≡ ok tt) × (fixed ≡ true → same ≡ false → full ≡ true → declared ≡ true))
      ⊎ ((r ≡ err e) × (fixed ≡ true) × (full ≡ true) × (declared ≡ false))
pair_branches true false true false e = inr (refl, refl, refl, refl)
pair_branches true false true true e = inl (refl, λ p q r. refl)
pair_branches true false false d e = inl (refl, λ p q r. absurd (cc))
pair_branches true true f d e = inl (refl, λ p q r. absurd (cc))
pair_branches false s f d e = inl (refl, λ p q r. absurd (cc))

module _ (graph : RegionGraph) (fn_path : List String) (file : String) where
  abbrev n : ℕ
  n = max_region graph + 1

  abbrev c_d : Matrix
  c_d = closure_over graph n (λ s. is_declared s)

  abbrev c_full : Matrix
  c_full = closure_over graph n (λ s. true)

  c_d_lem : (a b : ℕ) → a < n → (at c_d a b ≡ true) ↔ Outlives is_declared graph.outlives a b
  c_d_lem a b h =
      closure_over-Outlives graph n is_declared a b (max_region-Bounded graph).constraints h

  c_full_lem : (a b : ℕ) → a < n → (at c_full a b ≡ true) ↔ Outlives anything graph.outlives a b
  c_full_lem a b h =
      closure_over-Outlives graph n anything a b (max_region-Bounded graph).constraints h

  fixed_lem : (r : ℕ) → (get_or (build_fixed_set graph n) r false ≡ true) ↔ IsFixed graph r
  fixed_lem r = build_fixed_set-IsFixed graph n r (omega arith) (max_region-Bounded graph)

  IsFixed-below : (r : ℕ) → IsFixed graph r → r < n
  IsFixed-below r f =
      let b = max_region-Bounded graph in
      ⊎_elim (λ e. omega arith)
        (⊎_elim (λ (x, m, e). subst (λ j. j < n) e (b.named x m))
          (λ (x, m, e). subst (λ j. j < n) e (b.inferred x m)))
        f

  abbrev check : RegionId → RegionId → Result (Unit {0}) Error
  check i j = check_pair graph (build_fixed_set graph n) c_d c_full fn_path file i j

  abbrev pub Complains : RegionId → RegionId → Type 0
  Complains i j =
      IsFixed graph i
      × IsFixed graph j
      × Outlives anything graph.outlives i j
      × (Outlives is_declared graph.outlives i j → ⊥)

  pair_cases :
      (i j : ℕ)
      → i < n
      → get_or (build_fixed_set graph n) i false ≡ true
      → ((check i j ≡ ok tt)
          × (IsFixed graph j
              → Outlives anything graph.outlives i j
              → Outlives is_declared graph.outlives i j))
        ⊎ ((check i j ≡ err (diag_for_pair graph i j c_full fn_path file)) × Complains i j)
  pair_cases i j h fixed =
      ⊎_elim
        (λ (e, implied). inl (
          e,
          λ f o.
              ⊎_elim
                (λ s. subst (λ k. Outlives is_declared graph.outlives i k) ((==_iff i j).0 s) here)
                (λ d. (c_d_lem i j h).0 (implied ((fixed_lem j).1 f) d ((c_full_lem i j h).1 o)))
                (Bool-cases (i == j)),
        ))
        (λ (e, f, full, declared). inr (
          e,
          (
            (fixed_lem i).0 fixed,
            (fixed_lem j).0 f,
            (c_full_lem i j h).0 full,
            λ o. let q = (c_d_lem i j h).1 o in absurd (cc),
          ),
        ))
        (pair_branches (get_or (build_fixed_set graph n) j false) (i == j) (at c_full i j)
          (at c_d i j) (diag_for_pair graph i j c_full fn_path file))

  abbrev check_row : RegionId → Result (Unit {0}) Error
  check_row i =
      if get_or (build_fixed_set graph n) i false then check_range n 0 (check i) else ok tt

  -- The declared facts support whatever the constraints imply between regions of the caller.
  abbrev pub Supported : Type 0
  Supported =
      (i j : RegionId)
      → IsFixed graph i
      → IsFixed graph j
      → Outlives anything graph.outlives i j
      → Outlives is_declared graph.outlives i j

  -- `solve` accepts a graph exactly when the declared facts support whatever all constraints imply between
  -- two regions that the caller fixes.
  pub solve-ok : (solve graph fn_path file ≡ ok tt) ↔ Supported
  unfolding solve
  solve-ok = (
    λ h i j f g o.
        let hi = IsFixed-below i f in
        let hj = IsFixed-below j g in
        let fixed = (fixed_lem i).1 f in
        let row : check_range n 0 (check i) ≡ ok tt =
          subst (λ b. (if b then check_range n 0 (check i) else ok tt) ≡ ok tt) fixed
            ((check_range-ok n 0 check_row).0 h i (omega arith) (omega arith)) in
        let cell = (check_range-ok n 0 (check i)).0 row j (omega arith) (omega arith) in
        ⊎_elim (λ p. p.1 g o) (λ p. let bad = p.0 in absurd (cc)) (pair_cases i j hi fixed),
    λ h. (check_range-ok n 0 check_row).1 (λ i p q.
        ⊎_elim
          (λ fixed.
            subst (λ b. (if b then check_range n 0 (check i) else ok tt) ≡ ok tt) (sym fixed)
              ((check_range-ok n 0 (check i)).1 (λ j r s.
                ⊎_elim (λ p. p.0) (λ (e, (f, g, o, d)). absurd (d (h i j f g o)))
                  (pair_cases i j (omega arith) fixed))))
          (λ free.
            subst (λ b. (if b then check_range n 0 (check i) else ok tt) ≡ ok tt) (sym free) refl)
          (Bool-cases (get_or (build_fixed_set graph n) i false))),
  )

  -- The error points at a requirement of the body on the way between the two regions it names.
  pub record Blames (i j : RegionId) (con : OutlivesConstraint) (e : Error) : Type 0 where
    pub complains : Complains i j
    pub blamable : Blamable graph.outlives i j con
    pub same_span : e.span ≡ con.span
    pub same_file : e.file ≡ file
    pub text :
        e.message
        ≡ source_label con.source
          +++ " `"
          +++ region_display i graph
          +++ "` does not outlive `"
          +++ region_display j graph
          +++ "`"
          +++ suggest (named_region i graph) (named_region j graph) fn_path

  on_path_iff :
      (i j : RegionId) (con : OutlivesConstraint)
      → i < n
      → Memᴰ con graph.outlives
      → (on_path c_full i j con ≡ true) ↔ Blamable graph.outlives i j con
  unfolding on_path
  on_path_iff i j con h m =
      let branches =
        path_branches (is_declared con.source) (get_at c_full i con.sup)
          (get_at c_full con.sub j) in
      let below = ((max_region-Bounded graph).constraints con m).1 in
      let left = get_at-at c_full i con.sup in
      let right = get_at-at c_full con.sub j in
      (
        λ e.
            let (r, p, q) = branches.0 e in
            record {
              listed = m;
              required = r;
              before = (c_full_lem i con.sup h).0 (sym left ∙ p);
              after = (c_full_lem con.sub j below).0 (sym right ∙ q);
            },
        λ b. branches.1 (
          b.required,
          left ∙ (c_full_lem i con.sup h).1 b.before,
          right ∙ (c_full_lem con.sub j below).1 b.after,
        ),
      )

  diag-Blames :
      (i j : RegionId)
      → i < n
      → Complains i j
      → (con : OutlivesConstraint) × Blames i j con (diag_for_pair graph i j c_full fn_path file)
  unfolding diag_for_pair
  diag-Blames i j h c =
      ⊎_elim
        (λ missing.
          let (_, _, full, undeclared) = c in
          ⊎_elim (λ d. absurd (undeclared d))
            (λ (con, b).
              let off = find-none (on_path c_full i j) graph.outlives missing con b.listed in
              let on = (on_path_iff i j con h b.listed).1 b in absurd (cc))
            (declared_or_Blamable graph.outlives full))
        (λ (con, found).
          let (m, on) = find-some (on_path c_full i j) graph.outlives con found in
          (
            con,
            rw found (record {
              complains = c;
              blamable = (on_path_iff i j con h m).0 on;
              same_span = refl;
              same_file = refl;
              text = refl;
            }),
          ))
        (Option-cases (find (on_path c_full i j) graph.outlives))

  -- An error of `solve` is about two fixed regions whose relation all constraints imply and the declared facts
  -- do not; its span and label are those of a requirement on a way from the one to the other.
  pub solve-err :
      (e : Error)
      → solve graph fn_path file ≡ err e
      → (i : RegionId) × (j : RegionId) × (con : OutlivesConstraint) × Blames i j con e
  unfolding solve
  solve-err e h =
      let (i, p, row) = check_range-err n 0 check_row e h in
      ⊎_elim
        (λ fixed.
          let row' =
            subst (λ b. (if b then check_range n 0 (check i) else ok tt) ≡ err e) fixed row in
          let (j, q, cell) = check_range-err n 0 (check i) e row' in
          ⊎_elim (λ r. let bad = r.0 in absurd (cc))
            (λ (d, c).
              let (con, b) = diag-Blames i j (omega arith) c in
              let eq : diag_for_pair graph i j c_full fn_path file ≡ e = cc in
              (i, j, con, subst (λ x. Blames i j con x) eq b))
            (pair_cases i j (omega arith) fixed))
        (λ free.
          let bad =
            subst (λ b. (if b then check_range n 0 (check i) else ok tt) ≡ err e) free row in
          absurd (cc))
        (Bool-cases (get_or (build_fixed_set graph n) i false))
