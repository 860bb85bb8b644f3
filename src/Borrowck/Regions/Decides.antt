-- ===== src/Borrowck/Regions/Decides.antt =====
-- `closure_over` computes the outlives relation of the constraints that pass the test.
use pocket_rust.Prelude.{
  for_range_rule, ℕ, suc, ◌<◌, ◌≡◌, ◌↔◌, inl, inr, refl, sym, Bool, true, false, Bool-cases, List,
  [], ◌∷◌, replicate, for_each, for_range, arith,
}
use mathlib.Core.List.{Memᴰ}
use mathlib.Core.List.Memᴰ
use mathlib.Core.Logic.{⊎_elim}
use mathlib.Core.Path.{subst, subst₂}
use native.Mathlib.Decide.{dec_lt}
use pocket_rust.Borrowck.Graph.{ConstraintSource, OutlivesConstraint, RegionGraph}
use pocket_rust.Borrowck.Regions.{Matrix, at, mark, add_edge, closure_over}
use pocket_rust.Borrowck.Regions.Matrix.{IsSquare-blank, at-blank}
use pocket_rust.Borrowck.Regions.Reach.{Outlives, here, next, Via, single, join}
use pocket_rust.Borrowck.Regions.Closure.{
  IsSound, Grows, IsSound-mark, Grows-mark, marked, Step, Closed, Closed-stages,
}

-- Every region of a constraint is below `n`.
abbrev pub Below : ℕ → List OutlivesConstraint → Type 0
Below n cons = (con : OutlivesConstraint) → Memᴰ con cons → (con.sup < n) × (con.sub < n)

module _ (pred : ConstraintSource → Bool) (cons : List OutlivesConstraint) (n : ℕ)
    (below : Below n cons) where
  abbrev blank : Matrix
  blank = replicate n (replicate n false)

  IsSound-blank : IsSound pred cons n blank
  IsSound-blank = record {
    square = IsSquare-blank n;
    sound = λ a b h. absurd (cc (at-blank n a b));
  }

  record DiagonalDone (i : ℕ) (c : Matrix) : Type 0 where
    still_sound : IsSound pred cons n c
    diagonal : (a : ℕ) → a < i → at c a a ≡ true

  DiagonalDone-mark :
      (i : ℕ) (c : Matrix) → i < n → DiagonalDone i c → DiagonalDone (suc i) (mark c i i)
  DiagonalDone-mark i c hi r = record {
    still_sound = IsSound-mark pred cons n i i hi hi here r.still_sound;
    diagonal = λ a h. elim (dec_lt a i) [
      | yes before ↦ Grows-mark pred cons n i i hi hi r.still_sound.square a a (r.diagonal a before)
      | no last ↦
          let e : i ≡ a = omega arith in
          subst (λ j. at (mark c i i) j j ≡ true) e
            (marked pred cons n i i hi hi r.still_sound.square)
    ];
  }

  abbrev with_diagonal : Matrix
  with_diagonal = for_range n 0 (λ i c. mark c i i) blank

  with_diagonal_lem : DiagonalDone n with_diagonal
  with_diagonal_lem =
      for_range_rule DiagonalDone (λ i c. mark c i i) n DiagonalDone-mark n 0 blank (omega arith)
        (record { still_sound = IsSound-blank; diagonal = λ a h. absurd (omega arith) })

  record EdgesDone (rest : List OutlivesConstraint) (c d : Matrix) : Type 0 where
    still_sound : IsSound pred cons n d
    grown : Grows pred cons n c d
    edges :
        (con : OutlivesConstraint)
        → Memᴰ con rest
        → pred con.source ≡ true
        → at d con.sup con.sub ≡ true

  record EdgeDone (con : OutlivesConstraint) (c d : Matrix) : Type 0 where
    still_sound : IsSound pred cons n d
    grown : Grows pred cons n c d
    edge : pred con.source ≡ true → at d con.sup con.sub ≡ true

  add_edge-EdgeDone :
      (con : OutlivesConstraint) (c : Matrix)
      → Memᴰ con cons
      → IsSound pred cons n c
      → EdgeDone con c (add_edge pred c con)
  add_edge-EdgeDone con c m s =
      let (hs, ht) = below con m in
      elim (Bool-cases (pred con.source)) [
        | inl passes ↦ rw passes (record {
          still_sound =
              IsSound-mark pred cons n con.sup con.sub hs ht
                (next here (con, m, passes, refl, refl)) s;
          grown = Grows-mark pred cons n con.sup con.sub hs ht s.square;
          edge = λ p. marked pred cons n con.sup con.sub hs ht s.square;
        })
        | inr fails ↦
            rw fails (record { still_sound = s; grown = λ x y h. h; edge = λ p. absurd (cc) })
      ]

  add_edges-EdgesDone :
      (rest : List OutlivesConstraint) (c : Matrix)
      → ((con : OutlivesConstraint) → Memᴰ con rest → Memᴰ con cons)
      → IsSound pred cons n c
      → EdgesDone rest c (for_each (add_edge pred) c rest)
  unfolding for_each
  add_edges-EdgesDone [] c inside s = record {
    still_sound = s;
    grown = λ x y h. h;
    edges = λ con m p. absurd (Memᴰ.not-nil m);
  }
  add_edges-EdgesDone (con ∷ rest) c inside s =
      let one = add_edge-EdgeDone con c (inside con (Memᴰ.head refl)) s in
      let all =
        add_edges-EdgesDone rest (add_edge pred c con) (λ con' m. inside con' (Memᴰ.tail m))
          one.still_sound in
      record {
        still_sound = all.still_sound;
        grown = λ x y h. all.grown x y (one.grown x y h);
        edges = λ con' m p.
            ⊎_elim
              (λ e.
                subst
                  (λ k. at (for_each (add_edge pred) (add_edge pred c con) rest) k.sup k.sub ≡ true)
                  (sym e)
                  (all.grown con.sup con.sub (one.edge (subst (λ k. pred k.source ≡ true) e p))))
              (λ m'. all.edges con' m' p) (Memᴰ.cases_cons m);
      }

  abbrev with_edges : Matrix
  with_edges = for_each (add_edge pred) with_diagonal cons

  Closed-with_edges : Closed pred cons n 0 with_edges
  Closed-with_edges =
      let all = add_edges-EdgesDone cons with_diagonal (λ con m. m) with_diagonal_lem.still_sound in
      record { still_sound = all.still_sound; complete = λ a b w. walk a b w all }
    where
      walk :
          (a b : ℕ)
          → Via (Step pred cons n) 0 a b
          → EdgesDone cons with_diagonal with_edges
          → at with_edges a b ≡ true
      walk a b (single (ha, hb, inl e)) all =
          subst (λ j. at with_edges a j ≡ true) e (all.grown a a (with_diagonal_lem.diagonal a ha))
      walk a b (single (ha, hb, inr (con, m, p, e, f))) all =
          subst₂ (λ i j. at with_edges i j ≡ true) e f (all.edges con m p)
      walk a b (join m h p q) all = absurd (omega arith)

  Outlives-Via : {a b : ℕ} → a < n → Outlives pred cons a b → Via (Step pred cons n) n a b × (b < n)
  Outlives-Via h here = (single (h, h, inl refl), h)
  Outlives-Via h (next p (con, m, ok, e, f)) =
      let (walk, hb) = Outlives-Via h p in
      let hc = subst (λ j. j < n) f (below con m).1 in
      (join _ hb walk (single (hb, hc, inr (con, m, ok, e, f))), hc)

-- For regions that the matrix has room for, an entry of `closure_over` is set exactly when the
-- constraints that pass the test imply that the first region outlives the second.
pub closure_over-Outlives :
    (graph : RegionGraph) (n : ℕ) (pred : ConstraintSource → Bool) (a b : ℕ)
    → Below n graph.outlives
    → a < n
    → (at (closure_over graph n pred) a b ≡ true) ↔ Outlives pred graph.outlives a b
unfolding closure_over
closure_over-Outlives graph n pred a b below h =
    let done =
      Closed-stages pred graph.outlives n _ (Closed-with_edges pred graph.outlives n below) in
    (
      done.still_sound.sound a b,
      λ p. done.complete a b (Outlives-Via pred graph.outlives n below h p).0,
    )
