-- ===== src/Borrowck/Regions/Closure.antt =====
-- The three loops of `closure_over`: what they set is implied, and what is implied they set.
use pocket_rust.Prelude.{
  for_range_rule, ℕ, suc, ◌<◌, ◌≡◌, ◌⊎◌, inl, inr, refl, sym, Bool, true, ◌&&◌, Bool-cases, List,
  for_range, arith,
}
use mathlib.Core.Logic.{⊎_elim}
use mathlib.Core.Path.{subst, subst₂}
use native.Mathlib.Decide.{dec_lt}
use pocket_rust.Borrowck.Graph.{ConstraintSource, OutlivesConstraint}
use pocket_rust.Borrowck.Regions.{Matrix, at, mark, relax}
use pocket_rust.Borrowck.Regions.Matrix.{IsSquare, IsSquare-mark, at-mark}
use pocket_rust.Borrowck.Regions.Reach.{
  Edge, Outlives, Outlives-trans, Via, single, join, Via-split,
}

-- A matrix that says only what the constraints imply.
module _ (pred : ConstraintSource → Bool) (cons : List OutlivesConstraint) (n : ℕ) where
  abbrev pub Implied : ℕ → ℕ → Type 0
  Implied a b = Outlives pred cons a b

  pub record IsSound (c : Matrix) : Type 0 where
    pub square : IsSquare n c
    pub sound : (a b : ℕ) → at c a b ≡ true → Implied a b

  -- The entries that a stage may rely on are kept by the later ones.
  abbrev pub Grows : Matrix → Matrix → Type 0
  Grows c d = (a b : ℕ) → at c a b ≡ true → at d a b ≡ true

  pub IsSound-mark :
      {c : Matrix} (a b : ℕ) → a < n → b < n → Implied a b → IsSound c → IsSound (mark c a b)
  IsSound-mark {c} a b ha hb p s = record {
    square = IsSquare-mark a b ha s.square;
    sound = λ x y h.
        ⊎_elim (s.sound x y) (λ (e, f). subst₂ Implied (sym e) (sym f) p)
          ((at-mark a b x y s.square ha hb).0 h);
  }

  pub Grows-mark : {c : Matrix} (a b : ℕ) → a < n → b < n → IsSquare n c → Grows c (mark c a b)
  Grows-mark a b ha hb sq x y h = (at-mark a b x y sq ha hb).1 (inl h)

  pub marked : {c : Matrix} (a b : ℕ) → a < n → b < n → IsSquare n c → at (mark c a b) a b ≡ true
  marked a b ha hb sq = (at-mark a b a b sq ha hb).1 (inr (refl, refl))

  -- One round of the innermost loop.
  record Relaxed (k a b : ℕ) (c d : Matrix) : Type 0 where
    still_sound : IsSound d
    grown : Grows c d
    through : at c a k ≡ true → at c k b ≡ true → at d a b ≡ true

  relax-Relaxed :
      (k a b : ℕ) (c : Matrix) → k < n → a < n → b < n → IsSound c → Relaxed k a b c (relax k a b c)
  relax-Relaxed k a b c hk ha hb s = elim (Bool-cases (at c a k && at c k b)) [
    | inl both ↦
        let p = Outlives-trans (s.sound a k (ground arith)) (s.sound k b (ground arith)) in
        rw both (record {
          still_sound = IsSound-mark a b ha hb p s;
          grown = Grows-mark a b ha hb s.square;
          through = λ x y. marked a b ha hb s.square;
        })
    | inr missing ↦
        rw missing
          (record { still_sound = s; grown = λ x y h. h; through = λ x y. absurd (ground arith) })
  ]

  -- The row `a` of stage `k`, whose first `i` columns are done; `start` is the matrix of the stage.
  record RowDone (k a : ℕ) (start : Matrix) (i : ℕ) (c : Matrix) : Type 0 where
    still_sound : IsSound c
    grown : Grows start c
    columns : (b : ℕ) → b < i → at start a k ≡ true → at start k b ≡ true → at c a b ≡ true

  RowDone-relax :
      (k a : ℕ) (start : Matrix)
      → k < n
      → a < n
      → (i : ℕ) (c : Matrix) → i < n
      → RowDone k a start i c
      → RowDone k a start (suc i) (relax k a i c)
  RowDone-relax k a start hk ha i c hi r =
      let s = relax-Relaxed k a i c hk ha hi r.still_sound in
      record {
        still_sound = s.still_sound;
        grown = λ x y h. s.grown x y (r.grown x y h);
        columns = λ b h p q. elim (dec_lt b i) [
          | yes before ↦ s.grown a b (r.columns b before p q)
          | no last ↦
              let e : i ≡ b = omega arith in
              subst (λ j. at (relax k a i c) a j ≡ true) e
                (s.through (r.grown a k p) (subst (λ j. at c k j ≡ true) (sym e) (r.grown k b q)))
        ];
      }

  -- Stage `k`, whose first `i` rows are done.
  record StageDone (k : ℕ) (start : Matrix) (i : ℕ) (c : Matrix) : Type 0 where
    still_sound : IsSound c
    grown : Grows start c
    rows : (a b : ℕ) → a < i → b < n → at start a k ≡ true → at start k b ≡ true → at c a b ≡ true

  abbrev pub row : ℕ → ℕ → Matrix → Matrix
  row k a c = for_range n 0 (λ b d. relax k a b d) c

  row-RowDone : (k a : ℕ) (c : Matrix) → k < n → a < n → IsSound c → RowDone k a c n (row k a c)
  row-RowDone k a c hk ha s =
      for_range_rule (RowDone k a c) (λ b d. relax k a b d) n (RowDone-relax k a c hk ha) n 0 c
        (omega arith)
        (record { still_sound = s; grown = λ x y h. h; columns = λ b h p q. absurd (omega arith) })

  StageDone-row :
      (k : ℕ) (start : Matrix)
      → k < n
      → (i : ℕ) (c : Matrix) → i < n
      → StageDone k start i c
      → StageDone k start (suc i) (row k i c)
  StageDone-row k start hk i c hi r =
      let s = row-RowDone k i c hk hi r.still_sound in
      record {
        still_sound = s.still_sound;
        grown = λ x y h. s.grown x y (r.grown x y h);
        rows = λ a b ha hb p q. elim (dec_lt a i) [
          | yes before ↦ s.grown a b (r.rows a b before hb p q)
          | no last ↦
              let e : i ≡ a = omega arith in
              subst (λ j. at (row k i c) j b ≡ true) e
                (s.columns b hb (subst (λ j. at c j k ≡ true) (sym e) (r.grown a k p))
                  (r.grown k b q))
        ];
      }

  abbrev pub stage : ℕ → Matrix → Matrix
  stage k c = for_range n 0 (λ a d. row k a d) c

  stage-StageDone : (k : ℕ) (c : Matrix) → k < n → IsSound c → StageDone k c n (stage k c)
  stage-StageDone k c hk s =
      for_range_rule (StageDone k c) (λ a d. row k a d) n (StageDone-row k c hk) n 0 c (omega arith)
        (record { still_sound = s; grown = λ x y h. h; rows = λ a b h l p q. absurd (omega arith) })

  -- The single steps between regions that the matrix has room for.
  abbrev pub Step : ℕ → ℕ → Type 0
  Step a b = (a < n) × (b < n) × ((a ≡ b) ⊎ Edge pred cons a b)

  pub Via-below : {k a b : ℕ} → Via Step k a b → (a < n) × (b < n)
  Via-below (single s) = (s.0, s.1)
  Via-below (join m h p q) = ((Via-below p).0, (Via-below q).1)

  -- After `k` stages every walk whose inner regions are below `k` is in the matrix.
  pub record Closed (k : ℕ) (c : Matrix) : Type 0 where
    pub still_sound : IsSound c
    pub complete : (a b : ℕ) → Via Step k a b → at c a b ≡ true

  Closed-stage : (k : ℕ) (c : Matrix) → k < n → Closed k c → Closed (suc k) (stage k c)
  Closed-stage k c hk r =
      let s = stage-StageDone k c hk r.still_sound in
      record {
        still_sound = s.still_sound;
        complete = λ a b w.
            ⊎_elim (λ v. s.grown a b (r.complete a b v))
              (λ (p, q).
                s.rows a b (Via-below p).0 (Via-below q).1 (r.complete a k p) (r.complete k b q))
              (Via-split w);
      }

  pub Closed-stages : (c : Matrix) → Closed 0 c → Closed n (for_range n 0 (λ k d. stage k d) c)
  Closed-stages c r = for_range_rule Closed (λ k d. stage k d) n Closed-stage n 0 c (omega arith) r
