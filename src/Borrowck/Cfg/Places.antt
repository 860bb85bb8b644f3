-- ===== src/Borrowck/Cfg/Places.antt =====
-- What the comparisons of places decide.
use pocket_rust.Prelude.{
  append_assoc, ◌&&◌, ℕ, ◌≡◌, ◌↔◌, ◌⊎◌, inl, inr, refl, sym, ap, ◌∙◌, Bool, true, false, not, ◌||◌,
  List, [], ◌∷◌, ◌++◌, ltb, ◌==◌, if◌then◌else◌, length, arith, ==_iff, length-append,
}
use mathlib.Core.Logic.{⊎_elim}
use text.Mathlib.TextEquality.{eq_iff}
use pocket_rust.Borrowck.Cfg.{
  projections_eq, place_eq, Projection, field, tuple_index, deref, Place, projection_eq, same_start,
  is_prefix_of, overlaps,
}

abbrev kind : Projection → ℕ
kind (field f) = 0
kind (tuple_index i) = 1
kind deref = 2

apart : {p q : Projection} → (kind p ≡ kind q → ⊥) → (false ≡ true) ↔ (p ≡ q)
apart n = (λ h. absurd (cc), λ e. absurd (n (ap kind e)))

pub projection_eq_iff : (p q : Projection) → (projection_eq p q ≡ true) ↔ (p ≡ q)
unfolding projection_eq
projection_eq_iff (field f) (field g) = (λ h. ap field ((eq_iff f g).0 h), λ e. (eq_iff f g).1 (cc))
projection_eq_iff (tuple_index i) (tuple_index j) =
    (λ h. ap tuple_index ((==_iff i j).0 h), λ e. (==_iff i j).1 (cc))
projection_eq_iff deref deref = (λ h. refl, λ e. refl)
projection_eq_iff (field f) (tuple_index j) = apart (λ e. absurd (omega arith))
projection_eq_iff (field f) deref = apart (λ e. absurd (omega arith))
projection_eq_iff (tuple_index i) (field g) = apart (λ e. absurd (omega arith))
projection_eq_iff (tuple_index i) deref = apart (λ e. absurd (omega arith))
projection_eq_iff deref (field g) = apart (λ e. absurd (omega arith))
projection_eq_iff deref (tuple_index j) = apart (λ e. absurd (omega arith))

gate_iff : (a b : Bool) → ((if not a then false else b) ≡ true) ↔ ((a ≡ true) × (b ≡ true))
gate_iff true b = (λ h. (refl, h), λ h. h.1)
gate_iff false b = (λ h. absurd (cc), λ h. absurd (let q = h.0 in cc))

both_iff : (a b : Bool) → ((a && b) ≡ true) ↔ ((a ≡ true) × (b ≡ true))
both_iff true b = (λ h. (refl, h), λ h. h.1)
both_iff false b = (λ h. absurd (cc), λ h. absurd (let q = h.0 in cc))

gates_iff :
    (a b c : Bool)
    → ((if not a then false else if b then false else c) ≡ true)
      ↔ ((a ≡ true) × (b ≡ false) × (c ≡ true))
gates_iff true false c = (λ h. (refl, refl, h), λ (p, q, r). r)
gates_iff true true c = (λ h. absurd (cc), λ (p, q, r). absurd (cc))
gates_iff false b c = (λ h. absurd (cc), λ (p, q, r). absurd (cc))

-- The second list goes on from the first.
abbrev Continues : List Projection → List Projection → Type 0
Continues ps qs = (rest : List Projection) × (qs ≡ ps ++ rest)

same_start_iff : (ps qs : List Projection) → (same_start ps qs ≡ true) ↔ Continues ps qs
unfolding same_start
same_start_iff [] qs = (λ h. (qs, refl), λ c. refl)
same_start_iff (p ∷ ps) [] = (λ h. absurd (cc), λ (rest, e). absurd (cc))
same_start_iff (p ∷ ps) (q ∷ qs) =
    let parts = gate_iff (projection_eq p q) (same_start ps qs) in
    let same = projection_eq_iff p q in
    let rest = same_start_iff ps qs in
    (
      λ h.
          let (a, b) = parts.0 h in
          let (tail, e) = rest.0 b in
          (tail, ap (λ x. x ∷ qs) (sym (same.0 a)) ∙ ap (λ xs. p ∷ xs) e),
      λ (tail, e).
          let a : p ≡ q = cc in
          let b : qs ≡ ps ++ tail = cc in parts.1 (same.1 a, rest.1 (tail, b)),
    )

-- The length test of `is_prefix_of` turns down no continuation.
Continues-longer : (ps qs : List Projection) → Continues ps qs → ltb (length qs) (length ps) ≡ false
Continues-longer ps qs (rest, e) = let n = ap length e in ground (arith, n, length-append ps rest)

-- A place is a prefix of another when the other has the same root and goes on from its projections.
abbrev pub Prefix : Place → Place → Type 0
Prefix p q = (p.root ≡ q.root) × (rest : List Projection) × (q.projections ≡ p.projections ++ rest)

-- `is_prefix_of` holds exactly when the other place has the same root and goes on from the projections.
pub is_prefix_of-Prefix : (p q : Place) → (is_prefix_of p q ≡ true) ↔ Prefix p q
unfolding is_prefix_of
is_prefix_of-Prefix p q =
    let start = same_start_iff p.projections q.projections in
    let long = Continues-longer p.projections q.projections in
    let parts =
      gates_iff (p.root == q.root) (ltb (length q.projections) (length p.projections))
        (same_start p.projections q.projections) in
    (
      λ h.
          let (a, b, c) = parts.0 h in
          let (rest, e) = start.0 c in ((==_iff p.root q.root).0 a, rest, e),
      λ (a, rest, e). parts.1 ((==_iff p.root q.root).1 a, long (rest, e), start.1 (rest, e)),
    )

-- `overlaps` holds exactly when one of the two places is a prefix of the other.
pub overlaps-Prefix : (p q : Place) → (overlaps p q ≡ true) ↔ (Prefix p q ⊎ Prefix q p)
unfolding overlaps
overlaps-Prefix p q =
    let a = is_prefix_of-Prefix p q in
    let b = is_prefix_of-Prefix q p in
    (
      λ h.
          ⊎_elim (λ e. inl (a.0 e)) (λ e. inr (b.0 e))
            (or_cases (is_prefix_of p q) (is_prefix_of q p) h),
      ⊎_elim (λ x. or_left (is_prefix_of p q) (is_prefix_of q p) (a.1 x))
          (λ x. or_right (is_prefix_of p q) (is_prefix_of q p) (b.1 x)),
    )
  where
    or_cases : (s t : Bool) → (s || t) ≡ true → (s ≡ true) ⊎ (t ≡ true)
    or_cases true t h = inl refl
    or_cases false t h = inr h

    or_left : (s t : Bool) → s ≡ true → (s || t) ≡ true
    or_left true t h = refl
    or_left false t h = absurd (cc)

    or_right : (s t : Bool) → t ≡ true → (s || t) ≡ true
    or_right true t h = refl
    or_right false t h = h

projections_eq_iff : (ps qs : List Projection) → (projections_eq ps qs ≡ true) ↔ (ps ≡ qs)
unfolding projections_eq
projections_eq_iff [] [] = (λ h. refl, λ e. refl)
projections_eq_iff [] (q ∷ qs) = (λ h. absurd (cc), λ e. absurd (cc))
projections_eq_iff (p ∷ ps) [] = (λ h. absurd (cc), λ e. absurd (cc))
projections_eq_iff (p ∷ ps) (q ∷ qs) =
    let parts = both_iff (projection_eq p q) (projections_eq ps qs) in
    let first = projection_eq_iff p q in
    let rest = projections_eq_iff ps qs in
    (
      λ h. let (a, b) = parts.0 h in ap (λ x. x ∷ ps) (first.0 a) ∙ ap (λ xs. q ∷ xs) (rest.0 b),
      λ e. let a : p ≡ q = cc in let b : ps ≡ qs = cc in parts.1 (first.1 a, rest.1 b),
    )

-- Equal places.
pub place_eq_iff : (p q : Place) → (place_eq p q ≡ true) ↔ (p ≡ q)
unfolding place_eq
place_eq_iff p q =
    let parts = both_iff (p.root == q.root) (projections_eq p.projections q.projections) in
    (
      λ h.
          let (a, b) = parts.0 h in
          ap (λ r. record { root = r; projections = p.projections }) ((==_iff p.root q.root).0 a)
          ∙ ap (λ ps. record { root = q.root; projections = ps })
              ((projections_eq_iff p.projections q.projections).0 b),
      λ e. parts.1 (
        (==_iff p.root q.root).1 (ap (λ x. x.root) e),
        (projections_eq_iff p.projections q.projections).1 (ap (λ x. x.projections) e),
      ),
    )

common :
    (ps qs more others : List Projection)
    → ps ++ more ≡ qs ++ others
    → Continues ps qs ⊎ Continues qs ps
common [] qs more others e = inl (qs, refl)
common (p ∷ ps) [] more others e = inr (p ∷ ps, refl)
common (p ∷ ps) (q ∷ qs) more others e =
    let a : p ≡ q = cc in
    let b : ps ++ more ≡ qs ++ others = cc in
    ⊎_elim (λ (rest, f). inl (rest, ap (λ x. x ∷ qs) (sym a) ∙ ap (λ xs. p ∷ xs) f))
      (λ (rest, f). inr (rest, ap (λ x. x ∷ ps) a ∙ ap (λ xs. q ∷ xs) f))
      (common ps qs more others b)

-- Whatever overlaps a part of a place overlaps the place.
pub overlaps-part : (p r q : Place) → Prefix p r → overlaps r q ≡ true → overlaps p q ≡ true
overlaps-part p r q (same, a, e) h = (overlaps-Prefix p q).1 (
    ⊎_elim
      (λ (s, b, f).
        inl (same ∙ s, a ++ b, f ∙ ap (λ xs. xs ++ b) e ∙ append_assoc p.projections a b))
      (λ (s, b, f).
        ⊎_elim (λ (t, g). inl (same ∙ sym s, t, g)) (λ (t, g). inr (s ∙ sym same, t, g))
          (common p.projections q.projections a b (sym e ∙ f)))
      ((overlaps-Prefix r q).0 h))
