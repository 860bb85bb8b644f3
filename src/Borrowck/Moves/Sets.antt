-- ===== src/Borrowck/Moves/Sets.antt =====
-- Which places may be read after the operations on `MoveSet`.
use pocket_rust.Prelude.{
  ◌≡◌, ◌↔◌, ◌⊎◌, inl, inr, refl, sym, Bool, true, false, not, ◌||◌, Bool-cases, none, some, List,
  [], ◌∷◌, ◌++◌, All, retain, any, if◌then◌else◌,
}
use mathlib.Core.Logic.{⊎_elim}
use mathlib.Core.Path.{subst}
use pocket_rust.Borrowck.Cfg.{Place, place_eq, is_prefix_of, overlaps}
use pocket_rust.Borrowck.Cfg.Places.{place_eq_iff, is_prefix_of-Prefix, overlaps-part}
use pocket_rust.Borrowck.Moves.{
  MoveStatus, maybe_moved, Entry, MoveSet, first_overlap, check_readable, merge_entry, mark, init,
  merge_left, merge_right, merge, max_status,
}

-- The place may be read.
abbrev pub Readable : MoveSet → Place → Type 0
Readable s q = check_readable s q ≡ none

-- No entry overlaps the place.
abbrev Clear : Place → List Entry → Type 0
Clear q entries = All (λ e. overlaps e.0 q ≡ false) entries

Readable-Clear :
    (q : Place) (entries : List Entry) → (first_overlap q entries ≡ none) ↔ Clear q entries
Readable-Clear q [] = (λ h. tt, λ h. refl)
Readable-Clear q ((p, s) ∷ entries) =
    let rest = Readable-Clear q entries in
    ⊎_elim
      (λ e. (
        λ h.
            let bad = subst (λ b. (if b then some s else first_overlap q entries) ≡ none) e h in
            absurd (cc),
        λ h. let bad = h.0 in absurd (cc),
      ))
      (λ e. (
        λ h. (e, rest.0 (subst (λ b. (if b then some s else first_overlap q entries) ≡ none) e h)),
        λ h.
            subst (λ b. (if b then some s else first_overlap q entries) ≡ none) (sym e)
              (rest.1 h.1),
      ))
      (Bool-cases (overlaps p q))

Clear-append : (q : Place) (xs ys : List Entry) → Clear q (xs ++ ys) ↔ (Clear q xs × Clear q ys)
Clear-append q [] ys = (λ h. (tt, h), λ h. h.1)
Clear-append q (x ∷ xs) ys =
    let rest = Clear-append q xs ys in
    (λ h. let (a, b) = rest.0 h.1 in ((h.0, a), b), λ (a, b). (a.0, rest.1 (a.1, b)))

Clear-left : (q : Place) (xs bs : List Entry) → Clear q (merge_left xs bs) ↔ Clear q xs
Clear-left q [] bs = (λ h. h, λ h. h)
Clear-left q ((p, s) ∷ xs) bs =
    let rest = Clear-left q xs bs in (λ h. (h.0, rest.0 h.1), λ h. (h.0, rest.1 h.1))

-- A place with an entry is clear of another where all entries are.
Clear-any :
    (q p : Place) (xs : List Entry)
    → any (λ (pa, sa). place_eq pa p) xs ≡ true
    → Clear q xs
    → overlaps p q ≡ false
Clear-any q p [] h c = absurd (cc)
Clear-any q p ((pa, sa) ∷ xs) h c =
    ⊎_elim (λ e. subst (λ r. overlaps r q ≡ false) ((place_eq_iff pa p).0 e) c.0)
      (λ e.
        let h' = subst (λ b. (if b then true else any (λ (pa, sa). place_eq pa p) xs) ≡ true) e h in
        Clear-any q p xs h' c.1)
      (Bool-cases (place_eq pa p))

Clear-right :
    (q : Place) (xs bs : List Entry) → Clear q xs → Clear q (merge_right xs bs) ↔ Clear q bs
Clear-right q xs [] c = (λ h. h, λ h. h)
Clear-right q xs ((pb, sb) ∷ bs) c =
    let rest = Clear-right q xs bs c in
    ⊎_elim
      (λ e. (
        λ h.
            let h' =
              subst
                (λ b.
                  Clear q
                    (if not b then (pb, maybe_moved) ∷ merge_right xs bs else merge_right xs bs))
                e h in
            (Clear-any q pb xs e c, rest.0 h'),
        λ h.
            subst
              (λ b.
                Clear q
                  (if not b then (pb, maybe_moved) ∷ merge_right xs bs else merge_right xs bs))
              (sym e) (rest.1 h.1),
      ))
      (λ e. (
        λ h.
            let h' =
              subst
                (λ b.
                  Clear q
                    (if not b then (pb, maybe_moved) ∷ merge_right xs bs else merge_right xs bs))
                e h in
            (h'.0, rest.0 h'.1),
        λ h.
            subst
              (λ b.
                Clear q
                  (if not b then (pb, maybe_moved) ∷ merge_right xs bs else merge_right xs bs))
              (sym e) (h.0, rest.1 h.1),
      ))
      (Bool-cases (any (λ (pa, sa). place_eq pa pb) xs))

-- A place may be read after a merge exactly when both sides allow it.
pub merge-Readable :
    (a b : MoveSet) (q : Place) → Readable (merge a b) q ↔ (Readable a q × Readable b q)
unfolding merge check_readable
merge-Readable a b q =
    let left = Readable-Clear q a.entries in
    let right = Readable-Clear q b.entries in
    let all = Readable-Clear q (merge a b).entries in
    let parts = Clear-append q (merge_left a.entries b.entries) (merge_right a.entries b.entries) in
    let l = Clear-left q a.entries b.entries in
    (
      λ h.
          let (x, y) = parts.0 (all.0 h) in
          let c = l.0 x in (left.1 c, right.1 ((Clear-right q a.entries b.entries c).0 y)),
      λ (x, y).
          let c = left.0 x in
          all.1 (parts.1 (l.1 c, (Clear-right q a.entries b.entries c).1 (right.0 y))),
    )

-- The entries that `mark` keeps, and the others, which are parts of the marked place.
Clear-retain :
    (p q : Place) (xs : List Entry)
    → overlaps p q ≡ false
    → Clear q (retain (λ (r, s). not (is_prefix_of p r) || place_eq p r) xs) ↔ Clear q xs
Clear-retain p q [] o = (λ h. h, λ h. h)
Clear-retain p q ((r, s) ∷ xs) o =
    let rest = Clear-retain p q xs o in
    ⊎_elim
      (λ e. (
        λ h. let h' = subst (λ b. Clear q (kept b)) e h in (h'.0, rest.0 h'.1),
        λ h. subst (λ b. Clear q (kept b)) (sym e) (h.0, rest.1 h.1),
      ))
      (λ e. (
        λ h.
            let h' = subst (λ b. Clear q (kept b)) e h in
            (part e (Bool-cases (is_prefix_of p r)), rest.0 h'),
        λ h. subst (λ b. Clear q (kept b)) (sym e) (rest.1 h.1),
      ))
      (Bool-cases (not (is_prefix_of p r) || place_eq p r))
  where
    kept : Bool → List Entry
    kept b =
        let rest = retain (λ (r, s). not (is_prefix_of p r) || place_eq p r) xs in
        if b then (r, s) ∷ rest else rest

    part :
        (not (is_prefix_of p r) || place_eq p r) ≡ false
        → (is_prefix_of p r ≡ true) ⊎ (is_prefix_of p r ≡ false)
        → overlaps r q ≡ false
    part e (inl h) =
        ⊎_elim (λ k. let bad = overlaps-part p r q ((is_prefix_of-Prefix p r).0 h) k in absurd (cc))
          (λ k. k) (Bool-cases (overlaps r q))
    part e (inr h) = let bad = subst (λ b. (not b || place_eq p r) ≡ false) h e in absurd (cc)

Clear-merge_entry :
    (p q : Place) (st : MoveStatus) (xs : List Entry)
    → Clear q (merge_entry p st xs) ↔ (Clear q xs × (overlaps p q ≡ false))
Clear-merge_entry p q st [] = (λ h. (tt, h.0), λ h. (h.1, tt))
Clear-merge_entry p q st ((r, s) ∷ xs) =
    let rest = Clear-merge_entry p q st xs in
    ⊎_elim
      (λ e. (
        λ h.
            let h' = subst (λ b. Clear q (choice b)) e h in
            ((h'.0, h'.1), subst (λ x. overlaps x q ≡ false) ((place_eq_iff r p).0 e) h'.0),
        λ h. subst (λ b. Clear q (choice b)) (sym e) (h.0.0, h.0.1),
      ))
      (λ e. (
        λ h.
            let h' = subst (λ b. Clear q (choice b)) e h in
            let (x, y) = rest.0 h'.1 in ((h'.0, x), y),
        λ h. subst (λ b. Clear q (choice b)) (sym e) (h.0.0, rest.1 (h.0.1, h.1)),
      ))
      (Bool-cases (place_eq r p))
  where
    choice : Bool → List Entry
    choice b =
        let rest = merge_entry p st xs in if b then (r, max_status s st) ∷ xs else (r, s) ∷ rest

-- After a place is marked, another one may be read exactly when it could be before and does not overlap the place.
pub mark-Readable :
    (s : MoveSet) (p q : Place) (st : MoveStatus)
    → Readable (mark s p st) q ↔ (Readable s q × (overlaps p q ≡ false))
unfolding mark check_readable
mark-Readable s p q st =
    let all = Readable-Clear q (mark s p st).entries in
    let old = Readable-Clear q s.entries in
    let parts =
      Clear-merge_entry p q st
        (retain (λ (r, s). not (is_prefix_of p r) || place_eq p r) s.entries) in
    (
      λ h. let (x, o) = parts.0 (all.0 h) in (old.1 ((Clear-retain p q s.entries o).0 x), o),
      λ (x, o). all.1 (parts.1 ((Clear-retain p q s.entries o).1 (old.0 x), o)),
    )

-- The entry is a strict container of the place, which an assignment to the place does not initialize.
abbrev pub Outside : Place → Entry → Type 0
Outside p e = (overlaps e.0 p ≡ true) × (is_prefix_of p e.0 ≡ false)

Clear-init :
    (p : Place) (xs : List Entry)
    → Clear p (retain (λ (r, s). not (is_prefix_of p r)) xs) ↔ All (λ e. Outside p e → ⊥) xs
Clear-init p [] = (λ h. h, λ h. h)
Clear-init p ((r, s) ∷ xs) =
    let rest = Clear-init p xs in
    ⊎_elim
      (λ e. (
        λ h. (λ o. let q = o.1 in absurd (cc), rest.0 (subst (λ b. Clear p (kept b)) e h)),
        λ h. subst (λ b. Clear p (kept b)) (sym e) (rest.1 h.1),
      ))
      (λ e. (
        λ h.
            let h' = subst (λ b. Clear p (kept b)) e h in
            (λ o. let q = o.0 in let clear = h'.0 in absurd (cc), rest.0 h'.1),
        λ h.
            subst (λ b. Clear p (kept b)) (sym e)
              (⊎_elim (λ o. absurd (h.0 (o, e))) (λ o. o) (Bool-cases (overlaps r p)), rest.1 h.1),
      ))
      (Bool-cases (is_prefix_of p r))
  where
    kept : Bool → List Entry
    kept b =
        let rest = retain (λ (r, s). not (is_prefix_of p r)) xs in
        if not b then (r, s) ∷ rest else rest

-- An assigned place may be read exactly when no entry is for a place that contains it and more.
pub init-Readable :
    (s : MoveSet) (p : Place) → Readable (init s p) p ↔ All (λ e. Outside p e → ⊥) s.entries
unfolding init check_readable
init-Readable s p =
    let all = Readable-Clear p (init s p).entries in
    let parts = Clear-init p s.entries in (λ h. parts.0 (all.0 h), λ h. all.1 (parts.1 h))
