-- ===== src/Borrowck/Moves/Merge.antt =====
-- The status that `merge` gives each place.
use pocket_rust.Prelude.{
  ◌≡◌, refl, sym, ap, ◌∙◌, Bool, false, not, Bool-cases, Option, none, some, List, [], ◌∷◌, ◌++◌,
  any, if◌then◌else◌,
}
use mathlib.Core.Logic.{⊎_elim}
use mathlib.Core.Path.{subst}
use pocket_rust.Borrowck.Cfg.{Place, place_eq}
use pocket_rust.Borrowck.Cfg.Places.{place_eq_iff}
use pocket_rust.Borrowck.Moves.{
  MoveStatus, maybe_moved, status_eq, Entry, MoveSet, status_of, merged_status, merge_left,
  merge_right, merge,
}

-- A status on both paths stays when it is the same; any other one becomes `maybe_moved`.
unfoldable pub joined : Option MoveStatus → Option MoveStatus → Option MoveStatus
joined none none = none
joined (some s) (some t) = some (if status_eq s t then s else maybe_moved)
joined (some s) none = some maybe_moved
joined none (some t) = some maybe_moved

abbrev or_else : Option MoveStatus → Option MoveStatus → Option MoveStatus
or_else none o = o
or_else (some s) o = some s

abbrev with_right : Option MoveStatus → Option MoveStatus → Option MoveStatus
with_right none o = none
with_right (some s) o = some (merged_status s o)

abbrev widened : Option MoveStatus → Option MoveStatus
widened none = none
widened (some t) = some maybe_moved

status_of-append :
    (p : Place) (xs ys : List Entry)
    → status_of p (xs ++ ys) ≡ or_else (status_of p xs) (status_of p ys)
status_of-append p [] ys = refl
status_of-append p ((q, s) ∷ xs) ys =
    ⊎_elim (λ e. rw e refl) (λ e. rw e (status_of-append p xs ys)) (Bool-cases (place_eq q p))

status_of-left :
    (p : Place) (xs bs : List Entry)
    → status_of p (merge_left xs bs) ≡ with_right (status_of p xs) (status_of p bs)
status_of-left p [] bs = refl
status_of-left p ((q, s) ∷ xs) bs =
    ⊎_elim (λ e. rw e (ap (λ r. some (merged_status s (status_of r bs))) ((place_eq_iff q p).0 e)))
      (λ e. rw e (status_of-left p xs bs)) (Bool-cases (place_eq q p))

no_entry :
    (p : Place) (xs : List Entry)
    → status_of p xs ≡ none
    → any (λ (pa, sa). place_eq pa p) xs ≡ false
no_entry p [] h = refl
no_entry p ((q, s) ∷ xs) h =
    ⊎_elim
      (λ e. let bad = subst (λ b. (if b then some s else status_of p xs) ≡ none) e h in absurd (cc))
      (λ e. rw e (no_entry p xs (subst (λ b. (if b then some s else status_of p xs) ≡ none) e h)))
      (Bool-cases (place_eq q p))

status_of-right :
    (p : Place) (xs bs : List Entry)
    → status_of p xs ≡ none
    → status_of p (merge_right xs bs) ≡ widened (status_of p bs)
status_of-right p xs [] h = refl
status_of-right p xs ((q, s) ∷ bs) h =
    let rest = status_of-right p xs bs h in
    let kept : Bool → List Entry =
      λ b. if not b then (q, maybe_moved) ∷ merge_right xs bs else merge_right xs bs in
    ⊎_elim
      (λ e.
        let absent : any (λ (pa, sa). place_eq pa q) xs ≡ false =
          subst (λ r. any (λ (pa, sa). place_eq pa r) xs ≡ false) (sym ((place_eq_iff q p).0 e))
            (no_entry p xs h) in
        ap (λ b. status_of p (kept b)) absent ∙ rw e refl)
      (λ e.
        ⊎_elim (λ f. ap (λ b. status_of p (kept b)) f ∙ rest ∙ rw e refl)
          (λ f. ap (λ b. status_of p (kept b)) f ∙ rw e rest)
          (Bool-cases (any (λ (pa, sa). place_eq pa q) xs)))
      (Bool-cases (place_eq q p))

-- Every place has after a merge the join of the statuses it has on the two sides.
pub merge-joined :
    (a b : MoveSet) (p : Place)
    → status_of p (merge a b).entries ≡ joined (status_of p a.entries) (status_of p b.entries)
unfolding merge joined
merge-joined a b p =
    status_of-append p (merge_left a.entries b.entries) (merge_right a.entries b.entries)
    ∙ ap (λ o. or_else o (status_of p (merge_right a.entries b.entries)))
        (status_of-left p a.entries b.entries)
    ∙ sides (status_of p a.entries) refl
  where
    sides :
        (o : Option MoveStatus)
        → status_of p a.entries ≡ o
        → or_else
            (with_right o (status_of p b.entries))
            (status_of p (merge_right a.entries b.entries))
          ≡ joined o (status_of p b.entries)
    sides none e = status_of-right p a.entries b.entries e ∙ last (status_of p b.entries)
      where
        last : (t : Option MoveStatus) → widened t ≡ joined none t
        last none = refl
        last (some t) = refl
    sides (some s) e = both (status_of p b.entries)
      where
        both : (t : Option MoveStatus) → some (merged_status s t) ≡ joined (some s) t
        both none = refl
        both (some t) = refl
