-- ===== src/Borrowck/Moves.antt =====
-- src/borrowck/moves.rs: the places that are moved out of, and the operations on their set.
pub mod Sets
pub mod Merge
pub mod Transfer
pub mod Snapshot
pub mod Worklist
mod Examples
use pocket_rust.Prelude.{
  ℕ, Bool, true, false, not, ◌&&◌, ◌||◌, Option, none, some, List, [], ◌∷◌, ◌++◌, ◌==◌,
  if◌then◌else◌, length, retain, any,
}
use pocket_rust.Borrowck.Cfg.{Place, place_eq, is_prefix_of, overlaps}

pub data MoveStatus : Type 0 where
  moved maybe_moved uninit : MoveStatus

-- `==` on `MoveStatus`, as derived.
unfoldable pub status_eq : MoveStatus → MoveStatus → Bool
status_eq moved moved = true
status_eq maybe_moved maybe_moved = true
status_eq uninit uninit = true
status_eq _ _ = false

-- An entry of the set. A place without an entry is initialized.
abbrev pub Entry : Type 0
Entry = Place × MoveStatus

pub record MoveSet : Type 0 where
  pub entries : List Entry

abbrev pub empty : MoveSet
empty = record { entries = [] }

abbrev pub all_found : List Entry → List Entry → Bool
all_found [] others = true
all_found ((p, s) ∷ entries) others =
    let rest = all_found entries others in
    if not (any (λ (q, t). place_eq q p && status_eq t s) others) then false else rest

unfoldable pub equal : MoveSet → MoveSet → Bool
equal self other =
    if not (length self.entries == length other.entries)
    then false
    else all_found self.entries other.entries

-- The status of the first entry that overlaps the place.
abbrev pub first_overlap : Place → List Entry → Option MoveStatus
first_overlap place [] = none
first_overlap place ((p, s) ∷ entries) =
    let rest = first_overlap place entries in if overlaps p place then some s else rest

unfoldable pub check_readable : MoveSet → Place → Option MoveStatus
check_readable self place = first_overlap place self.entries

unfoldable pub max_status : MoveStatus → MoveStatus → MoveStatus
max_status moved _ = moved
max_status _ moved = moved
max_status uninit uninit = uninit
max_status _ _ = maybe_moved

abbrev pub merge_entry : Place → MoveStatus → List Entry → List Entry
merge_entry place status [] = (place, status) ∷ []
merge_entry place status ((p, s) ∷ entries) =
    let rest = merge_entry place status entries in
    if place_eq p place then (p, max_status s status) ∷ entries else (p, s) ∷ rest

unfoldable pub mark : MoveSet → Place → MoveStatus → MoveSet
mark self place status =
    let entries = retain (λ (p, s). not (is_prefix_of place p) || place_eq place p) self.entries in
    record { entries = merge_entry place status entries }

unfoldable pub init : MoveSet → Place → MoveSet
init self place = record { entries = retain (λ (p, s). not (is_prefix_of place p)) self.entries }

-- The first entry of the place.
abbrev pub status_of : Place → List Entry → Option MoveStatus
status_of place [] = none
status_of place ((p, s) ∷ entries) =
    let rest = status_of place entries in if place_eq p place then some s else rest

abbrev pub merged_status : MoveStatus → Option MoveStatus → MoveStatus
merged_status sa (some sb) = if status_eq sa sb then sa else maybe_moved
merged_status sa none = maybe_moved

-- The loop over `a`.
abbrev pub merge_left : List Entry → List Entry → List Entry
merge_left [] bs = []
merge_left ((pa, sa) ∷ entries) bs =
    (pa, merged_status sa (status_of pa bs)) ∷ merge_left entries bs

-- The loop over `b`.
abbrev pub merge_right : List Entry → List Entry → List Entry
merge_right entries [] = []
merge_right entries ((pb, sb) ∷ bs) =
    let rest = merge_right entries bs in
    if not (any (λ (pa, sa). place_eq pa pb) entries) then (pb, maybe_moved) ∷ rest else rest

unfoldable pub merge : MoveSet → MoveSet → MoveSet
merge a b = record { entries = merge_left a.entries b.entries ++ merge_right a.entries b.entries }
