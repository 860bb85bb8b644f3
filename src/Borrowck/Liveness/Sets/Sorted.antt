-- ===== src/Borrowck/Liveness/Sets/Sorted.antt =====
-- Sorted lists of numbers: the searches of `binary_search`, and what an insertion or a removal at their
-- positions comes to.
use pocket_rust.Prelude.{
  ℕ, ◌<◌, ◌≤◌, ◌≡◌, ◌≢◌, ◌↔◌, ◌⊎◌, refl, sym, ap, ◌∙◌, Bool, true, false, Result, ok, err, List, [],
  ◌∷◌, insert_at, remove_at, All, arith,
}
use Prim.Native.Nat.{compare, Ordering}
use native.Mathlib.Decide.{dec_lt}
use mathlib.Core.Path.{subst}
use pocket_rust.Borrowck.Liveness.{binary_search, later}

-- In the order of the list, without a repetition.
abbrev pub IsSorted : List ℕ → Type 0
IsSorted [] = Unit
IsSorted (x ∷ xs) = All (λ y. x < y) xs × IsSorted xs

abbrev pub is_found : Result ℕ ℕ → Bool
is_found (ok i) = true
is_found (err i) = false

abbrev pub insert_found : List ℕ → ℕ → Result ℕ ℕ → List ℕ
insert_found xs l (ok i) = xs
insert_found xs l (err i) = insert_at xs i l

abbrev pub remove_found : List ℕ → Result ℕ ℕ → List ℕ
remove_found xs (ok i) = remove_at xs i
remove_found xs (err i) = xs

-- What the searches come to, without positions.
abbrev pub member : List ℕ → ℕ → Bool
member [] l = false
member (x ∷ xs) l = elim (compare l x) [
  | Ordering.lt ↦ false
  | Ordering.eq ↦ true
  | Ordering.gt ↦ member xs l
]

abbrev pub with_element : List ℕ → ℕ → List ℕ
with_element [] l = l ∷ []
with_element (x ∷ xs) l =
    let rest = with_element xs l in
    elim (compare l x) [ Ordering.lt ↦ l ∷ x ∷ xs | Ordering.eq ↦ x ∷ xs | Ordering.gt ↦ x ∷ rest ]

abbrev pub without_element : List ℕ → ℕ → List ℕ
without_element [] l = []
without_element (x ∷ xs) l =
    let rest = without_element xs l in
    elim (compare l x) [ Ordering.lt ↦ x ∷ xs | Ordering.eq ↦ xs | Ordering.gt ↦ x ∷ rest ]

later_found : (r : Result ℕ ℕ) → is_found (later r) ≡ is_found r
later_found (ok i) = refl
later_found (err i) = refl

later-insert :
    (x : ℕ) (xs : List ℕ) (l : ℕ) (r : Result ℕ ℕ)
    → insert_found (x ∷ xs) l (later r) ≡ x ∷ insert_found xs l r
later-insert x xs l (ok i) = refl
later-insert x xs l (err i) = refl

later-remove :
    (x : ℕ) (xs : List ℕ) (r : Result ℕ ℕ) → remove_found (x ∷ xs) (later r) ≡ x ∷ remove_found xs r
later-remove x xs (ok i) = refl
later-remove x xs (err i) = refl

pub search_found : (xs : List ℕ) (l : ℕ) → is_found (binary_search xs l) ≡ member xs l
unfolding binary_search
search_found [] l = refl
search_found (x ∷ xs) l =
    elim (compare l x)
      as (λ o.
        is_found (elim o [
          | Ordering.lt ↦ err 0
          | Ordering.eq ↦ ok 0
          | Ordering.gt ↦ later (binary_search xs l)
        ])
        ≡ (elim o [ Ordering.lt ↦ false | Ordering.eq ↦ true | Ordering.gt ↦ member xs l ])) [
          | Ordering.lt ↦ refl
          | Ordering.eq ↦ refl
          | Ordering.gt ↦ later_found (binary_search xs l) ∙ search_found xs l
        ]

pub search-insert :
    (xs : List ℕ) (l : ℕ) → insert_found xs l (binary_search xs l) ≡ with_element xs l
unfolding binary_search
search-insert [] l = refl
search-insert (x ∷ xs) l =
    elim (compare l x)
      as (λ o.
        insert_found (x ∷ xs) l (elim o [
          | Ordering.lt ↦ err 0
          | Ordering.eq ↦ ok 0
          | Ordering.gt ↦ later (binary_search xs l)
        ])
        ≡ (elim o [
          | Ordering.lt ↦ l ∷ x ∷ xs
          | Ordering.eq ↦ x ∷ xs
          | Ordering.gt ↦ x ∷ with_element xs l
        ])) [
          | Ordering.lt ↦ refl
          | Ordering.eq ↦ refl
          | Ordering.gt ↦
              later-insert x xs l (binary_search xs l) ∙ ap (λ ys. x ∷ ys) (search-insert xs l)
        ]

pub search-remove :
    (xs : List ℕ) (l : ℕ) → remove_found xs (binary_search xs l) ≡ without_element xs l
unfolding binary_search
search-remove [] l = refl
search-remove (x ∷ xs) l =
    elim (compare l x)
      as (λ o.
        remove_found (x ∷ xs) (elim o [
          | Ordering.lt ↦ err 0
          | Ordering.eq ↦ ok 0
          | Ordering.gt ↦ later (binary_search xs l)
        ])
        ≡ (elim o [
          | Ordering.lt ↦ x ∷ xs
          | Ordering.eq ↦ xs
          | Ordering.gt ↦ x ∷ without_element xs l
        ])) [
          | Ordering.lt ↦ refl
          | Ordering.eq ↦ refl
          | Ordering.gt ↦
              later-remove x xs (binary_search xs l) ∙ ap (λ ys. x ∷ ys) (search-remove xs l)
        ]

pub member-with :
    (xs : List ℕ) (l m : ℕ)
    → (member (with_element xs l) m ≡ true) ↔ ((m ≡ l) ⊎ (member xs m ≡ true))
member-with [] l m = ground arith
member-with (x ∷ xs) l m = ground (arith, member-with xs l m)

-- Nothing at or below a lower bound is found.
pub member-below : (xs : List ℕ) (x m : ℕ) → All (λ y. x < y) xs → m ≤ x → member xs m ≡ false
member-below [] x m h p = refl
member-below (y ∷ xs) x m h p = ground (arith, h.0)

pub member-without :
    (xs : List ℕ) (l m : ℕ)
    → IsSorted xs
    → (member (without_element xs l) m ≡ true) ↔ ((m ≢ l) × (member xs m ≡ true))
member-without [] l m h = ground arith
member-without (x ∷ xs) l m h = ground (arith, member-without xs l m h.1, member-below xs x m h.0)

All-with : (P : ℕ → Type 0) (xs : List ℕ) (l : ℕ) → P l → All P xs → All P (with_element xs l)
All-with P [] l p h = (p, tt)
All-with P (x ∷ xs) l p h =
    elim (compare l x)
      as (λ o. All P (elim o [
        | Ordering.lt ↦ l ∷ x ∷ xs
        | Ordering.eq ↦ x ∷ xs
        | Ordering.gt ↦ x ∷ with_element xs l
      ])) [ Ordering.lt ↦ (p, h) | Ordering.eq ↦ h | Ordering.gt ↦ (h.0, All-with P xs l p h.1) ]

All-without : (P : ℕ → Type 0) (xs : List ℕ) (l : ℕ) → All P xs → All P (without_element xs l)
All-without P [] l h = tt
All-without P (x ∷ xs) l h =
    elim (compare l x)
      as (λ o. All P (elim o [
        | Ordering.lt ↦ x ∷ xs
        | Ordering.eq ↦ xs
        | Ordering.gt ↦ x ∷ without_element xs l
      ])) [ Ordering.lt ↦ h | Ordering.eq ↦ h.1 | Ordering.gt ↦ (h.0, All-without P xs l h.1) ]

All-lower : (xs : List ℕ) (l x : ℕ) → l < x → All (λ y. x < y) xs → All (λ y. l < y) xs
All-lower [] l x p h = tt
All-lower (y ∷ xs) l x p h = (omega (arith, h.0), All-lower xs l x p h.1)

pub IsSorted-with : (xs : List ℕ) (l : ℕ) → IsSorted xs → IsSorted (with_element xs l)
IsSorted-with [] l h = (tt, tt)
IsSorted-with (x ∷ xs) l h = elim (dec_lt l x) [
  | yes before ↦
      let e : with_element (x ∷ xs) l ≡ l ∷ x ∷ xs = ground arith in
      subst IsSorted (sym e) ((before, All-lower xs l x before h.0), h)
  | no other ↦ elim (dec_lt x l) [
    | yes after ↦
        let e : with_element (x ∷ xs) l ≡ x ∷ with_element xs l = ground arith in
        subst IsSorted (sym e) (All-with (λ y. x < y) xs l after h.0, IsSorted-with xs l h.1)
    | no same ↦ let e : with_element (x ∷ xs) l ≡ x ∷ xs = ground arith in subst IsSorted (sym e) h
  ]
]

pub IsSorted-without : (xs : List ℕ) (l : ℕ) → IsSorted xs → IsSorted (without_element xs l)
IsSorted-without [] l h = tt
IsSorted-without (x ∷ xs) l h =
    elim (compare l x)
      as (λ o. IsSorted (elim o [
        | Ordering.lt ↦ x ∷ xs
        | Ordering.eq ↦ xs
        | Ordering.gt ↦ x ∷ without_element xs l
      ])) [
        | Ordering.lt ↦ h
        | Ordering.eq ↦ h.1
        | Ordering.gt ↦ (All-without (λ y. x < y) xs l h.0, IsSorted-without xs l h.1)
      ]
