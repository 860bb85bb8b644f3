-- ===== src/Borrowck/Liveness/Sets.antt =====
-- The operations of `LiveSet` keep the list sorted and do to its elements what their names say.
pub mod Sorted
pub mod Size
use pocket_rust.Prelude.{
  ℕ, zero, suc, ◌+◌, ◌<◌, ◌≤◌, ◌≡◌, ◌≢◌, ◌↔◌, ◌⊎◌, inl, inr, refl, sym, ap, ◌∙◌, Bool, true, false,
  Result, ok, err, List, [], ◌∷◌, insert_at, remove_at, All, for_each, arith,
}
use Prim.Native.Nat.{compare, Ordering}
use native.Mathlib.Decide.{dec_lt}
use mathlib.Core.Logic.{⊎_elim}
use mathlib.Core.Path.{subst}
use pocket_rust.Borrowck.Cfg.{LocalId}
use pocket_rust.Borrowck.Liveness.{
  LiveSet, empty, binary_search, contains, insert, remove, union, later, list_eq, equal,
}
use pocket_rust.Borrowck.Liveness.Sets.Sorted.{
  IsSorted, is_found, insert_found, remove_found, member, with_element, without_element,
  search_found, search-insert, search-remove, member-with, member-below, member-without,
  IsSorted-with, IsSorted-without,
}

-- `l` is in the set.
abbrev pub Has : LiveSet → LocalId → Type 0
Has s l = contains s l ≡ true

pub contains-member : (s : LiveSet) (l : LocalId) → contains s l ≡ member s.locals l
unfolding contains
contains-member s l = found (binary_search s.locals l) ∙ search_found s.locals l
  where
    found : (r : Result ℕ ℕ) → (elim r [ ok i ↦ true | err i ↦ false ]) ≡ is_found r
    found (ok i) = refl
    found (err i) = refl

insert-locals : (s : LiveSet) (l : LocalId) → (insert s l).1.locals ≡ with_element s.locals l
unfolding insert
insert-locals s l = go (binary_search s.locals l) ∙ search-insert s.locals l
  where
    go :
        (r : Result ℕ ℕ)
        → (elim r as (λ x. Bool × LiveSet) [
          | ok i ↦ (false, s)
          | err i ↦ (true, record { locals = insert_at s.locals i l })
        ]).1.locals
          ≡ insert_found s.locals l r
    go (ok i) = refl
    go (err i) = refl

remove-locals : (s : LiveSet) (l : LocalId) → (remove s l).1.locals ≡ without_element s.locals l
unfolding remove
remove-locals s l = go (binary_search s.locals l) ∙ search-remove s.locals l
  where
    go :
        (r : Result ℕ ℕ)
        → (elim r as (λ x. Bool × LiveSet) [
          | ok i ↦ (true, record { locals = remove_at s.locals i })
          | err i ↦ (false, s)
        ]).1.locals
          ≡ remove_found s.locals r
    go (ok i) = refl
    go (err i) = refl

pub insert-Has : (s : LiveSet) (l m : LocalId) → Has (insert s l).1 m ↔ ((m ≡ l) ⊎ Has s m)
insert-Has s l m =
    let e : contains (insert s l).1 m ≡ member (with_element s.locals l) m =
      contains-member (insert s l).1 m ∙ ap (λ xs. member xs m) (insert-locals s l) in
    let f = member-with s.locals l m in
    let g = contains-member s m in
    (
      λ h. ⊎_elim (λ p. inl p) (λ p. inr (g ∙ p)) (f.0 (sym e ∙ h)),
      λ h. e ∙ f.1 (⊎_elim (λ p. inl p) (λ p. inr (sym g ∙ p)) h),
    )

pub remove-Has :
    (s : LiveSet) (l m : LocalId) → IsSorted s.locals → Has (remove s l).1 m ↔ ((m ≢ l) × Has s m)
remove-Has s l m h =
    let e : contains (remove s l).1 m ≡ member (without_element s.locals l) m =
      contains-member (remove s l).1 m ∙ ap (λ xs. member xs m) (remove-locals s l) in
    let f = member-without s.locals l m h in
    let g = contains-member s m in
    (λ p. let q = f.0 (sym e ∙ p) in (q.0, g ∙ q.1), λ p. e ∙ f.1 (p.0, sym g ∙ p.1))

pub insert-IsSorted :
    (s : LiveSet) (l : LocalId) → IsSorted s.locals → IsSorted (insert s l).1.locals
insert-IsSorted s l h = subst IsSorted (sym (insert-locals s l)) (IsSorted-with s.locals l h)

pub remove-IsSorted :
    (s : LiveSet) (l : LocalId) → IsSorted s.locals → IsSorted (remove s l).1.locals
remove-IsSorted s l h = subst IsSorted (sym (remove-locals s l)) (IsSorted-without s.locals l h)

-- The loop of `union`.
insert_all-Has :
    (a : LiveSet) (xs : List LocalId) (m : LocalId)
    → IsSorted xs
    → Has (for_each (λ out l. (insert out l).1) a xs) m ↔ (Has a m ⊎ (member xs m ≡ true))
unfolding for_each
insert_all-Has a [] m h = (λ p. inl p, ⊎_elim (λ p. p) (λ p. absurd (cc)))
insert_all-Has a (x ∷ xs) m h =
    let rest = insert_all-Has (insert a x).1 xs m h.1 in
    let one = insert-Has a x m in
    let first : (member (x ∷ xs) m ≡ true) ↔ ((m ≡ x) ⊎ (member xs m ≡ true)) =
      ground (arith, member-below xs x m h.0) in
    (
      λ p.
          ⊎_elim (λ q. ⊎_elim (λ e. inr (first.1 (inl e))) (λ r. inl r) (one.0 q))
            (λ q. inr (first.1 (inr q))) (rest.0 p),
      ⊎_elim (λ q. rest.1 (inl (one.1 (inr q))))
          (λ q. ⊎_elim (λ e. rest.1 (inl (one.1 (inl e)))) (λ r. rest.1 (inr r)) (first.0 q)),
    )

pub union-Has :
    (a b : LiveSet) (m : LocalId) → IsSorted b.locals → Has (union a b) m ↔ (Has a m ⊎ Has b m)
unfolding union
union-Has a b m h =
    let all = insert_all-Has a b.locals m h in
    let g = contains-member b m in
    (
      λ p. ⊎_elim (λ q. inl q) (λ q. inr (g ∙ q)) (all.0 p),
      λ p. all.1 (⊎_elim (λ q. inl q) (λ q. inr (sym g ∙ q)) p),
    )

insert_all-IsSorted :
    (a : LiveSet) (xs : List LocalId)
    → IsSorted a.locals
    → IsSorted (for_each (λ out l. (insert out l).1) a xs).locals
unfolding for_each
insert_all-IsSorted a [] h = h
insert_all-IsSorted a (x ∷ xs) h = insert_all-IsSorted (insert a x).1 xs (insert-IsSorted a x h)

pub union-IsSorted : (a b : LiveSet) → IsSorted a.locals → IsSorted (union a b).locals
unfolding union
union-IsSorted a b h = insert_all-IsSorted a b.locals h

pub empty-Has : (m : LocalId) → Has empty m → ⊥
unfolding contains binary_search
empty-Has m h = absurd (cc)

pub equal_iff : (a b : LiveSet) → (equal a b ≡ true) ↔ (a ≡ b)
unfolding equal
equal_iff a b = (
  λ h. ap (λ xs. record { locals = xs }) (lists a.locals b.locals h),
  λ e. subst (λ c. list_eq a.locals c.locals ≡ true) e (same a.locals),
)
  where
    lists : (xs ys : List LocalId) → list_eq xs ys ≡ true → xs ≡ ys
    lists [] [] h = refl
    lists [] (y ∷ ys) h = absurd (cc)
    lists (x ∷ xs) [] h = absurd (cc)
    lists (x ∷ xs) (y ∷ ys) h =
        let p : x ≡ y = ground arith in
        let q : list_eq xs ys ≡ true = ground arith in
        ap (λ z. z ∷ xs) p ∙ ap (λ zs. y ∷ zs) (lists xs ys q)

    same : (xs : List LocalId) → list_eq xs xs ≡ true
    same [] = refl
    same (x ∷ xs) = ground (arith, same xs)
