-- ===== src/Typeck/Lifetimes/Walk.antt =====
-- freshen_inferred_lifetimes visits the lifetimes of a type in order and keeps its shape.
use pocket_rust.Prelude.{◌≡◌, refl, ap, ℕ, List, [], ◌∷◌, ◌++◌}
use pocket_rust.Typeck.Types.{
  LifetimeRepr, inferred, RType, int, struct, ref, raw_ptr, param, bool, tuple, enum, slice, str,
  char, never, assoc_proj, opaque, fn_ptr, dyn, RTypes, no_types, and_type,
}
use pocket_rust.Typeck.Lifetimes.{
  freshen_lifetime, freshen_lifetime_args, freshen_inferred_lifetimes, freshen_types,
}
use pocket_rust.Typeck.Lifetimes.Slots.{slots, slots_types, blank, erase, erase_types}

-- The loop over a list of lifetimes turns `xs` into `ys` and the counter `n` into `m`.
abbrev pub Walk : List LifetimeRepr → List LifetimeRepr → ℕ → ℕ → Type 0
Walk xs ys n m = freshen_lifetime_args xs n ≡ (ys, m)

freshen_lifetime_args-append :
    (xs ys : List LifetimeRepr) (n : ℕ)
    → let first = freshen_lifetime_args xs n in
      let rest = freshen_lifetime_args ys first.1 in
      freshen_lifetime_args (xs ++ ys) n ≡ (first.0 ++ rest.0, rest.1)
unfolding freshen_lifetime_args
freshen_lifetime_args-append [] ys n = refl
freshen_lifetime_args-append (x ∷ xs) ys n =
    let (lt, m) = freshen_lifetime x n in
    ap (λ r. (lt ∷ r.0, r.1)) (freshen_lifetime_args-append xs ys m)

Walk-append :
    (xs xs' ys ys' : List LifetimeRepr) (n m k : ℕ)
    → Walk xs xs' n m
    → Walk ys ys' m k
    → Walk (xs ++ ys) (xs' ++ ys') n k
Walk-append xs xs' ys ys' n m k h g = rw (freshen_lifetime_args-append xs ys n, h, g) refl

mutual
  unfolding freshen_inferred_lifetimes freshen_types slots slots_types freshen_lifetime_args

  pub freshen_inferred_lifetimes-Walk :
      (rt : RType) (n : ℕ)
      → Walk
          (slots rt)
          (slots (freshen_inferred_lifetimes rt n).0)
          n
          (freshen_inferred_lifetimes rt n).1
  freshen_inferred_lifetimes-Walk (ref inner mutable lifetime) n =
      let (lt, m) = freshen_lifetime lifetime n in
      ap (λ r. (lt ∷ r.0, r.1)) (freshen_inferred_lifetimes-Walk inner m)
  freshen_inferred_lifetimes-Walk (raw_ptr inner mutable) n =
      freshen_inferred_lifetimes-Walk inner n
  freshen_inferred_lifetimes-Walk (struct path type_args lifetime_args) n =
      Walk-append lifetime_args _ (slots_types type_args) _ n _ _ refl
        (freshen_types-Walk type_args (freshen_lifetime_args lifetime_args n).1)
  freshen_inferred_lifetimes-Walk (tuple elems) n = freshen_types-Walk elems n
  freshen_inferred_lifetimes-Walk (enum path type_args lifetime_args) n =
      Walk-append lifetime_args _ (slots_types type_args) _ n _ _ refl
        (freshen_types-Walk type_args (freshen_lifetime_args lifetime_args n).1)
  freshen_inferred_lifetimes-Walk (slice inner) n = freshen_inferred_lifetimes-Walk inner n
  freshen_inferred_lifetimes-Walk (assoc_proj base trait_path name) n =
      freshen_inferred_lifetimes-Walk base n
  freshen_inferred_lifetimes-Walk (fn_ptr params ret) n =
      Walk-append (slots_types params) _ (slots ret) _ n _ _ (freshen_types-Walk params n)
        (freshen_inferred_lifetimes-Walk ret (freshen_types params n).1)
  freshen_inferred_lifetimes-Walk (dyn _ lifetime) n = refl
  freshen_inferred_lifetimes-Walk (int k) n = refl
  freshen_inferred_lifetimes-Walk (param name) n = refl
  freshen_inferred_lifetimes-Walk bool n = refl
  freshen_inferred_lifetimes-Walk str n = refl
  freshen_inferred_lifetimes-Walk char n = refl
  freshen_inferred_lifetimes-Walk never n = refl
  freshen_inferred_lifetimes-Walk (opaque fn_path slot) n = refl

  freshen_types-Walk :
      (ts : RTypes) (n : ℕ)
      → Walk (slots_types ts) (slots_types (freshen_types ts n).0) n (freshen_types ts n).1
  freshen_types-Walk no_types n = refl
  freshen_types-Walk (and_type t ts) n =
      Walk-append (slots t) _ (slots_types ts) _ n _ _ (freshen_inferred_lifetimes-Walk t n)
        (freshen_types-Walk ts (freshen_inferred_lifetimes t n).1)

freshen_lifetime_args-blank :
    (lts : List LifetimeRepr) (n : ℕ) → blank (freshen_lifetime_args lts n).0 ≡ blank lts
unfolding freshen_lifetime_args
freshen_lifetime_args-blank [] n = refl
freshen_lifetime_args-blank (lt ∷ lts) n =
    ap (λ r. inferred 0 ∷ r) (freshen_lifetime_args-blank lts (freshen_lifetime lt n).1)

mutual
  unfolding freshen_inferred_lifetimes freshen_types erase erase_types

  pub keeps_shape : (rt : RType) (n : ℕ) → erase (freshen_inferred_lifetimes rt n).0 ≡ erase rt
  keeps_shape (ref inner mutable lifetime) n =
      ap (λ t. ref t mutable (inferred 0)) (keeps_shape inner (freshen_lifetime lifetime n).1)
  keeps_shape (raw_ptr inner mutable) n = ap (λ t. raw_ptr t mutable) (keeps_shape inner n)
  keeps_shape (struct path type_args lifetime_args) n =
      rw
        (
          freshen_lifetime_args-blank lifetime_args n,
          keep_shapes type_args (freshen_lifetime_args lifetime_args n).1,
        )
        refl
  keeps_shape (tuple elems) n = ap tuple (keep_shapes elems n)
  keeps_shape (enum path type_args lifetime_args) n =
      rw
        (
          freshen_lifetime_args-blank lifetime_args n,
          keep_shapes type_args (freshen_lifetime_args lifetime_args n).1,
        )
        refl
  keeps_shape (slice inner) n = ap slice (keeps_shape inner n)
  keeps_shape (assoc_proj base trait_path name) n =
      ap (λ t. assoc_proj t trait_path name) (keeps_shape base n)
  keeps_shape (fn_ptr params ret) n =
      rw (keep_shapes params n, keeps_shape ret (freshen_types params n).1) refl
  keeps_shape (dyn _ lifetime) n = refl
  keeps_shape (int k) n = refl
  keeps_shape (param name) n = refl
  keeps_shape bool n = refl
  keeps_shape str n = refl
  keeps_shape char n = refl
  keeps_shape never n = refl
  keeps_shape (opaque fn_path slot) n = refl

  keep_shapes : (ts : RTypes) (n : ℕ) → erase_types (freshen_types ts n).0 ≡ erase_types ts
  keep_shapes no_types n = refl
  keep_shapes (and_type t ts) n =
      rw (keeps_shape t n, keep_shapes ts (freshen_inferred_lifetimes t n).1) refl
