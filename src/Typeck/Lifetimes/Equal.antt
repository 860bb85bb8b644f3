-- ===== src/Typeck/Lifetimes/Equal.antt =====
-- The equality of types and the numbering of elided lifetimes.
use pocket_rust.Prelude.{
  ◌≡◌, refl, ap, ℕ, suc, Bool, true, false, ◌&&◌, ◌==◌, List, [], ◌∷◌, String, string_eq, arith,
}
use text.Mathlib.TextPositions.{eq_refl}
use pocket_rust.Typeck.Types.{
  IntKind, RType, int, struct, ref, raw_ptr, param, bool, tuple, enum, slice, str, char, never,
  assoc_proj, opaque, fn_ptr, dyn, RTypes, no_types, and_type, DynBound, dyn_bound, DynBounds,
  no_bounds, and_bound, AssocBindings, no_bindings, and_binding,
}
use pocket_rust.Typeck.Types.Equal.{
  int_kind_eq, bool_eq, path_eq, count_types, count_bounds, count_bindings, rtype_eq, types_loop,
  dyn_bound_eq, bounds_loop, bindings_loop,
}
use pocket_rust.Typeck.Lifetimes.{
  freshen_lifetime, freshen_lifetime_args, freshen_inferred_lifetimes, freshen_types,
}

-- No opaque type stands in the type, the arguments and bindings of its trait objects included.
unfoldable mutual
  pub no_opaque : RType → Bool
  no_opaque (opaque fn_path slot) = false
  no_opaque (struct path type_args lifetime_args) = no_opaque_types type_args
  no_opaque (ref inner mutable lifetime) = no_opaque inner
  no_opaque (raw_ptr inner mutable) = no_opaque inner
  no_opaque (slice inner) = no_opaque inner
  no_opaque (tuple elems) = no_opaque_types elems
  no_opaque (enum path type_args lifetime_args) = no_opaque_types type_args
  no_opaque (assoc_proj base trait_path name) = no_opaque base
  no_opaque (fn_ptr params ret) = no_opaque_types params && no_opaque ret
  no_opaque (dyn bounds lifetime) = no_opaque_bounds bounds
  no_opaque _ = true

  no_opaque_types : RTypes → Bool
  no_opaque_types no_types = true
  no_opaque_types (and_type t ts) = no_opaque t && no_opaque_types ts

  no_opaque_bound : DynBound → Bool
  no_opaque_bound (dyn_bound trait_path trait_args assoc_bindings) =
      no_opaque_types trait_args && no_opaque_bindings assoc_bindings

  no_opaque_bounds : DynBounds → Bool
  no_opaque_bounds no_bounds = true
  no_opaque_bounds (and_bound b bs) = no_opaque_bound b && no_opaque_bounds bs

  no_opaque_bindings : AssocBindings → Bool
  no_opaque_bindings no_bindings = true
  no_opaque_bindings (and_binding name t bs) = no_opaque t && no_opaque_bindings bs

-- A test that passes is left out of a conjunction.
behind : (x y z : Bool) → x ≡ true → y ≡ z → (x && y) ≡ z
behind true y z e h = h
behind false y z e h = absurd (cc)

and_same : {x y x' y' : Bool} → x ≡ x' → y ≡ y' → (x && y) ≡ (x' && y')
and_same e h = cc

same_count : (n : ℕ) → (n == n) ≡ true
same_count n = ground arith

same_path : (p : List String) → path_eq p p ≡ true
same_path [] = refl
same_path (s ∷ p) = behind (string_eq s s) (path_eq p p) true (eq_refl s) (same_path p)

same_bool : (b : Bool) → bool_eq b b ≡ true
same_bool true = refl
same_bool false = refl

same_kind : (k : IntKind) → int_kind_eq k k ≡ true
same_kind k = ground arith

mutual
  unfolding rtype_eq types_loop dyn_bound_eq bounds_loop bindings_loop no_opaque no_opaque_types
      no_opaque_bound no_opaque_bounds no_opaque_bindings

  -- A type is equal to itself exactly when no opaque type stands in it.
  itself : (t : RType) → rtype_eq t t ≡ no_opaque t
  itself (int k) = same_kind k
  itself (struct path type_args lifetime_args) =
      behind _ _ _ (same_path path)
        (behind _ _ _ (same_count (count_types type_args)) (types_itself type_args))
  itself (ref inner mutable lifetime) = behind _ _ _ (same_bool mutable) (itself inner)
  itself (raw_ptr inner mutable) = behind _ _ _ (same_bool mutable) (itself inner)
  itself (param name) = eq_refl name
  itself bool = refl
  itself (tuple elems) = behind _ _ _ (same_count (count_types elems)) (types_itself elems)
  itself (enum path type_args lifetime_args) =
      behind _ _ _ (same_path path)
        (behind _ _ _ (same_count (count_types type_args)) (types_itself type_args))
  itself (slice inner) = itself inner
  itself str = refl
  itself char = refl
  itself never = refl
  itself (assoc_proj base trait_path name) =
      behind _ _ _ (same_path trait_path) (behind _ _ _ (eq_refl name) (itself base))
  itself (opaque fn_path slot) = refl
  itself (fn_ptr params ret) =
      behind _ _ _ (same_count (count_types params)) (and_same (types_itself params) (itself ret))
  itself (dyn bounds lifetime) =
      behind _ _ _ (same_count (count_bounds bounds)) (bounds_itself bounds)

  types_itself : (ts : RTypes) → types_loop ts ts ≡ no_opaque_types ts
  types_itself no_types = refl
  types_itself (and_type t ts) = and_same (itself t) (types_itself ts)

  bound_itself : (b : DynBound) → dyn_bound_eq b b ≡ no_opaque_bound b
  bound_itself (dyn_bound trait_path trait_args assoc_bindings) =
      behind _ _ _ (same_path trait_path) (
        behind _ _ _ (same_count (count_types trait_args)) (
          and_same (types_itself trait_args) (
            behind _ _ _ (same_count (count_bindings assoc_bindings))
              (bindings_itself assoc_bindings))))

  bounds_itself : (bs : DynBounds) → bounds_loop bs bs ≡ no_opaque_bounds bs
  bounds_itself no_bounds = refl
  bounds_itself (and_bound b bs) = and_same (bound_itself b) (bounds_itself bs)

  bindings_itself : (bs : AssocBindings) → bindings_loop bs bs ≡ no_opaque_bindings bs
  bindings_itself no_bindings = refl
  bindings_itself (and_binding name t bs) =
      behind _ _ _ (eq_refl name) (and_same (itself t) (bindings_itself bs))

as_many : (a b : ℕ) → b ≡ a → (a == b) ≡ true
as_many a b e = ground arith

count_types-freshen_types :
    (ts : RTypes) (n : ℕ) → count_types (freshen_types ts n).0 ≡ count_types ts
unfolding freshen_types
count_types-freshen_types no_types n = refl
count_types-freshen_types (and_type t ts) n =
    ap suc (count_types-freshen_types ts (freshen_inferred_lifetimes t n).1)

freshened_count :
    (ts : RTypes) (n : ℕ) → (count_types ts == count_types (freshen_types ts n).0) ≡ true
freshened_count ts n = as_many _ _ (count_types-freshen_types ts n)

mutual
  unfolding freshen_inferred_lifetimes freshen_types rtype_eq types_loop no_opaque no_opaque_types

  freshened : (t : RType) (n : ℕ) → rtype_eq t (freshen_inferred_lifetimes t n).0 ≡ no_opaque t
  freshened (int k) n = same_kind k
  freshened (struct path type_args lifetime_args) n =
      let loop = types_freshened type_args (freshen_lifetime_args lifetime_args n).1 in
      let count = freshened_count type_args (freshen_lifetime_args lifetime_args n).1 in
      behind _ _ _ (same_path path) (behind _ _ _ count loop)
  freshened (ref inner mutable lifetime) n =
      behind _ _ _ (same_bool mutable) (freshened inner (freshen_lifetime lifetime n).1)
  freshened (raw_ptr inner mutable) n = behind _ _ _ (same_bool mutable) (freshened inner n)
  freshened (param name) n = eq_refl name
  freshened bool n = refl
  freshened (tuple elems) n =
      let loop = types_freshened elems n in
      let count = freshened_count elems n in behind _ _ _ count loop
  freshened (enum path type_args lifetime_args) n =
      let loop = types_freshened type_args (freshen_lifetime_args lifetime_args n).1 in
      let count = freshened_count type_args (freshen_lifetime_args lifetime_args n).1 in
      behind _ _ _ (same_path path) (behind _ _ _ count loop)
  freshened (slice inner) n = freshened inner n
  freshened str n = refl
  freshened char n = refl
  freshened never n = refl
  freshened (assoc_proj base trait_path name) n =
      behind _ _ _ (same_path trait_path) (behind _ _ _ (eq_refl name) (freshened base n))
  freshened (opaque fn_path slot) n = refl
  freshened (fn_ptr params ret) n =
      let loop = types_freshened params n in
      let count = freshened_count params n in
      behind _ _ _ count (and_same loop (freshened ret (freshen_types params n).1))
  freshened (dyn bounds lifetime) n =
      behind _ _ _ (same_count (count_bounds bounds)) (bounds_itself bounds)

  types_freshened :
      (ts : RTypes) (n : ℕ) → types_loop ts (freshen_types ts n).0 ≡ no_opaque_types ts
  types_freshened no_types n = refl
  types_freshened (and_type t ts) n =
      and_same (freshened t n) (types_freshened ts (freshen_inferred_lifetimes t n).1)

-- A type is equal, by `rtype_eq`, to what freshen_inferred_lifetimes makes of it exactly when no opaque type
-- stands in it, its trait objects included; and the same holds of the type and itself.
pub rtype_eq-freshen_inferred_lifetimes :
    (t : RType) (next_id : ℕ)
    → (rtype_eq t (freshen_inferred_lifetimes t next_id).0 ≡ no_opaque t)
      × (rtype_eq t t ≡ no_opaque t)
rtype_eq-freshen_inferred_lifetimes t next_id = (freshened t next_id, itself t)
