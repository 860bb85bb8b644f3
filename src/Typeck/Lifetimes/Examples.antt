-- ===== src/Typeck/Lifetimes/Examples.antt =====
-- The theorems about lifetimes at concrete types.
use pocket_rust.Prelude.{
  ◌≡◌, ◌↔◌, refl, ◌<◌, ℕ, true, false, ok, Option, none, some, List, [], ◌∷◌, length, get_elem?,
  arith,
}
use mathlib.Core.List.{Memᴰ}
use pocket_rust.Span.{Span}
use pocket_rust.Typeck.Types.{
  dyn, tuple, dyn_bound, and_bound, no_bounds, no_bindings, LifetimeRepr, named, inferred, RType,
  int, u32, ref, struct, opaque, no_types, and_type,
}
use pocket_rust.Typeck.Lifetimes.{
  lifetime_eq, is_source, source_loop, find_lifetime_source, freshen_lifetime,
  freshen_lifetime_args, freshen_types, freshen_inferred_lifetimes,
}
use pocket_rust.Typeck.Lifetimes.Slots.{slots, slots_types, erase}
use pocket_rust.Typeck.Types.Equal.{rtype_eq}
use pocket_rust.Typeck.Lifetimes.Equal.{no_opaque, rtype_eq-freshen_inferred_lifetimes}
use pocket_rust.Typeck.Lifetimes.Fresh.{Numbered, freshen_inferred_lifetimes-Numbered}
use pocket_rust.Typeck.Lifetimes.Origins.{find_lifetime_source-Memᴰ}
use pocket_rust.Typeck.Lifetimes.Declared.{
  require_explicit, require_no_inferred_lifetimes, lifetime_in_scope, check_named_in_scope,
  validate_named_lifetimes,
}
use pocket_rust.Typeck.Lifetimes.Declared.Decides.{Decides}
use pocket_rust.Typeck.Lifetimes.Declared.Named.{
  IsNamed, Missing, require_no_inferred_lifetimes-Decides,
}
use pocket_rust.Typeck.Lifetimes.Declared.Scope.{
  IsDeclared, Undeclared, validate_named_lifetimes-Decides,
}
use pocket_rust.Typeck.Lifetimes.Elision.{find_elision_source}
use pocket_rust.Typeck.Lifetimes.Elision.Source.{Elides, find_elision_source-Elides}

abbrev nowhere : Span
nowhere = record { start = record { line = 1; col = 1 }; end = record { line = 1; col = 1 } }

-- `&Pair<'a, '_, &mut u32>`
abbrev pair_ref : RType
pair_ref =
    ref
      (struct ("Pair" ∷ []) (and_type (ref (int u32) true (inferred 0)) no_types)
        (named "a" ∷ inferred 0 ∷ []))
      false (inferred 0)

-- `dyn Fn<(&u32, &'b u32)> + 'a`: the walks pass by the lifetimes in the bound.
abbrev dyn_fn : RType
dyn_fn =
    dyn
      (and_bound
        (dyn_bound ("Fn" ∷ [])
          (and_type
            (tuple (
              and_type (ref (int u32) false (inferred 0))
                (and_type (ref (int u32) false (named "b")) no_types)))
            no_types)
          no_bindings)
        no_bounds)
      (named "a")

placeholder_stays : freshen_inferred_lifetimes dyn_fn 5 ≡ (dyn_fn, 5)
unfolding freshen_inferred_lifetimes freshen_lifetime
placeholder_stays = refl

elided_passes : require_no_inferred_lifetimes dyn_fn nowhere "a.rs" ≡ ok tt
unfolding require_no_inferred_lifetimes require_explicit
elided_passes = refl

undeclared_passes : validate_named_lifetimes dyn_fn ("a" ∷ []) nowhere "a.rs" ≡ ok tt
unfolding validate_named_lifetimes check_named_in_scope lifetime_in_scope
undeclared_passes = refl

freshened :
    slots (freshen_inferred_lifetimes pair_ref 5).0
    ≡ inferred 5 ∷ named "a" ∷ inferred 6 ∷ inferred 7 ∷ []
unfolding slots slots_types freshen_inferred_lifetimes freshen_lifetime freshen_lifetime_args
    freshen_types
freshened = refl

freshen_inferred_lifetimes-Numbered_example :
    (erase (freshen_inferred_lifetimes pair_ref 5).0 ≡ erase pair_ref)
    × Numbered
        (slots pair_ref)
        (slots (freshen_inferred_lifetimes pair_ref 5).0)
        5
        (freshen_inferred_lifetimes pair_ref 5).1
unfolding slots slots_types
freshen_inferred_lifetimes-Numbered_example =
    freshen_inferred_lifetimes-Numbered pair_ref 5 (omega arith)

require_no_inferred_lifetimes-Decides_example :
    Decides IsNamed
      (Missing nowhere "a.rs")
      (require_no_inferred_lifetimes pair_ref nowhere "a.rs")
      (slots pair_ref)
require_no_inferred_lifetimes-Decides_example =
    require_no_inferred_lifetimes-Decides pair_ref nowhere "a.rs"

validate_named_lifetimes-Decides_example :
    Decides
      (IsDeclared ("b" ∷ []))
      (Undeclared ("b" ∷ []) nowhere "a.rs")
      (validate_named_lifetimes pair_ref ("b" ∷ []) nowhere "a.rs")
      (slots pair_ref)
validate_named_lifetimes-Decides_example =
    validate_named_lifetimes-Decides pair_ref ("b" ∷ []) nowhere "a.rs"

abbrev origins : List (Option LifetimeRepr)
origins = some (named "a") ∷ none ∷ some (inferred 3) ∷ some (named "a") ∷ []

sources : find_lifetime_source origins (named "a") ≡ 0 ∷ 3 ∷ []
unfolding find_lifetime_source source_loop is_source lifetime_eq
sources = refl

find_lifetime_source-Memᴰ_example :
    Memᴰ 3 (find_lifetime_source origins (named "a"))
    ↔ (get_elem? origins 3 ≡ some (some (named "a")))
find_lifetime_source-Memᴰ_example = find_lifetime_source-Memᴰ origins (named "a") 3

receiver_in_range : (i : ℕ) → some 0 ≡ some i → i < length (pair_ref ∷ int u32 ∷ [])
receiver_in_range i e = let q : 0 ≡ i = cc in omega arith

find_elision_source-Elides_example :
    Elides
      (pair_ref ∷ int u32 ∷ [])
      (some 0)
      true
      nowhere
      (find_elision_source (pair_ref ∷ int u32 ∷ []) (some 0) true nowhere "a.rs")
find_elision_source-Elides_example =
    find_elision_source-Elides (pair_ref ∷ int u32 ∷ []) (some 0) true nowhere "a.rs"
      receiver_in_range

-- `impl Trait` of a function `f` is not equal to itself.
abbrev impl_trait : RType
impl_trait = opaque ("f" ∷ []) 0

not_itself : rtype_eq impl_trait impl_trait ≡ false
unfolding rtype_eq
not_itself = refl

rtype_eq-freshen_inferred_lifetimes_example :
    (rtype_eq pair_ref (freshen_inferred_lifetimes pair_ref 5).0 ≡ no_opaque pair_ref)
    × (rtype_eq pair_ref pair_ref ≡ no_opaque pair_ref)
rtype_eq-freshen_inferred_lifetimes_example = rtype_eq-freshen_inferred_lifetimes pair_ref 5
