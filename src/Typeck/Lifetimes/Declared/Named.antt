-- ===== src/Typeck/Lifetimes/Declared/Named.antt =====
-- require_no_inferred_lifetimes decides whether every lifetime outside trait bounds has a name.
use pocket_rust.Prelude.{◌≡◌, inl, inr, refl, List, [], ◌∷◌, String}
use mathlib.Core.List.{Memᴰ}
use pocket_rust.Span.{Span, Error}
use pocket_rust.Typeck.Types.{
  LifetimeRepr, named, inferred, RType, int, struct, ref, raw_ptr, param, bool, tuple, enum, slice,
  str, char, never, assoc_proj, opaque, fn_ptr, dyn, RTypes, no_types, and_type,
}
use pocket_rust.Typeck.Lifetimes.Slots.{slots, slots_types}
use pocket_rust.Typeck.Lifetimes.Declared.Decides.{Decides, Decides-also}
use pocket_rust.Typeck.Lifetimes.Declared.{
  Checked, require_explicit, require_explicit_args, require_no_inferred_lifetimes, require_types,
}

abbrev pub IsNamed : LifetimeRepr → Type 0
IsNamed (named name) = Unit
IsNamed (inferred id) = ⊥

-- The lifetime has no name, and the error stands at the span.
abbrev pub Missing : Span → String → LifetimeRepr → Error → Type 0
Missing span file lt e = (IsNamed lt → ⊥) × (e.span ≡ span) × (e.file ≡ file)

module _ (span : Span) (file : String) where
  abbrev Good : LifetimeRepr → Type 0
  Good lt = IsNamed lt

  abbrev Bad : LifetimeRepr → Error → Type 0
  Bad lt e = Missing span file lt e

  abbrev Verdict : Checked → List LifetimeRepr → Type 0
  Verdict r lts = Decides Good Bad r lts

  one :
      (lt : LifetimeRepr) (message : String)
      → Verdict (require_explicit lt span file message) (lt ∷ [])
  unfolding require_explicit
  one (named name) message = inl (refl, (tt, tt))
  one (inferred id) message = inr (
    inferred id,
    record { file = file; message = message; span = span },
    Memᴰ.head refl,
    (λ h. h, refl, refl),
    refl,
  )

  args :
      (lts : List LifetimeRepr) (message : String)
      → Verdict (require_explicit_args lts span file message) lts
  unfolding require_explicit_args
  args [] message = inl (refl, tt)
  args (lt ∷ lts) message =
      Decides-also Good Bad _ _ (lt ∷ []) lts (one lt message) (args lts message)

  mutual
    unfolding require_no_inferred_lifetimes require_types slots slots_types

    all_named : (rt : RType) → Verdict (require_no_inferred_lifetimes rt span file) (slots rt)
    all_named (ref inner mutable lifetime) =
        Decides-also Good Bad _ _ (lifetime ∷ []) (slots inner)
          (one lifetime "missing lifetime specifier on reference in struct field") (all_named inner)
    all_named (raw_ptr inner mutable) = all_named inner
    all_named (struct path type_args lifetime_args) =
        Decides-also Good Bad _ _ lifetime_args (slots_types type_args)
          (args lifetime_args "missing lifetime argument on struct in field type")
          (all_types_named type_args)
    all_named (tuple elems) = all_types_named elems
    all_named (enum path type_args lifetime_args) =
        Decides-also Good Bad _ _ lifetime_args (slots_types type_args)
          (args lifetime_args "missing lifetime argument on enum in field type")
          (all_types_named type_args)
    all_named (slice inner) = all_named inner
    all_named (assoc_proj base trait_path name) = all_named base
    all_named (fn_ptr params ret) =
        Decides-also Good Bad _ _ (slots_types params) (slots ret) (all_types_named params)
          (all_named ret)
    all_named (dyn _ lifetime) =
        one lifetime "missing lifetime specifier on `dyn Trait` in struct field"
    all_named (int k) = inl (refl, tt)
    all_named (param name) = inl (refl, tt)
    all_named bool = inl (refl, tt)
    all_named str = inl (refl, tt)
    all_named char = inl (refl, tt)
    all_named never = inl (refl, tt)
    all_named (opaque fn_path slot) = inl (refl, tt)

    all_types_named : (ts : RTypes) → Verdict (require_types ts span file) (slots_types ts)
    all_types_named no_types = inl (refl, tt)
    all_types_named (and_type t ts) =
        Decides-also Good Bad _ _ (slots t) (slots_types ts) (all_named t) (all_types_named ts)

-- require_no_inferred_lifetimes passes when every lifetime of the type has a name, those in the bounds of
-- its trait objects aside, which it does not look at, and otherwise reports an error at the span for a
-- lifetime that has none.
pub require_no_inferred_lifetimes-Decides :
    (rt : RType) (span : Span) (file : String)
    → Decides IsNamed (Missing span file) (require_no_inferred_lifetimes rt span file) (slots rt)
require_no_inferred_lifetimes-Decides rt span file = all_named span file rt
