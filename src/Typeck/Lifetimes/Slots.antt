-- ===== src/Typeck/Lifetimes/Slots.antt =====
-- The lifetimes of a type in the order in which the walks of src/typeck/lifetimes.rs visit them. Like the
-- walks, the list leaves out what stands in the bounds of a trait object.
use pocket_rust.Prelude.{List, [], ◌∷◌, ◌++◌}
use pocket_rust.Typeck.Types.{
  LifetimeRepr, inferred, RType, int, struct, ref, raw_ptr, param, bool, tuple, enum, slice, str,
  char, never, assoc_proj, opaque, fn_ptr, dyn, RTypes, no_types, and_type,
}

unfoldable mutual
  pub slots : RType → List LifetimeRepr
  slots (ref inner mutable lifetime) = lifetime ∷ slots inner
  slots (raw_ptr inner mutable) = slots inner
  slots (struct path type_args lifetime_args) = lifetime_args ++ slots_types type_args
  slots (tuple elems) = slots_types elems
  slots (enum path type_args lifetime_args) = lifetime_args ++ slots_types type_args
  slots (slice inner) = slots inner
  slots (assoc_proj base trait_path name) = slots base
  slots (fn_ptr params ret) = slots_types params ++ slots ret
  slots (dyn _ lifetime) = lifetime ∷ []
  slots _ = []

  pub slots_types : RTypes → List LifetimeRepr
  slots_types no_types = []
  slots_types (and_type t ts) = slots t ++ slots_types ts

abbrev pub blank : List LifetimeRepr → List LifetimeRepr
blank [] = []
blank (lt ∷ lts) = inferred 0 ∷ blank lts

-- The type with every visited lifetime elided: what is left of a type without its lifetimes.
unfoldable mutual
  pub erase : RType → RType
  erase (ref inner mutable lifetime) = ref (erase inner) mutable (inferred 0)
  erase (raw_ptr inner mutable) = raw_ptr (erase inner) mutable
  erase (struct path type_args lifetime_args) =
      struct path (erase_types type_args) (blank lifetime_args)
  erase (tuple elems) = tuple (erase_types elems)
  erase (enum path type_args lifetime_args) =
      enum path (erase_types type_args) (blank lifetime_args)
  erase (slice inner) = slice (erase inner)
  erase (assoc_proj base trait_path name) = assoc_proj (erase base) trait_path name
  erase (fn_ptr params ret) = fn_ptr (erase_types params) (erase ret)
  erase (dyn bounds lifetime) = dyn bounds (inferred 0)
  erase (int k) = int k
  erase (param name) = param name
  erase bool = bool
  erase str = str
  erase char = char
  erase never = never
  erase (opaque fn_path slot) = opaque fn_path slot

  pub erase_types : RTypes → RTypes
  erase_types no_types = no_types
  erase_types (and_type t ts) = and_type (erase t) (erase_types ts)
