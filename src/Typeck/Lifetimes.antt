-- ===== src/Typeck/Lifetimes.antt =====
-- src/typeck/lifetimes.rs: the elided and the named lifetimes of a signature.
mod Slots
mod Walk
mod Fresh
mod Origins
pub mod Equal
pub mod Declared
pub mod Elision
mod Examples
use pocket_rust.Prelude.{
  ◌+◌, ◌==◌, ℕ, Bool, true, false, not, ◌&&◌, ◌||◌, Option, none, some, Result, ok, err, also, List,
  [], ◌∷◌, length, get_elem?, push, any, as_u32, String, string_eq, ◌+++◌, decimal, if◌then◌else◌,
}
use pocket_rust.Span.{Span, Error}
use pocket_rust.Typeck.Types.{
  LifetimeRepr, named, inferred, RType, int, struct, ref, raw_ptr, param, bool, tuple, enum, slice,
  str, char, never, assoc_proj, opaque, fn_ptr, dyn, RTypes, no_types, and_type,
}

-- `==` on `LifetimeRepr`
unfoldable pub lifetime_eq : LifetimeRepr → LifetimeRepr → Bool
lifetime_eq (named a) (named b) = string_eq a b
lifetime_eq (inferred a) (inferred b) = a == b
lifetime_eq _ _ = false

unfoldable pub is_source : Option LifetimeRepr → LifetimeRepr → Bool
is_source none target = false
is_source (some plt) target = lifetime_eq plt target

unfoldable pub source_loop : ℕ → List (Option LifetimeRepr) → LifetimeRepr → List ℕ → List ℕ
source_loop i [] target out = out
source_loop i (plt ∷ rest) target out =
    source_loop (i + 1) rest target (if is_source plt target then push out i else out)

unfoldable pub find_lifetime_source : List (Option LifetimeRepr) → LifetimeRepr → List ℕ
find_lifetime_source param_lifetimes target = source_loop 0 param_lifetimes target []

-- The counter is passed on with the lifetime.
unfoldable pub freshen_lifetime : LifetimeRepr → ℕ → LifetimeRepr × ℕ
freshen_lifetime (named name) next_id = (named name, next_id)
freshen_lifetime (inferred id) next_id =
    if id == 0 then (inferred next_id, as_u32 (next_id + 1)) else (inferred id, next_id)

unfoldable pub freshen_lifetime_args : List LifetimeRepr → ℕ → List LifetimeRepr × ℕ
freshen_lifetime_args [] next_id = ([], next_id)
freshen_lifetime_args (lt ∷ lts) next_id =
    let (lt', next_id) = freshen_lifetime lt next_id in
    let (lts', next_id) = freshen_lifetime_args lts next_id in (lt' ∷ lts', next_id)

unfoldable mutual
  pub freshen_inferred_lifetimes : RType → ℕ → RType × ℕ
  freshen_inferred_lifetimes (ref inner mutable lifetime) next_id =
      let (lifetime, next_id) = freshen_lifetime lifetime next_id in
      let (inner, next_id) = freshen_inferred_lifetimes inner next_id in
      (ref inner mutable lifetime, next_id)
  freshen_inferred_lifetimes (raw_ptr inner mutable) next_id =
      let (inner, next_id) = freshen_inferred_lifetimes inner next_id in
      (raw_ptr inner mutable, next_id)
  freshen_inferred_lifetimes (struct path type_args lifetime_args) next_id =
      let (lifetime_args, next_id) = freshen_lifetime_args lifetime_args next_id in
      let (type_args, next_id) = freshen_types type_args next_id in
      (struct path type_args lifetime_args, next_id)
  freshen_inferred_lifetimes (int k) next_id = (int k, next_id)
  freshen_inferred_lifetimes (param name) next_id = (param name, next_id)
  freshen_inferred_lifetimes bool next_id = (bool, next_id)
  freshen_inferred_lifetimes (tuple elems) next_id =
      let (elems, next_id) = freshen_types elems next_id in (tuple elems, next_id)
  freshen_inferred_lifetimes (enum path type_args lifetime_args) next_id =
      let (lifetime_args, next_id) = freshen_lifetime_args lifetime_args next_id in
      let (type_args, next_id) = freshen_types type_args next_id in
      (enum path type_args lifetime_args, next_id)
  freshen_inferred_lifetimes (slice inner) next_id =
      let (inner, next_id) = freshen_inferred_lifetimes inner next_id in (slice inner, next_id)
  freshen_inferred_lifetimes str next_id = (str, next_id)
  freshen_inferred_lifetimes (assoc_proj base trait_path name) next_id =
      let (base, next_id) = freshen_inferred_lifetimes base next_id in
      (assoc_proj base trait_path name, next_id)
  freshen_inferred_lifetimes never next_id = (never, next_id)
  freshen_inferred_lifetimes char next_id = (char, next_id)
  freshen_inferred_lifetimes (opaque fn_path slot) next_id = (opaque fn_path slot, next_id)
  freshen_inferred_lifetimes (fn_ptr params ret) next_id =
      let (params, next_id) = freshen_types params next_id in
      let (ret, next_id) = freshen_inferred_lifetimes ret next_id in (fn_ptr params ret, next_id)
  freshen_inferred_lifetimes (dyn bounds lifetime) next_id =
      let (lifetime, next_id) = freshen_lifetime lifetime next_id in (dyn bounds lifetime, next_id)

  pub freshen_types : RTypes → ℕ → RTypes × ℕ
  freshen_types no_types next_id = (no_types, next_id)
  freshen_types (and_type t ts) next_id =
      let (t, next_id) = freshen_inferred_lifetimes t next_id in
      let (ts, next_id) = freshen_types ts next_id in (and_type t ts, next_id)
