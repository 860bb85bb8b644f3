-- ===== src/Typeck/Lifetimes/Elision.antt =====
-- src/typeck/lifetimes.rs: the parameter that gives an elided return lifetime.
pub mod Refs
pub mod Source
use pocket_rust.Prelude.{
  ◌+◌, ◌==◌, ℕ, zero, suc, Bool, true, false, not, ◌&&◌, ◌||◌, Option, none, some, Result, ok, err,
  also, List, [], ◌∷◌, length, get_elem?, push, any, as_u32, String, string_eq, ◌+++◌, decimal,
  if◌then◌else◌,
}
use mathlib.Core.Option
use pocket_rust.Span.{Span, Error}
use pocket_rust.Typeck.Types.{
  LifetimeRepr, named, inferred, RType, int, struct, ref, raw_ptr, param, bool, tuple, enum, slice,
  str, char, never, assoc_proj, opaque, fn_ptr, dyn, RTypes, no_types, and_type,
}

-- Whether a type is a reference, and whether a mutable one.
unfoldable pub as_ref : RType → Option Bool
as_ref (ref inner mutable lifetime) = some mutable
as_ref _ = none

unfoldable pub ref_at : List RType → ℕ → Option Bool
ref_at [] i = none
ref_at (t ∷ ts) zero = as_ref t
ref_at (t ∷ ts) (suc i) = ref_at ts i

unfoldable pub elision_error : String → Span → String → Result ℕ Error
elision_error message span file = err (record { file = file; message = message; span = span })

-- The source, unless `&mut` is returned and the source is `&`.
unfoldable pub downgrade : ℕ → Bool → Bool → String → Span → String → Result ℕ Error
downgrade idx ret_mutable src_mutable message ret_span file =
    if ret_mutable && not src_mutable then elision_error message ret_span file else ok idx

unfoldable pub found_ref : Option Bool → ℕ → Option ℕ × ℕ → Option ℕ × ℕ
found_ref none i found = found
found_ref (some mutable) i (source, count) = (some i, count + 1)

-- The last reference parameter and how many there are.
unfoldable pub count_refs : ℕ → List RType → Option ℕ × ℕ → Option ℕ × ℕ
count_refs i [] found = found
count_refs i (t ∷ ts) found = count_refs (i + 1) ts (found_ref (as_ref t) i found)

unfoldable pub too_many : ℕ → Span → String → Result ℕ Error
too_many count ret_span file =
    elision_error
      ("function returning a reference must have exactly one reference parameter (found "
        +++ decimal count
        +++ ")")
      ret_span file

-- `none` where the code panics.
unfoldable pub from_param : Option Bool → ℕ → Bool → Span → String → Option (Result ℕ Error)
from_param none src_idx ret_mutable ret_span file = none
from_param (some src_mutable) src_idx ret_mutable ret_span file = some (
    downgrade src_idx ret_mutable src_mutable "cannot return `&mut` from a `&` parameter" ret_span
      file)

unfoldable pub only_ref : List RType → Option ℕ × ℕ → Bool → Span → String → Option (Result ℕ Error)
only_ref param_types (none, count) ret_mutable ret_span file =
    if not (count == 1) then some (too_many count ret_span file) else none
only_ref param_types (some src_idx, count) ret_mutable ret_span file =
    if not (count == 1)
    then some (too_many count ret_span file)
    else from_param (ref_at param_types src_idx) src_idx ret_mutable ret_span file

unfoldable pub elide_without_self : List RType → Bool → Span → String → Option (Result ℕ Error)
elide_without_self param_types ret_mutable ret_span file =
    only_ref param_types (count_refs 0 param_types (none, 0)) ret_mutable ret_span file

-- `none` where the code panics: at a receiver that is no parameter.
unfoldable pub from_self :
    Option (Option Bool) → List RType → ℕ → Bool → Span → String → Option (Result ℕ Error)
from_self none param_types idx ret_mutable ret_span file = none
from_self (some none) param_types idx ret_mutable ret_span file =
    elide_without_self param_types ret_mutable ret_span file
from_self (some (some src_mutable)) param_types idx ret_mutable ret_span file = some (
    downgrade idx ret_mutable src_mutable "cannot return `&mut` from a `&self` receiver" ret_span
      file)

unfoldable pub find_elision_source :
    List RType → Option ℕ → Bool → Span → String → Option (Result ℕ Error)
find_elision_source param_types none ret_mutable ret_span file =
    elide_without_self param_types ret_mutable ret_span file
find_elision_source param_types (some idx) ret_mutable ret_span file =
    from_self (Option.map as_ref (get_elem? param_types idx)) param_types idx ret_mutable ret_span
      file
