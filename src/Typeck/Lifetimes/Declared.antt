-- ===== src/Typeck/Lifetimes/Declared.antt =====
-- src/typeck/lifetimes.rs: the checks for missing and for undeclared lifetimes.
pub mod Decides
pub mod Named
pub mod Scope
use pocket_rust.Prelude.{
  ◌+◌, ◌==◌, ℕ, Bool, true, false, not, ◌&&◌, ◌||◌, Option, none, some, Result, ok, err, also, List,
  [], ◌∷◌, length, get_elem?, push, any, as_u32, String, string_eq, ◌+++◌, decimal, if◌then◌else◌,
}
use pocket_rust.Span.{Span, Error}
use pocket_rust.Typeck.Types.{
  LifetimeRepr, named, inferred, RType, int, struct, ref, raw_ptr, param, bool, tuple, enum, slice,
  str, char, never, assoc_proj, opaque, fn_ptr, dyn, RTypes, no_types, and_type,
}

abbrev pub Checked : Type 0
Checked = Result (Unit {0}) Error

unfoldable pub require_explicit : LifetimeRepr → Span → String → String → Checked
require_explicit (named name) span file message = ok tt
require_explicit (inferred id) span file message =
    err (record { file = file; message = message; span = span })

unfoldable pub require_explicit_args : List LifetimeRepr → Span → String → String → Checked
require_explicit_args [] span file message = ok tt
require_explicit_args (lt ∷ lts) span file message =
    also (require_explicit lt span file message) (require_explicit_args lts span file message)

unfoldable mutual
  pub require_no_inferred_lifetimes : RType → Span → String → Checked
  require_no_inferred_lifetimes (ref inner mutable lifetime) span file =
      also
        (require_explicit lifetime span file
          "missing lifetime specifier on reference in struct field")
        (require_no_inferred_lifetimes inner span file)
  require_no_inferred_lifetimes (raw_ptr inner mutable) span file =
      require_no_inferred_lifetimes inner span file
  require_no_inferred_lifetimes (struct path type_args lifetime_args) span file =
      also
        (require_explicit_args lifetime_args span file
          "missing lifetime argument on struct in field type")
        (require_types type_args span file)
  require_no_inferred_lifetimes (tuple elems) span file = require_types elems span file
  require_no_inferred_lifetimes (enum path type_args lifetime_args) span file =
      also
        (require_explicit_args lifetime_args span file
          "missing lifetime argument on enum in field type")
        (require_types type_args span file)
  require_no_inferred_lifetimes (slice inner) span file =
      require_no_inferred_lifetimes inner span file
  require_no_inferred_lifetimes (assoc_proj base trait_path name) span file =
      require_no_inferred_lifetimes base span file
  require_no_inferred_lifetimes (fn_ptr params ret) span file =
      also (require_types params span file) (require_no_inferred_lifetimes ret span file)
  require_no_inferred_lifetimes (dyn _ lifetime) span file =
      require_explicit lifetime span file
        "missing lifetime specifier on `dyn Trait` in struct field"
  require_no_inferred_lifetimes _ span file = ok tt

  pub require_types : RTypes → Span → String → Checked
  require_types no_types span file = ok tt
  require_types (and_type t ts) span file =
      also (require_no_inferred_lifetimes t span file) (require_types ts span file)

unfoldable pub lifetime_in_scope : String → List String → Bool
lifetime_in_scope name lifetime_params =
    string_eq name "static" || any (λ param. string_eq param name) lifetime_params

unfoldable pub check_named_in_scope : LifetimeRepr → List String → Span → String → Checked
check_named_in_scope (named name) lifetime_params span file =
    if not (lifetime_in_scope name lifetime_params)
    then err
        (record { file = file; message = "undeclared lifetime `'" +++ name +++ "`"; span = span })
    else ok tt
check_named_in_scope (inferred id) lifetime_params span file = ok tt

unfoldable pub check_args_in_scope : List LifetimeRepr → List String → Span → String → Checked
check_args_in_scope [] lifetime_params span file = ok tt
check_args_in_scope (lt ∷ lts) lifetime_params span file =
    also (check_named_in_scope lt lifetime_params span file)
      (check_args_in_scope lts lifetime_params span file)

unfoldable mutual
  pub validate_named_lifetimes : RType → List String → Span → String → Checked
  validate_named_lifetimes (ref inner mutable lifetime) lifetime_params span file =
      also (check_named_in_scope lifetime lifetime_params span file)
        (validate_named_lifetimes inner lifetime_params span file)
  validate_named_lifetimes (raw_ptr inner mutable) lifetime_params span file =
      validate_named_lifetimes inner lifetime_params span file
  validate_named_lifetimes (struct path type_args lifetime_args) lifetime_params span file =
      also (check_args_in_scope lifetime_args lifetime_params span file)
        (validate_types type_args lifetime_params span file)
  validate_named_lifetimes (tuple elems) lifetime_params span file =
      validate_types elems lifetime_params span file
  validate_named_lifetimes (enum path type_args lifetime_args) lifetime_params span file =
      also (check_args_in_scope lifetime_args lifetime_params span file)
        (validate_types type_args lifetime_params span file)
  validate_named_lifetimes (slice inner) lifetime_params span file =
      validate_named_lifetimes inner lifetime_params span file
  validate_named_lifetimes (assoc_proj base trait_path name) lifetime_params span file =
      validate_named_lifetimes base lifetime_params span file
  validate_named_lifetimes (fn_ptr params ret) lifetime_params span file =
      also (validate_types params lifetime_params span file)
        (validate_named_lifetimes ret lifetime_params span file)
  validate_named_lifetimes (dyn _ lifetime) lifetime_params span file =
      check_named_in_scope lifetime lifetime_params span file
  validate_named_lifetimes _ lifetime_params span file = ok tt

  pub validate_types : RTypes → List String → Span → String → Checked
  validate_types no_types lifetime_params span file = ok tt
  validate_types (and_type t ts) lifetime_params span file =
      also (validate_named_lifetimes t lifetime_params span file)
        (validate_types ts lifetime_params span file)
