-- ===== src/Typeck/Types/Equal.antt =====
-- The equality of types of src/typeck/types.rs.
use pocket_rust.Prelude.{
  ℕ, suc, Bool, true, false, not, ◌&&◌, ◌==◌, List, [], ◌∷◌, String, string_eq, if◌then◌else◌,
}
use pocket_rust.Typeck.Types.{
  IntKind, u8, i8, u16, i16, u32, i32, u64, i64, u128, i128, usize, isize, RType, int, struct, ref,
  raw_ptr, param, bool, tuple, enum, slice, str, char, never, assoc_proj, fn_ptr, dyn, RTypes,
  no_types, and_type, DynBound, dyn_bound, DynBounds, no_bounds, and_bound, AssocBindings,
  no_bindings, and_binding,
}

-- The discriminant, which `==` on `IntKind` compares.
abbrev int_kind_rank : IntKind → ℕ
int_kind_rank u8 = 0
int_kind_rank i8 = 1
int_kind_rank u16 = 2
int_kind_rank i16 = 3
int_kind_rank u32 = 4
int_kind_rank i32 = 5
int_kind_rank u64 = 6
int_kind_rank i64 = 7
int_kind_rank u128 = 8
int_kind_rank i128 = 9
int_kind_rank usize = 10
int_kind_rank isize = 11

abbrev pub int_kind_eq : IntKind → IntKind → Bool
int_kind_eq a b = int_kind_rank a == int_kind_rank b

abbrev pub bool_eq : Bool → Bool → Bool
bool_eq true b = b
bool_eq false b = not b

-- `==` on `Vec<String>`
abbrev pub path_eq : List String → List String → Bool
path_eq [] [] = true
path_eq (a ∷ as_) (b ∷ bs) = string_eq a b && path_eq as_ bs
path_eq _ _ = false

abbrev pub count_types : RTypes → ℕ
count_types no_types = 0
count_types (and_type t ts) = suc (count_types ts)

abbrev pub count_bounds : DynBounds → ℕ
count_bounds no_bounds = 0
count_bounds (and_bound b bs) = suc (count_bounds bs)

abbrev pub count_bindings : AssocBindings → ℕ
count_bindings no_bindings = 0
count_bindings (and_binding name t bs) = suc (count_bindings bs)

-- The loops of rtype_vec_eq, dyn_bounds_eq and dyn_bound_eq compare the elements of lists that have the
-- same length.
unfoldable mutual
  pub rtype_eq : RType → RType → Bool
  rtype_eq bool bool = true
  rtype_eq (int ka) (int kb) = int_kind_eq ka kb
  rtype_eq (struct pa aa la) (struct pb ab lb) =
      path_eq pa pb && ((count_types aa == count_types ab) && types_loop aa ab)
  rtype_eq (ref ia ma la) (ref ib mb lb) = bool_eq ma mb && rtype_eq ia ib
  rtype_eq (raw_ptr ia ma) (raw_ptr ib mb) = bool_eq ma mb && rtype_eq ia ib
  rtype_eq (param a) (param b) = string_eq a b
  rtype_eq (slice a) (slice b) = rtype_eq a b
  rtype_eq str str = true
  rtype_eq (tuple a) (tuple b) = (count_types a == count_types b) && types_loop a b
  rtype_eq (enum pa aa la) (enum pb ab lb) =
      path_eq pa pb && ((count_types aa == count_types ab) && types_loop aa ab)
  rtype_eq (assoc_proj ba ta na) (assoc_proj bb tb nb) =
      path_eq ta tb && (string_eq na nb && rtype_eq ba bb)
  rtype_eq never never = true
  rtype_eq char char = true
  rtype_eq (fn_ptr pa ra) (fn_ptr pb rb) =
      (count_types pa == count_types pb) && (types_loop pa pb && rtype_eq ra rb)
  rtype_eq (dyn ba la) (dyn bb lb) = (count_bounds ba == count_bounds bb) && bounds_loop ba bb
  rtype_eq _ _ = false

  pub types_loop : RTypes → RTypes → Bool
  types_loop no_types us = true
  types_loop (and_type t ts) no_types = false
  types_loop (and_type t ts) (and_type u us) = rtype_eq t u && types_loop ts us

  pub dyn_bound_eq : DynBound → DynBound → Bool
  dyn_bound_eq (dyn_bound pa ta ba) (dyn_bound pb tb bb) =
      path_eq pa pb
      && ((count_types ta == count_types tb)
          && (types_loop ta tb
              && ((count_bindings ba == count_bindings bb) && bindings_loop ba bb)))

  pub bounds_loop : DynBounds → DynBounds → Bool
  bounds_loop no_bounds cs = true
  bounds_loop (and_bound b bs) no_bounds = false
  bounds_loop (and_bound b bs) (and_bound c cs) = dyn_bound_eq b c && bounds_loop bs cs

  pub bindings_loop : AssocBindings → AssocBindings → Bool
  bindings_loop no_bindings cs = true
  bindings_loop (and_binding a t bs) no_bindings = false
  bindings_loop (and_binding a t bs) (and_binding b u cs) =
      string_eq a b && (rtype_eq t u && bindings_loop bs cs)

unfoldable pub rtype_vec_eq : RTypes → RTypes → Bool
rtype_vec_eq a b = if not (count_types a == count_types b) then false else types_loop a b

unfoldable pub dyn_bounds_eq : DynBounds → DynBounds → Bool
dyn_bounds_eq a b = if not (count_bounds a == count_bounds b) then false else bounds_loop a b
