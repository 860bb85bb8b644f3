-- ===== src/Typeck/Types.antt =====
-- The types of src/typeck/types.rs.
pub mod Equal
use pocket_rust.Prelude.{ℕ, Bool, List, String}

pub data IntKind : Type 0 where
  u8 i8 u16 i16 u32 i32 u64 i64 u128 i128 usize isize : IntKind

pub data LifetimeRepr : Type 0 where
  named : String → LifetimeRepr
  inferred : ℕ → LifetimeRepr

-- `Vec<RType>` is `RTypes`, `Vec<DynBound>` is `DynBounds` and `Vec<(String, RType)>` is `AssocBindings`.
mutual
  pub data RType : Type 0 where
    int : IntKind → RType
    struct : (path : List String) (type_args : RTypes) (lifetime_args : List LifetimeRepr) → RType
    ref : (inner : RType) (mutable : Bool) (lifetime : LifetimeRepr) → RType
    raw_ptr : (inner : RType) (mutable : Bool) → RType
    param : String → RType
    bool : RType
    tuple : RTypes → RType
    enum : (path : List String) (type_args : RTypes) (lifetime_args : List LifetimeRepr) → RType
    slice : RType → RType
    str : RType
    char : RType
    never : RType
    assoc_proj : (base : RType) (trait_path : List String) (name : String) → RType
    opaque : (fn_path : List String) (slot : ℕ) → RType
    fn_ptr : (params : RTypes) (ret : RType) → RType
    dyn : (bounds : DynBounds) (lifetime : LifetimeRepr) → RType

  pub data RTypes : Type 0 where
    no_types : RTypes
    and_type : RType → RTypes → RTypes

  pub data DynBound : Type 0 where
    dyn_bound :
        (trait_path : List String) (trait_args : RTypes) (assoc_bindings : AssocBindings) → DynBound

  pub data DynBounds : Type 0 where
    no_bounds : DynBounds
    and_bound : DynBound → DynBounds → DynBounds

  pub data AssocBindings : Type 0 where
    no_bindings : AssocBindings
    and_binding : String → RType → AssocBindings → AssocBindings
