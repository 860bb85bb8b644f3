-- ===== src/Wasm/Types.antt =====
-- The data of src/wasm.rs: a module, its parts and the instructions. A `String` is the list of its
-- UTF-8 bytes, a `u32` a number, and an `i32` or `i64` an integer.
use pocket_rust.Prelude.{ℕ, Bool, true, false, Option, List}
use pocket_rust.Wasm.Leb.{ℤ}

pub data ValType : Type 0 where
  i32 i64 : ValType

unfoldable pub val_type_eq : ValType → ValType → Bool
val_type_eq i32 i32 = true
val_type_eq i64 i64 = true
val_type_eq _ _ = false

pub record FuncType : Type 0 where
  pub params : List ValType
  pub results : List ValType

pub record Import : Type 0 where
  pub module_name : List ℕ
  pub name : List ℕ
  pub type_idx : ℕ

pub record Data : Type 0 where
  pub offset : ℕ
  pub bytes : List ℕ

pub record Memory : Type 0 where
  pub min_pages : ℕ
  pub max_pages : Option ℕ

pub data BlockType : Type 0 where
  empty : BlockType
  single : ValType → BlockType
  type_idx : ℕ → BlockType

-- Names that are words of the notation are spelled out: `if_block` is `If`, `return_op` is `Return`.
pub data Instruction : Type 0 where
  unreachable : Instruction
  i32_const i64_const : ℤ → Instruction
  local_get local_set global_get global_set : ℕ → Instruction
  drop : Instruction
  call : ℕ → Instruction
  call_indirect : ℕ → ℕ → Instruction
  i32_add i32_sub i32_mul i32_div_s i32_div_u i32_rem_s i32_rem_u i32_and i32_or : Instruction
  i32_xor i32_eqz i32_eq i32_ne i32_lt_s i32_lt_u i32_gt_s i32_gt_u i32_le_s i32_le_u : Instruction
  i32_ge_s i32_ge_u i64_add i64_sub i64_mul i64_div_s i64_div_u i64_rem_s i64_rem_u : Instruction
  i64_and i64_or i64_xor i64_eqz i64_eq i64_ne i64_lt_s i64_lt_u i64_gt_s i64_gt_u : Instruction
  i64_le_s i64_le_u i64_ge_s i64_ge_u i32_shl i32_shr_s i32_shr_u i32_wrap_i64 : Instruction
  i64_extend_i32_s i64_extend_i32_u i64_shr_s : Instruction
  i32_load i32_load8_u i32_load8_s i32_load16_u i32_load16_s i64_load i32_store :
      ℕ → ℕ → Instruction
  i32_store8 i32_store16 i64_store : ℕ → ℕ → Instruction
  if_block : BlockType → Instruction
  else_branch end_block : Instruction
  block loop_block : BlockType → Instruction
  br br_if : ℕ → Instruction
  return_op : Instruction

pub record Global : Type 0 where
  pub ty : ValType
  pub mutable : Bool
  pub init : Instruction

pub data ExportKind : Type 0 where
  func memory : ExportKind

pub record Export : Type 0 where
  pub name : List ℕ
  pub kind : ExportKind
  pub index : ℕ

pub record FuncBody : Type 0 where
  pub locals : List ValType
  pub instructions : List Instruction

pub record Module : Type 0 where
  pub types : List FuncType
  pub imports : List Import
  pub functions : List ℕ
  pub memories : List Memory
  pub globals : List Global
  pub exports : List Export
  pub code : List FuncBody
  pub datas : List Data
  pub func_table : List ℕ
