-- ===== src/Wasm/Format.antt =====
-- The module format as the WebAssembly specification reads it, for the parts that src/wasm.rs emits.
pub mod Expr
pub mod Items
pub mod Globals
pub mod Bodies
pub mod Whole
use pocket_rust.Prelude.{
  ℕ, ◌^◌, ◌<◌, Bool, true, false, Option, none, some, List, [], ◌∷◌, length, All, ◌==◌,
  if◌then◌else◌,
}
use pocket_rust.Wasm.Leb.{ℤ, pos, negsuc, to_bits}
use pocket_rust.Wasm.Leb.Unsigned.{read_u, IsU32}
use pocket_rust.Wasm.Leb.Signed.{read_s}
use pocket_rust.Wasm.Types.{
  FuncType, Import, Data, Memory, Global, Export, ExportKind, func, memory, FuncBody, Instruction,
}
use pocket_rust.Wasm.Reader.{Reader, ◌>>=◌, ◌>>◌, pure, read_byte, any_byte, read_vec, read_sized}
use pocket_rust.Wasm.Instr.Decode.{read_val_type, read_instruction, InstructionInRange}
use pocket_rust.Wasm.Sections.Locals.Runs.{read_locals}
use pocket_rust.Wasm.Sections.{encode_func_body}
use pocket_rust.Wasm.Format.Expr.{read_expr, IsBalanced}

abbrev pub OptionInRange : Option ℕ → Type 0
OptionInRange none = Unit
OptionInRange (some n) = IsU32 n

abbrev pub Short {ℓ} : {A : Type ℓ} → List A → Type 0
Short xs = length xs < 2 ^ 32

unfoldable pub read_func_type : Reader FuncType
read_func_type = do
  read_byte 0x60
  ps ← read_vec read_val_type
  rs ← read_vec read_val_type
  pure (record { params = ps; results = rs })

abbrev pub FuncTypeInRange : FuncType → Type 0
FuncTypeInRange ft = Short ft.params × Short ft.results

unfoldable pub read_name : Reader (List ℕ)
read_name = read_vec any_byte

unfoldable pub read_import : Reader Import
read_import = do
  m ← read_name
  n ← read_name
  read_byte 0x00
  t ← read_u 32
  pure (record { module_name = m; name = n; type_idx = t })

abbrev pub ImportInRange : Import → Type 0
ImportInRange imp = Short imp.module_name × Short imp.name × IsU32 imp.type_idx

-- The smallest size and, if the flag is 1, the largest.
unfoldable pub read_max : ℕ → ℕ → Reader Memory
read_max flag min =
    if flag == 0
    then pure (record { min_pages = min; max_pages = none })
    else read_u 32 >>= λ max. pure (record { min_pages = min; max_pages = some max })

unfoldable pub read_limits : Reader Memory
read_limits = do flag ← any_byte; min ← read_u 32; read_max flag min

abbrev pub MemoryInRange : Memory → Type 0
MemoryInRange mem = IsU32 mem.min_pages × OptionInRange mem.max_pages

unfoldable pub read_table : Reader Memory
read_table = do read_byte 0x01; read_byte 0x70; read_limits

-- One active segment at offset 0.
unfoldable pub read_element : Reader (List ℕ)
read_element = do
  read_byte 0x01
  read_byte 0x00
  read_byte 0x41
  read_byte 0x00
  read_byte 0x0b
  read_vec (read_u 32)

unfoldable pub read_global : Reader Global
read_global = do
  t ← read_val_type
  m ← any_byte
  i ← read_instruction
  read_byte 0x0b
  pure (record { ty = t; mutable = m == 1; init = i })

abbrev pub GlobalInRange : Global → Type 0
GlobalInRange g = InstructionInRange g.init

unfoldable pub read_export_kind : Reader ExportKind
read_export_kind [] = none
read_export_kind (b ∷ bs) =
    if b == 0x00 then some (func, bs) else if b == 0x02 then some (memory, bs) else none

unfoldable pub read_export : Reader Export
read_export = do
  n ← read_name
  k ← read_export_kind
  i ← read_u 32
  pure (record { name = n; kind = k; index = i })

abbrev pub ExportInRange : Export → Type 0
ExportInRange exp = Short exp.name × IsU32 exp.index

unfoldable pub read_body : Reader FuncBody
read_body = do ls ← read_locals; is ← read_expr; pure (record { locals = ls; instructions = is })

-- The blocks of a body are balanced, and its size fits the field for it.
pub record FuncBodyInRange (body : FuncBody) : Type 0 where
  pub locals_short : Short body.locals
  pub balanced : IsBalanced body.instructions
  pub immediates : All InstructionInRange body.instructions
  pub size : length (encode_func_body [] body) < 2 ^ 32

-- An offset is an i32 whose bits are read as a u32.
unfoldable pub read_data : Reader Data
read_data = do
  read_byte 0x00
  read_byte 0x41
  z ← read_s 32
  read_byte 0x0b
  bs ← read_vec any_byte
  pure (record { offset = to_bits 32 z; bytes = bs })

abbrev pub DataInRange : Data → Type 0
DataInRange d = IsU32 d.offset × Short d.bytes
