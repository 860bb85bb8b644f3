-- ===== src/Wasm/Format/Whole.antt =====
-- A whole module: the sections in the order of the specification, each at most once.
pub mod Sections
pub mod Bytes
pub mod Yields
pub mod RoundTrip
use pocket_rust.Prelude.{
  ℕ, ◌^◌, ◌<◌, Bool, true, false, Option, none, some, List, [], ◌∷◌, length, All, ◌&&◌, ◌==◌,
  if◌then◌else◌,
}
use pocket_rust.Wasm.Leb.Unsigned.{read_u, IsU32}
use pocket_rust.Wasm.Types.{Module, Memory}
use pocket_rust.Wasm.Reader.{
  Reader, ◌>>=◌, ◌>>◌, pure, read_byte, read_vec, read_sized, read_optional,
}
use pocket_rust.Wasm.Instr.Decode.{InstructionInRange}
use pocket_rust.Wasm.Sections.{
  encode_type_section, encode_import_section, encode_function_section, encode_table_section,
  encode_memory_section, encode_global_section, encode_export_section, encode_element_section,
  encode_code_section, encode_data_section,
}
use pocket_rust.Wasm.Format.{
  Short, read_func_type, FuncTypeInRange, read_import, ImportInRange, read_limits, MemoryInRange,
  read_table, read_element, read_global, GlobalInRange, read_export, ExportInRange, read_body,
  FuncBodyInRange, read_data, DataInRange,
}

unfoldable pub read_header : Reader (Unit {0})
read_header = do
  read_byte 0x00
  read_byte 0x61
  read_byte 0x73
  read_byte 0x6d
  read_byte 0x01
  read_byte 0x00
  read_byte 0x00
  read_byte 0x00

-- The table that the element section fills: as long as that is, and with no room to grow.
abbrev pub table_of : ℕ → Memory
table_of n = record { min_pages = n; max_pages = some n }

abbrev max_is : Option ℕ → ℕ → Bool
max_is none n = false
max_is (some m) n = m == n

unfoldable pub table_fits : Memory → List ℕ → Bool
table_fits table funcs = table.min_pages == length funcs && max_is table.max_pages (length funcs)

unfoldable pub fail_unless : {A : Type 0} → Bool → A → Reader A
fail_unless true a bs = some (a, bs)
fail_unless false a bs = none

unfoldable pub read_module : Reader Module
unfolding table_fits
read_module = do
  read_header
  types ← read_optional 1 [] (read_vec read_func_type)
  imports ← read_optional 2 [] (read_vec read_import)
  functions ← read_optional 3 [] (read_vec (read_u 32))
  table ← read_optional 4 (table_of 0) read_table
  memories ← read_optional 5 [] (read_vec read_limits)
  globals ← read_optional 6 [] (read_vec read_global)
  exports ← read_optional 7 [] (read_vec read_export)
  func_table ← read_optional 9 [] read_element
  code ← read_optional 10 [] (read_vec (read_sized read_body))
  datas ← read_optional 11 [] (read_vec read_data)
  fail_unless (table_fits table func_table) (record {
    types = types;
    imports = imports;
    functions = functions;
    memories = memories;
    globals = globals;
    exports = exports;
    code = code;
    datas = datas;
    func_table = func_table;
  })

-- The lists, the names, the indices and the encoded sections are in the range of a u32, the
-- immediates are in the ranges of their types, and the blocks of each body are balanced.
pub record ModuleInRange (m : Module) : Type 0 where
  pub types_short : Short m.types
  pub imports_short : Short m.imports
  pub functions_short : Short m.functions
  pub table_short : Short m.func_table
  pub memories_short : Short m.memories
  pub globals_short : Short m.globals
  pub exports_short : Short m.exports
  pub code_short : Short m.code
  pub datas_short : Short m.datas
  pub types_in_range : All FuncTypeInRange m.types
  pub imports_in_range : All ImportInRange m.imports
  pub functions_in_range : All IsU32 m.functions
  pub table_in_range : All IsU32 m.func_table
  pub memories_in_range : All MemoryInRange m.memories
  pub globals_in_range : All GlobalInRange m.globals
  pub exports_in_range : All ExportInRange m.exports
  pub code_in_range : All FuncBodyInRange m.code
  pub datas_in_range : All DataInRange m.datas
  pub types_fit : Short (encode_type_section [] m.types)
  pub imports_fit : Short (encode_import_section [] m.imports)
  pub functions_fit : Short (encode_function_section [] m.functions)
  pub memories_fit : Short (encode_memory_section [] m.memories)
  pub globals_fit : Short (encode_global_section [] m.globals)
  pub exports_fit : Short (encode_export_section [] m.exports)
  pub elements_fit : Short (encode_element_section [] m.func_table)
  pub code_fits : Short (encode_code_section [] m.code)
  pub datas_fit : Short (encode_data_section [] m.datas)
