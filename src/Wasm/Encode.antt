-- ===== src/Wasm/Encode.antt =====
-- `Module::new`, `Module::encode` and `Module::intern_table_slot` of src/wasm.rs.
pub mod Table
use pocket_rust.Prelude.{
  is_empty, ℕ, zero, suc, ◌+◌, Bool, true, false, not, List, [], ◌∷◌, ◌++◌, length, push, as_u32,
  Option, none, some, ◌==◌, if◌then◌else◌,
}
use pocket_rust.Wasm.Types.{Module}
use pocket_rust.Wasm.Sections.{
  encode_type_section, encode_import_section, encode_function_section, encode_table_section,
  encode_memory_section, encode_global_section, encode_export_section, encode_element_section,
  encode_code_section, encode_data_section,
}

-- `Module::new`
abbrev pub new_module : Module
new_module = record {
  types = [];
  imports = [];
  functions = [];
  memories = [];
  globals = [];
  exports = [];
  code = [];
  datas = [];
  func_table = [];
}

-- The loop of `intern_table_slot`, from index `i` on.
unfoldable pub find_slot : List ℕ → ℕ → ℕ → Option ℕ
find_slot [] wasm_idx i = none
find_slot (entry ∷ entries) wasm_idx i =
    if entry == wasm_idx then some i else find_slot entries wasm_idx (i + 1)

unfoldable pub intern_table_slot : Module → ℕ → Module × ℕ
unfolding find_slot
intern_table_slot m wasm_idx = elim (find_slot m.func_table wasm_idx 0) [
  | some i ↦ (m, as_u32 i)
  | none ↦ (record m { func_table = push m.func_table wasm_idx }, as_u32 (length m.func_table))
]

abbrev pub header : List ℕ
header = 0x00 ∷ 0x61 ∷ 0x73 ∷ 0x6d ∷ 0x01 ∷ 0x00 ∷ 0x00 ∷ 0x00 ∷ []

unfoldable pub encode : Module → List ℕ
encode m =
    let bytes = header in
    let bytes = if not (is_empty m.types) then encode_type_section bytes m.types else bytes in
    let bytes = if not (is_empty m.imports) then encode_import_section bytes m.imports else bytes in
    let bytes =
      if not (is_empty m.functions) then encode_function_section bytes m.functions else bytes in
    let bytes =
      if not (is_empty m.func_table)
      then encode_table_section bytes (as_u32 (length m.func_table))
      else bytes in
    let bytes =
      if not (is_empty m.memories) then encode_memory_section bytes m.memories else bytes in
    let bytes = if not (is_empty m.globals) then encode_global_section bytes m.globals else bytes in
    let bytes = if not (is_empty m.exports) then encode_export_section bytes m.exports else bytes in
    let bytes =
      if not (is_empty m.func_table) then encode_element_section bytes m.func_table else bytes in
    let bytes = if not (is_empty m.code) then encode_code_section bytes m.code else bytes in
    if not (is_empty m.datas) then encode_data_section bytes m.datas else bytes
