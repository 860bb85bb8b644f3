-- ===== src/Wasm/Examples.antt =====
-- Runs of the encoders of src/wasm.rs, and the theorems at concrete inputs.
use pocket_rust.Prelude.{◌≡◌, refl, true, none, some, List, [], ◌∷◌, ◌++◌, length, arith}
use pocket_rust.Wasm.Leb.{pos, negsuc, write_uleb128, write_sleb128, write_sleb128_64}
use pocket_rust.Wasm.Leb.Unsigned.{read_u, read_u-write_uleb128}
use pocket_rust.Wasm.Leb.Signed.{read_s, read_s-write_sleb128, read_s-write_sleb128_64}
use pocket_rust.Wasm.Types.{
  ValType, i32, i64, func, Module, Instruction, call_indirect, local_get, i32_const, if_block,
  else_branch, end_block, empty, single, block, br,
}
use pocket_rust.Wasm.Instr.{encode_block_type, encode_instruction}
use pocket_rust.Wasm.Instr.Decode.{read_instruction}
use pocket_rust.Wasm.Instr.RoundTrip.{read_instruction-encode}
use pocket_rust.Wasm.Reader.{Reads}
use pocket_rust.Prelude.{for_each}
use pocket_rust.Wasm.Format.{FuncBodyInRange}
use pocket_rust.Wasm.Sections.{
  push_bytes, encode_section, push_val_type, encode_func_type, encode_type_section, encode_import,
  encode_import_section, encode_function_section, encode_limits, encode_memory,
  encode_memory_section, encode_global, encode_global_section, export_kind_byte, encode_export,
  encode_export_section, encode_element_section, encode_func_body, encode_code_section, encode_data,
  encode_data_section,
}
use pocket_rust.Wasm.Sections.Locals.{encode_locals}
use pocket_rust.Wasm.Sections.Locals.Runs.{read_locals, Reads-read_locals}
use pocket_rust.Wasm.Encode.{new_module, intern_table_slot, encode}
use pocket_rust.Wasm.Encode.Table.{Interned, intern_table_slot-Interned, intern_table_slot_twice}
use pocket_rust.Wasm.Format.Expr.{IsBalanced, nesting, read_expr, expr_bytes, Reads-read_expr}
use pocket_rust.Wasm.Format.Whole.{read_module, ModuleInRange}
use pocket_rust.Wasm.Format.Whole.RoundTrip.{read_module-encode}

uleb_624485 : write_uleb128 [] 624485 ≡ 0xe5 ∷ 0x8e ∷ 0x26 ∷ []
unfolding write_uleb128
uleb_624485 = refl

sleb_minus_123456 : write_sleb128 [] (negsuc 123455) ≡ 0xc0 ∷ 0xbb ∷ 0x78 ∷ []
unfolding write_sleb128
sleb_minus_123456 = refl

sleb_i64_min : length (write_sleb128_64 [] (negsuc 0x7fff_ffff_ffff_ffff)) ≡ 10
unfolding write_sleb128_64
sleb_i64_min = refl

read_u-write_uleb128_example :
    read_u 32 (write_uleb128 [] 0xffff_ffff ++ (7 ∷ [])) ≡ some (0xffff_ffff, 7 ∷ [])
read_u-write_uleb128_example = read_u-write_uleb128 0xffff_ffff (7 ∷ []) (omega arith)

read_s-write_sleb128_example :
    read_s 32 (write_sleb128 [] (negsuc 0x7fff_ffff) ++ (7 ∷ []))
    ≡ some (negsuc 0x7fff_ffff, 7 ∷ [])
read_s-write_sleb128_example = read_s-write_sleb128 (negsuc 0x7fff_ffff) (7 ∷ []) (omega arith)

read_s-write_sleb128_64_example : read_s 64 (write_sleb128_64 [] (pos 64) ++ []) ≡ some (pos 64, [])
read_s-write_sleb128_64_example = read_s-write_sleb128_64 (pos 64) [] (omega arith)

read_instruction-encode_example :
    read_instruction (encode_instruction [] (call_indirect 3 0) ++ (0x0b ∷ []))
    ≡ some (call_indirect 3 0, 0x0b ∷ [])
read_instruction-encode_example =
    read_instruction-encode (call_indirect 3 0) (0x0b ∷ []) (omega arith)

abbrev three_runs : List ValType
three_runs = i32 ∷ i32 ∷ i64 ∷ i32 ∷ []

locals_bytes : encode_locals [] three_runs ≡ 3 ∷ 2 ∷ 0x7f ∷ 1 ∷ 0x7e ∷ 1 ∷ 0x7f ∷ []
unfolding encode_locals write_uleb128
locals_bytes = refl

Reads-read_locals_example : Reads read_locals (encode_locals [] three_runs) three_runs
Reads-read_locals_example = Reads-read_locals three_runs (omega arith)

abbrev branching : List Instruction
branching =
    local_get 0
    ∷ if_block (single i32)
    ∷ i32_const (pos 1)
    ∷ else_branch
    ∷ block empty
    ∷ br 0
    ∷ end_block
    ∷ i32_const (negsuc 0)
    ∷ end_block
    ∷ []

branching-IsBalanced : IsBalanced branching
unfolding nesting
branching-IsBalanced = (
  0,
  refl,
  (1, refl, (1, refl, (1, refl, (2, refl, (2, refl, (1, refl, (1, refl, (0, refl, refl)))))))),
)

Reads-read_expr_example : Reads read_expr (expr_bytes [] branching) branching
Reads-read_expr_example = Reads-read_expr branching branching-IsBalanced (omega arith)

abbrev small_table : Module
small_table = record new_module { func_table = 4 ∷ 9 ∷ [] }

intern_table_slot-Interned_example :
    Interned small_table 7 (intern_table_slot small_table 7).0 (intern_table_slot small_table 7).1
intern_table_slot-Interned_example = intern_table_slot-Interned small_table 7 (omega arith)

intern_table_slot_twice_example :
    intern_table_slot (intern_table_slot small_table 9).0 9 ≡ intern_table_slot small_table 9
intern_table_slot_twice_example = intern_table_slot_twice small_table 9

intern_runs : (intern_table_slot small_table 9).1 ≡ 1
unfolding intern_table_slot
intern_runs = refl

abbrev sample : Module
sample = record {
  types = record { params = i32 ∷ []; results = i32 ∷ [] } ∷ [];
  imports = record { module_name = 0x65 ∷ []; name = 0x66 ∷ 0x67 ∷ []; type_idx = 0 } ∷ [];
  functions = 0 ∷ [];
  memories = record { min_pages = 1; max_pages = none } ∷ [];
  globals = record { ty = i32; mutable = true; init = i32_const (pos 65536) } ∷ [];
  exports = record { name = 0x61 ∷ []; kind = func; index = 1 } ∷ [];
  code = record { locals = three_runs; instructions = branching } ∷ [];
  datas = record { offset = 0xffff_0000; bytes = 0x68 ∷ 0x69 ∷ [] } ∷ [];
  func_table = 1 ∷ [];
}

sample_body-FuncBodyInRange :
    FuncBodyInRange (record { locals = three_runs; instructions = branching })
unfolding write_uleb128 write_sleb128 for_each encode_locals encode_instruction encode_block_type
    push_bytes encode_func_body
sample_body-FuncBodyInRange = record {
  locals_short = omega arith;
  balanced = branching-IsBalanced;
  immediates = omega arith;
  size = omega arith;
}

sample-ModuleInRange : ModuleInRange sample
unfolding write_uleb128 write_sleb128 for_each encode_locals encode_instruction encode_block_type
    push_bytes encode_section push_val_type encode_func_type encode_type_section encode_import
    encode_import_section encode_function_section encode_limits encode_memory encode_memory_section
    encode_global encode_global_section export_kind_byte encode_export encode_export_section
    encode_element_section encode_func_body encode_code_section encode_data encode_data_section
sample-ModuleInRange = record {
  types_short = omega arith;
  imports_short = omega arith;
  functions_short = omega arith;
  table_short = omega arith;
  memories_short = omega arith;
  globals_short = omega arith;
  exports_short = omega arith;
  code_short = omega arith;
  datas_short = omega arith;
  types_in_range = omega arith;
  imports_in_range = omega arith;
  functions_in_range = omega arith;
  table_in_range = omega arith;
  memories_in_range = omega arith;
  globals_in_range = omega arith;
  exports_in_range = omega arith;
  code_in_range = (sample_body-FuncBodyInRange, tt);
  datas_in_range = omega arith;
  types_fit = omega arith;
  imports_fit = omega arith;
  functions_fit = omega arith;
  memories_fit = omega arith;
  globals_fit = omega arith;
  exports_fit = omega arith;
  elements_fit = omega arith;
  code_fits = omega arith;
  datas_fit = omega arith;
}

read_module-encode_example : read_module (encode sample) ≡ some (sample, [])
read_module-encode_example = read_module-encode sample sample-ModuleInRange
