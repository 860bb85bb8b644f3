-- ===== src/Wasm/Sections.antt =====
-- The section encoders of src/wasm.rs. Each loop over an index is a pass over the list.
pub mod Locals
use pocket_rust.Prelude.{
  ℕ, zero, suc, ◌+◌, ◌-◌, ◌%◌, ◌^◌, ltb, Bool, true, false, Option, none, some, List, [], ◌∷◌, ◌++◌,
  length, push, for_each, as_u32, if◌then◌else◌,
}
use pocket_rust.Wasm.Leb.{ℤ, pos, negsuc, write_uleb128, write_sleb128}
use pocket_rust.Wasm.Types.{
  ValType, val_type_eq, FuncType, Import, Data, Memory, Global, Export, ExportKind, func, memory,
  FuncBody,
}
use pocket_rust.Wasm.Instr.{val_type_byte, encode_instruction}
use pocket_rust.Wasm.Sections.Locals.{encode_locals}

-- `push_bytes`
unfoldable pub push_bytes : List ℕ → List ℕ → List ℕ
push_bytes out src = for_each push out src

unfoldable pub encode_section : List ℕ → ℕ → List ℕ → List ℕ
unfolding push_bytes
encode_section out id payload =
    push_bytes (write_uleb128 (push out id) (as_u32 (length payload))) payload

unfoldable pub push_val_type : List ℕ → ValType → List ℕ
push_val_type out t = push out (val_type_byte t)

unfoldable pub encode_func_type : List ℕ → FuncType → List ℕ
unfolding push_val_type
encode_func_type out ft =
    let out = write_uleb128 (push out 0x60) (as_u32 (length ft.params)) in
    let out = for_each push_val_type out ft.params in
    let out = write_uleb128 out (as_u32 (length ft.results)) in
    for_each push_val_type out ft.results

unfoldable pub encode_type_section : List ℕ → List FuncType → List ℕ
encode_type_section out types =
    let payload = for_each encode_func_type (write_uleb128 [] (as_u32 (length types))) types in
    encode_section out 1 payload

unfoldable pub encode_import : List ℕ → Import → List ℕ
encode_import out imp =
    let out = write_uleb128 out (as_u32 (length imp.module_name)) in
    let out = for_each push out imp.module_name in
    let out = write_uleb128 out (as_u32 (length imp.name)) in
    let out = for_each push out imp.name in write_uleb128 (push out 0x00) imp.type_idx

unfoldable pub encode_import_section : List ℕ → List Import → List ℕ
encode_import_section out imports =
    let payload = for_each encode_import (write_uleb128 [] (as_u32 (length imports))) imports in
    encode_section out 2 payload

unfoldable pub encode_function_section : List ℕ → List ℕ → List ℕ
encode_function_section out funcs =
    let payload = for_each write_uleb128 (write_uleb128 [] (as_u32 (length funcs))) funcs in
    encode_section out 3 payload

unfoldable pub encode_limits : List ℕ → ℕ → Option ℕ → List ℕ
encode_limits out min (some m) = write_uleb128 (write_uleb128 (push out 0x01) min) m
encode_limits out min none = write_uleb128 (push out 0x00) min

unfoldable pub encode_table_section : List ℕ → ℕ → List ℕ
encode_table_section out count =
    encode_section out 4 (encode_limits (push (write_uleb128 [] 1) 0x70) count (some count))

unfoldable pub encode_element_section : List ℕ → List ℕ → List ℕ
encode_element_section out func_table =
    let payload = push (push (write_uleb128 [] 1) 0x00) 0x41 in
    let payload = push (write_sleb128 payload (pos 0)) 0x0b in
    let payload = write_uleb128 payload (as_u32 (length func_table)) in
    encode_section out 9 (for_each write_uleb128 payload func_table)

unfoldable pub encode_memory : List ℕ → Memory → List ℕ
encode_memory out mem = encode_limits out mem.min_pages mem.max_pages

unfoldable pub encode_memory_section : List ℕ → List Memory → List ℕ
encode_memory_section out mems =
    let payload = for_each encode_memory (write_uleb128 [] (as_u32 (length mems))) mems in
    encode_section out 5 payload

unfoldable pub encode_global : List ℕ → Global → List ℕ
encode_global out g =
    let out = push out (val_type_byte g.ty) in
    let out = push out (if g.mutable then 0x01 else 0x00) in
    push (encode_instruction out g.init) 0x0b

unfoldable pub encode_global_section : List ℕ → List Global → List ℕ
encode_global_section out globals =
    let payload = for_each encode_global (write_uleb128 [] (as_u32 (length globals))) globals in
    encode_section out 6 payload

unfoldable pub export_kind_byte : ExportKind → ℕ
export_kind_byte func = 0x00
export_kind_byte memory = 0x02

unfoldable pub encode_export : List ℕ → Export → List ℕ
encode_export out exp =
    let out = write_uleb128 out (as_u32 (length exp.name)) in
    let out = push_bytes out exp.name in
    write_uleb128 (push out (export_kind_byte exp.kind)) exp.index

unfoldable pub encode_export_section : List ℕ → List Export → List ℕ
encode_export_section out exports =
    let payload = for_each encode_export (write_uleb128 [] (as_u32 (length exports))) exports in
    encode_section out 7 payload

unfoldable pub encode_func_body : List ℕ → FuncBody → List ℕ
encode_func_body out body =
    let buf = encode_locals [] body.locals in
    let buf = push (for_each encode_instruction buf body.instructions) 0x0b in
    push_bytes (write_uleb128 out (as_u32 (length buf))) buf

unfoldable pub encode_code_section : List ℕ → List FuncBody → List ℕ
encode_code_section out bodies =
    let payload = for_each encode_func_body (write_uleb128 [] (as_u32 (length bodies))) bodies in
    encode_section out 10 payload

-- `n as i32` of a u32
abbrev pub as_i32 : ℕ → ℤ
as_i32 n = if ltb n (2 ^ 31) then pos n else negsuc (2 ^ 32 - 1 - n)

unfoldable pub encode_data : List ℕ → Data → List ℕ
encode_data out d =
    let out = write_sleb128 (push (push out 0x00) 0x41) (as_i32 d.offset) in
    let out = write_uleb128 (push out 0x0b) (as_u32 (length d.bytes)) in for_each push out d.bytes

unfoldable pub encode_data_section : List ℕ → List Data → List ℕ
encode_data_section out datas =
    let payload = for_each encode_data (write_uleb128 [] (as_u32 (length datas))) datas in
    encode_section out 11 payload
