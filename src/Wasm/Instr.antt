-- ===== src/Wasm/Instr.antt =====
-- `encode_instruction` and `encode_block_type` of src/wasm.rs, in the order of the enum.
pub mod Decode
pub mod RoundTrip
use pocket_rust.Prelude.{ℕ, List, push}
use pocket_rust.Wasm.Leb.{pos, write_uleb128, write_sleb128, write_sleb128_64}
use pocket_rust.Wasm.Types.{ValType, i32, i64, BlockType, empty, single, type_idx, Instruction}
use pocket_rust.Wasm.Types.{
  unreachable, i32_const, i64_const, local_get, local_set, global_get, global_set, drop, call,
  call_indirect, i32_add, i32_sub, i32_mul, i32_div_s, i32_div_u, i32_rem_s, i32_rem_u, i32_and,
  i32_or, i32_xor, i32_eqz, i32_eq, i32_ne, i32_lt_s, i32_lt_u, i32_gt_s, i32_gt_u, i32_le_s,
  i32_le_u, i32_ge_s, i32_ge_u, i64_add, i64_sub, i64_mul, i64_div_s, i64_div_u, i64_rem_s,
  i64_rem_u, i64_and, i64_or, i64_xor, i64_eqz, i64_eq, i64_ne, i64_lt_s, i64_lt_u, i64_gt_s,
  i64_gt_u, i64_le_s, i64_le_u, i64_ge_s, i64_ge_u, i32_shl, i32_shr_s, i32_shr_u, i32_wrap_i64,
  i64_extend_i32_s, i64_extend_i32_u, i64_shr_s, i32_load, i32_load8_u, i32_load8_s, i32_load16_u,
  i32_load16_s, i64_load, i32_store, i32_store8, i32_store16, i64_store, if_block, else_branch,
  end_block, block, loop_block, br, br_if, return_op,
}

unfoldable pub val_type_byte : ValType → ℕ
val_type_byte i32 = 0x7f
val_type_byte i64 = 0x7e

unfoldable pub encode_block_type : List ℕ → BlockType → List ℕ
unfolding val_type_byte
encode_block_type out empty = push out 0x40
encode_block_type out (single vt) = push out (val_type_byte vt)
encode_block_type out (type_idx i) = write_sleb128_64 out (pos i)

unfoldable pub encode_instruction : List ℕ → Instruction → List ℕ
encode_instruction out unreachable = push out 0x00
encode_instruction out (i32_const n) = write_sleb128 (push out 0x41) n
encode_instruction out (i64_const n) = write_sleb128_64 (push out 0x42) n
encode_instruction out (local_get idx) = write_uleb128 (push out 0x20) idx
encode_instruction out (local_set idx) = write_uleb128 (push out 0x21) idx
encode_instruction out (global_get idx) = write_uleb128 (push out 0x23) idx
encode_instruction out (global_set idx) = write_uleb128 (push out 0x24) idx
encode_instruction out drop = push out 0x1a
encode_instruction out (call idx) = write_uleb128 (push out 0x10) idx
encode_instruction out (call_indirect t i) = write_uleb128 (write_uleb128 (push out 0x11) t) i
encode_instruction out i32_add = push out 0x6a
encode_instruction out i32_sub = push out 0x6b
encode_instruction out i32_mul = push out 0x6c
encode_instruction out i32_div_s = push out 0x6d
encode_instruction out i32_div_u = push out 0x6e
encode_instruction out i32_rem_s = push out 0x6f
encode_instruction out i32_rem_u = push out 0x70
encode_instruction out i32_and = push out 0x71
encode_instruction out i32_or = push out 0x72
encode_instruction out i32_xor = push out 0x73
encode_instruction out i32_eqz = push out 0x45
encode_instruction out i32_eq = push out 0x46
encode_instruction out i32_ne = push out 0x47
encode_instruction out i32_lt_s = push out 0x48
encode_instruction out i32_lt_u = push out 0x49
encode_instruction out i32_gt_s = push out 0x4a
encode_instruction out i32_gt_u = push out 0x4b
encode_instruction out i32_le_s = push out 0x4c
encode_instruction out i32_le_u = push out 0x4d
encode_instruction out i32_ge_s = push out 0x4e
encode_instruction out i32_ge_u = push out 0x4f
encode_instruction out i64_add = push out 0x7c
encode_instruction out i64_sub = push out 0x7d
encode_instruction out i64_mul = push out 0x7e
encode_instruction out i64_div_s = push out 0x7f
encode_instruction out i64_div_u = push out 0x80
encode_instruction out i64_rem_s = push out 0x81
encode_instruction out i64_rem_u = push out 0x82
encode_instruction out i64_and = push out 0x83
encode_instruction out i64_or = push out 0x84
encode_instruction out i64_xor = push out 0x85
encode_instruction out i64_eqz = push out 0x50
encode_instruction out i64_eq = push out 0x51
encode_instruction out i64_ne = push out 0x52
encode_instruction out i64_lt_s = push out 0x53
encode_instruction out i64_lt_u = push out 0x54
encode_instruction out i64_gt_s = push out 0x55
encode_instruction out i64_gt_u = push out 0x56
encode_instruction out i64_le_s = push out 0x57
encode_instruction out i64_le_u = push out 0x58
encode_instruction out i64_ge_s = push out 0x59
encode_instruction out i64_ge_u = push out 0x5a
encode_instruction out i32_shl = push out 0x74
encode_instruction out i32_shr_s = push out 0x75
encode_instruction out i32_shr_u = push out 0x76
encode_instruction out i32_wrap_i64 = push out 0xa7
encode_instruction out i64_extend_i32_s = push out 0xac
encode_instruction out i64_extend_i32_u = push out 0xad
encode_instruction out i64_shr_s = push out 0x87
encode_instruction out (i32_load align offset) =
    write_uleb128 (write_uleb128 (push out 0x28) align) offset
encode_instruction out (i32_load8_u align offset) =
    write_uleb128 (write_uleb128 (push out 0x2d) align) offset
encode_instruction out (i32_load8_s align offset) =
    write_uleb128 (write_uleb128 (push out 0x2c) align) offset
encode_instruction out (i32_load16_u align offset) =
    write_uleb128 (write_uleb128 (push out 0x2f) align) offset
encode_instruction out (i32_load16_s align offset) =
    write_uleb128 (write_uleb128 (push out 0x2e) align) offset
encode_instruction out (i64_load align offset) =
    write_uleb128 (write_uleb128 (push out 0x29) align) offset
encode_instruction out (i32_store align offset) =
    write_uleb128 (write_uleb128 (push out 0x36) align) offset
encode_instruction out (i32_store8 align offset) =
    write_uleb128 (write_uleb128 (push out 0x3a) align) offset
encode_instruction out (i32_store16 align offset) =
    write_uleb128 (write_uleb128 (push out 0x3b) align) offset
encode_instruction out (i64_store align offset) =
    write_uleb128 (write_uleb128 (push out 0x37) align) offset
encode_instruction out (if_block bt) = encode_block_type (push out 0x04) bt
encode_instruction out else_branch = push out 0x05
encode_instruction out end_block = push out 0x0b
encode_instruction out (block bt) = encode_block_type (push out 0x02) bt
encode_instruction out (loop_block bt) = encode_block_type (push out 0x03) bt
encode_instruction out (br idx) = write_uleb128 (push out 0x0c) idx
encode_instruction out (br_if idx) = write_uleb128 (push out 0x0d) idx
encode_instruction out return_op = push out 0x0f
