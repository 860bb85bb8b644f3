-- ===== src/Wasm/Instr/Decode.antt =====
-- The instructions as the WebAssembly specification decodes them, restricted to those of src/wasm.rs.
use pocket_rust.Prelude.{ℕ, Option, none, some, List, [], ◌∷◌, ◌==◌, if◌then◌else◌, ◌>>=◌}
use pocket_rust.Wasm.Leb.{ℤ, pos, negsuc}
use pocket_rust.Wasm.Leb.Unsigned.{read_u, IsU32}
use pocket_rust.Wasm.Leb.Signed.{read_s, IsInt}
use pocket_rust.Wasm.Reader.{Reader}
use pocket_rust.Wasm.Types.{ValType, i32, i64, BlockType, empty, single, type_idx, Instruction}
use pocket_rust.Wasm.Types.{
  unreachable, i32_const, i64_const, local_get, local_set, global_get, global_set, drop, call,
  call_indirect, i32_add, i32_sub, i32_mul, i32_div_s, i32_div_u, i32_rem_s, i32_rem_u, i32_and,
  i32_or, i32_xor, i32_eqz, i32_eq, i32_ne, i32_lt_s, i32_lt_u, i32_gt_s, i32_gt_u, i32_le_s,
  i32_le_u, i32_ge_s, i32_ge_u, i64_add, i64_sub, i64_mul, i64_div_s, i64_div_u, i64_rem_s,
  i64_rem_u, i64_and, i64_or, i64_xor, i64_eqz, i64_eq, i64_ne, i64_lt_s, i64_lt_u, i64_gt_s,
  i64_gt_u, i64_le_s, i64_le_u, i64_ge_s, i64_ge_u, i32_shl, i32_shr_s, i32_shr_u, i32_wrap_i64,
  i64_extend_i32_s, i64_extend_i32_u, i64_shr_s, i32_load, i32_load8_u, i32_load8_s, i32_load16_u,
  i32_load16_s, i64_load, i32_store, i32_store8, i32_store16, i64_store, if_block, else_branch,
  end_block, block, loop_block, br, br_if, return_op,
}

unfoldable pub read_val_type : Reader ValType
read_val_type [] = none
read_val_type (b ∷ bs) =
    if b == 0x7f then some (i32, bs) else if b == 0x7e then some (i64, bs) else none

-- A type index is a 33-bit integer that is not negative.
abbrev pub as_index : ℤ × List ℕ → Option (BlockType × List ℕ)
as_index (pos n, bs) = some (type_idx n, bs)
as_index (negsuc n, bs) = none

unfoldable pub read_block_type : Reader BlockType
read_block_type [] = none
read_block_type (b ∷ bs) =
    if b == 0x40
    then some (empty, bs)
    else if b == 0x7f
    then some (single i32, bs)
    else if b == 0x7e
    then some (single i64, bs)
    else (read_s 33 (b ∷ bs) >>= as_index)

-- The opcodes with no immediate.
abbrev pub plain_opcodes : List (ℕ × Instruction)
plain_opcodes =
    (0x00, unreachable)
    ∷ (0x1a, drop)
    ∷ (0x6a, i32_add)
    ∷ (0x6b, i32_sub)
    ∷ (0x6c, i32_mul)
    ∷ (0x6d, i32_div_s)
    ∷ (0x6e, i32_div_u)
    ∷ (0x6f, i32_rem_s)
    ∷ (0x70, i32_rem_u)
    ∷ (0x71, i32_and)
    ∷ (0x72, i32_or)
    ∷ (0x73, i32_xor)
    ∷ (0x45, i32_eqz)
    ∷ (0x46, i32_eq)
    ∷ (0x47, i32_ne)
    ∷ (0x48, i32_lt_s)
    ∷ (0x49, i32_lt_u)
    ∷ (0x4a, i32_gt_s)
    ∷ (0x4b, i32_gt_u)
    ∷ (0x4c, i32_le_s)
    ∷ (0x4d, i32_le_u)
    ∷ (0x4e, i32_ge_s)
    ∷ (0x4f, i32_ge_u)
    ∷ (0x7c, i64_add)
    ∷ (0x7d, i64_sub)
    ∷ (0x7e, i64_mul)
    ∷ (0x7f, i64_div_s)
    ∷ (0x80, i64_div_u)
    ∷ (0x81, i64_rem_s)
    ∷ (0x82, i64_rem_u)
    ∷ (0x83, i64_and)
    ∷ (0x84, i64_or)
    ∷ (0x85, i64_xor)
    ∷ (0x50, i64_eqz)
    ∷ (0x51, i64_eq)
    ∷ (0x52, i64_ne)
    ∷ (0x53, i64_lt_s)
    ∷ (0x54, i64_lt_u)
    ∷ (0x55, i64_gt_s)
    ∷ (0x56, i64_gt_u)
    ∷ (0x57, i64_le_s)
    ∷ (0x58, i64_le_u)
    ∷ (0x59, i64_ge_s)
    ∷ (0x5a, i64_ge_u)
    ∷ (0x74, i32_shl)
    ∷ (0x75, i32_shr_s)
    ∷ (0x76, i32_shr_u)
    ∷ (0xa7, i32_wrap_i64)
    ∷ (0xac, i64_extend_i32_s)
    ∷ (0xad, i64_extend_i32_u)
    ∷ (0x87, i64_shr_s)
    ∷ (0x05, else_branch)
    ∷ (0x0b, end_block)
    ∷ (0x0f, return_op)
    ∷ []

abbrev pub lookup_opcode : ℕ → List (ℕ × Instruction) → Option Instruction
lookup_opcode op [] = none
lookup_opcode op ((code, i) ∷ table) = if op == code then some i else lookup_opcode op table

abbrev pub with_u32 : (ℕ → Instruction) → Reader Instruction
with_u32 make bs = read_u 32 bs >>= (λ r. some (make r.0, r.1))

abbrev pub with_two_u32 : (ℕ → ℕ → Instruction) → Reader Instruction
with_two_u32 make bs = read_u 32 bs >>= (λ r. read_u 32 r.1 >>= (λ s. some (make r.0 s.0, s.1)))

abbrev pub with_int : ℕ → (ℤ → Instruction) → Reader Instruction
with_int w make bs = read_s w bs >>= (λ r. some (make r.0, r.1))

abbrev pub with_block_type : (BlockType → Instruction) → Reader Instruction
with_block_type make bs = read_block_type bs >>= (λ r. some (make r.0, r.1))

-- The opcodes with immediates.
unfoldable pub read_immediate : ℕ → Reader Instruction
read_immediate op bs =
    if op == 0x41
    then with_int 32 i32_const bs
    else if op == 0x42
    then with_int 64 i64_const bs
    else if op == 0x20
    then with_u32 local_get bs
    else if op == 0x21
    then with_u32 local_set bs
    else if op == 0x23
    then with_u32 global_get bs
    else if op == 0x24
    then with_u32 global_set bs
    else if op == 0x10
    then with_u32 call bs
    else if op == 0x11
    then with_two_u32 call_indirect bs
    else if op == 0x04
    then with_block_type if_block bs
    else if op == 0x02
    then with_block_type block bs
    else if op == 0x03
    then with_block_type loop_block bs
    else if op == 0x0c
    then with_u32 br bs
    else if op == 0x0d
    then with_u32 br_if bs
    else if op == 0x28
    then with_two_u32 i32_load bs
    else if op == 0x2d
    then with_two_u32 i32_load8_u bs
    else if op == 0x2c
    then with_two_u32 i32_load8_s bs
    else if op == 0x2f
    then with_two_u32 i32_load16_u bs
    else if op == 0x2e
    then with_two_u32 i32_load16_s bs
    else if op == 0x29
    then with_two_u32 i64_load bs
    else if op == 0x36
    then with_two_u32 i32_store bs
    else if op == 0x3a
    then with_two_u32 i32_store8 bs
    else if op == 0x3b
    then with_two_u32 i32_store16 bs
    else if op == 0x37
    then with_two_u32 i64_store bs
    else none

unfoldable pub read_instruction : Reader Instruction
unfolding read_immediate
read_instruction [] = none
read_instruction (op ∷ bs) = elim (lookup_opcode op plain_opcodes) [
  | some i ↦ some (i, bs)
  | none ↦ read_immediate op bs
]

-- The immediates are in the ranges of their Rust types.
abbrev pub BlockTypeInRange : BlockType → Type 0
BlockTypeInRange (type_idx i) = IsU32 i
BlockTypeInRange _ = Unit

abbrev pub InstructionInRange : Instruction → Type 0
InstructionInRange (i32_const n) = IsInt 32 n
InstructionInRange (i64_const n) = IsInt 64 n
InstructionInRange (local_get idx) = IsU32 idx
InstructionInRange (local_set idx) = IsU32 idx
InstructionInRange (global_get idx) = IsU32 idx
InstructionInRange (global_set idx) = IsU32 idx
InstructionInRange (call idx) = IsU32 idx
InstructionInRange (call_indirect t i) = IsU32 t × IsU32 i
InstructionInRange (if_block bt) = BlockTypeInRange bt
InstructionInRange (block bt) = BlockTypeInRange bt
InstructionInRange (loop_block bt) = BlockTypeInRange bt
InstructionInRange (br idx) = IsU32 idx
InstructionInRange (br_if idx) = IsU32 idx
InstructionInRange (i32_load align offset) = IsU32 align × IsU32 offset
InstructionInRange (i32_load8_u align offset) = IsU32 align × IsU32 offset
InstructionInRange (i32_load8_s align offset) = IsU32 align × IsU32 offset
InstructionInRange (i32_load16_u align offset) = IsU32 align × IsU32 offset
InstructionInRange (i32_load16_s align offset) = IsU32 align × IsU32 offset
InstructionInRange (i64_load align offset) = IsU32 align × IsU32 offset
InstructionInRange (i32_store align offset) = IsU32 align × IsU32 offset
InstructionInRange (i32_store8 align offset) = IsU32 align × IsU32 offset
InstructionInRange (i32_store16 align offset) = IsU32 align × IsU32 offset
InstructionInRange (i64_store align offset) = IsU32 align × IsU32 offset
InstructionInRange _ = Unit
