-- ===== src/Wasm/Instr/RoundTrip.antt =====
-- Each instruction is read back from its encoding.
use pocket_rust.Prelude.{
  ℕ, ◌<◌, ◌≤◌, ◌≡◌, refl, sym, ap, ◌∙◌, ◌⊎◌, some, List, [], ◌∷◌, ◌++◌, push, append_assoc, arith,
}
use pocket_rust.Wasm.Leb.{ℤ, pos, write_uleb128, write_sleb128, write_sleb128_64}
use pocket_rust.Wasm.Leb.Unsigned.{IsU32, read_u-write_uleb128, write_uleb128-append}
use pocket_rust.Wasm.Leb.Signed.{read_s, read_s-write_sleb128, read_s-write_sleb128_64}
use pocket_rust.Wasm.Leb.Signed.Appends.{
  write_sleb128-append, write_sleb128_64-append, read_s-write_sleb128_64_u32,
  write_sleb128_64_first,
}
use pocket_rust.Wasm.Types.{ValType, i32, i64, BlockType, empty, single, type_idx, Instruction}
use pocket_rust.Wasm.Types.{
  i32_const, i64_const, local_get, local_set, global_get, global_set, call, call_indirect, i32_load,
  i32_load8_u, i32_load8_s, i32_load16_u, i32_load16_s, i64_load, i32_store, i32_store8,
  i32_store16, i64_store, if_block, block, loop_block, br, br_if,
}
use pocket_rust.Wasm.Reader.{Reads, Appends}
use pocket_rust.Wasm.Instr.{val_type_byte, encode_block_type, encode_instruction}
use pocket_rust.Wasm.Instr.Decode.{
  read_val_type, read_block_type, read_instruction, with_two_u32, BlockTypeInRange,
  InstructionInRange,
}

pub read_val_type-val_type_byte :
    (t : ValType) (rest : List ℕ) → read_val_type (val_type_byte t ∷ rest) ≡ some (t, rest)
unfolding read_val_type val_type_byte
read_val_type-val_type_byte i32 rest = refl
read_val_type-val_type_byte i64 rest = refl

pub encode_block_type-append :
    (out : List ℕ) (bt : BlockType) → encode_block_type out bt ≡ out ++ encode_block_type [] bt
unfolding encode_block_type
encode_block_type-append out empty = refl
encode_block_type-append out (single vt) = refl
encode_block_type-append out (type_idx i) = write_sleb128_64-append out (pos i)

read_index :
    (b : ℕ) (bs bytes rest : List ℕ) (i : ℕ)
    → bytes ≡ b ∷ bs
    → (b < 64) ⊎ (128 ≤ b)
    → read_s 33 (bytes ++ rest) ≡ some (pos i, rest)
    → read_block_type (bytes ++ rest) ≡ some (type_idx i, rest)
unfolding read_block_type
read_index b bs bytes rest i e h r = ground arith

pub read_block_type-encode :
    (bt : BlockType) (rest : List ℕ)
    → BlockTypeInRange bt
    → read_block_type (encode_block_type [] bt ++ rest) ≡ some (bt, rest)
unfolding encode_block_type
read_block_type-encode empty rest h = unfold read_block_type in refl
read_block_type-encode (single i32) rest h = unfold read_block_type in refl
read_block_type-encode (single i64) rest h = unfold read_block_type in refl
read_block_type-encode (type_idx i) rest h =
    let (b, bs, e, f) = write_sleb128_64_first i in
    read_index b bs _ rest i e f (read_s-write_sleb128_64_u32 i rest h)

module _ (out : List ℕ) (op : ℕ) where
  u32_append : (n : ℕ) → write_uleb128 (push out op) n ≡ out ++ write_uleb128 (op ∷ []) n
  u32_append n =
      write_uleb128-append (push out op) n
      ∙ append_assoc out (op ∷ []) _
      ∙ ap (λ t. out ++ t) (sym (write_uleb128-append (op ∷ []) n))

  two_u32_append :
      (n m : ℕ)
      → write_uleb128 (write_uleb128 (push out op) n) m
        ≡ out ++ write_uleb128 (write_uleb128 (op ∷ []) n) m
  two_u32_append n m = rw u32_append (
      write_uleb128-append _ m
      ∙ append_assoc out _ _
      ∙ ap (λ t. out ++ t) (sym (write_uleb128-append _ m)))

  sleb_append : (n : ℤ) → write_sleb128 (push out op) n ≡ out ++ write_sleb128 (op ∷ []) n
  sleb_append n =
      write_sleb128-append (push out op) n
      ∙ append_assoc out (op ∷ []) _
      ∙ ap (λ t. out ++ t) (sym (write_sleb128-append (op ∷ []) n))

  sleb_64_append : (n : ℤ) → write_sleb128_64 (push out op) n ≡ out ++ write_sleb128_64 (op ∷ []) n
  sleb_64_append n =
      write_sleb128_64-append (push out op) n
      ∙ append_assoc out (op ∷ []) _
      ∙ ap (λ t. out ++ t) (sym (write_sleb128_64-append (op ∷ []) n))

  block_type_append :
      (bt : BlockType) → encode_block_type (push out op) bt ≡ out ++ encode_block_type (op ∷ []) bt
  block_type_append bt =
      encode_block_type-append (push out op) bt
      ∙ append_assoc out (op ∷ []) _
      ∙ ap (λ t. out ++ t) (sym (encode_block_type-append (op ∷ []) bt))

pub encode_instruction-append :
    (out : List ℕ) (i : Instruction) → encode_instruction out i ≡ out ++ encode_instruction [] i
unfolding encode_instruction
encode_instruction-append out (i32_const n) = sleb_append out 0x41 n
encode_instruction-append out (i64_const n) = sleb_64_append out 0x42 n
encode_instruction-append out (local_get idx) = u32_append out 0x20 idx
encode_instruction-append out (local_set idx) = u32_append out 0x21 idx
encode_instruction-append out (global_get idx) = u32_append out 0x23 idx
encode_instruction-append out (global_set idx) = u32_append out 0x24 idx
encode_instruction-append out (call idx) = u32_append out 0x10 idx
encode_instruction-append out (call_indirect t i) = two_u32_append out 0x11 t i
encode_instruction-append out (if_block bt) = block_type_append out 0x04 bt
encode_instruction-append out (block bt) = block_type_append out 0x02 bt
encode_instruction-append out (loop_block bt) = block_type_append out 0x03 bt
encode_instruction-append out (br idx) = u32_append out 0x0c idx
encode_instruction-append out (br_if idx) = u32_append out 0x0d idx
encode_instruction-append out (i32_load a o) = two_u32_append out 0x28 a o
encode_instruction-append out (i32_load8_u a o) = two_u32_append out 0x2d a o
encode_instruction-append out (i32_load8_s a o) = two_u32_append out 0x2c a o
encode_instruction-append out (i32_load16_u a o) = two_u32_append out 0x2f a o
encode_instruction-append out (i32_load16_s a o) = two_u32_append out 0x2e a o
encode_instruction-append out (i64_load a o) = two_u32_append out 0x29 a o
encode_instruction-append out (i32_store a o) = two_u32_append out 0x36 a o
encode_instruction-append out (i32_store8 a o) = two_u32_append out 0x3a a o
encode_instruction-append out (i32_store16 a o) = two_u32_append out 0x3b a o
encode_instruction-append out (i64_store a o) = two_u32_append out 0x37 a o
encode_instruction-append out _ = refl

two_u32_bytes :
    (op n m : ℕ) (rest : List ℕ)
    → write_uleb128 (write_uleb128 (op ∷ []) n) m ++ rest
      ≡ op ∷ (write_uleb128 [] n ++ (write_uleb128 [] m ++ rest))
two_u32_bytes op n m rest =
    rw (write_uleb128-append _ m, write_uleb128-append (op ∷ []) n)
      (ap (λ t. op ∷ t) (append_assoc _ _ rest))

two_u32_reads :
    (make : ℕ → ℕ → Instruction) (n m : ℕ) (rest : List ℕ)
    → IsU32 n × IsU32 m
    → with_two_u32 make (write_uleb128 [] n ++ (write_uleb128 [] m ++ rest)) ≡ some (make n m, rest)
two_u32_reads make n m rest h = rw (read_u-write_uleb128 n _ h.0, read_u-write_uleb128 m rest h.1)

-- An instruction is read back from its encoding, whatever follows it.
pub read_instruction-encode :
    (i : Instruction) (rest : List ℕ)
    → InstructionInRange i
    → read_instruction (encode_instruction [] i ++ rest) ≡ some (i, rest)
unfolding encode_instruction read_instruction
read_instruction-encode (i32_const n) rest h =
    rw (write_sleb128-append (0x41 ∷ []) n, read_s-write_sleb128 n rest h)
read_instruction-encode (i64_const n) rest h =
    rw (write_sleb128_64-append (0x42 ∷ []) n, read_s-write_sleb128_64 n rest h)
read_instruction-encode (local_get idx) rest h =
    rw (write_uleb128-append (0x20 ∷ []) idx, read_u-write_uleb128 idx rest h)
read_instruction-encode (local_set idx) rest h =
    rw (write_uleb128-append (0x21 ∷ []) idx, read_u-write_uleb128 idx rest h)
read_instruction-encode (global_get idx) rest h =
    rw (write_uleb128-append (0x23 ∷ []) idx, read_u-write_uleb128 idx rest h)
read_instruction-encode (global_set idx) rest h =
    rw (write_uleb128-append (0x24 ∷ []) idx, read_u-write_uleb128 idx rest h)
read_instruction-encode (call idx) rest h =
    rw (write_uleb128-append (0x10 ∷ []) idx, read_u-write_uleb128 idx rest h)
read_instruction-encode (call_indirect t i) rest h =
    rw (two_u32_bytes 0x11 t i rest) (two_u32_reads call_indirect t i rest h)
read_instruction-encode (if_block bt) rest h =
    rw (encode_block_type-append (0x04 ∷ []) bt, read_block_type-encode bt rest h)
read_instruction-encode (block bt) rest h =
    rw (encode_block_type-append (0x02 ∷ []) bt, read_block_type-encode bt rest h)
read_instruction-encode (loop_block bt) rest h =
    rw (encode_block_type-append (0x03 ∷ []) bt, read_block_type-encode bt rest h)
read_instruction-encode (br idx) rest h =
    rw (write_uleb128-append (0x0c ∷ []) idx, read_u-write_uleb128 idx rest h)
read_instruction-encode (br_if idx) rest h =
    rw (write_uleb128-append (0x0d ∷ []) idx, read_u-write_uleb128 idx rest h)
read_instruction-encode (i32_load a o) rest h =
    rw (two_u32_bytes 0x28 a o rest) (two_u32_reads i32_load a o rest h)
read_instruction-encode (i32_load8_u a o) rest h =
    rw (two_u32_bytes 0x2d a o rest) (two_u32_reads i32_load8_u a o rest h)
read_instruction-encode (i32_load8_s a o) rest h =
    rw (two_u32_bytes 0x2c a o rest) (two_u32_reads i32_load8_s a o rest h)
read_instruction-encode (i32_load16_u a o) rest h =
    rw (two_u32_bytes 0x2f a o rest) (two_u32_reads i32_load16_u a o rest h)
read_instruction-encode (i32_load16_s a o) rest h =
    rw (two_u32_bytes 0x2e a o rest) (two_u32_reads i32_load16_s a o rest h)
read_instruction-encode (i64_load a o) rest h =
    rw (two_u32_bytes 0x29 a o rest) (two_u32_reads i64_load a o rest h)
read_instruction-encode (i32_store a o) rest h =
    rw (two_u32_bytes 0x36 a o rest) (two_u32_reads i32_store a o rest h)
read_instruction-encode (i32_store8 a o) rest h =
    rw (two_u32_bytes 0x3a a o rest) (two_u32_reads i32_store8 a o rest h)
read_instruction-encode (i32_store16 a o) rest h =
    rw (two_u32_bytes 0x3b a o rest) (two_u32_reads i32_store16 a o rest h)
read_instruction-encode (i64_store a o) rest h =
    rw (two_u32_bytes 0x37 a o rest) (two_u32_reads i64_store a o rest h)
read_instruction-encode _ rest h = refl

pub Reads-val_type : (t : ValType) → Reads read_val_type (val_type_byte t ∷ []) t
Reads-val_type t = record { reads = read_val_type-val_type_byte t }

pub Reads-instruction :
    (i : Instruction) → InstructionInRange i → Reads read_instruction (encode_instruction [] i) i
Reads-instruction i h = record { reads = λ rest. read_instruction-encode i rest h }

pub Appends-instruction : Appends encode_instruction
Appends-instruction = record { appends = encode_instruction-append }
