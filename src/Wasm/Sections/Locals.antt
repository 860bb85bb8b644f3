-- ===== src/Wasm/Sections/Locals.antt =====
-- `encode_locals` of src/wasm.rs: the declared locals as runs of one type.
pub mod Runs
use pocket_rust.Prelude.{
  ℕ, zero, suc, ◌+◌, Bool, true, false, not, List, [], ◌∷◌, length, drop, push, as_u32,
  if◌then◌else◌,
}
use pocket_rust.Wasm.Leb.{write_uleb128}
use pocket_rust.Wasm.Types.{ValType, val_type_eq}
use pocket_rust.Wasm.Instr.{val_type_byte}

-- The first loop: `group_count` after the local `last`, whose followers are the list.
count_groups : ℕ → ValType → List ValType → ℕ
unfolding val_type_eq
count_groups group_count last [] = group_count
count_groups group_count last (t ∷ ts) =
    count_groups (if not (val_type_eq t last) then group_count + 1 else group_count) t ts

-- The inner loop: how many locals behind `locals[start]` have its type, which is `end - start - 1`.
run_length : ValType → List ValType → ℕ
unfolding val_type_eq
run_length start [] = 0
run_length start (t ∷ ts) = if val_type_eq t start then suc (run_length start ts) else 0

-- The outer loop, on the locals from `start` on. Each round takes one local at least, so as many
-- rounds as there are locals are enough.
group_loop : ℕ → List ℕ → List ValType → List ℕ
unfolding run_length val_type_byte
group_loop rounds out [] = out
group_loop zero out (t ∷ ts) = out
group_loop (suc rounds) out (t ∷ ts) =
    let run = run_length t ts in
    let out = push (write_uleb128 out (as_u32 (suc run))) (val_type_byte t) in
    group_loop rounds out (drop run ts)

unfoldable pub encode_locals : List ℕ → List ValType → List ℕ
unfolding count_groups group_loop
encode_locals out [] = write_uleb128 out 0
encode_locals out (t ∷ ts) =
    group_loop (length (t ∷ ts)) (write_uleb128 out (count_groups 1 t ts)) (t ∷ ts)
