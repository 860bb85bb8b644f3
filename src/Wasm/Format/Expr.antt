-- ===== src/Wasm/Format/Expr.antt =====
-- Function bodies: the instructions up to the `end` that closes the body, and the locals before them.
use pocket_rust.Prelude.{
  ℕ, zero, suc, ◌≤◌, ◌<◌, ◌≡◌, ◌≢◌, refl, sym, ap, ◌∙◌, Option, none, some, List, [], ◌∷◌, ◌++◌,
  length, length-append, All, for_each, push, append_assoc, arith,
}
use pocket_rust.Wasm.Types.{Instruction, if_block, block, loop_block, end_block}
use pocket_rust.Wasm.Reader.{Reader, Reads}
use pocket_rust.Wasm.Reader.Laws.{for_each-append}
use pocket_rust.Wasm.Instr.{encode_instruction}
use pocket_rust.Wasm.Instr.Decode.{read_instruction, InstructionInRange}
use pocket_rust.Wasm.Instr.RoundTrip.{Appends-instruction, read_instruction-encode}

-- The number of open blocks behind an instruction; `none` at the `end` that closes the body.
unfoldable pub nesting : Instruction → ℕ → Option ℕ
nesting (if_block bt) d = some (suc d)
nesting (block bt) d = some (suc d)
nesting (loop_block bt) d = some (suc d)
nesting end_block zero = none
nesting end_block (suc d) = some d
nesting _ d = some d

-- Every block that is opened is closed, from `d` open blocks on.
abbrev pub BalancedFrom : ℕ → List Instruction → Type 0
BalancedFrom d [] = d ≡ 0
BalancedFrom d (i ∷ is) = (d' : ℕ) × (nesting i d ≡ some d') × BalancedFrom d' is

abbrev pub IsBalanced : List Instruction → Type 0
IsBalanced = BalancedFrom 0

unfoldable pub read_instructions : ℕ → ℕ → Reader (List Instruction)
unfolding read_instruction nesting
read_instructions zero d bs = none
read_instructions (suc fuel) d bs = elim (read_instruction bs) [
  | none ↦ none
  | some (i, more) ↦ elim (nesting i d) [
    | none ↦ some ([], more)
    | some d' ↦ elim (read_instructions fuel d' more) [
      | none ↦ none
      | some (is, rest) ↦ some (i ∷ is, rest)
    ]
  ]
]

-- An instruction takes a byte at least.
unfoldable pub read_expr : Reader (List Instruction)
unfolding read_instructions
read_expr bs = read_instructions (length bs) 0 bs

-- The bytes of a body behind its locals.
abbrev pub expr_bytes : List ℕ → List Instruction → List ℕ
expr_bytes out is = push (for_each encode_instruction out is) 0x0b

expr_bytes-cons :
    (i : Instruction) (is : List Instruction)
    → expr_bytes [] (i ∷ is) ≡ encode_instruction [] i ++ expr_bytes [] is
unfolding for_each
expr_bytes-cons i is =
    ap (λ t. push t 0x0b) (for_each-append encode_instruction Appends-instruction _ is)
    ∙ append_assoc (encode_instruction [] i) (for_each encode_instruction [] is) (0x0b ∷ [])

read_instructions-expr :
    (fuel d : ℕ) (is : List Instruction) (rest : List ℕ)
    → length is < fuel
    → BalancedFrom d is
    → All InstructionInRange is
    → read_instructions fuel d (expr_bytes [] is ++ rest) ≡ some (is, rest)
unfolding read_instructions
read_instructions-expr zero d is rest h b r = absurd (omega arith)
read_instructions-expr (suc fuel) d [] rest h b r =
    rw b (unfold read_instruction for_each nesting in refl)
read_instructions-expr (suc fuel) d (i ∷ is) rest h (d', e, b) (ri, r) = rw (
  ap (λ t. t ++ rest) (expr_bytes-cons i is) ∙ append_assoc _ (expr_bytes [] is) rest,
  read_instruction-encode i (expr_bytes [] is ++ rest) ri,
  e,
  read_instructions-expr fuel d' is rest (omega arith) b r,
  read_instructions,
)

not_empty : (bs : List ℕ) → bs ≢ [] → 1 ≤ length bs
not_empty [] h = absurd (h refl)
not_empty (b ∷ bs) h = omega arith

encode_instruction-pos :
    (i : Instruction) → InstructionInRange i → 1 ≤ length (encode_instruction [] i)
encode_instruction-pos i h = not_empty (encode_instruction [] i) (λ e.
    let read = read_instruction-encode i [] h in
    let nothing : read_instruction [] ≡ some (i, []) =
      ap (λ t. read_instruction (t ++ [])) (sym e) ∙ read in
    unfold read_instruction in cc nothing)

length-expr_bytes :
    (is : List Instruction) → All InstructionInRange is → length is < length (expr_bytes [] is)
length-expr_bytes [] h = unfold for_each in (omega arith)
length-expr_bytes (i ∷ is) h = rw (expr_bytes-cons i is) (
    omega (
      arith,
      length-append (encode_instruction [] i) (expr_bytes [] is),
      encode_instruction-pos i h.0,
      length-expr_bytes is h.1,
    ))

-- The instructions of a body with balanced blocks are read back.
pub Reads-read_expr :
    (is : List Instruction)
    → IsBalanced is
    → All InstructionInRange is
    → Reads read_expr (expr_bytes [] is) is
unfolding read_expr
Reads-read_expr is b r = record {
  reads = λ rest.
      read_instructions-expr (length (expr_bytes [] is ++ rest)) 0 is rest
        (omega (arith, length-expr_bytes is r, length-append (expr_bytes [] is) rest)) b r;
}
