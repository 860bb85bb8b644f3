-- ===== src/Wasm/Format/Bodies.antt =====
-- Function bodies and data segments are read back from what their encoders append.
use pocket_rust.Prelude.{
  ℕ, ◌^◌, ◌<◌, ◌≡◌, ap, ◌∙◌, List, [], ◌∷◌, ◌++◌, length, push, for_each, as_u32, arith,
}
use pocket_rust.Wasm.Leb.{ℤ, to_bits, write_uleb128, write_sleb128}
use pocket_rust.Wasm.Leb.Unsigned.{IsU32}
use pocket_rust.Wasm.Leb.Signed.{read_s, IsInt, read_s-write_sleb128}
use pocket_rust.Wasm.Leb.Signed.Appends.{write_sleb128-append}
use pocket_rust.Wasm.Types.{Data, FuncBody}
use pocket_rust.Wasm.Reader.{Reader, ◌>>=◌, pure, any_byte, read_vec, Reads, Appends, Adds}
use pocket_rust.Wasm.Reader.Laws.{
  Reads-bind, Reads-then, Reads-last, Reads-of_eq, Reads-of_Adds, Reads-read_byte,
  Reads-encode_bytes, Reads-read_sized, encode_bytes, Adds-push, Adds-then, Adds-of, Appends-of,
}
use pocket_rust.Wasm.Instr.{encode_instruction}
use pocket_rust.Wasm.Instr.RoundTrip.{Appends-instruction}
use pocket_rust.Wasm.Sections.{encode_func_body, as_i32, encode_data}
use pocket_rust.Wasm.Sections.Locals.{encode_locals}
use pocket_rust.Wasm.Sections.Locals.Runs.{Reads-read_locals}
use pocket_rust.Wasm.Format.{read_body, FuncBodyInRange, read_data, DataInRange}
use pocket_rust.Prelude.{Bool-cases, inl, inr, ltb, append_assoc, length-append}
use pocket_rust.Wasm.Reader.{read_sized}
use mathlib.Core.Path.{subst}
use pocket_rust.Wasm.Reader.Laws.{for_each-append}
use pocket_rust.Wasm.Format.Items.{Adds-bytes, sized_bytes, Adds-sized_bytes}
use pocket_rust.Wasm.Format.Expr.{expr_bytes, Reads-read_expr}

-- The payload of a body, behind its size.
abbrev body_buffer : FuncBody → List ℕ
body_buffer body = expr_bytes (encode_locals [] body.locals) body.instructions

body_buffer_lem :
    (body : FuncBody)
    → body_buffer body ≡ encode_locals [] body.locals ++ expr_bytes [] body.instructions
body_buffer_lem body =
    let locals = encode_locals [] body.locals in
    ap (λ t. push t 0x0b)
      (for_each-append encode_instruction Appends-instruction locals body.instructions)
    ∙ append_assoc locals (for_each encode_instruction [] body.instructions) (0x0b ∷ [])

Adds-func_body :
    (body : FuncBody) → Adds (λ out. encode_func_body out body) (sized_bytes (body_buffer body))
unfolding encode_func_body
Adds-func_body body = Adds-sized_bytes (body_buffer body)

pub Appends-func_body : Appends encode_func_body
Appends-func_body = Appends-of (λ body. sized_bytes (body_buffer body)) Adds-func_body

Reads-body_buffer :
    (body : FuncBody) → FuncBodyInRange body → Reads read_body (body_buffer body) body
unfolding read_body
Reads-body_buffer body h = Reads-of_eq (body_buffer_lem body) (
    Reads-bind _ (Reads-read_locals body.locals h.locals_short) (
      Reads-last (λ is. record { locals = body.locals; instructions = is })
        (Reads-read_expr body.instructions h.balanced h.immediates)))

-- The size field holds the size of the body.
body_buffer-fits : (body : FuncBody) → FuncBodyInRange body → length (body_buffer body) < 2 ^ 32
body_buffer-fits body h =
    let e = (Adds-func_body body).adds [] in
    let n =
      length-append (write_uleb128 [] (as_u32 (length (body_buffer body)))) (body_buffer body) in
    omega (arith, h.size, ap length e, n)

pub Reads-func_body :
    (body : FuncBody)
    → FuncBodyInRange body
    → Reads (read_sized read_body) (encode_func_body [] body) body
Reads-func_body body h =
    let fits = body_buffer-fits body h in
    let e : as_u32 (length (body_buffer body)) ≡ length (body_buffer body) = omega arith in
    Reads-of_Adds (Adds-func_body body) (
      Reads-of_eq (ap (λ n. write_uleb128 [] n ++ body_buffer body) e)
        (Reads-read_sized read_body (body_buffer body) body fits (Reads-body_buffer body h)))

-- `offset as i32` keeps the bits of a u32.
to_bits-as_i32 : (n : ℕ) → IsU32 n → to_bits 32 (as_i32 n) ≡ n
to_bits-as_i32 n h = ground arith

as_i32-IsInt : (n : ℕ) → IsU32 n → IsInt 32 (as_i32 n)
as_i32-IsInt n h = elim (Bool-cases (ltb n (2 ^ 31))) [
  | inl small ↦ rw small (ground arith)
  | inr large ↦ rw large (ground arith)
]

Appends-sleb : Appends write_sleb128
Appends-sleb = record { appends = write_sleb128-append }

abbrev data_bytes : Data → List ℕ
data_bytes d =
    (0x00 ∷ [])
    ++ ((0x41 ∷ [])
        ++ (write_sleb128 [] (as_i32 d.offset) ++ ((0x0b ∷ []) ++ encode_bytes [] d.bytes)))

Adds-data : (d : Data) → Adds (λ out. encode_data out d) (data_bytes d)
unfolding encode_data
Adds-data d = Adds-then (Adds-push 0x00) (
    Adds-then (Adds-push 0x41) (
      Adds-then (Adds-of Appends-sleb (as_i32 d.offset))
        (Adds-then (Adds-push 0x0b) (Adds-bytes d.bytes))))

pub Appends-data : Appends encode_data
Appends-data = Appends-of data_bytes Adds-data

abbrev payload : ℕ → Reader Data
payload n = read_vec any_byte >>= (λ bs. pure (record { offset = n; bytes = bs }))

Reads-sleb : (z : ℤ) → IsInt 32 z → Reads (read_s 32) (write_sleb128 [] z) z
Reads-sleb z h = record { reads = λ rest. read_s-write_sleb128 z rest h }

pub Reads-data : (d : Data) → DataInRange d → Reads read_data (encode_data [] d) d
unfolding read_data
Reads-data d h = Reads-of_Adds (Adds-data d) (
    Reads-then (Reads-read_byte 0x00) (
      Reads-then (Reads-read_byte 0x41) (
        Reads-bind _ (Reads-sleb (as_i32 d.offset) (as_i32-IsInt d.offset h.0)) (
          Reads-then (Reads-read_byte 0x0b) (
            subst
              (λ n.
                Reads (payload (to_bits 32 (as_i32 d.offset))) (encode_bytes [] d.bytes)
                  (record { offset = n; bytes = d.bytes }))
              (to_bits-as_i32 d.offset h.0)
              (Reads-last (λ bs. record { offset = to_bits 32 (as_i32 d.offset); bytes = bs })
                (Reads-encode_bytes d.bytes h.1)))))))
