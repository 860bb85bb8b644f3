-- ===== src/Wasm/Format/Whole/Bytes.antt =====
-- What `Module::encode` writes, section by section, and the two sections that hold no plain vector.
use pocket_rust.Prelude.{
  is_empty, ℕ, ◌^◌, ◌<◌, ◌≡◌, refl, sym, ap, ◌∙◌, Bool, true, false, not, some, List, [], ◌∷◌, ◌++◌,
  length, length-append, All, push, as_u32, arith, append-nil, if◌then◌else◌,
}
use pocket_rust.Wasm.Leb.{pos, write_uleb128, write_sleb128}
use pocket_rust.Wasm.Leb.Unsigned.{read_u, IsU32, length-write_uleb128}
use pocket_rust.Wasm.Types.{Module}
use pocket_rust.Wasm.Reader.{Reads, Adds}
use pocket_rust.Wasm.Reader.Laws.{
  Reads-of_eq, Reads-then, Reads-read_byte, Reads-read_vec, Reads-u32, Appends-u32,
  Appends-encode_vec, encode_vec, Adds-then,
}
use pocket_rust.Wasm.Encode.{header, encode}
use pocket_rust.Wasm.Sections.{
  encode_section, encode_limits, encode_type_section, encode_import_section,
  encode_function_section, encode_table_section, encode_memory_section, encode_global_section,
  encode_export_section, encode_element_section, encode_code_section, encode_data_section,
  encode_func_type, encode_import, encode_memory, encode_global, encode_export, encode_func_body,
  encode_data,
}
use pocket_rust.Wasm.Format.{read_table, read_element}
use pocket_rust.Wasm.Format.Items.{
  Adds-limits, limit_bytes, Reads-limit_bytes, Appends-func_type, Appends-import, Appends-memory,
}
use pocket_rust.Wasm.Format.Globals.{Appends-global, Appends-export}
use pocket_rust.Wasm.Format.Bodies.{Appends-func_body, Appends-data}
use pocket_rust.Wasm.Format.Whole.{table_of, ModuleInRange}
use pocket_rust.Wasm.Format.Whole.Sections.{Adds-section, present_bytes}

pub All-map :
    {A : Type 0} {P Q : A → Type 0} → ((x : A) → P x → Q x) → (xs : List A) → All P xs → All Q xs
All-map f [] h = tt
All-map f (x ∷ xs) h = (f x h.0, All-map f xs h.1)

-- The payload of each section.
abbrev pub types_payload : Module → List ℕ
types_payload m = encode_vec encode_func_type Appends-func_type [] m.types

abbrev pub imports_payload : Module → List ℕ
imports_payload m = encode_vec encode_import Appends-import [] m.imports

abbrev pub functions_payload : Module → List ℕ
functions_payload m = encode_vec write_uleb128 Appends-u32 [] m.functions

abbrev pub table_payload : Module → List ℕ
table_payload m =
    let n = as_u32 (length m.func_table) in
    encode_limits (push (write_uleb128 [] 1) 0x70) n (some n)

abbrev pub memories_payload : Module → List ℕ
memories_payload m = encode_vec encode_memory Appends-memory [] m.memories

abbrev pub globals_payload : Module → List ℕ
globals_payload m = encode_vec encode_global Appends-global [] m.globals

abbrev pub exports_payload : Module → List ℕ
exports_payload m = encode_vec encode_export Appends-export [] m.exports

abbrev pub segment_head : List ℕ
segment_head = push (write_sleb128 (push (push (write_uleb128 [] 1) 0x00) 0x41) (pos 0)) 0x0b

abbrev pub elements_payload : Module → List ℕ
elements_payload m = encode_vec write_uleb128 Appends-u32 segment_head m.func_table

abbrev pub code_payload : Module → List ℕ
code_payload m = encode_vec encode_func_body Appends-func_body [] m.code

abbrev pub datas_payload : Module → List ℕ
datas_payload m = encode_vec encode_data Appends-data [] m.datas

-- The bytes of the sections from a number on.
abbrev pub from_datas : Module → List ℕ
from_datas m = present_bytes (not (is_empty m.datas)) 11 (datas_payload m) ++ []

abbrev pub from_code : Module → List ℕ
from_code m = present_bytes (not (is_empty m.code)) 10 (code_payload m) ++ from_datas m

abbrev pub from_elements : Module → List ℕ
from_elements m = present_bytes (not (is_empty m.func_table)) 9 (elements_payload m) ++ from_code m

abbrev pub from_exports : Module → List ℕ
from_exports m = present_bytes (not (is_empty m.exports)) 7 (exports_payload m) ++ from_elements m

abbrev pub from_globals : Module → List ℕ
from_globals m = present_bytes (not (is_empty m.globals)) 6 (globals_payload m) ++ from_exports m

abbrev pub from_memories : Module → List ℕ
from_memories m = present_bytes (not (is_empty m.memories)) 5 (memories_payload m) ++ from_globals m

abbrev pub from_table : Module → List ℕ
from_table m = present_bytes (not (is_empty m.func_table)) 4 (table_payload m) ++ from_memories m

abbrev pub from_functions : Module → List ℕ
from_functions m =
    present_bytes (not (is_empty m.functions)) 3 (functions_payload m) ++ from_table m

abbrev pub from_imports : Module → List ℕ
from_imports m = present_bytes (not (is_empty m.imports)) 2 (imports_payload m) ++ from_functions m

abbrev pub from_types : Module → List ℕ
from_types m = present_bytes (not (is_empty m.types)) 1 (types_payload m) ++ from_imports m

Adds-if :
    (present : Bool) (id : ℕ) (payload : List ℕ)
    → Adds
        (λ out. if present then encode_section out id payload else out)
        (present_bytes present id payload)
Adds-if true id payload = Adds-section id payload
Adds-if false id payload = record { adds = λ out. sym (append-nil out) }

Adds-end : Adds (λ out. out) []
Adds-end = record { adds = λ out. sym (append-nil out) }

pub encode_lem : (m : Module) → encode m ≡ header ++ from_types m
unfolding encode encode_type_section encode_import_section encode_function_section
    encode_table_section encode_memory_section encode_global_section encode_export_section
    encode_element_section encode_code_section encode_data_section
encode_lem m =
    (Adds-then (Adds-if (not (is_empty m.types)) 1 (types_payload m)) (
        Adds-then (Adds-if (not (is_empty m.imports)) 2 (imports_payload m)) (
          Adds-then (Adds-if (not (is_empty m.functions)) 3 (functions_payload m)) (
            Adds-then (Adds-if (not (is_empty m.func_table)) 4 (table_payload m)) (
              Adds-then (Adds-if (not (is_empty m.memories)) 5 (memories_payload m)) (
                Adds-then (Adds-if (not (is_empty m.globals)) 6 (globals_payload m)) (
                  Adds-then (Adds-if (not (is_empty m.exports)) 7 (exports_payload m)) (
                    Adds-then (Adds-if (not (is_empty m.func_table)) 9 (elements_payload m)) (
                      Adds-then (Adds-if (not (is_empty m.code)) 10 (code_payload m)) (
                        Adds-then (Adds-if (not (is_empty m.datas)) 11 (datas_payload m))
                          Adds-end)))))))))).adds
      header

-- The sections that hold no plain vector: the table and the elements.
table_payload_lem :
    (n : ℕ)
    → encode_limits (push (write_uleb128 [] 1) 0x70) n (some n)
      ≡ (0x01 ∷ []) ++ ((0x70 ∷ []) ++ limit_bytes n (some n))
table_payload_lem n =
    let e : push (write_uleb128 [] 1) 0x70 ≡ 0x01 ∷ 0x70 ∷ [] = unfold write_uleb128 in refl in
    (Adds-limits n (some n)).adds _ ∙ ap (λ t. t ++ limit_bytes n (some n)) e

pub Reads-table_payload :
    (m : Module)
    → ModuleInRange m
    → Reads read_table (table_payload m) (table_of (length m.func_table))
unfolding read_table
Reads-table_payload m h =
    let e : as_u32 (length m.func_table) ≡ length m.func_table = omega (arith, h.table_short) in
    rw e (
      Reads-of_eq (table_payload_lem (length m.func_table)) (
        Reads-then (Reads-read_byte 0x01) (
          Reads-then (Reads-read_byte 0x70) (
            Reads-limit_bytes (length m.func_table) (some (length m.func_table))
              (h.table_short, h.table_short)))))

pub table_payload-fits : (m : Module) → length (table_payload m) < 2 ^ 32
table_payload-fits m =
    let n = as_u32 (length m.func_table) in
    let u = write_uleb128 [] n in
    omega (arith, ap length (table_payload_lem n), length-append u u, (length-write_uleb128 n).1)

elements_payload_lem :
    (m : Module)
    → elements_payload m
      ≡ (0x01 ∷ 0x00 ∷ 0x41 ∷ 0x00 ∷ 0x0b ∷ [])
        ++ encode_vec write_uleb128 Appends-u32 [] m.func_table
elements_payload_lem m =
    let e : segment_head ≡ 0x01 ∷ 0x00 ∷ 0x41 ∷ 0x00 ∷ 0x0b ∷ [] =
      unfold write_uleb128 write_sleb128 in refl in
    (Appends-encode_vec write_uleb128 Appends-u32).appends segment_head m.func_table
    ∙ ap (λ t. t ++ encode_vec write_uleb128 Appends-u32 [] m.func_table) e

pub All-Reads-u32 :
    (xs : List ℕ) → All IsU32 xs → All (λ n. Reads (read_u 32) (write_uleb128 [] n) n) xs
All-Reads-u32 xs h = All-map Reads-u32 xs h

pub Reads-elements_payload :
    (m : Module) → ModuleInRange m → Reads read_element (elements_payload m) m.func_table
unfolding read_element
Reads-elements_payload m h = Reads-of_eq (elements_payload_lem m) (
    Reads-then (Reads-read_byte 0x01) (
      Reads-then (Reads-read_byte 0x00) (
        Reads-then (Reads-read_byte 0x41) (
          Reads-then (Reads-read_byte 0x00) (
            Reads-then (Reads-read_byte 0x0b) (
              Reads-read_vec write_uleb128 Appends-u32 (read_u 32) m.func_table h.table_short
                (All-Reads-u32 m.func_table h.table_in_range)))))))
