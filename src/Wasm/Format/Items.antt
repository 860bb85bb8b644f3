-- ===== src/Wasm/Format/Items.antt =====
-- Each item of a section is read back from what its encoder appends.
use pocket_rust.Prelude.{
  ℕ, ◌^◌, ◌<◌, refl, Option, none, some, List, [], ◌∷◌, ◌++◌, length, All, as_u32,
}
use pocket_rust.Wasm.Leb.{write_uleb128}
use pocket_rust.Wasm.Types.{ValType, FuncType, Import, Memory}
use pocket_rust.Wasm.Reader.{read_vec, Reads, Appends, Adds}
use pocket_rust.Wasm.Reader.Laws.{
  Reads-bind, Reads-then, Reads-last, Reads-of_Adds, Reads-read_byte, Reads-any_byte, Reads-u32,
  Reads-read_vec, Reads-encode_bytes, Appends-u32, Appends-encode_vec, Appends-encode_bytes,
  encode_vec, encode_bytes, Adds-push, Adds-then, Adds-of, Appends-of, for_each-push,
}
use pocket_rust.Wasm.Instr.Decode.{read_val_type}
use pocket_rust.Wasm.Instr.RoundTrip.{Reads-val_type}
use pocket_rust.Wasm.Sections.{
  push_bytes, push_val_type, encode_func_type, encode_import, encode_limits, encode_memory,
}
use pocket_rust.Wasm.Format.{
  read_func_type, FuncTypeInRange, read_name, read_import, ImportInRange, read_max, read_limits,
  MemoryInRange,
}

Appends-val_type : Appends push_val_type
unfolding push_val_type
Appends-val_type = record { appends = λ out t. refl }

abbrev val_types : List ValType → List ℕ
val_types = encode_vec push_val_type Appends-val_type []

All-Reads-val_type : (ts : List ValType) → All (λ t. Reads read_val_type (push_val_type [] t) t) ts
unfolding push_val_type
All-Reads-val_type [] = tt
All-Reads-val_type (t ∷ ts) = (Reads-val_type t, All-Reads-val_type ts)

Reads-val_types :
    (ts : List ValType) → length ts < 2 ^ 32 → Reads (read_vec read_val_type) (val_types ts) ts
Reads-val_types ts h =
    Reads-read_vec push_val_type Appends-val_type read_val_type ts h (All-Reads-val_type ts)

Adds-val_types :
    (ts : List ValType)
    → Adds (λ out. encode_vec push_val_type Appends-val_type out ts) (val_types ts)
Adds-val_types ts = Adds-of (Appends-encode_vec push_val_type Appends-val_type) ts

abbrev func_type_bytes : FuncType → List ℕ
func_type_bytes ft = (0x60 ∷ []) ++ (val_types ft.params ++ val_types ft.results)

Adds-func_type : (ft : FuncType) → Adds (λ out. encode_func_type out ft) (func_type_bytes ft)
unfolding encode_func_type
Adds-func_type ft =
    Adds-then (Adds-push 0x60) (Adds-then (Adds-val_types ft.params) (Adds-val_types ft.results))

pub Appends-func_type : Appends encode_func_type
Appends-func_type = Appends-of func_type_bytes Adds-func_type

pub Reads-func_type :
    (ft : FuncType) → FuncTypeInRange ft → Reads read_func_type (encode_func_type [] ft) ft
unfolding read_func_type
Reads-func_type ft h = Reads-of_Adds (Adds-func_type ft) (
    Reads-then (Reads-read_byte 0x60) (
      Reads-bind _ (Reads-val_types ft.params h.0) (
        Reads-last (λ rs. record { params = ft.params; results = rs })
          (Reads-val_types ft.results h.1))))

pub Adds-u32 : (n : ℕ) → Adds (λ out. write_uleb128 out n) (write_uleb128 [] n)
Adds-u32 n = Adds-of Appends-u32 n

pub Adds-bytes : (bs : List ℕ) → Adds (λ out. encode_bytes out bs) (encode_bytes [] bs)
Adds-bytes bs = Adds-of Appends-encode_bytes bs

Adds-push_bytes : (bs : List ℕ) → Adds (λ out. push_bytes out bs) bs
unfolding push_bytes
Adds-push_bytes bs = record { adds = λ out. for_each-push out bs }

-- Bytes behind their number.
abbrev pub sized_bytes : List ℕ → List ℕ
sized_bytes bs = write_uleb128 [] (as_u32 (length bs)) ++ bs

pub Adds-sized_bytes :
    (bs : List ℕ)
    → Adds (λ out. push_bytes (write_uleb128 out (as_u32 (length bs))) bs) (sized_bytes bs)
Adds-sized_bytes bs = Adds-then (Adds-u32 (as_u32 (length bs))) (Adds-push_bytes bs)

abbrev import_bytes : Import → List ℕ
import_bytes imp =
    encode_bytes [] imp.module_name
    ++ (encode_bytes [] imp.name ++ ((0x00 ∷ []) ++ write_uleb128 [] imp.type_idx))

Adds-import : (imp : Import) → Adds (λ out. encode_import out imp) (import_bytes imp)
unfolding encode_import
Adds-import imp =
    Adds-then (Adds-bytes imp.module_name)
      (Adds-then (Adds-bytes imp.name) (Adds-then (Adds-push 0x00) (Adds-u32 imp.type_idx)))

pub Appends-import : Appends encode_import
Appends-import = Appends-of import_bytes Adds-import

pub Reads-import : (imp : Import) → ImportInRange imp → Reads read_import (encode_import [] imp) imp
unfolding read_import read_name
Reads-import imp h = Reads-of_Adds (Adds-import imp) (
    Reads-bind _ (Reads-encode_bytes imp.module_name h.0) (
      Reads-bind _ (Reads-encode_bytes imp.name h.1) (
        Reads-then (Reads-read_byte 0x00) (
          Reads-last (λ t. record { module_name = imp.module_name; name = imp.name; type_idx = t })
            (Reads-u32 imp.type_idx h.2)))))

abbrev pub limit_bytes : ℕ → Option ℕ → List ℕ
limit_bytes min (some m) = (0x01 ∷ []) ++ (write_uleb128 [] min ++ write_uleb128 [] m)
limit_bytes min none = (0x00 ∷ []) ++ write_uleb128 [] min

pub Adds-limits :
    (min : ℕ) (max : Option ℕ) → Adds (λ out. encode_limits out min max) (limit_bytes min max)
unfolding encode_limits
Adds-limits min (some m) = Adds-then (Adds-push 0x01) (Adds-then (Adds-u32 min) (Adds-u32 m))
Adds-limits min none = Adds-then (Adds-push 0x00) (Adds-u32 min)

pub Reads-limit_bytes :
    (min : ℕ) (max : Option ℕ)
    → MemoryInRange (record { min_pages = min; max_pages = max })
    → Reads read_limits (limit_bytes min max) (record { min_pages = min; max_pages = max })
unfolding read_limits
Reads-limit_bytes min (some m) h = Reads-bind _ (Reads-any_byte 0x01) (
    Reads-bind _ (Reads-u32 min h.0) (
      unfold read_max in
      Reads-last (λ max. record { min_pages = min; max_pages = some max }) (Reads-u32 m h.1)))
Reads-limit_bytes min none h = Reads-bind _ (Reads-any_byte 0x00) (
    unfold read_max in
    Reads-last (λ n. record { min_pages = n; max_pages = none }) (Reads-u32 min h.0))

pub Reads-limits :
    (min : ℕ) (max : Option ℕ)
    → MemoryInRange (record { min_pages = min; max_pages = max })
    → Reads read_limits (encode_limits [] min max) (record { min_pages = min; max_pages = max })
Reads-limits min max h = Reads-of_Adds (Adds-limits min max) (Reads-limit_bytes min max h)

pub Appends-memory : Appends encode_memory
unfolding encode_memory
Appends-memory =
    Appends-of (λ mem. limit_bytes mem.min_pages mem.max_pages)
      (λ mem. Adds-limits mem.min_pages mem.max_pages)

pub Reads-memory : (mem : Memory) → MemoryInRange mem → Reads read_limits (encode_memory [] mem) mem
unfolding encode_memory
Reads-memory mem h = Reads-limits mem.min_pages mem.max_pages h
