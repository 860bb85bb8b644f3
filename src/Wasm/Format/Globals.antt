-- ===== src/Wasm/Format/Globals.antt =====
-- Globals and exports are read back from what their encoders append.
use pocket_rust.Prelude.{
  ℕ, ◌≡◌, refl, sym, Bool, true, false, List, [], ◌∷◌, ◌++◌, append-nil, ◌==◌, if◌then◌else◌,
}
use pocket_rust.Wasm.Leb.{write_uleb128}
use pocket_rust.Wasm.Types.{Global, Export, ExportKind, func, memory}
use pocket_rust.Wasm.Reader.{pure, Reads, Appends, Adds}
use pocket_rust.Wasm.Reader.Laws.{
  Reads-bind, Reads-then, Reads-pure, Reads-last, Reads-of_eq, Reads-of_Adds, Reads-read_byte,
  Reads-any_byte, Reads-u32, Reads-encode_bytes, Adds-push, Adds-then, Adds-of, Appends-of,
  for_each-push,
}
use pocket_rust.Wasm.Instr.{val_type_byte, encode_instruction}
use pocket_rust.Wasm.Instr.RoundTrip.{Reads-val_type, Reads-instruction, Appends-instruction}
use pocket_rust.Wasm.Sections.{encode_global, export_kind_byte, encode_export}
use pocket_rust.Wasm.Format.{
  read_name, read_global, GlobalInRange, read_export_kind, read_export, ExportInRange,
}
use mathlib.Core.Path.{subst}
use pocket_rust.Wasm.Format.Items.{Adds-u32, sized_bytes, Adds-sized_bytes}

Adds-instruction :
    (g : Global) → Adds (λ out. encode_instruction out g.init) (encode_instruction [] g.init)
Adds-instruction g = Adds-of Appends-instruction g.init

-- Rust writes `true` as 1.
abbrev mutable_byte : Bool → ℕ
mutable_byte b = if b then 0x01 else 0x00

abbrev global_bytes : Global → List ℕ
global_bytes g =
    (val_type_byte g.ty ∷ [])
    ++ ((mutable_byte g.mutable ∷ []) ++ (encode_instruction [] g.init ++ (0x0b ∷ [])))

Adds-global : (g : Global) → Adds (λ out. encode_global out g) (global_bytes g)
unfolding encode_global
Adds-global g = Adds-then (Adds-push (val_type_byte g.ty)) (
    Adds-then (Adds-push (mutable_byte g.mutable))
      (Adds-then (Adds-instruction g) (Adds-push 0x0b)))

pub Appends-global : Appends encode_global
Appends-global = Appends-of global_bytes Adds-global

mutable_byte_lem : (b : Bool) → (mutable_byte b == 1) ≡ b
mutable_byte_lem true = refl
mutable_byte_lem false = refl

pub Reads-global : (g : Global) → GlobalInRange g → Reads read_global (encode_global [] g) g
unfolding read_global
Reads-global g h = Reads-of_Adds (Adds-global g) (
    Reads-bind _ (Reads-val_type g.ty) (
      Reads-bind _ (Reads-any_byte (mutable_byte g.mutable)) (
        Reads-bind _ (Reads-instruction g.init h) (
          Reads-of_eq (sym (append-nil (0x0b ∷ []))) (
            Reads-then (Reads-read_byte 0x0b) (
              subst (λ b. Reads (pure (record g { mutable = b })) [] g)
                (sym (mutable_byte_lem g.mutable)) (Reads-pure g)))))))

Reads-export_kind : (k : ExportKind) → Reads read_export_kind (export_kind_byte k ∷ []) k
unfolding read_export_kind export_kind_byte
Reads-export_kind func = record { reads = λ rest. refl }
Reads-export_kind memory = record { reads = λ rest. refl }

abbrev export_bytes : Export → List ℕ
export_bytes exp =
    sized_bytes exp.name ++ ((export_kind_byte exp.kind ∷ []) ++ write_uleb128 [] exp.index)

Adds-export : (exp : Export) → Adds (λ out. encode_export out exp) (export_bytes exp)
unfolding encode_export
Adds-export exp =
    Adds-then (Adds-sized_bytes exp.name)
      (Adds-then (Adds-push (export_kind_byte exp.kind)) (Adds-u32 exp.index))

pub Appends-export : Appends encode_export
Appends-export = Appends-of export_bytes Adds-export

pub Reads-export : (exp : Export) → ExportInRange exp → Reads read_export (encode_export [] exp) exp
unfolding read_export read_name
Reads-export exp h = Reads-of_Adds (Adds-export exp) (
    Reads-bind _ (Reads-of_eq (sym (for_each-push _ exp.name)) (Reads-encode_bytes exp.name h.0)) (
      Reads-bind _ (Reads-export_kind exp.kind) (
        Reads-last (λ i. record { name = exp.name; kind = exp.kind; index = i })
          (Reads-u32 exp.index h.1))))
