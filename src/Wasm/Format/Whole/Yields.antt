-- ===== src/Wasm/Format/Whole/Yields.antt =====
-- One run of a reader, and the header of a module.
use pocket_rust.Prelude.{ℕ, ◌≡◌, some, List}
use pocket_rust.Wasm.Reader.{Reader, ◌>>=◌, ◌>>◌, Reads}
use pocket_rust.Wasm.Reader.Laws.{Reads-then, Reads-read_byte}
use pocket_rust.Wasm.Encode.{header}
use pocket_rust.Wasm.Format.Whole.{read_header}

-- One run of a reader.
pub record Yields {A : Type 0} (r : Reader A) (bytes : List ℕ) (x : A) (rest : List ℕ)
    : Type 0 where
  pub yields : r bytes ≡ some (x, rest)

pub Yields-bind :
    {A B : Type 0} {m : Reader A} (f : A → Reader B) {bs cs rest : List ℕ} {x : A} {y : B}
    → Yields m bs x cs
    → Yields (f x) cs y rest
    → Yields (m >>= f) bs y rest
unfolding ◌>>=◌
Yields-bind f h k = record { yields = rw (h.yields, ◌>>=◌) k.yields }

pub Yields-then :
    {A B : Type 0} {m : Reader A} {k : Reader B} {bs cs rest : List ℕ} {x : A} {y : B}
    → Yields m bs x cs
    → Yields k cs y rest
    → Yields (m >> k) bs y rest
unfolding ◌>>◌
Yields-then h k = Yields-bind _ h k

pub Reads-header : Reads read_header header tt
unfolding read_header
Reads-header = Reads-then (Reads-read_byte 0x00) (
    Reads-then (Reads-read_byte 0x61) (
      Reads-then (Reads-read_byte 0x73) (
        Reads-then (Reads-read_byte 0x6d) (
          Reads-then (Reads-read_byte 0x01) (
            Reads-then (Reads-read_byte 0x00)
              (Reads-then (Reads-read_byte 0x00) (Reads-read_byte 0x00)))))))
