-- ===== src/Wasm/Format/Whole/Sections.antt =====
-- Each section is read back if it stands, and found absent if it does not.
use pocket_rust.Prelude.{
  is_empty, ℕ, ◌^◌, ◌<◌, ◌≡◌, ◌⊎◌, inl, inr, refl, sym, ap, ◌∙◌, Bool, true, false, not, some, List,
  [], ◌∷◌, ◌++◌, length, length-append, All, as_u32, arith, if◌then◌else◌,
}
use pocket_rust.Wasm.Leb.{write_uleb128}
use pocket_rust.Wasm.Reader.{Reader, read_vec, read_optional, Reads, Appends, Adds}
use pocket_rust.Wasm.Reader.Laws.{
  Reads-of_eq, Reads-read_vec, Reads-read_sized, encode_vec, read_optional_here,
  read_optional_absent, Adds-push, Adds-then,
}
use pocket_rust.Wasm.Sections.{encode_section}
use pocket_rust.Wasm.Format.Items.{sized_bytes, Adds-sized_bytes}

abbrev pub section_bytes : ℕ → List ℕ → List ℕ
section_bytes id payload = (id ∷ []) ++ sized_bytes payload

pub Adds-section :
    (id : ℕ) (payload : List ℕ)
    → Adds (λ out. encode_section out id payload) (section_bytes id payload)
unfolding encode_section
Adds-section id payload = Adds-then (Adds-push id) (Adds-sized_bytes payload)

-- What follows is a section of a larger number, or the end.
abbrev pub StartsAbove : ℕ → List ℕ → Type 0
StartsAbove id rest = (rest ≡ []) ⊎ ((b : ℕ) × (bs : List ℕ) × (rest ≡ b ∷ bs) × (id < b))

StartsAbove-lower :
    (lo hi : ℕ) (rest : List ℕ) → lo < hi → StartsAbove hi rest → StartsAbove lo rest
StartsAbove-lower lo hi rest h (inl e) = inl e
StartsAbove-lower lo hi rest h (inr (b, bs, e, lt)) = inr (b, bs, e, omega arith)

-- The bytes of a section that stands only if its list is not empty.
abbrev pub present_bytes : Bool → ℕ → List ℕ → List ℕ
present_bytes present id payload = if present then section_bytes id payload else []

pub StartsAbove-present :
    (lo id : ℕ) (present : Bool) (payload rest : List ℕ)
    → lo < id
    → StartsAbove id rest
    → StartsAbove lo (present_bytes present id payload ++ rest)
StartsAbove-present lo id true payload rest h s = inr (id, _, refl, h)
StartsAbove-present lo id false payload rest h s = StartsAbove-lower lo id rest h s

pub payload-fits :
    (id : ℕ) (payload : List ℕ)
    → length (encode_section [] id payload) < 2 ^ 32
    → length payload < 2 ^ 32
payload-fits id payload h =
    let e = ap length ((Adds-section id payload).adds []) in
    omega (arith, e, length-append (write_uleb128 [] (as_u32 (length payload))) payload)

pub read_section :
    {A : Type 0} (id : ℕ) (default : A) (r : Reader A) (present : Bool) (payload rest : List ℕ)
    (x : A)
    → (present ≡ false → x ≡ default)
    → (present ≡ true → Reads r payload x)
    → length payload < 2 ^ 32
    → StartsAbove id rest
    → read_optional id default r (present_bytes present id payload ++ rest) ≡ some (x, rest)
read_section id default r false payload rest x absent h fits above =
    read_optional_absent r id default rest above ∙ ap (λ y. some (y, rest)) (sym (absent refl))
read_section id default r true payload rest x absent h fits above =
    let e : as_u32 (length payload) ≡ length payload = omega arith in
    let sized =
      Reads-of_eq (ap (λ k. write_uleb128 [] k ++ payload) e)
        (Reads-read_sized r payload x fits (h refl)) in
    (read_optional_here r id default (sized_bytes payload) x sized).reads rest

pub eq_nil_of_absent {ℓ} : {A : Type ℓ} (xs : List A) → not (is_empty xs) ≡ false → xs ≡ []
eq_nil_of_absent [] e = refl
eq_nil_of_absent (x ∷ xs) e = cc

-- A section that holds a vector.
pub read_vec_section :
    {A : Type 0} (w : List ℕ → A → List ℕ) (a : Appends w) (r : Reader A) (id : ℕ) (xs : List A)
    (rest : List ℕ)
    → length xs < 2 ^ 32
    → All (λ x. Reads r (w [] x) x) xs
    → length (encode_section [] id (encode_vec w a [] xs)) < 2 ^ 32
    → StartsAbove id rest
    → read_optional id []
        (read_vec r)
        (present_bytes (not (is_empty xs)) id (encode_vec w a [] xs) ++ rest)
      ≡ some (xs, rest)
read_vec_section w a r id xs rest short items fits above =
    read_section id [] (read_vec r) (not (is_empty xs)) (encode_vec w a [] xs) rest xs
      (eq_nil_of_absent xs) (λ _. Reads-read_vec w a r xs short items)
      (payload-fits id (encode_vec w a [] xs) fits) above
