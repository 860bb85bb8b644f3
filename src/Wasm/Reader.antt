-- ===== src/Wasm/Reader.antt =====
-- The binary format as the WebAssembly specification reads it: readers of bytes, vectors of items,
-- and payloads behind their size.
pub mod Laws
use pocket_rust.Prelude.{
  ℕ, zero, suc, Option, none, some, List, [], ◌∷◌, ◌++◌, ◌≡◌, ◌==◌, if◌then◌else◌,
}
use pocket_rust.Wasm.Leb.Unsigned.{read_u}

abbrev pub Reader : Type 0 → Type 0
Reader A = List ℕ → Option (A × List ℕ)

infixl 5 ◌>>=◌ ◌>>◌
unfoldable pub ◌>>=◌ : {A B : Type 0} → Reader A → (A → Reader B) → Reader B
◌>>=◌ m f bs = elim (m bs) [ none ↦ none | some (a, rest) ↦ f a rest ]

unfoldable pub ◌>>◌ : {A B : Type 0} → Reader A → Reader B → Reader B
unfolding ◌>>=◌
m >> k = m >>= λ _. k

unfoldable pub pure : {A : Type 0} → A → Reader A
pure a bs = some (a, bs)

-- One byte that is expected to be `c`.
unfoldable pub read_byte : ℕ → Reader (Unit {0})
read_byte c [] = none
read_byte c (b ∷ bs) = if b == c then some (tt, bs) else none

unfoldable pub any_byte : Reader ℕ
any_byte [] = none
any_byte (b ∷ bs) = some (b, bs)

unfoldable pub read_times : {A : Type 0} → ℕ → Reader A → Reader (List A)
read_times zero r bs = some ([], bs)
read_times (suc n) r bs = elim (r bs) [
  | none ↦ none
  | some (a, more) ↦ elim (read_times n r more) [
    | none ↦ none
    | some (items, rest) ↦ some (a ∷ items, rest)
  ]
]

unfoldable pub read_vec : {A : Type 0} → Reader A → Reader (List A)
unfolding ◌>>=◌ read_times
read_vec r = read_u 32 >>= λ n. read_times n r

-- The first n bytes, if there are so many.
unfoldable pub split_at : ℕ → List ℕ → Option (List ℕ × List ℕ)
split_at zero bs = some ([], bs)
split_at (suc n) [] = none
split_at (suc n) (b ∷ bs) = elim (split_at n bs) [
  | none ↦ none
  | some (front, back) ↦ some (b ∷ front, back)
]

-- Nothing may be left of a payload.
abbrev pub whole : {A : Type 0} → List ℕ → Option (A × List ℕ) → Option (A × List ℕ)
whole back none = none
whole back (some (a, [])) = some (a, back)
whole back (some (a, _ ∷ _)) = none

unfoldable pub read_sized : {A : Type 0} → Reader A → Reader A
unfolding ◌>>=◌ split_at
read_sized r = read_u 32 >>= λ n bs. elim (split_at n bs) [
  | none ↦ none
  | some (front, back) ↦ whole back (r front)
]

-- A section that stands only if it is not empty.
unfoldable pub read_optional : {A : Type 0} → ℕ → A → Reader A → Reader A
unfolding read_sized
read_optional id default r [] = some (default, [])
read_optional id default r (b ∷ bs) = if b == id then read_sized r bs else some (default, b ∷ bs)

-- The reader returns `x` on `bytes` and leaves what follows.
pub record Reads {A : Type 0} (r : Reader A) (bytes : List ℕ) (x : A) : Type 0 where
  pub reads : (rest : List ℕ) → r (bytes ++ rest) ≡ some (x, rest)

-- The writer keeps the bytes that it is given.
pub record Appends {A : Type 0} (w : List ℕ → A → List ℕ) : Type 0 where
  pub appends : (out : List ℕ) (x : A) → w out x ≡ out ++ w [] x

-- The writer adds these bytes to what it is given.
pub record Adds (f : List ℕ → List ℕ) (bytes : List ℕ) : Type 0 where
  pub adds : (out : List ℕ) → f out ≡ out ++ bytes
