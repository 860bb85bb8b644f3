-- ===== src/Wasm/Leb/Unsigned.antt =====
-- What `write_uleb128` writes is read back by the decoder of the WebAssembly specification.
use pocket_rust.Prelude.{
  ℕ, zero, suc, ◌+◌, ◌-◌, ◌*◌, ◌/◌, ◌%◌, ◌^◌, ◌≤◌, ◌<◌, ◌≡◌, sym, ap, ◌∙◌, ltb, ◌==◌, if◌then◌else◌,
  ◌>>=◌, Option, none, some, List, [], ◌∷◌, ◌++◌, push, length, append-nil, append_assoc, arith,
}
use pocket_rust.Prelude.Bits.{low_seven, set_top_bit}
use native.Mathlib.Numerals.{towards_suc}
use native.Mathlib.Decide.{dec_lt}
use pocket_rust.Wasm.Leb.{uleb_loop, write_uleb128}

-- The groups that the loop appends, in plain arithmetic.
uleb : ℕ → ℕ → List ℕ
uleb zero v = []
uleb (suc k) v =
    let rest = uleb k (v / 128) in if v / 128 == 0 then v % 128 ∷ [] else (v % 128 + 128) ∷ rest

uleb_loop-uleb : (k : ℕ) (out : List ℕ) (v : ℕ) → uleb_loop k out v ≡ out ++ uleb k v
unfolding uleb_loop uleb
uleb_loop-uleb zero out v = sym (append-nil out)
uleb_loop-uleb (suc k) out v = ground (
  arith,
  low_seven v,
  set_top_bit (v % 128) (omega arith),
  uleb_loop-uleb k (push out (v % 128 + 128)) (v / 128),
  append_assoc out ((v % 128 + 128) ∷ []) (uleb k (v / 128)),
)

-- An unsigned integer of w bits, as the WebAssembly specification reads it.
unfoldable pub read_u : ℕ → List ℕ → Option (ℕ × List ℕ)
read_u w [] = none
read_u w (b ∷ bs) =
    let more = read_u (w - 7) bs in
    if ltb b 128
    then if ltb b (2 ^ w) then some (b, bs) else none
    else if ltb 7 w
    then more >>= (λ r. some (128 * r.0 + (b - 128), r.1))
    else none

-- `2 ^ w` in steps of seven.
pow_add_seven : (w : ℕ) → 2 ^ (w + 7) ≡ 128 * 2 ^ w
pow_add_seven w = simp towards_suc (omega arith)

pub pow_seven_more : (w : ℕ) → 7 ≤ w → 2 ^ w ≡ 128 * 2 ^ (w - 7)
pow_seven_more w h =
    let e : w ≡ (w - 7) + 7 = omega arith in ap (λ (x : ℕ). 2 ^ x) e ∙ pow_add_seven (w - 7)

pub pow_small : (w : ℕ) → w ≤ 7 → 2 ^ w ≤ 128
pow_small zero h = omega arith
pow_small (suc zero) h = omega arith
pow_small (suc (suc zero)) h = omega arith
pow_small (suc (suc (suc zero))) h = omega arith
pow_small (suc (suc (suc (suc zero)))) h = omega arith
pow_small (suc (suc (suc (suc (suc zero))))) h = omega arith
pow_small (suc (suc (suc (suc (suc (suc zero)))))) h = omega arith
pow_small (suc (suc (suc (suc (suc (suc (suc zero))))))) h = omega arith
pow_small (suc (suc (suc (suc (suc (suc (suc (suc w)))))))) h = absurd (omega arith)

read_u_last : (w b : ℕ) (rest : List ℕ) → b < 128 → b < 2 ^ w → read_u w (b ∷ rest) ≡ some (b, rest)
unfolding read_u
read_u_last w b rest h f = ground arith

read_u_inner :
    (w g v : ℕ) (bs rest : List ℕ)
    → g < 128
    → 7 < w
    → read_u (w - 7) bs ≡ some (v, rest)
    → read_u w ((g + 128) ∷ bs) ≡ some (128 * v + g, rest)
unfolding read_u
read_u_inner w g v bs rest h hw e = ground arith

uleb_last : (k v : ℕ) → v < 128 → uleb (suc k) v ≡ v ∷ []
unfolding uleb
uleb_last k v h = ground arith

uleb_inner : (k v : ℕ) → 128 ≤ v → uleb (suc k) v ≡ (v % 128 + 128) ∷ uleb k (v / 128)
unfolding uleb
uleb_inner k v h = ground arith

read_u-uleb :
    (k w v : ℕ) (rest : List ℕ)
    → v < 128 ^ suc k
    → v < 2 ^ w
    → read_u w (uleb (suc k) v ++ rest) ≡ some (v, rest)
read_u-uleb zero w v rest hk hw =
    rw (uleb_last zero v (omega arith)) (read_u_last w v rest (omega arith) hw)
read_u-uleb (suc k) w v rest hk hw = elim (dec_lt v 128) [
  | yes h ↦ rw (uleb_last (suc k) v h) (read_u_last w v rest h hw)
  | no h ↦
      let wide : 7 < w = ground (arith, pow_small w) in
      let smaller : v / 128 < 2 ^ (w - 7) = omega (arith, pow_seven_more w (omega arith)) in
      let ih = read_u-uleb k (w - 7) (v / 128) rest (omega arith) smaller in
      let e : 128 * (v / 128) + v % 128 ≡ v = omega arith in
      rw (uleb_inner (suc k) v (omega arith)) (
        read_u_inner w (v % 128) (v / 128) (uleb (suc k) (v / 128) ++ rest) rest (omega arith) wide
          ih
        ∙ ap (λ (x : ℕ). some (x, rest)) e)
]

abbrev pub IsU32 : ℕ → Type 0
IsU32 v = v < 2 ^ 32

-- A u32 that `write_uleb128` appends to `out` is read back, whatever follows it.
pub read_u-write_uleb128 :
    (v : ℕ) (rest : List ℕ) → IsU32 v → read_u 32 (write_uleb128 [] v ++ rest) ≡ some (v, rest)
unfolding write_uleb128
read_u-write_uleb128 v rest h = rw (uleb_loop-uleb 5 [] v) (read_u-uleb 4 32 v rest (omega arith) h)

-- The writer keeps what `out` holds.
pub write_uleb128-append : (out : List ℕ) (v : ℕ) → write_uleb128 out v ≡ out ++ write_uleb128 [] v
unfolding write_uleb128
write_uleb128-append out v =
    uleb_loop-uleb 5 out v ∙ ap (λ t. out ++ t) (sym (uleb_loop-uleb 5 [] v))

length-uleb : (k v : ℕ) → (1 ≤ length (uleb (suc k) v)) × (length (uleb (suc k) v) ≤ suc k)
unfolding uleb
length-uleb zero v = ground arith
length-uleb (suc k) v = ground (arith, length-uleb k (v / 128))

pub length-write_uleb128 :
    (v : ℕ) → (1 ≤ length (write_uleb128 [] v)) × (length (write_uleb128 [] v) ≤ 5)
unfolding write_uleb128
length-write_uleb128 v = rw (uleb_loop-uleb 5 [] v) (length-uleb 4 v)

-- Groups of seven bits, of which all but the last have the top bit set.
abbrev pub IsGroups : List ℕ → Type 0
IsGroups [] = ⊥
IsGroups (b ∷ []) = b < 128
IsGroups (b ∷ c ∷ bs) = (128 ≤ b) × (b < 256) × IsGroups (c ∷ bs)

-- The groups have room for the value, and one group less would not have it.
pub record Shortest (v : ℕ) (bytes : List ℕ) : Type 0 where
  pub groups : IsGroups bytes
  pub fits : v < 128 ^ length bytes
  pub least : 2 ≤ length bytes → 128 ^ (length bytes - 1) ≤ v
