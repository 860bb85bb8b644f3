-- ===== src/Wasm/Leb/Signed.antt =====
-- What `write_sleb128` and `write_sleb128_64` write is read back by the decoder of the WebAssembly
-- specification.
pub mod Appends
use pocket_rust.Prelude.{
  ℕ, zero, suc, ◌+◌, ◌-◌, ◌*◌, ◌/◌, ◌%◌, ◌^◌, ◌≤◌, ◌<◌, ◌≡◌, sym, ap, ◌∙◌, ltb, if◌then◌else◌,
  ◌>>=◌, Option, none, some, List, [], ◌∷◌, ◌++◌, push, ◌⊎◌, append-nil, append_assoc, bit_or,
  arith, Bool-cases, inl, inr,
}
use pocket_rust.Prelude.Bits.{low_seven, set_top_bit, sign_bit}
use native.Mathlib.Decide.{dec_lt}
use pocket_rust.Wasm.Leb.{
  ℤ, pos, negsuc, shr_seven, sleb_byte, sleb_done, sleb_loop, write_sleb128, write_sleb128_64,
}
use pocket_rust.Wasm.Leb.Unsigned.{pow_seven_more}

-- The groups that the loop appends, in plain arithmetic.
pub sleb : ℕ → ℤ → List ℕ
sleb zero v = []
sleb (suc k) (pos n) =
    let rest = sleb k (pos (n / 128)) in if ltb n 64 then n ∷ [] else (n % 128 + 128) ∷ rest
sleb (suc k) (negsuc n) =
    let rest = sleb k (negsuc (n / 128)) in
    if ltb n 64 then (127 - n) ∷ [] else (127 - n % 128 + 128) ∷ rest

-- The magnitude fits w bits.
abbrev pub Fits : ℕ → ℤ → Type 0
Fits m (pos n) = n < m
Fits m (negsuc n) = n < m

low_byte_negsuc : (w n : ℕ) → 7 < w → n < 2 ^ w → (2 ^ w - 1 - n) % 128 ≡ 127 - n % 128
low_byte_negsuc w n h f = ground (arith, pow_seven_more w (omega arith))

pub sleb_loop-pos :
    (w k : ℕ) (out : List ℕ) (n : ℕ) → sleb_loop w k out (pos n) ≡ out ++ sleb k (pos n)
unfolding sleb_loop sleb_done sleb_byte sleb
sleb_loop-pos w zero out n = sym (append-nil out)
sleb_loop-pos w (suc k) out n = ground (
  arith,
  low_seven n,
  sign_bit (n % 128) (omega arith),
  set_top_bit (n % 128) (omega arith),
  sleb_loop-pos w k (push out (n % 128 + 128)) (n / 128),
  append_assoc out ((n % 128 + 128) ∷ []) (sleb k (pos (n / 128))),
)

sleb_loop-negsuc :
    (w k : ℕ) (out : List ℕ) (n : ℕ)
    → 7 < w
    → n < 2 ^ w
    → sleb_loop w k out (negsuc n) ≡ out ++ sleb k (negsuc n)
unfolding sleb_loop sleb_done sleb_byte sleb
sleb_loop-negsuc w zero out n hw h = sym (append-nil out)
sleb_loop-negsuc w (suc k) out n hw h = ground (
  arith,
  low_seven (2 ^ w - 1 - n),
  low_byte_negsuc w n hw h,
  sign_bit (127 - n % 128) (omega arith),
  set_top_bit (127 - n % 128) (omega arith),
  sleb_loop-negsuc w k (push out (127 - n % 128 + 128)) (n / 128),
  append_assoc out ((127 - n % 128 + 128) ∷ []) (sleb k (negsuc (n / 128))),
)

-- 128 * m + g
abbrev shl_seven_add : ℤ → ℕ → ℤ
shl_seven_add (pos m) g = pos (128 * m + g)
shl_seven_add (negsuc m) g = negsuc (128 * m + (127 - g))

-- A signed integer of w bits, as the WebAssembly specification reads it.
unfoldable pub read_s : ℕ → List ℕ → Option (ℤ × List ℕ)
read_s w [] = none
read_s w (b ∷ bs) =
    let more = read_s (w - 7) bs in
    if ltb b 64
    then if ltb b (2 ^ (w - 1)) then some (pos b, bs) else none
    else if ltb b 128
    then if ltb (127 - b) (2 ^ (w - 1)) then some (negsuc (127 - b), bs) else none
    else if ltb 7 w
    then more >>= (λ r. some (shl_seven_add r.0 (b - 128), r.1))
    else none

read_s_pos_last :
    (w b : ℕ) (rest : List ℕ) → b < 64 → b < 2 ^ (w - 1) → read_s w (b ∷ rest) ≡ some (pos b, rest)
unfolding read_s
read_s_pos_last w b rest h f = ground arith

read_s_negsuc_last :
    (w n : ℕ) (rest : List ℕ)
    → n < 64
    → n < 2 ^ (w - 1)
    → read_s w ((127 - n) ∷ rest) ≡ some (negsuc n, rest)
unfolding read_s
read_s_negsuc_last w n rest h f = ground arith

read_s_inner :
    (w g : ℕ) (v : ℤ) (bs rest : List ℕ)
    → g < 128
    → 7 < w
    → read_s (w - 7) bs ≡ some (v, rest)
    → read_s w ((g + 128) ∷ bs) ≡ some (shl_seven_add v g, rest)
unfolding read_s
read_s_inner w g v bs rest h hw e = ground arith

pub sleb_pos_last : (k n : ℕ) → n < 64 → sleb (suc k) (pos n) ≡ n ∷ []
unfolding sleb
sleb_pos_last k n h = ground arith

pub sleb_pos_inner :
    (k n : ℕ) → 64 ≤ n → sleb (suc k) (pos n) ≡ (n % 128 + 128) ∷ sleb k (pos (n / 128))
unfolding sleb
sleb_pos_inner k n h = ground arith

sleb_negsuc_last : (k n : ℕ) → n < 64 → sleb (suc k) (negsuc n) ≡ (127 - n) ∷ []
unfolding sleb
sleb_negsuc_last k n h = ground arith

sleb_negsuc_inner :
    (k n : ℕ) → 64 ≤ n → sleb (suc k) (negsuc n) ≡ (127 - n % 128 + 128) ∷ sleb k (negsuc (n / 128))
unfolding sleb
sleb_negsuc_inner k n h = ground arith

-- A value that does not fit seven bits needs more than seven, and a seventh of them is taken off.
half_pow_small : (w : ℕ) → w ≤ 7 → 2 ^ (w - 1) ≤ 64
half_pow_small zero h = omega arith
half_pow_small (suc zero) h = omega arith
half_pow_small (suc (suc zero)) h = omega arith
half_pow_small (suc (suc (suc zero))) h = omega arith
half_pow_small (suc (suc (suc (suc zero)))) h = omega arith
half_pow_small (suc (suc (suc (suc (suc zero))))) h = omega arith
half_pow_small (suc (suc (suc (suc (suc (suc zero)))))) h = omega arith
half_pow_small (suc (suc (suc (suc (suc (suc (suc zero))))))) h = omega arith
half_pow_small (suc (suc (suc (suc (suc (suc (suc (suc w)))))))) h = absurd (omega arith)

wide_enough : (w n : ℕ) → 64 ≤ n → n < 2 ^ (w - 1) → 7 < w
wide_enough w n h f = ground (arith, half_pow_small w)

rest_fits : (w n : ℕ) → 7 < w → n < 2 ^ (w - 1) → n / 128 < 2 ^ (w - 7 - 1)
rest_fits w n h f =
    let e : w - 1 - 7 ≡ w - 7 - 1 = omega arith in
    omega (arith, pow_seven_more (w - 1) (omega arith), ap (λ (x : ℕ). 2 ^ x) e)

pub read_s-pos :
    (k w n : ℕ) (rest : List ℕ)
    → n < 64 * 128 ^ k
    → n < 2 ^ (w - 1)
    → read_s w (sleb (suc k) (pos n) ++ rest) ≡ some (pos n, rest)
read_s-pos zero w n rest hk hw =
    rw (sleb_pos_last zero n (omega arith)) (read_s_pos_last w n rest (omega arith) hw)
read_s-pos (suc k) w n rest hk hw = elim (dec_lt n 64) [
  | yes h ↦ rw (sleb_pos_last (suc k) n h) (read_s_pos_last w n rest h hw)
  | no h ↦
      let wide = wide_enough w n (omega arith) hw in
      let ih = read_s-pos k (w - 7) (n / 128) rest (omega arith) (rest_fits w n wide hw) in
      let e : 128 * (n / 128) + n % 128 ≡ n = omega arith in
      rw (sleb_pos_inner (suc k) n (omega arith)) (
        read_s_inner w (n % 128) (pos (n / 128)) (sleb (suc k) (pos (n / 128)) ++ rest) rest
          (omega arith) wide ih
        ∙ ap (λ (x : ℕ). some (pos x, rest)) e)
]

read_s-negsuc :
    (k w n : ℕ) (rest : List ℕ)
    → n < 64 * 128 ^ k
    → n < 2 ^ (w - 1)
    → read_s w (sleb (suc k) (negsuc n) ++ rest) ≡ some (negsuc n, rest)
read_s-negsuc zero w n rest hk hw =
    rw (sleb_negsuc_last zero n (omega arith)) (read_s_negsuc_last w n rest (omega arith) hw)
read_s-negsuc (suc k) w n rest hk hw = elim (dec_lt n 64) [
  | yes h ↦ rw (sleb_negsuc_last (suc k) n h) (read_s_negsuc_last w n rest h hw)
  | no h ↦
      let wide = wide_enough w n (omega arith) hw in
      let ih = read_s-negsuc k (w - 7) (n / 128) rest (omega arith) (rest_fits w n wide hw) in
      let e : 128 * (n / 128) + (127 - (127 - n % 128)) ≡ n = omega arith in
      rw (sleb_negsuc_inner (suc k) n (omega arith)) (
        read_s_inner w (127 - n % 128) (negsuc (n / 128)) (sleb (suc k) (negsuc (n / 128)) ++ rest)
          rest (omega arith) wide ih
        ∙ ap (λ (x : ℕ). some (negsuc x, rest)) e)
]

-- An integer of w bits.
abbrev pub IsInt : ℕ → ℤ → Type 0
IsInt w v = Fits (2 ^ (w - 1)) v

read_s-sleb_loop :
    (w k : ℕ) (v : ℤ) (rest : List ℕ)
    → 7 < w
    → 2 ^ (w - 1) ≤ 64 * 128 ^ k
    → 2 ^ (w - 1) ≤ 2 ^ w
    → IsInt w v
    → read_s w (sleb_loop w (suc k) [] v ++ rest) ≡ some (v, rest)
read_s-sleb_loop w k (pos n) rest hw hk hp h =
    rw (sleb_loop-pos w (suc k) [] n) (read_s-pos k w n rest (omega arith) h)
read_s-sleb_loop w k (negsuc n) rest hw hk hp h =
    rw (sleb_loop-negsuc w (suc k) [] n hw (omega arith)) (read_s-negsuc k w n rest (omega arith) h)

-- An i32 that `write_sleb128` appends is read back, whatever follows it.
pub read_s-write_sleb128 :
    (v : ℤ) (rest : List ℕ) → IsInt 32 v → read_s 32 (write_sleb128 [] v ++ rest) ≡ some (v, rest)
unfolding write_sleb128
read_s-write_sleb128 v rest h =
    read_s-sleb_loop 32 4 v rest (omega arith) (omega arith) (omega arith) h

-- An i64 that `write_sleb128_64` appends is read back, whatever follows it.
pub read_s-write_sleb128_64 :
    (v : ℤ) (rest : List ℕ)
    → IsInt 64 v
    → read_s 64 (write_sleb128_64 [] v ++ rest) ≡ some (v, rest)
unfolding write_sleb128_64
read_s-write_sleb128_64 v rest h =
    read_s-sleb_loop 64 9 v rest (omega arith) (omega arith) (omega arith) h
