-- ===== src/Wasm/Leb/Signed/Appends.antt =====
-- What the writers of signed integers append does not depend on what is there, and how it begins.
use pocket_rust.Prelude.{
  ℕ, zero, suc, ◌+◌, ◌/◌, ◌%◌, ◌^◌, ◌≤◌, ◌<◌, ◌≡◌, sym, ap, ◌∙◌, some, List, [], ◌∷◌, ◌++◌, push,
  ◌⊎◌, append-nil, append_assoc, bit_or, arith, Bool-cases, inl, inr,
}
use native.Mathlib.Decide.{dec_lt}
use pocket_rust.Wasm.Leb.{
  ℤ, pos, shr_seven, sleb_byte, sleb_done, sleb_loop, write_sleb128, write_sleb128_64,
}
use pocket_rust.Wasm.Leb.Signed.{
  sleb, sleb_loop-pos, read_s, sleb_pos_last, sleb_pos_inner, read_s-pos,
}

sleb_loop-append :
    (w k : ℕ) (out : List ℕ) (v : ℤ) → sleb_loop w k out v ≡ out ++ sleb_loop w k [] v
unfolding sleb_loop
sleb_loop-append w zero out v = sym (append-nil out)
sleb_loop-append w (suc k) out v = elim (Bool-cases (sleb_done w v)) [
  | inl done ↦ rw done
  | inr more ↦
      let g = bit_or (sleb_byte w v) 0x80 in
      rw more (
        sleb_loop-append w k (push out g) (shr_seven v)
        ∙ append_assoc out (g ∷ []) (sleb_loop w k [] (shr_seven v))
        ∙ ap (λ t. out ++ t) (sym (sleb_loop-append w k (g ∷ []) (shr_seven v))))
]

pub write_sleb128-append : (out : List ℕ) (v : ℤ) → write_sleb128 out v ≡ out ++ write_sleb128 [] v
unfolding write_sleb128
write_sleb128-append out v = sleb_loop-append 32 5 out v

pub write_sleb128_64-append :
    (out : List ℕ) (v : ℤ) → write_sleb128_64 out v ≡ out ++ write_sleb128_64 [] v
unfolding write_sleb128_64
write_sleb128_64-append out v = sleb_loop-append 64 10 out v

-- A non-negative number below 2 ^ 32, as block types hold it, also reads as a 33-bit integer.
pub read_s-write_sleb128_64_u32 :
    (n : ℕ) (rest : List ℕ)
    → n < 2 ^ 32
    → read_s 33 (write_sleb128_64 [] (pos n) ++ rest) ≡ some (pos n, rest)
unfolding write_sleb128_64
read_s-write_sleb128_64_u32 n rest h =
    rw (sleb_loop-pos 64 10 [] n) (read_s-pos 9 33 n rest (omega arith) h)

-- The first byte of such a number is not one of the other block types.
pub write_sleb128_64_first :
    (n : ℕ)
    → (b : ℕ) × (bs : List ℕ) × (write_sleb128_64 [] (pos n) ≡ b ∷ bs) × ((b < 64) ⊎ (128 ≤ b))
unfolding write_sleb128_64
write_sleb128_64_first n = elim (dec_lt n 64) [
  | yes h ↦ (n, [], sleb_loop-pos 64 10 [] n ∙ sleb_pos_last 9 n h, inl h)
  | no h ↦ (
    n % 128 + 128,
    sleb 9 (pos (n / 128)),
    sleb_loop-pos 64 10 [] n ∙ sleb_pos_inner 9 n (omega arith),
    inr (omega arith),
  )
]
