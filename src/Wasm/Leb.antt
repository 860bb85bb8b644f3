-- ===== src/Wasm/Leb.antt =====
-- The LEB128 writers of src/wasm.rs: `write_uleb128`, `write_sleb128` and `write_sleb128_64`.
-- A byte vector is a list of numbers, and `&mut Vec<u8>` is passed in and returned.
pub mod Unsigned
pub mod Signed
use pocket_rust.Prelude.{
  ℕ, zero, suc, ◌-◌, ◌/◌, ◌^◌, Bool, true, false, not, ◌&&◌, ◌||◌, List, push, bit_and, bit_or,
  if◌then◌else◌, ◌==◌,
}

-- The loop of `write_uleb128`; `value >>= 7` is the quotient by 128. The fuel counts rounds.
pub uleb_loop : ℕ → List ℕ → ℕ → List ℕ
uleb_loop zero out value = out
uleb_loop (suc rounds) out value =
    let low = bit_and value 0x7f in
    let value' = value / 128 in
    let rest = uleb_loop rounds (push out (bit_or low 0x80)) value' in
    if value' == 0 then push out low else rest

-- A u32 has at most five groups of seven bits.
unfoldable pub write_uleb128 : List ℕ → ℕ → List ℕ
unfolding uleb_loop
write_uleb128 out value = uleb_loop 5 out value

-- A signed machine integer; `negsuc n` is -(n + 1).
pub data ℤ : Type 0 where
  pos : ℕ → ℤ
  negsuc : ℕ → ℤ

-- The two's complement bit pattern of w bits.
abbrev pub to_bits : ℕ → ℤ → ℕ
to_bits w (pos n) = n
to_bits w (negsuc n) = 2 ^ w - 1 - n

-- `value >> 7` on a signed integer rounds towards minus infinity.
abbrev pub shr_seven : ℤ → ℤ
shr_seven (pos n) = pos (n / 128)
shr_seven (negsuc n) = negsuc (n / 128)

-- `value == 0` and `value == -1`
abbrev is_zero : ℤ → Bool
is_zero (pos n) = n == 0
is_zero (negsuc n) = false

abbrev is_minus_one : ℤ → Bool
is_minus_one (pos n) = false
is_minus_one (negsuc n) = n == 0

-- The group and the test of one round, on an integer of w bits.
sleb_byte : ℕ → ℤ → ℕ
sleb_byte w value = bit_and (to_bits w value) 0x7f

sleb_done : ℕ → ℤ → Bool
unfolding sleb_byte
sleb_done w value =
    let value' = shr_seven value in
    let sign_bit_set = not (bit_and (sleb_byte w value) 0x40 == 0) in
    (is_zero value' && not sign_bit_set) || (is_minus_one value' && sign_bit_set)

-- The loop that `write_sleb128` and `write_sleb128_64` share.
pub sleb_loop : ℕ → ℕ → List ℕ → ℤ → List ℕ
sleb_loop w zero out value = out
sleb_loop w (suc rounds) out value =
    let byte = sleb_byte w value in
    let rest = sleb_loop w rounds (push out (bit_or byte 0x80)) (shr_seven value) in
    if sleb_done w value then push out byte else rest

-- An i32 has at most five groups, and an i64 at most ten.
unfoldable pub write_sleb128 : List ℕ → ℤ → List ℕ
unfolding sleb_loop sleb_done sleb_byte
write_sleb128 out value = sleb_loop 32 5 out value

unfoldable pub write_sleb128_64 : List ℕ → ℤ → List ℕ
unfolding sleb_loop sleb_done sleb_byte
write_sleb128_64 out value = sleb_loop 64 10 out value
