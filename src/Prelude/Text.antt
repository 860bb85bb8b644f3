-- ===== src/Prelude/Text.antt =====
-- Texts: concatenation, comparison and decimal numbers.
use Prim.Native.Nat.{ℕ, zero, suc, ◌/◌, ◌%◌}
use Prim.Native.String
use Prim.Native.String.{String}
use text.Mathlib.Text.{◌==◌ as str_eq}
use mathlib.Core.Bool.{Bool}
use pocket_rust.Prelude.Tests.{◌==◌, if◌then◌else◌}

infixr 65 ◌+++◌
unfoldable pub ◌+++◌ : String → String → String
s +++ t = String.◌++◌ s t

-- `==` on `String`
abbrev pub string_eq : String → String → Bool
string_eq s t = str_eq s t

abbrev digit : ℕ → String
digit d =
    if d == 0
    then "0"
    else if d == 1
    then "1"
    else if d == 2
    then "2"
    else if d == 3
    then "3"
    else if d == 4
    then "4"
    else if d == 5
    then "5"
    else if d == 6
    then "6"
    else if d == 7
    then "7"
    else if d == 8
    then "8"
    else "9"

decimal_loop : ℕ → ℕ → String
decimal_loop zero n = ""
decimal_loop (suc rounds) n =
    let higher = decimal_loop rounds (n / 10) in
    if n / 10 == 0 then digit n else higher +++ digit (n % 10)

-- `to_string` of a number below 10 ^ 20, which a u64 is.
unfoldable pub decimal : ℕ → String
unfolding decimal_loop ◌+++◌
decimal n = decimal_loop 20 n
