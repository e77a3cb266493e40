-- ===== src/Common/Hex.antt =====
-- The formats of a `u64`: `{:016x}`, sixteen hexadecimal digits, and `{}`, its decimal digits.
use Prim.Native.Char.{Char, nul}
use Prim.Native.Nat.{ℕ, zero, suc, ◌/◌, ◌%◌}
use Prim.Native.String.{String, [], ◌∷◌}
use replay_kit.Common.Tests.{ltb, if◌then◌else◌}

char_of : ℕ → String → Char
char_of n [] = nul
char_of zero (c ∷ s) = c
char_of (suc n) (c ∷ s) = char_of n s

unfoldable pub hex_digit : ℕ → Char
unfolding char_of
hex_digit d = char_of d "0123456789abcdef"

-- The `k` last digits of `n`, before `acc`.
unfoldable pub hex_digits : ℕ → ℕ → String → String
hex_digits zero n acc = acc
hex_digits (suc k) n acc = hex_digits k (n / 16) (hex_digit (n % 16) ∷ acc)

unfoldable pub hex16 : ℕ → String
hex16 n = hex_digits 16 n ""

-- The format `{}` of a `u64`, which has at most twenty decimal digits.
unfoldable pub decimal_from : ℕ → ℕ → String → String
unfolding hex_digit
decimal_from zero n acc = acc
decimal_from (suc k) n acc =
    let digits = hex_digit (n % 10) ∷ acc in
    let rest = decimal_from k (n / 10) digits in if ltb n 10 then digits else rest

abbrev pub decimal : ℕ → String
decimal n = decimal_from 20 n ""
