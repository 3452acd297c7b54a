-- ===== src/Base/Text.antt =====
-- Numbers as texts: std::to_string and `out << n` for an unsigned number.
use Prim.Native.Nat.{ℕ, zero, suc, ◌/◌, ◌%◌}
use Prim.Native.String.{String, ◌++◌ as append}
use mathlib.Core.List.{List, [], ◌∷◌}
use new_robot.Base.Tests.{ltb, if◌then◌else◌}

abbrev digit_at : ℕ → List String → String
digit_at n [] = ""
digit_at zero (d ∷ ds) = d
digit_at (suc n) (d ∷ ds) = digit_at n ds

abbrev digit : ℕ → String
digit n = digit_at n ("0" ∷ "1" ∷ "2" ∷ "3" ∷ "4" ∷ "5" ∷ "6" ∷ "7" ∷ "8" ∷ "9" ∷ [])

-- A number below 10 ^ fuel.
abbrev pub decimal : ℕ → ℕ → String
decimal zero n = ""
decimal (suc fuel) n =
    let rest = decimal fuel (n / 10) in if ltb n 10 then digit n else append rest (digit (n % 10))

-- A uint64_t is below 10 ^ 20.
abbrev pub to_text : ℕ → String
to_text n = decimal 20 n

abbrev hex_digit : ℕ → String
hex_digit n = digit_at n (
    "0" ∷ "1" ∷ "2" ∷ "3" ∷ "4" ∷ "5" ∷ "6" ∷ "7" ∷ "8" ∷ "9" ∷ "a" ∷ "b" ∷ "c" ∷ "d" ∷ "e" ∷ "f"
    ∷ [])

-- A number below 16 ^ fuel.
abbrev hexadecimal : ℕ → ℕ → String
hexadecimal zero n = ""
hexadecimal (suc fuel) n =
    let rest = hexadecimal fuel (n / 16) in
    if ltb n 16 then hex_digit n else append rest (hex_digit (n % 16))

-- `out << std::hex << n` for a uint32_t.
abbrev pub hex_text : ℕ → String
hex_text n = hexadecimal 8 n
