-- ===== src/Canopen/Pdo/Subindex.antt =====
-- The loops over the subindices, which count in a uint8_t.
use new_robot.Base.{ℕ, zero, suc, ◌+◌, ◌<◌, ◌≡◌, refl, true, leb, none, some, List, [], ◌∷◌, arith}
use new_robot.Canopen.Pdo.{next_sub, sub_fuel, entry_subs}

-- So many numbers, from `sub` on.
abbrev pub counted_from : ℕ → ℕ → List ℕ
counted_from sub zero = []
counted_from sub (suc n) = sub ∷ counted_from (sub + 1) n

entry_subs-rest :
    (n fuel sub count : ℕ)
    → n < fuel
    → sub + n ≡ count + 1
    → count < 255
    → entry_subs fuel sub count ≡ some (counted_from sub n)
unfolding entry_subs
entry_subs-rest n zero sub count enough e small = absurd (omega (arith, enough))
entry_subs-rest zero (suc fuel) sub count enough e small = ground (arith, e)
entry_subs-rest (suc n) (suc fuel) sub count enough e small =
    let next : next_sub sub ≡ sub + 1 = omega (arith, e, small) in
    let rest =
      entry_subs-rest n fuel (sub + 1) count (omega (arith, enough)) (omega (arith, e)) small in
    let more : leb sub count ≡ true = ground (arith, e) in rw (next, more, rest) refl

-- With up to 254 entries the loop ends, and visits each of 1 … count once, in order.
pub entry_subs-all :
    (count : ℕ) → count < 255 → entry_subs sub_fuel 1 count ≡ some (counted_from 1 count)
entry_subs-all count small =
    entry_subs-rest count sub_fuel 1 count (omega (arith, small)) (omega arith) small

never : (fuel sub : ℕ) → sub < 256 → entry_subs fuel sub 255 ≡ none
unfolding entry_subs
never zero sub small = refl
never (suc fuel) sub small =
    let more : leb sub 255 ≡ true = ground (arith, small) in
    rw (more, never fuel (next_sub sub) (omega arith)) refl

-- With 255 entries, which a uint8_t count can be, the loop never ends, whatever its fuel.
pub entry_subs-never : (fuel : ℕ) → entry_subs fuel 1 255 ≡ none
entry_subs-never fuel = never fuel 1 (omega arith)
