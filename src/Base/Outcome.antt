-- ===== src/Base/Outcome.antt =====
-- A call that may throw and that keeps, also when it throws, what it has changed so far.
use Prim.Native.String.{String}

-- The exceptions of <stdexcept> that the source throws.
pub data Error : Type 0 where
  invalid_argument logic_error runtime_error out_of_range : String → Error

pub data Result {ℓ} (A : Type ℓ) : Type ℓ where
  ok : A → Result A
  err : Error → Result A
