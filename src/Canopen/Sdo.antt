-- ===== src/Canopen/Sdo.antt =====
-- The SDO accessor: src/sdo_accessor.cpp and include/canopen_hw/sdo_accessor.hpp. The driver of a
-- node, which talks to the device, is a record of two operations on its state: each gives what it
-- calls the callback with before the timeout, or nothing. The asynchronous call and the wait
-- for it are one step.
pub mod Bytes
use new_robot.Base.Int.{ℤ, pos, negsuc}
use new_robot.Base.{
  ℕ, ◌+◌, ◌*◌, ◌/◌, ◌%◌, ◌^◌, ◌-◌, ltb, Bool, true, false, Option, none, some, List, [], ◌∷◌,
  String, if◌then◌else◌,
}

pub record SdoResult : Type 0 where
  pub ok : Bool
  pub payload : List ℕ
  pub error : String

-- The bytes of a std::vector<uint8_t> are below 256, so `|` of shifted bytes is their sum.
unfoldable pub as_u8 : List ℕ → ℕ
as_u8 [] = 0
as_u8 (a ∷ _) = a

unfoldable pub as_u16 : List ℕ → ℕ
unfolding as_u8
as_u16 (a ∷ b ∷ _) = (a + b * 256) % 2 ^ 16
as_u16 short = as_u8 short

unfoldable pub as_u32 : List ℕ → ℕ
unfolding as_u16
as_u32 (a ∷ b ∷ c ∷ d ∷ _) = (a + b * 256 + c * 65536 + d * 16777216) % 2 ^ 32
as_u32 short = as_u16 short

-- static_cast to the signed type of `half * 2` values.
abbrev pub signed : ℕ → ℕ → ℤ
signed half n = if ltb n half then pos n else negsuc (half + half - 1 - n)

unfoldable pub as_i8 : List ℕ → ℤ
unfolding as_u8
as_i8 bytes = signed 128 (as_u8 bytes)

unfoldable pub as_i16 : List ℕ → ℤ
unfolding as_u16
as_i16 bytes = signed 32768 (as_u16 bytes)

unfoldable pub as_i32 : List ℕ → ℤ
unfolding as_u32
as_i32 bytes = signed 2147483648 (as_u32 bytes)

abbrev pub bytes_u16 : ℕ → List ℕ
bytes_u16 v = v % 256 ∷ (v / 256) % 256 ∷ []

abbrev pub bytes_u32 : ℕ → List ℕ
bytes_u32 v = v % 256 ∷ (v / 256) % 256 ∷ (v / 65536) % 256 ∷ (v / 16777216) % 256 ∷ []

-- What AxisDriver::AsyncSdoRead and AsyncSdoWrite answer, for an index and a subindex.
pub record SdoDriver (S : Type 0) : Type 0 where
  pub read : ℕ → ℕ → ℕ → S → Option SdoResult × S
  pub write : ℕ → ℕ → List ℕ → S → Option (Bool × String) × S

-- CanopenMaster::FindDriverByNodeId, or no master.
abbrev pub Master : Type 0 → Type 0
Master S = Option (ℕ → Option (SdoDriver S))

abbrev pub refused : String → SdoResult
refused error = record { ok = false; payload = []; error = error }

abbrev pub read_answer : Option SdoResult → SdoResult
read_answer none = refused "timeout"
read_answer (some r) = r

abbrev pub write_answer : Option (Bool × String) → SdoResult
write_answer none = refused "timeout"
write_answer (some (ok, error)) = record { ok = ok; payload = []; error = error }

module _ {S : Type 0} where
  abbrev pub with_driver : Option (SdoDriver S) → (SdoDriver S → SdoResult × S) → S → SdoResult × S
  with_driver none f s = (refused "node_id not found", s)
  with_driver (some d) f s = f d

  abbrev pub with_master : Master S → ℕ → (SdoDriver S → SdoResult × S) → S → SdoResult × S
  with_master none node f s = (refused "master is null", s)
  with_master (some find) node f s = with_driver (find node) f s

  unfoldable pub read : Master S → ℕ → ℕ → ℕ → ℕ → S → SdoResult × S
  read master node index subindex expected_size s =
      with_master master node
        (λ d. let (answer, t) = d.read index subindex expected_size s in (read_answer answer, t)) s

  unfoldable pub write : Master S → ℕ → ℕ → ℕ → List ℕ → S → SdoResult × S
  write master node index subindex payload s =
      with_master master node
        (λ d. let (answer, t) = d.write index subindex payload s in (write_answer answer, t)) s

  unfoldable pub write_u8 : Master S → ℕ → ℕ → ℕ → ℕ → S → SdoResult × S
  unfolding write
  write_u8 master node index subindex value s = write master node index subindex (value ∷ []) s

  unfoldable pub write_u16 : Master S → ℕ → ℕ → ℕ → ℕ → S → SdoResult × S
  unfolding write
  write_u16 master node index subindex value s =
      write master node index subindex (bytes_u16 value) s

  unfoldable pub write_u32 : Master S → ℕ → ℕ → ℕ → ℕ → S → SdoResult × S
  unfolding write
  write_u32 master node index subindex value s =
      write master node index subindex (bytes_u32 value) s
