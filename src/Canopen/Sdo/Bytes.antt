-- ===== src/Canopen/Sdo/Bytes.antt =====
-- The little-endian bytes of a value that is written, against the value that is read.
use new_robot.Base.{ℕ, ◌<◌, ◌≡◌, refl, ap, ◌∙◌, true, Option, some, List, length, arith}
use new_robot.Canopen.Sdo.{
  SdoResult, SdoDriver, as_u16, as_u32, bytes_u16, bytes_u32, read, write, write_u16, write_u32,
}

bytes-u32 : (v : ℕ) → v < 4294967296 → as_u32 (bytes_u32 v) ≡ v
unfolding as_u32
bytes-u32 v h = omega (arith, h)

bytes-u16 : (v : ℕ) → v < 65536 → as_u16 (bytes_u16 v) ≡ v
unfolding as_u16
bytes-u16 v h = omega (arith, h)

module _ {S : Type 0} where
  -- A device that holds at the index and the subindex what is written there, of the object's size:
  -- the write goes through, and a read behind it gives the bytes.
  pub record Holds (d : SdoDriver S) (index subindex size : ℕ) (s : S) : Type 0 where
    pub accepts :
        (bytes : List ℕ)
        → length bytes ≡ size
        → (d.write index subindex bytes s).0 ≡ some (true, "")
    pub gives :
        (bytes : List ℕ)
        → length bytes ≡ size
        → (d.read index subindex size (d.write index subindex bytes s).1).0
          ≡ some (record { ok = true; payload = bytes; error = "" })

  read-write :
      (find : ℕ → Option (SdoDriver S)) (d : SdoDriver S) (node index subindex size : ℕ)
      (bytes : List ℕ) (s : S)
      → find node ≡ some d
      → Holds d index subindex size s
      → length bytes ≡ size
      → let (wrote, t) = write (some find) node index subindex bytes s in
        (wrote.ok ≡ true)
        × ((read (some find) node index subindex size t).0
            ≡ record { ok = true; payload = bytes; error = "" })
  unfolding read write
  read-write find d node index subindex size bytes s found h fits =
      rw (found, h.accepts bytes fits, h.gives bytes fits) (refl, refl)

  -- When the node's driver is known and its device holds what is written to a four-byte object, a
  -- 32-bit value that is written is the value of the next read.
  pub read-write_u32 :
      (find : ℕ → Option (SdoDriver S)) (d : SdoDriver S) (node index subindex value : ℕ) (s : S)
      → find node ≡ some d
      → Holds d index subindex 4 s
      → value < 4294967296
      → let (wrote, t) = write_u32 (some find) node index subindex value s in
        let got = (read (some find) node index subindex 4 t).0 in
        (wrote.ok ≡ true) × (got.ok ≡ true) × (as_u32 got.payload ≡ value)
  unfolding write_u32
  read-write_u32 find d node index subindex value s found h small =
      let (wrote, got) = read-write find d node index subindex 4 (bytes_u32 value) s found h refl in
      (
        wrote,
        ap (λ (r : SdoResult). r.ok) got,
        ap (λ (r : SdoResult). as_u32 r.payload) got ∙ bytes-u32 value small,
      )

  -- The same for a 16-bit value and a two-byte object.
  read-write_u16 :
      (find : ℕ → Option (SdoDriver S)) (d : SdoDriver S) (node index subindex value : ℕ) (s : S)
      → find node ≡ some d
      → Holds d index subindex 2 s
      → value < 65536
      → let (wrote, t) = write_u16 (some find) node index subindex value s in
        let got = (read (some find) node index subindex 2 t).0 in
        (wrote.ok ≡ true) × (got.ok ≡ true) × (as_u16 got.payload ≡ value)
  unfolding write_u16
  read-write_u16 find d node index subindex value s found h small =
      let (wrote, got) = read-write find d node index subindex 2 (bytes_u16 value) s found h refl in
      (
        wrote,
        ap (λ (r : SdoResult). r.ok) got,
        ap (λ (r : SdoResult). as_u16 r.payload) got ∙ bytes-u16 value small,
      )
