-- ===== src/Tests/Sdo.antt =====
-- A node whose device has one object, for the concrete runs.
use new_robot.Base.{ℕ, ◌≡◌, ◌==◌, refl, true, Option, none, some, List, [], arith, if◌then◌else◌}
use new_robot.Canopen.Sdo.{SdoDriver, as_u32, read, write_u32}
use new_robot.Canopen.Sdo.Bytes.{Holds, read-write_u32}

abbrev one_object : SdoDriver (List ℕ)
one_object = record {
  read = λ index subindex size s. (some (record { ok = true; payload = s; error = "" }), s);
  write = λ index subindex bytes s. (some (true, ""), bytes);
}

abbrev node_five : ℕ → Option (SdoDriver (List ℕ))
node_five node = if node == 5 then some one_object else none

one_object-Holds : Holds one_object 0x6081 0 4 []
one_object-Holds = record { accepts = λ _ _. refl; gives = λ _ _. refl }

read-write_u32_example :
    let (wrote, t) = write_u32 (some node_five) 5 0x6081 0 0x12345678 [] in
    let got = (read (some node_five) 5 0x6081 0 4 t).0 in
    (wrote.ok ≡ true) × (got.ok ≡ true) × (as_u32 got.payload ≡ 0x12345678)
read-write_u32_example =
    read-write_u32 node_five one_object 5 0x6081 0 0x12345678 [] refl one_object-Holds (omega arith)
