-- ===== src/Canopen/Pdo.antt =====
-- The PDO mapping of a drive: src/pdo_mapping.cpp and include/canopen_hw/pdo_mapping.hpp. The
-- device that Lely reads from a DCF file is what its three calls answer. An array of four is a
-- record of four.
pub mod Subindex
pub mod Diff
pub mod Load
pub mod Reader
use Prim.Native.String.{◌++◌ as append}
use new_robot.Base.{
  ℕ, zero, suc, ◌+◌, ◌/◌, ◌%◌, ◌^◌, String, Bool, true, false, not, ◌==◌, leb, Option, none, some,
  List, [], ◌∷◌, ◌++◌, length, if◌then◌else◌,
}
use new_robot.Base.Text.{to_text, hex_text}

pub record PdoChannel : Type 0 where
  pub cob_id : ℕ
  pub entries : List ℕ

pub record Four {ℓ} (A : Type ℓ) : Type ℓ where
  pub c0 : A
  pub c1 : A
  pub c2 : A
  pub c3 : A

pub record PdoMapping : Type 0 where
  pub rpdo : Four PdoChannel
  pub tpdo : Four PdoChannel

abbrev new_channel : PdoChannel
new_channel = record { cob_id = 0; entries = [] }

abbrev new_channels : Four PdoChannel
new_channels = record { c0 = new_channel; c1 = new_channel; c2 = new_channel; c3 = new_channel }

abbrev pub new_mapping : PdoMapping
new_mapping = record { rpdo = new_channels; tpdo = new_channels }

-- co_dev_find_sub, co_dev_get_val_u8 and co_dev_get_val_u32.
pub record Dictionary : Type 0 where
  pub find_sub : ℕ → ℕ → Bool
  pub val_u8 : ℕ → ℕ → ℕ
  pub val_u32 : ℕ → ℕ → ℕ

-- uint8_t `++sub`.
abbrev pub next_sub : ℕ → ℕ
next_sub sub = (sub + 1) % 2 ^ 8

-- How a read ends: well, at an object that is missing, or not within the loop's fuel.
pub data Progress : Type 0 where
  fine unending : Progress
  missing : ℕ → ℕ → Progress

-- `for (uint8_t sub = 1; sub <= count && ok; ++sub)`, from `sub` on.
unfoldable pub load_entries : ℕ → Dictionary → ℕ → ℕ → ℕ → List ℕ × Progress
load_entries zero dev idx sub count = ([], Progress.unending)
load_entries (suc fuel) dev idx sub count =
    let (entries, progress) = load_entries fuel dev idx (next_sub sub) count in
    if not (leb sub count)
    then ([], Progress.fine)
    else if not (dev.find_sub idx sub)
    then ([], Progress.missing idx sub)
    else (dev.val_u32 idx sub ∷ entries, progress)

-- A uint8_t takes 256 values, so a loop that goes on longer repeats itself.
abbrev pub sub_fuel : ℕ
sub_fuel = 256

-- `for (uint8_t sub = 1; sub <= count; ++sub)` of BuildEntrySteps: the subindices that it visits, or
-- none when it goes on beyond its fuel.
unfoldable pub entry_subs : ℕ → ℕ → ℕ → Option (List ℕ)
entry_subs zero sub count = none
entry_subs (suc fuel) sub count =
    let rest = entry_subs fuel (next_sub sub) count in
    if not (leb sub count)
    then some []
    else elim rest [ none ↦ none | some subs ↦ some (sub ∷ subs) ]

-- The body of the loop over the channels: the COB-ID at `comm`, the entries at `object`.
unfoldable pub load_channel : Dictionary → ℕ → ℕ → PdoChannel → PdoChannel × Progress
load_channel dev comm object ch =
    let named = record ch { cob_id = dev.val_u32 comm 1 } in
    if not (dev.find_sub comm 1)
    then (ch, Progress.missing comm 1)
    else if not (dev.find_sub object 0)
    then (named, Progress.missing object 0)
    else let (entries, progress) = load_entries sub_fuel dev object 1 (dev.val_u8 object 0) in
      (record named { entries = entries }, progress)

-- `i < 4 && ok`: what a channel's read ended in lets the next one begin or not.
abbrev and_then {ℓ} : {A : Type ℓ} → A → Progress → (Unit {0} → A × Progress) → A × Progress
and_then x Progress.fine k = k tt
and_then x progress k = (x, progress)

unfoldable pub load_channels : Dictionary → ℕ → ℕ → Four PdoChannel → Four PdoChannel × Progress
unfolding load_channel
load_channels dev comm object f =
    let (a, p0) = load_channel dev comm object f.c0 in
    let f0 = record f { c0 = a } in
    and_then f0 p0 λ _.
      let (b, p1) = load_channel dev (comm + 1) (object + 1) f.c1 in
      let f1 = record f0 { c1 = b } in
      and_then f1 p1 λ _.
        let (c, p2) = load_channel dev (comm + 2) (object + 2) f.c2 in
        let f2 = record f1 { c2 = c } in
        and_then f2 p2 λ _.
          let (d, p3) = load_channel dev (comm + 3) (object + 3) f.c3 in (record f2 { c3 = d }, p3)

abbrev pub rpdo_comm : ℕ
rpdo_comm = 0x1400

abbrev pub rpdo_object : ℕ
rpdo_object = 0x1600

abbrev pub tpdo_comm : ℕ
tpdo_comm = 0x1800

abbrev pub tpdo_object : ℕ
tpdo_object = 0x1A00

-- LoadExpectedPdoMappingFromDcf, with what it has filled in when it fails.
unfoldable pub load_expected : Dictionary → PdoMapping → PdoMapping × Progress
unfolding load_channels
load_expected dev m =
    let (r, progress) = load_channels dev rpdo_comm rpdo_object m.rpdo in
    let m' = record m { rpdo = r } in
    and_then m' progress λ _.
      let (t, last) = load_channels dev tpdo_comm tpdo_object m.tpdo in
      (record m' { tpdo = t }, last)

abbrev pub missing_text : ℕ → ℕ → String
missing_text idx sub = append "missing object 0x" (append (hex_text idx) (append ":" (to_text sub)))

abbrev pub format_entry : ℕ → String
format_entry entry = append (hex_text (entry % 2 ^ 16)) (
    append ":"
      (append (to_text (entry / 2 ^ 16 % 2 ^ 8)) (append "/" (to_text (entry / 2 ^ 24 % 2 ^ 8)))))

-- The texts of DiffPdoMapping, for channel `name` and the number behind it.
abbrev cob_text : String → ℕ → ℕ → ℕ → String
cob_text name i e a = append name (
    append (to_text (i + 1)) (
      append " COB-ID mismatch: expected 0x"
        (append (hex_text e) (append " actual 0x" (hex_text a)))))

abbrev count_text : String → ℕ → ℕ → ℕ → String
count_text name i e a = append name (
    append (to_text (i + 1)) (
      append " entry count mismatch: expected "
        (append (to_text e) (append " actual " (to_text a)))))

abbrev entry_text : String → ℕ → ℕ → ℕ → ℕ → String
entry_text name i j e a = append name (
    append (to_text (i + 1)) (
      append " entry[" (
        append (to_text j) (
          append "] mismatch: expected "
            (append (format_entry e) (append " actual " (format_entry a)))))))

-- The loop over the first min(size, size) entries, from `j` on.
unfoldable pub entry_diffs : String → ℕ → ℕ → List ℕ → List ℕ → List String
entry_diffs name i j [] bs = []
entry_diffs name i j (e ∷ es) [] = []
entry_diffs name i j (e ∷ es) (a ∷ bs) =
    let rest = entry_diffs name i (j + 1) es bs in
    if not (e == a) then entry_text name i j e a ∷ rest else rest

unfoldable pub channel_diffs : String → ℕ → PdoChannel → PdoChannel → List String
unfolding entry_diffs
channel_diffs name i e a =
    (if not (e.cob_id == a.cob_id) then cob_text name i e.cob_id a.cob_id ∷ [] else [])
    ++ ((if not (length e.entries == length a.entries)
          then count_text name i (length e.entries) (length a.entries) ∷ []
          else [])
        ++ entry_diffs name i 0 e.entries a.entries)

unfoldable pub channels_diffs : String → Four PdoChannel → Four PdoChannel → List String
unfolding channel_diffs
channels_diffs name e a =
    channel_diffs name 0 e.c0 a.c0
    ++ (channel_diffs name 1 e.c1 a.c1
        ++ (channel_diffs name 2 e.c2 a.c2 ++ channel_diffs name 3 e.c3 a.c3))

-- DiffPdoMapping: what `diffs`, which is not null, holds; the answer is whether it is empty.
unfoldable pub diff_pdo_mapping : PdoMapping → PdoMapping → List String
unfolding channels_diffs
diff_pdo_mapping e a = channels_diffs "RPDO" e.rpdo a.rpdo ++ channels_diffs "TPDO" e.tpdo a.tpdo
