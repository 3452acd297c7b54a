-- ===== src/Tests/Pdo.antt =====
-- A drive whose channels have one entry each, for the concrete runs of the PDO mapping.
use new_robot.Base.{ℕ, ◌+◌, ◌≡◌, refl, ◌↔◌, true, false, some, none, List, [], ◌∷◌, arith}
use new_robot.Canopen.Pdo.{
  PdoChannel, Four, PdoMapping, Dictionary, Progress, new_mapping, rpdo_comm, rpdo_object,
  tpdo_comm, tpdo_object, sub_fuel, entry_subs, load_expected, diff_pdo_mapping,
}
use new_robot.Canopen.Pdo.Subindex.{entry_subs-all, entry_subs-never}
use new_robot.Canopen.Pdo.Diff.{diff_pdo_mapping-none}
use new_robot.Canopen.Pdo.Load.{HoldsChannel, HoldsChannels, load_expected-held}
use new_robot.Canopen.Pdo.Reader.{ReadStep, Target, Slot, Reader}
use new_robot.Canopen.Pdo.Reader.Once.{ReaderEvent}

-- Every object is there, with one entry, and its value is the sum of its index and subindex.
abbrev drive : Dictionary
drive = record { find_sub = λ i s. true; val_u8 = λ i s. 1; val_u32 = λ i s. i + s }

abbrev channel : ℕ → ℕ → PdoChannel
channel comm object = record { cob_id = comm + 1; entries = (object + 1) ∷ [] }

abbrev channels : ℕ → ℕ → Four PdoChannel
channels comm object = record {
  c0 = channel comm object;
  c1 = channel (comm + 1) (object + 1);
  c2 = channel (comm + 2) (object + 2);
  c3 = channel (comm + 3) (object + 3);
}

abbrev held_mapping : PdoMapping
held_mapping = record {
  rpdo = channels rpdo_comm rpdo_object;
  tpdo = channels tpdo_comm tpdo_object;
}

holds : (comm object : ℕ) → HoldsChannel drive comm object (channel comm object)
holds comm object = record {
  cob_there = refl;
  cob_value = refl;
  count_there = refl;
  count_value = refl;
  count_small = omega arith;
  held = (refl, refl, tt);
}

holds_four : (comm object : ℕ) → HoldsChannels drive comm object (channels comm object)
holds_four comm object = record {
  h0 = holds comm object;
  h1 = holds (comm + 1) (object + 1);
  h2 = holds (comm + 2) (object + 2);
  h3 = holds (comm + 3) (object + 3);
}

load_expected-held_example : load_expected drive new_mapping ≡ (held_mapping, Progress.fine)
load_expected-held_example =
    load_expected-held drive held_mapping new_mapping (holds_four rpdo_comm rpdo_object)
      (holds_four tpdo_comm tpdo_object)

entry_subs-all_example : entry_subs sub_fuel 1 3 ≡ some (1 ∷ 2 ∷ 3 ∷ [])
entry_subs-all_example = entry_subs-all 3 (omega arith)

entry_subs-never_example : entry_subs 1000 1 255 ≡ none
entry_subs-never_example = entry_subs-never 1000

diff_pdo_mapping-none_example :
    (diff_pdo_mapping held_mapping new_mapping ≡ []) ↔ (held_mapping ≡ new_mapping)
diff_pdo_mapping-none_example = diff_pdo_mapping-none held_mapping new_mapping

abbrev first_step : ReadStep
first_step = record { idx = rpdo_comm; sub = 1; is_u8 = false; target = Target.rpdo_cob Slot.s0 }

-- It starts, its first read fails, the timeout comes, and so does a late answer.
abbrev read_history : List ReaderEvent
read_history =
    ReaderEvent.starts true true
    ∷ ReaderEvent.answers first_step false 0 "abort"
    ∷ ReaderEvent.times_out
    ∷ ReaderEvent.answers first_step true 5 ""
    ∷ []
