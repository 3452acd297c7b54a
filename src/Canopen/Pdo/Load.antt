-- ===== src/Canopen/Pdo/Load.antt =====
-- What is loaded from a dictionary that holds a mapping is that mapping.
use new_robot.Base.{
  ℕ, zero, suc, ◌+◌, ◌<◌, ◌≡◌, refl, true, false, leb, List, [], ◌∷◌, length, arith,
}
use new_robot.Canopen.Pdo.{
  PdoChannel, Four, PdoMapping, Dictionary, Progress, next_sub, sub_fuel, load_entries,
  load_channel, load_channels, load_expected, rpdo_comm, rpdo_object, tpdo_comm, tpdo_object,
}

-- The entries stand in the dictionary at the object's subindices from `sub` on.
abbrev pub HoldsEntries : Dictionary → ℕ → ℕ → List ℕ → Type 0
HoldsEntries dev idx sub [] = Unit
HoldsEntries dev idx sub (e ∷ es) =
    (dev.find_sub idx sub ≡ true) × (dev.val_u32 idx sub ≡ e) × HoldsEntries dev idx (sub + 1) es

-- A channel of fewer than 255 entries stands at its two objects.
pub record HoldsChannel (dev : Dictionary) (comm object : ℕ) (ch : PdoChannel) : Type 0 where
  pub cob_there : dev.find_sub comm 1 ≡ true
  pub cob_value : dev.val_u32 comm 1 ≡ ch.cob_id
  pub count_there : dev.find_sub object 0 ≡ true
  pub count_value : dev.val_u8 object 0 ≡ length ch.entries
  pub count_small : length ch.entries < 255
  pub held : HoldsEntries dev object 1 ch.entries

pub record HoldsChannels (dev : Dictionary) (comm object : ℕ) (f : Four PdoChannel) : Type 0 where
  pub h0 : HoldsChannel dev comm object f.c0
  pub h1 : HoldsChannel dev (comm + 1) (object + 1) f.c1
  pub h2 : HoldsChannel dev (comm + 2) (object + 2) f.c2
  pub h3 : HoldsChannel dev (comm + 3) (object + 3) f.c3

load_entries-held :
    (fuel : ℕ) (dev : Dictionary) (idx sub count : ℕ) (es : List ℕ)
    → length es < fuel
    → sub + length es ≡ count + 1
    → count < 255
    → HoldsEntries dev idx sub es
    → load_entries fuel dev idx sub count ≡ (es, Progress.fine)
unfolding load_entries
load_entries-held zero dev idx sub count es enough e small h = absurd (omega (arith, enough))
load_entries-held (suc fuel) dev idx sub count [] enough e small h =
    let over : leb sub count ≡ false = ground (arith, e) in rw over refl
load_entries-held (suc fuel) dev idx sub count (x ∷ es) enough e small (found, value, h) =
    let next : next_sub sub ≡ sub + 1 = omega (arith, e, small) in
    let more : leb sub count ≡ true = ground (arith, e) in
    let rest =
      load_entries-held fuel dev idx (sub + 1) count es (omega (arith, enough)) (omega (arith, e))
        small h in
    rw (next, more, found, value, rest) refl

load_channel-held :
    (dev : Dictionary) (comm object : ℕ) (ch old : PdoChannel)
    → HoldsChannel dev comm object ch
    → load_channel dev comm object old ≡ (ch, Progress.fine)
unfolding load_channel
load_channel-held dev comm object ch old h =
    let entries =
      load_entries-held sub_fuel dev object 1 (length ch.entries) ch.entries
        (omega (arith, h.count_small)) (omega arith) h.count_small h.held in
    rw (h.cob_there, h.cob_value, h.count_there, h.count_value, entries) refl

load_channels-held :
    (dev : Dictionary) (comm object : ℕ) (f old : Four PdoChannel)
    → HoldsChannels dev comm object f
    → load_channels dev comm object old ≡ (f, Progress.fine)
unfolding load_channels
load_channels-held dev comm object f old h =
    rw
      (
        load_channel-held dev comm object f.c0 old.c0 h.h0,
        load_channel-held dev (comm + 1) (object + 1) f.c1 old.c1 h.h1,
        load_channel-held dev (comm + 2) (object + 2) f.c2 old.c2 h.h2,
        load_channel-held dev (comm + 3) (object + 3) f.c3 old.c3 h.h3,
      )
      refl

-- Loading from a dictionary that holds a mapping, each channel of fewer than 255 entries, succeeds
-- and gives that mapping, whatever was in the output before.
pub load_expected-held :
    (dev : Dictionary) (m old : PdoMapping)
    → HoldsChannels dev rpdo_comm rpdo_object m.rpdo
    → HoldsChannels dev tpdo_comm tpdo_object m.tpdo
    → load_expected dev old ≡ (m, Progress.fine)
unfolding load_expected
load_expected-held dev m old r t =
    rw
      (
        load_channels-held dev rpdo_comm rpdo_object m.rpdo old.rpdo r,
        load_channels-held dev tpdo_comm tpdo_object m.tpdo old.tpdo t,
      )
      refl
