-- ===== src/Canopen/Pdo/Reader.antt =====
-- PdoMappingReader: the reads that it asks of a drive one by one, and its one report. `steps` are
-- those of steps_ from step_index_ on; the first is the one asked for. The callbacks that the steps
-- carry are data. A call whose loop never ends is none.
pub mod Once
use Prim.Native.String.{◌++◌ as append}
use new_robot.Base.{
  ℕ, ◌+◌, ◌%◌, ◌^◌, String, Bool, true, false, not, is_empty, Option, none, some, List, [], ◌∷◌,
  ◌++◌, if◌then◌else◌,
}
use new_robot.Base.Text.{to_text, hex_text}
use new_robot.Canopen.Pdo.{
  PdoChannel, Four, PdoMapping, new_mapping, sub_fuel, entry_subs, rpdo_comm, rpdo_object,
  tpdo_comm, tpdo_object,
}

-- An index of a std::array of four.
pub data Slot : Type 0 where
  s0 s1 s2 s3 : Slot

abbrev pub offset : Slot → ℕ
offset Slot.s0 = 0
offset Slot.s1 = 1
offset Slot.s2 = 2
offset Slot.s3 = 3

module _ {ℓ} {A : Type ℓ} where
  abbrev pub slot_of : Slot → Four A → A
  slot_of Slot.s0 f = f.c0
  slot_of Slot.s1 f = f.c1
  slot_of Slot.s2 f = f.c2
  slot_of Slot.s3 f = f.c3

  abbrev pub set_slot : Slot → A → Four A → Four A
  set_slot Slot.s0 x f = record f { c0 = x }
  set_slot Slot.s1 x f = record f { c1 = x }
  set_slot Slot.s2 x f = record f { c2 = x }
  set_slot Slot.s3 x f = record f { c3 = x }

-- What a value that was read is kept as.
pub data Target : Type 0 where
  rpdo_cob rpdo_count tpdo_cob tpdo_count rpdo_entry tpdo_entry : Slot → Target

pub record ReadStep : Type 0 where
  pub idx : ℕ
  pub sub : ℕ
  pub is_u8 : Bool
  pub target : Target

-- A call of the DoneCallback.
pub record Report : Type 0 where
  pub ok : Bool
  pub error : String
  pub mapping : PdoMapping

pub record Reader : Type 0 where
  pub read_fn : Bool  -- whether there is one
  pub done_cb : Bool  -- whether there is one
  pub steps : List ReadStep
  pub rpdo_counts : Four ℕ
  pub tpdo_counts : Four ℕ
  pub phase_entries : Bool
  pub finished : Bool
  pub mapping : PdoMapping
  pub error : String
  pub reports : List Report  -- the newest first

abbrev no_counts : Four ℕ
no_counts = record { c0 = 0; c1 = 0; c2 = 0; c3 = 0 }

abbrev pub new_reader : Reader
new_reader = record {
  read_fn = false;
  done_cb = false;
  steps = [];
  rpdo_counts = no_counts;
  tpdo_counts = no_counts;
  phase_entries = false;
  finished = false;
  mapping = new_mapping;
  error = "";
  reports = [];
}

-- The four steps of a channel of BuildHeaderSteps.
unfoldable pub header_steps : Slot → List ReadStep
header_steps i =
    record { idx = rpdo_comm + offset i; sub = 1; is_u8 = false; target = Target.rpdo_cob i }
    ∷ record { idx = rpdo_object + offset i; sub = 0; is_u8 = true; target = Target.rpdo_count i }
    ∷ record { idx = tpdo_comm + offset i; sub = 1; is_u8 = false; target = Target.tpdo_cob i }
    ∷ record { idx = tpdo_object + offset i; sub = 0; is_u8 = true; target = Target.tpdo_count i }
    ∷ []

unfoldable pub build_header_steps : Reader → Reader
build_header_steps r = record r {
  steps =
      header_steps Slot.s0
      ++ (header_steps Slot.s1 ++ (header_steps Slot.s2 ++ header_steps Slot.s3));
  phase_entries = false;
}

-- The entry steps of one channel.
unfoldable pub steps_at : ℕ → Target → List ℕ → List ReadStep
steps_at idx target [] = []
steps_at idx target (sub ∷ subs) =
    record { idx = idx; sub = sub; is_u8 = false; target = target } ∷ steps_at idx target subs

-- `then` more steps, when both loops end.
abbrev pub both_steps : Option (List ReadStep) → Option (List ReadStep) → Option (List ReadStep)
both_steps none more = none
both_steps (some steps) none = none
both_steps (some steps) (some more) = some (steps ++ more)

abbrev pub steps_when_counted : ℕ → Target → Option (List ℕ) → Option (List ReadStep)
steps_when_counted idx target none = none
steps_when_counted idx target (some subs) = some (steps_at idx target subs)

unfoldable pub entry_steps : ℕ → (Slot → Target) → Four ℕ → Slot → Option (List ReadStep)
entry_steps object target counts i =
    steps_when_counted (object + offset i) (target i) (entry_subs sub_fuel 1 (slot_of i counts))

abbrev pub four_steps : (Slot → Option (List ReadStep)) → Option (List ReadStep)
four_steps f = both_steps (f Slot.s0) (both_steps (f Slot.s1) (both_steps (f Slot.s2) (f Slot.s3)))

abbrev cleared : Four PdoChannel → Four PdoChannel
cleared f = record {
  c0 = record f.c0 { entries = [] };
  c1 = record f.c1 { entries = [] };
  c2 = record f.c2 { entries = [] };
  c3 = record f.c3 { entries = [] };
}

abbrev pub with_entry_steps : List ReadStep → Reader → Reader
with_entry_steps steps r = record r {
  steps = steps;
  phase_entries = true;
  mapping = record { rpdo = cleared r.mapping.rpdo; tpdo = cleared r.mapping.tpdo };
}

abbrev pub all_entry_steps : Reader → Option (List ReadStep)
all_entry_steps r =
    both_steps (four_steps (entry_steps rpdo_object Target.rpdo_entry r.rpdo_counts))
      (four_steps (entry_steps tpdo_object Target.tpdo_entry r.tpdo_counts))

abbrev pub built : Reader → Option (List ReadStep) → Option Reader
built r none = none
built r (some steps) = some (with_entry_steps steps r)

unfoldable pub build_entry_steps : Reader → Option Reader
build_entry_steps r = built r (all_entry_steps r)

-- Finish: the first call reports, to a DoneCallback that is not empty; a later one does nothing.
unfoldable pub finish_reader : Bool → String → Reader → Reader
finish_reader ok error r =
    let report : Report = record { ok = ok; error = error; mapping = r.mapping } in
    if r.finished then r else record r {
      finished = true;
      error = error;
      reports = if r.done_cb then report ∷ r.reports else r.reports;
    }

-- The rest of ScheduleNext when a step is left.
abbrev ask : Reader → Reader
ask r = if not r.read_fn then finish_reader false "PDO reader not initialized" r else r

-- The inner call, behind BuildEntrySteps.
abbrev schedule_entries : Reader → Reader
schedule_entries r = elim r.steps [ [] ↦ finish_reader true "" r | s ∷ ss ↦ ask r ]

unfoldable pub schedule_next : Reader → Option Reader
schedule_next r = if r.finished then some r else elim r.steps [
  | s ∷ ss ↦ some (ask r)
  | [] ↦
      if r.phase_entries
      then some (finish_reader true "" r)
      else elim (build_entry_steps r) [ none ↦ none | some r' ↦ some (schedule_entries r') ]
]

-- Start, without the thread of its timeout.
unfoldable pub start_reader : Bool → Bool → Reader → Option Reader
start_reader read_fn done_cb r =
    if r.finished
    then some r
    else schedule_next (build_header_steps (record r { read_fn = read_fn; done_cb = done_cb }))

abbrev set_cob : ℕ → PdoChannel → PdoChannel
set_cob n ch = record ch { cob_id = n }

abbrev push_entry : ℕ → PdoChannel → PdoChannel
push_entry n ch = record ch { entries = ch.entries ++ n ∷ [] }

abbrev on_rpdo : Slot → (PdoChannel → PdoChannel) → Reader → Reader
on_rpdo i f r = record r {
  mapping = record r.mapping { rpdo = set_slot i (f (slot_of i r.mapping.rpdo)) r.mapping.rpdo };
}

abbrev on_tpdo : Slot → (PdoChannel → PdoChannel) → Reader → Reader
on_tpdo i f r = record r {
  mapping = record r.mapping { tpdo = set_slot i (f (slot_of i r.mapping.tpdo)) r.mapping.tpdo };
}

-- `step.on_value(value)`.
unfoldable pub on_value : Target → ℕ → Reader → Reader
on_value (Target.rpdo_cob i) n r = on_rpdo i (set_cob n) r
on_value (Target.rpdo_count i) n r = record r { rpdo_counts = set_slot i (n % 2 ^ 8) r.rpdo_counts }
on_value (Target.tpdo_cob i) n r = on_tpdo i (set_cob n) r
on_value (Target.tpdo_count i) n r = record r { tpdo_counts = set_slot i (n % 2 ^ 8) r.tpdo_counts }
on_value (Target.rpdo_entry i) n r = on_rpdo i (push_entry n) r
on_value (Target.tpdo_entry i) n r = on_tpdo i (push_entry n) r

abbrev next_step : List ReadStep → List ReadStep
next_step [] = []
next_step (s ∷ ss) = ss

abbrev object_text : String → ReadStep → String
object_text what s = append what (append (hex_text s.idx) (append ":" (to_text s.sub)))

abbrev failure_text : ReadStep → String → String
failure_text s error =
    let text = object_text "SDO read failed at 0x" s in
    if is_empty error then text else append text (append ": " error)

-- The callback of a step's read: an answer may come late, when all is finished.
unfoldable pub answered : ReadStep → Bool → ℕ → String → Reader → Option Reader
answered s false n error r = some (finish_reader false (failure_text s error) r)
answered s true n error r =
    let kept = on_value s.target n r in schedule_next (record kept { steps = next_step kept.steps })

-- read_fn_ throws, with a text or without.
unfoldable pub dispatch_failed : ReadStep → Option String → Reader → Reader
dispatch_failed s what r =
    finish_reader false
      (append (object_text "SDO read dispatch failed at 0x" s)
        (append ": " (elim what [ none ↦ "unknown exception" | some text ↦ text ])))
      r

unfoldable pub timed_out : Reader → Reader
timed_out r = finish_reader false "PDO verify timeout" r
