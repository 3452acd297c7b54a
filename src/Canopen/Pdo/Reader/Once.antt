-- ===== src/Canopen/Pdo/Reader/Once.antt =====
-- The reader reports once.
use new_robot.Base.{
  ℕ, ◌%◌, ◌^◌, ◌<◌, ◌≡◌, String, Bool, true, ◌&&◌, Option, none, some, List, [], ◌∷◌, length,
  if◌then◌else◌,
}
use new_robot.Canopen.Pdo.{Four}
use new_robot.Canopen.Pdo.Reader.{
  ReadStep, Target, Reader, start_reader, answered, dispatch_failed, timed_out,
}

-- What may happen to a reader, in any order.
pub data ReaderEvent : Type 0 where
  starts : Bool → Bool → ReaderEvent
  answers : ReadStep → Bool → ℕ → String → ReaderEvent
  throws : ReadStep → Option String → ReaderEvent
  times_out : ReaderEvent

unfoldable pub reader_event : ReaderEvent → Reader → Option Reader
reader_event (ReaderEvent.starts read_fn done_cb) r = start_reader read_fn done_cb r
reader_event (ReaderEvent.answers s ok n error) r = answered s ok n error r
reader_event (ReaderEvent.throws s what) r = some (dispatch_failed s what r)
reader_event ReaderEvent.times_out r = some (timed_out r)

unfoldable pub reader_events : List ReaderEvent → Reader → Option Reader
unfolding reader_event
reader_events [] r = some r
reader_events (e ∷ es) r = elim (reader_event e r) [ none ↦ none | some s ↦ reader_events es s ]

-- An answer to the read of a number of entries keeps it, as a uint8_t, below 255.
abbrev pub CountFits : Target → ℕ → Type 0
CountFits (Target.rpdo_count i) n = n % 2 ^ 8 < 255
CountFits (Target.tpdo_count i) n = n % 2 ^ 8 < 255
CountFits _ n = Unit

abbrev pub EventFits : ReaderEvent → Type 0
EventFits (ReaderEvent.answers s true n error) = CountFits s.target n
EventFits _ = Unit

-- One report when it is finished and has a callback to report to, and none before or otherwise.
pub record ReportsOnce (r : Reader) : Type 0 where
  pub reports : length r.reports ≡ (if r.finished && r.done_cb then 1 else 0)

abbrev Small : Four ℕ → Type 0
Small f = (f.c0 < 255) × (f.c1 < 255) × (f.c2 < 255) × (f.c3 < 255)

-- So far it reports once, and its loops over the entries end.
record Sound (r : Reader) : Type 0 where
  once : ReportsOnce r
  rpdo_small : Small r.rpdo_counts
  tpdo_small : Small r.tpdo_counts

-- A call comes back, and leaves it so.
abbrev Within : Option Reader → Type 0
Within none = ⊥
Within (some r) = Sound r

abbrev IsBuilt : Option (List ReadStep) → Type 0
IsBuilt o = (steps : List ReadStep) × (o ≡ some steps)
