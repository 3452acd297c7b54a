-- ===== src/Safety/Session.antt =====
-- What a hardware axis remembers of its session: robot_safety/include/robot_safety/axis_session.hpp.
-- The two shared atomics are read once each, and are fields here.
use Prim.Native.String.{◌++◌ as append}
use new_robot.Base.{
  ℕ, ◌≡◌, refl, String, Bool, true, false, ◌&&◌, ◌||◌, not, ◌==◌, some, if◌then◌else◌, arith,
}
use new_robot.Base.Int.{ℤ}
use new_robot.Base.Names.{lookup}
use new_robot.Base.Outcome.{Result, ok, err}
use new_robot.Base.Text.{to_text}
use new_robot.Safety.Types.{State, Event, Group, Domain, state_eq, blank_event}
use new_robot.Safety.Propagate.{propagate}
use new_robot.Safety.Reports.{event}
use new_robot.Safety.Sessions.{with_group, group_epoch, group_info, globally_inhibited, permits}
use new_robot.Safety.Calls.Epochs.{permits_granted}

pub record AxisSession : Type 0 where
  pub group : String
  pub epoch : ℕ
  pub permission_lost : Bool
  pub prepared_epoch : ℕ
  pub prepared : Bool

abbrev pub new_session : AxisSession
new_session = record {
  group = "";
  epoch = 0;
  permission_lost = true;
  prepared_epoch = 0;
  prepared = false;
}

abbrev pub session_kept : AxisSession → Group → Bool
session_kept s g =
    state_eq g.state State.armed || (state_eq g.state State.running && g.epoch == s.epoch)

-- From the group's snapshot on; globallyInhibited is only called for a prepared session, `later`.
unfoldable pub revoked_for : ℤ → AxisSession → Domain × Result Group → Domain × Result Bool
revoked_for later s (d, err x) = (d, err x)
revoked_for later s (d, ok g) =
    if session_kept s g
    then (d, ok false)
    else if not s.permission_lost
    then (d, ok true)
    else if not s.prepared
    then (d, ok false)
    else let (c, inhibited) = globally_inhibited later d in
      (c, ok (inhibited || not (s.prepared_epoch == g.epoch)))

unfoldable pub preparation_revoked : ℤ → ℤ → AxisSession → Domain → Domain × Result Bool
unfolding revoked_for
preparation_revoked now later s d = revoked_for later s (group_info now s.group d)

abbrev pub command_event : String → String → ℕ → Event
command_event axis reason epoch = record blank_event {
  id = append "command:" (append axis (append ":" (to_text epoch)));
  axis = axis;
  category = "invalid_running_output";
  reason = reason;
  recovery = "repair command source, acknowledge, prepare/arm/start with a new command";
}

-- The epoch is read `now`, the event recorded `later`.
unfoldable pub command_fault :
    ℤ → ℤ → String → String → String → Domain → Domain × Result (Unit {0})
command_fault now later axis group reason d =
    let (c, r) = group_epoch now group d in
    elim r [ err x ↦ (c, err x) | ok epoch ↦ event later (command_event axis reason epoch) c ]

running_kept :
    (s : AxisSession) (g : Group)
    → g.state ≡ State.running
    → g.epoch ≡ s.epoch
    → session_kept s g ≡ true
running_kept s g r e = ground (arith, r, e)

info_granted :
    (now : ℤ) (n : String) (d d' : Domain) (g : Group)
    → propagate now d ≡ (d', ok tt)
    → lookup n d'.groups ≡ some g
    → group_info now n d ≡ (d', ok g)
unfolding group_info
info_granted now n d d' g through found = rw through (rw (found, with_group) refl)

-- A session that is permitted to write keeps its preparation: the check that follows a denied write
-- would not revoke it, whatever the session's other fields.
pub permitted_kept :
    (now later : ℤ) (s : AxisSession) (d d' : Domain)
    → permits now s.group s.epoch d ≡ (d', ok true)
    → preparation_revoked now later s d ≡ (d', ok false)
unfolding preparation_revoked revoked_for
permitted_kept now later s d d' h =
    let (through, g, found, _, running, epoch) = permits_granted now s.group s.epoch d d' h in
    rw (info_granted now s.group d d' g through found) (rw (running_kept s g running epoch) refl)
