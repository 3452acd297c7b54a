-- ===== src/Safety/Calls.antt =====
-- The public interface of Domain as one type of calls. A call is one locked section, so a history
-- of calls from any threads is a list of them, each with the clock's reading.
pub mod Moves
pub mod Fallen
pub mod Steps
pub mod Epochs
pub mod Guards
pub mod Permission
use new_robot.Base.{ℕ, String, Bool, List, [], ◌∷◌}
use new_robot.Base.Int.{ℤ}
use new_robot.Base.Names.{Map}
use new_robot.Safety.Types.{Evidence, Event, Axis, Association, Domain}
use new_robot.Safety.Setup.{configure, register_writer}
use new_robot.Safety.Reports.{
  unprepare_axis, warning, report_axis, report_backend, condition, event, acknowledge,
}
use new_robot.Safety.Sessions.{
  arm, run, halt, permits, group_epoch, group_info, group_map, invalidate, poll, global_stop,
  reset_global_stop, require_owner_lease, renew_owner, globally_inhibited,
}
use new_robot.Safety.Legacy.{
  report, fault_vehicle, arm_vehicle, run_vehicle, halt_vehicle, observe_period,
}

pub data Call : Type 0 where
  configures : Map Axis → List Association → String → Call
  registers : String → Bool → Call
  unprepares : String → String → Call
  warns : String → Bool → String → Call
  reports_axis : String → Bool → String → String → String → Call
  reports_backend : String → Bool → String → Call
  conditions : String → Evidence → String → ℤ → Call
  events : Event → Call
  acknowledges arms runs halts invalidates : String → Call
  permission : String → ℕ → Call
  reads_epoch reads_group : String → Call
  reads_groups polls : Call
  stops_all : String → Call
  resets_stop requires_owner : Call
  renews : ℤ → ℤ → Call
  reads_inhibit : Call
  reports : String → Bool → Call
  faults : String → Call
  arms_vehicle runs_vehicle halts_vehicle : Call
  observes : ℤ → Call

unfoldable pub step : Domain → ℤ × Call → Domain
step d (now, Call.configures axes rules version) = (configure axes rules version d).0
step d (now, Call.registers backend grouped) = (register_writer backend grouped d).0
step d (now, Call.unprepares name why) = (unprepare_axis now name why d).0
step d (now, Call.warns name active why) = (warning now name active why d).0
step d (now, Call.reports_axis name ready why code category) =
    (report_axis now name ready why code category d).0
step d (now, Call.reports_backend name ready why) = (report_backend now name ready why d).0
step d (now, Call.conditions name value source until) = (condition now name value source until d).0
step d (now, Call.events e) = (event now e d).0
step d (now, Call.acknowledges id) = (acknowledge now id d).0
step d (now, Call.arms name) = (arm now name d).0
step d (now, Call.runs name) = (run now name d).0
step d (now, Call.halts name) = (halt name d).0
step d (now, Call.invalidates name) = (invalidate name d).0
step d (now, Call.permission name ep) = (permits now name ep d).0
step d (now, Call.reads_epoch name) = (group_epoch now name d).0
step d (now, Call.reads_group name) = (group_info now name d).0
step d (now, Call.reads_groups) = (group_map now d).0
step d (now, Call.polls) = (poll now d).0
step d (now, Call.stops_all why) = global_stop why d
step d (now, Call.resets_stop) = (reset_global_stop now d).0
step d (now, Call.requires_owner) = require_owner_lease d
step d (now, Call.renews lifetime issued) = (renew_owner now lifetime issued d).0
step d (now, Call.reads_inhibit) = (globally_inhibited now d).0
step d (now, Call.reports component ready) = report component ready d
step d (now, Call.faults why) = fault_vehicle why d
step d (now, Call.arms_vehicle) = (arm_vehicle d).0
step d (now, Call.runs_vehicle) = (run_vehicle d).0
step d (now, Call.halts_vehicle) = halt_vehicle d
step d (now, Call.observes ns) = observe_period ns d

unfoldable pub steps : Domain → List (ℤ × Call) → Domain
steps d [] = d
steps d (c ∷ cs) = steps (step d c) cs
