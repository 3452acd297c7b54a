-- ===== src/Tests/Drive.antt =====
-- Concrete runs of the CiA 402 drive machine.
use new_robot.Base.{◌≡◌, ◌⊎◌, true}
use new_robot.Base.Int.{pos}
use new_robot.Cia402.Types.{FaultPhase, DriveState, Machine, new_machine}
use new_robot.Cia402.Machine.{update, decode_state}
use new_robot.Cia402.Limits.{IsCounted, update-IsCounted}
use new_robot.Cia402.Gate.{IsHeld, IsOpen, update-IsHeld}

-- A drive in its session, with a target 100 counts away.
abbrev pub moving : Machine
moving = record new_machine {
  state = DriveState.operation_enabled;
  enable_requested = true;
  was_operation_enabled = true;
  arm_epoch = 4;
  cmd_valid = true;
  cmd_epoch = 4;
  ros_target = pos 100;
}

update-IsHeld_example :
    IsHeld (pos 0) (update 0x27 (pos 0) moving)
    ⊎ ((decode_state 0x27 ≡ DriveState.operation_enabled) × IsOpen moving)
update-IsHeld_example = update-IsHeld 0x27 (pos 0) moving

-- A drive in fault, about to send its reset.
abbrev resetting : Machine
resetting = record new_machine { state = DriveState.fault; fault_phase = FaultPhase.send_edge }

update-IsCounted_example : IsCounted resetting (update 0x08 (pos 0) resetting)
update-IsCounted_example = update-IsCounted 0x08 (pos 0) resetting
