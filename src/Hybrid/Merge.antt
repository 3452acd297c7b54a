-- ===== src/Hybrid/Merge.antt =====
-- PessimisticMerge is the minimum in one order of the modes.
use new_robot.Base.{ℕ, ◌≡◌, leb, if◌then◌else◌, arith}
use new_robot.Canopen.Coordinator.{SystemOpMode}
use new_robot.Hybrid.{pessimistic_merge}

-- How well a system in the mode is; the worst is 0.
abbrev pub wellness : SystemOpMode → ℕ
wellness SystemOpMode.faulted = 0
wellness SystemOpMode.recovering = 1
wellness SystemOpMode.shutting_down = 2
wellness SystemOpMode.inactive = 3
wellness SystemOpMode.configured = 4
wellness SystemOpMode.standby = 5
wellness SystemOpMode.armed = 6
wellness SystemOpMode.running = 7

-- The merged mode is the worse of the two, in the order Faulted, Recovering, ShuttingDown,
-- Inactive, Configured, Standby, Armed, Running.
pub merge-wellness :
    (a b : SystemOpMode)
    → wellness (pessimistic_merge a b)
      ≡ (if leb (wellness a) (wellness b) then wellness a else wellness b)
unfolding pessimistic_merge
merge-wellness a b = ground arith

pub merge_same : (a : SystemOpMode) → pessimistic_merge a a ≡ a
unfolding pessimistic_merge
merge_same a = ground arith
