-- ===== src/Canopen/Startup.antt =====
-- The start-up sequence: include/canopen_hw/canopen_startup_sequence.hpp. The three flags are what
-- it reads from the parameter server, which is not under this repository; `limits` is what
-- ApplySoftLimitAll does to the shared state, and whether it succeeds.
pub mod Modes
use new_robot.Base.{Bool, true, false, ◌&&◌, ◌||◌, not, if◌then◌else◌}
use new_robot.Canopen.Shared.{SharedState}
use new_robot.Canopen.Coordinator.{MasterOps, Coordinator, Reply}
use new_robot.Canopen.Requests.{request_init, request_enable, request_release, request_shutdown}

pub record StartupFlags : Type 0 where
  pub auto_init : Bool
  pub auto_enable : Bool
  pub auto_release : Bool

-- A step that the sequence gives up at when its reply is false.
abbrev pub step_or_stop :
    Coordinator × Reply → (Coordinator → Coordinator × Bool) → Coordinator × Bool
step_or_stop (c, reply) rest = if reply.ok then rest c else (c, false)

unfoldable pub release_part : MasterOps → StartupFlags → Coordinator → Coordinator × Bool
release_part ops f c =
    if f.auto_release then step_or_stop (request_release ops c) (λ c'. (c', true)) else (c, true)

unfoldable pub enable_part : MasterOps → StartupFlags → Coordinator → Coordinator × Bool
enable_part ops f c =
    if f.auto_enable
    then step_or_stop (request_enable ops c) (release_part ops f)
    else release_part ops f c

-- From the soft limits on; a failure shuts down what RequestInit started.
unfoldable pub limits_part :
    MasterOps → (SharedState → SharedState × Bool) → StartupFlags → Coordinator → Coordinator × Bool
limits_part ops limits f c =
    let (s, applied) = limits c.shared in
    let c' = record c { shared = s } in
    if not applied then ((request_shutdown ops c').0, false) else enable_part ops f c'

-- CanopenStartupSequence::Run.
unfoldable pub startup :
    MasterOps → (SharedState → SharedState × Bool) → StartupFlags → Coordinator → Coordinator × Bool
startup ops limits f c =
    if (f.auto_enable || f.auto_release) && not f.auto_init
    then (c, false)
    else if f.auto_release && not f.auto_enable
    then (c, false)
    else if not f.auto_init
    then (c, true)
    else step_or_stop (request_init ops c) (limits_part ops limits f)
