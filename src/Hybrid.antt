-- ===== src/Hybrid.antt =====
-- The two backends under one lifecycle: reference/ros1/Eyou_ROS1_Master/src/
-- hybrid_operational_coordinator.cpp with its header. A backend is its mode and its requests; the
-- CAN driver's coordinator is not part of the repository and stands as such a record, the canopen
-- one is built in Hybrid/Sides. Both pointers are not null.
pub mod Merge
pub mod Sides
pub mod Rollback
pub mod AutoStart
pub mod Started
pub mod Router
use Prim.Native.String.{◌++◌ as append}
use new_robot.Base.{ℕ, String, Bool, true, false, ◌&&◌, ◌||◌, not, is_empty, leb, if◌then◌else◌}
use new_robot.Canopen.Coordinator.{SystemOpMode, mode_eq, Reply}

-- The calls on a backend; `init` and `shutdown` have the arguments that the CAN driver takes.
pub data BackendCall : Type 0 where
  init : String → Bool → BackendCall
  enable disable release halt recover : BackendCall
  shutdown : Bool → BackendCall

pub record Backend {ℓ} (S : Type ℓ) : Type ℓ where
  pub mode : S → SystemOpMode
  pub request : BackendCall → S → S × Reply

-- The values of the enumerators.
abbrev pub mode_rank : SystemOpMode → ℕ
mode_rank SystemOpMode.inactive = 0
mode_rank SystemOpMode.configured = 1
mode_rank SystemOpMode.standby = 2
mode_rank SystemOpMode.armed = 3
mode_rank SystemOpMode.running = 4
mode_rank SystemOpMode.faulted = 5
mode_rank SystemOpMode.recovering = 6
mode_rank SystemOpMode.shutting_down = 7

-- `a == s || b == s`.
abbrev one_is : SystemOpMode → SystemOpMode → SystemOpMode → Bool
one_is s a b = mode_eq a s || mode_eq b s

unfoldable pub pessimistic_merge : SystemOpMode → SystemOpMode → SystemOpMode
pessimistic_merge a b =
    if one_is SystemOpMode.faulted a b
    then SystemOpMode.faulted
    else if one_is SystemOpMode.recovering a b
    then SystemOpMode.recovering
    else if one_is SystemOpMode.shutting_down a b
    then SystemOpMode.shutting_down
    else if leb (mode_rank a) (mode_rank b)
    then a
    else b

unfoldable pub join_messages : String → String → String
join_messages a b = if is_empty a then b else if is_empty b then a else append a (append "; " b)

unfoldable pub format_rollback_failure : String → String → String → String
unfolding join_messages
format_rollback_failure primary rollback failsafe =
    let out =
      if is_empty rollback
      then primary
      else join_messages primary (append "rollback failed: " rollback) in
    if is_empty failsafe then out else join_messages out (append "failsafe shutdown: " failsafe)

-- HybridOperationalCoordinator::Result.
pub record HybridReply : Type 0 where
  pub ok : Bool
  pub message : String
  pub already : Bool

abbrev pub answer : Bool → String → HybridReply
answer ok message = record { ok = ok; message = message; already = false }

module _ {ℓ} {S : Type ℓ} (b : Backend S) (name : String) where
  -- `if (!result.ok) *detail = result.message`.
  abbrev restored : String → S × Reply → S × Bool × String
  restored detail (s, r) = (s, r.ok, if r.ok then detail else r.message)

  -- The case Running: an enable first, out of Standby.
  unfoldable pub restore_running : String → S → S × Bool × String
  restore_running detail s =
      if not (mode_eq (b.mode s) SystemOpMode.standby)
      then restored detail (b.request BackendCall.release s)
      else let (s', r) = b.request BackendCall.enable s in
        if not r.ok
        then (s', false, r.message)
        else restored detail (b.request BackendCall.release s')

  -- The `switch`.
  unfoldable pub restore_from : SystemOpMode → String → S → S × Bool × String
  unfolding restore_running
  restore_from SystemOpMode.configured detail s =
      restored detail (b.request (BackendCall.shutdown false) s)
  restore_from SystemOpMode.standby detail s =
      if mode_eq (b.mode s) SystemOpMode.faulted
      then restored detail (b.request BackendCall.recover s)
      else restored detail (b.request BackendCall.disable s)
  restore_from SystemOpMode.armed detail s =
      if mode_eq (b.mode s) SystemOpMode.running
      then restored detail (b.request BackendCall.halt s)
      else restored detail (b.request BackendCall.enable s)
  restore_from SystemOpMode.running detail s = restore_running detail s
  restore_from _ detail s = (s, false, append "unsupported " (append name " rollback target"))

  -- RestoreCanDriverTo and RestoreCanopenTo: the state, whether it worked, and the detail, which
  -- only a failure sets.
  unfoldable pub restore_to : SystemOpMode → String → S → S × Bool × String
  unfolding restore_from
  restore_to target detail s =
      if mode_eq (b.mode s) target then (s, true, detail) else restore_from target detail s

  -- One half of RunFailSafeShutdown: the error text so far is extended.
  unfoldable pub failsafe_side : String → S → S × String
  unfolding join_messages
  failsafe_side error s =
      let (s', r) = b.request (BackendCall.shutdown false) s in
      (
        s',
        if not r.ok
            then join_messages error (append "[" (append name (append "] " r.message)))
            else error,
      )

module _ {ℓ κ} {S : Type ℓ} {T : Type κ} (can : Backend S) (canopen : Backend T) where
  unfoldable pub hybrid_mode : S × T → SystemOpMode
  unfolding pessimistic_merge
  hybrid_mode (s, t) = pessimistic_merge (can.mode s) (canopen.mode t)

  unfoldable pub run_fail_safe_shutdown : S × T → (S × T) × String
  unfolding failsafe_side
  run_fail_safe_shutdown (s, t) =
      let (s', first) = failsafe_side can "can_driver" "" s in
      let (t', error) = failsafe_side canopen "canopen" first t in
      ((s', t'), if is_empty error then "executed" else error)

  -- What follows a refusal of canopen's.
  unfoldable pub roll_back : SystemOpMode → SystemOpMode → String → S × T → (S × T) × HybridReply
  unfolding restore_to run_fail_safe_shutdown format_rollback_failure
  roll_back can_prev canopen_prev refusal (s, t) =
      let primary = append "[canopen] " refusal in
      let (t', canopen_restored, first) = restore_to canopen "canopen" canopen_prev "" t in
      let (s', can_restored, error) = restore_to can "can_driver" can_prev first s in
      if canopen_restored && can_restored
      then ((s', t'), answer false (append primary "; rolled back both backends"))
      else let (stopped, failsafe) = run_fail_safe_shutdown (s', t') in
        (stopped, answer false (format_rollback_failure primary error failsafe))

  -- The body that all requests but RequestShutdown share, with its text of success.
  unfoldable pub request_both : BackendCall → String → S × T → (S × T) × HybridReply
  unfolding roll_back
  request_both call done (s, t) =
      let (s', r1) = can.request call s in
      if not r1.ok
      then ((s', t), answer false (append "[can_driver] " r1.message))
      else let (t', r2) = canopen.request call t in
        if not r2.ok
        then roll_back (can.mode s) (canopen.mode t) r2.message (s', t')
        else ((s', t'), answer true done)

  unfoldable pub hybrid_init : String → Bool → S × T → (S × T) × HybridReply
  unfolding request_both
  hybrid_init device loopback (s, t) =
      if mode_eq (can.mode s) SystemOpMode.armed && mode_eq (canopen.mode t) SystemOpMode.armed
      then ((s, t), record { ok = true; message = "already initialized"; already = true })
      else request_both (BackendCall.init device loopback) "both backends initialized" (s, t)

  unfoldable pub hybrid_enable : S × T → (S × T) × HybridReply
  unfolding request_both
  hybrid_enable = request_both BackendCall.enable "both backends enabled"

  unfoldable pub hybrid_disable : S × T → (S × T) × HybridReply
  unfolding request_both
  hybrid_disable = request_both BackendCall.disable "both backends disabled"

  unfoldable pub hybrid_release : S × T → (S × T) × HybridReply
  unfolding request_both
  hybrid_release = request_both BackendCall.release "both backends released"

  unfoldable pub hybrid_halt : S × T → (S × T) × HybridReply
  unfolding request_both
  hybrid_halt = request_both BackendCall.halt "both backends halted"

  unfoldable pub hybrid_recover : S × T → (S × T) × HybridReply
  unfolding request_both
  hybrid_recover = request_both BackendCall.recover "both backends recovered"

  abbrev shutdown_text : String → String
  shutdown_text message = if is_empty message then "shutdown failed" else message

  unfoldable pub hybrid_shutdown : Bool → S × T → (S × T) × HybridReply
  unfolding join_messages
  hybrid_shutdown force (s, t) =
      let (s', r1) = can.request (BackendCall.shutdown force) s in
      let first = if not r1.ok then append "[can_driver] " (shutdown_text r1.message) else "" in
      let (t', r2) = canopen.request (BackendCall.shutdown false) t in
      let error =
        if not r2.ok
        then join_messages first (append "[canopen] " (shutdown_text r2.message))
        else first in
      (
        (s', t'),
        if not (is_empty error)
            then answer false (append "best-effort shutdown completed with errors: " error)
            else answer true "both backends shut down",
      )
