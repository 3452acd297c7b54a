-- ===== src/Canopen/Axis/Faults.antt =====
-- What a fault does to an axis.
use new_robot.Base.{
  ℕ, ◌≡◌, refl, ◌≢◌, inl, inr, Bool, true, false, List, [], ◌∷◌, ◌++◌, All, if-branches, arith,
}
use new_robot.Base.Int.{ℤ, pos, eqb_ℤ}
use new_robot.Cia402.Types.{mode_csv, mode_cst}
use new_robot.Canopen.Shared.{
  AxisCommand, AxisIntent, SharedState, recompute_all_operational, set_global_fault,
  set_all_axes_halted_by_fault,
}
use new_robot.Canopen.Protocol.{Output, Protocol, effective_intent, process}
use new_robot.Canopen.Protocol.Gate.{IsHolding, counted, process-IsHolding}
use new_robot.Canopen.Axis.{
  BusWrite, AxisLogic, Rpdo, take_over, fault_limited, protocol_input, keep_output, latch_fault,
  bus_writes, Cycle, process_rpdo, process_emcy, note_heartbeat, process_heartbeat, set_intent,
  set_axis_mode, set_external_command, set_axis_global_fault, request_run, request_axis_disable,
  request_axis_halt, mark_valid, set_ros_target_position, set_ros_target_speed,
  set_ros_target_force, configure_axis,
}

-- A write that moves nothing: a target position is the actual one, other targets are 0.
abbrev pub Rests : ℤ → BusWrite → Type 0
Rests actual (BusWrite.controlword word) = Unit
Rests actual (BusWrite.mode_of_operation mode) = Unit
Rests actual (BusWrite.target_position target) = target ≡ actual
Rests actual (BusWrite.target_velocity target) = target ≡ pos 0
Rests actual (BusWrite.target_torque target) = target ≡ pos 0

-- A cycle that holds the axis: all that it sends rests, and the axis is not operational.
pub record IsStopped (r : Rpdo) (c : Cycle) : Type 0 where
  pub sent : All (Rests r.actual_position) (c.2)
  pub locked : c.0.protocol.position_locked ≡ true
  pub idle : c.0.feedback_cache.is_operational ≡ false

All-++ : (P : BusWrite → Type 0) (xs ys : List BusWrite) → All P xs → All P ys → All P (xs ++ ys)
All-++ P [] ys p q = q
All-++ P (x ∷ xs) ys (h, p) q = (h, All-++ P xs ys p q)

bus_writes-Rests :
    (actual : ℤ) (out : Output)
    → out.safe_target_position ≡ actual
    → out.safe_target_velocity ≡ pos 0
    → out.safe_target_torque ≡ pos 0
    → All (Rests actual) (bus_writes out)
bus_writes-Rests actual out p v t =
    let P = λ (ws : List BusWrite). All (Rests actual) ws in
    (
      tt,
      (
        tt,
        (
          p,
          All-++ (Rests actual) _ _
              (if-branches P (eqb_ℤ out.safe_mode mode_csv) (λ _. (v, tt)) (λ _. tt))
              (if-branches P (eqb_ℤ out.safe_mode mode_cst) (λ _. (t, tt)) (λ _. tt)),
        ),
      ),
    )

not_run :
    (on : Bool) (intent : AxisIntent) (q : Protocol)
    → on ≡ true
    → effective_intent (fault_limited on intent) q ≢ AxisIntent.run
not_run true intent q e h = ground (arith, h)
not_run false intent q e h = absurd (cc e)

take_over-global : (s : SharedState) (a : AxisLogic) → (take_over s a).global_fault ≡ s.global_fault
unfolding take_over
take_over-global s a = ground arith

rpdo-IsStopped :
    (r : Rpdo) (a : AxisLogic) (s : SharedState)
    → IsHolding r.actual_position
        (process (protocol_input r s.intent_sequence (take_over s a)) (take_over s a).protocol)
    → IsStopped r (process_rpdo r a s)
unfolding process_rpdo keep_output
rpdo-IsStopped r a s h = record {
  sent =
      bus_writes-Rests r.actual_position
        (process (protocol_input r s.intent_sequence (take_over s a)) (take_over s a).protocol).1
        h.at_rest h.no_velocity h.no_torque;
  locked = h.locked;
  idle = h.not_operational;
}

-- While the global fault is latched, a cycle of any axis, whatever its command, intent and drive
-- state, sends no target but the actual position and no velocity or torque but 0, and locks the
-- axis.
pub process_rpdo-IsStopped :
    (r : Rpdo) (a : AxisLogic) (s : SharedState)
    → s.global_fault ≡ true
    → IsStopped r (process_rpdo r a s)
process_rpdo-IsStopped r a s g =
    let t = take_over s a in
    let input = protocol_input r s.intent_sequence t in
    rpdo-IsStopped r a s (elim (process-IsHolding input t.protocol) [
      | inl h ↦ h
      | inr (_, running, _) ↦ absurd (
          not_run t.global_fault t.current_intent (counted input t.protocol)
            (rw (take_over-global s a) g) running)
    ])

-- The public calls of an axis but ResetFault; the shared state goes along.
pub data AxisCall : Type 0 where
  rpdo : Rpdo → AxisCall
  emcy : ℕ → AxisCall
  heartbeat : Bool → AxisCall
  target_position target_speed target_force mode : ℤ → AxisCall
  external_command : AxisCommand → AxisCall
  global_fault : Bool → AxisCall
  run_requested disable_requested halt_requested : AxisCall
  configured : ℤ → AxisCall

unfoldable pub axis_call : AxisCall → AxisLogic × SharedState → AxisLogic × SharedState
unfolding process_rpdo process_emcy process_heartbeat request_axis_disable
axis_call (AxisCall.rpdo r) (a, s) = let c = process_rpdo r a s in (c.0, c.1)
axis_call (AxisCall.emcy eec) (a, s) = process_emcy eec a s
axis_call (AxisCall.heartbeat lost) (a, s) = process_heartbeat lost a s
axis_call (AxisCall.target_position n) (a, s) = (set_ros_target_position n a, s)
axis_call (AxisCall.target_speed n) (a, s) = (set_ros_target_speed n a, s)
axis_call (AxisCall.target_force n) (a, s) = (set_ros_target_force n a, s)
axis_call (AxisCall.mode n) (a, s) = (set_axis_mode n a, s)
axis_call (AxisCall.external_command x) (a, s) = (set_external_command x a, s)
axis_call (AxisCall.global_fault on) (a, s) = (set_axis_global_fault on a, s)
axis_call AxisCall.run_requested (a, s) = (request_run a, s)
axis_call AxisCall.disable_requested (a, s) = request_axis_disable a s
axis_call AxisCall.halt_requested (a, s) = (request_axis_halt a, s)
axis_call (AxisCall.configured n) (a, s) = (configure_axis n a, s)

-- A history of the axis: what other threads do to the shared state between two calls is any change,
-- so each call comes with the shared state that it finds.
unfoldable pub axis_calls : List (AxisCall × SharedState) → AxisLogic → AxisLogic
unfolding axis_call
axis_calls [] a = a
axis_calls ((call, s) ∷ calls) a = axis_calls calls (axis_call call (a, s)).0

-- A fault in the axis's feedback stays through every call but ResetFault.
axis_call-faulty :
    (call : AxisCall) (a : AxisLogic) (s : SharedState)
    → a.feedback_cache.is_fault ≡ true
    → (axis_call call (a, s)).0.feedback_cache.is_fault ≡ true
unfolding axis_call process_rpdo keep_output take_over process_emcy process_heartbeat note_heartbeat
    set_ros_target_position set_ros_target_speed set_ros_target_force mark_valid set_axis_mode
    set_external_command set_axis_global_fault request_run request_axis_disable request_axis_halt
    configure_axis set_intent
axis_call-faulty (AxisCall.rpdo r) a s h = ground (arith, h)
axis_call-faulty (AxisCall.emcy eec) a s h = h
axis_call-faulty (AxisCall.heartbeat lost) a s h = ground (arith, h)
axis_call-faulty (AxisCall.target_position n) a s h = h
axis_call-faulty (AxisCall.target_speed n) a s h = h
axis_call-faulty (AxisCall.target_force n) a s h = h
axis_call-faulty (AxisCall.mode n) a s h = h
axis_call-faulty (AxisCall.external_command x) a s h = h
axis_call-faulty (AxisCall.global_fault on) a s h = h
axis_call-faulty AxisCall.run_requested a s h = h
axis_call-faulty AxisCall.disable_requested a s h = h
axis_call-faulty AxisCall.halt_requested a s h = h
axis_call-faulty (AxisCall.configured n) a s h = h

axis_calls-faulty :
    (calls : List (AxisCall × SharedState)) (a : AxisLogic)
    → a.feedback_cache.is_fault ≡ true
    → (axis_calls calls a).feedback_cache.is_fault ≡ true
unfolding axis_calls
axis_calls-faulty [] a h = h
axis_calls-faulty ((call, s) ∷ calls) a h =
    axis_calls-faulty calls (axis_call call (a, s)).0 (axis_call-faulty call a s h)

rpdo_latches :
    (r : Rpdo) (a : AxisLogic) (s : SharedState)
    → (process_rpdo r a s).0.feedback_cache.is_fault ≡ true
    → ((process_rpdo r a s).1.global_fault ≡ true)
      × ((process_rpdo r a s).1.all_axes_halted_by_fault ≡ true)
unfolding process_rpdo latch_fault recompute_all_operational set_global_fault
    set_all_axes_halted_by_fault
rpdo_latches r a s h = rw h (refl, refl)

note_lost : (a : AxisLogic) → (note_heartbeat true a).feedback_cache.is_fault ≡ true
unfolding note_heartbeat
note_lost a = refl

-- After a lost heartbeat, whatever other calls follow and however the shared state is changed in
-- between (a cleared latch as well), each cycle of the axis latches both global faults again, until
-- ResetFault.
pub lost_heartbeat-latched :
    (a : AxisLogic) (s t : SharedState) (calls : List (AxisCall × SharedState)) (r : Rpdo)
    → let b = axis_calls calls (process_heartbeat true a s).0 in
      let c = process_rpdo r b t in
      (c.1.global_fault ≡ true) × (c.1.all_axes_halted_by_fault ≡ true)
unfolding process_heartbeat axis_call
lost_heartbeat-latched a s t calls r =
    let a' = (process_heartbeat true a s).0 in
    let b = axis_calls calls a' in
    rpdo_latches r b t
      (axis_call-faulty (AxisCall.rpdo r) b t (axis_calls-faulty calls a' (note_lost a)))
