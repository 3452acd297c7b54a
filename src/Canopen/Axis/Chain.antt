-- ===== src/Canopen/Axis/Chain.antt =====
-- From a lost heartbeat on one axis to the stop of all of them: axis_logic.cpp, shared_state.cpp and
-- operational_coordinator.cpp together.
use new_robot.Base.{
  ℕ, zero, suc, ◌+◌, ◌<◌, ◌≡◌, refl, ap, ◌∙◌, ◌⊎◌, inl, inr, Bool, true, some, List, [], ◌∷◌,
  length, Bool-cases, arith, ◌||◌,
}
use new_robot.Canopen.Shared.{
  AxisFeedback, AxisSafeCommand, AxisIntent, SharedState, set_at, update_feedback,
  update_safe_command, recompute_all_operational, set_global_fault, set_all_axes_halted_by_fault,
  set_axis_intent, advance_intent_sequence,
}
use new_robot.Canopen.Coordinator.{SystemOpMode, mode_eq, Coordinator}
use new_robot.Canopen.Requests.{
  first_unhealthy, set_intents, compute_intents, update_from_feedback, intent_of,
}
use new_robot.Canopen.Axis.{
  AxisLogic, Rpdo, process_rpdo, note_heartbeat, publish_snapshot, latch_fault, process_heartbeat,
}
use new_robot.Canopen.Axis.Faults.{IsStopped, process_rpdo-IsStopped}

-- A faulty axis is found.
found :
    (n i k : ℕ) (fb : AxisFeedback) (fbs : List AxisFeedback)
    → i < n
    → i < length fbs
    → fb.is_fault ≡ true
    → (w : ℕ × Bool) × (first_unhealthy n k (set_at i fb fbs) ≡ some w)
unfolding first_unhealthy
found zero i k fb fbs small short h = absurd (omega (arith, small))
found (suc n) i k fb [] small short h = absurd (omega (arith, short))
found (suc n) zero k fb (x ∷ xs) small short h = rw h ((k, fb.heartbeat_lost), refl)
found (suc n) (suc i) k fb (x ∷ xs) small short h =
    elim (Bool-cases (x.is_fault || x.heartbeat_lost)) [
      | inl e ↦ rw e ((k, x.heartbeat_lost), refl)
      | inr e ↦ rw e (found n i (k + 1) fb xs (omega (arith, small)) (omega (arith, short)) h)
    ]

set_intents-global :
    (n i : ℕ) (intent : AxisIntent) (s : SharedState)
    → (set_intents n i intent s).global_fault ≡ s.global_fault
unfolding set_intents set_axis_intent
set_intents-global zero i intent s = refl
set_intents-global (suc n) i intent s =
    set_intents-global n (i + 1) intent (set_axis_intent i intent s) ∙ same
  where
    same : (set_axis_intent i intent s).global_fault ≡ s.global_fault
    same = ground arith

compute_intents-global :
    (c : Coordinator) → (compute_intents c).shared.global_fault ≡ c.shared.global_fault
unfolding compute_intents advance_intent_sequence
compute_intents-global c = set_intents-global c.axis_count 0 (intent_of c.mode) c.shared

update_feedback-at :
    (i : ℕ) (fb : AxisFeedback) (s : SharedState)
    → i < s.axis_count
    → (update_feedback i fb s).feedback ≡ set_at i fb s.feedback
unfolding update_feedback
update_feedback-at i fb s small = ground (arith, small)

update_safe_command-feedback :
    (i : ℕ) (safe : AxisSafeCommand) (s : SharedState)
    → (update_safe_command i safe s).feedback ≡ s.feedback
unfolding update_safe_command
update_safe_command-feedback i safe s = ground arith

heartbeat-feedback :
    (a : AxisLogic) (s : SharedState)
    → a.axis_index < s.axis_count
    → (process_heartbeat true a s).1.feedback
      ≡ set_at a.axis_index (note_heartbeat true a).feedback_cache s.feedback
unfolding process_heartbeat publish_snapshot latch_fault recompute_all_operational set_global_fault
    set_all_axes_halted_by_fault note_heartbeat
heartbeat-feedback a s small =
    let b = note_heartbeat true a in
    update_safe_command-feedback a.axis_index b.safe_command_cache
      (update_feedback a.axis_index b.feedback_cache s)
    ∙ update_feedback-at a.axis_index b.feedback_cache s small

lost-fault : (a : AxisLogic) → (note_heartbeat true a).feedback_cache.is_fault ≡ true
unfolding note_heartbeat
lost-fault a = refl

-- An armed or running coordinator whose shared state shows a faulty axis.
update-faulted :
    (c : Coordinator) (w : ℕ × Bool)
    → (c.mode ≡ SystemOpMode.armed) ⊎ (c.mode ≡ SystemOpMode.running)
    → first_unhealthy c.axis_count 0 c.shared.feedback ≡ some w
    → ((update_from_feedback c).mode ≡ SystemOpMode.faulted)
      × ((update_from_feedback c).shared.global_fault ≡ true)
unfolding update_from_feedback set_global_fault set_all_axes_halted_by_fault
update-faulted c w m e = rw e (rw (moving m) (refl, refl))
  where
    moving :
        (c.mode ≡ SystemOpMode.armed) ⊎ (c.mode ≡ SystemOpMode.running)
        → (mode_eq c.mode SystemOpMode.armed || mode_eq c.mode SystemOpMode.running) ≡ true
    moving (inl h) = rw h refl
    moving (inr h) = rw h refl

-- A heartbeat lost on one axis stops all: with a coordinator that is Armed or Running over as many
-- axes as the shared state has, the next round of the control loop makes it Faulted, and then the
-- next cycle of every axis holds it, whatever that axis's drive, command and state.
pub lost_heartbeat-IsStopped :
    (a b : AxisLogic) (s : SharedState) (mode : SystemOpMode) (n : ℕ) (r : Rpdo)
    → a.axis_index < n
    → n ≡ s.axis_count
    → length s.feedback ≡ n
    → (mode ≡ SystemOpMode.armed) ⊎ (mode ≡ SystemOpMode.running)
    → let c : Coordinator = record {
      mode = mode;
      shared = (process_heartbeat true a s).1;
      axis_count = n;
    } in
      let d = compute_intents (update_from_feedback c) in
      (d.mode ≡ SystemOpMode.faulted) × IsStopped r (process_rpdo r b d.shared)
unfolding compute_intents
lost_heartbeat-IsStopped a b s mode n r small count size moving =
    let c : Coordinator = record {
      mode = mode;
      shared = (process_heartbeat true a s).1;
      axis_count = n;
    } in
    let fb = (note_heartbeat true a).feedback_cache in
    let (w, e) =
      found n a.axis_index 0 fb s.feedback small (omega (arith, small, size)) (lost-fault a) in
    let (f, g) =
      update-faulted c w moving
        (ap (first_unhealthy n 0) (heartbeat-feedback a s (omega (arith, small, count))) ∙ e) in
    let u = update_from_feedback c in
    (f, process_rpdo-IsStopped r b (compute_intents u).shared (compute_intents-global u ∙ g))
