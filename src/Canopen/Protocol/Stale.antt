-- ===== src/Canopen/Protocol/Stale.antt =====
-- Intents that are not renewed lapse.
use new_robot.Base.{
  ℕ, ◌+◌, ◌^◌, ◌≤◌, ◌<◌, ◌≡◌, refl, sym, ◌∙◌, ◌⊎◌, inl, inr, Bool, ◌||◌, not, List, [], ◌∷◌, length,
  All, if-branches, arith,
}
use new_robot.Cia402.Types.{DriveState}
use new_robot.Cia402.Machine.{decode_state}
use new_robot.Canopen.Shared.{AxisIntent}
use new_robot.Canopen.Protocol.{
  Input, Output, Protocol, lock_position, hold_position, follow_target, step_position_lock,
  held_cycle, opened_cycle, run_cycle, enabled_cycle, switch_cycle, count_stale, effective_intent,
  process, wants_enable, wants_halt, wants_run, uint32_max, first_output,
  compose_enable_operation_controlword,
}
use new_robot.Canopen.Protocol.Gate.{IsHolding, counted, process-IsHolding}

-- The count of stale frames and what it is counted by.
record Keeps (p : Protocol) (r : Protocol × Output) : Type 0 where
  sequence : r.0.last_intent_sequence ≡ p.last_intent_sequence
  frames : r.0.stale_intent_frames ≡ p.stale_intent_frames
  limit : r.0.max_stale_intent_frames ≡ p.max_stale_intent_frames

held_cycle-Keeps :
    (word : ℕ) (halting : Bool) (input : Input) (p : Protocol) (out : Output)
    → Keeps p (held_cycle word halting input (p, out))
unfolding held_cycle hold_position lock_position
held_cycle-Keeps word halting input p out = record { sequence = refl; frames = refl; limit = refl }

opened_cycle-Keeps :
    (word : ℕ) (halting : Bool) (input : Input) (p : Protocol) (out : Output)
    → Keeps p (opened_cycle word halting input (p, out))
unfolding opened_cycle held_cycle hold_position lock_position
opened_cycle-Keeps word halting input p out = record {
  sequence = refl;
  frames = refl;
  limit = refl;
}

step-Keeps :
    (input : Input) (p : Protocol) (out : Output) → Keeps p (step_position_lock input (p, out))
unfolding step_position_lock hold_position lock_position follow_target
step-Keeps input p out = ground arith

run_cycle-Keeps : (input : Input) (p : Protocol) (out : Output) → Keeps p (run_cycle input (p, out))
unfolding run_cycle
run_cycle-Keeps input p out =
    let k =
      step-Keeps input p
        (record out { controlword = compose_enable_operation_controlword input.target_mode }) in
    record { sequence = k.sequence; frames = k.frames; limit = k.limit }

enabled_cycle-Keeps :
    (intent : AxisIntent) (input : Input) (p : Protocol) (out : Output)
    → Keeps p (enabled_cycle intent input (p, out))
unfolding enabled_cycle
enabled_cycle-Keeps intent input p out =
    let K = λ (r : Protocol × Output). Keeps p r in
    if-branches K (not p.was_operation_enabled) (λ _. opened_cycle-Keeps _ _ input p out)
      λ _.
        if-branches K (not (wants_enable intent)) (λ _. held_cycle-Keeps _ _ input p out)
          λ _.
            if-branches K (wants_halt intent || not (wants_run intent))
              (λ _. held_cycle-Keeps _ _ input p out)
              λ _.
                if-branches K p.prev_was_halt (λ _. opened_cycle-Keeps _ _ input p out)
                  λ _. run_cycle-Keeps input p out

switch_cycle-Keeps :
    (s : DriveState) (intent : AxisIntent) (input : Input) (p : Protocol) (out : Output)
    → Keeps p (switch_cycle s intent input (p, out))
unfolding switch_cycle
switch_cycle-Keeps DriveState.not_ready_to_switch_on intent input p out =
    held_cycle-Keeps _ _ input p out
switch_cycle-Keeps DriveState.switch_on_disabled intent input p out =
    held_cycle-Keeps _ _ input p out
switch_cycle-Keeps DriveState.ready_to_switch_on intent input p out =
    held_cycle-Keeps _ _ input p out
switch_cycle-Keeps DriveState.switched_on intent input p out = held_cycle-Keeps _ _ input p out
switch_cycle-Keeps DriveState.operation_enabled intent input p out =
    enabled_cycle-Keeps intent input p out
switch_cycle-Keeps DriveState.fault intent input p out = held_cycle-Keeps _ _ input p out
switch_cycle-Keeps DriveState.fault_reaction_active intent input p out =
    held_cycle-Keeps _ _ input p out
switch_cycle-Keeps DriveState.quick_stop_active intent input p out =
    held_cycle-Keeps _ _ input p out

-- A frame with the old sequence number counts, up to the largest uint32_t.
abbrev Counts : Protocol → Protocol → Type 0
Counts p q =
    (q.last_intent_sequence ≡ p.last_intent_sequence)
    × (q.max_stale_intent_frames ≡ p.max_stale_intent_frames)
    × ((q.stale_intent_frames ≡ p.stale_intent_frames + 1)
        ⊎ ((p.stale_intent_frames ≡ uint32_max) × (q.stale_intent_frames ≡ uint32_max)))

counted-Counts :
    (input : Input) (p : Protocol)
    → input.intent_sequence ≡ p.last_intent_sequence
    → Counts p (counted input p)
unfolding count_stale
counted-Counts input p h = ground arith

Counts-Keeps : (p q : Protocol) (r : Protocol × Output) → Counts p q → Keeps q r → Counts p r.0
Counts-Keeps p q r (a, b, c) k = rw (k.sequence, k.frames, k.limit) (a, b, c)

process-Counts :
    (input : Input) (p : Protocol)
    → input.intent_sequence ≡ p.last_intent_sequence
    → Counts p (process input p).0
unfolding process
process-Counts input p h =
    let s = decode_state input.statusword in
    let q = counted input p in
    let intent = effective_intent input.intent q in
    let out = first_output input p in
    Counts-Keeps p q (switch_cycle s intent input (q, out)) (counted-Counts input p h)
      (switch_cycle-Keeps s intent input q out)

-- So many cycles.
unfoldable pub cycles : Protocol → List Input → Protocol
cycles p [] = p
cycles p (input ∷ inputs) = cycles (process input p).0 inputs

-- Each of them with the sequence number `n`.
abbrev pub AllAt : ℕ → List Input → Type 0
AllAt n inputs = All (λ (input : Input). input.intent_sequence ≡ n) inputs

cycles-stale :
    (p : Protocol) (inputs : List Input)
    → AllAt p.last_intent_sequence inputs
    → ((cycles p inputs).last_intent_sequence ≡ p.last_intent_sequence)
      × ((cycles p inputs).max_stale_intent_frames ≡ p.max_stale_intent_frames)
      × ((p.stale_intent_frames + length inputs ≤ (cycles p inputs).stale_intent_frames)
          ⊎ (uint32_max ≤ (cycles p inputs).stale_intent_frames))
unfolding cycles
cycles-stale p [] h = (refl, refl, inl (omega arith))
cycles-stale p (input ∷ inputs) (h, hs) =
    let q = (process input p).0 in
    let (a, b, c) = process-Counts input p h in
    let (x, y, z) = cycles-stale q inputs (rw a hs) in (x ∙ a, y ∙ b, ground (arith, c, z))

-- A drive whose intent is not renewed is stopped: after as many cycles as stale frames are allowed,
-- all with the old sequence number, each further such cycle holds the axis, whatever the intent and
-- the command.
pub stale-IsHolding :
    (p : Protocol) (inputs : List Input) (input : Input)
    → p.max_stale_intent_frames < 2 ^ 32
    → p.max_stale_intent_frames ≤ length inputs
    → AllAt p.last_intent_sequence inputs
    → input.intent_sequence ≡ p.last_intent_sequence
    → IsHolding input.actual_position (process input (cycles p inputs))
stale-IsHolding p inputs input small long old h =
    let q = cycles p inputs in
    let (a, b, c) = cycles-stale p inputs old in
    let (x, y, z) = counted-Counts input q (h ∙ sym a) in
    elim (process-IsHolding input q) [
      | inl held ↦ held
      | inr (_, running, _) ↦ absurd (ground (arith, small, long, b, c, y, z, running))
    ]
