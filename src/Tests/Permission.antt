-- ===== src/Tests/Permission.antt =====
-- Concrete runs of the safety domain.
use new_robot.Base.{◌≡◌, refl, ◌≢◌, ◌↔◌, String, true, some, [], ◌∷◌, arith}
use new_robot.Base.Int.{pos}
use new_robot.Base.Names.{NameSet, lookup, map_entries, emplace, insert, adjust, contains, add_name}
use new_robot.Base.Outcome.{ok}
use new_robot.Safety.Types.{State, Group, Domain, new_domain}
use new_robot.Safety.Scope.{
  axis_scope, direct_scope, scope, is_active, condition_satisfied, sweep, saturate, restrictions,
  event_restrictions, readiness_restrictions,
}
use new_robot.Safety.Scope.Closure.{Reach, scope-Reach}
use new_robot.Safety.Propagate.{
  prepared, propagate, expire_owner, owner_lapsed, owner_fresh, clear_blockers, apply_restrictions,
  block_all, block_names, blocked, revoked, revoke_all,
}
use new_robot.Safety.Calls.{Call, step, steps}
use new_robot.Safety.Sessions.{permits, is_blocked, run, halt, halted_group}
use new_robot.Safety.Evolution.{Evolves}
use new_robot.Safety.Propagate.Falls.{Falls, propagate-Falls}
use new_robot.Safety.Propagate.Blockers.{propagate-IsBlocked}
use new_robot.Safety.Setup.{non_empty}
use new_robot.Safety.Calls.Moves.{Moved}
use new_robot.Safety.Calls.Steps.{step-Moved}
use new_robot.Safety.Calls.Epochs.{run_only, permits_granted, ended_session}
use new_robot.Safety.Calls.Guards.{IsOpen, permits-IsOpen}
use new_robot.Safety.Calls.Permission.{permits_unreached}
use new_robot.Tests.Fleet.{fleet, collision, jammed, jam}

run_scope : scope (pos 10) fleet collision ≡ ok ("arm" ∷ "base" ∷ [])
unfolding scope direct_scope axis_scope add_name saturate sweep is_active condition_satisfied
    new_domain
run_scope = refl

scope-Reach_example :
    (s : NameSet) × (scope (pos 10) fleet collision ≡ ok s)
    × ((n : String)
        → (contains n s ≡ true)
          ↔ Reach (is_active (pos 10) fleet collision) fleet.associations ("arm" ∷ []) n)
unfolding direct_scope axis_scope add_name new_domain
scope-Reach_example = scope-Reach (pos 10) fleet collision ("arm" ∷ []) refl

propagate-Falls_example : Evolves Falls jammed.groups (propagate (pos 10) jammed).0.groups
propagate-Falls_example = propagate-Falls (pos 10) jammed

-- The state that a permission check leaves in the jammed vehicle.
abbrev after_jam : Domain
after_jam = (permits (pos 10) "base" 3 jammed).0

granted : permits (pos 10) "base" 3 jammed ≡ (after_jam, ok true)
unfolding permits propagate prepared expire_owner owner_lapsed owner_fresh revoke_all clear_blockers
    apply_restrictions block_all block_names blocked revoked restrictions event_restrictions
    readiness_restrictions scope direct_scope axis_scope add_name saturate sweep is_active
    condition_satisfied is_blocked new_domain map_entries emplace insert adjust
granted = refl

through : propagate (pos 10) jammed ≡ (after_jam, ok tt)
through = (permits_granted (pos 10) "base" 3 jammed after_jam granted).0

-- The group before the check.
abbrev base_before : Group
base_before = record { state = State.running; epoch = 3; ready = true; reason = ""; blockers = [] }

permits-IsOpen_example :
    (h : Group) × (lookup "base" after_jam.groups ≡ some h) × IsOpen (pos 10) 3 jammed base_before h
permits-IsOpen_example = permits-IsOpen (pos 10) "base" 3 jammed after_jam base_before refl granted

propagate-IsBlocked_example :
    (names : NameSet) × (scope (pos 10) (prepared (pos 10) jammed) jam ≡ ok names)
    × ((n : String)
        → contains n names ≡ true
        → (g : Group) × (lookup n after_jam.groups ≡ some g) × (non_empty g.blockers ≡ true))
propagate-IsBlocked_example = propagate-IsBlocked (pos 10) jammed after_jam "jam" jam through refl

permits_unreached_example :
    ¬ Reach
      (is_active (pos 10) (prepared (pos 10) jammed) jam)
      (prepared (pos 10) jammed).associations
      ("gripper" ∷ [])
      "base"
unfolding direct_scope axis_scope add_name prepared expire_owner owner_lapsed owner_fresh
    clear_blockers new_domain
permits_unreached_example =
    permits_unreached (pos 10) "base" 3 jammed after_jam "jam" jam ("gripper" ∷ []) granted refl
      refl

step-Moved_example :
    Moved (Call.events collision) fleet (step fleet (pos 10, Call.events collision))
step-Moved_example = step-Moved fleet (pos 10) (Call.events collision)

-- The base is halted, and later armed and run again: the old epoch 3 is not granted.
ended_session_example :
    permits (pos 30) "base" 3 (
      steps
        (steps fleet ((pos 10, Call.halts "base") ∷ []))
        ((pos 20, Call.arms "base") ∷ (pos 21, Call.runs "base") ∷ []))
    ≢ (fleet, ok true)
unfolding steps step halt halted_group new_domain adjust
ended_session_example =
    ended_session fleet ((pos 10, Call.halts "base") ∷ [])
      ((pos 20, Call.arms "base") ∷ (pos 21, Call.runs "base") ∷ []) (pos 30) "base"
      (record { state = State.running; epoch = 3; ready = true; reason = ""; blockers = [] })
      (record { state = State.stopped; epoch = 4; ready = true; reason = "halted"; blockers = [] })
      fleet refl refl (omega arith) refl (λ e. cc e) (omega arith)

abbrev armed_arm : Group
armed_arm = record { state = State.armed; epoch = 2; ready = true; reason = ""; blockers = [] }

abbrev running_arm : Group
running_arm = record armed_arm { state = State.running; reason = "running" }

run_only_example :
    (Call.runs "arm" ≡ Call.runs "arm")
    × (armed_arm.state ≡ State.armed)
    × (running_arm.epoch ≡ armed_arm.epoch)
unfolding step run propagate prepared expire_owner owner_lapsed owner_fresh revoke_all
    clear_blockers apply_restrictions block_all restrictions event_restrictions
    readiness_restrictions is_blocked new_domain map_entries adjust
run_only_example =
    run_only fleet (pos 10) (Call.runs "arm") "arm" armed_arm running_arm refl refl (λ e. cc e) refl
