-- ===== src/Tests/Manager.antt =====
-- Concrete runs of the lifecycle manager; a configuration is its axis count.
use new_robot.Base.{ℕ, ◌≡◌, refl, ◌⊎◌, inl, Bool, true, false, some, none, any_of}
use new_robot.Canopen.Shared.{SharedState, new_shared_state}
use new_robot.Canopen.Coordinator.{Answer}
use new_robot.Canopen.Lifecycle.{
  LifecycleState, MasterCalls, LifecycleManager, LifecycleCall, run_call, init, resume,
  resume_rejected, has_fault,
}
use new_robot.Canopen.Lifecycle.Consistent.{
  IsConsistent, run_call-IsConsistent, init_all_or_nothing, resume-safe,
}

abbrev fine : SharedState → SharedState × Bool
fine s = (s, true)

abbrev answers : SharedState → Answer
answers s = record { shared = s; ok = true; detail = "" }

-- A master that starts, but cannot enable its drives when `enables` is false.
abbrev master : Bool → MasterCalls
master enables = record {
  start = fine;
  enable_all = λ s. (s, enables);
  halt_all = fine;
  resume_all = fine;
  running = λ s. true;
  reset_all_faults = answers;
  graceful_shutdown = answers;
  stop = λ s. s;
}

abbrev count : ℕ → ℕ
count n = n

abbrev fresh : LifecycleManager ℕ
fresh = record {
  state = LifecycleState.unconfigured;
  ever_initialized = false;
  config = 0;
  resources = none;
}

abbrev up : LifecycleManager ℕ
up = record fresh { state = LifecycleState.active; resources = some (new_shared_state 6) }

run_call-IsConsistent_example :
    IsConsistent (run_call (master false) count 0 fresh (LifecycleCall.inits 6))
run_call-IsConsistent_example =
    run_call-IsConsistent (master false) count 0 fresh (LifecycleCall.inits 6) (inl (refl, refl))

init_all_or_nothing_example :
    (((init (master false) count 0 6 fresh).1 ≡ true)
      × ((init (master false) count 0 6 fresh).0.state ≡ LifecycleState.active))
    ⊎ (((init (master false) count 0 6 fresh).1 ≡ false)
        × ((init (master false) count 0 6 fresh).0.state ≡ LifecycleState.unconfigured))
init_all_or_nothing_example = init_all_or_nothing (master false) count 0 6 fresh refl

resume-safe_example :
    (up.state ≡ LifecycleState.active)
    × (s : SharedState) × (up.resources ≡ some s)
    × ((master true).running s ≡ true)
    × (s.global_fault ≡ false)
    × (s.all_axes_halted_by_fault ≡ false)
    × (any_of has_fault s.feedback ≡ false)
unfolding resume resume_rejected new_shared_state
resume-safe_example = resume-safe (master true) up refl
