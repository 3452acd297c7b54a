-- ===== src/Canopen/Lifecycle.antt =====
-- The lifecycle manager: src/lifecycle_manager.cpp. The three owned pointers are made together in
-- Configure and dropped together in Shutdown, so one Option stands for them; it holds the shared
-- state. The configuration is any type `C` with its axis count and its default value, and the
-- master is a record of what its calls do to the shared state.
pub mod Consistent
use Prim.Native.String.{◌++◌ as append}
use new_robot.Base.{
  ℕ, String, Bool, true, false, ◌||◌, not, ◌==◌, Option, none, some, any_of, ltb, is_empty,
  if◌then◌else◌,
}
use new_robot.Canopen.Shared.{AxisFeedback, SharedState, new_shared_state, max_axis_count}
use new_robot.Canopen.Coordinator.{Answer, or_text}
use new_robot.Canopen.Requests.{latch}

pub data LifecycleState : Type 0 where
  unconfigured configured active shutting_down : LifecycleState

pub record MasterCalls : Type 0 where
  pub start : SharedState → SharedState × Bool
  pub enable_all : SharedState → SharedState × Bool
  pub halt_all : SharedState → SharedState × Bool
  pub resume_all : SharedState → SharedState × Bool
  pub running : SharedState → Bool
  pub reset_all_faults : SharedState → Answer
  pub graceful_shutdown : SharedState → Answer
  pub stop : SharedState → SharedState

pub record LifecycleManager (C : Type 0) : Type 0 where
  pub state : LifecycleState
  pub ever_initialized : Bool
  pub config : C
  pub resources : Option SharedState

abbrev pub has_fault : AxisFeedback → Bool
has_fault fb = fb.is_fault

-- What keeps Resume from resuming, in the source's order.
unfoldable pub resume_rejected : MasterCalls → SharedState → Bool
resume_rejected calls s =
    s.global_fault
    || s.all_axes_halted_by_fault
    || not (calls.running s)
    || any_of has_fault s.feedback

abbrev joined_detail : String → String
joined_detail detail =
    append (if is_empty detail then "" else append detail "; ")
      "fault cleared; call ~/resume to re-enable"

-- The calls of the interface.
pub data LifecycleCall (C : Type 0) : Type 0 where
  configures inits : C → LifecycleCall C
  loads : Option C → LifecycleCall C
  inits_motors halts resumes stops recovers shuts_down : LifecycleCall C

module _ {C : Type 0} where
  unfoldable pub configure : (C → ℕ) → C → LifecycleManager C → LifecycleManager C × Bool
  configure axis_count config l = elim l.state [
    | LifecycleState.unconfigured ↦
        let n = axis_count config in
        if n == 0 || ltb max_axis_count n then (record l { config = config }, false) else (
          record l {
            config = config;
            resources = some (new_shared_state n);
            state = LifecycleState.configured;
            ever_initialized = false;
          },
          true,
        )
    | _ ↦ (l, false)
  ]

  -- From the call of Start on.
  unfoldable pub start_motors :
      MasterCalls → SharedState → LifecycleManager C → LifecycleManager C × Bool
  start_motors calls s l =
      let (started_s, started) = calls.start s in
      let (s', enabled) = calls.enable_all started_s in
      if not started
      then (record l { resources = some started_s }, false)
      else if not enabled
      then (record l { resources = some (calls.stop s') }, false)
      else (
        record l { resources = some s'; state = LifecycleState.active; ever_initialized = true },
        true,
      )

  unfoldable pub init_motors : MasterCalls → LifecycleManager C → LifecycleManager C × Bool
  init_motors calls l = elim l.state [
    | LifecycleState.configured ↦ elim l.resources [
      | none ↦ (l, false)
      | some s ↦ start_motors calls s l
    ]
    | _ ↦ (l, false)
  ]

  -- Stopping the master is on the shared state that is dropped next.
  unfoldable pub shutdown : C → LifecycleManager C → LifecycleManager C × Bool
  shutdown blank l = elim l.state [
    | LifecycleState.unconfigured ↦ (l, true)
    | _ ↦ (
      record {
        state = LifecycleState.unconfigured;
        ever_initialized = false;
        config = blank;
        resources = none;
      },
      true,
    )
  ]

  -- Init after Configure: a failure of the motors goes back to Unconfigured.
  unfoldable pub init_rest : MasterCalls → C → LifecycleManager C × Bool → LifecycleManager C × Bool
  init_rest calls blank (l, ready) =
      let (l', up) = init_motors calls l in
      if not ready
      then (l, false)
      else if not up
      then ((shutdown blank l').0, false)
      else (l', true)

  unfoldable pub init :
      MasterCalls → (C → ℕ) → C → C → LifecycleManager C → LifecycleManager C × Bool
  init calls axis_count blank config l = elim l.state [
    | LifecycleState.unconfigured ↦ init_rest calls blank (configure axis_count config l)
    | _ ↦ (l, false)
  ]

  -- Init from files; `loaded` is what LoadJointsYaml makes of them.
  unfoldable pub init_from_files :
      MasterCalls → (C → ℕ) → C → Option C → LifecycleManager C → LifecycleManager C × Bool
  init_from_files calls axis_count blank loaded l = elim l.state [
    | LifecycleState.unconfigured ↦ elim loaded [
      | none ↦ (l, false)
      | some config ↦ init calls axis_count blank config l
    ]
    | _ ↦ (l, false)
  ]

  unfoldable pub halt : MasterCalls → LifecycleManager C → LifecycleManager C × Bool
  halt calls l = elim l.state [
    | LifecycleState.active ↦ elim l.resources [
      | none ↦ (l, false)
      | some s ↦
          let (s', halted) = calls.halt_all s in
          if not (calls.running s) then (l, false) else (record l { resources = some s' }, halted)
    ]
    | _ ↦ (l, false)
  ]

  unfoldable pub resume : MasterCalls → LifecycleManager C → LifecycleManager C × Bool
  resume calls l = elim l.state [
    | LifecycleState.active ↦ elim l.resources [
      | none ↦ (l, false)
      | some s ↦
          let (s', resumed) = calls.resume_all s in
          if resume_rejected calls s
          then (l, false)
          else (record l { resources = some s' }, resumed)
    ]
    | _ ↦ (l, false)
  ]

  unfoldable pub stop_resources :
      MasterCalls → SharedState → LifecycleManager C → LifecycleManager C × Bool × String
  stop_resources calls s l =
      let a =
        if calls.running s
        then calls.graceful_shutdown s
        else record { shared = s; ok = true; detail = "" } in
      (
        record l {
          resources = some (latch false (calls.stop a.shared));
          state = LifecycleState.configured;
        },
        a.ok,
        if a.ok then "" else a.detail,
      )

  unfoldable pub stop_owned :
      MasterCalls → Option SharedState → LifecycleManager C → LifecycleManager C × Bool × String
  stop_owned calls none l = (l, false, "master is null")
  stop_owned calls (some s) l = stop_resources calls s l

  unfoldable pub stop_communication :
      MasterCalls → LifecycleManager C → LifecycleManager C × Bool × String
  stop_communication calls l = elim l.state [
    | LifecycleState.active ↦ stop_owned calls l.resources l
    | LifecycleState.configured ↦ stop_owned calls l.resources l
    | _ ↦ (l, false, "invalid lifecycle state")
  ]

  -- From the call of ResetAllFaults on.
  unfoldable pub recover_resources :
      MasterCalls → SharedState → LifecycleManager C → LifecycleManager C × Bool × String
  recover_resources calls s l =
      let a = calls.reset_all_faults s in
      let kept = record l { resources = some (latch true a.shared) } in
      if not a.ok
      then (kept, false, or_text a.detail "fault reset failed, try ~/init to reinitialize")
      else if any_of has_fault a.shared.feedback
      then (kept, false, or_text a.detail "recover incomplete: fault still present")
      else (record l { resources = some (latch false a.shared) }, true, joined_detail a.detail)

  unfoldable pub recover : MasterCalls → LifecycleManager C → LifecycleManager C × Bool × String
  recover calls l = elim l.state [
    | LifecycleState.active ↦ elim l.resources [
      | none ↦ (l, false, "master not running")
      | some s ↦
          if not (calls.running s)
          then (l, false, "master not running")
          else recover_resources calls s l
    ]
    | _ ↦ (l, false, "recover requires Active state")
  ]

  unfoldable pub run_call :
      MasterCalls → (C → ℕ) → C → LifecycleManager C → LifecycleCall C → LifecycleManager C
  run_call calls axis_count blank l (LifecycleCall.configures config) =
      (configure axis_count config l).0
  run_call calls axis_count blank l (LifecycleCall.inits config) =
      (init calls axis_count blank config l).0
  run_call calls axis_count blank l (LifecycleCall.loads loaded) =
      (init_from_files calls axis_count blank loaded l).0
  run_call calls axis_count blank l LifecycleCall.inits_motors = (init_motors calls l).0
  run_call calls axis_count blank l LifecycleCall.halts = (halt calls l).0
  run_call calls axis_count blank l LifecycleCall.resumes = (resume calls l).0
  run_call calls axis_count blank l LifecycleCall.stops = (stop_communication calls l).0
  run_call calls axis_count blank l LifecycleCall.recovers = (recover calls l).0
  run_call calls axis_count blank l LifecycleCall.shuts_down = (shutdown blank l).0
