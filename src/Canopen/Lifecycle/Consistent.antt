-- ===== src/Canopen/Lifecycle/Consistent.antt =====
-- The lifecycle manager owns its parts exactly when it is configured.
use new_robot.Base.{
  ℕ, ◌≡◌, refl, sym, ◌∙◌, ◌⊎◌, inl, inr, Bool, true, false, Option, none, some, any_of, Bool-cases,
  arith,
}
use new_robot.Canopen.Shared.{SharedState}
use new_robot.Canopen.Lifecycle.{
  LifecycleState, MasterCalls, LifecycleManager, has_fault, configure, start_motors, init_motors,
  shutdown, init_rest, init, init_from_files, halt, resume_rejected, resume, stop_resources,
  stop_owned, stop_communication, recover_resources, recover, LifecycleCall, run_call,
}

module _ {C : Type 0} where
  -- Nothing is owned in Unconfigured, and everything in Configured and Active; ShuttingDown is
  -- never seen between two calls.
  abbrev pub IsConsistent : LifecycleManager C → Type 0
  IsConsistent l =
      ((l.state ≡ LifecycleState.unconfigured) × (l.resources ≡ none))
      ⊎ ((l.state ≡ LifecycleState.configured) × (s : SharedState) × (l.resources ≡ some s))
      ⊎ ((l.state ≡ LifecycleState.active) × (s : SharedState) × (l.resources ≡ some s))

  configure-IsConsistent :
      (axis_count : C → ℕ) (config : C) (l : LifecycleManager C)
      → IsConsistent l
      → IsConsistent (configure axis_count config l).0
  unfolding configure
  configure-IsConsistent axis_count config l h = ground arith

  start-IsConsistent :
      (calls : MasterCalls) (s : SharedState) (l : LifecycleManager C)
      → l.state ≡ LifecycleState.configured
      → IsConsistent (start_motors calls s l).0
  unfolding start_motors
  start-IsConsistent calls s l h = elim (Bool-cases (calls.start s).1) [
    | inr e ↦ rw e (inr (inl (h, _, refl)))
    | inl e ↦ elim (Bool-cases (calls.enable_all (calls.start s).0).1) [
      | inr f ↦ rw e (rw f (inr (inl (h, _, refl))))
      | inl f ↦ rw e (rw f (inr (inr (refl, _, refl))))
    ]
  ]

  init_motors-IsConsistent :
      (calls : MasterCalls) (l : LifecycleManager C)
      → IsConsistent l
      → IsConsistent (init_motors calls l).0
  unfolding init_motors
  init_motors-IsConsistent calls l h = elim h [
    | inl (e, f) ↦ rw (e, init_motors) (inl (e, f))
    | inr (inl (e, s, f)) ↦ rw (e, f, init_motors) (start-IsConsistent calls s l e)
    | inr (inr (e, s, f)) ↦ rw (e, init_motors) (inr (inr (e, s, f)))
  ]

  shutdown-IsConsistent :
      (blank : C) (l : LifecycleManager C) → IsConsistent l → IsConsistent (shutdown blank l).0
  unfolding shutdown
  shutdown-IsConsistent blank l h = ground arith

  init_rest-IsConsistent :
      (calls : MasterCalls) (blank : C) (r : LifecycleManager C × Bool)
      → IsConsistent r.0
      → IsConsistent (init_rest calls blank r).0
  unfolding init_rest
  init_rest-IsConsistent calls blank (l, false) h = h
  init_rest-IsConsistent calls blank (l, true) h = elim (Bool-cases (init_motors calls l).1) [
    | inl e ↦ rw e (init_motors-IsConsistent calls l h)
    | inr e ↦
        rw e
          (shutdown-IsConsistent blank (init_motors calls l).0 (init_motors-IsConsistent calls l h))
  ]

  init-IsConsistent :
      (calls : MasterCalls) (axis_count : C → ℕ) (blank config : C) (l : LifecycleManager C)
      → IsConsistent l
      → IsConsistent (init calls axis_count blank config l).0
  unfolding init
  init-IsConsistent calls axis_count blank config l h = elim h [
    | inl (e, f) ↦
        rw (e, init)
          (init_rest-IsConsistent calls blank (configure axis_count config l)
            (configure-IsConsistent axis_count config l (inl (e, f))))
    | inr (inl (e, s, f)) ↦ rw (e, init) (inr (inl (e, s, f)))
    | inr (inr (e, s, f)) ↦ rw (e, init) (inr (inr (e, s, f)))
  ]

  init_from_files-IsConsistent :
      (calls : MasterCalls) (axis_count : C → ℕ) (blank : C) (loaded : Option C)
      (l : LifecycleManager C)
      → IsConsistent l
      → IsConsistent (init_from_files calls axis_count blank loaded l).0
  unfolding init_from_files
  init_from_files-IsConsistent calls axis_count blank none l h = elim h [
    | inl (e, f) ↦ rw (e, init_from_files) (inl (e, f))
    | inr (inl (e, s, f)) ↦ rw (e, init_from_files) (inr (inl (e, s, f)))
    | inr (inr (e, s, f)) ↦ rw (e, init_from_files) (inr (inr (e, s, f)))
  ]
  init_from_files-IsConsistent calls axis_count blank (some config) l h = elim h [
    | inl (e, f) ↦
        rw (e, init_from_files) (init-IsConsistent calls axis_count blank config l (inl (e, f)))
    | inr (inl (e, s, f)) ↦ rw (e, init_from_files) (inr (inl (e, s, f)))
    | inr (inr (e, s, f)) ↦ rw (e, init_from_files) (inr (inr (e, s, f)))
  ]

  halt-IsConsistent :
      (calls : MasterCalls) (l : LifecycleManager C)
      → IsConsistent l
      → IsConsistent (halt calls l).0
  unfolding halt
  halt-IsConsistent calls l h = ground arith

  resume-IsConsistent :
      (calls : MasterCalls) (l : LifecycleManager C)
      → IsConsistent l
      → IsConsistent (resume calls l).0
  unfolding resume
  resume-IsConsistent calls l h = ground arith

  stop-IsConsistent :
      (calls : MasterCalls) (l : LifecycleManager C)
      → IsConsistent l
      → IsConsistent (stop_communication calls l).0
  unfolding stop_communication stop_owned stop_resources
  stop-IsConsistent calls l h = ground arith

  recover-IsConsistent :
      (calls : MasterCalls) (l : LifecycleManager C)
      → IsConsistent l
      → IsConsistent (recover calls l).0
  unfolding recover recover_resources
  recover-IsConsistent calls l h = ground arith

  -- Every call, successful or not, leaves the manager consistent: it owns its parts exactly in
  -- Configured and Active, and it is never left in ShuttingDown.
  pub run_call-IsConsistent :
      (calls : MasterCalls) (axis_count : C → ℕ) (blank : C) (l : LifecycleManager C)
      (c : LifecycleCall C)
      → IsConsistent l
      → IsConsistent (run_call calls axis_count blank l c)
  unfolding run_call
  run_call-IsConsistent calls axis_count blank l (LifecycleCall.configures x) h =
      configure-IsConsistent axis_count x l h
  run_call-IsConsistent calls axis_count blank l (LifecycleCall.inits x) h =
      init-IsConsistent calls axis_count blank x l h
  run_call-IsConsistent calls axis_count blank l (LifecycleCall.loads x) h =
      init_from_files-IsConsistent calls axis_count blank x l h
  run_call-IsConsistent calls axis_count blank l LifecycleCall.inits_motors h =
      init_motors-IsConsistent calls l h
  run_call-IsConsistent calls axis_count blank l LifecycleCall.halts h = halt-IsConsistent calls l h
  run_call-IsConsistent calls axis_count blank l LifecycleCall.resumes h =
      resume-IsConsistent calls l h
  run_call-IsConsistent calls axis_count blank l LifecycleCall.stops h = stop-IsConsistent calls l h
  run_call-IsConsistent calls axis_count blank l LifecycleCall.recovers h =
      recover-IsConsistent calls l h
  run_call-IsConsistent calls axis_count blank l LifecycleCall.shuts_down h =
      shutdown-IsConsistent blank l h

  shutdown-state :
      (blank : C) (l : LifecycleManager C)
      → (shutdown blank l).0.state ≡ LifecycleState.unconfigured
  unfolding shutdown
  shutdown-state blank l = ground arith

  init_motors-active :
      (calls : MasterCalls) (l : LifecycleManager C)
      → (init_motors calls l).1 ≡ true
      → (init_motors calls l).0.state ≡ LifecycleState.active
  unfolding init_motors start_motors
  init_motors-active calls l h = ground arith

  init_rest_cases :
      (calls : MasterCalls) (blank : C) (r : LifecycleManager C × Bool)
      → (r.0.state ≡ LifecycleState.unconfigured) ⊎ (r.1 ≡ true)
      → (((init_rest calls blank r).1 ≡ true)
          × ((init_rest calls blank r).0.state ≡ LifecycleState.active))
        ⊎ (((init_rest calls blank r).1 ≡ false)
            × ((init_rest calls blank r).0.state ≡ LifecycleState.unconfigured))
  unfolding init_rest
  init_rest_cases calls blank r h = elim (Bool-cases r.1) [
    | inr e ↦ elim h [ inl f ↦ rw e (inr (refl, f)) | inr f ↦ absurd (cc (sym e ∙ f)) ]
    | inl e ↦ elim (Bool-cases (init_motors calls r.0).1) [
      | inl f ↦ rw e (rw f (inl (refl, init_motors-active calls r.0 f)))
      | inr f ↦ rw e (rw f (inr (refl, shutdown-state blank (init_motors calls r.0).0)))
    ]
  ]

  configure_cases :
      (axis_count : C → ℕ) (config : C) (l : LifecycleManager C)
      → l.state ≡ LifecycleState.unconfigured
      → ((configure axis_count config l).0.state ≡ LifecycleState.unconfigured)
        ⊎ ((configure axis_count config l).1 ≡ true)
  unfolding configure
  configure_cases axis_count config l h = ground arith

  -- In Unconfigured, Init succeeds and is Active, or fails and is back in Unconfigured.
  pub init_all_or_nothing :
      (calls : MasterCalls) (axis_count : C → ℕ) (blank config : C) (l : LifecycleManager C)
      → l.state ≡ LifecycleState.unconfigured
      → (((init calls axis_count blank config l).1 ≡ true)
          × ((init calls axis_count blank config l).0.state ≡ LifecycleState.active))
        ⊎ (((init calls axis_count blank config l).1 ≡ false)
            × ((init calls axis_count blank config l).0.state ≡ LifecycleState.unconfigured))
  unfolding init
  init_all_or_nothing calls axis_count blank config l h =
      rw (h, init)
        (init_rest_cases calls blank (configure axis_count config l)
          (configure_cases axis_count config l h))

  -- A resume that succeeds found the manager Active and its master running, with neither latch
  -- set and no axis in fault.
  pub resume-safe :
      (calls : MasterCalls) (l : LifecycleManager C)
      → (resume calls l).1 ≡ true
      → (l.state ≡ LifecycleState.active)
        × (s : SharedState) × (l.resources ≡ some s)
        × (calls.running s ≡ true)
        × (s.global_fault ≡ false)
        × (s.all_axes_halted_by_fault ≡ false)
        × (any_of has_fault s.feedback ≡ false)
  unfolding resume resume_rejected
  resume-safe calls l h = ground arith
