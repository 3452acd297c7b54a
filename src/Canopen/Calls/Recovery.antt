-- ===== src/Canopen/Calls/Recovery.antt =====
-- What RequestRecover comes to.
use new_robot.Base.{
  ◌≡◌, refl, ◌⊎◌, inl, inr, Bool, true, false, none, List, [], ◌∷◌, Bool-cases, Option-cases,
  String,
}
use new_robot.Canopen.Shared.{
  AxisFeedback, advance_command_sync_sequence, set_all_axes_halted_by_fault, set_global_fault,
}
use new_robot.Canopen.Coordinator.{
  SystemOpMode, MasterOps, Coordinator, master_running, master_reset_all_faults,
}
use new_robot.Canopen.Requests.{first_unhealthy, recover_wait, recover_action}

-- The wait ends with every axis well, or in Faulted.
abbrev WaitDone : Coordinator → Coordinator × Bool × String → Type 0
WaitDone c r =
    ((r.1 ≡ true) × (first_unhealthy r.0.axis_count 0 r.0.shared.feedback ≡ none))
    ⊎ ((r.1 ≡ false) × (r.0.mode ≡ SystemOpMode.faulted))

recover_wait-outcome :
    (early : List (List AxisFeedback)) (last : List AxisFeedback) (c : Coordinator)
    → WaitDone c (recover_wait early last c)
unfolding recover_wait
recover_wait-outcome [] last c = elim (Option-cases (first_unhealthy c.axis_count 0 last)) [
  | inl e ↦ rw (e, recover_wait) (inl (refl, e))
  | inr (bad, e) ↦ rw (e, recover_wait) (inr (refl, refl))
]
recover_wait-outcome (fbs ∷ early) last c =
    elim (Option-cases (first_unhealthy c.axis_count 0 fbs)) [
      | inl e ↦ rw (e, recover_wait) (inl (refl, e))
      | inr (bad, e) ↦ rw (e, recover_wait) (recover_wait-outcome early last c)
    ]

-- What a recovery comes to.
abbrev pub RecoverDone : Coordinator → Bool → Type 0
RecoverDone c fine =
    ((fine ≡ true)
      × (first_unhealthy c.axis_count 0 c.shared.feedback ≡ none)
      × (c.shared.global_fault ≡ false)
      × (c.shared.all_axes_halted_by_fault ≡ false))
    ⊎ ((fine ≡ false) × (c.mode ≡ SystemOpMode.faulted))

pub recover_action-outcome :
    (ops : MasterOps) (early : List (List AxisFeedback)) (last : List AxisFeedback)
    (c : Coordinator)
    → c.mode ≡ SystemOpMode.faulted
    → let r = recover_action ops early last c in RecoverDone r.0 r.1
unfolding recover_action advance_command_sync_sequence set_all_axes_halted_by_fault set_global_fault
recover_action-outcome ops early last c h =
    let a = master_reset_all_faults ops c.shared in
    let c' = record c { mode = SystemOpMode.recovering; shared = a.shared } in
    elim (Bool-cases (master_running ops c.shared)) [
      | inr e ↦ rw e (inr (refl, h))
      | inl e ↦ elim (Bool-cases a.ok) [
        | inr f ↦ rw e (rw f (inr (refl, refl)))
        | inl f ↦ elim (recover_wait-outcome early last c') [
          | inl (g, well) ↦ rw e (rw f (rw g (inl (refl, well, refl, refl))))
          | inr (g, fell) ↦ rw e (rw f (rw g (inr (refl, fell))))
        ]
      ]
    ]
