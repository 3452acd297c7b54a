-- ===== src/Canopen/Calls/Health.antt =====
-- What the coordinator's guards and its latch promise of the axes.
use new_robot.Base.{
  ℕ, zero, suc, ◌+◌, ◌<◌, ◌≡◌, refl, sym, ap, ◌∙◌, ◌≢◌, ◌⊎◌, inl, inr, Bool, true, false, ◌||◌,
  none, some, String, List, [], ◌∷◌, any_of, Bool-cases, Option-cases, arith,
}
use new_robot.Canopen.Shared.{
  AxisFeedback, at_index, set_global_fault, set_all_axes_halted_by_fault,
}
use new_robot.Canopen.Coordinator.{
  SystemOpMode, mode_eq, MasterOps, Coordinator, Reply, Action, master_running, first_complaint,
  check_healthy_for_motion, concluded, do_transition,
}
use new_robot.Canopen.Requests.{
  motion_action, request_release, first_unhealthy, recover_action, request_recover,
  update_from_feedback,
}
use new_robot.Canopen.Calls.{Request, handle}
use new_robot.Canopen.Calls.Transition.{transition-cases}
use new_robot.Canopen.Calls.Recovery.{RecoverDone, recover_action-outcome}
use new_robot.Canopen.Calls.Modes.{ModeStep, motion_action-same, handle-ModeStep}

-- No fault and a heartbeat.
abbrev pub IsWell : AxisFeedback → Type 0
IsWell fb = (fb.is_fault ≡ false) × (fb.heartbeat_lost ≡ false)

-- The first `n` axes are well.
abbrev pub AllWell : ℕ → List AxisFeedback → Type 0
AllWell n fbs = (i : ℕ) (fb : AxisFeedback) → i < n → at_index i fbs ≡ some fb → IsWell fb

same_axis : {a b : AxisFeedback} → some a ≡ some b → a ≡ b
same_axis e = ground arith

AllWell-∷ :
    (n : ℕ) (fb : AxisFeedback) (fbs : List AxisFeedback)
    → IsWell fb
    → AllWell n fbs
    → AllWell (suc n) (fb ∷ fbs)
AllWell-∷ n fb fbs w h zero x small e = rw (same_axis e) at w
AllWell-∷ n fb fbs w h (suc i) x small e = h i x (omega (arith, small)) e

first_unhealthy-AllWell :
    (n j : ℕ) (fbs : List AxisFeedback) → first_unhealthy n j fbs ≡ none → AllWell n fbs
unfolding first_unhealthy
first_unhealthy-AllWell zero j fbs h = λ i fb small e. absurd (omega (arith, small))
first_unhealthy-AllWell (suc n) j [] h = λ i fb small e. absurd (cc e)
first_unhealthy-AllWell (suc n) j (fb ∷ fbs) h =
    let (w, rest) : IsWell fb × (first_unhealthy n (j + 1) fbs ≡ none) = ground arith in
    AllWell-∷ n fb fbs w (first_unhealthy-AllWell n (j + 1) fbs rest)

first_complaint-AllWell :
    (n j : ℕ) (fbs : List AxisFeedback) → first_complaint n j fbs ≡ none → AllWell n fbs
unfolding first_complaint
first_complaint-AllWell zero j fbs h = λ i fb small e. absurd (omega (arith, small))
first_complaint-AllWell (suc n) j [] h = λ i fb small e. absurd (cc e)
first_complaint-AllWell (suc n) j (fb ∷ fbs) h =
    let (w, rest) : IsWell fb × (first_complaint n (j + 1) fbs ≡ none) = ground arith in
    AllWell-∷ n fb fbs w (first_complaint-AllWell n (j + 1) fbs rest)

-- What lets the vehicle move.
abbrev pub MayRun : MasterOps → Coordinator → Type 0
MayRun ops c =
    (master_running ops c.shared ≡ true)
    × (c.shared.global_fault ≡ false)
    × AllWell c.axis_count c.shared.feedback

motion_action-MayRun :
    (ops : MasterOps) (c : Coordinator) → (motion_action ops c).1 ≡ true → MayRun ops c
unfolding motion_action check_healthy_for_motion
motion_action-MayRun ops c h = elim (Bool-cases (master_running ops c.shared)) [
  | inr e ↦ absurd (cc (rw (e, motion_action) at h))
  | inl e ↦
      let h' : (check_healthy_for_motion c).0 ≡ true = rw (e, motion_action) at h in
      elim (Bool-cases c.shared.global_fault) [
        | inl g ↦ absurd (cc (rw (g, check_healthy_for_motion) at h'))
        | inr g ↦ elim (Option-cases (first_complaint c.axis_count 0 c.shared.feedback)) [
          | inl f ↦ (e, g, first_complaint-AllWell c.axis_count 0 c.shared.feedback f)
          | inr (text, f) ↦ absurd (cc (rw (g, f, check_healthy_for_motion) at h'))
        ]
      ]
]

released_step :
    {r : Request} {a b : SystemOpMode}
    → ModeStep r a b
    → a ≢ SystemOpMode.running
    → b ≡ SystemOpMode.running
    → (r ≡ Request.releases) × (a ≡ SystemOpMode.armed)
released_step ModeStep.stays n e = absurd (n e)
released_step ModeStep.released n e = (refl, refl)
released_step _ n e = absurd (cc e)

release-MayRun :
    (ops : MasterOps) (c : Coordinator)
    → c.mode ≢ SystemOpMode.running
    → (request_release ops c).0.mode ≡ SystemOpMode.running
    → MayRun ops c
unfolding request_release
release-MayRun ops c n =
    transition-cases (λ x. x.mode ≡ SystemOpMode.running → MayRun ops c) SystemOpMode.running
      (SystemOpMode.armed ∷ []) (motion_action ops) c (λ e. absurd (n e))
      (λ a b e. motion_action-MayRun ops c b)
      λ a b e. absurd (n (sym (ap (λ (x : Coordinator). x.mode) (motion_action-same ops c)) ∙ e))

-- The vehicle comes to run by one call alone, RequestRelease out of Armed, and only while the
-- master runs, no global fault is latched and every axis is well.
pub handle-MayRun :
    (ops : MasterOps) (c : Coordinator) (r : Request)
    → c.mode ≢ SystemOpMode.running
    → (handle ops c r).mode ≡ SystemOpMode.running
    → (r ≡ Request.releases) × (c.mode ≡ SystemOpMode.armed) × MayRun ops c
unfolding handle
handle-MayRun ops c r n e =
    let (is_release, armed) = released_step (handle-ModeStep ops c r) n e in
    (is_release, armed, release-MayRun ops c n (rw is_release at e))

do_transition-allowed :
    (allowed : List SystemOpMode) (to : SystemOpMode) (action : Action) (c : Coordinator)
    → any_of (λ from. mode_eq from c.mode) allowed ≡ true
    → do_transition allowed to action c ≡ concluded to (action c)
unfolding do_transition
do_transition-allowed allowed to action c e = rw e refl

-- What RequestRecover's caller sees.
abbrev pub Outcome : Coordinator × Reply → Type 0
Outcome (c, reply) =
    ((reply.ok ≡ true)
      × (c.mode ≡ SystemOpMode.standby)
      × AllWell c.axis_count c.shared.feedback
      × (c.shared.global_fault ≡ false)
      × (c.shared.all_axes_halted_by_fault ≡ false))
    ⊎ ((reply.ok ≡ false) × (c.mode ≡ SystemOpMode.faulted))

concluded-Outcome :
    (x : Coordinator × Bool × String)
    → RecoverDone x.0 x.1
    → Outcome (concluded SystemOpMode.standby x)
unfolding concluded
concluded-Outcome (c, true, text) (inl (_, w, g, h)) =
    inl (refl, refl, first_unhealthy-AllWell c.axis_count 0 c.shared.feedback w, g, h)
concluded-Outcome (c, true, text) (inr (f, _)) = absurd (cc f)
concluded-Outcome (c, false, text) (inl (f, _, _, _)) = absurd (cc f)
concluded-Outcome (c, false, text) (inr (_, g)) = inr (refl, g)

from_faulted :
    (m : SystemOpMode)
    → m ≡ SystemOpMode.faulted
    → any_of (λ from. mode_eq from m) (SystemOpMode.faulted ∷ []) ≡ true
from_faulted m h = rw h refl

-- A recovery asked for in Faulted ends in Standby with every axis well and both latches clear, or
-- in Faulted with the reply false: it never stays in Recovering.
pub request_recover-Outcome :
    (ops : MasterOps) (early : List (List AxisFeedback)) (last : List AxisFeedback)
    (c : Coordinator)
    → c.mode ≡ SystemOpMode.faulted
    → Outcome (request_recover ops early last c)
unfolding request_recover
request_recover-Outcome ops early last c h =
    rw
      (do_transition-allowed (SystemOpMode.faulted ∷ []) SystemOpMode.standby
        (recover_action ops early last) c (from_faulted c.mode h))
      (concluded-Outcome (recover_action ops early last c)
        (recover_action-outcome ops early last c h))

-- In Armed or Running, one axis below the count with a fault or without a heartbeat is enough:
-- the mode falls to Faulted and both latches are set.
pub update_from_feedback-faults :
    (c : Coordinator) (i : ℕ) (fb : AxisFeedback)
    → (c.mode ≡ SystemOpMode.armed) ⊎ (c.mode ≡ SystemOpMode.running)
    → i < c.axis_count
    → at_index i c.shared.feedback ≡ some fb
    → (fb.is_fault || fb.heartbeat_lost) ≡ true
    → let c' = update_from_feedback c in
      (c'.mode ≡ SystemOpMode.faulted)
      × (c'.shared.global_fault ≡ true)
      × (c'.shared.all_axes_halted_by_fault ≡ true)
unfolding update_from_feedback set_global_fault set_all_axes_halted_by_fault
update_from_feedback-faults c i fb moving small found bad =
    elim (Option-cases (first_unhealthy c.axis_count 0 c.shared.feedback)) [
      | inl f ↦
          let w = first_unhealthy-AllWell c.axis_count 0 c.shared.feedback f i fb small found in
          absurd (ground arith)
      | inr (_, f) ↦ elim moving [
        | inl e ↦ rw e (rw f (refl, refl, refl))
        | inr e ↦ rw e (rw f (refl, refl, refl))
      ]
    ]
