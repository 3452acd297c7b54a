-- ===== src/Hybrid/Rollback.antt =====
-- What a request to both backends comes to.
use new_robot.Base.{
  ◌≡◌, refl, ◌⊎◌, inl, inr, String, Bool, true, false, ◌&&◌, not, if-branches, arith,
}
use new_robot.Canopen.Coordinator.{SystemOpMode, mode_eq}
use new_robot.Canopen.Calls.Transition.{mode_eq-≡}
use new_robot.Hybrid.{
  BackendCall, Backend, HybridReply, restore_running, restore_from, restore_to, failsafe_side,
  hybrid_mode, run_fail_safe_shutdown, roll_back, request_both,
}
use new_robot.Hybrid.Merge.{merge_same}
use new_robot.Hybrid.Sides.{target_of, IsHonest}

module _ {ℓ} {S : Type ℓ} (b : Backend S) (name : String) (honest : IsHonest b) where
  abbrev Restores : SystemOpMode → S × Bool × String → Type 0
  Restores target x = x.1 ≡ true → b.mode x.0 ≡ target

  restore_running-Restores :
      (detail : String) (s : S) → Restores SystemOpMode.running (restore_running b name detail s)
  unfolding restore_running
  restore_running-Restores detail s =
      let P = Restores SystemOpMode.running in
      let enabled = b.request BackendCall.enable s in
      if-branches P (not (mode_eq (b.mode s) SystemOpMode.standby))
        (λ _ h. honest BackendCall.release s h)
        λ _.
          if-branches P (not enabled.1.ok) (λ _ h. absurd (cc h))
            (λ _ h. honest BackendCall.release enabled.0 h)

  restore_from-Restores :
      (target : SystemOpMode) (detail : String) (s : S)
      → Restores target (restore_from b name target detail s)
  unfolding restore_from
  restore_from-Restores SystemOpMode.configured detail s =
      λ h. honest (BackendCall.shutdown false) s h
  restore_from-Restores SystemOpMode.standby detail s =
      if-branches (Restores SystemOpMode.standby) (mode_eq (b.mode s) SystemOpMode.faulted)
        (λ _ h. honest BackendCall.recover s h) (λ _ h. honest BackendCall.disable s h)
  restore_from-Restores SystemOpMode.armed detail s =
      if-branches (Restores SystemOpMode.armed) (mode_eq (b.mode s) SystemOpMode.running)
        (λ _ h. honest BackendCall.halt s h) (λ _ h. honest BackendCall.enable s h)
  restore_from-Restores SystemOpMode.running detail s = restore_running-Restores detail s
  restore_from-Restores SystemOpMode.inactive detail s = λ h. absurd (cc h)
  restore_from-Restores SystemOpMode.faulted detail s = λ h. absurd (cc h)
  restore_from-Restores SystemOpMode.recovering detail s = λ h. absurd (cc h)
  restore_from-Restores SystemOpMode.shutting_down detail s = λ h. absurd (cc h)

  restore_to-Restores :
      (target : SystemOpMode) (detail : String) (s : S)
      → Restores target (restore_to b name target detail s)
  unfolding restore_to
  restore_to-Restores target detail s =
      if-branches (Restores target) (mode_eq (b.mode s) target)
        (λ e _. mode_eq-≡ (b.mode s) target e) (λ _. restore_from-Restores target detail s)

-- The backend's last request was a shutdown.
abbrev pub WasShutDown {ℓ} : {S : Type ℓ} → Backend S → S → Type ℓ
WasShutDown {S = S} b s = (before : S) × ((b.request (BackendCall.shutdown false) before).0 ≡ s)

module _ {ℓ κ} {S : Type ℓ} {T : Type κ} (can : Backend S) (canopen : Backend T) where
  -- Both modes are as they were; or both backends were shut down.
  abbrev pub Undone : SystemOpMode → SystemOpMode → S × T → Type (ℓ ⊔ κ)
  Undone can_prev canopen_prev (s, t) =
      ((can.mode s ≡ can_prev) × (canopen.mode t ≡ canopen_prev))
      ⊎ (WasShutDown can s × WasShutDown canopen t)

  -- What a request may come to: both backends granted it, the CAN driver refused it, or canopen
  -- did after the CAN driver had granted it.
  pub data Outcome (call : BackendCall) (s : S) (t : T) : (S × T) × HybridReply → Type (ℓ ⊔ κ) where
    done :
        (r : HybridReply)
        → (can.request call s).1.ok ≡ true
        → (canopen.request call t).1.ok ≡ true
        → r.ok ≡ true
        → can.mode (can.request call s).0 ≡ target_of call
        → canopen.mode (canopen.request call t).0 ≡ target_of call
        → Outcome call s t (((can.request call s).0, (canopen.request call t).0), r)
    refused :
        (r : HybridReply)
        → (can.request call s).1.ok ≡ false
        → r.ok ≡ false
        → Outcome call s t (((can.request call s).0, t), r)
    undone :
        (x : S × T) (r : HybridReply)
        → (can.request call s).1.ok ≡ true
        → (canopen.request call t).1.ok ≡ false
        → r.ok ≡ false
        → Undone (can.mode s) (canopen.mode t) x
        → Outcome call s t (x, r)

  module _ (can_honest : IsHonest can) (canopen_honest : IsHonest canopen) where
    shut_down :
        (x : S × T)
        → WasShutDown can (run_fail_safe_shutdown can canopen x).0.0
          × WasShutDown canopen (run_fail_safe_shutdown can canopen x).0.1
    unfolding run_fail_safe_shutdown failsafe_side
    shut_down (s, t) = ((s, refl), (t, refl))

    roll_back-Undone :
        (can_prev canopen_prev : SystemOpMode) (refusal : String) (x : S × T)
        → ((roll_back can canopen can_prev canopen_prev refusal x).1.ok ≡ false)
          × Undone can_prev canopen_prev (roll_back can canopen can_prev canopen_prev refusal x).0
    unfolding roll_back
    roll_back-Undone can_prev canopen_prev refusal (s, t) =
        let P =
          λ (y : (S × T) × HybridReply). (y.1.ok ≡ false) × Undone can_prev canopen_prev y.0 in
        let b = restore_to canopen "canopen" canopen_prev "" t in
        let a = restore_to can "can_driver" can_prev b.2 s in
        if-branches P (b.1 && a.1)
          (λ e. (
            refl,
            inl (
              restore_to-Restores can "can_driver" can_honest can_prev b.2 s (ground (arith, e)),
              restore_to-Restores canopen "canopen" canopen_honest canopen_prev "" t
                  (ground (arith, e)),
            ),
          ))
          (λ _. (refl, inr (shut_down (a.0, b.0))))

    -- When a backend that grants a request is in the mode that it is for, a request to both
    -- succeeds exactly when both grant it, and both are then in its mode; or the CAN driver refuses
    -- it and canopen is left as it is; or the CAN driver grants it and canopen refuses, and then
    -- either both modes are as they were before, or both backends were shut down last.
    pub request_both-Outcome :
        (call : BackendCall) (text : String) (s : S) (t : T)
        → Outcome call s t (request_both can canopen call text (s, t))
    unfolding request_both
    request_both-Outcome call text s t =
        let P = Outcome call s t in
        let first = can.request call s in
        let second = canopen.request call t in
        if-branches P (not first.1.ok) (λ e. Outcome.refused _ (ground (arith, e)) refl)
          λ went.
            let granted : first.1.ok ≡ true = ground (arith, went) in
            if-branches P (not second.1.ok)
              (λ e.
                let x =
                  roll_back can canopen (can.mode s) (canopen.mode t) second.1.message
                    (first.0, second.0) in
                let (failed, u) =
                  roll_back-Undone (can.mode s) (canopen.mode t) second.1.message
                    (first.0, second.0) in
                Outcome.undone x.0 x.1 granted (ground (arith, e)) failed u)
              λ through.
                let both : second.1.ok ≡ true = ground (arith, through) in
                Outcome.done _ granted both refl (can_honest call s granted)
                  (canopen_honest call t both)

    -- When a request succeeds, the mode that the two show is the one that it is for.
    pub request_both-mode :
        (call : BackendCall) (text : String) (s : S) (t : T)
        → (request_both can canopen call text (s, t)).1.ok ≡ true
        → hybrid_mode can canopen (request_both can canopen call text (s, t)).0 ≡ target_of call
    unfolding hybrid_mode
    request_both-mode call text s t h = shown (request_both-Outcome call text s t) h
      where
        shown :
            {x : (S × T) × HybridReply}
            → Outcome call s t x
            → x.1.ok ≡ true
            → hybrid_mode can canopen x.0 ≡ target_of call
        shown (Outcome.done r _ _ _ a b) _ = rw (a, b) (merge_same (target_of call))
        shown (Outcome.refused r _ e) f = absurd (cc (e, f))
        shown (Outcome.undone x r _ _ e _) f = absurd (cc (e, f))
