-- ===== src/Hybrid/Started.antt =====
-- Where an automatic start leaves the two backends.
use new_robot.Base.{
  ◌≡◌, refl, ◌⊎◌, inl, inr, String, Bool, true, ◌&&◌, ◌||◌, not, if-branches, if◌then◌else◌, arith,
}
use new_robot.Canopen.Coordinator.{SystemOpMode}
use new_robot.Hybrid.{BackendCall, Backend, hybrid_mode, hybrid_enable, hybrid_release}
use new_robot.Hybrid.Sides.{IsHonest}
use new_robot.Hybrid.Rollback.{request_both-mode}
use new_robot.Hybrid.AutoStart.{
  JointList, StartOptions, Hook, ensure_armed_in, ensure_hybrid_armed, ensure_running_in,
  ensure_hybrid_running, start_motion, run_configured_init_sequence, run_hybrid_auto_startup,
}

module _ {ℓ κ} {S : Type ℓ} {T : Type κ} (can : Backend S) (canopen : Backend T)
    (can_honest : IsHonest can) (canopen_honest : IsHonest canopen) where
  abbrev Armed : SystemOpMode → Type 0
  Armed m = (m ≡ SystemOpMode.armed) ⊎ (m ≡ SystemOpMode.running)

  -- An answer true shows the mode.
  abbrev Reaches : (SystemOpMode → Type 0) → (S × T) × Bool × String → Type 0
  Reaches P v = v.1 ≡ true → P (hybrid_mode can canopen v.0)

  ensure_armed_in-Reaches :
      (m : SystemOpMode) (x : S × T)
      → hybrid_mode can canopen x ≡ m
      → Reaches Armed (ensure_armed_in can canopen m x)
  unfolding ensure_armed_in hybrid_enable
  ensure_armed_in-Reaches SystemOpMode.standby (s, t) e =
      λ h. inl (request_both-mode can canopen can_honest canopen_honest BackendCall.enable _ s t h)
  ensure_armed_in-Reaches SystemOpMode.armed x e = λ h. inl e
  ensure_armed_in-Reaches SystemOpMode.running x e = λ h. inr e
  ensure_armed_in-Reaches SystemOpMode.inactive x e = λ h. absurd (cc h)
  ensure_armed_in-Reaches SystemOpMode.configured x e = λ h. absurd (cc h)
  ensure_armed_in-Reaches SystemOpMode.faulted x e = λ h. absurd (cc h)
  ensure_armed_in-Reaches SystemOpMode.recovering x e = λ h. absurd (cc h)
  ensure_armed_in-Reaches SystemOpMode.shutting_down x e = λ h. absurd (cc h)

  ensure_running_in-Reaches :
      (m : SystemOpMode) (x : S × T)
      → hybrid_mode can canopen x ≡ m
      → Reaches (λ n. n ≡ SystemOpMode.running) (ensure_running_in can canopen m x)
  unfolding ensure_running_in hybrid_release
  ensure_running_in-Reaches SystemOpMode.armed (s, t) e =
      λ h. request_both-mode can canopen can_honest canopen_honest BackendCall.release _ s t h
  ensure_running_in-Reaches SystemOpMode.running x e = λ h. e
  ensure_running_in-Reaches SystemOpMode.standby x e = λ h. absurd (cc h)
  ensure_running_in-Reaches SystemOpMode.inactive x e = λ h. absurd (cc h)
  ensure_running_in-Reaches SystemOpMode.configured x e = λ h. absurd (cc h)
  ensure_running_in-Reaches SystemOpMode.faulted x e = λ h. absurd (cc h)
  ensure_running_in-Reaches SystemOpMode.recovering x e = λ h. absurd (cc h)
  ensure_running_in-Reaches SystemOpMode.shutting_down x e = λ h. absurd (cc h)

  ensure_hybrid_running-Reaches :
      (x : S × T) → Reaches (λ n. n ≡ SystemOpMode.running) (ensure_hybrid_running can canopen x)
  unfolding ensure_hybrid_running
  ensure_hybrid_running-Reaches x =
      let y = ensure_hybrid_armed can canopen x in
      if-branches (Reaches (λ n. n ≡ SystemOpMode.running)) (not y.1) (λ _ h. absurd (cc h))
        λ _. ensure_running_in-Reaches (hybrid_mode can canopen y.0) y.0 refl

  start_motion-Reaches :
      (options : StartOptions) (x : S × T)
      → options.auto_release ≡ true
      → Reaches (λ n. n ≡ SystemOpMode.running) (start_motion can canopen options x)
  unfolding start_motion
  start_motion-Reaches options x release =
      let P = Reaches (λ n. n ≡ SystemOpMode.running) in
      let y = if options.auto_enable then ensure_hybrid_armed can canopen x else (x, true, "") in
      if-branches P (not y.1) (λ _ h. absurd (cc h))
        λ _.
          if-branches P options.auto_release (λ _. ensure_hybrid_running-Reaches y.0)
            (λ no. absurd (cc (release, no)))

  -- An automatic start that is asked to release and that succeeds ends with the merged mode
  -- Running, whatever the post-init hook does.
  pub startup-Running :
      (options : StartOptions) (hook : Hook can canopen) (joints : JointList) (loopback : Bool)
      (x : S × T)
      → options.auto_release ≡ true
      → (run_hybrid_auto_startup can canopen options hook joints loopback x).1 ≡ true
      → hybrid_mode can canopen
          (run_hybrid_auto_startup can canopen options hook joints loopback x).0
        ≡ SystemOpMode.running
  unfolding run_hybrid_auto_startup
  startup-Running options hook joints loopback x release =
      let P = Reaches (λ n. n ≡ SystemOpMode.running) in
      let y = run_configured_init_sequence can canopen hook joints loopback x in
      if-branches P ((options.auto_enable || options.auto_release) && not options.auto_init)
        (λ _ h. absurd (cc h))
        λ a.
          if-branches P (options.auto_release && not options.auto_enable) (λ _ h. absurd (cc h))
            λ _.
              if-branches P (not options.auto_init) (λ b. absurd (ground (arith, a, b, release)))
                λ _.
                  if-branches P (not y.1.ok) (λ _ h. absurd (cc h))
                    λ _. start_motion-Reaches options y.0 release
