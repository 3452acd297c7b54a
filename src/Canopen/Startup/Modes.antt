-- ===== src/Canopen/Startup/Modes.antt =====
-- Where the start-up sequence ends.
use new_robot.Base.{
  inl, inr, ◌≡◌, refl, ◌∙◌, Bool, true, false, ◌&&◌, ◌||◌, not, String, List, [], ◌∷◌, any_of,
  if◌then◌else◌, Bool-cases,
}
use new_robot.Canopen.Shared.{SharedState}
use new_robot.Canopen.Coordinator.{
  SystemOpMode, mode_eq, MasterOps, Coordinator, Reply, Action, concluded, do_transition,
}
use new_robot.Canopen.Requests.{
  init_action, request_init, motion_action, request_enable, request_release,
}
use new_robot.Canopen.Calls.Transition.{mode_eq-≡}
use new_robot.Canopen.Startup.{
  StartupFlags, step_or_stop, release_part, enable_part, limits_part, startup,
}

concluded-to :
    (to : SystemOpMode) (x : Coordinator × Bool × String)
    → (concluded to x).1.ok ≡ true
    → (concluded to x).0.mode ≡ to
unfolding concluded
concluded-to to (c, true, d) h = refl
concluded-to to (c, false, d) h = absurd (cc h)

-- A transition that replies true has arrived.
do_transition-to :
    (allowed : List SystemOpMode) (to : SystemOpMode) (action : Action) (c : Coordinator)
    → (do_transition allowed to action c).1.ok ≡ true
    → (do_transition allowed to action c).0.mode ≡ to
unfolding do_transition
do_transition-to allowed to action c h =
    elim (Bool-cases (any_of (λ from. mode_eq from c.mode) allowed)) [
      | inl e ↦ rw e (concluded-to to (action c) (rw (e, do_transition) at h))
      | inr e ↦ elim (Bool-cases (mode_eq c.mode to)) [
        | inl f ↦ rw e (rw f (mode_eq-≡ c.mode to f))
        | inr f ↦ absurd (cc (rw (e, f, do_transition) at h))
      ]
    ]

step_or_stop-done :
    (P : Coordinator → Type 0) (x : Coordinator × Reply) (rest : Coordinator → Coordinator × Bool)
    → (step_or_stop x rest).1 ≡ true
    → (x.1.ok ≡ true → (rest x.0).1 ≡ true → P (rest x.0).0)
    → P (step_or_stop x rest).0
step_or_stop-done P (c, reply) rest h k = elim (Bool-cases reply.ok) [
  | inl e ↦ rw e (k e (rw e at h))
  | inr e ↦ absurd (cc (rw e at h))
]

-- The mode that the flags ask for.
abbrev pub wanted_mode : StartupFlags → SystemOpMode → SystemOpMode
wanted_mode f m =
    if f.auto_release then SystemOpMode.running else if f.auto_init then SystemOpMode.armed else m

wanted_after_init :
    (f : StartupFlags) (m : SystemOpMode)
    → f.auto_init ≡ true
    → (if f.auto_release then SystemOpMode.running else SystemOpMode.armed) ≡ wanted_mode f m
wanted_after_init f m e = rw e refl

branch :
    (P : Coordinator × Bool → Type 0) (b : Bool) (x y : Coordinator × Bool)
    → (b ≡ true → P x)
    → (b ≡ false → P y)
    → P (if b then x else y)
branch P true x y p q = p refl
branch P false x y p q = q refl

init-to :
    (ops : MasterOps) (c : Coordinator)
    → (request_init ops c).1.ok ≡ true
    → (request_init ops c).0.mode ≡ SystemOpMode.armed
unfolding request_init
init-to ops c =
    do_transition-to (SystemOpMode.configured ∷ []) SystemOpMode.armed (init_action ops) c

enable-to :
    (ops : MasterOps) (c : Coordinator)
    → (request_enable ops c).1.ok ≡ true
    → (request_enable ops c).0.mode ≡ SystemOpMode.armed
unfolding request_enable
enable-to ops c =
    do_transition-to (SystemOpMode.standby ∷ []) SystemOpMode.armed (motion_action ops) c

release-to :
    (ops : MasterOps) (c : Coordinator)
    → (request_release ops c).1.ok ≡ true
    → (request_release ops c).0.mode ≡ SystemOpMode.running
unfolding request_release
release-to ops c =
    do_transition-to (SystemOpMode.armed ∷ []) SystemOpMode.running (motion_action ops) c

release_part-mode :
    (ops : MasterOps) (f : StartupFlags) (c : Coordinator)
    → c.mode ≡ SystemOpMode.armed
    → (release_part ops f c).1 ≡ true
    → (release_part ops f c).0.mode
      ≡ (if f.auto_release then SystemOpMode.running else SystemOpMode.armed)
unfolding release_part
release_part-mode ops f c m h = elim (Bool-cases f.auto_release) [
  | inl e ↦ rw e (
      step_or_stop-done (λ x. x.mode ≡ SystemOpMode.running) (request_release ops c)
        (λ c'. (c', true)) (rw (e, release_part) at h) λ r t. release-to ops c r)
  | inr e ↦ rw e m
]

enable_part-mode :
    (ops : MasterOps) (f : StartupFlags) (c : Coordinator)
    → c.mode ≡ SystemOpMode.armed
    → (enable_part ops f c).1 ≡ true
    → (enable_part ops f c).0.mode
      ≡ (if f.auto_release then SystemOpMode.running else SystemOpMode.armed)
unfolding enable_part
enable_part-mode ops f c m =
    let to = if f.auto_release then SystemOpMode.running else SystemOpMode.armed in
    branch (λ x. x.1 ≡ true → x.0.mode ≡ to) f.auto_enable
      (step_or_stop (request_enable ops c) (release_part ops f)) (release_part ops f c)
      (λ e h.
        step_or_stop-done (λ x. x.mode ≡ to) (request_enable ops c) (release_part ops f) h
          λ r t. release_part-mode ops f (request_enable ops c).0 (enable-to ops c r) t)
      λ e h. release_part-mode ops f c m h

limits_part-mode :
    (ops : MasterOps) (limits : SharedState → SharedState × Bool) (f : StartupFlags)
    (c : Coordinator)
    → c.mode ≡ SystemOpMode.armed
    → (limits_part ops limits f c).1 ≡ true
    → (limits_part ops limits f c).0.mode
      ≡ (if f.auto_release then SystemOpMode.running else SystemOpMode.armed)
unfolding limits_part
limits_part-mode ops limits f c m h =
    let c' = record c { shared = (limits c.shared).0 } in
    elim (Bool-cases (limits c.shared).1) [
      | inl e ↦ rw e (enable_part-mode ops f c' m (rw (e, limits_part) at h))
      | inr e ↦ absurd (cc (rw (e, limits_part) at h))
    ]

-- The tests on the flags, with what each leads to.
flags-cases :
    (P : Bool → Bool → Bool → Coordinator × Bool → Type 0) (i e r : Bool) (c : Coordinator)
    (rest : Coordinator × Bool)
    → ((x : Bool) (y : Bool) (z : Bool) → P x y z (c, false))
    → P false false false (c, true)
    → ((y : Bool) (z : Bool) → P true y z rest)
    → P i e r (
        if (e || r) && not i
        then (c, false)
        else if r && not e
        then (c, false)
        else if not i
        then (c, true)
        else rest)
flags-cases P false false false c rest bad idle good = idle
flags-cases P false false true c rest bad idle good = bad false false true
flags-cases P false true r c rest bad idle good = bad false true r
flags-cases P true false false c rest bad idle good = good false false
flags-cases P true false true c rest bad idle good = bad true false true
flags-cases P true true false c rest bad idle good = good true false
flags-cases P true true true c rest bad idle good = good true true

-- A start-up that succeeds ends in the mode that its flags ask for: Running with auto_release,
-- Armed with auto_init and without auto_release, and otherwise the mode that it found.
pub startup-mode :
    (ops : MasterOps) (limits : SharedState → SharedState × Bool) (f : StartupFlags)
    (c : Coordinator)
    → (startup ops limits f c).1 ≡ true
    → (startup ops limits f c).0.mode ≡ wanted_mode f c.mode
unfolding startup
startup-mode ops limits f c =
    let rest = step_or_stop (request_init ops c) (limits_part ops limits f) in
    flags-cases
      (λ i e r x.
        f.auto_init ≡ i → f.auto_release ≡ r → x.1 ≡ true → x.0.mode ≡ wanted_mode f c.mode)
      f.auto_init f.auto_enable f.auto_release c rest (λ x y z a b h. absurd (cc h))
      (λ a b h. rw a (rw b refl))
      (λ y z a b h.
        step_or_stop-done
          (λ x. x.mode ≡ (if f.auto_release then SystemOpMode.running else SystemOpMode.armed))
          (request_init ops c) (limits_part ops limits f) h
          (λ r t. limits_part-mode ops limits f (request_init ops c).0 (init-to ops c r) t)
        ∙ wanted_after_init f c.mode a)
      refl refl
