-- ===== src/Hybrid/Router/Targets.antt =====
-- Every joint of a configuration that is accepted has its own target.
use new_robot.Base.{
  ℕ, ◌+◌, ◌≡◌, inl, inr, String, Bool, true, false, Option, some, List, [], ◌∷◌, eq_iff, eq_refl,
  if-branches, if◌then◌else◌, Bool-cases, Option-cases, arith,
}
use new_robot.Base.Names.{Map, lookup, bound, insert, lookup-insert, bound-lookup}
use new_robot.Hybrid.Router.{
  JointTarget, MotorId, JointValue, Build, canopen_target, driver_target, add_canopen, motor_id_of,
  bad_motor_id, duplicate, add_driver, build_joint_targets,
}

-- A new name leaves the entries that are there.
insert-kept :
    (name j : String) (t u : JointTarget) (m : Map JointTarget)
    → bound name m ≡ false
    → lookup j m ≡ some u
    → lookup j (insert name t m) ≡ some u
insert-kept name j t u m fresh h =
    ground (arith, fresh, h, lookup-insert name j t m, bound-lookup name m, eq_iff name j)

insert-found :
    (name : String) (t : JointTarget) (m : Map JointTarget) → lookup name (insert name t m) ≡ some t
insert-found name t m = ground (arith, lookup-insert name name t m, eq_refl name)

-- What is built leaves the entries that were there before.
abbrev Finds : String → JointTarget → Build → Type 0
Finds j u (Build.built m) = lookup j m ≡ some u
Finds j u (Build.refused text) = Unit
Finds j u Build.thrown = Unit

-- Each axis of the canopen configuration, from `index` on, has its target.
abbrev pub AllAxes : ℕ → List String → Map JointTarget → Type 0
AllAxes index [] m = Unit
AllAxes index (name ∷ names) m =
    (lookup name m ≡ some (canopen_target index)) × AllAxes (index + 1) names m

module _ (stoul : String → Option ℕ) where
  bad-Finds :
      (j : String) (u : JointTarget) (name : String) (id : MotorId)
      → Finds j u (bad_motor_id stoul name id)
  unfolding bad_motor_id
  bad-Finds j u name (MotorId.number n) = tt
  bad-Finds j u name (MotorId.a_text s) = tt
  bad-Finds j u name MotorId.other = tt

  not_built :
      (name : String) (id : MotorId) (result : Map JointTarget)
      → ¬ (bad_motor_id stoul name id ≡ Build.built result)
  unfolding bad_motor_id
  not_built name (MotorId.number n) result h = ground arith
  not_built name (MotorId.a_text s) result h = ground arith
  not_built name MotorId.other result h = ground arith

  add_driver-kept :
      (index : ℕ) (joints : List JointValue) (m : Map JointTarget) (j : String) (u : JointTarget)
      → lookup j m ≡ some u
      → Finds j u (add_driver stoul index joints m)
  unfolding add_driver
  add_driver-kept index [] m j u h = h
  add_driver-kept index (JointValue.no_struct ∷ joints) m j u h = tt
  add_driver-kept index (JointValue.incomplete ∷ joints) m j u h = tt
  add_driver-kept index (JointValue.named name id ∷ joints) m j u h =
      elim (Option-cases (motor_id_of stoul id)) [
        | inl e ↦ rw (e, add_driver) (bad-Finds j u name id)
        | inr (n, e) ↦
            rw (e, add_driver)
              (if-branches (Finds j u) (bound name m) (λ _. tt)
                λ fresh.
                  add_driver-kept (index + 1) joints (insert name (driver_target n) m) j u
                    (insert-kept name j (driver_target n) u m fresh h))
      ]

  -- Each joint of the array has its motor's target.
  abbrev pub AllDriven : List JointValue → Map JointTarget → Type 0
  AllDriven [] m = Unit
  AllDriven (JointValue.named name id ∷ joints) m =
      ((n : ℕ) × (motor_id_of stoul id ≡ some n) × (lookup name m ≡ some (driver_target n)))
      × AllDriven joints m
  AllDriven (JointValue.no_struct ∷ joints) m = ⊥
  AllDriven (JointValue.incomplete ∷ joints) m = ⊥

  same_built : (a b : Map JointTarget) → Build.built a ≡ Build.built b → a ≡ b
  same_built a b h = ground arith

  fresh_only :
      (taken : Bool) (name : String) (b : Build) (result : Map JointTarget)
      → (if taken then duplicate name else b) ≡ Build.built result
      → b ≡ Build.built result
  fresh_only true name b result h = absurd (ground arith)
  fresh_only false name b result h = h

  kept_built :
      (index : ℕ) (joints : List JointValue) (m result : Map JointTarget) (j : String)
      (u : JointTarget)
      → lookup j m ≡ some u
      → add_driver stoul index joints m ≡ Build.built result
      → lookup j result ≡ some u
  kept_built index joints m result j u h done = rw done at (add_driver-kept index joints m j u h)

  add_driver-AllDriven :
      (index : ℕ) (joints : List JointValue) (m result : Map JointTarget)
      → add_driver stoul index joints m ≡ Build.built result
      → AllDriven joints result
  unfolding add_driver
  add_driver-AllDriven index [] m result done = tt
  add_driver-AllDriven index (JointValue.no_struct ∷ joints) m result done = absurd (ground arith)
  add_driver-AllDriven index (JointValue.incomplete ∷ joints) m result done = absurd (ground arith)
  add_driver-AllDriven index (JointValue.named name id ∷ joints) m result done =
      elim (Option-cases (motor_id_of stoul id)) [
        | inl e ↦ absurd (not_built name id result (rw (e, add_driver) at done))
        | inr (n, e) ↦
            let placed = insert name (driver_target n) m in
            let rest =
              fresh_only (bound name m) name (add_driver stoul (index + 1) joints placed) result
                (rw (e, add_driver) at done) in
            let found =
              kept_built (index + 1) joints placed result name (driver_target n)
                (insert-found name (driver_target n) m) rest in
            ((n, e, found), add_driver-AllDriven (index + 1) joints placed result rest)
      ]

  axes_kept :
      (index : ℕ) (names : List String) (joints : List JointValue) (m result : Map JointTarget)
      (j : String) (u : JointTarget)
      → lookup j m ≡ some u
      → add_canopen index names m (add_driver stoul 0 joints) ≡ Build.built result
      → lookup j result ≡ some u
  unfolding add_canopen
  axes_kept index [] joints m result j u h done = kept_built 0 joints m result j u h done
  axes_kept index (name ∷ names) joints m result j u h done =
      let placed = insert name (canopen_target index) m in
      elim (Bool-cases (bound name m)) [
        | inl e ↦ absurd (ground (arith, rw (e, add_canopen) at done))
        | inr e ↦
            axes_kept (index + 1) names joints placed result j u
              (insert-kept name j (canopen_target index) u m e h) (rw (e, add_canopen) at done)
      ]

  axes_built :
      (index : ℕ) (names : List String) (joints : List JointValue) (m result : Map JointTarget)
      → add_canopen index names m (add_driver stoul 0 joints) ≡ Build.built result
      → AllAxes index names result × AllDriven joints result
  unfolding add_canopen
  axes_built index [] joints m result done = (tt, add_driver-AllDriven 0 joints m result done)
  axes_built index (name ∷ names) joints m result done =
      let placed = insert name (canopen_target index) m in
      let rest =
        fresh_only (bound name m) name
          (add_canopen (index + 1) names placed (add_driver stoul 0 joints)) result done in
      let (axes, driven) = axes_built (index + 1) names joints placed result rest in
      (
        (
          axes_kept (index + 1) names joints placed result name (canopen_target index)
              (insert-found name (canopen_target index) m) rest,
          axes,
        ),
        driven,
      )

  -- A configuration that is accepted routes every joint: each canopen joint to the axis of its
  -- place in the list, and each joint of can_driver to the motor of its motor_id.
  pub build_joint_targets-routes :
      (names : List String) (joints : List JointValue) (result : Map JointTarget)
      → build_joint_targets stoul names (some joints) ≡ Build.built result
      → AllAxes 0 names result × AllDriven joints result
  unfolding build_joint_targets
  build_joint_targets-routes names joints result done = axes_built 0 names joints [] result done
