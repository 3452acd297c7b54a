-- ===== src/Safety/Calls/Fallen.antt =====
-- The calls that at worst make groups fall: reports, evidence, events and acknowledgements.
use new_robot.Base.{
  String, inl, inr, Bool, true, false, ◌&&◌, ◌||◌, not, is_empty, if◌then◌else◌, any_of, Bool-cases,
  Option-cases,
}
use Prim.Native.String.{◌++◌ as append}
use new_robot.Base.Int.{ℤ, pos, ltb_ℤ}
use new_robot.Base.Names.{lookup, bound}
use new_robot.Base.Outcome.{Result, ok, err}
use new_robot.Safety.Types.{Severity, severity_eq, Evidence, Event, Group, Domain}
use new_robot.Safety.Evolution.{Evolves, Evolves-refl, Evolves-trans}
use new_robot.Safety.Propagate.{refresh_groups, propagate, after}
use new_robot.Safety.Propagate.Falls.{
  Falls, Falls-refl, Falls-trans, refresh-Falls, revoke_one-Falls, propagate-Falls,
}
use new_robot.Safety.Setup.{is_moving}
use new_robot.Safety.Reports.{
  on_backend, evidence_invalid, rule_for, is_reserved, same_occurrence, is_stop, source_unready,
  owned_event, scope_missing, admit_scoped, admit_owned, unprepare_axis, warning, report_axis,
  report_backend, condition, event, record_event, admit_event, acknowledge,
}
use new_robot.Safety.Sessions.{with_group}

-- A call on `d` that came out as `r`, and at worst made groups fall.
pub record Fallen {ℓ} {A : Type ℓ} (d : Domain) (r : Domain × A) : Type ℓ where
  pub fallen : Evolves Falls d.groups r.0.groups

abbrev pub Below : Domain → Domain → Type 0
Below d c = Evolves Falls d.groups c.groups

pub Below-refl : (d : Domain) → Below d d
Below-refl d = Evolves-refl Falls Falls-refl d.groups

Below-trans : (a b c : Domain) → Below a b → Below b c → Below a c
Below-trans a b c p q = Evolves-trans Falls Falls-trans a.groups b.groups c.groups p q

pub kept {ℓ} : {A : Type ℓ} (d c : Domain) (a : A) → Below d c → Fallen d (c, a)
kept d c a p = record { fallen = p }

pub same {ℓ} : {A : Type ℓ} (d : Domain) (a : A) → Fallen d (d, a)
same d a = kept d d a (Below-refl d)

pub propagated : (now : ℤ) (d c : Domain) → Below d c → Fallen d (propagate now c)
propagated now d c p = record {
  fallen = Below-trans d c (propagate now c).0 p (propagate-Falls now c);
}

-- The readiness of the groups is worked out again, and then the restrictions are propagated.
refreshed : (now : ℤ) (d c : Domain) → Below d c → Fallen d (propagate now (refresh_groups c))
refreshed now d c p =
    propagated now d (refresh_groups c) (Below-trans d c (refresh_groups c) p (refresh-Falls c))

pub if_Fallen {ℓ} :
    {A : Type ℓ} (d : Domain) (b : Bool) (x y : Domain × A)
    → Fallen d x
    → Fallen d y
    → Fallen d (if b then x else y)
if_Fallen d true x y p q = p
if_Fallen d false x y p q = q

pub after-Fallen {ℓ} :
    {A : Type ℓ} (d : Domain) (p : Domain × Result (Unit {0})) (k : Domain → Domain × Result A)
    → Fallen d p
    → (Below d p.0 → Fallen d (k p.0))
    → Fallen d (after p k)
after-Fallen d (c, ok _) k p q = q p.fallen
after-Fallen d (c, err x) k p q = kept d c (err x) p.fallen

-- A query: propagation, and then a look at one group.
pub query_Fallen {ℓ} :
    {A : Type ℓ} (now : ℤ) (name : String) (d : Domain) (f : Domain → Group → Result A)
    → Fallen d (after (propagate now d) λ c. with_group name c λ g. (c, f c g))
query_Fallen now name d f =
    after-Fallen d (propagate now d) _ (propagated now d d (Below-refl d)) λ p.
      elim (Option-cases (lookup name (propagate now d).0.groups)) [
        | inl e ↦ rw (e, with_group) (kept d _ _ p)
        | inr (g, e) ↦ rw (e, with_group) (kept d _ _ p)
      ]

record_event-Below : (e : Event) (d : Domain) → Below d (record_event e d)
unfolding record_event
record_event-Below e d = elim (Bool-cases (severity_eq e.severity Severity.global_stop)) [
  | inl s ↦ rw s (Below-refl d)
  | inr s ↦ rw s (Below-refl d)
]

pub unprepare_axis-Fallen :
    (now : ℤ) (name why : String) (d : Domain) → Fallen d (unprepare_axis now name why d)
unfolding unprepare_axis
unprepare_axis-Fallen now name why d = elim (Option-cases (lookup name d.axes)) [
  | inl e ↦ rw (e, unprepare_axis) (same d _)
  | inr (axis, e) ↦ elim (Option-cases (lookup axis.group d.groups)) [
    | inl f ↦ rw (e, unprepare_axis) (rw (f, unprepare_axis) (kept d _ _ (Below-refl d)))
    | inr (g, f) ↦
        rw (e, unprepare_axis)
          (rw (f, unprepare_axis)
            (refreshed now d _ (elim (Bool-cases (is_moving g.state)) [
              | inl m ↦ rw m (revoke_one-Falls axis.group why d.groups)
              | inr m ↦ rw m (Below-refl d)
            ])))
  ]
]

pub warning-Fallen :
    (now : ℤ) (name : String) (active : Bool) (why : String) (d : Domain)
    → Fallen d (warning now name active why d)
unfolding warning
warning-Fallen now name active why d = elim (Option-cases (lookup name d.axes)) [
  | inl e ↦ rw (e, warning) (same d _)
  | inr (axis, e) ↦
      rw (e, warning)
        (if_Fallen d (not active) _ _ (kept d _ _ (Below-refl d)) (
          if_Fallen d (bound (append "warning:" name) d.events) _ _ (same d _)
            (kept d _ _ (Below-refl d))))
]

pub report_axis-Fallen :
    (now : ℤ) (name : String) (ready : Bool) (why code category : String) (d : Domain)
    → Fallen d (report_axis now name ready why code category d)
unfolding report_axis
report_axis-Fallen now name ready why code category d = elim (Option-cases (lookup name d.axes)) [
  | inl e ↦ rw (e, report_axis) (same d _)
  | inr (axis, e) ↦
      rw (e, report_axis)
        (elim (Bool-cases ready) [
          | inl r ↦ rw r (refreshed now d _ (Below-refl d))
          | inr r ↦ rw r (refreshed now d _ (Below-refl d))
        ])
]

pub report_backend-Fallen :
    (now : ℤ) (name : String) (ready : Bool) (why : String) (d : Domain)
    → Fallen d (report_backend now name ready why d)
unfolding report_backend
report_backend-Fallen now name ready why d =
    if_Fallen d (not (any_of (on_backend name) d.axes)) _ _ (kept d _ _ (Below-refl d))
      (elim (Bool-cases ready) [
        | inl r ↦ rw r (refreshed now d _ (Below-refl d))
        | inr r ↦ rw r (refreshed now d _ (Below-refl d))
      ])

pub condition-Fallen :
    (now : ℤ) (name : String) (value : Evidence) (source : String) (until : ℤ) (d : Domain)
    → Fallen d (condition now name value source until d)
unfolding condition
condition-Fallen now name value source until d =
    if_Fallen d (evidence_invalid now name value source until) _ _ (same d _) (
      if_Fallen d (not (any_of (rule_for name source) d.associations)) _ _ (same d _) (
        after-Fallen d (propagate now d) _ (propagated now d d (Below-refl d))
          λ p. propagated now d _ p))

admit_event-Fallen : (now : ℤ) (e : Event) (d : Domain) → Fallen d (admit_event now e d)
unfolding admit_event
admit_event-Fallen now e d = elim (Option-cases (lookup e.id d.events)) [
  | inl f ↦ rw (f, admit_event) (propagated now d (record_event e d) (record_event-Below e d))
  | inr (old, f) ↦
      rw (f, admit_event)
        (if_Fallen d (not (same_occurrence old e)) _ _ (same d _)
          (propagated now d d (Below-refl d)))
]

admit_scoped-Fallen :
    (now : ℤ) (e : Event) (d : Domain) (r : Result Bool) → Fallen d (admit_scoped now e d r)
unfolding admit_scoped
admit_scoped-Fallen now e d (err x) = same d _
admit_scoped-Fallen now e d (ok true) = same d _
admit_scoped-Fallen now e d (ok false) = admit_event-Fallen now _ d

admit_owned-Fallen : (now : ℤ) (d : Domain) (r : Result Event) → Fallen d (admit_owned now d r)
unfolding admit_owned
admit_owned-Fallen now d (err x) = same d _
admit_owned-Fallen now d (ok e) =
    if_Fallen d (not (is_empty e.group) && not (bound e.group d.groups)) _ _ (same d _)
      (admit_scoped-Fallen now e d (scope_missing now d e))

pub event-Fallen : (now : ℤ) (e : Event) (d : Domain) → Fallen d (event now e d)
unfolding event
event-Fallen now value d = if_Fallen d (ltb_ℤ value.timestamp_ns (pos 0)) _ _ (same d _) (
    if_Fallen d (is_reserved value.id) _ _ (same d _) (
      if_Fallen d (is_empty value.id || is_empty value.reason) _ _ (same d _)
        (admit_owned-Fallen now d (owned_event value d))))

pub acknowledge-Fallen : (now : ℤ) (id : String) (d : Domain) → Fallen d (acknowledge now id d)
unfolding acknowledge
acknowledge-Fallen now id d =
    after-Fallen d (propagate now d) _ (propagated now d d (Below-refl d)) λ p.
      elim (Option-cases (lookup id (propagate now d).0.events)) [
        | inl e ↦ rw (e, acknowledge) (kept d _ _ p)
        | inr (e, f) ↦
            rw (f, acknowledge)
              (if_Fallen d
                (is_stop e.severity && any_of (source_unready e) (propagate now d).0.axes) _ _
                (kept d _ _ p) (propagated now d _ p))
      ]
