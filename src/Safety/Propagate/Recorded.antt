-- ===== src/Safety/Propagate/Recorded.antt =====
-- Every recorded event has its restriction among those that propagation applies.
use Prim.Native.String.{◌++◌ as append}
use new_robot.Base.{
  String, ◌≡◌, refl, ◌∙◌, ap, ◌⊎◌, inl, inr, none, some, [], ◌∷◌, arith, str_eq, Bool-cases,
}
use new_robot.Base.Int.{ℤ}
use new_robot.Base.Names.{Map, NameSet, lookup, emplace, lookup-emplace}
use new_robot.Base.Outcome.{Error, Result, ok, err}
use new_robot.Safety.Types.{Event, Group, Domain}
use new_robot.Safety.Scope.{
  Restriction, scope, event_restrictions, readiness_restrictions, restrictions, unavailable,
  not_ready,
}

pub Result-cases {ℓ} :
    {A : Type ℓ} (r : Result A) → ((a : A) × (r ≡ ok a)) ⊎ ((x : Error) × (r ≡ err x))
Result-cases (ok a) = inl (a, refl)
Result-cases (err x) = inr (x, refl)

-- A restriction once noted stays noted.
event_restrictions_kept :
    (now : ℤ) (d : Domain) (es : Map Event) (out all : Map Restriction) (id : String)
    (r : Restriction)
    → event_restrictions now d es out ≡ ok all
    → lookup id out ≡ some r
    → lookup id all ≡ some r
unfolding event_restrictions
event_restrictions_kept now d [] out all id r done h =
    let same : out ≡ all = ground arith in rw (← same) h
event_restrictions_kept now d ((k, e) ∷ es) out all id r done h =
    elim (Result-cases (scope now d e)) [
      | inl (names, f) ↦
          event_restrictions_kept now d es
            (emplace k (record { affected = names; reason = e.reason }) out) all id r
            (rw (f, event_restrictions) at done)
            (ground
              (arith, lookup-emplace k id (record { affected = names; reason = e.reason }) out))
      | inr (x, f) ↦ absurd (ground (arith, rw (f, event_restrictions) at done))
    ]

same_event : {x e : Event} → some x ≡ some e → x ≡ e
same_event h = ground arith

abbrev pub noted : NameSet → Event → Restriction
noted names e = record { affected = names; reason = e.reason }

event_restrictions-lookup :
    (now : ℤ) (d : Domain) (es : Map Event) (out all : Map Restriction) (id : String) (e : Event)
    → event_restrictions now d es out ≡ ok all
    → lookup id out ≡ none
    → lookup id es ≡ some e
    → (names : NameSet) × (scope now d e ≡ ok names)
      × (lookup id all ≡ some (record { affected = names; reason = e.reason }))
unfolding event_restrictions
event_restrictions-lookup now d [] out all id e done fresh h = absurd (ground arith)
event_restrictions-lookup now d ((k, x) ∷ es) out all id e done fresh h =
    elim (Result-cases (scope now d x)) [
      | inr (y, f) ↦ absurd (ground (arith, rw (f, event_restrictions) at done))
      | inl (names, f) ↦
          let r : Restriction = record { affected = names; reason = x.reason } in
          let done' : event_restrictions now d es (emplace k r out) ≡ ok all =
            rw (f, event_restrictions) at done in
          elim (Bool-cases (str_eq k id)) [
            | inr other ↦
                event_restrictions-lookup now d es (emplace k r out) all id e done'
                  (ground (arith, lookup-emplace k id r out)) (ground arith)
            | inl eq ↦
                let same : x ≡ e = same_event (rw eq at h) in
                let kept : lookup id all ≡ some r =
                  event_restrictions_kept now d es (emplace k r out) all id r done'
                    (ground (arith, lookup-emplace k id r out)) in
                (names, rw (← same) f, kept ∙ ap (λ (y : Event). some (noted names y)) same)
          ]
    ]

readiness_restrictions_kept :
    (now : ℤ) (d : Domain) (gs : Map Group) (out all : Map Restriction) (id : String)
    (r : Restriction)
    → readiness_restrictions now d gs out ≡ ok all
    → lookup id out ≡ some r
    → lookup id all ≡ some r
unfolding readiness_restrictions
readiness_restrictions_kept now d [] out all id r done h =
    let same : out ≡ all = ground arith in rw (← same) h
readiness_restrictions_kept now d ((g, info) ∷ gs) out all id r done h =
    elim (Bool-cases info.ready) [
      | inl e ↦
          readiness_restrictions_kept now d gs out all id r (rw (e, readiness_restrictions) at done)
            h
      | inr e ↦ elim (Result-cases (scope now d (unavailable g))) [
        | inr (y, f) ↦ absurd (ground arith)
        | inl (names, f) ↦
            let key = append "unavailable:" g in
            readiness_restrictions_kept now d gs (emplace key (not_ready g names) out) all id r
              (rw (f, readiness_restrictions) at (rw (e, readiness_restrictions) at done))
              (ground (arith, lookup-emplace key id (not_ready g names) out))
      ]
    ]

pub restrictions-lookup :
    (now : ℤ) (d : Domain) (all : Map Restriction) (id : String) (e : Event)
    → restrictions now d ≡ ok all
    → lookup id d.events ≡ some e
    → (names : NameSet) × (scope now d e ≡ ok names) × (lookup id all ≡ some (noted names e))
unfolding restrictions
restrictions-lookup now d all id e done h =
    elim (Result-cases (event_restrictions now d d.events [])) [
      | inr (x, f) ↦ absurd (ground arith)
      | inl (out, f) ↦
          let (names, s, l) = event_restrictions-lookup now d d.events [] out id e f refl h in
          (
            names,
            s,
            readiness_restrictions_kept now d d.groups out all id (noted names e)
                (rw (f, restrictions) at done) l,
          )
    ]
