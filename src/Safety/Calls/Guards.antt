-- ===== src/Safety/Calls/Guards.antt =====
-- Every guard of a permission, in the state before the check where the check leaves it alone.
use new_robot.Base.{
  ℕ, String, ◌≡◌, refl, sym, ◌∙◌, ap, ◌⊎◌, inl, inr, true, false, some, List, [], ◌∷◌, arith,
  if-branches,
}
use new_robot.Base.Int.{ℤ, ltb_ℤ}
use new_robot.Base.Names.{Map, lookup}
use new_robot.Base.Outcome.{Result, ok, err}
use new_robot.Safety.Types.{State, Group, Domain}
use new_robot.Safety.Setup.{non_empty}
use new_robot.Safety.Scope.{Restriction, restrictions}
use new_robot.Safety.Propagate.{
  owner_fresh, owner_lapsed, expire_owner, prepared, apply_restrictions, propagate,
}
use new_robot.Safety.Propagate.Falls.{Falls, propagate-Falls}
use new_robot.Safety.Sessions.{is_blocked, permits}
use new_robot.Safety.Calls.Moves.{same_some}
use new_robot.Safety.Calls.Epochs.{permits_granted}

-- The owner's lease is as it was, and a global stop is not lifted.
record SameOwner (c d : Domain) : Type 0 where
  required : c.owner_required ≡ d.owner_required
  deadline : c.owner_deadline ≡ d.owner_deadline
  inhibit : c.global_inhibit ≡ false → d.global_inhibit ≡ false

expire_owner-SameOwner : (now : ℤ) (d : Domain) → SameOwner (expire_owner now d) d
unfolding expire_owner
expire_owner-SameOwner now d =
    if-branches (λ (c : Domain). SameOwner c d) (owner_lapsed now d)
      (λ _. record { required = refl; deadline = refl; inhibit = λ e. absurd (cc e) })
      λ _. record { required = refl; deadline = refl; inhibit = λ e. e }

apply_restrictions-SameOwner :
    (c d : Domain) (rs : Result (Map Restriction))
    → SameOwner c d
    → SameOwner (apply_restrictions c rs).0 d
unfolding apply_restrictions
apply_restrictions-SameOwner c d (err x) h = h
apply_restrictions-SameOwner c d (ok rs) h = record {
  required = h.required;
  deadline = h.deadline;
  inhibit = h.inhibit;
}

propagate-SameOwner : (now : ℤ) (d : Domain) → SameOwner (propagate now d).0 d
unfolding propagate prepared
propagate-SameOwner now d =
    let e = expire_owner-SameOwner now d in
    apply_restrictions-SameOwner (prepared now d) d (restrictions now (prepared now d))
      (record { required = e.required; deadline = e.deadline; inhibit = e.inhibit })

-- What a permission asks: of the group and the domain before the check, `g` and `d`, and of the
-- group as the check leaves it, `h`, with the blockers that the propagation found.
pub record IsOpen (now : ℤ) (ep : ℕ) (d : Domain) (g h : Group) : Type 0 where
  pub running : g.state ≡ State.running
  pub session : g.epoch ≡ ep
  pub no_stop : d.global_inhibit ≡ false
  pub leased : (d.owner_required ≡ false) ⊎ (ltb_ℤ now d.owner_deadline ≡ true)
  pub ready : h.ready ≡ true
  pub free : h.blockers ≡ []

no_blockers : {A : Type 0} (xs : List A) → non_empty xs ≡ false → xs ≡ []
no_blockers [] e = refl
no_blockers (x ∷ xs) e = absurd (cc e)

-- What the group and the domain of a check that grants show.
record IsUnblocked (now : ℤ) (d : Domain) (h : Group) : Type 0 where
  no_stop : d.global_inhibit ≡ false
  leased : (d.owner_required ≡ false) ⊎ (ltb_ℤ now d.owner_deadline ≡ true)
  ready : h.ready ≡ true
  free : h.blockers ≡ []

not_blocked : (now : ℤ) (d : Domain) (h : Group) → is_blocked now d h ≡ false → IsUnblocked now d h
unfolding is_blocked owner_fresh
not_blocked now d h e = record {
  no_stop = ground (arith, e);
  leased = ground (arith, e);
  ready = ground (arith, e);
  free = no_blockers h.blockers (ground (arith, e));
}

still_running :
    (g h : Group)
    → Falls g h
    → h.state ≡ State.running
    → (g.state ≡ State.running) × (g.epoch ≡ h.epoch)
still_running g h (inl (s, e)) r = (sym s ∙ r, sym e)
still_running g h (inr (_, s, _)) r = absurd (cc (s, r))

-- A permission is granted only to a group that ran under the epoch already before the check, while
-- there was no global stop, while the owner's lease had not run out or none was required, and when
-- the check leaves the group ready and without a blocker.
pub permits-IsOpen :
    (now : ℤ) (n : String) (ep : ℕ) (d d' : Domain) (g : Group)
    → lookup n d.groups ≡ some g
    → permits now n ep d ≡ (d', ok true)
    → (h : Group) × (lookup n d'.groups ≡ some h) × IsOpen now ep d g h
permits-IsOpen now n ep d d' g there granted =
    let (through, h, found, unblocked, running, epoch) = permits_granted now n ep d d' granted in
    let left : (propagate now d).0 ≡ d' = ap (λ (x : Domain × Result (Unit {0})). x.0) through in
    let owner : SameOwner d' d = rw (← left) (propagate-SameOwner now d) in
    let guards = not_blocked now d' h unblocked in
    let (k, at_k, falls) = propagate-Falls now d n g there in
    let same : k ≡ h = same_some (sym (rw left at at_k) ∙ found) in
    let (ran, epoch_was) = still_running g h (rw same at falls) running in
    (
      h,
      found,
      record {
        running = ran;
        session = epoch_was ∙ epoch;
        no_stop = owner.inhibit guards.no_stop;
        leased = rw (← owner.required, ← owner.deadline) guards.leased;
        ready = guards.ready;
        free = guards.free;
      },
    )
