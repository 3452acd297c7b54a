-- ===== src/Safety/Calls/Epochs.antt =====
-- What the moves mean for a session: how it begins, and that a session which has ended does not
-- come back.
use new_robot.Base.{
  ℕ, ◌+◌, ◌*◌, ◌^◌, ◌≤◌, ◌<◌, String, ◌≡◌, refl, sym, ◌∙◌, ◌≢◌, ap, ◌⊎◌, inl, inr, Bool, true,
  false, Option, none, some, List, [], ◌∷◌, arith, length, ◌==◌, ◌&&◌, not,
}
use new_robot.Base.Int.{ℤ}
use new_robot.Base.Names.{lookup}
use new_robot.Base.Outcome.{Result, ok, err}
use new_robot.Safety.Types.{State, Group, Domain, u64, state_eq}
use new_robot.Safety.Propagate.{propagate, after}
use new_robot.Safety.Sessions.{is_blocked, with_group, permits}
use new_robot.Safety.Calls.{Call, step, steps}
use new_robot.Safety.Calls.Moves.{Moves, falls, arms, runs, stops, retires, same_some}
use new_robot.Safety.Calls.Steps.{step-Moved}

running_Moves :
    {c : Call} {n : String} {g g' : Group}
    → Moves c n g g'
    → g'.state ≡ State.running
    → g.state ≢ State.running
    → (c ≡ Call.runs n) × (g.state ≡ State.armed) × (g'.epoch ≡ g.epoch)
running_Moves (falls f) e h = ground arith
running_Moves (arms k c f a r s p) e h = ground arith
running_Moves (runs k c f a s p) e h = ground arith
running_Moves (stops s p) e h = ground arith
running_Moves (retires a s p) e h = ground arith

-- A group comes to run only by the call `run` for that group, out of Armed, and under the epoch that
-- it was armed with. No report, acknowledgement, reset or configuration makes a group run.
pub run_only :
    (d : Domain) (now : ℤ) (c : Call) (n : String) (g g' : Group)
    → lookup n d.groups ≡ some g
    → lookup n (step d (now, c)).groups ≡ some g'
    → g.state ≢ State.running
    → g'.state ≡ State.running
    → (c ≡ Call.runs n) × (g.state ≡ State.armed) × (g'.epoch ≡ g.epoch)
run_only d now c n g g' before now_is h e =
    let (x, f, m) = step-Moved d now c n g before in
    running_Moves (rw (same_some (sym f ∙ now_is)) at m) e h

-- How far an epoch has moved: `k` steps, and within an epoch only from Armed to Running.
abbrev Later : ℕ → Group → Group → Type 0
Later k g g' =
    ((k ≡ 0)
      × (g'.epoch ≡ g.epoch)
      × ((g'.state ≡ g.state) ⊎ ((g.state ≡ State.armed) × (g'.state ≡ State.running))))
    ⊎ ((0 < k) × (g'.epoch ≡ u64 (g.epoch + k)))

Later-trans : (j k : ℕ) (a b c : Group) → Later j a b → Later k b c → Later (j + k) a c
Later-trans j k a b c p q = ground arith

Moves-Later :
    {c : Call} {n : String} {g g' : Group} → Moves c n g g' → (k : ℕ) × (k ≤ 2) × Later k g g'
Moves-Later (falls (inl (s, e))) = (0, omega arith, inl (refl, e, inl s))
Moves-Later (falls (inr (a, s, e))) = (1, omega arith, inr (omega arith, e))
Moves-Later (arms h c (inl (t, f)) a r s p) = (1, omega arith, inr (omega arith, ground arith))
Moves-Later (arms h c (inr (t, u, f)) a r s p) = (2, omega arith, inr (omega arith, ground arith))
Moves-Later (runs h c (inl (t, f)) a s p) = (0, omega arith, inl (refl, p ∙ f, inr (sym t ∙ a, s)))
Moves-Later (runs h c (inr (t, u, f)) a s p) = absurd (ground arith)
Moves-Later (stops s p) = (1, omega arith, inr (omega arith, p))
Moves-Later (retires a s p) = (1, omega arith, inr (omega arith, p))

steps-Later :
    (d : Domain) (cs : List (ℤ × Call)) (n : String) (g : Group)
    → lookup n d.groups ≡ some g
    → (g' : Group) × (k : ℕ) × (lookup n (steps d cs).groups ≡ some g')
      × (k ≤ 2 * length cs)
      × Later k g g'
unfolding steps
steps-Later d [] n g h = (g, 0, h, omega arith, inl (refl, refl, inl refl))
steps-Later d ((now, c) ∷ cs) n g h =
    let (x, e, m) = step-Moved d now c n g h in
    let (j, small, l) = Moves-Later m in
    let (g', k, f, bound, r) = steps-Later (step d (now, c)) cs n x e in
    (g', j + k, f, omega arith, Later-trans j k g x g' l r)

permission : ℤ → String → ℕ → Domain → Domain × Result Bool
permission now n ep c =
    with_group n c
      λ g. (c, ok (not (is_blocked now c g) && state_eq g.state State.running && g.epoch == ep))

granted_parts :
    (c d' : Domain) (b : Bool)
    → ◌≡◌ {A = Domain × Result Bool} (c, ok b) (d', ok true)
    → (c ≡ d') × (b ≡ true)
granted_parts c d' b h =
    let r : ok b ≡ ok true = ap (λ (x : Domain × Result Bool). x.1) h in
    (ap (λ (x : Domain × Result Bool). x.0) h, ground arith)

permission_granted :
    (now : ℤ) (n : String) (ep : ℕ) (c d' : Domain) (o : Option Group)
    → lookup n c.groups ≡ o
    → permission now n ep c ≡ (d', ok true)
    → (g : Group) × (o ≡ some g)
      × (c ≡ d')
      × (is_blocked now c g ≡ false)
      × (g.state ≡ State.running)
      × (g.epoch ≡ ep)
unfolding permission
permission_granted now n ep c d' none e h = absurd (ground (arith, rw (e, with_group) at h))
permission_granted now n ep c d' (some g) e h =
    let (same, yes_all) = granted_parts c d' _ (rw (e, with_group) at h) in
    (g, refl, same, ground arith, ground arith, ground arith)

after_granted :
    (now : ℤ) (n : String) (ep : ℕ) (d' : Domain) (p : Domain × Result (Unit {0}))
    → after p (permission now n ep) ≡ (d', ok true)
    → (p ≡ (p.0, ok tt)) × (permission now n ep p.0 ≡ (d', ok true))
after_granted now n ep d' (c, ok _) h = (refl, h)
after_granted now n ep d' (c, err x) h = absurd (ground arith)

-- What a granted permission shows: propagation went through, and in the state that it left nothing
-- blocks the group, which runs under the epoch asked for.
pub permits_granted :
    (now : ℤ) (n : String) (ep : ℕ) (d d' : Domain)
    → permits now n ep d ≡ (d', ok true)
    → (propagate now d ≡ (d', ok tt))
      × (g : Group) × (lookup n d'.groups ≡ some g)
      × (is_blocked now d' g ≡ false)
      × (g.state ≡ State.running)
      × (g.epoch ≡ ep)
unfolding permits permission
permits_granted now n ep d d' h =
    let p = propagate now d in
    let (through, h') = after_granted now n ep d' p h in
    let (g, found, same, free, running, epoch) =
      permission_granted now n ep p.0 d' (lookup n p.0.groups) refl h' in
    (
      through ∙ ap (λ (x : Domain). (x, ok tt)) same,
      g,
      rw (← same) found,
      rw (← same) free,
      running,
      epoch,
    )

permits-step :
    (now : ℤ) (n : String) (ep : ℕ) (d d' : Domain)
    → permits now n ep d ≡ (d', ok true)
    → step d (now, Call.permission n ep) ≡ d'
unfolding step
permits-step now n ep d d' h = ap (λ (x : Domain × Result Bool). x.0) h

left_running :
    (j : ℕ) (g h : Group) → Later j g h → g.state ≡ State.running → h.state ≢ State.running → 0 < j
left_running j g h l run stopped = ground arith

epochs_apart :
    (k : ℕ) (g y : Group) → Later k g y → 0 < k → k < 2 ^ 64 → g.epoch < 2 ^ 64 → y.epoch ≢ g.epoch
epochs_apart k g y l pos few small same = omega arith

permits-lookup :
    (now : ℤ) (n : String) (ep : ℕ) (d d' : Domain)
    → permits now n ep d ≡ (d', ok true)
    → steps d ((now, Call.permission n ep) ∷ []) ≡ d'
unfolding steps
permits-lookup now n ep d d' h = permits-step now n ep d d' h

-- A session that has ended never has its permission again: a group that ran under an epoch below
-- 2 ^ 64, and that after some calls runs no more, is not granted that epoch after any further calls,
-- restarts under new epochs included, as long as fewer than 2 ^ 62 calls are made in all.
pub ended_session :
    (d : Domain) (before later : List (ℤ × Call)) (now : ℤ) (n : String) (g h : Group) (d' : Domain)
    → lookup n d.groups ≡ some g
    → g.state ≡ State.running
    → g.epoch < 2 ^ 64
    → lookup n (steps d before).groups ≡ some h
    → h.state ≢ State.running
    → length before + length later < 2 ^ 62
    → permits now n g.epoch (steps (steps d before) later) ≢ (d', ok true)
ended_session d before later now n g h d' found run small ended stopped few granted =
    let (h', j, e, j_small, l) = steps-Later d before n g found in
    let same : h' ≡ h = same_some (sym e ∙ ended) in
    let (x, k, f, k_small, m) = steps-Later (steps d before) later n h ended in
    let asked = steps (steps d before) later in
    let (y, i, q, i_small, r) = steps-Later asked ((now, Call.permission n g.epoch) ∷ []) n x f in
    let (_, z, found_z, _, _, same_epoch) = permits_granted now n g.epoch asked d' granted in
    let there : y ≡ z =
      same_some (sym (rw (permits-lookup now n g.epoch asked d' granted) at q) ∙ found_z) in
    let first : Later j g h = rw same at l in
    epochs_apart (j + k + i) g y (Later-trans (j + k) i g x y (Later-trans j k g h x first m) r)
      (omega (arith, left_running j g h first run stopped)) (omega arith) small
      (ap (λ (u : Group). u.epoch) there ∙ same_epoch)
