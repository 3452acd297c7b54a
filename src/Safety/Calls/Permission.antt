-- ===== src/Safety/Calls/Permission.antt =====
-- What holds when a group is permitted to move.
use mathlib.Core.Logic.{◌≢◌}
use new_robot.Base.{ℕ, String, ◌≡◌, sym, ◌∙◌, true, false, some, arith}
use new_robot.Base.Int.{ℤ}
use new_robot.Base.Names.{NameSet, lookup, contains}
use new_robot.Base.Outcome.{ok}
use new_robot.Safety.Types.{Event, Group, Domain}
use new_robot.Safety.Setup.{non_empty}
use new_robot.Safety.Scope.{is_active, direct_scope}
use new_robot.Safety.Scope.Closure.{Reach, scope-Reach}
use new_robot.Safety.Propagate.{prepared}
use new_robot.Safety.Propagate.Blockers.{propagate-IsBlocked}
use new_robot.Safety.Sessions.{is_blocked, permits}
use new_robot.Safety.Calls.Moves.{same_some}
use new_robot.Safety.Calls.Epochs.{permits_granted}

unblocked :
    (now : ℤ) (d : Domain) (g : Group) → is_blocked now d g ≡ false → non_empty g.blockers ≡ false
unfolding is_blocked
unblocked now d g h = ground arith

same_ok : {a b : NameSet} → ok a ≡ ok b → a ≡ b
same_ok h = ground arith

true≢false : true ≢ false
true≢false h = cc

-- A group that is permitted to move is out of the reach of every recorded event whose own groups
-- are known: no chain of active associations leads to it from a group that the event concerns.
pub permits_unreached :
    (now : ℤ) (n : String) (ep : ℕ) (d d' : Domain) (id : String) (e : Event) (start : NameSet)
    → permits now n ep d ≡ (d', ok true)
    → lookup id d.events ≡ some e
    → direct_scope (prepared now d) e ≡ ok start
    → ¬ Reach (is_active now (prepared now d) e) (prepared now d).associations start n
permits_unreached now n ep d d' id e start granted recorded direct reached =
    let (through, g, found, free, _, _) = permits_granted now n ep d d' granted in
    let (names, is_scope, all_blocked) = propagate-IsBlocked now d d' id e through recorded in
    let (s, same, exact) = scope-Reach now (prepared now d) e start direct in
    let in_names : contains n names ≡ true =
      rw (same_ok (sym is_scope ∙ same)) ((exact n).1 reached) in
    let (h, there, blocked) = all_blocked n in_names in
    let same_group : h ≡ g = same_some (sym there ∙ found) in
    true≢false (sym blocked ∙ (rw (← same_group) at (unblocked now d' g free)))
