-- ===== src/Tests/Freshness.antt =====
-- A feedback channel with limits of 10 and 30 and a stable time of 20, and a session on the fleet.
use new_robot.Base.{ℕ, ◌≡◌, refl, true, false, [], ◌∷◌, List, arith}
use new_robot.Base.Int.{pos, negsuc, ◌+ℤ◌, ◌-ℤ◌}
use new_robot.Safety.Freshness.{
  Freshening, Freshness, Observation, observe, observed, noted, settling, ageing, age, gap,
  trustworthy_for_motion,
}
use new_robot.Safety.Freshness.Window.{readings, IsFresh, observe-IsFresh, stop-distrusted}
use new_robot.Safety.Freshness.Recovery.{readings-healthy, all_good}

abbrev channel : Freshness
channel = record {
  limits = record { warn_ns = pos 10; stop_ns = pos 30; stable_ns = pos 20 };
  state = Freshening.healthy;
  stable_since = negsuc 0;
  last_now = pos 100;
  last_feedback = pos 95;
  seen_time = true;
  warning_latched = false;
}

abbrev reading : ℕ → ℕ → Observation
reading now last = record {
  now_ns = pos now;
  last_feedback_ns = pos last;
  valid = true;
  hard_fault = false;
}

-- The feedback of 95 is 45 old.
abbrev late_reading : Observation
late_reading = reading 140 95

abbrev next_readings : List Observation
next_readings = reading 145 120 ∷ reading 150 145 ∷ reading 160 158 ∷ []

observe-IsFresh_example : IsFresh (reading 110 95) channel
unfolding observe readings observed noted settling ageing age gap ◌-ℤ◌ ◌+ℤ◌
observe-IsFresh_example = observe-IsFresh (reading 110 95) channel refl

stop-distrusted_example :
    trustworthy_for_motion (readings (late_reading ∷ next_readings) channel) ≡ false
unfolding observe readings observed noted settling ageing age gap ◌-ℤ◌ ◌+ℤ◌
stop-distrusted_example =
    stop-distrusted late_reading next_readings (pos 145) channel refl
      ((omega arith, omega arith), ((omega arith, omega arith), ((omega arith, omega arith), tt)))

readings-healthy_example :
    let settled =
      readings
        (reading 150 145 ∷ reading 160 158 ∷ [])
        (observe (record (reading 145 120) { hard_fault = true }) channel).0 in
    (observe (reading 171 168) settled).0.state ≡ Freshening.healthy
unfolding observe readings all_good observed noted settling ageing age gap ◌-ℤ◌ ◌+ℤ◌
readings-healthy_example =
    readings-healthy (record (reading 145 120) { hard_fault = true }) (reading 150 145)
      (reading 171 168) (reading 160 158 ∷ []) channel refl refl refl (omega arith)
