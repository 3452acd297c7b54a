-- ===== src/Safety/Freshness.antt =====
-- How old a feedback may be: robot_safety/include/robot_safety/freshness.hpp. All times are int64_t
-- nanoseconds; where two are subtracted both are at least 0, so no difference leaves the range.
pub mod Window
pub mod Recovery
use new_robot.Base.{Bool, true, false, ◌&&◌, ◌||◌, not, if◌then◌else◌}
use new_robot.Base.Int.{ℤ, pos, negsuc, ◌-ℤ◌, ltb_ℤ, leb_ℤ, eqb_ℤ}
use new_robot.Base.Outcome.{Result, ok, err, invalid_argument}

pub data Freshening : Type 0 where
  unknown healthy warn stop stabilizing : Freshening

abbrev pub is_unknown : Freshening → Bool
is_unknown Freshening.unknown = true
is_unknown _ = false

abbrev pub is_healthy : Freshening → Bool
is_healthy Freshening.healthy = true
is_healthy _ = false

abbrev pub is_warn : Freshening → Bool
is_warn Freshening.warn = true
is_warn _ = false

pub record Thresholds : Type 0 where
  pub warn_ns : ℤ
  pub stop_ns : ℤ
  pub stable_ns : ℤ

pub record Freshness : Type 0 where
  pub limits : Thresholds
  pub state : Freshening
  pub stable_since : ℤ
  pub last_now : ℤ
  pub last_feedback : ℤ
  pub seen_time : Bool
  pub warning_latched : Bool

unfoldable pub new_freshness : Thresholds → Result Freshness
new_freshness limits =
    if leb_ℤ limits.warn_ns (pos 0)
      || leb_ℤ limits.stop_ns limits.warn_ns
      || ltb_ℤ limits.stable_ns (pos 0)
    then err (invalid_argument "require 0 < warn < stop and stable >= 0")
    else ok (record {
      limits = limits;
      state = Freshening.unknown;
      stable_since = negsuc 0;
      last_now = pos 0;
      last_feedback = negsuc 0;
      seen_time = false;
      warning_latched = false;
    })

-- The arguments of `observe`.
pub record Observation : Type 0 where
  pub now_ns : ℤ
  pub last_feedback_ns : ℤ
  pub valid : Bool
  pub hard_fault : Bool

abbrev pub out_of_order : Observation → Freshness → Bool
out_of_order o f = ltb_ℤ o.now_ns (pos 0) || (f.seen_time && ltb_ℤ o.now_ns f.last_now)

-- `state_ = State::Stop; stable_since_ = -1; warning_latched_ = false`.
abbrev pub stopped : Freshness → Freshness
stopped f = record f { state = Freshening.stop; stable_since = negsuc 0; warning_latched = false }

abbrev pub trustworthy : Observation → Bool
trustworthy o = o.valid && leb_ℤ (pos 0) o.last_feedback_ns && leb_ℤ o.last_feedback_ns o.now_ns

unfoldable pub age : Observation → Freshness → ℤ
age o f = if trustworthy o then o.now_ns -ℤ o.last_feedback_ns else f.limits.stop_ns

unfoldable pub gap : Observation → Freshness → Bool
gap o f =
    trustworthy o
    && leb_ℤ (pos 0) f.last_feedback
    && ltb_ℤ f.last_feedback o.last_feedback_ns
    && leb_ℤ f.limits.stop_ns (o.last_feedback_ns -ℤ f.last_feedback)

-- The times that a call that does not throw takes over.
unfoldable pub noted : Observation → Freshness → Freshness
noted o f =
    let t = record f { seen_time = true; last_now = o.now_ns } in
    if trustworthy o && ltb_ℤ f.last_feedback o.last_feedback_ns
    then record t { last_feedback = o.last_feedback_ns }
    else t

-- A feedback between the two limits.
unfoldable pub ageing : Freshness → Freshness
ageing f =
    let g = record f { stable_since = negsuc 0 } in
    if is_healthy f.state || is_warn f.state
    then record g { state = Freshening.warn; warning_latched = true }
    else record g { state = Freshening.stop }

-- `if (stable_since_ < 0) stable_since_ = now_ns`.
abbrev pub window_start : ℤ → Freshness → ℤ
window_start now f = if ltb_ℤ f.stable_since (pos 0) then now else f.stable_since

-- A fresh feedback.
unfoldable pub settling : ℤ → Freshness → Freshness
settling now f =
    if is_unknown f.state && eqb_ℤ f.limits.stable_ns (pos 0)
    then record f { state = Freshening.healthy }
    else if is_healthy f.state
    then f
    else let g = record f { stable_since = window_start now f } in
      if leb_ℤ f.limits.stable_ns (now -ℤ g.stable_since)
      then record g { warning_latched = false; state = Freshening.healthy }
      else record g {
        state = if f.warning_latched then Freshening.warn else Freshening.stabilizing;
      }

-- Whether the feedback is lost: a hard fault, a gap, no valid data, or the deadline.
abbrev pub is_lost : Observation → Freshness → Bool
is_lost o f = o.hard_fault || gap o f || not (trustworthy o) || leb_ℤ f.limits.stop_ns (age o f)

unfoldable pub observed : Observation → Freshness → Freshness
unfolding noted ageing settling
observed o f =
    if is_lost o f
    then stopped (noted o f)
    else if leb_ℤ f.limits.warn_ns (age o f)
    then ageing (noted o f)
    else settling o.now_ns (noted o f)

unfoldable pub observe : Observation → Freshness → Freshness × Result Freshening
unfolding observed
observe o f =
    if out_of_order o f
    then (stopped f, err (invalid_argument "monotonic time required"))
    else let g = observed o f in (g, ok g.state)

abbrev pub trustworthy_for_motion : Freshness → Bool
trustworthy_for_motion f = is_healthy f.state || is_warn f.state
