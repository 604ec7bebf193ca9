-- ===== src/Policy/Quiet.antt =====
-- policy/engine.py: quiet hours. The time zone is a parameter: the wall clock that it shows at an
-- instant, and the instant of a wall clock.
use lemonbot.Prelude.{
  ℕ, ◌+◌, ◌-◌, ◌*◌, ◌/◌, ◌%◌, ◌≤◌, min, max, Bool, true, false, ◌&&◌, ◌||◌, ltb, leb, ◌==◌, nat_eq,
  if◌then◌else◌, arith,
}
use lemonbot.Domain.{Time, second}
use lemonbot.Policy.Config.{PolicyConfig, day}

pub record Zone : Type 0 where
  pub local : Time → Time
  pub utc : Time → Time

abbrev pub time_of_day : Time → Time
time_of_day local_now = local_now % day

unfoldable pub is_quiet_at : PolicyConfig → Time → Bool
is_quiet_at config current =
    if config.quiet_start == config.quiet_end
    then true
    else if ltb config.quiet_start config.quiet_end
    then leb config.quiet_start current && ltb current config.quiet_end
    else leb config.quiet_start current || ltb current config.quiet_end

unfoldable pub is_quiet : PolicyConfig → Time → Bool
unfolding is_quiet_at
is_quiet config local_now =
    if config.quiet_enabled then is_quiet_at config (time_of_day local_now) else false

-- The wall clock at which the quiet hours end, counted from the day of `local_now`.
abbrev pub wall_end : PolicyConfig → Time → Time
wall_end config local_now =
    let today = local_now / day in
    let end_date =
      if leb config.quiet_end config.quiet_start && leb config.quiet_start (time_of_day local_now)
      then today + 1
      else today in
    end_date * day + config.quiet_end

-- `now` is the instant whose wall clock is `local_now`. A difference below zero is cut off at 0, and
-- `max` makes it 1.
unfoldable pub quiet_retry_seconds : Zone → PolicyConfig → Time → ℕ
quiet_retry_seconds zone config now =
    let seconds = (zone.utc (wall_end config (zone.local now)) - now) / second in
    min 86400 (max 1 seconds)

-- The retry delay that the policy hands out lies within the bounds of
-- `PolicyEvaluation.retry_after_seconds`, from 1 to 86,400, in every zone and configuration.
pub quiet_retry_bounds :
    (zone : Zone) (config : PolicyConfig) (now : Time)
    → (1 ≤ quiet_retry_seconds zone config now) × (quiet_retry_seconds zone config now ≤ 86400)
unfolding quiet_retry_seconds
quiet_retry_bounds zone config now = (omega arith, omega arith)
