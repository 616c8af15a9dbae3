-- ===== src/Schedule/Config.antt =====
-- internal/back/schedule/schedule.go: the scheduler that a configuration names.
use Prim.Native.String.{String, ◌++◌}
use text.Mathlib.Text
use kaepora.Base.{[], Option, some, none, if◌then◌else◌}
use kaepora.Base.Int.{pos}
use kaepora.Base.Result.{Result, ok, err, Error, internal, panic}
use kaepora.Clock.{Time}
use kaepora.Store.{ScheduleConfig}
use kaepora.Schedule.{RollingScheduler, next}
use kaepora.Schedule.DayOfWeek.{
  LoadLocation, DayOfWeekScheduler, new_day_of_week_scheduler, next_hour,
}

-- The implementations of `Scheduler`.
pub data Scheduler : Type 0 where
  day_of_week : DayOfWeekScheduler → Scheduler
  rolling : RollingScheduler → Scheduler
  void : Scheduler

-- `json.Unmarshal` into a value of either type.
pub record Unmarshal : Type 0 where
  pub to_day_of_week : String → DayOfWeekScheduler → Result DayOfWeekScheduler
  pub to_rolling : String → RollingScheduler → Result RollingScheduler

abbrev pub new_rolling_scheduler : RollingScheduler
new_rolling_scheduler = record { period = pos 0; offset = pos 0; modulus = pos 0; remainders = [] }

-- `New` gives a scheduler, or nil, and an error, or nil. The text of the error is its own.
unfoldable pub new_scheduler : Unmarshal → ScheduleConfig → Option Scheduler × Option Error
new_scheduler unmarshal conf =
    if Text.◌==◌ conf.kind "day-of-week"
    then elim (unmarshal.to_day_of_week conf.payload new_day_of_week_scheduler) [
      | err e ↦ (none, some e)
      | ok s ↦ (some (day_of_week s), none)
    ]
    else if Text.◌==◌ conf.kind "rolling"
    then elim (unmarshal.to_rolling conf.payload new_rolling_scheduler) [
      | err e ↦ (none, some e)
      | ok s ↦ (some (rolling s), none)
    ]
    else (some void, some (internal ("invalid scheduler type '" ++ conf.kind ++ "'")))

-- `Next` of whichever scheduler it is; a nil one panics.
unfoldable pub scheduler_next : LoadLocation → Option Scheduler → Time → Result Time
scheduler_next load_location none now = err (panic "nil pointer dereference")
scheduler_next load_location (some (day_of_week s)) now = next_hour load_location s now
scheduler_next load_location (some (rolling s)) now = next s now
scheduler_next load_location (some void) now = ok 0
