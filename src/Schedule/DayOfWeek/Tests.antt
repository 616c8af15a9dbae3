-- ===== src/Schedule/DayOfWeek/Tests.antt =====
-- Hours of day_of_week_test.go, and hours in UTC.
use kaepora.Base.{
  ◌+◌, ◌-◌, ◌*◌, ◌<◌, ◌≡◌, refl, ap, [], ◌∷◌, some, none, ◌==◌, if◌then◌else◌, arith,
}
use kaepora.Base.Lists.{get_elem?}
use kaepora.Base.Result.{ok}
use kaepora.Clock.{Time, day, hour, second, unix_epoch}
use kaepora.Store.{order_with}
use kaepora.Schedule.DayOfWeek.{
  LoadLocation, DayOfWeekScheduler, new_day_of_week_scheduler, sunday_of, flatten_hours, hours_from,
  next_hour_between, day_of_week_from, first_after, set_all,
}
use kaepora.Schedule.DayOfWeek.Bounded.{Scheduled-Each, Bounded, next_hour_between-Bounded}
use kaepora.Schedule.DayOfWeek.Weeks.{StaysInWeek, IsNext, next_hour_between-IsNext}
use kaepora.Schedule.DayOfWeek.Midnight.{utc, sunday_midnight, sunday_midnight-missed}

-- Paris and Dublin in the summer, by the first letter behind `Europe/`, and else UTC.
abbrev pub summer : LoadLocation
summer name = elim (get_elem? name 7) [
  | none ↦ some utc
  | some letter ↦
      if letter == b'P'
      then some (λ date h m. utc date h m - 2 * hour)
      else if letter == b'D'
      then some (λ date h m. utc date h m - 1 * hour)
      else none
]

abbrev pub three_days : DayOfWeekScheduler
three_days = record new_day_of_week_scheduler {
  mon = "05:00 Europe/Paris" ∷ "05:00 Europe/Dublin" ∷ [];
  tue = "15:00 Europe/Paris" ∷ "15:00 Europe/Dublin" ∷ [];
  fri = "10:00 UTC" ∷ "24:00 UTC" ∷ "noon" ∷ [];
}

-- 23 August 2020, a Sunday, 00:00 UTC.
abbrev pub sunday : Time
sunday = (unix_epoch + 1598140800) * second

run : Unit {0}
unfolding next_hour_between day_of_week_from first_after flatten_hours hours_from order_with set_all
    sunday_of
run = tt

on_sunday : next_hour_between summer three_days sunday (sunday + 7 * day) ≡ ok (sunday + 27 * hour)
unfolding run
on_sunday = refl

at_five :
    next_hour_between summer three_days (sunday + 27 * hour) (sunday + 8 * day)
    ≡ ok (sunday + 28 * hour)
unfolding run
at_five = refl

in_the_next_week :
    next_hour_between summer three_days (sunday + 5 * day + 11 * hour) (sunday + 12 * day)
    ≡ ok (sunday + 7 * day + 27 * hour)
unfolding run
in_the_next_week = refl

abbrev pub monday_noon : DayOfWeekScheduler
monday_noon = record new_day_of_week_scheduler { mon = "12:00 UTC" ∷ [] }

monday_noon-flattened :
    (u : Time)
    → flatten_hours summer monday_noon u ≡ ok (((sunday_of u + 1) * day + 12 * hour) ∷ [])
unfolding flatten_hours hours_from order_with
monday_noon-flattened u = ap (λ x. ok (x ∷ [])) at
  where
    at : utc (sunday_of u + 1) 12 0 ≡ (sunday_of u + 1) * day + 12 * hour
    at = omega arith

monday_noon-StaysInWeek : StaysInWeek summer monday_noon
monday_noon-StaysInWeek u x hu =
    Scheduled-Each summer monday_noon (λ y. (sunday_of u * day < y) × (y < (sunday_of u + 7) * day))
      u x _ (monday_noon-flattened u) ((omega arith, omega arith), tt)

next_hour_between-Bounded_example :
    Bounded summer three_days sunday
      (sunday + 7 * day)
      (next_hour_between summer three_days sunday (sunday + 7 * day))
next_hour_between-Bounded_example =
    next_hour_between-Bounded summer three_days sunday (sunday + 7 * day)

next_hour_between-IsNext_example :
    (answer : Time) × (next_hour_between summer monday_noon sunday (sunday + 7 * day) ≡ ok answer)
    × IsNext summer monday_noon sunday (sunday + 7 * day) answer
next_hour_between-IsNext_example =
    next_hour_between-IsNext summer monday_noon sunday (sunday + 7 * day) (omega arith)
      monday_noon-StaysInWeek

sunday_midnight-missed_example :
    next_hour_between summer sunday_midnight (sunday + 3 * day) (sunday + 10 * day) ≡ ok 0
sunday_midnight-missed_example =
    sunday_midnight-missed summer (sunday + 3 * day) (sunday + 10 * day) (omega arith) refl
