-- ===== src/Schedule/Tests.antt =====
-- Races every four hours (rolling_test.go), and races at an offset of an hour.
use kaepora.Base.{◌+◌, ◌-◌, ◌*◌, ◌/◌, ◌≡◌, ◌≢◌, refl, inr, [], ◌∷◌, arith}
use kaepora.Base.Int.{pos, ◌+ℤ◌}
use kaepora.Base.Result.{ok}
use kaepora.Clock.{Time, hour, second, day, unix_epoch}
use kaepora.Schedule.{
  RollingScheduler, period_seconds, unix, instant, chosen, try_period, rolling_loop, rolling_fuel,
  next_between,
}
use kaepora.Schedule.First.{Answers, next_between-Answers}
use kaepora.Schedule.Missed.{IsFirst, next_between-IsFirst, next_between-skips}

abbrev every_four_hours : RollingScheduler
every_four_hours = record {
  period = pos (4 * hour);
  offset = pos 0;
  modulus = pos 4;
  remainders = pos 1 ∷ pos 3 ∷ [];
}

-- 3 October 2020, 00:00 UTC.
abbrev midnight : Time
midnight = (unix_epoch + 1601683200) * second

run : Unit {0}
unfolding next_between rolling_loop rolling_fuel try_period chosen instant unix period_seconds ◌+ℤ◌
run = tt

at_nine :
    next_between every_four_hours (midnight + 9 * hour) (midnight + 7 * day)
    ≡ ok (midnight + 12 * hour)
unfolding run
at_nine = refl

at_noon :
    next_between every_four_hours (midnight + 12 * hour) (midnight + 7 * day)
    ≡ ok (midnight + 20 * hour)
unfolding run
at_noon = refl

next_between-Answers_example :
    Answers every_four_hours
      (midnight + 9 * hour)
      (midnight + 7 * day)
      (unix (midnight + 9 * hour) / period_seconds every_four_hours)
      (next_between every_four_hours (midnight + 9 * hour) (midnight + 7 * day))
unfolding period_seconds
next_between-Answers_example =
    next_between-Answers every_four_hours (midnight + 9 * hour) (midnight + 7 * day) (omega arith)
      (inr (omega arith)) (omega arith)

next_between-IsFirst_example :
    IsFirst every_four_hours
      (midnight + 9 * hour)
      (midnight + 7 * day)
      (next_between every_four_hours (midnight + 9 * hour) (midnight + 7 * day))
unfolding period_seconds
next_between-IsFirst_example =
    next_between-IsFirst every_four_hours (midnight + 9 * hour) (midnight + 7 * day) (omega arith)
      (inr (omega arith)) refl (omega arith)

abbrev an_hour_later : RollingScheduler
an_hour_later = record {
  period = pos (4 * hour);
  offset = pos (1 * hour);
  modulus = pos 1;
  remainders = pos 0 ∷ [];
}

-- There is an event at 13:00, and the next one that the scheduler gives is at 17:00.
past_one :
    next_between an_hour_later (midnight + 12 * hour) (midnight + 7 * day)
    ≡ ok (midnight + 17 * hour)
unfolding run
past_one = refl

next_between-skips_example :
    next_between an_hour_later (midnight + 12 * hour) (midnight + 7 * day)
    ≢ ok (midnight + 13 * hour)
unfolding run
next_between-skips_example =
    next_between-skips an_hour_later (midnight + 12 * hour) (midnight + 7 * day)
      (midnight + 13 * hour - 1) (omega arith) (inr (omega arith)) (omega arith)
      (refl, omega arith, omega arith) refl
