-- ===== src/Clock.antt =====
-- Instants, and the nullable timestamps of internal/util/sql_time_as_timestamp.go.
-- An instant is the number of nanoseconds since Go's zero time, Monday 1 January of year 1,
-- 00:00 UTC, so that `IsZero` is the test for 0 and every day begins at a multiple of a day.
use kaepora.Base.{ℕ, ◌+◌, ◌*◌, ◌/◌, ◌%◌, Bool, not, ◌==◌}

abbrev pub Time : Type 0
Time = ℕ

abbrev pub second : ℕ
second = 1000000000

abbrev pub minute : ℕ
minute = 60 * second

abbrev pub hour : ℕ
hour = 60 * minute

abbrev pub day : ℕ
day = 24 * hour

-- Seconds from the zero time to the epoch of Unix time, 1 January 1970.
abbrev pub unix_epoch : ℕ
unix_epoch = 62135596800

pub record NullTimestamp : Type 0 where
  pub time : Time
  pub valid : Bool

unfoldable pub new_null_timestamp : Time → NullTimestamp
new_null_timestamp t = record { time = t; valid = not (t == 0) }

abbrev pub null_timestamp : NullTimestamp
null_timestamp = record { time = 0; valid = Bool.false }

-- `Weekday`, from Sunday, 0, to Saturday, 6. Day 0 is a Monday.
unfoldable pub weekday : Time → ℕ
weekday t = (t / day + 1) % 7
