-- ===== src/Schedule/DayOfWeek.antt =====
-- `DayOfWeekScheduler` of internal/back/schedule/day_of_week.go: hours of each day of the week, in
-- the local time of some place.
pub mod Bounded
pub mod Weeks
pub mod Midnight
pub mod Tests
use Prim.Native.String.{String}
use kaepora.Base.{
  ℕ, zero, suc, ◌+◌, ◌-◌, ◌*◌, ◌/◌, List, [], ◌∷◌, ◌++◌, Option, some, none, Bool, true, false, not,
  ltb, leb, ◌==◌, ◌&&◌, ◌||◌, if◌then◌else◌,
}
use kaepora.Base.Lists.{get_elem?}
use kaepora.Base.Result.{Result, ok, err, panic, internal, ◌>>=◌}
use kaepora.Base.Text.{codes}
use kaepora.Clock.{Time, day, weekday}
use kaepora.Store.{order_by}

-- A `time.Location`: the instant, as `time.Date` gives it, of a calendar day, by its number, an
-- hour and a minute there. `LoadLocation` gives none for a name that it does not know.
abbrev pub Zone : Type 0
Zone = ℕ → ℕ → ℕ → Time

abbrev pub LoadLocation : Type 0
LoadLocation = List ℕ → Option Zone

pub record DayOfWeekScheduler : Type 0 where
  pub mon : List String
  pub tue : List String
  pub wed : List String
  pub thu : List String
  pub fri : List String
  pub sat : List String
  pub sun : List String

abbrev pub new_day_of_week_scheduler : DayOfWeekScheduler
new_day_of_week_scheduler = record {
  mon = [];
  tue = [];
  wed = [];
  thu = [];
  fri = [];
  sat = [];
  sun = [];
}

unfoldable pub set_all : DayOfWeekScheduler → List String → DayOfWeekScheduler
set_all s hours = record s {
  mon = hours;
  tue = hours;
  wed = hours;
  thu = hours;
  fri = hours;
  sat = hours;
  sun = hours;
}

unfoldable pub hours_for_dow : DayOfWeekScheduler → ℕ → Result (List String)
hours_for_dow s dow =
    elim (get_elem? (s.sun ∷ s.mon ∷ s.tue ∷ s.wed ∷ s.thu ∷ s.fri ∷ s.sat ∷ []) dow) [
      | some hours ↦ ok hours
      | none ↦ err (panic "index out of range")
    ]

-- `strings.SplitN(str, " ", 2)`, or `none` if that has one part only.
abbrev split_space : List ℕ → Option (List ℕ × List ℕ)
split_space [] = none
split_space (c ∷ str) =
    let rest = split_space str in
    if c == b' '
    then some ([], str)
    else elim rest [ some (first, second) ↦ some (c ∷ first, second) | none ↦ none ]

unfoldable pub hour_location : LoadLocation → String → Option (List ℕ × Zone)
hour_location load_location str = elim (split_space (codes str)) [
  | none ↦ none
  | some (hour_str, name) ↦ elim (load_location name) [
    | none ↦ none
    | some location ↦ some (hour_str, location)
  ]
]

is_digit : ℕ → Bool
is_digit c = leb b'0' c && leb c b'9'

-- A number of two digits; where it is not `fixed`, one digit is enough.
unfoldable pub get_num : Bool → List ℕ → Option (ℕ × List ℕ)
unfolding is_digit
get_num fixed [] = none
get_num fixed (a ∷ []) = if is_digit a && not fixed then some (a - b'0', []) else none
get_num fixed (a ∷ b ∷ rest) =
    if not (is_digit a)
    then none
    else if is_digit b
    then some ((a - b'0') * 10 + (b - b'0'), rest)
    else if fixed
    then none
    else some (a - b'0', b ∷ rest)

-- What is behind the hour in the layout `15:04`.
unfoldable pub parse_minute : ℕ → List ℕ → Option (ℕ × ℕ)
unfolding get_num
parse_minute hour [] = none
parse_minute hour (c ∷ rest) = if not (c == b':') then none else elim (get_num true rest) [
  | some (minute, []) ↦ if ltb minute 60 then some (hour, minute) else none
  | _ ↦ none
]

-- `time.ParseInLocation("15:04", …)`, read by `Hour` and `Minute`.
unfoldable pub parse_hour : List ℕ → Option (ℕ × ℕ)
unfolding get_num parse_minute
parse_hour str = elim (get_num false str) [
  | some (hour, rest) ↦ if ltb hour 24 then parse_minute hour rest else none
  | none ↦ none
]

-- The number of the Sunday with which the week of an instant starts.
unfoldable pub sunday_of : Time → ℕ
unfolding weekday
sunday_of t = t / day - weekday t

module _ (load_location : LoadLocation) where
  -- The body of the inner loop of `flattenHours`; `none` is `continue`.
  unfoldable pub hour_on : ℕ → String → Option Time
  unfolding hour_location parse_hour
  hour_on date raw_hour = elim (hour_location load_location raw_hour) [
    | none ↦ none
    | some (hour_str, location) ↦ elim (parse_hour hour_str) [
      | none ↦ none
      | some (hour, minute) ↦ some (location date hour minute)
    ]
  ]

  unfoldable pub hours_on : ℕ → List String → List Time
  unfolding hour_on
  hours_on date [] = []
  hours_on date (raw_hour ∷ hours) =
      let rest = hours_on date hours in
      elim (hour_on date raw_hour) [ none ↦ rest | some hour ↦ hour ∷ rest ]

  -- The loop over the days from `dow` on, of which some are left.
  unfoldable pub hours_from : DayOfWeekScheduler → ℕ → ℕ → ℕ → Result (List Time)
  unfolding hours_on hours_for_dow
  hours_from s start zero dow = ok []
  hours_from s start (suc left) dow = do
    hours ← hours_for_dow s dow
    rest ← hours_from s start left (suc dow)
    ok (hours_on (start + dow) hours ++ rest)

  unfoldable pub flatten_hours : DayOfWeekScheduler → Time → Result (List Time)
  flatten_hours s t = do ret ← hours_from s (sunday_of t) 7 0; ok (order_by (λ hour. hour) ret)

-- The loop over the hours: the first one that is not before `t` and is not `t`.
unfoldable pub first_after : Time → List Time → Option Time
first_after t [] = none
first_after t (next ∷ hours) = if ltb next t || next == t then first_after t hours else some next

module _ (load_location : LoadLocation) (s : DayOfWeekScheduler) where
  -- `NextBetween` with fuel for its calls. Times are in UTC.
  unfoldable pub day_of_week_from : ℕ → Time → Time → Result Time
  day_of_week_from zero t max = err (internal "out of fuel")
  day_of_week_from (suc fuel) t max =
      if ltb max t then ok 0 else elim (flatten_hours load_location s t) [
        | err e ↦ err e
        | ok hours ↦ elim (first_after t hours) [
          | some next ↦ ok (if ltb max next then 0 else next)
          | none ↦ day_of_week_from fuel ((t / day + 1) * day) max
        ]
      ]

  -- Every call but the first one is for the next day.
  unfoldable pub next_hour_between : Time → Time → Result Time
  next_hour_between t max = day_of_week_from (max / day + 2) t max

  unfoldable pub next_hour : Time → Result Time
  unfolding next_hour_between
  next_hour now = next_hour_between now (now + 7 * day)
