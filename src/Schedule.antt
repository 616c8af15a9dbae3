-- ===== src/Schedule.antt =====
-- internal/back/schedule: when the sessions of a league are held.
pub mod First
pub mod Missed
pub mod DayOfWeek
pub mod Config
pub mod Tests
use kaepora.Base.{
  ℕ, zero, suc, ◌+◌, ◌-◌, ◌*◌, ◌/◌, ◌%◌, ◌≡◌, List, [], ◌∷◌, Option, some, none, Bool, true, false,
  ltb, ◌==◌, ◌&&◌, if◌then◌else◌,
}
use kaepora.Base.Int.{ℤ, pos, negsuc, pos_part, neg_part, ◌+ℤ◌, ltb_ℤ}
use kaepora.Base.Result.{Result, ok, err, panic, internal, ◌>>=◌}
use kaepora.Clock.{Time, second, day, unix_epoch}

-- `RollingScheduler` (rolling.go). Durations are in nanoseconds.
pub record RollingScheduler : Type 0 where
  pub period : ℤ
  pub offset : ℤ
  pub modulus : ℤ
  pub remainders : List ℤ

-- `int64(math.Floor(s.Period.Seconds()))`; what is not positive is refused, and is 0 here.
unfoldable pub period_seconds : RollingScheduler → ℕ
period_seconds s = pos_part s.period / second

-- `t.Unix()`, for times from 1970 on. The scheduler is asked about the clock of the server, and
-- what is said of it is said from 1970 on: before, `t.Unix()` is negative, and this is 0.
unfoldable pub unix : Time → ℕ
unix t = t / second - unix_epoch

-- `time.Unix(period*periodID, 0).Add(s.Offset)`.
unfoldable pub instant : RollingScheduler → ℕ → ℤ
instant s id = pos ((unix_epoch + period_seconds s * id) * second) +ℤ s.offset

abbrev abs : ℤ → ℕ
abs a = pos_part a + neg_part a

abbrev eq_ℤ : ℤ → ℤ → Bool
eq_ℤ a b = pos_part a == pos_part b && neg_part a == neg_part b

-- The loop over the remainders. Go's remainder by a negative number is that by its absolute
-- value, for a dividend that is not negative, and the remainder by 0 panics.
unfoldable pub chosen : ℤ → List ℤ → ℕ → Result Bool
chosen modulus [] id = ok false
chosen modulus (v ∷ remainders) id =
    if abs modulus == 0
    then err (panic "integer divide by zero")
    else if eq_ℤ (pos (id % abs modulus)) v
    then ok true
    else chosen modulus remainders id

-- One round of the loop, for one number of the period: `none` is `continue`.
unfoldable pub try_period : RollingScheduler → Time → Time → ℕ → Result (Option Time)
try_period s t max id =
    if ltb_ℤ (instant s id) (pos t)
    then ok none
    else if ltb_ℤ (pos max) (instant s id)
    then ok (some 0)
    else (do
      found ← chosen s.modulus s.remainders id
      ok (if found then some (pos_part (instant s id)) else none))

-- The loop, with fuel for its rounds.
unfoldable pub rolling_loop : ℕ → RollingScheduler → Time → Time → ℕ → Result Time
rolling_loop zero s t max id = err (internal "out of fuel")
rolling_loop (suc fuel) s t max id = elim (try_period s t max (suc id)) [
  | ok (some next) ↦ ok next
  | ok none ↦ rolling_loop fuel s t max (suc id)
  | err e ↦ err e
]

-- After as many rounds as there are seconds up to both bounds, and to the offset, an instant is
-- past them.
unfoldable pub rolling_fuel : RollingScheduler → Time → Time → ℕ
rolling_fuel s t max = (t + max + neg_part s.offset) / second + 1

-- `NextBetween`. The zero time says that there is none.
unfoldable pub next_between : RollingScheduler → Time → Time → Result Time
next_between s t max =
    if period_seconds s == 0
    then ok 0
    else rolling_loop (rolling_fuel s t max) s t max (unix t / period_seconds s)

-- `Next`: within a week. (In UTC; `AddDate` keeps the hour of the day.)
unfoldable pub next : RollingScheduler → Time → Result Time
next s now = next_between s now (now + 7 * day)
