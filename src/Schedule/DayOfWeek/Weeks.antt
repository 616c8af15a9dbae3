-- ===== src/Schedule/DayOfWeek/Weeks.antt =====
-- `NextBetween` of the day-of-week scheduler, for schedules whose hours stay in their weeks.
use kaepora.Base.{
  ℕ, zero, suc, ◌+◌, ◌*◌, ◌/◌, ◌≤◌, ◌<◌, ◌≡◌, ◌⊎◌, inl, inr, sym, subst, Option-cases, List, some,
  ltb, Bool-cases, if◌then◌else◌, tests, arith,
}
use kaepora.Base.Result.{Result, ok}
use kaepora.Clock.{Time, day, weekday}
use kaepora.Schedule.DayOfWeek.{
  LoadLocation, DayOfWeekScheduler, sunday_of, flatten_hours, first_after, day_of_week_from,
  next_hour_between,
}
use kaepora.Schedule.DayOfWeek.Bounded.{
  Scheduled, next_hour_between-Bounded, FirstAfter, flatten_hours-total, first_after-FirstAfter,
  Found-none, Found-some,
}

-- The weeks of two instants: the same one, or one of them is over when the other begins.
weeks :
    (t u : Time)
    → 6 * day ≤ t
    → 6 * day ≤ u
    → (sunday_of u ≡ sunday_of t)
      ⊎ ((sunday_of u + 7 ≤ sunday_of t) ⊎ (sunday_of t + 7 ≤ sunday_of u))
unfolding sunday_of weekday
weeks t u ht hu = omega arith

pub week_of :
    (t : Time)
    → 6 * day ≤ t
    → (sunday_of t * day ≤ t)
      × (t < (sunday_of t + 7) * day)
      × ((t / day + 1) * day ≤ (sunday_of t + 7) * day)
unfolding sunday_of weekday
week_of t ht = (omega arith, omega arith, omega arith)

module _ (load_location : LoadLocation) (s : DayOfWeekScheduler) where
  -- Every hour lies in the week, from Sunday 00:00 UTC on and not at it, that its day is in.
  abbrev pub StaysInWeek : Type 0
  StaysInWeek =
      (u x : Time)
      → 6 * day ≤ u
      → Scheduled load_location s u x
      → (sunday_of u * day < x) × (x < (sunday_of u + 7) * day)

  same_week :
      (t u x : Time)
      → sunday_of u ≡ sunday_of t
      → Scheduled load_location s u x
      → Scheduled load_location s t x
  unfolding flatten_hours
  same_week t u x e (hours, flattened, here) = (hours, rw (sym e) flattened, here)

  -- An hour after `t` is one of the week of `t`, or lies behind that week.
  this_week :
      (t u x : Time)
      → StaysInWeek
      → 6 * day ≤ t
      → 6 * day ≤ u
      → Scheduled load_location s u x
      → t < x
      → Scheduled load_location s t x ⊎ ((sunday_of t + 7) * day < x)
  this_week t u x stays ht hu here after = elim (weeks t u ht hu) [
    | inl same ↦ inl (same_week t u x same here)
    | inr (inl before) ↦ absurd (omega (arith, stays u x hu here, week_of t ht))
    | inr (inr behind) ↦ inr (omega (arith, stays u x hu here))
  ]

  -- The answer is as early as any hour in time.
  abbrev pub IsEarliest : Time → Time → Result Time → Type 0
  IsEarliest t max r =
      (answer u x : Time)
      → r ≡ ok answer
      → 6 * day ≤ u
      → Scheduled load_location s u x
      → t < x
      → x ≤ max
      → (0 < answer) × (answer ≤ x)

  IsEarliest-later :
      (t max : Time) (r : Result Time)
      → StaysInWeek
      → 6 * day ≤ t
      → ((x : Time) → Scheduled load_location s t x → x ≤ t)
      → IsEarliest ((t / day + 1) * day) max r
      → IsEarliest t max r
  IsEarliest-later t max r stays ht nothing later answer u x e hu here after before =
      elim (this_week t u x stays ht hu here after) [
        | inl now ↦ absurd (omega (arith, nothing x now))
        | inr behind ↦ later answer u x e hu here (omega (arith, week_of t ht)) before
      ]

  IsEarliest-found :
      (t max next : Time) (hours : List Time) (r : Result Time)
      → StaysInWeek
      → 6 * day ≤ t
      → flatten_hours load_location s t ≡ ok hours
      → FirstAfter t hours (some next)
      → r ≡ ok (if ltb max next then 0 else next)
      → IsEarliest t max r
  IsEarliest-found t max next hours r stays ht flattened (after_t, occurs, least) ends answer u x e
        hu here after before =
      ground (arith, le)
    where
      le : next ≤ x
      le = elim (this_week t u x stays ht hu here after) [
        | inl now ↦
            Found-some load_location s t next hours flattened (after_t, occurs, least) x now after
        | inr behind ↦ omega (arith, stays t next ht (hours, flattened, occurs))
      ]

  day_of_week_from-IsEarliest :
      (fuel : ℕ) (t max : Time)
      → StaysInWeek
      → 6 * day ≤ t
      → IsEarliest t max (day_of_week_from load_location s fuel t max)
  unfolding day_of_week_from
  day_of_week_from-IsEarliest zero t max stays ht =
      λ answer u x e hu here after before. absurd (cc e)
  day_of_week_from-IsEarliest (suc fuel) t max stays ht = elim (Bool-cases (ltb max t)) [
    | inl late ↦ λ answer u x e hu here after before. absurd (omega (tests))
    | inr early ↦
        let (hours, flattened, ordered) = flatten_hours-total load_location s t in
        let found = first_after-FirstAfter t hours ordered in
        elim (Option-cases (first_after t hours)) [
          | inl nothing ↦ subst (IsEarliest t max) (sym (ground (arith, flattened, nothing))) (
              IsEarliest-later t max _ stays ht
                (Found-none load_location s t hours flattened
                  (subst (FirstAfter t hours) nothing found))
                (day_of_week_from-IsEarliest fuel ((t / day + 1) * day) max stays (omega arith)))
          | inr (next, at) ↦
              IsEarliest-found t max next hours _ stays ht flattened
                (subst (FirstAfter t hours) at found) (ground (arith, flattened, at))
        ]
  ]

  -- What `NextBetween` promises: an hour after `t` and up to `max`, and none is earlier; the zero
  -- time says that there is none.
  abbrev pub IsNext : Time → Time → Time → Type 0
  IsNext t max zero = (u x : Time) → 6 * day ≤ u → Scheduled load_location s u x → t < x → max < x
  IsNext t max (suc n) =
      (t < suc n)
      × (suc n ≤ max)
      × ((u : Time) × (6 * day ≤ u) × Scheduled load_location s u (suc n))
      × ((u x : Time) → 6 * day ≤ u → Scheduled load_location s u x → t < x → suc n ≤ x)

  IsNext-IsEarliest :
      (t max : Time) (answer : Time) (r : Result Time)
      → 6 * day ≤ t
      → r ≡ ok answer
      → ((answer ≡ 0)
          ⊎ ((u : Time) × (t ≤ u)
              × (u < answer)
              × (answer ≤ max)
              × Scheduled load_location s u answer))
      → IsEarliest t max r
      → IsNext t max answer
  IsNext-IsEarliest t max zero r ht e between earliest = λ u x hu here after.
      elim (Bool-cases (ltb max x)) [
        | inl past ↦ omega (tests)
        | inr in_time ↦ absurd (omega (arith, earliest 0 u x e hu here after (ground arith)))
      ]
  IsNext-IsEarliest t max (suc n) r ht e (inl none_at_all) earliest = absurd (omega arith)
  IsNext-IsEarliest t max (suc n) r ht e (inr (u, after, before, in_time, here)) earliest = (
    omega arith,
    in_time,
    (u, omega arith, here),
    λ v x hv is_hour later. elim (Bool-cases (ltb max x)) [
      | inl past ↦ omega (tests)
      | inr x_in_time ↦ (earliest (suc n) v x e hv is_hour later (ground arith)).1
    ],
  )

  -- For a schedule whose hours all stay in their weeks, `NextBetween` ends and gives the first
  -- hour of the schedule after `t`, of those up to `max`, and the zero time only if there is none.
  pub next_hour_between-IsNext :
      (t max : Time)
      → 6 * day ≤ t
      → StaysInWeek
      → (answer : Time) × (next_hour_between load_location s t max ≡ ok answer)
        × IsNext t max answer
  unfolding next_hour_between
  next_hour_between-IsNext t max ht stays =
      let bounded = next_hour_between-Bounded load_location s t max in
      (
        bounded.answer,
        bounded.ends,
        IsNext-IsEarliest t max bounded.answer _ ht bounded.ends bounded.between
            (day_of_week_from-IsEarliest (max / day + 2) t max stays ht),
      )
