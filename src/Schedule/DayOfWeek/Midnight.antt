-- ===== src/Schedule/DayOfWeek/Midnight.antt =====
-- An hour at Sunday 00:00 UTC, which is no hour that stays in its week.
use kaepora.Base.{◌+◌, ◌*◌, ◌≤◌, ◌≡◌, inl, inr, refl, ap, ◌∙◌, [], ◌∷◌, some, arith}
use kaepora.Base.Text.{codes}
use kaepora.Base.Result.{ok}
use kaepora.Clock.{Time, day, hour, minute}
use kaepora.Store.{order_with}
use kaepora.Schedule.DayOfWeek.{
  LoadLocation, Zone, DayOfWeekScheduler, new_day_of_week_scheduler, sunday_of, flatten_hours,
  hours_from, next_hour_between,
}
use kaepora.Schedule.DayOfWeek.Bounded.{Scheduled, Scheduled-Each, next_hour_between-Bounded}
use kaepora.Schedule.DayOfWeek.Weeks.{week_of}

-- The calendar days of UTC.
abbrev pub utc : Zone
utc date hour_of minute_of = date * day + hour_of * hour + minute_of * minute

abbrev pub sunday_midnight : DayOfWeekScheduler
sunday_midnight = record new_day_of_week_scheduler { sun = "00:00 UTC" ∷ [] }

module _ (load_location : LoadLocation) where
  midnight-flattened :
      (u : Time)
      → load_location (codes "UTC") ≡ some utc
      → flatten_hours load_location sunday_midnight u ≡ ok (sunday_of u * day ∷ [])
  unfolding flatten_hours hours_from order_with
  midnight-flattened u is_utc = rw is_utc (ap (λ x. ok (x ∷ [])) at)
    where
      at : utc (sunday_of u + 0) 0 0 ≡ sunday_of u * day
      at = omega arith

  midnight-Scheduled :
      (u x : Time)
      → load_location (codes "UTC") ≡ some utc
      → Scheduled load_location sunday_midnight u x
      → x ≡ sunday_of u * day
  midnight-Scheduled u x is_utc =
      Scheduled-Each load_location sunday_midnight (λ y. y ≡ sunday_of u * day) u x _
        (midnight-flattened u is_utc) (refl, tt)

  -- With races on Sundays at 00:00 UTC, `NextBetween` never gives one, whatever the bounds.
  pub sunday_midnight-missed :
      (t max : Time)
      → 6 * day ≤ t
      → load_location (codes "UTC") ≡ some utc
      → next_hour_between load_location sunday_midnight t max ≡ ok 0
  sunday_midnight-missed t max ht is_utc =
      let bounded = next_hour_between-Bounded load_location sunday_midnight t max in
      elim bounded.between [
        | inl none_at_all ↦ bounded.ends ∙ ap ok none_at_all
        | inr (u, after, before, _, here) ↦ absurd (
            omega (arith, midnight-Scheduled u bounded.answer is_utc here, week_of u (omega arith)))
      ]
