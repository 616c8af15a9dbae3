-- ===== src/Ranking/Tests.antt =====
-- Friday 15 May 2020, 00:00 UTC, in the week of Monday 11 May (back_ranking_test.go).
use kaepora.Base.{ℕ, ◌+◌, ◌-◌, ◌*◌, ◌%◌, ◌≤◌, ◌<◌, ◌≡◌, refl, [], ◌∷◌, some, ◌↔◌, arith}
use kaepora.Base.Lists.{get_elem?}
use kaepora.Clock.{Time, day, second, unix_epoch, weekday}
use kaepora.Ranking.{
  current_period_start, next_period_start, previous_period_start, rerank_periods, rerank_from,
}
use kaepora.Ranking.Periods.{
  week, current_period_start_lem, current_period_start_unique, rerank_periods_lem,
}

abbrev monday : Time
monday = (unix_epoch + 1589155200) * second

abbrev friday : Time
friday = monday + 4 * day

friday_period : current_period_start friday ≡ monday
unfolding current_period_start
friday_period = refl

sunday_period : current_period_start (monday - 1) ≡ monday - week
unfolding current_period_start
sunday_period = refl

three_weeks :
    rerank_periods friday (friday + 2 * week) ≡ monday ∷ (monday + week) ∷ (monday + 2 * week) ∷ []
unfolding rerank_periods rerank_from next_period_start current_period_start
three_weeks = refl

current_period_start_lem_example :
    (weekday (current_period_start friday) ≡ 1)
    × (current_period_start friday % day ≡ 0)
    × (current_period_start friday ≤ friday)
    × (friday < next_period_start friday)
current_period_start_lem_example = current_period_start_lem friday

current_period_start_unique_example :
    (current_period_start friday ≡ monday)
    × (next_period_start friday ≡ current_period_start (friday + week))
    × (previous_period_start (friday + week) ≡ monday)
current_period_start_unique_example =
    current_period_start_unique friday monday refl (omega arith) (omega arith)

rerank_periods_lem_example :
    ((k : ℕ) (x : Time)
      → (get_elem? (rerank_periods friday (friday + week)) k ≡ some x)
        ↔ (x ≡ current_period_start friday + k * week) × (x < next_period_start (friday + week)))
    × ((t : Time)
        → friday ≤ t
        → t ≤ friday + week
        → (k : ℕ) × (get_elem? (rerank_periods friday (friday + week)) k
            ≡ some (current_period_start t)))
rerank_periods_lem_example = rerank_periods_lem friday (friday + week)
