-- ===== src/Ranking.antt =====
-- internal/back/back_ranking.go: rating periods, of a week each, from Monday 00:00 UTC.
pub mod Periods
pub mod Ratings
pub mod Leaderboard
pub mod Around
pub mod Upserts
pub mod UpsertAll
pub mod Keys
pub mod Computed
pub mod Updates
pub mod Tests
use kaepora.Base.{
  ℕ, zero, suc, ◌+◌, ◌-◌, ◌*◌, ◌/◌, ◌%◌, ◌≡◌, List, [], ◌∷◌, Bool, true, false, ltb, ◌==◌,
  if◌then◌else◌,
}
use kaepora.Clock.{Time, day, weekday}

-- `t.Truncate(24 * time.Hour)`, which rounds down since the zero time.
unfoldable pub truncate_day : Time → Time
truncate_day t = t / day * day

-- The time is taken as UTC, where `AddDate` moves it by whole days of 24 hours. Both offsets
-- are negative or 0: the day before which `AddDate` goes back is written as a difference.
unfoldable pub current_period_start : Time → Time
unfolding weekday truncate_day
current_period_start t =
    truncate_day (if weekday t == 0 then t - 6 * day else t - (weekday t - 1) * day)

unfoldable pub next_period_start : Time → Time
next_period_start t = current_period_start t + 7 * day

-- Before the second week of year 1 the subtraction would leave the range of `Time`.
unfoldable pub previous_period_start : Time → Time
previous_period_start t = current_period_start t - 7 * day

-- The loop of `Rerank`, as the list of the instants that `updateLeagueRankings` is called with.
-- The fuel bounds the rounds.
unfoldable pub rerank_from : ℕ → Time → Time → List Time
rerank_from zero i cur_period_end = []
rerank_from (suc fuel) i cur_period_end =
    let rest = rerank_from fuel (i + 7 * day) cur_period_end in
    if ltb i cur_period_end then i ∷ rest else []

-- One round for each started week between the two ends, and one to see that the loop is over.
unfoldable pub rerank_periods : Time → Time → List Time
rerank_periods first_match_start now =
    let first_period_start = current_period_start first_match_start in
    let cur_period_end = next_period_start now in
    rerank_from (cur_period_end / day + 1) first_period_start cur_period_end
