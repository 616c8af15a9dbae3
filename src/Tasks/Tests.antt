-- ===== src/Tasks/Tests.antt =====
-- A session that is closed in the week after its race, the countdown of a session, and the
-- matchmaking of one with the seeds that it asks for.
use kaepora.Base.{ℕ, ◌+◌, ◌-◌, ◌*◌, ◌≡◌, refl, List, [], ◌∷◌, map}
use kaepora.Base.Int.{ℤ, pos, ◌+ℤ◌}
use kaepora.Base.Lists.{select, find}
use kaepora.Base.Result.{ok}
use kaepora.Clock.{second, day}
use kaepora.Session.{MatchSession, closed, preparing, in_progress}
use kaepora.Store.{World, status_update, countdown, transaction}
use kaepora.Match.{Match}
use kaepora.Matchmaking.Tests.{setting}
use kaepora.Ranking.{current_period_start, next_period_start}
use kaepora.Ranking.Computed.{compute_period}
use kaepora.Ranking.Ratings.{get_glicko_players_for_league, get_matches_by_period}
use kaepora.Ranking.Updates.{update_league_rankings, update_running_rating, close_rating}
use kaepora.Ranking.Updates.Tests.{glicko, friday, race, raced}
use kaepora.Tasks.{update_ranks, countdown_loop, send_session_countdown_notification}
use kaepora.Lifecycle.{send_session_status_update_notification}
use kaepora.Tasks.Late.{since, update_ranks-since}

abbrev last_week : MatchSession
last_week = record {
  id = 20;
  league_id = 10;
  created_at = 0;
  start_date = friday;
  status = closed;
  player_ids = 1 ∷ 2 ∷ [];
}

abbrev ended : List (MatchSession × List Match)
ended = (last_week, race ∷ []) ∷ []

run : Unit {0}
unfolding transaction update_ranks update_league_rankings get_glicko_players_for_league
    get_matches_by_period current_period_start next_period_start compute_period
    update_running_rating close_rating ◌+ℤ◌
run = tt

in_time :
    map {B = ℕ × ℤ}
      (λ r. (r.player_id, r.rating))
      (update_ranks setting glicko friday ended raced).1.db.ratings
    ≡ (1, pos 1510) ∷ (2, pos 1490) ∷ []
unfolding run
in_time = refl

-- Three days later it is Monday.
too_late : (update_ranks setting glicko (friday + 3 * day) ended raced).1.db.ratings ≡ []
unfolding run
too_late = refl

update_ranks-since_example :
    (w' : World ℤ) × (update_ranks setting glicko (friday + 3 * day) ended raced ≡ (ok tt, w'))
    × (update_ranks setting glicko (friday + 3 * day) ended (since (friday + 3 * day) raced)
        ≡ (ok tt, since (friday + 3 * day) w'))
unfolding select
update_ranks-since_example =
    update_ranks-since setting glicko (friday + 3 * day) ended raced ((_, _, refl, refl), tt)

-- The clock is read 70, 20, 9, 4 and 0 seconds before the start: nothing is said at first, then
-- there is a notice each time, and the last one is of the start.
counted_down :
    map
      (λ n. n.kind)
      (countdown_loop
        (record last_week { status = preparing })
        (60 * second + 1)
        ((friday - 70 * second)
          ∷ (friday - 20 * second)
          ∷ (friday - 9 * second)
          ∷ (friday - 4 * second)
          ∷ friday
          ∷ [])
        raced).1.sent
    ≡ status_update 20 in_progress ∷ countdown 20 ∷ countdown 20 ∷ countdown 20 ∷ []
unfolding countdown_loop find send_session_status_update_notification transaction
    send_session_countdown_notification
counted_down = refl
