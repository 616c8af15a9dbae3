-- ===== src/Lifecycle/Scheduled/Tests.antt =====
-- A league with a session on Mondays, and one without a schedule.
use kaepora.Base.{◌+◌, ◌*◌, ◌≡◌, refl, [], ◌∷◌}
use kaepora.Base.Lists.{any, find}
use kaepora.Base.Result.{ok}
use kaepora.Clock.{hour}
use kaepora.Session.{waiting, new_match_session}
use kaepora.Store.{League, World, order_with}
use kaepora.Store.Rows.{insert_session}
use kaepora.Lifecycle.{send_session_status_update_notification}
use kaepora.Leagues.{league_scheduler}
use kaepora.Leagues.Tests.{standard, random_league}
use kaepora.Schedule.DayOfWeek.{
  next_hour, next_hour_between, day_of_week_from, first_after, flatten_hours, hours_from, sunday_of,
}
use kaepora.Schedule.DayOfWeek.Tests.{summer, monday_noon, sunday}
use kaepora.Schedule.Config.{Unmarshal, scheduler_next}
use kaepora.Lifecycle.Scheduled.{create_next_scheduled_match_sessions}
use kaepora.Lifecycle.Scheduled.Once.{
  Created, create_next_scheduled_match_sessions-Created, create_next_scheduled_match_sessions_twice,
}

abbrev unmarshal : Unmarshal
unmarshal = record { to_day_of_week = λ payload s. ok monday_noon; to_rolling = λ payload s. ok s }

abbrev weekly : League
weekly = record standard { schedule = record { kind = "day-of-week"; payload = "{}" } }

abbrev at_rest : World Unit
at_rest = record {
  db = record {
    leagues = weekly ∷ random_league ∷ [];
    players = [];
    ratings = [];
    history = [];
    sessions = [];
    matches = [];
    entries = [];
  };
  sent = [];
  random = λ n. n;
  uuids = λ n. n;
  routines = [];
}

run : Unit {0}
unfolding next_hour next_hour_between day_of_week_from first_after flatten_hours hours_from
    sunday_of order_with create_next_scheduled_match_sessions insert_session
    send_session_status_update_notification new_match_session
run = tt

monday_at_noon :
    (create_next_scheduled_match_sessions unmarshal summer sunday at_rest).1.db.sessions
    ≡ record {
      id = 0;
      league_id = 10;
      created_at = sunday;
      start_date = sunday + 36 * hour;
      status = waiting;
      player_ids = [];
    }
      ∷ []
unfolding run
monday_at_noon = refl

create_next_scheduled_match_sessions-Created_example :
    Created unmarshal summer sunday
      (weekly ∷ random_league ∷ [])
      at_rest
      (create_next_scheduled_match_sessions unmarshal summer sunday at_rest)
unfolding run find any scheduler_next league_scheduler
create_next_scheduled_match_sessions-Created_example =
    create_next_scheduled_match_sessions-Created unmarshal summer sunday at_rest
      (((_, refl), (_, refl)), (((_, refl), (_, refl)), tt))
      (record { different = λ n k e. e; no_session = λ n. refl })

create_next_scheduled_match_sessions_twice_example :
    create_next_scheduled_match_sessions unmarshal summer sunday
      (create_next_scheduled_match_sessions unmarshal summer sunday at_rest).1
    ≡ (ok tt, (create_next_scheduled_match_sessions unmarshal summer sunday at_rest).1)
unfolding run find any scheduler_next league_scheduler
create_next_scheduled_match_sessions_twice_example =
    create_next_scheduled_match_sessions_twice unmarshal summer sunday at_rest
      (((_, refl), (_, refl)), (((_, refl), (_, refl)), tt))
      (record { different = λ n k e. e; no_session = λ n. refl })
