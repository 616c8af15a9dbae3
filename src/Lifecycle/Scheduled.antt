-- ===== src/Lifecycle/Scheduled.antt =====
-- `createNextScheduledMatchSessions` of internal/back/back_periodic.go: the next session of each
-- league.
pub mod Rows
pub mod Body
pub mod Once
pub mod Tests
use kaepora.Base.{List, if◌then◌else◌, ◌==◌, ◌&&◌}
use kaepora.Base.Lists.{find}
use kaepora.Clock.{Time}
use kaepora.Match.{Uuid}
use kaepora.Session.{MatchSession, new_match_session}
use kaepora.Store.{
  League, World, Action, ◌>>=◌, ◌>>◌, pure, lift, get_row, new_uuid, on_no_rows, transaction,
  stored,
}
use kaepora.Store.Rows.{insert_session}
use kaepora.Leagues.{league_scheduler, get_leagues}
use kaepora.Schedule.DayOfWeek.{LoadLocation}
use kaepora.Schedule.Config.{Unmarshal, scheduler_next}
use kaepora.Lifecycle.{for_each, send_session_status_update_notification}

module _ {F : Type 0} where
  -- A start date is compared with what its column keeps of it.
  unfoldable pub get_match_session_by_start_date : Uuid → Time → Action F MatchSession
  unfolding find stored
  get_match_session_by_start_date league_id start_date =
      get_row (λ db.
        find (λ s. s.league_id == league_id && s.start_date == stored start_date) db.sessions)

  unfoldable pub create_session : Time → League → Time → Action F (Unit {0})
  create_session now league next = do
    id ← new_uuid
    insert_session (new_match_session id now league.id next)
    send_session_status_update_notification (new_match_session id now league.id next)

module _ {F : Type 0} (unmarshal : Unmarshal) (load_location : LoadLocation) where
  -- The body of the loop.
  unfoldable pub create_next_session : Time → League → Action F (Unit {0})
  unfolding scheduler_next league_scheduler get_match_session_by_start_date create_session
  create_next_session now league = do
    next ← lift (scheduler_next load_location (league_scheduler unmarshal league) now)
    (if next == 0
        then pure tt
        else on_no_rows (do session ← get_match_session_by_start_date league.id next; pure tt)
            (create_session now league next))

  unfoldable pub create_next_scheduled_match_sessions : Time → Action F (Unit {0})
  unfolding transaction get_leagues create_next_session
  create_next_scheduled_match_sessions now =
      transaction (do leagues ← get_leagues; for_each (create_next_session now) leagues)
