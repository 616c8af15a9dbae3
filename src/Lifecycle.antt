-- ===== src/Lifecycle.antt =====
-- internal/back/back_periodic.go, and `start` of match_session.go: the tasks that run every
-- minute, and move the sessions from one status to the next. The clock is read once per task.
pub mod Tables
pub mod Phases
pub mod Succeeds
pub mod Scheduled
pub mod Tests
use kaepora.Base.{
  ℕ, ◌+◌, ◌*◌, ◌≡◌, List, [], ◌∷◌, ◌++◌, Option, none, some, Bool, true, false, ◌&&◌, ◌||◌, not,
  ltb, leb, ◌==◌, if◌then◌else◌,
}
use kaepora.Base.Lists.{length, select, find}
use kaepora.Base.Result.{Result, ok, err, internal}
use kaepora.Clock.{Time, second, minute, new_null_timestamp}
use kaepora.Match.{Uuid, MatchEntry, Match, match_has_ended, start_entry}
use kaepora.Match
use kaepora.Session.{
  MatchSession, SessionStatus, waiting, joinable, preparing, in_progress, closed, is_waiting,
  is_joinable, is_preparing, is_closed, joinable_after_offset, preparation_offset,
}
use kaepora.Store.{
  League, Db, World, Action, ◌>>=◌, ◌>>◌, pure, fail, select_rows, get_row, notify, transaction,
  date_time, Recipient, channel, user, NotificationType, status_update, session_empty,
}
use kaepora.Store.Rows.{
  get_league_by_id, get_player_by_id, update_session, update_match, update_entry,
  get_matches_by_session_id,
}

-- A Go loop over the elements that ends at the first error.
abbrev pub for_each : {A F : Type 0} → (A → Action F (Unit {0})) → List A → Action F (Unit {0})
for_each body [] w = (ok tt, w)
for_each body (a ∷ rest) w = (body a >> for_each body rest) w

-- The `WHERE` clauses of the tasks.
unfoldable pub is_due_to_join : Time → MatchSession → Bool
is_due_to_join now s =
    ltb (date_time (now + preparation_offset)) (date_time s.start_date)
    && leb (date_time s.start_date) (date_time (now + joinable_after_offset))
    && is_waiting s.status

unfoldable pub is_due_to_prepare : Time → MatchSession → Bool
is_due_to_prepare now s =
    ltb (date_time now) (date_time s.start_date)
    && leb (date_time s.start_date) (date_time (now + preparation_offset))
    && is_joinable s.status

unfoldable pub is_due_to_start : Time → MatchSession → Bool
is_due_to_start now s =
    leb (date_time s.start_date) (date_time (now + 90 * second)) && is_preparing s.status

unfoldable pub is_stale : Time → MatchSession → Bool
is_stale now s = ltb (date_time s.start_date) (date_time now) && not (is_closed s.status)

unfoldable pub all_ended : List Match → Bool
unfolding match_has_ended
all_ended [] = true
all_ended (m ∷ matches) = match_has_ended m && all_ended matches

-- What the loop of `makeMatchSessionsPreparing` appends to the sessions that are given back.
unfoldable pub prepared : List MatchSession → List MatchSession
prepared [] = []
prepared (s ∷ sessions) =
    let rest = prepared sessions in
    if ltb (length s.player_ids) 2 then rest else record s { status = preparing } ∷ rest

module _ {F : Type 0} where
  unfoldable pub send_session_status_update_notification : MatchSession → Action F (Unit {0})
  unfolding get_league_by_id
  send_session_status_update_notification s = do
    league ← get_league_by_id s.league_id
    notify (record {
      recipient = channel league.announce_discord_channel_id;
      kind = status_update s.id s.status;
    })

  unfoldable pub send_match_session_empty_player_notification : Uuid → Uuid → Action F (Unit {0})
  unfolding get_player_by_id
  send_match_session_empty_player_notification session_id player_id = do
    player ← get_player_by_id player_id
    notify (record { recipient = user player.discord_id; kind = session_empty session_id })

  unfoldable pub send_match_session_empty_notification :
      MatchSession → List Uuid → Action F (Unit {0})
  unfolding get_league_by_id send_match_session_empty_player_notification
  send_match_session_empty_notification s player_ids = do
    league ← get_league_by_id s.league_id
    notify (record {
      recipient = channel league.announce_discord_channel_id;
      kind = session_empty s.id;
    })
    for_each (send_match_session_empty_player_notification s.id) player_ids

  -- The body of the loop of `makeMatchSessionsJoinable`.
  unfoldable pub make_joinable : MatchSession → Action F (Unit {0})
  unfolding update_session send_session_status_update_notification
  make_joinable s = do
    update_session (record s { status = joinable })
    send_session_status_update_notification (record s { status = joinable })

  unfoldable pub make_match_sessions_joinable : Time → Action F (Unit {0})
  unfolding transaction select is_due_to_join make_joinable
  make_match_sessions_joinable now = transaction (do
    sessions ← select_rows (λ db. select (is_due_to_join now) db.sessions)
    for_each make_joinable sessions)

  unfoldable pub get_match_sessions_to_prepare : Time → Action F (List MatchSession)
  unfolding select is_due_to_prepare
  get_match_sessions_to_prepare now = select_rows (λ db. select (is_due_to_prepare now) db.sessions)

  -- The body of the loop of `makeMatchSessionsPreparing`.
  unfoldable pub make_preparing : MatchSession → Action F (Unit {0})
  unfolding update_session send_session_status_update_notification
      send_match_session_empty_notification
  make_preparing s =
      if ltb (length s.player_ids) 2
      then (do
        update_session (record s { status = closed })
        send_match_session_empty_notification (record s { status = closed }) s.player_ids)
      else (do
        update_session (record s { status = preparing })
        send_session_status_update_notification (record s { status = preparing }))

  unfoldable pub make_match_sessions_preparing : Time → Action F (List MatchSession)
  unfolding transaction get_match_sessions_to_prepare make_preparing prepared
  make_match_sessions_preparing now = transaction (do
    sessions ← get_match_sessions_to_prepare now
    for_each make_preparing sessions
    pure (prepared sessions))

  unfoldable pub get_match_sessions_to_start : Time → Action F (List MatchSession)
  unfolding select is_due_to_start
  get_match_sessions_to_start now = select_rows (λ db. select (is_due_to_start now) db.sessions)

  -- The inner loop of `MatchSession.start`: only an entry that waits is written.
  unfoldable pub start_match_entry : Time → MatchEntry → Action F (Unit {0})
  unfolding start_entry update_entry
  start_match_entry now e =
      if Match.is_waiting e.status then update_entry (start_entry now e) else pure tt

  unfoldable pub start_match : Time → Match → Action F (Unit {0})
  unfolding select start_match_entry update_match new_null_timestamp
  start_match now m = do
    entries ← select_rows (λ db. select (λ e. e.match_id == m.id) db.entries)
    for_each (start_match_entry now) entries
    update_match (record m { started_at = new_null_timestamp now })

  -- `MatchSession.start`, and the `update` that both its callers do next.
  unfoldable pub start_session : Time → MatchSession → Action F (Unit {0})
  unfolding select start_match update_session
  start_session now s =
      if not (is_preparing s.status)
      then fail (internal "attempted to start a MatchSession that was not preparing")
      else (do
        matches ←
            select_rows
              (λ db. select (λ m. m.match_session_id == s.id && not m.started_at.valid) db.matches)
        for_each (start_match now) matches
        update_session (record s { status = in_progress }))

  unfoldable pub instantly_start_match_sessions : Time → Action F (Unit {0})
  unfolding transaction get_match_sessions_to_start start_session
  instantly_start_match_sessions now =
      transaction
        (do sessions ← get_match_sessions_to_start now; for_each (start_session now) sessions)

  -- The loop of `getMatchSessionsToEnd`: a session without matches, or whose matches have ended.
  unfoldable pub finished_sessions : List MatchSession → Action F (List (MatchSession × List Match))
  unfolding get_matches_by_session_id all_ended
  finished_sessions [] = pure []
  finished_sessions (s ∷ sessions) = do
    matches ← get_matches_by_session_id s.id
    rest ← finished_sessions sessions
    pure (if all_ended matches then (s, matches) ∷ rest else rest)

  unfoldable pub get_match_sessions_to_end : Time → Action F (List (MatchSession × List Match))
  unfolding select is_stale finished_sessions
  get_match_sessions_to_end now = do
    sessions ← select_rows (λ db. select (is_stale now) db.sessions)
    finished_sessions sessions

  -- The first transaction of `closeMatchSessionsAndUpdateRanks`.
  unfoldable pub close_session : MatchSession × List Match → Action F (Unit {0})
  unfolding update_session
  close_session (s, matches) = update_session (record s { status = closed })

  unfoldable pub close_match_sessions : Time → Action F (List (MatchSession × List Match))
  unfolding transaction get_match_sessions_to_end close_session
  close_match_sessions now =
      transaction
        (do ended ← get_match_sessions_to_end now; for_each close_session ended; pure ended)
