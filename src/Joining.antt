-- ===== src/Joining.antt =====
-- internal/back/back_racing.go and match_session.go: joining and leaving the sessions.
pub mod Active
pub mod Join
pub mod Cancel
pub mod Calls
pub mod Exclusive
pub mod Tests
use Prim.Native.String.{String, ◌++◌}
use kaepora.Base.{
  ℕ, ◌≡◌, List, [], ◌∷◌, Option, none, some, Bool, true, false, ◌&&◌, ◌||◌, not, ltb, ◌==◌,
  if◌then◌else◌,
}
use kaepora.Base.Lists.{select, find, any, has}
use kaepora.Base.Result.{Result, ok, err, Error, no_rows, public}
use kaepora.Clock.{Time}
use kaepora.Match.{
  Uuid, MatchEntry, Match, is_waiting, is_in_progress, has_ended, get_player_and_opponent_entries,
}
use kaepora.Session.{
  MatchSession, SessionStatus, joinable, preparing, in_progress, is_joinable, has_player_id,
  add_player_id, remove_player_id, can_cancel,
}
use kaepora.Store.{
  League, Db, World, Action, ◌>>=◌, ◌>>◌, pure, fail, lift, select_rows, get_row, on_no_rows,
  transaction, date_time, order_by, order_with,
}
use kaepora.Store.Rows.{
  get_league_by_id, get_league_by_short_code, get_match_session_by_id, update_session,
  get_match_by_player_and_session,
}

abbrev pub already_registered : League → Error
already_registered league =
    public ("you are already registered for the next " ++ league.name ++ " race")

-- `Status IN (…)` of `getPlayerActiveSession`.
abbrev pub is_open : SessionStatus → Bool
is_open joinable = true
is_open preparing = true
is_open in_progress = true
is_open _ = false

module _ {F : Type 0} where
  -- The join of `getPlayerActiveStartedSession`: the player has an entry that has not ended in a
  -- match of the session.
  unfoldable pub is_running_in : Db F → Uuid → MatchSession → Bool
  unfolding any
  is_running_in db player_id s =
      any
        (λ m.
          m.match_session_id == s.id
          && any
              (λ e.
                e.match_id == m.id
                && e.player_id == player_id
                && (is_waiting e.status || is_in_progress e.status))
              db.entries)
        db.matches

  unfoldable pub get_player_active_started_session : Uuid → Action F MatchSession
  unfolding find order_with is_running_in
  get_player_active_started_session player_id =
      get_row (λ db. find (is_running_in db player_id) (order_by (λ s. s.start_date) db.sessions))

  -- The loop of `getPlayerActiveSession` over the open sessions that the player has joined.
  unfoldable pub active_of : Uuid → List MatchSession → Action F MatchSession
  unfolding get_player_active_started_session get_match_by_player_and_session
      get_player_and_opponent_entries has_ended
  active_of player_id [] w = get_player_active_started_session player_id w
  active_of player_id (v ∷ sessions) w =
      let (m, w') = get_match_by_player_and_session player_id v.id w in
      elim m [
        | err no_rows ↦ (ok v, w')
        | err e ↦ (err e, w')
        | ok match ↦ elim (get_player_and_opponent_entries match player_id) [
          | err e ↦ (err e, w')
          | ok (self, against) ↦
              let rest = active_of player_id sessions w' in
              if not (has_ended self) then (ok v, w') else rest
        ]
      ]

  -- The sessions that the query selects. The ids are stored as a list, and `LIKE` asks whether
  -- the player is in it.
  unfoldable pub open_sessions_of : Uuid → Db F → List MatchSession
  unfolding select has order_with
  open_sessions_of player_id db =
      select (λ s. is_open s.status && has player_id s.player_ids)
        (order_by (λ s. s.start_date) db.sessions)

  unfoldable pub get_player_active_session : Uuid → Action F MatchSession
  unfolding active_of open_sessions_of
  get_player_active_session player_id = do
    sessions ← select_rows (open_sessions_of player_id)
    active_of player_id sessions

  unfoldable pub ensure_player_has_no_active_match : Uuid → Action F (Unit {0})
  unfolding get_player_active_session
  ensure_player_has_no_active_match player_id w =
      let (s, w') = get_player_active_session player_id w in
      elim s [
        | err no_rows ↦ (ok tt, w')
        | err e ↦ (err e, w')
        | ok session ↦ fail (public "you already have a race in progress") w'
      ]

  unfoldable pub join_match_session_tx : MatchSession → Uuid → League → Action F (Unit {0})
  unfolding has_player_id ensure_player_has_no_active_match add_player_id update_session
  join_match_session_tx session player_id league =
      if has_player_id session player_id then fail (already_registered league) else (do
        ensure_player_has_no_active_match player_id
        update_session (add_player_id session (player_id ∷ [])))

  unfoldable pub join_match_session_by_id : Uuid → Uuid → Action F (Unit {0})
  unfolding transaction get_match_session_by_id get_league_by_id join_match_session_tx
  join_match_session_by_id session_id player_id = transaction (do
    session ← get_match_session_by_id session_id
    league ← get_league_by_id session.league_id
    join_match_session_tx session player_id league)

  unfoldable pub get_next_joinable_match_session_for_league : Time → Uuid → Action F MatchSession
  unfolding find order_with
  get_next_joinable_match_session_for_league now league_id = get_row (λ db.
      find
        (λ s.
          s.league_id == league_id
          && ltb (date_time now) (date_time s.start_date)
          && is_joinable s.status)
        (order_by (λ s. s.start_date) db.sessions))

  -- The session is given back as it was before the player joined it: `joinMatchSessionTx` takes
  -- it by value.
  unfoldable pub join_current_match_session_tx : Time → Uuid → League → Action F MatchSession
  unfolding get_next_joinable_match_session_for_league join_match_session_tx
  join_current_match_session_tx now player_id league = do
    session ←
        on_no_rows (get_next_joinable_match_session_for_league now league.id)
          (fail (public "could not find a joinable race for the given league"))
    join_match_session_tx session player_id league
    pure session

  unfoldable pub join_current_match_session_by_shortcode :
      Time → Uuid → String → Action F (MatchSession × League)
  unfolding transaction get_league_by_short_code join_current_match_session_tx
  join_current_match_session_by_shortcode now player_id shortcode = transaction (do
    league ←
        on_no_rows (get_league_by_short_code shortcode)
          (fail (public "could not find a league with this shortcode, try `!leagues`"))
    session ← join_current_match_session_tx now player_id league
    pure (session, league))

  unfoldable pub cancel_active_match_session : Time → Uuid → Action F MatchSession
  unfolding transaction get_player_active_session can_cancel remove_player_id update_session
  cancel_active_match_session now player_id = transaction (do
    session ←
        on_no_rows (get_player_active_session player_id)
          (fail (public "you are not in any active race right now"))
    lift (can_cancel now session)
    session' ← lift (remove_player_id session player_id)
    update_session session'
    pure session')
