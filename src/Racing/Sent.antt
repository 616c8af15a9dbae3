-- ===== src/Racing/Sent.antt =====
-- The recaps that are asked for: `SendRecaps` of internal/back/bot.go.
use Prim.Native.String.{String}
use text.Mathlib.Text
use kaepora.Base.{List, some, leb, not, ◌==◌, ◌&&◌, ◌||◌, if◌then◌else◌}
use kaepora.Base.Lists.{select}
use kaepora.Match.{Uuid}
use kaepora.Session.{MatchSession, is_in_progress, is_preparing}
use kaepora.Store.{Action, ◌>>=◌, select_rows, transaction, order_with}
use kaepora.Store.Rows.{get_league_by_short_code, get_matches_by_session_id}
use kaepora.Leagues.{get_leagues}
use kaepora.Lifecycle.{for_each}
use kaepora.Racing.{RecapScope, send_session_recap_notification}

module _ {F : Type 0} where
  -- The latest start date comes first.
  unfoldable pub get_active_sessions_for_league_id : Uuid → Action F (List MatchSession)
  unfolding select order_with
  get_active_sessions_for_league_id league_id = select_rows (λ db.
      order_with (λ a b. leb b.start_date a.start_date)
        (select
          (λ s. s.league_id == league_id && (is_in_progress s.status || is_preparing s.status))
          db.sessions))

  -- The body of the loop of `sendLeagueRecap`.
  unfoldable pub send_session_recap : String → RecapScope → MatchSession → Action F (Unit {0})
  unfolding get_matches_by_session_id send_session_recap_notification
  send_session_recap to_user_id scope session = do
    matches ← get_matches_by_session_id session.id
    send_session_recap_notification session matches scope (some (some to_user_id))

  unfoldable pub send_league_recap : String → RecapScope → String → Action F (Unit {0})
  unfolding get_league_by_short_code get_active_sessions_for_league_id
  send_league_recap to_user_id scope short_code = do
    league ← get_league_by_short_code short_code
    sessions ← get_active_sessions_for_league_id league.id
    for_each (send_session_recap to_user_id scope) sessions

  unfoldable pub send_recaps : String → String → RecapScope → Action F (Unit {0})
  unfolding transaction get_leagues send_league_recap
  send_recaps to_user_id short_code scope = transaction (
      if not (Text.◌==◌ short_code "") then send_league_recap to_user_id scope short_code else (do
        leagues ← get_leagues
        for_each (λ l. send_league_recap to_user_id scope l.short_code) leagues))
