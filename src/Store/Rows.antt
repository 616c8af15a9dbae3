-- ===== src/Store/Rows.antt =====
-- The queries of internal/back on sessions, matches, entries, players and leagues:
-- match_session.go, match.go, match_entry.go, player.go, player_rating.go and league.go.
use Prim.Native.String.{String}
use text.Mathlib.Text
use kaepora.Base.{List, [], ◌∷◌, ◌++◌, none, Bool, ◌&&◌, ◌==◌, if◌then◌else◌}
use kaepora.Base.Lists.{select, find, any}
use kaepora.Base.Result.{internal, public}
use kaepora.Match.{Uuid, MatchEntry, Match, ensure_not_null}
use kaepora.Rating.{Player}
use kaepora.Session.{MatchSession}
use kaepora.Store.{
  League, Db, Action, ◌>>=◌, pure, fail, select_rows, get_row, exec, stored, stored_null,
  update_where,
}

-- The key of an entry is the match and the player.
unfoldable pub same_entry : MatchEntry → MatchEntry → Bool
same_entry e r = r.match_id == e.match_id && r.player_id == e.player_id

module _ {F : Type 0} where
  unfoldable pub get_league_by_id : Uuid → Action F League
  unfolding find
  get_league_by_id id = get_row (λ db. find (λ l. l.id == id) db.leagues)

  unfoldable pub get_league_by_short_code : String → Action F League
  unfolding find
  get_league_by_short_code short_code =
      if Text.◌==◌ short_code ""
      then fail (public "you need to give me a league shortcode, see `!leagues` and `!help`")
      else get_row (λ db. find (λ l. Text.◌==◌ l.short_code short_code) db.leagues)

  unfoldable pub get_player_by_id : Uuid → Action F (Player F)
  unfolding find
  get_player_by_id id = get_row (λ db. find (λ p. p.id == id) db.players)

  unfoldable pub get_match_session_by_id : Uuid → Action F MatchSession
  unfolding find
  get_match_session_by_id id = get_row (λ db. find (λ s. s.id == id) db.sessions)

  -- `MatchSession.update`.
  unfoldable pub update_session : MatchSession → Action F (Unit {0})
  unfolding update_where stored
  update_session s = exec (λ db. record db {
    sessions =
        update_where (λ r. r.id == s.id)
          (λ r. record r {
            start_date = stored s.start_date;
            status = s.status;
            player_ids = s.player_ids;
          })
          db.sessions;
  })

  unfoldable pub insert_session : MatchSession → Action F (Unit {0})
  unfolding any stored
  insert_session s w =
      if any (λ r. r.id == s.id) w.db.sessions
      then fail (internal "UNIQUE constraint failed: MatchSession.ID") w
      else exec
          (λ db. record db {
            sessions =
                db.sessions
                ++ record s { created_at = stored s.created_at; start_date = stored s.start_date }
                  ∷ [];
          })
          w

  -- `injectEntries`.
  unfoldable pub inject_entries : Match → Action F Match
  unfolding select
  inject_entries m = do
    entries ← select_rows (λ db. select (λ e. e.match_id == m.id) db.entries)
    pure (record m { entries = entries })

  -- The join of `getMatchByPlayerAndSession`: a match of the session with an entry of the player.
  unfoldable pub is_match_of : Db F → Uuid → Uuid → Match → Bool
  unfolding any
  is_match_of db player_id session_id m =
      m.match_session_id == session_id
      && any (λ e. e.match_id == m.id && e.player_id == player_id) db.entries

  unfoldable pub get_match_by_player_and_session : Uuid → Uuid → Action F Match
  unfolding find is_match_of inject_entries
  get_match_by_player_and_session player_id session_id = do
    m ← get_row (λ db. find (is_match_of db player_id session_id) db.matches)
    inject_entries m

  unfoldable pub inject_all : List Match → Action F (List Match)
  unfolding inject_entries
  inject_all [] = pure []
  inject_all (m ∷ matches) = do
    m' ← inject_entries m
    matches' ← inject_all matches
    pure (m' ∷ matches')

  unfoldable pub get_matches_by_session_id : Uuid → Action F (List Match)
  unfolding inject_all select
  get_matches_by_session_id session_id = do
    matches ← select_rows (λ db. select (λ m. m.match_session_id == session_id) db.matches)
    inject_all matches

  -- `Match.update`; the seed patch and the entries are no columns.
  unfoldable pub update_match : Match → Action F (Unit {0})
  unfolding update_where stored_null ensure_not_null
  update_match m = exec (λ db. record db {
    matches =
        update_where (λ r. r.id == m.id)
          (λ r. record r {
            started_at = stored_null m.started_at;
            ended_at = stored_null m.ended_at;
            spoiler_log = (ensure_not_null m).spoiler_log;
            generator_state = (ensure_not_null m).generator_state;
          })
          db.matches;
  })

  unfoldable pub insert_match : Match → Action F (Unit {0})
  unfolding any stored stored_null ensure_not_null
  insert_match m w =
      if any (λ r. r.id == m.id) w.db.matches
      then fail (internal "UNIQUE constraint failed: Match.ID") w
      else exec
          (λ db. record db {
            matches =
                db.matches
                ++ record (ensure_not_null m) {
                  created_at = stored m.created_at;
                  started_at = stored_null m.started_at;
                  ended_at = stored_null m.ended_at;
                  seed_patch = none;
                  entries = [];
                }
                  ∷ [];
          })
          w

  -- `MatchEntry.update` and `MatchEntry.insert`.
  unfoldable pub update_entry : MatchEntry → Action F (Unit {0})
  unfolding update_where stored_null same_entry
  update_entry e = exec (λ db. record db {
    entries =
        update_where (same_entry e)
          (λ r. record r {
            started_at = stored_null e.started_at;
            ended_at = stored_null e.ended_at;
            status = e.status;
            outcome = e.outcome;
            comment = e.comment;
          })
          db.entries;
  })

  unfoldable pub insert_entry : MatchEntry → Action F (Unit {0})
  unfolding any stored stored_null same_entry
  insert_entry e w =
      if any (same_entry e) w.db.entries
      then fail (internal "UNIQUE constraint failed: MatchEntry.MatchID, MatchEntry.PlayerID") w
      else exec
          (λ db. record db {
            entries =
                db.entries
                ++ record e {
                  created_at = stored e.created_at;
                  started_at = stored_null e.started_at;
                  ended_at = stored_null e.ended_at;
                }
                  ∷ [];
          })
          w
