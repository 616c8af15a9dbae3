-- ===== src/Queries.antt =====
-- What the web site reads: the queries of internal/back/back_web.go, and the performances of a
-- player there.
pub mod Tests
use Prim.Native.String.{String}
use kaepora.Base.{
  ℕ, ◌+◌, ◌≡◌, List, [], ◌∷◌, ◌++◌, map, Option, none, some, Bool, true, false, not, ltb, leb, ◌==◌,
  ◌&&◌, ◌||◌, if◌then◌else◌,
}
use kaepora.Base.Lists.{length, select, any, has}
use kaepora.Base.Result.{internal}
use kaepora.Clock.{Time}
use kaepora.Match.{
  Uuid, MatchEntry, Match, Outcome, is_win, is_in_progress, is_forfeited, entry_at,
  get_player_and_opponent_entries,
}
use kaepora.Rating.{Float, PlayerRating, Player}
use kaepora.Session.{MatchSession, SessionStatus, is_closed}
use kaepora.Store.{
  League, Db, Action, ◌>>=◌, ◌>>◌, pure, fail, lift, select_rows, transaction, order_by, order_with,
  date_time,
}
use kaepora.Store.Rows.{
  get_league_by_short_code, get_player_by_id, get_match_session_by_id, get_matches_by_session_id,
  inject_entries,
}
use kaepora.Ranking.Leaderboard.{LeaderboardSetting, is_draw, is_loss}
use kaepora.Tasks.{PlayerMap, put_player}

-- `PlayerPerformance`; a league without a rating has the zero value.
pub record PlayerPerformance (F : Type 0) : Type 0 where
  pub league_id : Uuid
  pub rating : PlayerRating F
  pub wins : ℕ
  pub losses : ℕ
  pub draws : ℕ
  pub forfeits : ℕ

-- `PlayerStats` is the list of its performances.
abbrev pub PlayerStats : Type 0 → Type 0
PlayerStats F = List (PlayerPerformance F)

module _ {F : Type 0} where
  -- `PlayerPerformance.MatchesPlayed`; a forfeit is one of the losses.
  unfoldable pub performance_matches_played : PlayerPerformance F → ℕ
  performance_matches_played p = p.wins + p.losses + p.draws

  unfoldable pub matches_won : PlayerStats F → ℕ
  matches_won [] = 0
  matches_won (p ∷ stats) = p.wins + matches_won stats

  unfoldable pub matches_played : PlayerStats F → ℕ
  unfolding performance_matches_played
  matches_played [] = 0
  matches_played (p ∷ stats) = performance_matches_played p + matches_played stats

  -- The loop of `MostPlayedLeagueID`, from a maximum that is none at first.
  unfoldable pub most_played_from : Option ℕ → Uuid → PlayerStats F → Uuid
  unfolding performance_matches_played
  most_played_from max id [] = id
  most_played_from none id (p ∷ stats) =
      most_played_from (some (performance_matches_played p)) p.league_id stats
  most_played_from (some max) id (p ∷ stats) =
      let played = performance_matches_played p in
      let more = ltb max played in
      most_played_from (some (if more then played else max)) (if more then p.league_id else id)
        stats

  unfoldable pub most_played_league_id : PlayerStats F → Uuid
  unfolding most_played_from
  most_played_league_id stats = most_played_from none 0 stats

  -- The entries of a player in the matches of a league, but for those in progress.
  unfoldable pub performance_of : PlayerRating F → Uuid → List MatchEntry → PlayerPerformance F
  unfolding select
  performance_of blank league_id entries = record {
    league_id = league_id;
    rating = blank;
    wins = length (select (λ e. is_win e.outcome) entries);
    losses = length (select (λ e. is_loss e.outcome) entries);
    draws = length (select (λ e. is_draw e.outcome) entries);
    forfeits = length (select (λ e. is_forfeited e.status) entries);
  }

  -- `GROUP BY Match.LeagueID`: the leagues by their ids, those without an entry left out.
  unfoldable pub performances : PlayerRating F → Db F → Uuid → List League → PlayerStats F
  unfolding select any performance_of
  performances blank db player_id [] = []
  performances blank db player_id (l ∷ leagues) =
      let rest = performances blank db player_id leagues in
      let entries =
        select
          (λ e.
            not (is_in_progress e.status)
            && e.player_id == player_id
            && any (λ m. m.id == e.match_id && m.league_id == l.id) db.matches)
          db.entries in
      if length entries == 0 then rest else performance_of blank l.id entries ∷ rest

  -- The inner loop over the ratings: the last one of the league stays.
  unfoldable pub with_rating : List (PlayerRating F) → PlayerPerformance F → PlayerPerformance F
  with_rating [] p = p
  with_rating (r ∷ ratings) p =
      with_rating ratings (if p.league_id == r.league_id then record p { rating = r } else p)

  -- A match belongs to a league of the database.
  unfoldable pub get_player_stats : PlayerRating F → Uuid → Action F (PlayerStats F)
  unfolding transaction performances order_with with_rating select
  get_player_stats blank player_id = transaction (do
    stats ← select_rows (λ db. performances blank db player_id (order_by (λ l. l.id) db.leagues))
    ratings ← select_rows (λ db. select (λ r. r.player_id == player_id) db.ratings)
    pure (map (with_rating ratings) stats))

  -- The leagues of the sessions, each with its id as the key. Without a session nothing is read.
  unfoldable pub get_league_map_from_sessions : List MatchSession → Action F (List League)
  unfolding select has
  get_league_map_from_sessions sessions =
      select_rows (λ db. select (λ l. has l.id (map (λ s. s.league_id) sessions)) db.leagues)

  -- The statuses, one at least, are given as the test for one of them, and the SQL clause for the
  -- order as a test. `IN` of no status would be an error.
  unfoldable pub get_match_sessions :
      Time
      → Time
      → (SessionStatus → Bool)
      → (MatchSession → MatchSession → Bool)
      → Action F (List MatchSession × List League)
  unfolding transaction select order_with get_league_map_from_sessions
  get_match_sessions from_date to_date is_asked order = transaction (do
    sessions ← select_rows (λ db. order_with order (
        select
          (λ s.
            leb (date_time from_date) (date_time s.start_date)
            && leb (date_time s.start_date) (date_time to_date)
            && is_asked s.status)
          db.sessions))
    leagues ← get_league_map_from_sessions sessions
    pure (sessions, leagues))

  unfoldable pub get_player_ratings :
      LeaderboardSetting F → String → Action F (List (PlayerRating F))
  unfolding transaction get_league_by_short_code select
  get_player_ratings board short_code = transaction (do
    league ← get_league_by_short_code short_code
    select_rows (λ db.
        select
          (λ r. r.league_id == league.id && board.float.lt r.deviation board.deviation_threshold)
          db.ratings))

  -- The loop of `GetPlayerMatches`.
  unfoldable pub fetch_opponents :
      Uuid → List Match → PlayerMap F → Action F (List Match × PlayerMap F)
  unfolding inject_entries get_player_and_opponent_entries get_player_by_id
  fetch_opponents player_id [] players = pure ([], players)
  fetch_opponents player_id (m ∷ matches) players = do
    match ← inject_entries m
    (self, entry) ← lift (get_player_and_opponent_entries match player_id)
    opponent ← get_player_by_id entry.player_id
    (rest, players') ← fetch_opponents player_id matches (put_player opponent players)
    pure (match ∷ rest, players')

  -- The latest match that was created comes first. A player has one entry in a match.
  unfoldable pub get_player_matches : Uuid → Action F (List Match × PlayerMap F)
  unfolding transaction select order_with any get_player_by_id fetch_opponents
  get_player_matches player_id = transaction (do
    matches ← select_rows (λ db.
        order_with (λ a b. leb b.created_at a.created_at)
          (select
            (λ m.
              any (λ s. s.id == m.match_session_id && is_closed s.status) db.sessions
              && any (λ e. e.match_id == m.id && e.player_id == player_id) db.entries)
            db.matches))
    self ← get_player_by_id player_id
    fetch_opponents player_id matches (put_player self []))

  -- The loop of `getPlayersByMatches`; a match without its two entries is a panic.
  unfoldable pub player_ids_of : List Match → Action F (List Uuid)
  unfolding entry_at
  player_ids_of [] = pure []
  player_ids_of (m ∷ matches) = do
    e1 ← lift (entry_at m 0)
    e2 ← lift (entry_at m 1)
    ids ← player_ids_of matches
    pure (e1.player_id ∷ e2.player_id ∷ ids)

  -- The players by their ids.
  unfoldable pub get_players_by_matches : List Match → Action F (List (Player F))
  unfolding player_ids_of select has
  get_players_by_matches matches = do
    ids ← player_ids_of matches
    select_rows (λ db. select (λ p. has p.id ids) db.players)

  unfoldable pub get_match_session : Uuid → Action F (MatchSession × List Match × List (Player F))
  unfolding transaction get_match_session_by_id get_matches_by_session_id get_players_by_matches
  get_match_session id = transaction (do
    session ← get_match_session_by_id id
    matches ← get_matches_by_session_id id
    players ← get_players_by_matches matches
    pure (session, matches, players))
