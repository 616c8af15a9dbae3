-- ===== src/Ranking/Ratings.antt =====
-- The queries of internal/back/player_rating.go and match.go that the ranking uses. A Go map is the
-- list of its entries, in the order in which the keys came; the order in which Go goes through it
-- is left open there.
use kaepora.Base.{
  ◌≡◌, List, [], ◌∷◌, ◌++◌, map, none, some, Bool, not, ltb, leb, ◌==◌, ◌&&◌, if◌then◌else◌,
}
use kaepora.Base.Lists.{select, any}
use kaepora.Clock.{Time}
use kaepora.Match.{Uuid, Match, Outcome}
use kaepora.Rating.{PlayerRating}
use kaepora.Store.{
  Action, ◌>>=◌, ◌>>◌, select_rows, get_row, exec, stored, date_time, order_by, order_with,
  update_where,
}
use kaepora.Store.Rows.{inject_all}

-- `glicko.Rating`, and a match of a period: the players and how the first one fared.
pub record GlickoRating (F : Type 0) : Type 0 where
  pub r : F
  pub rd : F
  pub sigma : F

pub record GlickoMatch : Type 0 where
  pub first : Uuid
  pub second : Uuid
  pub result : Outcome

-- `map[util.UUIDAsBlob]*glicko.Player`: each player with the rating.
abbrev pub GlickoPlayers : Type 0 → Type 0
GlickoPlayers F = List (Uuid × GlickoRating F)

abbrev pub keys : {F : Type 0} → GlickoPlayers F → List Uuid
keys players = map (λ p. p.0) players

-- Glicko-2: `RatingPeriod.Calculate` rates every player of the period anew.
pub record Glicko (F : Type 0) : Type 0 where
  pub calculate : GlickoPlayers F → List GlickoMatch → GlickoPlayers F
  pub calculate-keys :
      (players : GlickoPlayers F) (matches : List GlickoMatch)
      → keys (calculate players matches) ≡ keys players

-- `m[k] = v`.
abbrev pub put : {F : Type 0} → Uuid → GlickoRating F → GlickoPlayers F → GlickoPlayers F
put id rating [] = (id, rating) ∷ []
put id rating (p ∷ players) =
    if p.0 == id then (id, rating) ∷ players else p ∷ put id rating players

-- A match that has started has a start date; `NULL` compares as false.
unfoldable pub is_in_period : Uuid → Time → Time → Match → Bool
is_in_period league_id from to m =
    m.league_id == league_id
    && m.started_at.valid
    && leb (date_time from) (date_time m.started_at.time)
    && ltb (date_time m.started_at.time) (date_time to)

module _ {F : Type 0} where
  -- `GlickoRating` and `SetRating` of player_rating.go.
  unfoldable pub glicko_rating : PlayerRating F → GlickoRating F
  glicko_rating r = record { r = r.rating; rd = r.deviation; sigma = r.volatility }

  unfoldable pub set_rating : PlayerRating F → GlickoRating F → PlayerRating F
  set_rating r g = record r { rating = g.r; deviation = g.rd; volatility = g.sigma }

  -- The loop of `getGlickoPlayersForLeague`.
  unfoldable pub players_of : List (PlayerRating F) → GlickoPlayers F → GlickoPlayers F
  unfolding glicko_rating
  players_of [] players = players
  players_of (r ∷ ratings) players = players_of ratings (put r.player_id (glicko_rating r) players)

  unfoldable pub get_glicko_players_for_league : Uuid → Time → Action F (GlickoPlayers F)
  unfolding select stored players_of
  get_glicko_players_for_league league_id period_start = select_rows (λ db.
      players_of
        (select (λ r. r.league_id == league_id && r.rating_period_started_at == stored period_start)
          db.history)
        [])

  unfoldable pub get_matches_by_period : Uuid → Time → Time → Action F (List Match)
  unfolding select is_in_period order_with inject_all
  get_matches_by_period league_id from to = do
    matches ← select_rows (λ db.
        order_by (λ m. m.started_at.time) (select (is_in_period league_id from to) db.matches))
    inject_all matches

  -- `StartedAt` of the first match, in the order of that column.
  unfoldable pub get_first_match_start_of_league : Uuid → Action F Time
  unfolding select order_with
  get_first_match_start_of_league league_id = get_row (λ db.
      elim (order_by (λ m. m.started_at.time)
        (select (λ m. m.started_at.valid && m.league_id == league_id) db.matches)) [
          | [] ↦ none
          | m ∷ _ ↦ some m.started_at.time
        ])

  -- The key of a rating, and that of a row of the history.
  unfoldable pub same_rating : PlayerRating F → PlayerRating F → Bool
  same_rating r row = row.player_id == r.player_id && row.league_id == r.league_id

  unfoldable pub same_history : PlayerRating F → PlayerRating F → Bool
  unfolding same_rating
  same_history r row =
      same_rating r row && row.rating_period_started_at == r.rating_period_started_at

  -- `INSERT … ON CONFLICT(…) DO UPDATE SET`: the rating of a row that is there, or a new row.
  unfoldable pub upsert_where :
      (PlayerRating F → PlayerRating F → Bool)
      → PlayerRating F
      → List (PlayerRating F)
      → List (PlayerRating F)
  unfolding any update_where
  upsert_where same r rows =
      if any (same r) rows
      then update_where (same r)
          (λ row. record row {
            rating = r.rating;
            deviation = r.deviation;
            volatility = r.volatility;
          })
          rows
      else rows ++ r ∷ []

  unfoldable pub upsert : PlayerRating F → Action F (Unit {0})
  unfolding upsert_where same_rating stored
  upsert r = exec (λ db. record db {
    ratings = upsert_where same_rating (record r { created_at = stored r.created_at }) db.ratings;
  })

  unfoldable pub upsert_history : PlayerRating F → Time → Action F (Unit {0})
  unfolding upsert_where same_history stored
  upsert_history r rating_period_started_at = exec (λ db. record db {
    history =
        upsert_where same_history
          (record r {
            created_at = stored r.created_at;
            rating_period_started_at = stored rating_period_started_at;
          })
          db.history;
  })

  unfoldable pub delete_league_rankings : Uuid → Action F (Unit {0})
  unfolding select
  delete_league_rankings league_id =
      exec (λ db. record db { history = select (λ r. not (r.league_id == league_id)) db.history })
      >> exec
          (λ db. record db { ratings = select (λ r. not (r.league_id == league_id)) db.ratings })
