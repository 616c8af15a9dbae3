-- ===== src/Ranking/Updates/Rated.antt =====
-- What `updateLeagueRankings` of back_ranking.go computes and writes.
use kaepora.Base.{◌≡◌, refl, List, [], ◌∷◌, map, not, ◌==◌, ◌&&◌, arith}
use kaepora.Base.Lists.{select}
use kaepora.Base.Result.{ok}
use kaepora.Clock.{Time}
use kaepora.Match.{Uuid, Match, MatchEntry}
use kaepora.Rating.{PlayerRating}
use kaepora.Store.{Db, World, stored, order_by}
use kaepora.Store.Rows.{inject_all}
use kaepora.Lifecycle.{for_each}
use kaepora.Matchmaking.{Setting}
use kaepora.Ranking.{current_period_start, next_period_start, previous_period_start}
use kaepora.Ranking.Ratings.{
  GlickoRating, GlickoPlayers, Glicko, players_of, is_in_period, same_rating, same_history,
  get_glicko_players_for_league, get_matches_by_period,
}
use kaepora.Ranking.Computed.{compute_period}
use kaepora.Ranking.UpsertAll.{upsert_all}
use kaepora.Ranking.Updates.{update_running_rating, close_rating, update_league_rankings}

-- A match with the entries of a table.
abbrev pub with_entries : List MatchEntry → Match → Match
with_entries entries m = record m { entries = select (λ e. e.match_id == m.id) entries }

module _ {F : Type 0} where
  -- The rows that a rating is written to.
  abbrev pub rating_row : Time → Uuid → Uuid × GlickoRating F → PlayerRating F
  rating_row now league_id p = record {
    player_id = p.0;
    league_id = league_id;
    created_at = stored now;
    rating_period_started_at = 0;
    rating = p.1.r;
    deviation = p.1.rd;
    volatility = p.1.sigma;
  }

  abbrev pub history_row : Time → Uuid → Time → Uuid × GlickoRating F → PlayerRating F
  history_row now league_id period_start p = record (rating_row now league_id p) {
    rating_period_started_at = stored period_start;
  }

  -- The matches of a period, with their entries, and the players of the period before.
  abbrev pub matches_in : Uuid → Time → Db F → List Match
  matches_in league_id t db = map (with_entries db.entries) (
      order_by (λ m. m.started_at.time)
        (select (is_in_period league_id (current_period_start t) (next_period_start t)) db.matches))

  abbrev pub players_before : Uuid → Time → Db F → GlickoPlayers F
  players_before league_id t db =
      players_of
        (select
          (λ r.
            r.league_id == league_id
            && r.rating_period_started_at == stored (previous_period_start t))
          db.history)
        []

  -- The rows of the other leagues.
  abbrev pub others : Uuid → List (PlayerRating F) → List (PlayerRating F)
  others league_id rows = select (λ r. not (r.league_id == league_id)) rows

  -- The world after the ratings of a league have been written.
  abbrev pub ranked : Time → Uuid → Time → GlickoPlayers F → World F → World F
  ranked now league_id t rated w = record w {
    db = record w.db {
      ratings = upsert_all same_rating (map (rating_row now league_id) rated) w.db.ratings;
      history =
          upsert_all same_history (map (history_row now league_id (current_period_start t)) rated)
            w.db.history;
    };
  }

  inject_all-reads :
      (matches : List Match) (w : World F)
      → inject_all matches w ≡ (ok (map (with_entries w.db.entries) matches), w)
  unfolding inject_all
  inject_all-reads [] w = refl
  inject_all-reads (m ∷ matches) w = ground (arith, inject_all-reads matches w)

  get_matches_by_period-reads :
      (league_id : Uuid) (t : Time) (w : World F)
      → get_matches_by_period league_id (current_period_start t) (next_period_start t) w
        ≡ (ok (matches_in league_id t w.db), w)
  unfolding get_matches_by_period
  get_matches_by_period-reads league_id t w = inject_all-reads _ w

  get_glicko_players_for_league-reads :
      (league_id : Uuid) (t : Time) (w : World F)
      → get_glicko_players_for_league league_id (previous_period_start t) w
        ≡ (ok (players_before league_id t w.db), w)
  unfolding get_glicko_players_for_league
  get_glicko_players_for_league-reads league_id t w = refl

module _ {F : Type 0} (setting : Setting F) (now : Time) (league_id : Uuid) where
  for_each-rating :
      (rated : GlickoPlayers F) (w : World F)
      → for_each (update_running_rating setting now league_id) rated w ≡ (
        ok tt,
        record w {
          db = record w.db {
            ratings = upsert_all same_rating (map (rating_row now league_id) rated) w.db.ratings;
          };
        },
      )
  unfolding update_running_rating
  for_each-rating [] w = refl
  for_each-rating (p ∷ rated) w =
      for_each-rating rated (update_running_rating setting now league_id p w).1

  for_each-history :
      (t : Time) (rated : GlickoPlayers F) (w : World F)
      → for_each (close_rating setting now league_id (current_period_start t)) rated w ≡ (
        ok tt,
        record w {
          db = record w.db {
            history =
                upsert_all same_history
                  (map (history_row now league_id (current_period_start t)) rated)
                  w.db.history;
          };
        },
      )
  unfolding close_rating
  for_each-history t [] w = refl
  for_each-history t (p ∷ rated) w =
      for_each-history t rated (close_rating setting now league_id (current_period_start t) p w).1

  pub update_league_rankings-ranked :
      (glicko : Glicko F) (t : Time) (rated : GlickoPlayers F) (w : World F)
      → compute_period setting glicko now league_id
          (matches_in league_id t w.db)
          (players_before league_id t w.db)
        ≡ ok rated
      → update_league_rankings setting glicko now league_id t w
        ≡ (ok tt, ranked now league_id t rated w)
  unfolding update_league_rankings
  update_league_rankings-ranked glicko t rated w computed = ground (
    arith,
    get_glicko_players_for_league-reads league_id t w,
    get_matches_by_period-reads league_id t w,
    computed,
    for_each-rating rated w,
    for_each-history t rated (record w {
      db = record w.db {
        ratings = upsert_all same_rating (map (rating_row now league_id) rated) w.db.ratings;
      };
    }),
  )
