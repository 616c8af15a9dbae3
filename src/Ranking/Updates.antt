-- ===== src/Ranking/Updates.antt =====
-- `updateLeagueRankings` and `Rerank` of internal/back/back_ranking.go.
pub mod Rated
pub mod Apart
pub mod Again
pub mod Reranked
pub mod Tests
use Prim.Native.String.{String}
use kaepora.Base.{ℕ, List, [], ◌∷◌, none, some, ◌==◌, if◌then◌else◌}
use kaepora.Base.Lists.{get_elem?, find}
use kaepora.Base.Result.{Result, ok, err, panic}
use kaepora.Clock.{Time}
use kaepora.Match.{Uuid, Match, MatchEntry}
use kaepora.Rating.{PlayerRating}
use kaepora.Store.{League, Action, ◌>>=◌, ◌>>◌, pure, lift, on_no_rows, transaction}
use kaepora.Store.Rows.{get_league_by_short_code}
use kaepora.Lifecycle.{for_each}
use kaepora.Matchmaking.{Setting, new_player_rating}
use kaepora.Ranking.{current_period_start, next_period_start, previous_period_start, rerank_periods}
use kaepora.Ranking.Computed.{compute_period}
use kaepora.Ranking.Ratings.{
  GlickoRating, GlickoMatch, GlickoPlayers, Glicko, put, glicko_rating, set_rating,
  get_glicko_players_for_league, get_matches_by_period, get_first_match_start_of_league, upsert,
  upsert_history, delete_league_rankings,
}

module _ {F : Type 0} (setting : Setting F) where
  -- The body of the loop of `updateRunningPeriodRatings`.
  unfoldable pub update_running_rating : Time → Uuid → Uuid × GlickoRating F → Action F (Unit {0})
  unfolding new_player_rating set_rating upsert
  update_running_rating now league_id (player_id, g) =
      upsert (set_rating (new_player_rating setting now player_id league_id) g)

  -- The body of the loop of `closeRatingPeriod`.
  unfoldable pub close_rating : Time → Uuid → Time → Uuid × GlickoRating F → Action F (Unit {0})
  unfolding new_player_rating set_rating upsert_history
  close_rating now league_id period_start (player_id, g) =
      upsert_history (set_rating (new_player_rating setting now player_id league_id) g) period_start

module _ {F : Type 0} where
  -- The first transaction of `Rerank`. No match is no error, and gives the zero time.
  unfoldable pub prune_rankings : String → Action F (League × Time)
  unfolding get_league_by_short_code delete_league_rankings get_first_match_start_of_league
  prune_rankings short_code = do
    league ← get_league_by_short_code short_code
    delete_league_rankings league.id
    first ← on_no_rows (get_first_match_start_of_league league.id) (pure 0)
    pure (league, first)

module _ {F : Type 0} (setting : Setting F) (glicko : Glicko F) where
  -- For the period that `t` is in; `now` is the clock, which new rows get as their date.
  unfoldable pub update_league_rankings : Time → Uuid → Time → Action F (Unit {0})
  update_league_rankings now league_id t = do
    players ← get_glicko_players_for_league league_id (previous_period_start t)
    matches ← get_matches_by_period league_id (current_period_start t) (next_period_start t)
    rated ← lift (compute_period setting glicko now league_id matches players)
    for_each (update_running_rating setting now league_id) rated
    for_each (close_rating setting now league_id (current_period_start t)) rated

  -- The rest of `Rerank`, with a transaction for each period.
  unfoldable pub rerank_pruned : Time → League × Time → Action F (Unit {0})
  rerank_pruned now (league, first) =
      if first == 0
      then pure tt
      else for_each (λ i. transaction (update_league_rankings now league.id i))
          (rerank_periods first now)

  unfoldable pub rerank : Time → String → Action F (Unit {0})
  rerank now short_code = transaction (prune_rankings short_code) >>= rerank_pruned now
