-- ===== src/Queries/Tests.antt =====
-- The performances of a player who has won one race.
use kaepora.Base.{◌≡◌, refl, [], ◌∷◌}
use kaepora.Base.Int.{ℤ}
use kaepora.Base.Result.{Result, ok, err}
use kaepora.Pairing.Tests.{rated}
use kaepora.Base.Int.{pos}
use kaepora.Ranking.Updates.Tests.{raced}
use kaepora.Queries.{
  PlayerStats, get_player_stats, most_played_league_id, matches_won, matches_played,
}

abbrev stats_of : Result (PlayerStats ℤ) → PlayerStats ℤ
stats_of (ok stats) = stats
stats_of (err e) = []

abbrev stats : PlayerStats ℤ
stats = stats_of (get_player_stats (rated 0 (pos 0) (pos 0)).rating 1 raced).0

one_won :
    most_played_league_id stats ∷ matches_won stats ∷ matches_played stats ∷ [] ≡ 10 ∷ 1 ∷ 1 ∷ []
unfolding get_player_stats most_played_league_id matches_won matches_played
one_won = refl
