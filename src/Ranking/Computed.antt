-- ===== src/Ranking/Computed.antt =====
-- `computePeriod` of internal/back/back_ranking.go.
use kaepora.Base.{ℕ, List, [], ◌∷◌, none, some, ◌==◌}
use kaepora.Base.Lists.{get_elem?, find}
use kaepora.Base.Result.{Result, ok, err, panic, ◌>>=◌}
use kaepora.Clock.{Time}
use kaepora.Match.{Uuid, Match, MatchEntry}
use kaepora.Matchmaking.{Setting, new_player_rating}
use kaepora.Ranking.Ratings.{GlickoMatch, GlickoPlayers, Glicko, put, glicko_rating}

-- `matches[k].Entries[i]`.
unfoldable pub entry_at : Match → ℕ → Result MatchEntry
entry_at m i = elim (get_elem? m.entries i) [
  | some e ↦ ok e
  | none ↦ err (panic "index out of range")
]

module _ {F : Type 0} (setting : Setting F) where
  -- The closure of `computePeriod`: a player who is not there yet has the base rating.
  unfoldable pub with_glicko_player : Time → Uuid → Uuid → GlickoPlayers F → GlickoPlayers F
  unfolding find new_player_rating glicko_rating
  with_glicko_player now league_id id players = elim (find (λ p. p.0 == id) players) [
    | some p ↦ players
    | none ↦ put id (glicko_rating (new_player_rating setting now id league_id)) players
  ]

  -- The loop over the matches.
  unfoldable pub period_matches :
      Time → Uuid → List Match → GlickoPlayers F → Result (GlickoPlayers F × List GlickoMatch)
  unfolding with_glicko_player entry_at
  period_matches now league_id [] players = ok (players, [])
  period_matches now league_id (m ∷ matches) players = do
    e1 ← entry_at m 0
    e2 ← entry_at m 1
    rest ← period_matches now league_id matches (
        with_glicko_player now league_id e2.player_id
          (with_glicko_player now league_id e1.player_id players))
    ok (
      rest.0,
      record { first = e1.player_id; second = e2.player_id; result = e1.outcome } ∷ rest.1,
    )

  unfoldable pub compute_period :
      Glicko F → Time → Uuid → List Match → GlickoPlayers F → Result (GlickoPlayers F)
  unfolding period_matches
  compute_period glicko now league_id matches players = do
    period ← period_matches now league_id matches players
    ok (glicko.calculate period.0 period.1)
