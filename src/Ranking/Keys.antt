-- ===== src/Ranking/Keys.antt =====
-- The keys of a map of players, and how `computePeriod` keeps them apart.
use kaepora.Base.{
  ◌≡◌, refl, sym, subst, ap, List, [], ◌∷◌, none, some, ◌||◌, ◌==◌, Option-cases, Bool-cases, inl,
  inr, arith,
}
use kaepora.Base.Lists.{get_elem?, find, has, IsNodup, Each}
use kaepora.Base.Result.{ok, ◌>>=◌}
use kaepora.Clock.{Time}
use kaepora.Match.{Uuid, Match, MatchEntry}
use kaepora.Rating.{PlayerRating}
use kaepora.Matchmaking.{Setting, new_player_rating}
use kaepora.Ranking.Ratings.{
  GlickoRating, GlickoMatch, GlickoPlayers, Glicko, keys, put, glicko_rating, players_of,
}
use kaepora.Ranking.Computed.{entry_at, with_glicko_player, period_matches, compute_period}

module _ {F : Type 0} where
  has-put :
      (a id : Uuid) (g : GlickoRating F) (players : GlickoPlayers F)
      → has a (keys (put id g players)) ≡ (has a (keys players) || id == a)
  unfolding has
  has-put a id g [] = ground arith
  has-put a id g (p ∷ players) = ground (arith, has-put a id g players)

  put-IsNodup :
      (id : Uuid) (g : GlickoRating F) (players : GlickoPlayers F)
      → IsNodup (keys players)
      → IsNodup (keys (put id g players))
  unfolding has
  put-IsNodup id g [] h = (refl, tt)
  put-IsNodup id g (p ∷ players) (fresh, h) = elim (Bool-cases (p.0 == id)) [
    | inl same ↦ rw same (ground arith, h)
    | inr other ↦ rw other (ground (arith, has-put p.0 id g players), put-IsNodup id g players h)
  ]

  pub players_of-IsNodup :
      (ratings : List (PlayerRating F)) (players : GlickoPlayers F)
      → IsNodup (keys players)
      → IsNodup (keys (players_of ratings players))
  unfolding players_of
  players_of-IsNodup [] players h = h
  players_of-IsNodup (r ∷ ratings) players h =
      players_of-IsNodup ratings (put r.player_id (glicko_rating r) players)
        (put-IsNodup r.player_id (glicko_rating r) players h)

-- A match with its two entries.
abbrev pub HasTwo : Match → Type 0
HasTwo m =
    (e1 : MatchEntry) × (e2 : MatchEntry) × (get_elem? m.entries 0 ≡ some e1)
    × (get_elem? m.entries 1 ≡ some e2)

module _ {F : Type 0} (setting : Setting F) where
  with_glicko_player-missing :
      (now : Time) (league_id id : Uuid) (players : GlickoPlayers F)
      → find (λ p. p.0 == id) players ≡ none
      → with_glicko_player setting now league_id id players
        ≡ put id (glicko_rating (new_player_rating setting now id league_id)) players
  unfolding with_glicko_player
  with_glicko_player-missing now league_id id players missing = ground arith

  with_glicko_player-found :
      (now : Time) (league_id id : Uuid) (players : GlickoPlayers F) (p : Uuid × GlickoRating F)
      → find (λ p. p.0 == id) players ≡ some p
      → with_glicko_player setting now league_id id players ≡ players
  unfolding with_glicko_player
  with_glicko_player-found now league_id id players p found = ground arith

  with_glicko_player-IsNodup :
      (now : Time) (league_id id : Uuid) (players : GlickoPlayers F)
      → IsNodup (keys players)
      → IsNodup (keys (with_glicko_player setting now league_id id players))
  with_glicko_player-IsNodup now league_id id players h =
      elim (Option-cases (find (λ p. p.0 == id) players)) [
        | inl missing ↦
            subst (λ ps. IsNodup (keys ps))
              (sym (with_glicko_player-missing now league_id id players missing))
              (put-IsNodup id (glicko_rating (new_player_rating setting now id league_id)) players
                h)
        | inr (p, found) ↦
            subst (λ ps. IsNodup (keys ps))
              (sym (with_glicko_player-found now league_id id players p found)) h
      ]

  pub record Computes (now : Time) (league_id : Uuid) (matches : List Match)
      (players : GlickoPlayers F) : Type 0 where
    pub players' : GlickoPlayers F
    pub results : List GlickoMatch
    pub gives : period_matches setting now league_id matches players ≡ ok (players', results)
    pub apart : IsNodup (keys players')

  period_matches-Computes :
      (now : Time) (league_id : Uuid) (matches : List Match) (players : GlickoPlayers F)
      → Each HasTwo matches
      → IsNodup (keys players)
      → Computes now league_id matches players
  unfolding period_matches entry_at
  period_matches-Computes now league_id [] players two h = record {
    players' = players;
    results = [];
    gives = refl;
    apart = h;
  }
  period_matches-Computes now league_id (m ∷ matches) players ((e1, e2, first, second), two) h =
      let rest =
        period_matches-Computes now league_id matches
          (with_glicko_player setting now league_id e2.player_id
            (with_glicko_player setting now league_id e1.player_id players))
          two
          (with_glicko_player-IsNodup now league_id e2.player_id _
            (with_glicko_player-IsNodup now league_id e1.player_id players h)) in
      record {
        players' = rest.players';
        results =
            record { first = e1.player_id; second = e2.player_id; result = e1.outcome }
            ∷ rest.results;
        gives = ground (arith, first, second, rest.gives);
        apart = rest.apart;
      }

  -- `computePeriod` of matches with two entries each does not panic, and rates no player twice.
  pub compute_period-total :
      (glicko : Glicko F) (now : Time) (league_id : Uuid) (matches : List Match)
      (players : GlickoPlayers F)
      → Each HasTwo matches
      → IsNodup (keys players)
      → (rated : GlickoPlayers F) × (compute_period setting glicko now league_id matches players
          ≡ ok rated)
        × IsNodup (keys rated)
  unfolding compute_period
  compute_period-total glicko now league_id matches players two h =
      let period = period_matches-Computes now league_id matches players two h in
      (
        glicko.calculate period.players' period.results,
        ground (arith, period.gives),
        subst IsNodup (sym (glicko.calculate-keys period.players' period.results)) period.apart,
      )

  -- The clock does not matter.
  with_glicko_player-clock :
      (now now' : Time) (league_id id : Uuid) (players : GlickoPlayers F)
      → with_glicko_player setting now league_id id players
        ≡ with_glicko_player setting now' league_id id players
  unfolding with_glicko_player new_player_rating glicko_rating
  with_glicko_player-clock now now' league_id id players = refl

  period_matches-clock :
      (now now' : Time) (league_id : Uuid) (matches : List Match) (players : GlickoPlayers F)
      → period_matches setting now league_id matches players
        ≡ period_matches setting now' league_id matches players
  unfolding period_matches entry_at
  period_matches-clock now now' league_id [] players = refl
  period_matches-clock now now' league_id (m ∷ matches) players =
      elim (Option-cases (get_elem? m.entries 0)) [
        | inl missing ↦ ground arith
        | inr (e1, first) ↦ elim (Option-cases (get_elem? m.entries 1)) [
          | inl missing ↦ ground arith
          | inr (e2, second) ↦ ground (
            arith,
            with_glicko_player-clock now now' league_id e1.player_id players,
            with_glicko_player-clock now now' league_id e2.player_id
                (with_glicko_player setting now league_id e1.player_id players),
            period_matches-clock now now' league_id matches (
                with_glicko_player setting now league_id e2.player_id
                  (with_glicko_player setting now league_id e1.player_id players)),
          )
        ]
      ]

  pub compute_period-clock :
      (glicko : Glicko F) (now now' : Time) (league_id : Uuid) (matches : List Match)
      (players : GlickoPlayers F)
      → compute_period setting glicko now league_id matches players
        ≡ compute_period setting glicko now' league_id matches players
  unfolding compute_period
  compute_period-clock glicko now now' league_id matches players =
      ap (λ r. r >>= λ period. ok (glicko.calculate period.0 period.1))
        (period_matches-clock now now' league_id matches players)
