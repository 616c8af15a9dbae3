-- ===== src/Ranking/Updates/Apart.antt =====
-- The rows that `updateLeagueRankings` writes have different keys, and are no other rows.
use kaepora.Base.{◌-◌, ◌*◌, ◌≤◌, ◌≡◌, refl, [], ◌∷◌, map, false, not, ◌&&◌, ◌==◌, ==_self, arith}
use kaepora.Base.Lists.{has, IsNodup, Each}
use kaepora.Clock.{Time, day}
use kaepora.Match.{Uuid}
use kaepora.Store.{stored}
use kaepora.Ranking.Ratings.{GlickoRating, GlickoPlayers, keys, same_rating, same_history}
use kaepora.Ranking.UpsertAll.{IsKey, IsApart, AllApart, Alike, IsBlind}
use kaepora.Ranking.Updates.Rated.{rating_row, history_row}

-- The period before is not the one that is written.
pub stored_before : (c : Time) → 7 * day ≤ c → (stored c == stored (c - 7 * day)) ≡ false
unfolding stored
stored_before c h = ground arith

module _ {F : Type 0} where
  pub rating-IsKey : IsKey {F = F} same_rating
  unfolding same_rating
  rating-IsKey = record {
    self = λ r. ground (arith, ==_self r.player_id, ==_self r.league_id);
    keeps = λ r q row. refl;
  }

  pub history-IsKey : IsKey {F = F} same_history
  unfolding same_history same_rating
  history-IsKey = record {
    self = λ r.
        ground
          (arith, ==_self r.player_id, ==_self r.league_id, ==_self r.rating_period_started_at);
    keeps = λ r q row. refl;
  }

  module _ (now : Time) (league_id : Uuid) where
    ratings-IsApart :
        (p : Uuid × GlickoRating F) (rated : GlickoPlayers F)
        → has p.0 (keys rated) ≡ false
        → Each
            (IsApart same_rating (rating_row now league_id p))
            (map (rating_row now league_id) rated)
    unfolding has same_rating
    ratings-IsApart p [] fresh = tt
    ratings-IsApart p (q ∷ rated) fresh =
        (((λ row e. ground arith), ground arith), ratings-IsApart p rated (ground arith))

    pub ratings-AllApart :
        (rated : GlickoPlayers F)
        → IsNodup (keys rated)
        → AllApart same_rating (map (rating_row now league_id) rated)
    ratings-AllApart [] h = tt
    ratings-AllApart (p ∷ rated) (fresh, h) =
        (ratings-IsApart p rated fresh, ratings-AllApart rated h)

    history-IsApart :
        (start : Time) (p : Uuid × GlickoRating F) (rated : GlickoPlayers F)
        → has p.0 (keys rated) ≡ false
        → Each
            (IsApart same_history (history_row now league_id start p))
            (map (history_row now league_id start) rated)
    unfolding has same_history same_rating
    history-IsApart start p [] fresh = tt
    history-IsApart start p (q ∷ rated) fresh =
        (((λ row e. ground arith), ground arith), history-IsApart start p rated (ground arith))

    pub history-AllApart :
        (start : Time) (rated : GlickoPlayers F)
        → IsNodup (keys rated)
        → AllApart same_history (map (history_row now league_id start) rated)
    history-AllApart start [] h = tt
    history-AllApart start (p ∷ rated) (fresh, h) =
        (history-IsApart start p rated fresh, history-AllApart start rated h)

  module _ (now now' : Time) (league_id : Uuid) where
    pub ratings-Alike :
        (rated : GlickoPlayers F)
        → Alike same_rating
            (map (rating_row now league_id) rated)
            (map (rating_row now' league_id) rated)
    unfolding same_rating
    ratings-Alike [] = tt
    ratings-Alike (p ∷ rated) = ((λ row. (refl, refl)), ratings-Alike rated)

    pub history-Alike :
        (start : Time) (rated : GlickoPlayers F)
        → Alike same_history
            (map (history_row now league_id start) rated)
            (map (history_row now' league_id start) rated)
    unfolding same_history same_rating
    history-Alike start [] = tt
    history-Alike start (p ∷ rated) = ((λ row. (refl, refl)), history-Alike start rated)

  pub history-IsBlind :
      (now : Time) (league_id : Uuid) (start before : Time) (rated : GlickoPlayers F)
      → (stored start == stored before) ≡ false
      → Each
          (IsBlind same_history
            (λ r. r.league_id == league_id && r.rating_period_started_at == stored before))
          (map (history_row now league_id start) rated)
  unfolding same_history same_rating
  history-IsBlind now league_id start before [] h = tt
  history-IsBlind now league_id start before (p ∷ rated) h = (
    ((λ row e. (ground arith, ground arith)), ground arith),
    history-IsBlind now league_id start before rated h,
  )

  -- The rows of a league are none of the others.
  pub others-IsBlind :
      (now : Time) (league_id : Uuid) (rated : GlickoPlayers F)
      → Each
          (IsBlind same_rating (λ r. not (r.league_id == league_id)))
          (map (rating_row now league_id) rated)
  unfolding same_rating
  others-IsBlind now league_id [] = tt
  others-IsBlind now league_id (p ∷ rated) = (
    ((λ row e. (ground arith, ground arith)), ground (arith, ==_self league_id)),
    others-IsBlind now league_id rated,
  )

  pub other_history-IsBlind :
      (now : Time) (league_id : Uuid) (start : Time) (rated : GlickoPlayers F)
      → Each
          (IsBlind same_history (λ r. not (r.league_id == league_id)))
          (map (history_row now league_id start) rated)
  unfolding same_history same_rating
  other_history-IsBlind now league_id start [] = tt
  other_history-IsBlind now league_id start (p ∷ rated) = (
    ((λ row e. (ground arith, ground arith)), ground (arith, ==_self league_id)),
    other_history-IsBlind now league_id start rated,
  )
