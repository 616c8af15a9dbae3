-- ===== src/Ranking/Updates/Again.antt =====
-- The ratings of a period can be updated at any time of it.
use kaepora.Base.{
  ◌+◌, ◌-◌, ◌*◌, ◌≤◌, ◌≡◌, sym, ap, subst, ◌∙◌, List, [], ◌∷◌, map, not, ◌&&◌, ◌==◌, arith,
}
use kaepora.Base.Lists.{select, IsNodup, Each, Each-select}
use kaepora.Base.Result.{ok}
use kaepora.Clock.{Time, day}
use kaepora.Match.{Uuid, Match, MatchEntry}
use kaepora.Store.{Db, World, stored, order_by}
use kaepora.Store.Order.{Each-order_with}
use kaepora.Matchmaking.{Setting}
use kaepora.Ranking.{current_period_start, next_period_start, previous_period_start}
use kaepora.Ranking.Ratings.{
  GlickoPlayers, Glicko, players_of, keys, is_in_period, same_rating, same_history,
}
use kaepora.Ranking.UpsertAll.{upsert_all_again, select-upsert_all}
use kaepora.Ranking.Keys.{HasTwo, players_of-IsNodup, compute_period-total, compute_period-clock}
use kaepora.Ranking.Computed.{compute_period}
use kaepora.Ranking.Updates.{update_league_rankings}
use kaepora.Ranking.Updates.Rated.{
  with_entries, rating_row, history_row, matches_in, players_before, ranked, others,
  update_league_rankings-ranked,
}
use kaepora.Ranking.Updates.Apart.{
  rating-IsKey, history-IsKey, ratings-AllApart, history-AllApart, ratings-Alike, history-Alike,
  history-IsBlind, others-IsBlind, other_history-IsBlind, stored_before,
}

-- Every match of a database has its two entries.
abbrev pub AllHaveTwo : {F : Type 0} → Db F → Type 0
AllHaveTwo db = Each (λ m. HasTwo (with_entries db.entries m)) db.matches

Each-with_entries :
    (entries : List MatchEntry) (matches : List Match)
    → Each (λ m. HasTwo (with_entries entries m)) matches
    → Each HasTwo (map (with_entries entries) matches)
Each-with_entries entries [] h = tt
Each-with_entries entries (m ∷ matches) (hm, h) = (hm, Each-with_entries entries matches h)

module _ {F : Type 0} where
  matches_in-HasTwo :
      (league_id : Uuid) (t : Time) (db : Db F)
      → AllHaveTwo db
      → Each HasTwo (matches_in league_id t db)
  matches_in-HasTwo league_id t db h = Each-with_entries db.entries _ (
      Each-order_with (λ m. HasTwo (with_entries db.entries m)) _ _
        (Each-select (λ m. HasTwo (with_entries db.entries m)) _ db.matches h))

  -- Two instants of the same period.
  same_matches :
      (league_id : Uuid) (t t' : Time) (db : Db F)
      → current_period_start t' ≡ current_period_start t
      → matches_in league_id t' db ≡ matches_in league_id t db
  unfolding next_period_start
  same_matches league_id t t' db e =
      ap
        (λ c. map (with_entries db.entries) (
          order_by (λ m. m.started_at.time)
            (select (is_in_period league_id c (c + 7 * day)) db.matches)))
        e

  same_players :
      (league_id : Uuid) (t t' : Time) (db : Db F)
      → current_period_start t' ≡ current_period_start t
      → players_before league_id t' db ≡ players_before league_id t db
  unfolding previous_period_start
  same_players league_id t t' db e =
      ap
        (λ c.
          players_of
            (select
              (λ r. r.league_id == league_id && r.rating_period_started_at == stored (c - 7 * day))
              db.history)
            [])
        e

module _ {F : Type 0} (setting : Setting F) (glicko : Glicko F) (league_id : Uuid) where
  -- What an update of the ratings of a league gives: it succeeds, it changes nothing but ratings
  -- and their history, and of those only rows of the league.
  pub record Ranked (now t : Time) (w : World F) : Type 0 where
    pub rated : GlickoPlayers F
    pub computed :
        compute_period setting glicko now league_id
          (matches_in league_id t w.db)
          (players_before league_id t w.db)
        ≡ ok rated
    pub apart : IsNodup (keys rated)
    pub result :
        update_league_rankings setting glicko now league_id t w
        ≡ (ok tt, ranked now league_id t rated w)

  pub update_league_rankings-Ranked :
      (now t : Time) (w : World F) → AllHaveTwo w.db → Ranked now t w
  update_league_rankings-Ranked now t w two =
      let (rated, computed, apart) =
        compute_period-total setting glicko now league_id (matches_in league_id t w.db)
          (players_before league_id t w.db) (matches_in-HasTwo league_id t w.db two)
          (players_of-IsNodup _ [] tt) in
      record {
        rated = rated;
        computed = computed;
        apart = apart;
        result = update_league_rankings-ranked setting now league_id glicko t rated w computed;
      }

  ranked-again :
      (now now' t t' : Time) (rated : GlickoPlayers F) (w : World F)
      → current_period_start t' ≡ current_period_start t
      → IsNodup (keys rated)
      → ranked now' league_id t' rated (ranked now league_id t rated w)
        ≡ ranked now league_id t rated w
  ranked-again now now' t t' rated w e apart = ground (
    arith,
    e,
    upsert_all_again same_rating rating-IsKey (map (rating_row now league_id) rated)
        (map (rating_row now' league_id) rated) w.db.ratings
        (ratings-AllApart now league_id rated apart) (ratings-Alike now now' league_id rated),
    upsert_all_again same_history history-IsKey
        (map (history_row now league_id (current_period_start t)) rated)
        (map (history_row now' league_id (current_period_start t)) rated) w.db.history
        (history-AllApart now league_id (current_period_start t) rated apart)
        (history-Alike now now' league_id (current_period_start t) rated),
  )

  same_players_after :
      (now t : Time) (rated : GlickoPlayers F) (w : World F)
      → 7 * day ≤ current_period_start t
      → players_before league_id t (ranked now league_id t rated w).db
        ≡ players_before league_id t w.db
  unfolding previous_period_start
  same_players_after now t rated w late =
      ap (λ rows. players_of rows [])
        (select-upsert_all same_history
          (λ r.
            r.league_id == league_id
            && r.rating_period_started_at == stored (current_period_start t - 7 * day))
          (map (history_row now league_id (current_period_start t)) rated) w.db.history
          (history-IsBlind now league_id (current_period_start t) (current_period_start t - 7 * day)
            rated (stored_before (current_period_start t) late)))

  computed_again :
      (now now' t t' : Time) (w : World F)
      → current_period_start t' ≡ current_period_start t
      → 7 * day ≤ current_period_start t
      → (r : Ranked now t w)
      → compute_period setting glicko now' league_id
          (matches_in league_id t' (ranked now league_id t r.rated w).db)
          (players_before league_id t' (ranked now league_id t r.rated w).db)
        ≡ ok r.rated
  computed_again now now' t t' w e late r = ground (
    arith,
    same_matches league_id t t' (ranked now league_id t r.rated w).db e,
    same_players league_id t t' (ranked now league_id t r.rated w).db e,
    same_players_after now t r.rated w late,
    compute_period-clock setting glicko now' now league_id (matches_in league_id t w.db)
        (players_before league_id t w.db),
    r.computed,
  )

  -- Where every match has its two entries, `updateLeagueRankings` succeeds, and it can be called
  -- again for any instant of the same period, at any time: the second call succeeds and changes
  -- nothing.
  pub update_league_rankings_again :
      (now now' t t' : Time) (w : World F)
      → current_period_start t' ≡ current_period_start t
      → 7 * day ≤ current_period_start t
      → AllHaveTwo w.db
      → ((update_league_rankings setting glicko now league_id t w).0 ≡ ok tt)
        × (update_league_rankings setting glicko now' league_id t'
              (update_league_rankings setting glicko now league_id t w).1
            ≡ (ok tt, (update_league_rankings setting glicko now league_id t w).1))
  update_league_rankings_again now now' t t' w e late two =
      let r = update_league_rankings-Ranked now t w two in
      (
        ap (λ p. p.0) r.result,
        subst (λ w1. update_league_rankings setting glicko now' league_id t' w1 ≡ (ok tt, w1))
            (sym (ap (λ p. p.1) r.result))
            (update_league_rankings-ranked setting now' league_id glicko t' r.rated
                (ranked now league_id t r.rated w) (computed_again now now' t t' w e late r)
              ∙ ap (λ w1. (ok tt, w1)) (ranked-again now now' t t' r.rated w e r.apart)),
      )

  pub others-ranked :
      (now t : Time) (rated : GlickoPlayers F) (w : World F)
      → (others league_id (ranked now league_id t rated w).db.ratings
          ≡ others league_id w.db.ratings)
        × (others league_id (ranked now league_id t rated w).db.history
            ≡ others league_id w.db.history)
  others-ranked now t rated w = (
    select-upsert_all same_rating (λ r. not (r.league_id == league_id))
        (map (rating_row now league_id) rated) w.db.ratings (others-IsBlind now league_id rated),
    select-upsert_all same_history (λ r. not (r.league_id == league_id))
        (map (history_row now league_id (current_period_start t)) rated) w.db.history
        (other_history-IsBlind now league_id (current_period_start t) rated),
  )
