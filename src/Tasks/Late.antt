-- ===== src/Tasks/Late.antt =====
-- The ranking after the sessions have been closed, in `closeMatchSessionsAndUpdateRanks` of
-- back_periodic.go.
use kaepora.Base.{
  ◌≡◌, refl, ap, ◌∙◌, List, [], ◌∷◌, map, Bool, true, leb, Bool-cases, inl, inr, arith,
}
use kaepora.Base.Lists.{select}
use kaepora.Base.Result.{ok}
use kaepora.Clock.{Time}
use kaepora.Match.{Uuid, Match}
use kaepora.Store.{World, date_time, order_by}
use kaepora.Store.Atomic.{transaction-ok}
use kaepora.Session.{MatchSession}
use kaepora.Lifecycle.{for_each}
use kaepora.Matchmaking.{Setting}
use kaepora.Ranking.{current_period_start, next_period_start}
use kaepora.Ranking.Computed.{compute_period}
use kaepora.Ranking.Ratings.{Glicko, is_in_period}
use kaepora.Ranking.Updates.{update_league_rankings}
use kaepora.Ranking.Updates.Rated.{
  with_entries, matches_in, players_before, ranked, update_league_rankings-ranked,
}
use kaepora.Ranking.Updates.Again.{AllHaveTwo, Ranked, update_league_rankings-Ranked}
use kaepora.Tasks.{update_ranks}

select-select :
    {A : Type 0} (p q : A → Bool)
    → ((a : A) → p a ≡ true → q a ≡ true)
    → (rows : List A) → select p (select q rows) ≡ select p rows
unfolding select
select-select p q h [] = refl
select-select p q h (a ∷ rows) = elim (Bool-cases (p a)) [
  | inl holds ↦ ground (arith, h a holds, select-select p q h rows)
  | inr fails ↦ elim (Bool-cases (q a)) [
    | inl keeps ↦ ground (arith, select-select p q h rows)
    | inr drops ↦ ground (arith, select-select p q h rows)
  ]
]

-- A match that started in the period of `t`, or after it.
abbrev pub is_since : Time → Match → Bool
is_since t m = leb (date_time (current_period_start t)) (date_time m.started_at.time)

in_period-is_since :
    (league_id : Uuid) (t : Time) (m : Match)
    → is_in_period league_id (current_period_start t) (next_period_start t) m ≡ true
    → is_since t m ≡ true
unfolding is_in_period
in_period-is_since league_id t m h = ground arith

module _ {F : Type 0} where
  -- The world without the matches that started before the period.
  abbrev pub since : Time → World F → World F
  since t w = record w { db = record w.db { matches = select (is_since t) w.db.matches } }

  matches_in-since :
      (league_id : Uuid) (t : Time) (w : World F)
      → matches_in league_id t (since t w).db ≡ matches_in league_id t w.db
  matches_in-since league_id t w =
      ap (λ rows. map (with_entries w.db.entries) (order_by (λ m. m.started_at.time) rows))
        (select-select (is_in_period league_id (current_period_start t) (next_period_start t))
          (is_since t) (in_period-is_since league_id t) w.db.matches)

module _ {F : Type 0} (setting : Setting F) (glicko : Glicko F) where
  update_league_rankings-since :
      (league_id : Uuid) (now t : Time) (w : World F) (r : Ranked setting glicko league_id now t w)
      → update_league_rankings setting glicko now league_id t (since t w)
        ≡ (ok tt, since t (ranked now league_id t r.rated w))
  update_league_rankings-since league_id now t w r =
      update_league_rankings-ranked setting now league_id glicko t r.rated (since t w) (
        ap
          (λ rows.
            compute_period setting glicko now league_id rows (players_before league_id t w.db))
          (matches_in-since league_id t w)
        ∙ r.computed)

  for_each-since :
      (now : Time) (ended : List (MatchSession × List Match)) (w : World F)
      → AllHaveTwo w.db
      → (w' : World F) × (for_each
            (λ p. update_league_rankings setting glicko now p.0.league_id now)
            ended
            w
          ≡ (ok tt, w'))
        × (for_each
              (λ p. update_league_rankings setting glicko now p.0.league_id now)
              ended
              (since now w)
            ≡ (ok tt, since now w'))
  for_each-since now [] w two = (w, refl, refl)
  for_each-since now (p ∷ ended) w two =
      let r = update_league_rankings-Ranked setting glicko p.0.league_id now now w two in
      let (w', e, e') = for_each-since now ended (ranked now p.0.league_id now r.rated w) two in
      (
        w',
        ground (arith, r.result, e),
        ground (arith, update_league_rankings-since p.0.league_id now now w r, e'),
      )

  -- Where every match has its two entries, the rankings are updated after sessions have been
  -- closed without an error, and as if the matches that started before the rating period of that
  -- moment were not there: the ratings and their history come out the same.
  pub update_ranks-since :
      (now : Time) (ended : List (MatchSession × List Match)) (w : World F)
      → AllHaveTwo w.db
      → (w' : World F) × (update_ranks setting glicko now ended w ≡ (ok tt, w'))
        × (update_ranks setting glicko now ended (since now w) ≡ (ok tt, since now w'))
  unfolding update_ranks
  update_ranks-since now ended w two =
      let (w', e, e') = for_each-since now ended w two in
      (w', transaction-ok _ w w' tt e, transaction-ok _ (since now w) (since now w') tt e')
