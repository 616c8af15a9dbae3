-- ===== src/Ranking/Updates/Reranked.antt =====
-- `Rerank` of back_ranking.go.
use Prim.Native.String.{String}
use text.Mathlib.Text
use kaepora.Base.{
  ◌≡◌, refl, sym, ap, subst, ◌∙◌, ◌⊎◌, List, [], ◌∷◌, some, false, ◌&&◌, ◌==◌, Bool-cases, inl, inr,
  if◌then◌else◌, arith,
}
use kaepora.Base.Lists.{select, find}
use kaepora.Base.Result.{Result, ok}
use kaepora.Clock.{Time}
use kaepora.Match.{Uuid, Match}
use kaepora.Rating.{PlayerRating}
use kaepora.Store.{League, Db, World, transaction, order_by, on_no_rows, pure}
use kaepora.Store.Atomic.{transaction-ok}
use kaepora.Store.Rows.{get_league_by_short_code}
use kaepora.Lifecycle.{for_each}
use kaepora.Matchmaking.{Setting}
use kaepora.Ranking.{rerank_periods}
use kaepora.Ranking.Ratings.{Glicko, delete_league_rankings, get_first_match_start_of_league}
use kaepora.Ranking.Updates.{update_league_rankings, prune_rankings, rerank, rerank_pruned}
use kaepora.Ranking.Updates.Rated.{ranked, others}
use kaepora.Ranking.Updates.Again.{AllHaveTwo, update_league_rankings-Ranked, others-ranked}

-- A query by short code finds the league.
abbrev pub IsNamed : {F : Type 0} → String → Db F → League → Type 0
IsNamed short_code db l =
    (Text.◌==◌ short_code "" ≡ false)
    × (find (λ l. Text.◌==◌ l.short_code short_code) db.leagues ≡ some l)

List-cases : {A : Type 0} (xs : List A) → (xs ≡ []) ⊎ ((x : A) × (ys : List A) × (xs ≡ x ∷ ys))
List-cases [] = inl refl
List-cases (x ∷ xs) = inr (x, xs, refl)

-- The start of the first match in a table, or the zero time.
abbrev first_start : List Match → Time
first_start [] = 0
first_start (m ∷ _) = m.started_at.time

module _ {F : Type 0} where
  -- A world with other ratings and another history.
  abbrev pub with_rankings : List (PlayerRating F) → List (PlayerRating F) → World F → World F
  with_rankings ratings history w = record w {
    db = record w.db { ratings = ratings; history = history };
  }

  -- What is left of a world: everything but the ranking of the league.
  abbrev pub pruned : Uuid → World F → World F
  pruned league_id w =
      with_rankings (others league_id w.db.ratings) (others league_id w.db.history) w

  -- The matches of a league that have started, in order.
  abbrev starts : Uuid → World F → List Match
  starts league_id w =
      order_by (λ m. m.started_at.time)
        (select (λ m. m.started_at.valid && m.league_id == league_id) w.db.matches)

  abbrev first_of : Uuid → World F → Time
  first_of league_id w = first_start (starts league_id w)

  first-read :
      (league_id : Uuid) (w : World F)
      → on_no_rows (get_first_match_start_of_league league_id) (pure 0) w
        ≡ (ok (first_of league_id w), w)
  unfolding get_first_match_start_of_league
  first-read league_id w = elim (List-cases (starts league_id w)) [
    | inl nothing ↦ ground (arith, nothing)
    | inr (m, rest, e) ↦ ground (arith, e)
  ]

  prune_rankings-pruned :
      (short_code : String) (l : League) (w : World F)
      → IsNamed short_code w.db l
      → prune_rankings short_code w ≡ (ok (l, first_of l.id w), pruned l.id w)
  unfolding prune_rankings delete_league_rankings get_league_by_short_code
  prune_rankings-pruned short_code l w (given, found) =
      ground (arith, given, found, first-read l.id (pruned l.id w))

module _ {F : Type 0} (setting : Setting F) (glicko : Glicko F) (league_id : Uuid) where
  -- A run that succeeds, and writes nothing but ratings and history of the league.
  pub record OnlyRanks (w : World F) (r : Result (Unit {0}) × World F) : Type 0 where
    pub ratings : List (PlayerRating F)
    pub history : List (PlayerRating F)
    pub result : r ≡ (ok tt, with_rankings ratings history w)
    pub other_ratings : others league_id ratings ≡ others league_id w.db.ratings
    pub other_history : others league_id history ≡ others league_id w.db.history

  abbrev update_at : Time → Time → World F → Result (Unit {0}) × World F
  update_at now t = transaction (update_league_rankings setting glicko now league_id t)

  update_at-OnlyRanks :
      (now t : Time) (w : World F) → AllHaveTwo w.db → OnlyRanks w (update_at now t w)
  unfolding transaction
  update_at-OnlyRanks now t w two =
      let r = update_league_rankings-Ranked setting glicko league_id now t w two in
      let same = others-ranked setting glicko league_id now t r.rated w in
      record {
        ratings = (ranked now league_id t r.rated w).db.ratings;
        history = (ranked now league_id t r.rated w).db.history;
        result = ground (arith, r.result);
        other_ratings = same.0;
        other_history = same.1;
      }

  OnlyRanks-again :
      (w : World F) (first r : Result (Unit {0}) × World F)
      → (a : OnlyRanks w first) → OnlyRanks (with_rankings a.ratings a.history w) r
      → OnlyRanks w r
  OnlyRanks-again w first r a b = record {
    ratings = b.ratings;
    history = b.history;
    result = b.result;
    other_ratings = b.other_ratings ∙ a.other_ratings;
    other_history = b.other_history ∙ a.other_history;
  }

  for_each-OnlyRanks :
      (now : Time) (times : List Time) (w : World F)
      → AllHaveTwo w.db
      → OnlyRanks w (for_each (update_at now) times w)
  for_each-OnlyRanks now [] w two = record {
    ratings = w.db.ratings;
    history = w.db.history;
    result = refl;
    other_ratings = refl;
    other_history = refl;
  }
  for_each-OnlyRanks now (t ∷ times) w two =
      let first = update_at-OnlyRanks now t w two in
      let rest = for_each-OnlyRanks now times (with_rankings first.ratings first.history w) two in
      subst (OnlyRanks w) (ground (arith, first.result)) (OnlyRanks-again w _ _ first rest)

module _ {F : Type 0} (setting : Setting F) (glicko : Glicko F) (now : Time) (short_code : String)
    (l : League) where
  rerank-rerank_pruned :
      (w : World F)
      → IsNamed short_code w.db l
      → rerank setting glicko now short_code w
        ≡ rerank_pruned setting glicko now (l, first_of l.id w) (pruned l.id w)
  unfolding rerank
  rerank-rerank_pruned w named = ground (
    arith,
    transaction-ok (prune_rankings short_code) w _ _ (prune_rankings-pruned short_code l w named),
  )

  rerank_pruned-OnlyRanks :
      (first : Time) (w : World F)
      → AllHaveTwo w.db
      → OnlyRanks setting glicko l.id w (rerank_pruned setting glicko now (l, first) w)
  unfolding rerank_pruned
  rerank_pruned-OnlyRanks first w two = elim (Bool-cases (first == 0)) [
    | inl none_played ↦
        subst (OnlyRanks setting glicko l.id w)
          (ap
            (λ b.
              (if b
                  then (λ w. (ok tt, w))
                  else for_each (update_at setting glicko l.id now) (rerank_periods first now))
                w)
            (sym none_played))
          (for_each-OnlyRanks setting glicko l.id now [] w two)
    | inr played ↦
        subst (OnlyRanks setting glicko l.id w)
          (ap
            (λ b.
              (if b
                  then (λ w. (ok tt, w))
                  else for_each (update_at setting glicko l.id now) (rerank_periods first now))
                w)
            (sym played))
          (for_each-OnlyRanks setting glicko l.id now (rerank_periods first now) w two)
  ]

  others_idem : (rows : List (PlayerRating F)) → others l.id (others l.id rows) ≡ others l.id rows
  unfolding select
  others_idem [] = refl
  others_idem (r ∷ rows) = ground (arith, others_idem rows)

  same_pruned :
      (ratings history : List (PlayerRating F)) (w : World F)
      → others l.id ratings ≡ others l.id w.db.ratings
      → others l.id history ≡ others l.id w.db.history
      → pruned l.id (with_rankings ratings history w) ≡ pruned l.id w
  same_pruned ratings history w e f = cc (e, f)

  -- Where every match has its two entries, `Rerank` of a league succeeds. It writes only ratings
  -- and their history, no row of another league changes, and what it computes does not depend
  -- on the ratings and the history that the league had before.
  pub rerank-OnlyRanks :
      (w : World F) (ratings history : List (PlayerRating F))
      → IsNamed short_code w.db l
      → AllHaveTwo w.db
      → others l.id ratings ≡ others l.id w.db.ratings
      → others l.id history ≡ others l.id w.db.history
      → OnlyRanks setting glicko l.id w (rerank setting glicko now short_code w)
        × (rerank setting glicko now short_code (with_rankings ratings history w)
            ≡ rerank setting glicko now short_code w)
  rerank-OnlyRanks w ratings history named two e f =
      let run = rerank_pruned-OnlyRanks (first_of l.id w) (pruned l.id w) two in
      (
        record {
          ratings = run.ratings;
          history = run.history;
          result = rerank-rerank_pruned w named ∙ run.result;
          other_ratings = run.other_ratings ∙ others_idem w.db.ratings;
          other_history = run.other_history ∙ others_idem w.db.history;
        },
        rerank-rerank_pruned (with_rankings ratings history w) named
            ∙ ap (rerank_pruned setting glicko now (l, first_of l.id w))
                (same_pruned ratings history w e f)
            ∙ sym (rerank-rerank_pruned w named),
      )
