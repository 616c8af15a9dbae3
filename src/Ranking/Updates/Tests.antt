-- ===== src/Ranking/Updates/Tests.antt =====
-- A race that one of two players has won, on 2 October 2020.
use kaepora.Base.{
  ℕ, ◌+◌, ◌*◌, ◌≡◌, refl, ap, List, [], ◌∷◌, map, none, true, ◌==◌, if◌then◌else◌, arith,
}
use kaepora.Base.Int.{ℤ, pos, negsuc, ◌+ℤ◌}
use kaepora.Base.Lists.{select, find}
use kaepora.Base.Result.{ok}
use kaepora.Clock.{Time, second, day, unix_epoch}
use kaepora.Match.{
  Uuid, Match, MatchEntry, Outcome, loss, draw, win, finished, forfeited, in_progress,
}
use kaepora.Matchmaking.Tests.{setting}
use kaepora.Leagues.Tests.{standard}
use kaepora.Store.{World}
use kaepora.Ranking.{current_period_start, next_period_start}
use kaepora.Ranking.Ratings.{
  get_glicko_players_for_league, get_matches_by_period, GlickoMatch, GlickoPlayers, Glicko, keys,
}
use kaepora.Ranking.Computed.{compute_period}
use kaepora.Ranking.Updates.{update_running_rating, close_rating, update_league_rankings, rerank}
use kaepora.Ranking.Updates.Again.{update_league_rankings_again}
use kaepora.Ranking.Updates.Reranked.{OnlyRanks, with_rankings, rerank-OnlyRanks}

-- Ten points for a win, in place of Glicko-2.
abbrev points : Outcome → ℤ
points loss = negsuc 9
points draw = pos 0
points win = pos 10

abbrev opposite : Outcome → Outcome
opposite loss = win
opposite draw = draw
opposite win = loss

abbrev score : List GlickoMatch → Uuid → ℤ
score [] id = pos 0
score (m ∷ matches) id =
    (if m.first == id then points m.result else pos 0)
    +ℤ (if m.second == id then points (opposite m.result) else pos 0)
    +ℤ score matches id

abbrev scored : GlickoPlayers ℤ → List GlickoMatch → GlickoPlayers ℤ
scored [] matches = []
scored ((id, g) ∷ players) matches =
    (id, record g { r = g.r +ℤ score matches id }) ∷ scored players matches

pub scored-keys :
    (players : GlickoPlayers ℤ) (matches : List GlickoMatch)
    → keys (scored players matches) ≡ keys players
scored-keys [] matches = refl
scored-keys ((id, g) ∷ players) matches = ap (λ ids. id ∷ ids) (scored-keys players matches)

abbrev pub glicko : Glicko ℤ
glicko = record { calculate = scored; calculate-keys = scored-keys }

-- A Friday, 20:00 UTC.
abbrev pub friday : Time
friday = (unix_epoch + 1601668800) * second

abbrev pub race : Match
race = record {
  id = 30;
  league_id = 10;
  match_session_id = 20;
  created_at = 0;
  started_at = record { time = friday; valid = true };
  ended_at = record { time = friday; valid = true };
  generator = "oot-randomizer";
  settings = "s3.json";
  seed = "seed";
  spoiler_log = none;
  generator_state = none;
  seed_patch = none;
  entries = [];
}

abbrev pub won : MatchEntry
won = record {
  match_id = 30;
  player_id = 1;
  created_at = 0;
  started_at = record { time = friday; valid = true };
  ended_at = record { time = friday; valid = true };
  status = finished;
  outcome = win;
  comment = "";
}

abbrev pub lost : MatchEntry
lost = record won { player_id = 2; status = forfeited; outcome = loss }

abbrev pub raced : World ℤ
raced = record {
  db = record {
    leagues = standard ∷ [];
    players = [];
    ratings = [];
    history = [];
    sessions = [];
    matches = race ∷ [];
    entries = won ∷ lost ∷ [];
  };
  sent = [];
  random = λ n. n;
  uuids = λ n. n;
  routines = [];
}

-- The same race before either has ended it.
abbrev running : World ℤ
running = record raced {
  db = record raced.db {
    entries =
        record won { status = in_progress; outcome = draw }
        ∷ record lost { status = in_progress; outcome = draw }
        ∷ [];
  };
}

run : Unit {0}
unfolding update_league_rankings get_glicko_players_for_league get_matches_by_period
    current_period_start next_period_start compute_period update_running_rating close_rating ◌+ℤ◌
run = tt

winner_first :
    map {B = ℕ × ℤ}
      (λ r. (r.player_id, r.rating))
      (update_league_rankings setting glicko friday 10 friday raced).1.db.ratings
    ≡ (1, pos 1510) ∷ (2, pos 1490) ∷ []
unfolding run
winner_first = refl

-- A race that goes on counts as a draw.
unfinished :
    map {B = ℕ × ℤ}
      (λ r. (r.player_id, r.rating))
      (update_league_rankings setting glicko friday 10 friday running).1.db.ratings
    ≡ (1, pos 1500) ∷ (2, pos 1500) ∷ []
unfolding run
unfinished = refl

update_league_rankings_again_example :
    ((update_league_rankings setting glicko friday 10 friday raced).0 ≡ ok tt)
    × (update_league_rankings setting glicko
          (friday + 2 * day)
          10
          (friday + day)
          (update_league_rankings setting glicko friday 10 friday raced).1
        ≡ (ok tt, (update_league_rankings setting glicko friday 10 friday raced).1))
unfolding current_period_start select
update_league_rankings_again_example =
    update_league_rankings_again setting glicko 10 friday (friday + 2 * day) friday (friday + day)
      raced refl (omega arith) ((won, lost, refl, refl), tt)

rerank-OnlyRanks_example :
    OnlyRanks setting glicko 10 raced (rerank setting glicko friday "std" raced)
    × (rerank setting glicko friday "std" (with_rankings [] [] raced)
        ≡ rerank setting glicko friday "std" raced)
unfolding find select
rerank-OnlyRanks_example =
    rerank-OnlyRanks setting glicko friday "std" standard raced [] [] (refl, refl)
      ((won, lost, refl, refl), tt) refl refl
