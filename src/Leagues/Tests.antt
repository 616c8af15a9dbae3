-- ===== src/Leagues/Tests.antt =====
-- Two leagues, a session and a match of each.
use kaepora.Base.{◌≡◌, refl, [], ◌∷◌, none}
use kaepora.Base.Lists.{any, has}
use kaepora.Base.Result.{ok}
use kaepora.Clock.{null_timestamp}
use kaepora.Match.{Match, MatchEntry, waiting, draw}
use kaepora.Session.{MatchSession, closed}
use kaepora.Store.{League, World}
use kaepora.Leagues.{new_league, delete_league, get_leagues}
use kaepora.Leagues.Deleted.{IsWithout, elsewhere, IsReferential, delete_league-IsReferential}

abbrev pub standard : League
standard = record {
  id = 10;
  created_at = 0;
  name = "Standard";
  short_code = "std";
  game_id = 1;
  generator = "oot-randomizer";
  settings = "s3.json";
  schedule = record { kind = ""; payload = "" };
  announce_discord_channel_id = none;
}

abbrev pub random_league : League
random_league = record standard {
  id = 11;
  name = "Random";
  short_code = "random";
  generator = "oot-settings-randomizer";
}

as_new : new_league 10 0 "Standard" "std" 1 "oot-randomizer" "s3.json" ≡ standard
unfolding new_league
as_new = refl

abbrev played : MatchSession
played = record {
  id = 20;
  league_id = 10;
  created_at = 0;
  start_date = 0;
  status = closed;
  player_ids = 1 ∷ 2 ∷ [];
}

abbrev race : Match
race = record {
  id = 30;
  league_id = 10;
  match_session_id = 20;
  created_at = 0;
  started_at = null_timestamp;
  ended_at = null_timestamp;
  generator = "oot-randomizer";
  settings = "s3.json";
  seed = "seed";
  spoiler_log = none;
  generator_state = none;
  seed_patch = none;
  entries = [];
}

abbrev entry : MatchEntry
entry = record {
  match_id = 30;
  player_id = 1;
  created_at = 0;
  started_at = null_timestamp;
  ended_at = null_timestamp;
  status = waiting;
  outcome = draw;
  comment = "";
}

abbrev at_rest : World Unit
at_rest = record {
  db = record {
    leagues = random_league ∷ standard ∷ [];
    players = [];
    ratings = [];
    history = [];
    sessions = played ∷ record played { id = 21; league_id = 11 } ∷ [];
    matches = race ∷ record race { id = 31; match_session_id = 21; league_id = 11 } ∷ [];
    entries = entry ∷ record entry { match_id = 31 } ∷ [];
  };
  sent = [];
  random = λ n. n;
  uuids = λ n. n;
  routines = [];
}

standard_first : (get_leagues at_rest).0 ≡ ok (standard ∷ random_league ∷ [])
unfolding get_leagues
standard_first = refl

one_entry_left : (delete_league 10 at_rest).1.db.entries ≡ record entry { match_id = 31 } ∷ []
unfolding delete_league
one_entry_left = refl

delete_league-IsReferential_example :
    ((delete_league 10 at_rest).0 ≡ ok tt)
    × ((delete_league 10 at_rest).1.db ≡ elsewhere 10 at_rest.db)
    × IsWithout 10 (delete_league 10 at_rest).1.db
    × IsReferential (delete_league 10 at_rest).1.db
unfolding any has
delete_league-IsReferential_example =
    delete_league-IsReferential 10 at_rest
      (record {
        sessions_in = (refl, (refl, tt));
        ratings_in = tt;
        history_in = tt;
        matches_in = (refl, (refl, tt));
        entries_in = (refl, (refl, tt));
      })
      (refl, (refl, tt))
