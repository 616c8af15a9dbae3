-- ===== src/Matchmaking/Tests.antt =====
-- A preparing session that three players have joined.
use kaepora.Base.{◌*◌, ◌≡◌, refl, List, [], ◌∷◌, ◌++◌, none, some}
use kaepora.Base.Int.{ℤ, pos}
use kaepora.Pairing.Tests.{platform, rated}
use kaepora.Base.Lists.{any, length, find, has}
use kaepora.Base.Result.{ok}
use kaepora.Clock.{hour}
use kaepora.Rating.{Player}
use kaepora.Session.{MatchSession, preparing, without}
use kaepora.Matchmaking.Whole.{SessionMade, match_make_session-SessionMade}
use kaepora.Matchmaking.Paired.{MatchMade, match_make_valid_session-MatchMade}
use kaepora.Store.{League, World, Notification, stored}
use kaepora.Joining.Join.{with_session}
use kaepora.Matchmaking.{Setting, ensure_session_is_valid_for_match_making}
use kaepora.Matchmaking.Valid.{with_kept, ensure_session_is_valid_for_match_making_lem}

abbrev three_joined : MatchSession
three_joined = record {
  id = 20;
  league_id = 10;
  created_at = 0;
  start_date = 1000 * hour;
  status = preparing;
  player_ids = 1 ∷ 2 ∷ 3 ∷ [];
}

abbrev runner : Player Unit
runner = record {
  id = 1;
  created_at = 0;
  name = "Link";
  discord_id = none;
  stream_url = "";
  rating = record {
    player_id = 1;
    league_id = 10;
    created_at = 0;
    rating_period_started_at = 0;
    rating = tt;
    deviation = tt;
    volatility = tt;
  };
}

abbrev at_rest : World Unit
at_rest = record {
  db = record {
    leagues = [];
    players = runner ∷ record runner { id = 2 } ∷ record runner { id = 3 } ∷ [];
    ratings = [];
    history = [];
    sessions = three_joined ∷ [];
    matches = [];
    entries = [];
  };
  sent = [];
  random = λ n. n;
  uuids = λ n. n;
  routines = [];
}

drops_the_last :
    (ensure_session_is_valid_for_match_making three_joined at_rest).1.db.sessions
    ≡ record three_joined { player_ids = 1 ∷ 2 ∷ [] } ∷ []
unfolding ensure_session_is_valid_for_match_making find without
drops_the_last = refl

ensure_session_is_valid_for_match_making_lem_example :
    (notices : List Notification) × (length notices ≡ 1)
    × (ensure_session_is_valid_for_match_making three_joined at_rest ≡ (
      ok (some (record three_joined { player_ids = 1 ∷ 2 ∷ [] })),
      record (with_session 20 with_kept at_rest) { sent = notices ++ [] },
    ))
unfolding has find stored
ensure_session_is_valid_for_match_making_lem_example =
    ensure_session_is_valid_for_match_making_lem three_joined at_rest (refl, tt) refl refl refl
      (refl, (refl, (refl, tt))) ((_, refl), ((_, refl), ((_, refl), tt)))

-- Two of the players, with ratings, and the league.
abbrev two_joined : MatchSession
two_joined = record three_joined { player_ids = 1 ∷ 2 ∷ [] }

abbrev standard : League
standard = record {
  id = 10;
  created_at = 0;
  name = "Standard";
  short_code = "std";
  game_id = 1;
  generator = "oot-randomizer";
  settings = "s3.json";
  schedule = record { kind = ""; payload = "" };
  announce_discord_channel_id = none;
}

abbrev pub setting : Setting ℤ
setting = record {
  rating_base_r = pos 1500;
  rating_base_rd = pos 350;
  rating_base_sigma = pos 0;
  uuid_text = λ u. "seed";
}

abbrev rated_world : World ℤ
rated_world = record {
  db = record {
    leagues = standard ∷ [];
    players = rated 1 (pos 1500) (pos 50) ∷ rated 2 (pos 1550) (pos 50) ∷ [];
    ratings = [];
    history = [];
    sessions = two_joined ∷ [];
    matches = [];
    entries = [];
  };
  sent = [];
  random = λ n. n;
  uuids = λ n. n;
  routines = [];
}

match_make_valid_session-MatchMade_example :
    MatchMade setting platform 5 two_joined standard rated_world
unfolding has find any stored
match_make_valid_session-MatchMade_example =
    match_make_valid_session-MatchMade setting platform 5 two_joined standard rated_world 1 refl
      (refl, (refl, tt)) ((_, refl), ((_, refl), tt)) refl
      (record { different = λ n k e. e; no_match = λ n. refl; no_entry = λ n. refl })

abbrev odd_world : World ℤ
odd_world = record {
  db = record rated_world.db {
    players =
        rated 1 (pos 1500) (pos 50)
        ∷ rated 2 (pos 1550) (pos 50)
        ∷ rated 3 (pos 1600) (pos 50)
        ∷ [];
    sessions = three_joined ∷ [];
  };
  sent = [];
  random = λ n. n;
  uuids = λ n. n;
  routines = [];
}

match_make_session-SessionMade_example :
    SessionMade setting platform 5 three_joined standard odd_world
unfolding has find any stored
match_make_session-SessionMade_example =
    match_make_session-SessionMade setting platform 5 three_joined standard odd_world (refl, tt)
      refl refl refl (refl, (refl, (refl, tt))) ((_, refl), ((_, refl), ((_, refl), tt))) refl
      (record { different = λ n k e. e; no_match = λ n. refl; no_entry = λ n. refl })
