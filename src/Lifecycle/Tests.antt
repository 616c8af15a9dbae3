-- ===== src/Lifecycle/Tests.antt =====
-- Two sessions of a league at a time: one that waits, and two that are joinable.
use kaepora.Base.{◌+◌, ◌-◌, ◌*◌, ◌≡◌, refl, [], ◌∷◌, none}
use kaepora.Base.Lists.{has, find, select}
use kaepora.Base.Result.{ok}
use kaepora.Clock.{Time, minute, hour}
use kaepora.Rating.{Player}
use kaepora.Session.{MatchSession, waiting, joinable, preparing, closed}
use kaepora.Store.{League, World, stored}
use kaepora.Lifecycle.{make_match_sessions_joinable, make_match_sessions_preparing}
use kaepora.Lifecycle.Phases.{with_status, to_joinable, to_prepare}
use kaepora.Lifecycle.Succeeds.{
  opens, fills, make_match_sessions_joinable-total, make_match_sessions_preparing-total,
}

abbrev start : Time
start = 1000 * hour

abbrev standard : League
standard = record {
  id = 10;
  created_at = 0;
  name = "Standard";
  short_code = "std";
  game_id = 1;
  generator = "oot-randomizer";
  settings = "s3.json";
  schedule = record { kind = ""; payload = "" };
  announce_discord_channel_id = none;
}

abbrev runner : Player Unit
runner = record {
  id = 1;
  created_at = 0;
  name = "Link";
  discord_id = none;
  stream_url = "";
  rating = record {
    player_id = 1;
    league_id = 10;
    created_at = 0;
    rating_period_started_at = 0;
    rating = tt;
    deviation = tt;
    volatility = tt;
  };
}

abbrev waits : MatchSession
waits = record {
  id = 20;
  league_id = 10;
  created_at = 0;
  start_date = start + 40 * minute;
  status = waiting;
  player_ids = [];
}

abbrev two_joined : MatchSession
two_joined = record waits {
  id = 21;
  start_date = start;
  status = joinable;
  player_ids = 1 ∷ 2 ∷ [];
}

abbrev one_joined : MatchSession
one_joined = record two_joined { id = 22; player_ids = 1 ∷ [] }

abbrev at_rest : World Unit
at_rest = record {
  db = record {
    leagues = standard ∷ [];
    players = runner ∷ record runner { id = 2 } ∷ [];
    ratings = [];
    history = [];
    sessions = waits ∷ two_joined ∷ one_joined ∷ [];
    matches = [];
    entries = [];
  };
  sent = [];
  random = λ n. n;
  uuids = λ n. n;
  routines = [];
}

now_joinable :
    (make_match_sessions_joinable (start - 10 * minute) at_rest).1.db.sessions
    ≡ record waits { status = joinable } ∷ two_joined ∷ one_joined ∷ []
unfolding make_match_sessions_joinable
now_joinable = refl

now_prepared :
    (make_match_sessions_preparing (start - 10 * minute) at_rest).1.db.sessions
    ≡ waits ∷ record two_joined { status = preparing } ∷ record one_joined { status = closed } ∷ []
unfolding make_match_sessions_preparing
now_prepared = refl

make_match_sessions_joinable-total_example :
    ((make_match_sessions_joinable (start - 10 * minute) at_rest).0 ≡ ok tt)
    × ((make_match_sessions_joinable (start - 10 * minute) at_rest).1.db ≡ record at_rest.db {
      sessions = with_status (opens (start - 10 * minute)) to_joinable at_rest.db.sessions;
    })
unfolding has stored find
make_match_sessions_joinable-total_example =
    make_match_sessions_joinable-total (start - 10 * minute) at_rest (refl, (refl, (refl, tt)))
      (refl, (refl, (refl, tt)))
      (
        ((_, refl), tt),
        (((_, refl), ((_, refl), ((_, refl), tt))), (((_, refl), ((_, refl), tt)), tt)),
      )

make_match_sessions_preparing-total_example :
    ((make_match_sessions_preparing (start - 10 * minute) at_rest).0
      ≡ ok (record two_joined { status = preparing } ∷ []))
    × ((make_match_sessions_preparing (start - 10 * minute) at_rest).1.db ≡ record at_rest.db {
      sessions = with_status (fills (start - 10 * minute)) to_prepare at_rest.db.sessions;
    })
unfolding has stored find select
make_match_sessions_preparing-total_example =
    make_match_sessions_preparing-total (start - 10 * minute) at_rest (refl, (refl, (refl, tt)))
      (refl, (refl, (refl, tt)))
      (
        ((_, refl), tt),
        (((_, refl), ((_, refl), ((_, refl), tt))), (((_, refl), ((_, refl), tt)), tt)),
      )
