-- ===== src/Seeds/Tests.antt =====
-- A match that both players have ended while its seed was made.
use kaepora.Base.{◌*◌, refl, [], ◌∷◌, none, some, true}
use kaepora.Base.Lists.{find}
use kaepora.Base.Result.{ok}
use kaepora.Clock.{hour, null_timestamp}
use kaepora.Match.{Match}
use kaepora.Rating.{Player}
use kaepora.Store.{World}
use kaepora.Seeds.{Generators, generate_and_send_match_seed}
use kaepora.Seeds.Stale.{HasDatesOf, generate_and_send_match_seed-stale}

abbrev test_generators : Generators
test_generators = record {
  new_generator = λ name. ok (λ settings seed.
      ok (record { state = none; seed_patch = some (1 ∷ 2 ∷ []); spoiler_log = some (3 ∷ []) }));
  new_zlib_blob = λ b. ok b;
}

abbrev as_read : Match
as_read = record {
  id = 30;
  league_id = 10;
  match_session_id = 20;
  created_at = 0;
  started_at = null_timestamp;
  ended_at = null_timestamp;
  generator = "test";
  settings = "s3.json";
  seed = "abc";
  spoiler_log = some [];
  generator_state = some [];
  seed_patch = none;
  entries = [];
}

abbrev ended : Match
ended = record as_read { ended_at = record { time = 5 * hour; valid = true } }

abbrev runner : Player Unit
runner = record {
  id = 1;
  created_at = 0;
  name = "Link";
  discord_id = none;
  stream_url = "";
  rating = record {
    player_id = 1;
    league_id = 10;
    created_at = 0;
    rating_period_started_at = 0;
    rating = tt;
    deviation = tt;
    volatility = tt;
  };
}

abbrev both_ended : World Unit
both_ended = record {
  db = record {
    leagues = [];
    players = [];
    ratings = [];
    history = [];
    sessions = [];
    matches = ended ∷ [];
    entries = [];
  };
  sent = [];
  random = λ n. n;
  uuids = λ n. n;
  routines = [];
}

generate_and_send_match_seed-stale_example :
    HasDatesOf as_read
      (generate_and_send_match_seed test_generators as_read runner runner both_ended).1.db
unfolding generate_and_send_match_seed find
generate_and_send_match_seed-stale_example =
    generate_and_send_match_seed-stale test_generators as_read runner runner both_ended
      (generate_and_send_match_seed test_generators as_read runner runner both_ended).1 ended refl
      refl
