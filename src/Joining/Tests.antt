-- ===== src/Joining/Tests.antt =====
-- Two sessions of a league: one is joinable, one is closed.
use kaepora.Base.{◌*◌, ◌≡◌, refl, [], ◌∷◌, none, false}
use kaepora.Base.Result.{ok, is_ok}
use kaepora.Clock.{Time, hour}
use kaepora.Session.{MatchSession, joinable, closed}
use kaepora.Store.{League, World}
use kaepora.Joining.{
  active_of, open_sessions_of, get_player_active_session, join_match_session_by_id,
  join_current_match_session_by_shortcode, cancel_active_match_session,
}
use kaepora.Joining.Join.{join_outcome, join_match_session_by_id_lem}
use kaepora.Joining.Cancel.{cancel_outcome, cancel_active_match_session_lem}
use kaepora.Joining.Calls.{by_id, no_call}
use kaepora.Match.{Uuid}
use Prim.Native.String.{String}
use kaepora.Joining.Exclusive.{join_match_session_by_id-exclusive}

abbrev start : Time
start = 1000 * hour

abbrev standard : League
standard = record {
  id = 10;
  created_at = 0;
  name = "Standard";
  short_code = "std";
  game_id = 1;
  generator = "oot-randomizer";
  settings = "s3.json";
  schedule = record { kind = ""; payload = "" };
  announce_discord_channel_id = none;
}

abbrev open_session : MatchSession
open_session = record {
  id = 20;
  league_id = 10;
  created_at = 0;
  start_date = start;
  status = joinable;
  player_ids = 1 ∷ 2 ∷ [];
}

abbrev closed_session : MatchSession
closed_session = record open_session { id = 21; status = closed; player_ids = 3 ∷ 4 ∷ [] }

abbrev at_rest : World Unit
at_rest = record {
  db = record {
    leagues = standard ∷ [];
    players = [];
    ratings = [];
    history = [];
    sessions = closed_session ∷ open_session ∷ [];
    matches = [];
    entries = [];
  };
  sent = [];
  random = λ n. n;
  uuids = λ n. n;
  routines = [];
}

-- The world after player 5 has joined a session.
abbrev joined_world : World Unit
joined_world = (join_match_session_by_id 20 5 at_rest).1

all_of : Unit {0}
unfolding join_match_session_by_id cancel_active_match_session get_player_active_session active_of
    open_sessions_of
all_of = tt

-- A closed session is joined.
joins_closed : (join_match_session_by_id 21 5 at_rest).0 ≡ ok tt
unfolding all_of
joins_closed = refl

join_match_session_by_id_lem_example :
    join_match_session_by_id 21 5 at_rest
    ≡ join_outcome 5 closed_session standard (get_player_active_session 5 at_rest).0 at_rest
unfolding all_of
join_match_session_by_id_lem_example =
    join_match_session_by_id_lem 5 at_rest closed_session standard (refl, (refl, tt)) refl refl refl

cancel_active_match_session_lem_example :
    cancel_active_match_session (999 * hour) 1 at_rest
    ≡ cancel_outcome (999 * hour) 1 (get_player_active_session 1 at_rest).0 at_rest
unfolding all_of
cancel_active_match_session_lem_example =
    cancel_active_match_session_lem (999 * hour) 1 at_rest (refl, (refl, tt)) (refl, (refl, tt))

-- Another player joins after that.
abbrev later_world : World Unit
later_world = (join_match_session_by_id 20 6 joined_world).1

join_match_session_by_id-exclusive_example :
    ((session_id : Uuid) → is_ok (join_match_session_by_id session_id 5 later_world).0 ≡ false)
    × ((now : Time) (shortcode : String)
        → is_ok (join_current_match_session_by_shortcode now 5 shortcode later_world).0 ≡ false)
unfolding all_of
join_match_session_by_id-exclusive_example =
    join_match_session_by_id-exclusive 5 at_rest joined_world later_world open_session standard
      (refl, (refl, tt)) refl refl refl refl refl refl (by_id 20 6 no_call refl)
