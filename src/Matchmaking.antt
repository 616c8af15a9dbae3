-- ===== src/Matchmaking.antt =====
-- `matchMakeSession` of internal/back/back_matchmaking.go: the players of a session are paired,
-- and each pair gets a match with two entries.
pub mod Kept
pub mod Valid
pub mod Inserted
pub mod Paired
pub mod Whole
pub mod Tests
use Prim.Native.String.{String}
use kaepora.Base.{
  ℕ, ◌-◌, ◌%◌, ◌≡◌, List, [], ◌∷◌, Option, none, some, Bool, true, false, ◌&&◌, ◌||◌, not, ltb,
  ◌==◌, if◌then◌else◌,
}
use kaepora.Base.Lists.{length, get_elem?, find}
use kaepora.Base.Result.{Result, ok, err, panic}
use kaepora.Clock.{Time, null_timestamp}
use kaepora.Match.{Uuid, Match, new_match_entry}
use kaepora.Pairing.{Pair, Platform, ranged_pair_players}
use kaepora.Rating.{PlayerRating, Player}
use kaepora.Session.{MatchSession, is_preparing, remove_player_id}
use kaepora.Store.{
  World, Action, ◌>>=◌, ◌>>◌, pure, lift, get_row, on_no_rows, notify, draw, new_uuid, Recipient,
  user, NotificationType, odd_kick,
}
use kaepora.Store.Rows.{
  get_league_by_id, get_player_by_id, update_session, insert_match, insert_entry,
}

-- What comes from outside: the base values of Glicko-2, and the text of a UUID.
pub record Setting (F : Type 0) : Type 0 where
  pub rating_base_r : F
  pub rating_base_rd : F
  pub rating_base_sigma : F
  pub uuid_text : Uuid → String

-- `players[len(players)-1]`, where the length is odd.
unfoldable pub last_player : List Uuid → Result Uuid
last_player players = elim (get_elem? players (length players - 1)) [
  | some p ↦ ok p
  | none ↦ err (panic "index out of range")
]

module _ {F : Type 0} where
  unfoldable pub send_odd_kick_notification : Player F → Action F (Unit {0})
  send_odd_kick_notification player =
      notify (record { recipient = user player.discord_id; kind = odd_kick })

  -- The part of `ensureSessionIsValidForMatchMaking` for an odd number of players.
  unfoldable pub kick_odd_player : MatchSession → Action F MatchSession
  unfolding last_player remove_player_id get_player_by_id send_odd_kick_notification
  kick_odd_player session =
      if length session.player_ids % 2 == 1
      then (do
        to_remove ← lift (last_player session.player_ids)
        session' ← lift (remove_player_id session to_remove)
        player ← get_player_by_id to_remove
        send_odd_kick_notification player
        pure session')
      else pure session

  -- `none` is the session that is not valid. The players are counted as they were before.
  unfoldable pub ensure_session_is_valid_for_match_making :
      MatchSession → Action F (Option MatchSession)
  unfolding kick_odd_player update_session
  ensure_session_is_valid_for_match_making session = do
    session' ← kick_odd_player session
    update_session session'
    pure (
        if ltb (length session.player_ids) 2 || not (is_preparing session'.status)
        then none
        else some session')

module _ {F : Type 0} (setting : Setting F) where
  open setting use {rating_base_r, rating_base_rd, rating_base_sigma, uuid_text}

  unfoldable pub new_player_rating : Time → Uuid → Uuid → PlayerRating F
  new_player_rating now player_id league_id = record {
    player_id = player_id;
    league_id = league_id;
    created_at = now;
    rating_period_started_at = 0;
    rating = rating_base_r;
    deviation = rating_base_rd;
    volatility = rating_base_sigma;
  }

  -- The rating of a player in a league, or a default one, which is not stored.
  unfoldable pub get_player_rating : Time → Uuid → Uuid → Action F (PlayerRating F)
  unfolding find new_player_rating
  get_player_rating now player_id league_id =
      on_no_rows
        (get_row
          (λ db. find (λ r. r.player_id == player_id && r.league_id == league_id) db.ratings))
        (pure (new_player_rating now player_id league_id))

  -- The loop of `getSessionPlayers`.
  unfoldable pub get_players : Time → Uuid → List Uuid → Action F (List (Player F))
  unfolding get_player_by_id get_player_rating
  get_players now league_id [] = pure []
  get_players now league_id (player_id ∷ ids) = do
    player ← get_player_by_id player_id
    rating ← get_player_rating now player.id league_id
    players ← get_players now league_id ids
    pure (record player { rating = rating } ∷ players)

  unfoldable pub get_session_players : Time → MatchSession → Action F (List (Player F))
  unfolding get_players
  get_session_players now session = get_players now session.league_id session.player_ids

  unfoldable pub new_match : Time → MatchSession → String → Action F Match
  unfolding get_league_by_id
  new_match now session seed = do
    league ← get_league_by_id session.league_id
    id ← new_uuid
    pure (record {
      id = id;
      league_id = session.league_id;
      match_session_id = session.id;
      created_at = now;
      started_at = null_timestamp;
      ended_at = null_timestamp;
      generator = league.generator;
      settings = league.settings;
      seed = seed;
      spoiler_log = none;
      generator_state = none;
      seed_patch = none;
      entries = [];
    })

  -- The body of the loop over the pairs.
  unfoldable pub insert_pair : Time → MatchSession → Pair F → Action F (Unit {0})
  unfolding new_match insert_match new_match_entry insert_entry
  insert_pair now session pair = do
    seed ← new_uuid
    match ← new_match now session (uuid_text seed)
    insert_match match
    insert_entry (new_match_entry now match.id pair.p1.id)
    insert_entry (new_match_entry now match.id pair.p2.id)

  unfoldable pub insert_pairs : Time → MatchSession → List (Pair F) → Action F (Unit {0})
  unfolding insert_pair
  insert_pairs now session [] = pure tt
  insert_pairs now session (pair ∷ pairs) = do
    insert_pair now session pair
    insert_pairs now session pairs

  unfoldable pub match_make_valid_session : Platform F → Time → MatchSession → Action F (Unit {0})
  unfolding get_session_players insert_pairs
  match_make_valid_session platform now session = do
    players ← get_session_players now session
    pairs ← draw (ranged_pair_players platform players)
    insert_pairs now session pairs

  unfoldable pub match_make_session : Platform F → Time → MatchSession → Action F (Unit {0})
  unfolding ensure_session_is_valid_for_match_making match_make_valid_session
  match_make_session platform now session =
      if not (is_preparing session.status) then pure tt else (do
        valid ← ensure_session_is_valid_for_match_making session
        elim valid [ none ↦ pure tt | some s ↦ match_make_valid_session platform now s ])
