-- ===== src/Session.antt =====
-- internal/back/match_session.go: a session is a set of matches that start at the same time.
-- A method that mutates its receiver returns the new session.
pub mod Players
pub mod Phases
pub mod Tests
use kaepora.Base.{
  ℕ, ◌+◌, ◌*◌, ◌≡◌, List, [], ◌∷◌, ◌++◌, Bool, true, false, ◌||◌, not, ltb, ◌==◌, if◌then◌else◌,
}
use kaepora.Base.Lists.{has}
use kaepora.Base.Result.{Result, ok, err, public, panic, is_ok, ◌>>=◌}
use kaepora.Clock.{Time, minute, hour}
use kaepora.Match.{Uuid}

-- `MatchSessionJoinableAfterOffset` and `MatchSessionPreparationOffset` are negative offsets from
-- the start date; these are their absolute values.
abbrev pub joinable_after_offset : ℕ
joinable_after_offset = 1 * hour

abbrev pub preparation_offset : ℕ
preparation_offset = 15 * minute

pub data SessionStatus : Type 0 where
  waiting joinable preparing in_progress closed : SessionStatus

abbrev pub is_waiting : SessionStatus → Bool
is_waiting waiting = true
is_waiting _ = false

abbrev pub is_joinable : SessionStatus → Bool
is_joinable joinable = true
is_joinable _ = false

abbrev pub is_preparing : SessionStatus → Bool
is_preparing preparing = true
is_preparing _ = false

abbrev pub is_in_progress : SessionStatus → Bool
is_in_progress in_progress = true
is_in_progress _ = false

abbrev pub is_closed : SessionStatus → Bool
is_closed closed = true
is_closed _ = false

-- `player_ids` is in the order of joining.
pub record MatchSession : Type 0 where
  pub id : Uuid
  pub league_id : Uuid
  pub created_at : Time
  pub start_date : Time
  pub status : SessionStatus
  pub player_ids : List Uuid

unfoldable pub session_is_joinable : MatchSession → Bool
session_is_joinable s = is_joinable s.status

unfoldable pub has_player_id : MatchSession → Uuid → Bool
unfolding has
has_player_id s needle = has needle s.player_ids

-- The UUID is the one that `NewUUIDAsBlob` draws.
unfoldable pub new_match_session : Uuid → Time → Uuid → Time → MatchSession
new_match_session id now league_id start_date = record {
  id = id;
  league_id = league_id;
  created_at = now;
  start_date = start_date;
  status = waiting;
  player_ids = [];
}

-- The loops of `AddPlayerID`: an id that is there already is skipped.
unfoldable pub add_ids : List Uuid → List Uuid → List Uuid
unfolding has
add_ids player_ids [] = player_ids
add_ids player_ids (v ∷ uuids) =
    add_ids (if has v player_ids then player_ids else player_ids ++ v ∷ []) uuids

unfoldable pub add_player_id : MatchSession → List Uuid → MatchSession
unfolding add_ids
add_player_id s uuids = record s { player_ids = add_ids s.player_ids uuids }

unfoldable pub without : Uuid → List Uuid → List Uuid
without to_remove [] = []
without to_remove (k ∷ ids) =
    if k == to_remove then without to_remove ids else k ∷ without to_remove ids

-- The capacity `len(s.PlayerIDs)-1` of the new slice is negative if nobody is registered, and
-- `make` panics then.
unfoldable pub remove_ids : Uuid → List Uuid → Result (List Uuid)
unfolding without
remove_ids to_remove [] = err (panic "makeslice: cap out of range")
remove_ids to_remove (k ∷ ids) = ok (without to_remove (k ∷ ids))

unfoldable pub remove_player_id : MatchSession → Uuid → Result MatchSession
unfolding remove_ids
remove_player_id s to_remove = do
  filtered ← remove_ids to_remove s.player_ids
  ok (record s { player_ids = filtered })

-- `time.Now().After(deadline)`, with the offset moved to the other side of the comparison.
unfoldable pub past_deadline : Time → MatchSession → Bool
past_deadline now s = ltb s.start_date (now + preparation_offset)

unfoldable pub can_cancel : Time → MatchSession → Result (Unit {0})
unfolding past_deadline
can_cancel now s =
    if is_waiting s.status
    then err (public "you can't cancel a race that is not yet open to join")
    else if not (is_joinable s.status)
    then err (public "you can't cancel a race that is not in its joinable phase")
    else if past_deadline now s
    then err (public "this race is no longer cancellable, you will have to `!forfeit`")
    else ok tt

unfoldable pub can_forfeit : Time → MatchSession → Result (Unit {0})
unfolding can_cancel
can_forfeit now s =
    if is_ok (can_cancel now s)
    then err (public "you can `!cancel` the current race wihout taking a loss!")
    else if is_closed s.status
    then err (public "you can't cancel a race that has already finished")
    else if not (is_preparing s.status || is_in_progress s.status)
    then err
        (public "you can't cancel a race that has not started or is not in its preparation phase")
    else ok tt
