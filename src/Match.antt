-- ===== src/Match.antt =====
-- internal/back/match.go and internal/back/match_entry.go: a match is a race of two players, and
-- each player has an entry in it. A method that mutates its receiver or a pointer argument
-- returns the new values; an index out of range is a panic, as in Go.
pub mod Race
pub mod Entries
pub mod Tests
use Prim.Native.String.{String}
use kaepora.Base.{
  ℕ, ◌≡◌, List, [], ◌∷◌, Option, none, some, Bool, true, false, ◌&&◌, ◌||◌, not, ◌==◌,
  if◌then◌else◌,
}
use kaepora.Base.Lists.{length, get_elem?}
use kaepora.Base.Result.{Result, ok, err, panic, public, internal, ◌>>=◌, ◌>>◌, ensure}
use kaepora.Clock.{Time, NullTimestamp, new_null_timestamp, null_timestamp}

-- A UUID is only compared; the zero UUID is 0.
abbrev pub Uuid : Type 0
Uuid = ℕ

pub data EntryStatus : Type 0 where
  waiting in_progress finished forfeited : EntryStatus

pub data Outcome : Type 0 where
  loss draw win : Outcome

pub record MatchEntry : Type 0 where
  pub match_id : Uuid
  pub player_id : Uuid
  pub created_at : Time
  pub started_at : NullTimestamp
  pub ended_at : NullTimestamp
  pub status : EntryStatus
  pub outcome : Outcome
  pub comment : String

-- A `[]byte` that may be nil.
abbrev pub Bytes : Type 0
Bytes = Option (List ℕ)

pub record Match : Type 0 where
  pub id : Uuid
  pub league_id : Uuid
  pub match_session_id : Uuid
  pub created_at : Time
  pub started_at : NullTimestamp
  pub ended_at : NullTimestamp
  pub generator : String
  pub settings : String
  pub seed : String
  pub spoiler_log : Bytes
  pub generator_state : Bytes
  pub seed_patch : Bytes
  pub entries : List MatchEntry

abbrev pub is_waiting : EntryStatus → Bool
is_waiting waiting = true
is_waiting _ = false

abbrev pub is_in_progress : EntryStatus → Bool
is_in_progress in_progress = true
is_in_progress _ = false

abbrev pub is_finished : EntryStatus → Bool
is_finished finished = true
is_finished _ = false

abbrev pub is_forfeited : EntryStatus → Bool
is_forfeited forfeited = true
is_forfeited _ = false

abbrev pub is_win : Outcome → Bool
is_win win = true
is_win _ = false

unfoldable pub has_ended : MatchEntry → Bool
has_ended m = is_finished m.status || is_forfeited m.status

unfoldable pub has_won : MatchEntry → Bool
has_won m = is_win m.outcome

unfoldable pub has_forfeit : MatchEntry → Bool
has_forfeit m = is_forfeited m.status

unfoldable pub new_match_entry : Time → Uuid → Uuid → MatchEntry
new_match_entry now match_id player_id = record {
  match_id = match_id;
  player_id = player_id;
  created_at = now;
  started_at = null_timestamp;
  ended_at = null_timestamp;
  status = waiting;
  outcome = draw;
  comment = "";
}

-- `Match.end`.
unfoldable pub end_match : Time → Match → Match
unfolding new_null_timestamp
end_match now m = record m { ended_at = new_null_timestamp now }

unfoldable pub match_has_ended : Match → Bool
match_has_ended m = m.ended_at.valid

-- The receiver, the opponent's entry and the match, as a method leaves them.
abbrev pub Ended : Type 0
Ended = MatchEntry × MatchEntry × Match

abbrev forfeit_against : EntryStatus → Time → MatchEntry → MatchEntry → Match → Ended
unfolding end_match
forfeit_against waiting now m against match =
    (record m { outcome = loss }, record against { outcome = win }, match)
forfeit_against in_progress now m against match =
    (record m { outcome = loss }, record against { outcome = win }, match)
forfeit_against finished now m against match =
    (record m { outcome = loss }, record against { outcome = win }, end_match now match)
forfeit_against forfeited now m against match =
    (record m { outcome = draw }, record against { outcome = draw }, end_match now match)

unfoldable pub forfeit : Time → MatchEntry → MatchEntry → Match → Ended
unfolding new_null_timestamp end_match
forfeit now m against match =
    forfeit_against against.status now
      (record m { ended_at = new_null_timestamp now; status = forfeited }) against match

abbrev complete_against : EntryStatus → Time → MatchEntry → MatchEntry → Match → Result Ended
unfolding end_match
complete_against waiting now m against match =
    err (panic "unreachable: can't complete with an opponent in MatchEntryStatusWaiting")
complete_against in_progress now m against match =
    ok (record m { outcome = win }, record against { outcome = loss }, match)
complete_against forfeited now m against match =
    ok (record m { outcome = win }, record against { outcome = loss }, end_match now match)
complete_against finished now m against match =
    ok (record m { outcome = loss }, record against { outcome = win }, end_match now match)

unfoldable pub complete : Time → MatchEntry → MatchEntry → Match → Result Ended
unfolding new_null_timestamp end_match
complete now m against match =
    complete_against against.status now
      (record m { ended_at = new_null_timestamp now; status = finished }) against match

-- `m.Entries[i]`.
unfoldable pub entry_at : Match → ℕ → Result MatchEntry
entry_at m i = elim (get_elem? m.entries i) [
  | some e ↦ ok e
  | none ↦ err (panic "index out of range")
]

unfoldable pub is_double_forfeit : Match → Result Bool
unfolding entry_at
is_double_forfeit m = do
  e0 ← entry_at m 0
  elim (is_forfeited e0.status) [
    | true ↦ do e1 ← entry_at m 1; ok (is_forfeited e1.status)
    | false ↦ ok false
  ]

unfoldable pub winning_entry : Match → Result MatchEntry
unfolding entry_at has_won
winning_entry m = do e1 ← entry_at m 1; if has_won e1 then ok e1 else entry_at m 0

unfoldable pub losing_entry : Match → Result MatchEntry
unfolding entry_at has_won
losing_entry m = do e1 ← entry_at m 1; if has_won e1 then entry_at m 0 else ok e1

-- The entries of a player and of the opponent. The lists of other lengths are the first `if`.
player_and_opponent : List MatchEntry → Uuid → Result (MatchEntry × MatchEntry)
player_and_opponent (e0 ∷ e1 ∷ []) player_id =
    if e0.player_id == player_id
    then ok (e0, e1)
    else if e1.player_id == player_id
    then ok (e1, e0)
    else err (internal "could not find MatchEntry for player")
player_and_opponent _ player_id = err (internal "invalid Match: not exactly 2 MatchEntry")

unfoldable pub get_player_and_opponent_entries : Match → Uuid → Result (MatchEntry × MatchEntry)
unfolding player_and_opponent
get_player_and_opponent_entries m player_id = player_and_opponent m.entries player_id

-- A nil slice of bytes is stored as an empty one.
abbrev pub or_empty : Bytes → Bytes
or_empty none = some []
or_empty (some b) = some b

unfoldable pub ensure_not_null : Match → Match
ensure_not_null m = record m {
  seed_patch = or_empty m.seed_patch;
  spoiler_log = or_empty m.spoiler_log;
  generator_state = or_empty m.generator_state;
}

-- What `MatchSession.start` does to one entry, and what `endActiveMatch` does to the entries and
-- the match that it has read, before it writes them back.
unfoldable pub start_entry : Time → MatchEntry → MatchEntry
unfolding new_null_timestamp
start_entry now e =
    if is_waiting e.status
    then record e { status = in_progress; started_at = new_null_timestamp now }
    else e

unfoldable pub end_race : Bool → Time → MatchEntry → MatchEntry → Match → Result Ended
unfolding forfeit complete
end_race true now self against match = ok (forfeit now self against match)
end_race false now self against match =
    ensure (is_in_progress self.status) (public "you can't complete a race that has not started")
    >> complete now self against match
