-- ===== src/Racing.antt =====
-- internal/back/back_racing.go: the end of a race for a player, and what is sent about it
-- (internal/back/notification.go).
pub mod Recaps
pub mod Sent
pub mod Tests
use Prim.Native.String.{String}
use kaepora.Base.{
  ℕ, suc, List, [], ◌∷◌, Option, none, some, Bool, true, false, ◌&&◌, ◌||◌, not, if◌then◌else◌,
}
use kaepora.Base.Result.{Result, ok, err, public}
use kaepora.Clock.{Time}
use kaepora.Match.{
  Uuid, MatchEntry, Match, has_ended, entry_at, get_player_and_opponent_entries, end_race,
}
use kaepora.Rating.{Player}
use kaepora.Session.{MatchSession, can_forfeit}
use kaepora.Store.{
  Action, ◌>>=◌, ◌>>◌, pure, fail, lift, notify, on_no_rows, transaction, channel, user, match_end,
  recap, spoiler_log,
}
use kaepora.Store.Rows.{
  get_league_by_id, get_player_by_id, get_match_session_by_id, get_match_by_player_and_session,
  get_matches_by_session_id, update_entry, update_match,
}
use kaepora.Joining.{get_player_active_session}

pub data RecapScope : Type 0 where
  public_recap runner_recap admin_recap : RecapScope

abbrev is_admin : RecapScope → Bool
is_admin admin_recap = true
is_admin _ = false

abbrev is_public : RecapScope → Bool
is_public public_recap = true
is_public _ = false

-- Whether `writeResultsTable` counts a match as unknown, and leaves it out. Every match that it
-- writes needs its two entries.
unfoldable pub is_unknown : RecapScope → Match → Result Bool
unfolding entry_at has_ended
is_unknown scope m =
    let e0 = entry_at m 0 in
    let e1 = entry_at m 1 in
    elim e0 [
      | err e ↦ err e
      | ok a ↦ elim e1 [
        | err e ↦ err e
        | ok b ↦ ok (
            not (is_admin scope)
            && ((not (has_ended a) && not (has_ended b))
                || (is_public scope && (not (has_ended a) || not (has_ended b)))))
      ]
    ]

-- The numbers of known and of unknown results that `writeResultsTable` gives back.
unfoldable pub count_results : RecapScope → List Match → Result (ℕ × ℕ)
unfolding is_unknown
count_results scope [] = ok (0, 0)
count_results scope (m ∷ matches) =
    let rest = count_results scope matches in
    elim (is_unknown scope m) [
      | err e ↦ err e
      | ok hidden ↦ elim rest [
        | err e ↦ err e
        | ok (known, unknown) ↦ ok (if hidden then (known, suc unknown) else (suc known, unknown))
      ]
    ]

module _ {F : Type 0} where
  unfoldable pub get_active_match_and_entries_for_player :
      Time → Uuid → Action F (Match × MatchEntry × MatchEntry)
  unfolding get_player_active_session can_forfeit get_match_by_player_and_session
      get_player_and_opponent_entries
  get_active_match_and_entries_for_player now player_id = do
    session ←
        on_no_rows (get_player_active_session player_id)
          (fail (public "you are not in any active race right now"))
    lift (can_forfeit now session)
    match ← get_match_by_player_and_session player_id session.id
    (self, opponent) ← lift (get_player_and_opponent_entries match player_id)
    pure (match, self, opponent)

  unfoldable pub send_match_end_notification :
      MatchEntry → MatchEntry → Player F → Action F (Unit {0})
  unfolding get_player_by_id
  send_match_end_notification self against player = do
    opponent ← get_player_by_id against.player_id
    notify (record { recipient = user player.discord_id; kind = match_end self against })

  unfoldable pub maybe_send_match_end_notifications :
      Player F → MatchEntry → MatchEntry → Uuid → Action F (Unit {0})
  unfolding has_ended send_match_end_notification get_player_by_id
  maybe_send_match_end_notifications player self against opponent_id = do
    (if has_ended self then send_match_end_notification self against player else pure tt)
    (if has_ended against
        then (do
          opponent ← get_player_by_id opponent_id
          send_match_end_notification against self opponent)
        else pure tt)

  -- The transaction of `endActiveMatch`. The match is given back with the entries as they were
  -- read: the two that are written are copies.
  unfoldable pub end_active_match_tx : Bool → Time → Player F → Action F Match
  unfolding get_active_match_and_entries_for_player end_race update_entry update_match
      maybe_send_match_end_notifications
  end_active_match_tx is_forfeit now player = do
    (match, self, against) ← get_active_match_and_entries_for_player now player.id
    (self', against', match') ← lift (end_race is_forfeit now self against match)
    update_entry self'
    update_entry against'
    update_match match'
    maybe_send_match_end_notifications player self' against' against'.player_id
    pure match'

  -- `sendSessionRecapNotification` to a player.
  unfoldable pub send_session_recap_notification :
      MatchSession → List Match → RecapScope → Option (Option String) → Action F (Unit {0})
  unfolding get_league_by_id count_results
  send_session_recap_notification session matches scope to_user = do
    league ← get_league_by_id session.league_id
    (known, unknown) ← lift (count_results scope matches)
    notify (record {
      recipient = elim to_user [
        | some discord_id ↦ user discord_id
        | none ↦ channel league.announce_discord_channel_id
      ];
      kind = recap session.id known unknown;
    })

  unfoldable pub send_private_recap_for_session_id : Uuid → Player F → Action F (Unit {0})
  unfolding transaction get_match_session_by_id get_matches_by_session_id
      send_session_recap_notification
  send_private_recap_for_session_id session_id player = transaction (do
    session ← get_match_session_by_id session_id
    matches ← get_matches_by_session_id session_id
    send_session_recap_notification session matches runner_recap (some player.discord_id))

  -- `endActiveMatch`. The spoiler log is unlocked by another goroutine, which writes nothing here.
  unfoldable pub end_active_match : Bool → Time → Player F → Action F Match
  unfolding transaction end_active_match_tx send_private_recap_for_session_id
  end_active_match is_forfeit now player = do
    ret ← transaction (end_active_match_tx is_forfeit now player)
    send_private_recap_for_session_id ret.match_session_id player
    notify (record { recipient = user player.discord_id; kind = spoiler_log ret.id })
    pure ret
