-- ===== src/Ranking/Leaderboard.antt =====
-- The leaderboard of a league: `getLeaderboardForShortcode` of internal/back/back_web.go, and its
-- announcement in internal/back/notification.go. The banned accounts and the operations of float64
-- come from outside.
use Prim.Native.String.{String}
use text.Mathlib.Text
use kaepora.Base.{
  ℕ, List, [], ◌∷◌, Option, none, some, Bool, true, false, not, ◌==◌, ◌&&◌, if◌then◌else◌,
}
use kaepora.Base.Lists.{length, select, any, find}
use kaepora.Match.{Uuid, MatchEntry, Outcome, draw, loss, is_win, is_in_progress, is_forfeited}
use kaepora.Rating.{Float, PlayerRating, Player}
use kaepora.Store.{
  Action, Db, ◌>>=◌, pure, select_rows, notify, order_with, channel, leaderboard_update,
}
use kaepora.Store.Rows.{get_league_by_id, get_league_by_short_code}

abbrev pub is_draw : Outcome → Bool
is_draw draw = true
is_draw _ = false

abbrev pub is_loss : Outcome → Bool
is_loss loss = true
is_loss _ = false

pub record LeaderboardEntry (F : Type 0) : Type 0 where
  pub player_name : String
  pub player_stream_url : String
  pub rating : F
  pub deviation : F
  pub wins : ℕ
  pub losses : ℕ
  pub draws : ℕ
  pub forfeits : ℕ

-- `DeviationThreshold`, as a float64, and `b.config.Discord.BannedUserIDs`.
pub record LeaderboardSetting (F : Type 0) : Type 0 where
  pub float : Float F
  pub deviation_threshold : F
  pub banned_user_ids : List String

-- `Player.DiscordID NOT IN(?) OR Player.DiscordID IS NULL`; without bans the list is `"0"`.
unfoldable pub is_listed : List String → Option String → Bool
unfolding any
is_listed bans none = true
is_listed [] (some d) = not (Text.◌==◌ d "0")
is_listed (b ∷ bans) (some d) = not (any (λ x. Text.◌==◌ d x) (b ∷ bans))

module _ {F : Type 0} where
  -- The entries of a player in the matches of a league, but for those in progress.
  unfoldable pub counted_entries : Db F → Uuid → Uuid → List MatchEntry
  unfolding select any
  counted_entries db league_id player_id =
      select
        (λ e.
          e.player_id == player_id
          && not (is_in_progress e.status)
          && any (λ m. m.id == e.match_id && m.league_id == league_id) db.matches)
        db.entries

  unfoldable pub leaderboard_entry :
      Player F → PlayerRating F → List MatchEntry → LeaderboardEntry F
  unfolding select
  leaderboard_entry p r entries = record {
    player_name = p.name;
    player_stream_url = p.stream_url;
    rating = r.rating;
    deviation = r.deviation;
    wins = length (select (λ e. is_win e.outcome) entries);
    losses = length (select (λ e. is_loss e.outcome) entries);
    draws = length (select (λ e. is_draw e.outcome) entries);
    forfeits = length (select (λ e. is_forfeited e.status) entries);
  }

module _ {F : Type 0} (setting : LeaderboardSetting F) where
  open setting use {float, deviation_threshold, banned_user_ids}
  open float use {sub, mul, lt, two}

  -- The rows of the query before they are put in order. A player has one rating in a league, so
  -- that the groups are its ratings; a player without an entry that counts has no group.
  unfoldable pub leaderboard_rows :
      F → Db F → Uuid → List (PlayerRating F) → List (LeaderboardEntry F)
  unfolding find is_listed counted_entries leaderboard_entry
  leaderboard_rows max_deviation db league_id [] = []
  leaderboard_rows max_deviation db league_id (r ∷ ratings) =
      let rest = leaderboard_rows max_deviation db league_id ratings in
      elim (find (λ p. p.id == r.player_id) db.players) [
        | none ↦ rest
        | some p ↦
            let entries = counted_entries db league_id p.id in
            if r.league_id == league_id
              && lt r.deviation max_deviation
              && is_listed banned_user_ids p.discord_id
              && not (length entries == 0)
            then leaderboard_entry p r entries ∷ rest
            else rest
      ]

  -- `ORDER BY … DESC`: the worst rating that is likely, best first.
  unfoldable pub is_ahead : LeaderboardEntry F → LeaderboardEntry F → Bool
  is_ahead a b = not (lt (sub a.rating (mul two a.deviation)) (sub b.rating (mul two b.deviation)))

  unfoldable pub get_leaderboard_for_shortcode : String → F → Action F (List (LeaderboardEntry F))
  unfolding get_league_by_short_code leaderboard_rows order_with is_ahead
  get_leaderboard_for_shortcode short_code max_deviation = do
    league ← get_league_by_short_code short_code
    select_rows (λ db. order_with is_ahead (leaderboard_rows max_deviation db league.id db.ratings))

  -- The text, of the first 20 players, is not modelled.
  unfoldable pub send_leaderboard_update_notification : Uuid → Action F (Unit {0})
  unfolding get_league_by_id get_leaderboard_for_shortcode
  send_leaderboard_update_notification league_id = do
    league ← get_league_by_id league_id
    top ← get_leaderboard_for_shortcode league.short_code deviation_threshold
    (if length top == 0
        then pure tt
        else notify (record {
          recipient = channel league.announce_discord_channel_id;
          kind = leaderboard_update league_id;
        }))
