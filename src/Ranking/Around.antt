-- ===== src/Ranking/Around.antt =====
-- The leaderboards that a player asks for: `GetLeaderboardsForDiscordUser` of internal/back/bot.go.
pub mod Tests
use Prim.Native.String.{String, ◌++◌}
use kaepora.Base.{
  ℕ, ◌≡◌, List, [], ◌∷◌, Option, none, some, Bool, true, false, not, ltb, ◌==◌, ◌&&◌, if◌then◌else◌,
}
use kaepora.Base
use kaepora.Base.Lists.{length, find, select, take}
use kaepora.Base.Result.{Result, ok, err, public, panic}
use kaepora.Clock.{Time}
use kaepora.Match.{Uuid}
use kaepora.Rating.{Float, PlayerRating, Player}
use kaepora.Store.{
  Action, Db, ◌>>=◌, ◌>>◌, pure, fail, lift, select_rows, on_no_rows, transaction, order_with,
}
use kaepora.Store.Rows.{get_league_by_short_code}
use kaepora.Players.{get_player_by_discord_id}
use kaepora.Matchmaking.{Setting, get_player_rating}
use kaepora.Ranking.Leaderboard.{
  LeaderboardEntry, LeaderboardSetting, is_listed, get_leaderboard_for_shortcode,
}

-- A loop that swaps the ends.
abbrev reversed : {A : Type 0} → List A → List A
reversed [] = []
reversed (a ∷ l) = Base.◌++◌ (reversed l) (a ∷ [])

-- `Player.DiscordID NOT IN(?)`, which is not true of `NULL`.
abbrev is_listed_account : List String → Option String → Bool
is_listed_account bans none = false
is_listed_account bans (some d) = is_listed bans (some d)

abbrev padded : {A : Type 0} → A → ℕ → List A → List A
padded blank ℕ.zero l = []
padded blank (ℕ.suc n) [] = blank ∷ padded blank n []
padded blank (ℕ.suc n) (a ∷ l) = a ∷ padded blank n l

-- `top[:n]`: up to the capacity of the slice, whose zero values come after its elements.
unfoldable pub slice_to : {A : Type 0} → A → ℕ → ℕ → List A → Result (List A)
slice_to blank capacity n top =
    if ltb capacity n then err (panic "slice bounds out of range") else ok (padded blank n top)

module _ {F : Type 0} (setting : Setting F) (board : LeaderboardSetting F) where
  open board use {float, deviation_threshold, banned_user_ids}
  open float use {lt, zero}

  abbrev nobody : LeaderboardEntry F
  nobody = record {
    player_name = "";
    player_stream_url = "";
    rating = zero;
    deviation = zero;
    wins = 0;
    losses = 0;
    draws = 0;
    forfeits = 0;
  }

  -- The rows of the query, each with its player.
  unfoldable pub rows_around :
      Bool → F → Db F → Player F → Uuid → List (PlayerRating F) → List (LeaderboardEntry F)
  unfolding find is_listed
  rows_around above rating db player league_id [] = []
  rows_around above rating db player league_id (r ∷ ratings) =
      let rest = rows_around above rating db player league_id ratings in
      elim (find (λ p. p.id == r.player_id) db.players) [
        | none ↦ rest
        | some p ↦
            if r.league_id == league_id
              && (if above then lt rating r.rating else not (lt rating r.rating))
              && not (p.id == player.id)
              && is_listed_account banned_user_ids p.discord_id
            then record nobody {
              player_name = p.name;
              player_stream_url = p.stream_url;
              rating = r.rating;
              deviation = r.deviation;
            }
              ∷ rest
            else rest
      ]

  -- The five nearest, the lowest first both ways.
  unfoldable pub top_around : Bool → F → Player F → Uuid → Action F (List (LeaderboardEntry F))
  unfolding rows_around order_with
  top_around above rating player league_id = select_rows (λ db.
      let rows = rows_around above rating db player league_id db.ratings in
      if above
      then take 5 (order_with (λ a b. not (lt b.rating a.rating)) rows)
      else reversed (take 5 (order_with (λ a b. not (lt a.rating b.rating)) rows)))

  unfoldable pub get_top_around_player :
      Time → Player F → Uuid → Action F (List (LeaderboardEntry F))
  unfolding get_player_rating top_around
  get_top_around_player now player league_id = do
    rating ← get_player_rating setting now player.id league_id
    above ← top_around true rating.rating player league_id
    below ← top_around false rating.rating player league_id
    pure (
        if length above == 0 && length below == 0
        then []
        else Base.◌++◌ above
            (record nobody { player_name = player.name; rating = rating.rating } ∷ below))

  -- The player of an account; an error, or the zero id, is nobody.
  unfoldable pub known_player : String → Action F (Option (Player F))
  unfolding get_player_by_discord_id
  known_player discord_id w =
      let (r, w') = get_player_by_discord_id discord_id w in
      elim r [ err e ↦ (ok none, w') | ok p ↦ (ok (if p.id == 0 then none else some p), w') ]

  -- `capacity` is what the driver has allocated for a slice of a length.
  unfoldable pub get_leaderboards_for_discord_user :
      (ℕ → ℕ)
      → Time
      → String
      → String
      → Action F (List (LeaderboardEntry F) × List (LeaderboardEntry F))
  unfolding slice_to transaction get_league_by_short_code get_leaderboard_for_shortcode known_player
      get_top_around_player
  get_leaderboards_for_discord_user capacity now discord_id short_code = do
    (top, around) ← transaction (do
      league ←
          on_no_rows (get_league_by_short_code short_code)
            (fail (public ("no league found with shortcode '" ++ short_code ++ "'")))
      top ← get_leaderboard_for_shortcode board short_code deviation_threshold
      player ← known_player discord_id
      around ← elim player [ none ↦ pure [] | some p ↦ get_top_around_player now p league.id ]
      pure (top, around))
    top' ← lift (slice_to nobody (capacity (length top)) 20 top)
    pure (top', around)
