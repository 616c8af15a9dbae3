-- ===== src/Players.antt =====
-- The players and their names: internal/back/player.go, and the wrappers of internal/back/bot.go
-- that write a row for the chat bot.
pub mod Distinct
pub mod Found
pub mod Registered
pub mod Renamed
pub mod Tests
use Prim.Native.String.{String, len, ◌++◌}
use text.Mathlib.Text
use kaepora.Base.{◌||◌, Bool, false, List, [], ◌∷◌, Option, some, none, ltb, ◌==◌, if◌then◌else◌}
use kaepora.Base
use kaepora.Base.Lists.{find, any}
use kaepora.Base.Result.{Result, ok, err, Error, no_rows, public, internal}
use kaepora.Clock.{Time}
use kaepora.Match.{Uuid}
use kaepora.Rating.{PlayerRating, Player}
use kaepora.Store.{
  Action, ◌>>=◌, ◌>>◌, pure, fail, lift, get_row, exec, new_uuid, on_no_rows, transaction, stored,
  update_where,
}
use kaepora.Store.Rows.{get_league_by_short_code}
use kaepora.Leagues.{update_league}

-- `util.NullString`.
unfoldable pub null_string : String → Option String
null_string v = if Text.◌==◌ v "" then none else some v

-- `Player.DiscordID = ?`, where `NULL` is equal to nothing.
abbrev pub is_account : String → Option String → Bool
is_account discord_id none = false
is_account discord_id (some d) = Text.◌==◌ d discord_id

abbrev pub same_account : Option String → Option String → Bool
same_account none o = false
same_account (some d) o = is_account d o

abbrev pub not_registered : Error
not_registered =
    public "there is no player associated with this discord account, did you forget to `!register`?"

abbrev pub name_taken : String → Error
name_taken name = public ("the name `" ++ name ++ "` is taken already, please give me another name")

module _ {F : Type 0} where
  unfoldable pub get_player_by_name : String → Action F (Player F)
  unfolding find
  get_player_by_name name = get_row (λ db. find (λ p. Text.◌==◌ p.name name) db.players)

  unfoldable pub get_player_by_discord_id : String → Action F (Player F)
  unfolding find
  get_player_by_discord_id discord_id =
      on_no_rows (get_row (λ db. find (λ p. is_account discord_id p.discord_id) db.players))
        (fail not_registered)

  -- `if _, err := m; err == nil`: one way after a result, and the other after any error.
  abbrev pub if_found : {A B : Type 0} → Action F A → Action F B → Action F B → Action F B
  if_found m found missing w = let (r, w') = m w in elim r [ ok a ↦ found w' | err e ↦ missing w' ]

  -- `Player.insert`; the id, the name and the account are unique.
  unfoldable pub insert_player : Player F → Action F (Unit {0})
  unfolding any stored
  insert_player p w =
      if any
        (λ r. r.id == p.id || Text.◌==◌ r.name p.name || same_account p.discord_id r.discord_id)
        w.db.players
      then fail (internal "UNIQUE constraint failed") w
      else exec
          (λ db. record db {
            players = Base.◌++◌ db.players (record p { created_at = stored p.created_at } ∷ []);
          })
          w

  -- `Player.Update`.
  unfoldable pub update_player : Player F → Action F (Unit {0})
  unfolding update_where
  update_player p = exec (λ db. record db {
    players =
        update_where (λ r. r.id == p.id)
          (λ r. record r { name = p.name; discord_id = p.discord_id; stream_url = p.stream_url })
          db.players;
  })

  -- The checks of `UpdateDiscordPlayerName`, once the player is known. A length is in bytes.
  unfoldable pub change_name : Player F → String → Action F (Unit {0})
  change_name player name =
      if Text.◌==◌ player.name name
      then fail (public "that's your name already")
      else if ltb (len name) 3 || ltb 32 (len name)
      then fail (public "your name must be between 3 and 32 characters")
      else if_found (get_player_by_name name) (fail (public "this name is taken already"))
          (update_player (record player { name = name }))

  unfoldable pub update_discord_player_name : String → String → Action F (Unit {0})
  update_discord_player_name discord_id name =
      transaction (do player ← get_player_by_discord_id discord_id; change_name player name)

  -- `NewPlayer`. The rating is no column, and has the zero value of its type.
  unfoldable pub new_player : PlayerRating F → Uuid → Time → String → Player F
  new_player blank id now name = record {
    id = id;
    created_at = now;
    name = name;
    discord_id = none;
    stream_url = "";
    rating = blank;
  }

  unfoldable pub create_player : PlayerRating F → Time → String → String → Action F (Player F)
  create_player blank now discord_id name = do
    id ← new_uuid
    insert_player (record (new_player blank id now name) { discord_id = null_string discord_id })
    pure (record (new_player blank id now name) { discord_id = null_string discord_id })

  unfoldable pub register_discord_player :
      PlayerRating F → Time → String → String → Action F (Player F)
  register_discord_player blank now discord_id name = transaction (
      if_found (get_player_by_discord_id discord_id) (fail (public "you are already registered")) (
        if_found (get_player_by_name name) (fail (name_taken name))
          (create_player blank now discord_id name)))

  -- `util.NormalizeStreamURL` parses the URL by the package net/url.
  unfoldable pub update_discord_player_stream_url :
      (String → Result String) → String → String → Action F String
  unfolding transaction get_player_by_discord_id update_player
  update_discord_player_stream_url normalize discord_id stream_url = do
    normalized ← lift (normalize stream_url)
    transaction (do
      player ← get_player_by_discord_id discord_id
      update_player (record player { stream_url = normalized }))
    pure normalized

  unfoldable pub set_league_announce_channel : String → String → Action F (Unit {0})
  unfolding transaction get_league_by_short_code update_league null_string
  set_league_announce_channel short_code channel_id = transaction (do
    league ←
        on_no_rows (get_league_by_short_code short_code)
          (fail (public ("invalid shortcode '" ++ short_code ++ "'")))
    update_league (record league { announce_discord_channel_id = null_string channel_id }))
