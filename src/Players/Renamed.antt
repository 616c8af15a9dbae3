-- ===== src/Players/Renamed.antt =====
-- What renaming a player gives.
use Prim.Native.String.{String, len}
use text.Mathlib.Text
use kaepora.Base.{
  ◌≡◌, refl, ◌∙◌, ap, List, [], ◌∷◌, map, some, none, ◌||◌, ltb, ◌==◌, Bool-cases, Option-cases,
  inl, inr, if◌then◌else◌, arith,
}
use kaepora.Base.Lists.{find, has, any, IsNodup, Each-Occurs, Occurs-find}
use kaepora.Base.Result.{Result, ok, err, Error, no_rows, public}
use kaepora.Match.{Uuid}
use kaepora.Rating.{Player}
use kaepora.Store.{Action, ◌>>=◌, fail, World, update_where}
use kaepora.Store.Updates.{update_where-find, Each-find_self}
use kaepora.Store.Atomic.{transaction_quiet, transaction-err}
use kaepora.Players.{
  change_name, not_registered, is_account, get_player_by_discord_id, get_player_by_name,
  update_player, update_discord_player_name,
}
use kaepora.Players.Distinct.{AreDistinct, AllDiffer, same_id, renamed, rename-AreDistinct}
use kaepora.Players.Found.{has_name, if_found-ok, if_found-err, name-missing, name-found}

module _ {F : Type 0} (discord_id name : String) where
  -- What renaming gives, once the player is known.
  abbrev pub name_change : Player F → World F → Result (Unit {0}) × World F
  name_change p w =
      if Text.◌==◌ p.name name
      then (err (public "that's your name already"), w)
      else if ltb (len name) 3 || ltb 32 (len name)
      then (err (public "your name must be between 3 and 32 characters"), w)
      else if has_name name w
      then (err (public "this name is taken already"), w)
      else (
        ok tt,
        record w {
          db = record w.db {
            players = update_where (λ r. r.id == p.id) (renamed name) w.db.players;
          };
        },
      )

  abbrev pub renaming : World F → Result (Unit {0}) × World F
  renaming w = elim (find (λ p. is_account discord_id p.discord_id) w.db.players) [
    | none ↦ (err not_registered, w)
    | some p ↦ name_change p w
  ]

  has-any :
      (a : Uuid) (rows : List (Player F)) → has a (map (λ r. r.id) rows) ≡ any (λ q. a == q.id) rows
  unfolding has any
  has-any a [] = refl
  has-any a (r ∷ rows) = ground (arith, has-any a rows)

  AllDiffer-IsNodup :
      (rows : List (Player F)) → AllDiffer same_id rows → IsNodup (map (λ r. r.id) rows)
  AllDiffer-IsNodup [] h = tt
  AllDiffer-IsNodup (r ∷ rows) (hr, h) = (has-any r.id rows ∙ hr, AllDiffer-IsNodup rows h)

  update_player-renamed :
      (p : Player F) (w : World F)
      → AllDiffer same_id w.db.players
      → find (λ p. is_account discord_id p.discord_id) w.db.players ≡ some p
      → update_player (record p { name = name }) w ≡ (
        ok tt,
        record w {
          db = record w.db {
            players = update_where (λ r. r.id == p.id) (renamed name) w.db.players;
          };
        },
      )
  unfolding update_player
  update_player-renamed p w differ found =
      let keyed = AllDiffer-IsNodup w.db.players differ in
      ap (λ rows. (ok tt, record w { db = record w.db { players = rows } }))
        (update_where-find (λ r. r.id) p.id
          (λ r. record r { name = name; discord_id = p.discord_id; stream_url = p.stream_url })
          (renamed name) w.db.players p keyed
          (Each-Occurs (λ s. find (λ r. r.id == s.id) w.db.players ≡ some s) p w.db.players
            (Each-find_self (λ r. r.id) w.db.players keyed)
            (Occurs-find p (λ p. is_account discord_id p.discord_id) w.db.players found))
          refl)

  abbrev taken_already : Action F (Unit {0})
  taken_already = fail (public "this name is taken already")

  change_name-name_change :
      (p : Player F) (w : World F)
      → AllDiffer same_id w.db.players
      → find (λ p. is_account discord_id p.discord_id) w.db.players ≡ some p
      → change_name p name w ≡ name_change p w
  unfolding change_name
  change_name-name_change p w differ found = elim (Bool-cases (Text.◌==◌ p.name name)) [
    | inl same ↦ rw same refl
    | inr changed ↦ elim (Bool-cases (ltb (len name) 3 || ltb 32 (len name))) [
      | inl long ↦ rw (changed, long) refl
      | inr fits ↦ elim (Bool-cases (has_name name w)) [
        | inl taken ↦
            let (q, e) = name-found name w taken in
            rw (changed, fits, taken)
              (if_found-ok (get_player_by_name name) taken_already
                (update_player (record p { name = name })) w w q e)
        | inr free ↦
            rw (changed, fits, free)
              (if_found-err (get_player_by_name name) taken_already
                  (update_player (record p { name = name })) w w no_rows (name-missing name w free)
                ∙ update_player-renamed p w differ found)
      ]
    ]
  ]

  name_change-AreDistinct :
      (p : Player F) (w : World F)
      → AreDistinct w.db.players
      → AreDistinct (name_change p w).1.db.players
  name_change-AreDistinct p w distinct = elim (Bool-cases (Text.◌==◌ p.name name)) [
    | inl same ↦ rw same distinct
    | inr changed ↦ elim (Bool-cases (ltb (len name) 3 || ltb 32 (len name))) [
      | inl long ↦ rw (changed, long) distinct
      | inr fits ↦ elim (Bool-cases (has_name name w)) [
        | inl taken ↦ rw (changed, fits, taken) distinct
        | inr free ↦
            rw (changed, fits, free) (rename-AreDistinct p.id name w.db.players free distinct)
      ]
    ]
  ]

  abbrev rename_steps : Action F (Unit {0})
  rename_steps = get_player_by_discord_id discord_id >>= λ player. change_name player name

  name_change-quiet :
      (p : Player F) (w : World F) (e : Error)
      → (name_change p w).0 ≡ err e
      → (name_change p w).1 ≡ w
  name_change-quiet p w e h = ground arith

  -- Where no two players have the same id, name or account: `UpdateDiscordPlayerName` refuses an
  -- account that is not registered, the name that the player has, one that has fewer than 3 or more
  -- than 32 bytes, and one that somebody has, and else it changes the name of that player alone.
  -- No two players have the same id, name or account after it.
  pub update_discord_player_name_lem :
      (w : World F)
      → AreDistinct w.db.players
      → (update_discord_player_name discord_id name w ≡ renaming w)
        × AreDistinct (renaming w).1.db.players
  unfolding update_discord_player_name get_player_by_discord_id
  update_discord_player_name_lem w distinct =
      elim (Option-cases (find (λ p. is_account discord_id p.discord_id) w.db.players)) [
        | inl missing ↦ (
          rw (missing, renaming)
              (transaction-err rename_steps w w not_registered (ground (arith, missing))),
          rw (missing, renaming) distinct,
        )
        | inr (p, found) ↦ (
          rw (found, renaming)
              (transaction_quiet rename_steps w (name_change p w)
                (ground (arith, found, change_name-name_change p w distinct.ids found))
                (name_change-quiet p w)),
          rw (found, renaming) (name_change-AreDistinct p w distinct),
        )
      ]
