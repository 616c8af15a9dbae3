-- ===== src/Players/Registered.antt =====
-- What registering a player gives.
use Prim.Native.String.{String}
use text.Mathlib.Text
use kaepora.Base.{
  ℕ, ◌≡◌, refl, ◌∙◌, List, [], ◌∷◌, ◌++◌, false, ◌==◌, Bool-cases, inl, inr, if◌then◌else◌, arith,
}
use kaepora.Base.Lists.{any}
use kaepora.Base.Result.{Result, ok, err, no_rows, public}
use kaepora.Clock.{Time}
use kaepora.Match.{Uuid}
use kaepora.Rating.{PlayerRating, Player}
use kaepora.Store.{Action, fail, World, stored}
use kaepora.Store.Atomic.{transaction-ok, transaction-err}
use kaepora.Players.{
  name_taken, create_player, if_found, not_registered, is_account, null_string,
  get_player_by_discord_id, get_player_by_name, insert_player, new_player, register_discord_player,
}
use kaepora.Players.Distinct.{AreDistinct, append-AreDistinct, IsUntaken}
use kaepora.Players.Found.{
  has_account, has_name, if_found-ok, if_found-err, account-missing, account-found, name-missing,
  name-found,
}

module _ {F : Type 0} (discord_id name : String) where
  module _ (blank : PlayerRating F) (now : Time) where
    -- The player who is registered, and the row.
    abbrev pub registered : World F → Player F
    registered w = record {
      id = w.uuids 0;
      created_at = now;
      name = name;
      discord_id = null_string discord_id;
      stream_url = "";
      rating = blank;
    }

    abbrev pub with_player : Player F → World F → World F
    with_player p w = record w {
      db = record w.db { players = w.db.players ++ p ∷ [] };
      uuids = λ n. w.uuids (ℕ.suc n);
    }

    -- What registering gives: an account or a name that is there already is refused.
    abbrev pub registration : World F → Result (Player F) × World F
    registration w =
        if has_account discord_id w
        then (err (public "you are already registered"), w)
        else if has_name name w
        then (err (name_taken name), w)
        else (ok (registered w), with_player (record (registered w) { created_at = stored now }) w)

    untaken :
        (id : Uuid) (rows : List (Player F)) (p : Player F)
        → p.name ≡ name
        → p.discord_id ≡ null_string discord_id
        → any (λ r. r.id == p.id) rows ≡ false
        → any (λ r. Text.◌==◌ r.name name) rows ≡ false
        → any (λ r. is_account discord_id r.discord_id) rows ≡ false
        → IsUntaken p rows
    unfolding any null_string
    untaken id [] p e f a b c = refl
    untaken id (r ∷ rows) p e f a b c = ground (arith, untaken id rows p e f)

    insert_player-new :
        (p : Player F) (w : World F)
        → IsUntaken p w.db.players
        → insert_player p w ≡ (
          ok tt,
          record w {
            db = record w.db {
              players = w.db.players ++ record p { created_at = stored p.created_at } ∷ [];
            };
          },
        )
    unfolding insert_player
    insert_player-new p w free = ground arith

    create_player-new :
        (w : World F)
        → IsUntaken (registered w) w.db.players
        → create_player blank now discord_id name w
          ≡ (ok (registered w), with_player (record (registered w) { created_at = stored now }) w)
    unfolding create_player new_player
    create_player-new w free =
        ground (
          arith,
          insert_player-new (registered w) (record w { uuids = λ n. w.uuids (ℕ.suc n) }) free,
        )

    -- The steps of the registration.
    abbrev refused : Action F (Player F)
    refused = fail (public "you are already registered")

    abbrev refused_name : Action F (Player F)
    refused_name = fail (name_taken name)

    abbrev by_name : Action F (Player F)
    by_name =
        if_found (get_player_by_name name) refused_name (create_player blank now discord_id name)

    abbrev by_account : Action F (Player F)
    by_account = if_found (get_player_by_discord_id discord_id) refused by_name

    to_name : (w : World F) → has_account discord_id w ≡ false → by_account w ≡ by_name w
    to_name w unknown =
        if_found-err (get_player_by_discord_id discord_id) refused by_name w w not_registered
          (account-missing discord_id w unknown)

    -- Where the UUID to come is fresh, registering an account with a name is refused exactly if one
    -- of them is there already, and else adds one player with both. No two players have the same
    -- id, name or account after it, if that was so before.
    pub register_discord_player_lem :
        (w : World F)
        → any (λ r. r.id == w.uuids 0) w.db.players ≡ false
        → AreDistinct w.db.players
        → (register_discord_player blank now discord_id name w ≡ registration w)
          × AreDistinct (registration w).1.db.players
    unfolding register_discord_player
    register_discord_player_lem w fresh distinct = elim (Bool-cases (has_account discord_id w)) [
      | inl known ↦
          let (p, found, e) = account-found discord_id w known in
          (
            rw known (
                transaction-err by_account w w (public "you are already registered")
                  (if_found-ok (get_player_by_discord_id discord_id) refused by_name w w p e)),
            rw known distinct,
          )
      | inr unknown ↦ elim (Bool-cases (has_name name w)) [
        | inl taken ↦
            let (p, e) = name-found name w taken in
            (
              rw (unknown, taken)
                  (transaction-err by_account w w _ (
                    to_name w unknown
                    ∙ if_found-ok (get_player_by_name name) refused_name
                        (create_player blank now discord_id name) w w p e)),
              rw (unknown, taken) distinct,
            )
        | inr free ↦
            let new =
              untaken (w.uuids 0) w.db.players (registered w) refl refl fresh free unknown in
            (
              rw (unknown, free)
                  (transaction-ok by_account w _ _ (
                    to_name w unknown
                    ∙ if_found-err (get_player_by_name name) refused_name
                        (create_player blank now discord_id name) w w no_rows
                        (name-missing name w free)
                    ∙ create_player-new w new)),
              rw (unknown, free)
                  (append-AreDistinct (record (registered w) { created_at = stored now })
                    w.db.players new distinct),
            )
      ]
    ]
