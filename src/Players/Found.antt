-- ===== src/Players/Found.antt =====
-- Finding a player by an account or a name.
use Prim.Native.String.{String}
use text.Mathlib.Text
use kaepora.Base.{
  ◌≡◌, refl, ap, List, [], ◌∷◌, some, none, Bool, true, false, Bool-cases, inl, inr, arith,
}
use kaepora.Base.Lists.{find, any}
use kaepora.Base.Result.{ok, err, Error, no_rows}
use kaepora.Rating.{Player}
use kaepora.Store.{Action, World}
use kaepora.Players.{
  if_found, not_registered, is_account, get_player_by_discord_id, get_player_by_name,
}

module _ {A : Type 0} (p : A → Bool) where
  find-none : (rows : List A) → any p rows ≡ false → find p rows ≡ none
  unfolding find any
  find-none [] h = refl
  find-none (r ∷ rows) h = ground (arith, find-none rows)

  find-some : (rows : List A) → any p rows ≡ true → (x : A) × (find p rows ≡ some x)
  unfolding find any
  find-some [] h = absurd (cc)
  find-some (r ∷ rows) h = elim (Bool-cases (p r)) [
    | inl here ↦ (r, ground arith)
    | inr other ↦ let (x, e) = find-some rows (ground arith) in (x, ground arith)
  ]

module _ {F A B : Type 0} (m : Action F A) (found missing : Action F B) where
  pub if_found-ok :
      (w w' : World F) (a : A) → m w ≡ (ok a, w') → if_found m found missing w ≡ found w'
  if_found-ok w w' a e = ap (λ p. elim p.0 [ ok a ↦ found p.1 | err e ↦ missing p.1 ]) e

  pub if_found-err :
      (w w' : World F) (x : Error) → m w ≡ (err x, w') → if_found m found missing w ≡ missing w'
  if_found-err w w' x e = ap (λ p. elim p.0 [ ok a ↦ found p.1 | err e ↦ missing p.1 ]) e

module _ {F : Type 0} (discord_id : String) where
  abbrev pub has_account : World F → Bool
  has_account w = any (λ p. is_account discord_id p.discord_id) w.db.players

  pub account-missing :
      (w : World F)
      → has_account w ≡ false
      → get_player_by_discord_id discord_id w ≡ (err not_registered, w)
  unfolding get_player_by_discord_id
  account-missing w h =
      ground (arith, find-none (λ p. is_account discord_id p.discord_id) w.db.players h)

  pub account-found :
      (w : World F)
      → has_account w ≡ true
      → (p : Player F) × (find (λ p. is_account discord_id p.discord_id) w.db.players ≡ some p)
        × (get_player_by_discord_id discord_id w ≡ (ok p, w))
  unfolding get_player_by_discord_id
  account-found w h =
      let (p, found) = find-some (λ p. is_account discord_id p.discord_id) w.db.players h in
      (p, found, ground (arith, found))

module _ {F : Type 0} (name : String) where
  abbrev pub has_name : World F → Bool
  has_name w = any (λ p. Text.◌==◌ p.name name) w.db.players

  pub name-missing :
      (w : World F) → has_name w ≡ false → get_player_by_name name w ≡ (err no_rows, w)
  unfolding get_player_by_name
  name-missing w h = ground (arith, find-none (λ p. Text.◌==◌ p.name name) w.db.players h)

  pub name-found :
      (w : World F) → has_name w ≡ true → (p : Player F) × (get_player_by_name name w ≡ (ok p, w))
  unfolding get_player_by_name
  name-found w h =
      let (p, found) = find-some (λ p. Text.◌==◌ p.name name) w.db.players h in
      (p, ground (arith, found))
