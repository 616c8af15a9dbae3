-- ===== src/Rating.antt =====
-- internal/back/player_rating.go, the types of internal/back/player.go, and what the pairing uses
-- of float64 and of the package sort.
pub mod Insertion
use Prim.Native.String.{String}
use mathlib.Core.List.{Perm}
use kaepora.Base.{ℕ, ◌≡◌, List, [], ◌∷◌, Option, Bool, true, false}
use kaepora.Base.Int.{ℤ}
use kaepora.Clock.{Time}
use kaepora.Match.{Uuid}

-- The operations of float64 that the ratings go through. Nothing is assumed of them.
pub record Float (F : Type 0) : Type 0 where
  pub add : F → F → F
  pub sub : F → F → F
  pub mul : F → F → F
  pub neg : F → F
  pub lt : F → F → Bool
  pub zero : F
  pub two : F
  pub to_int : F → ℤ  -- int(x), which drops the fraction

-- `sort.Sort` at one type: it rearranges the elements by the test `Less`, and is not stable.
pub record Sorter (A : Type 0) : Type 0 where
  pub sort : (A → A → Bool) → List A → List A
  pub sort-perm : (less : A → A → Bool) (l : List A) → Perm (sort less l) l

pub record PlayerRating (F : Type 0) : Type 0 where
  pub player_id : Uuid
  pub league_id : Uuid
  pub created_at : Time
  pub rating_period_started_at : Time
  pub rating : F
  pub deviation : F
  pub volatility : F

pub record Player (F : Type 0) : Type 0 where
  pub id : Uuid
  pub created_at : Time
  pub name : String
  pub discord_id : Option String
  pub stream_url : String
  pub rating : PlayerRating F

module _ {F : Type 0} (float : Float F) where
  open float use {add, sub, mul, two, lt, to_int}

  -- `Range`: where the true rating is with 95 % accuracy.
  unfoldable pub range : PlayerRating F → ℤ × ℤ
  range r =
      (to_int (sub r.rating (mul two r.deviation)), to_int (add r.rating (mul two r.deviation)))

  -- `byRating.Less`, on two players. `GlickoRating().R()` is the rating that it was given.
  unfoldable pub rating_less : Player F → Player F → Bool
  rating_less a b = lt a.rating.rating b.rating.rating
