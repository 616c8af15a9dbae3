-- ===== src/Players/Distinct.antt =====
-- No two players have the same id, name or account.
use Prim.Native.String.{String}
use text.Mathlib.Text
use text.Mathlib.TextEquality.{eq_iff}
use kaepora.Base.{
  ◌≡◌, refl, ◌∙◌, List, [], ◌∷◌, ◌++◌, Option, some, none, Bool, true, false, ◌||◌, ◌==◌,
  Bool-cases, inl, inr, arith,
}
use kaepora.Base.Lists.{any, any-append, any-ext, any-false}
use kaepora.Match.{Uuid}
use kaepora.Rating.{Player}
use kaepora.Store.{update_where}
use kaepora.Players.{same_account}

module _ {A : Type 0} (same : A → A → Bool) where
  -- No row is the same as one behind it.
  abbrev pub AllDiffer : List A → Type 0
  AllDiffer [] = Unit
  AllDiffer (r ∷ rows) = (any (same r) rows ≡ false) × AllDiffer rows

  pub append-AllDiffer :
      (rows : List A) (q : A)
      → any (λ r. same r q) rows ≡ false
      → AllDiffer rows
      → AllDiffer (rows ++ q ∷ [])
  unfolding any
  append-AllDiffer [] q h differ = (refl, tt)
  append-AllDiffer (r ∷ rows) q h (hr, differ) = (
    ground (arith, any-append (same r) rows (q ∷ [])),
    append-AllDiffer rows q (ground arith) differ,
  )

  -- An update that the test does not see.
  any-update_where_blind :
      (t : A → Bool) (p : A → Bool) (f : A → A) (rows : List A)
      → ((r : A) → t (f r) ≡ t r)
      → any t (update_where p f rows) ≡ any t rows
  unfolding any update_where
  any-update_where_blind t p f [] blind = refl
  any-update_where_blind t p f (r ∷ rows) blind =
      ground (arith, blind r, any-update_where_blind t p f rows blind)

  pub update_where-AllDiffer :
      (p : A → Bool) (f : A → A) (rows : List A)
      → ((r q : A) → same r (f q) ≡ same r q)
      → ((r q : A) → same (f r) q ≡ same r q)
      → AllDiffer rows
      → AllDiffer (update_where p f rows)
  unfolding update_where
  update_where-AllDiffer p f [] right left h = tt
  update_where-AllDiffer p f (r ∷ rows) right left (hr, h) = elim (Bool-cases (p r)) [
    | inl here ↦ rw here (
      any-update_where_blind (same (f r)) p f rows (λ q. right (f r) q)
          ∙ any-ext (same (f r)) (same r) (left r) rows
          ∙ hr,
      update_where-AllDiffer p f rows right left h,
    )
    | inr other ↦ rw other (
      any-update_where_blind (same r) p f rows (λ q. right r q) ∙ hr,
      update_where-AllDiffer p f rows right left h,
    )
  ]

module _ {A : Type 0} (p : A → Bool) (f : A → A) where
  update_where-none : (rows : List A) → any p rows ≡ false → update_where p f rows ≡ rows
  unfolding any update_where
  update_where-none [] h = refl
  update_where-none (r ∷ rows) h = ground (arith, update_where-none rows)

  any-update_where_elsewhere :
      (t : A → Bool) (rows : List A)
      → ((r : A) → t (f r) ≡ false)
      → any t rows ≡ false
      → any t (update_where p f rows) ≡ false
  unfolding any update_where
  any-update_where_elsewhere t [] new h = refl
  any-update_where_elsewhere t (r ∷ rows) new h =
      ground (arith, new r, any-update_where_elsewhere t rows new)

pub text_comm : (a b : String) → Text.◌==◌ a b ≡ Text.◌==◌ b a
text_comm a b = ground (arith, eq_iff a b, eq_iff b a)

pub account_comm : (a b : Option String) → same_account a b ≡ same_account b a
account_comm none none = refl
account_comm none (some b) = refl
account_comm (some a) none = refl
account_comm (some a) (some b) = text_comm b a

module _ {F : Type 0} where
  abbrev pub same_id : Player F → Player F → Bool
  same_id r q = r.id == q.id

  abbrev pub same_name : Player F → Player F → Bool
  same_name r q = Text.◌==◌ r.name q.name

  abbrev pub share_account : Player F → Player F → Bool
  share_account r q = same_account r.discord_id q.discord_id

  -- No two players have the same id, the same name or the same account.
  pub record AreDistinct (rows : List (Player F)) : Type 0 where
    pub ids : AllDiffer same_id rows
    pub names : AllDiffer same_name rows
    pub accounts : AllDiffer share_account rows

  -- A player with another name, for one id and a name that nobody has.
  abbrev pub renamed : String → Player F → Player F
  renamed name r = record r { name = name }

  others_id :
      (id : Uuid) (r : Player F) (rows : List (Player F))
      → (r.id == id) ≡ true
      → any (same_id r) rows ≡ false
      → any (λ q. q.id == id) rows ≡ false
  others_id id r rows here fresh =
      any-ext (λ q. q.id == id) (same_id r) (λ q. ground arith) rows ∙ fresh

  rename-names :
      (id : Uuid) (name : String) (rows : List (Player F))
      → any (λ r. Text.◌==◌ r.name name) rows ≡ false
      → AllDiffer same_id rows
      → AllDiffer same_name rows
      → AllDiffer same_name (update_where (λ r. r.id == id) (renamed name) rows)
  unfolding any update_where
  rename-names id name [] free ids names = tt
  rename-names id name (r ∷ rows) free (fresh, ids) (hr, names) = elim (Bool-cases (r.id == id)) [
    | inl here ↦
        rw
          (
            here,
            update_where-none (λ q. q.id == id) (renamed name) rows
                (others_id id r rows here fresh),
          )
          (
            any-ext (same_name (renamed name r)) (λ q. Text.◌==◌ q.name name)
                  (λ q. text_comm name q.name) rows
                ∙ ground arith,
            names,
          )
    | inr other ↦ rw other (
      any-update_where_elsewhere (λ q. q.id == id) (renamed name) (same_name r) rows
          (λ q. ground arith) hr,
      rename-names id name rows (ground arith) ids names,
    )
  ]

  pub rename-AreDistinct :
      (id : Uuid) (name : String) (rows : List (Player F))
      → any (λ r. Text.◌==◌ r.name name) rows ≡ false
      → AreDistinct rows
      → AreDistinct (update_where (λ r. r.id == id) (renamed name) rows)
  rename-AreDistinct id name rows free h = record {
    ids =
        update_where-AllDiffer same_id (λ r. r.id == id) (renamed name) rows (λ r q. refl)
          (λ r q. refl) h.ids;
    names = rename-names id name rows free h.ids h.names;
    accounts =
        update_where-AllDiffer share_account (λ r. r.id == id) (renamed name) rows (λ r q. refl)
          (λ r q. refl) h.accounts;
  }

  -- No row has a key of a player.
  abbrev pub IsUntaken : Player F → List (Player F) → Type 0
  IsUntaken p rows =
      any (λ r. r.id == p.id || Text.◌==◌ r.name p.name || same_account p.discord_id r.discord_id)
        rows
      ≡ false

  pub append-AreDistinct :
      (p : Player F) (rows : List (Player F))
      → IsUntaken p rows
      → AreDistinct rows
      → AreDistinct (rows ++ p ∷ [])
  append-AreDistinct p rows free h = record {
    ids =
        append-AllDiffer same_id rows p
          (any-false _ (λ r. same_id r p) (λ r e. ground arith) rows free) h.ids;
    names =
        append-AllDiffer same_name rows p
          (any-false _ (λ r. same_name r p) (λ r e. ground arith) rows free) h.names;
    accounts =
        append-AllDiffer share_account rows p
          (any-false _ (λ r. share_account r p)
            (λ r e. ground (arith, account_comm r.discord_id p.discord_id)) rows free)
          h.accounts;
  }
