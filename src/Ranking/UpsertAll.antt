-- ===== src/Ranking/UpsertAll.antt =====
-- Upserts of several rows, one after the other.
use kaepora.Base.{◌≡◌, refl, ◌∙◌, ap, sym, List, [], ◌∷◌, Bool, true, false, arith}
use kaepora.Base.Lists.{select, any, Each}
use kaepora.Rating.{PlayerRating}
use kaepora.Ranking.Ratings.{upsert_where}
use kaepora.Ranking.Upserts.{
  rated_as, Settled, Settled-upsert_where_self, upsert_where-Settled, Settled-upsert_where,
  select-upsert_where,
}

module _ {F : Type 0} (same : PlayerRating F → PlayerRating F → Bool) where
  abbrev pub upsert_all : List (PlayerRating F) → List (PlayerRating F) → List (PlayerRating F)
  upsert_all [] rows = rows
  upsert_all (r ∷ rs) rows = upsert_all rs (upsert_where same r rows)

  -- A test by a key of a row, which is not among its values.
  pub record IsKey : Type 0 where
    pub self : (r : PlayerRating F) → same r r ≡ true
    pub keeps : (r q row : PlayerRating F) → same r (rated_as q row) ≡ same r row

  -- Two rows have different keys.
  abbrev pub IsApart : PlayerRating F → PlayerRating F → Type 0
  IsApart r q =
      ((row : PlayerRating F) → same q row ≡ true → same r row ≡ false) × (same r q ≡ false)

  abbrev pub AllApart : List (PlayerRating F) → Type 0
  AllApart [] = Unit
  AllApart (r ∷ rs) = Each (IsApart r) rs × AllApart rs

  Settled-upsert_all_self :
      (rs rows : List (PlayerRating F))
      → Each (λ r. Settled same r rows) rs
      → upsert_all rs rows ≡ rows
  Settled-upsert_all_self [] rows h = refl
  Settled-upsert_all_self (r ∷ rs) rows (hr, h) =
      ap (upsert_all rs) (Settled-upsert_where_self same r rows hr)
      ∙ Settled-upsert_all_self rs rows h

  Settled-upsert_all :
      IsKey
      → (r : PlayerRating F) (rs rows : List (PlayerRating F)) → Each (IsApart r) rs
      → Settled same r rows
      → Settled same r (upsert_all rs rows)
  Settled-upsert_all key r [] rows apart h = h
  Settled-upsert_all key r (q ∷ rs) rows ((other, differs), apart) h =
      Settled-upsert_all key r rs (upsert_where same q rows) apart
        (Settled-upsert_where same r q rows other (key.keeps r q) differs h)

  upsert_all-Settled :
      IsKey
      → (rs rows : List (PlayerRating F)) → AllApart rs
      → Each (λ r. Settled same r (upsert_all rs rows)) rs
  upsert_all-Settled key [] rows apart = tt
  upsert_all-Settled key (r ∷ rs) rows (apart, h) = (
    Settled-upsert_all key r rs (upsert_where same r rows) apart
        (upsert_where-Settled same r rows (key.self r) (key.keeps r r)),
    upsert_all-Settled key rs (upsert_where same r rows) h,
  )

  -- Two lists of rows with the same keys and values, one by one.
  abbrev pub Alike : List (PlayerRating F) → List (PlayerRating F) → Type 0
  Alike [] [] = Unit
  Alike (r ∷ rs) (q ∷ qs) =
      ((row : PlayerRating F) → (same q row ≡ same r row) × (rated_as q row ≡ rated_as r row))
      × Alike rs qs
  Alike _ _ = ⊥

  any-Alike :
      (r q : PlayerRating F) (rows : List (PlayerRating F))
      → ((row : PlayerRating F) → (same q row ≡ same r row) × (rated_as q row ≡ rated_as r row))
      → any (same q) rows ≡ any (same r) rows
  unfolding any
  any-Alike r q [] alike = refl
  any-Alike r q (row ∷ rows) alike = ground (arith, (alike row).0, any-Alike r q rows alike)

  Each-Alike :
      (r q : PlayerRating F) (rows : List (PlayerRating F))
      → ((row : PlayerRating F) → (same q row ≡ same r row) × (rated_as q row ≡ rated_as r row))
      → Each (λ row. same r row ≡ true → rated_as r row ≡ row) rows
      → Each (λ row. same q row ≡ true → rated_as q row ≡ row) rows
  Each-Alike r q [] alike h = tt
  Each-Alike r q (row ∷ rows) alike (hr, h) =
      ((λ e. (alike row).1 ∙ hr (sym (alike row).0 ∙ e)), Each-Alike r q rows alike h)

  all-Alike :
      (rs qs rows : List (PlayerRating F))
      → Alike rs qs
      → Each (λ r. Settled same r rows) rs
      → Each (λ q. Settled same q rows) qs
  all-Alike [] [] rows alike h = tt
  all-Alike (r ∷ rs) (q ∷ qs) rows (alike, others) ((there, valued), h) = (
    (any-Alike r q rows alike ∙ there, Each-Alike r q rows alike valued),
    all-Alike rs qs rows others h,
  )
  all-Alike _ _ rows alike h = absurd alike

  -- Once the rows are there, upserts of the same keys and values change nothing.
  pub upsert_all_again :
      IsKey
      → (rs qs rows : List (PlayerRating F)) → AllApart rs
      → Alike rs qs
      → upsert_all qs (upsert_all rs rows) ≡ upsert_all rs rows
  upsert_all_again key rs qs rows apart alike =
      Settled-upsert_all_self qs (upsert_all rs rows)
        (all-Alike rs qs (upsert_all rs rows) alike (upsert_all-Settled key rs rows apart))

  -- A query that is blind to the keys of the rows does not see their upserts.
  abbrev pub IsBlind : (PlayerRating F → Bool) → PlayerRating F → Type 0
  IsBlind p r =
      ((row : PlayerRating F) → same r row ≡ true → (p row ≡ false) × (p (rated_as r row) ≡ false))
      × (p r ≡ false)

  pub select-upsert_all :
      (p : PlayerRating F → Bool) (rs rows : List (PlayerRating F))
      → Each (IsBlind p) rs
      → select p (upsert_all rs rows) ≡ select p rows
  select-upsert_all p [] rows h = refl
  select-upsert_all p (r ∷ rs) rows ((blind, self), h) =
      select-upsert_all p rs (upsert_where same r rows) h
      ∙ select-upsert_where same r p (λ row e. (blind row e).0) (λ row e. (blind row e).1) self rows
