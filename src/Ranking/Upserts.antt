-- ===== src/Ranking/Upserts.antt =====
-- `INSERT … ON CONFLICT` on the tables of the ratings.
use kaepora.Base.{
  ◌∙◌, ◌≡◌, refl, List, [], ◌∷◌, ◌++◌, Bool, true, false, Bool-cases, inl, inr, arith,
}
use kaepora.Base.Lists.{select, any, any-append, Each, Each-append}
use kaepora.Rating.{PlayerRating}
use kaepora.Store.{update_where}
use kaepora.Ranking.Ratings.{upsert_where}

module _ {F : Type 0} where
  -- A row with the rating of another one.
  abbrev pub rated_as : PlayerRating F → PlayerRating F → PlayerRating F
  rated_as r row = record row {
    rating = r.rating;
    deviation = r.deviation;
    volatility = r.volatility;
  }

  -- The row that an upsert writes is there, with its values.
  abbrev pub Settled :
      (PlayerRating F → PlayerRating F → Bool) → PlayerRating F → List (PlayerRating F) → Type 0
  Settled same r rows =
      (any (same r) rows ≡ true) × Each (λ row. same r row ≡ true → rated_as r row ≡ row) rows

module _ {F : Type 0} (same : PlayerRating F → PlayerRating F → Bool) (r : PlayerRating F) where
  update_where-settled :
      (rows : List (PlayerRating F))
      → Each (λ row. same r row ≡ true → rated_as r row ≡ row) rows
      → update_where (same r) (rated_as r) rows ≡ rows
  unfolding update_where
  update_where-settled [] h = refl
  update_where-settled (row ∷ rows) (hr, h) = elim (Bool-cases (same r row)) [
    | inl here ↦ ground (arith, hr here, update_where-settled rows h)
    | inr other ↦ ground (arith, update_where-settled rows h)
  ]

  pub Settled-upsert_where_self :
      (rows : List (PlayerRating F)) → Settled same r rows → upsert_where same r rows ≡ rows
  unfolding upsert_where
  Settled-upsert_where_self rows (there, h) = ground (arith, update_where-settled rows h)

  -- A query that a row of the key is never an answer of does not see an upsert.
  module _ (q : PlayerRating F → Bool)
      (blind : (row : PlayerRating F) → same r row ≡ true → q row ≡ false)
      (blind_after : (row : PlayerRating F) → same r row ≡ true → q (rated_as r row) ≡ false)
      (self : q r ≡ false) where
    select-update_where :
        (rows : List (PlayerRating F))
        → select q (update_where (same r) (rated_as r) rows) ≡ select q rows
    unfolding select update_where
    select-update_where [] = refl
    select-update_where (row ∷ rows) = elim (Bool-cases (same r row)) [
      | inl here ↦ ground (arith, blind row here, blind_after row here, select-update_where rows)
      | inr other ↦ ground (arith, select-update_where rows)
    ]

    select-more : (rows : List (PlayerRating F)) → select q (rows ++ r ∷ []) ≡ select q rows
    unfolding select
    select-more [] = ground arith
    select-more (row ∷ rows) = ground (arith, select-more rows)

    pub select-upsert_where :
        (rows : List (PlayerRating F)) → select q (upsert_where same r rows) ≡ select q rows
    unfolding upsert_where
    select-upsert_where rows = ground (arith, select-update_where rows, select-more rows)

module _ {F : Type 0} (same : PlayerRating F → PlayerRating F → Bool) where
  any-update_where :
      (p : PlayerRating F → Bool) (r : PlayerRating F) (rows : List (PlayerRating F))
      → ((row : PlayerRating F) → p (rated_as r row) ≡ p row)
      → any p (update_where (same r) (rated_as r) rows) ≡ any p rows
  unfolding any update_where
  any-update_where p r [] keeps = refl
  any-update_where p r (row ∷ rows) keeps =
      ground (arith, keeps row, any-update_where p r rows keeps)

  changed :
      (r : PlayerRating F) (rows : List (PlayerRating F))
      → ((row : PlayerRating F) → same r (rated_as r row) ≡ same r row)
      → Each
          (λ row. same r row ≡ true → rated_as r row ≡ row)
          (update_where (same r) (rated_as r) rows)
  unfolding update_where
  changed r [] keeps = tt
  changed r (row ∷ rows) keeps = elim (Bool-cases (same r row)) [
    | inl here ↦ rw here ((λ h. refl), changed r rows keeps)
    | inr other ↦ rw other ((λ h. absurd (ground arith)), changed r rows keeps)
  ]

  others :
      (r : PlayerRating F) (rows : List (PlayerRating F))
      → any (same r) rows ≡ false
      → Each (λ row. same r row ≡ true → rated_as r row ≡ row) rows
  unfolding any
  others r [] missing = tt
  others r (row ∷ rows) missing = ((λ h. absurd (ground arith)), others r rows (ground arith))

  -- An upsert leaves its own row, with its values.
  pub upsert_where-Settled :
      (r : PlayerRating F) (rows : List (PlayerRating F))
      → same r r ≡ true
      → ((row : PlayerRating F) → same r (rated_as r row) ≡ same r row)
      → Settled same r (upsert_where same r rows)
  unfolding upsert_where any
  upsert_where-Settled r rows self keeps = elim (Bool-cases (any (same r) rows)) [
    | inl there ↦ rw there (any-update_where (same r) r rows keeps ∙ there, changed r rows keeps)
    | inr missing ↦ rw missing (
      ground (arith, any-append (same r) rows (r ∷ [])),
      Each-append _ rows (r ∷ []) (others r rows missing) ((λ h. refl), tt),
    )
  ]

  unchanged :
      (r q : PlayerRating F) (rows : List (PlayerRating F))
      → ((row : PlayerRating F) → same q row ≡ true → same r row ≡ false)
      → ((row : PlayerRating F) → same r (rated_as q row) ≡ same r row)
      → Each (λ row. same r row ≡ true → rated_as r row ≡ row) rows
      → Each
          (λ row. same r row ≡ true → rated_as r row ≡ row)
          (update_where (same q) (rated_as q) rows)
  unfolding update_where
  unchanged r q [] apart keeps h = tt
  unchanged r q (row ∷ rows) apart keeps (hr, h) = elim (Bool-cases (same q row)) [
    | inl here ↦ rw here (
      (λ e. absurd (ground (arith, apart row here, keeps row))),
      unchanged r q rows apart keeps h,
    )
    | inr other ↦ rw other (hr, unchanged r q rows apart keeps h)
  ]

  -- An upsert of another key leaves a settled row as it is.
  pub Settled-upsert_where :
      (r q : PlayerRating F) (rows : List (PlayerRating F))
      → ((row : PlayerRating F) → same q row ≡ true → same r row ≡ false)
      → ((row : PlayerRating F) → same r (rated_as q row) ≡ same r row)
      → same r q ≡ false
      → Settled same r rows
      → Settled same r (upsert_where same q rows)
  unfolding upsert_where any
  Settled-upsert_where r q rows apart keeps other (there, h) =
      elim (Bool-cases (any (same q) rows)) [
        | inl found ↦
            rw found
              (any-update_where (same r) q rows keeps ∙ there, unchanged r q rows apart keeps h)
        | inr missing ↦ rw missing (
          ground (arith, any-append (same r) rows (q ∷ [])),
          Each-append _ rows (q ∷ []) h ((λ e. absurd (ground arith)), tt),
        )
      ]
