-- ===== src/Store/Updates.antt =====
-- `UPDATE … WHERE ID = ?`: it writes the row that a query by the same key finds.
use kaepora.Base.{ℕ, ◌≡◌, refl, List, [], ◌∷◌, map, some, false, ◌==◌, ==_self, arith}
use kaepora.Base.Lists.{find, has, IsNodup, Each, Each-both}
use kaepora.Store.{update_where}

module _ {A : Type 0} (key : A → ℕ) (id : ℕ) where
  update_where-other :
      (f : A → A) (rows : List A)
      → has id (map key rows) ≡ false
      → update_where (λ r. key r == id) f rows ≡ rows
  unfolding update_where has
  update_where-other f [] h = refl
  update_where-other f (r ∷ rows) h = ground (arith, update_where-other f rows)

  -- Two updates that agree on the row that is found write the same.
  pub update_where-find :
      (f g : A → A) (rows : List A) (s : A)
      → IsNodup (map key rows)
      → find (λ r. key r == id) rows ≡ some s
      → f s ≡ g s
      → update_where (λ r. key r == id) f rows ≡ update_where (λ r. key r == id) g rows
  unfolding update_where find has
  update_where-find f g [] s nodup found same = refl
  update_where-find f g (r ∷ rows) s nodup found same = ground (
    arith,
    update_where-other f rows,
    update_where-other g rows,
    update_where-find f g rows s nodup.1,
  )

module _ {A : Type 0} (key : A → ℕ) where
  Each-ne :
      (id : ℕ) (rows : List A)
      → has id (map key rows) ≡ false
      → Each (λ s. (id == key s) ≡ false) rows
  unfolding has
  Each-ne id [] h = tt
  Each-ne id (r ∷ rows) h = (ground arith, Each-ne id rows (ground arith))

  -- Where no two rows have the same key, a row is what a query by its key finds.
  pub Each-find_self :
      (rows : List A)
      → IsNodup (map key rows)
      → Each (λ s. find (λ r. key r == key s) rows ≡ some s) rows
  unfolding find
  Each-find_self [] h = tt
  Each-find_self (r ∷ rows) (fresh, h) = (
    rw (==_self (key r)) refl,
    Each-both (λ s. (key r == key s) ≡ false) (λ s. find (λ r. key r == key s) rows ≡ some s) _
        (λ s ne e. rw ne e) rows (Each-ne (key r) rows fresh) (Each-find_self rows h),
  )

  -- An update by key that keeps the key is what a query by it finds next.
  pub find-update_where :
      (id : ℕ) (f : A → A) (rows : List A) (s : A)
      → ((r : A) → key (f r) ≡ key r)
      → find (λ r. key r == id) rows ≡ some s
      → find (λ r. key r == id) (update_where (λ r. key r == id) f rows) ≡ some (f s)
  unfolding find update_where
  find-update_where id f [] s keeps h = absurd (cc)
  find-update_where id f (r ∷ rows) s keeps h =
      ground (arith, keeps r, find-update_where id f rows s keeps)
