-- ===== src/Store/Order.antt =====
-- `ORDER BY` orders the rows, and keeps them.
use kaepora.Base.{
  ℕ, ◌≤◌, ◌≡◌, refl, ap, subst, inl, inr, List, [], ◌∷◌, Bool, true, false, leb, leb→le, Bool-cases,
  arith,
}
use kaepora.Base.Lists.{Each, Occurs, Each-Occurs, Each-all}
use kaepora.Store.{order_by, order_with, insert_with, update_where}

module _ {κ} {A : Type 0} (P : A → Type κ) (le : A → A → Bool) where
  Each-insert_with : (a : A) (rows : List A) → P a → Each P rows → Each P (insert_with le a rows)
  Each-insert_with a [] ha h = (ha, tt)
  Each-insert_with a (b ∷ rows) ha (hb, h) = ground (arith, Each-insert_with a rows ha h)

  pub Each-order_with : (rows : List A) → Each P rows → Each P (order_with le rows)
  unfolding order_with
  Each-order_with [] h = tt
  Each-order_with (a ∷ rows) (ha, h) =
      Each-insert_with a (order_with le rows) ha (Each-order_with rows h)

-- The rows are in the order of their keys.
abbrev pub IsOrdered : {A : Type 0} → (A → ℕ) → List A → Type 0
IsOrdered key [] = Unit
IsOrdered key (a ∷ rows) = Each (λ b. key a ≤ key b) rows × IsOrdered key rows

module _ {A : Type 0} (key : A → ℕ) where
  Each-le_trans :
      (i j : ℕ) (rows : List A) → i ≤ j → Each (λ b. j ≤ key b) rows → Each (λ b. i ≤ key b) rows
  Each-le_trans i j [] le h = tt
  Each-le_trans i j (b ∷ rows) le (hb, h) = (omega arith, Each-le_trans i j rows le h)

  insert_with-IsOrdered :
      (a : A) (rows : List A)
      → IsOrdered key rows
      → IsOrdered key (insert_with (λ a b. leb (key a) (key b)) a rows)
  insert_with-IsOrdered a [] h = (tt, tt)
  insert_with-IsOrdered a (b ∷ rows) (hb, h) = elim (Bool-cases (leb (key a) (key b))) [
    | inl le ↦
        rw le ((leb→le _ _ le, Each-le_trans (key a) (key b) rows (leb→le _ _ le) hb), (hb, h))
    | inr gt ↦ rw gt (
      Each-insert_with (λ r. key b ≤ key r) (λ a b. leb (key a) (key b)) a rows (ground arith) hb,
      insert_with-IsOrdered a rows h,
    )
  ]

  pub order_by-IsOrdered : (rows : List A) → IsOrdered key (order_by key rows)
  unfolding order_with
  order_by-IsOrdered [] = tt
  order_by-IsOrdered (a ∷ rows) =
      insert_with-IsOrdered a (order_by key rows) (order_by-IsOrdered rows)

module _ {A : Type 0} (le : A → A → Bool) (x : A) where
  Occurs-insert_self : (rows : List A) → Occurs x (insert_with le x rows)
  Occurs-insert_self [] = inl refl
  Occurs-insert_self (b ∷ rows) = elim (Bool-cases (le x b)) [
    | inl before ↦ rw before (inl refl)
    | inr behind ↦ rw behind (inr (Occurs-insert_self rows))
  ]

  Occurs-insert_with : (a : A) (rows : List A) → Occurs x rows → Occurs x (insert_with le a rows)
  Occurs-insert_with a [] m = absurd m
  Occurs-insert_with a (b ∷ rows) m = elim (Bool-cases (le a b)) [
    | inl before ↦ rw before (inr m)
    | inr behind ↦ rw behind (elim m [ inl e ↦ inl e | inr t ↦ inr (Occurs-insert_with a rows t) ])
  ]

  pub Occurs-order_with : (rows : List A) → Occurs x rows → Occurs x (order_with le rows)
  unfolding order_with
  Occurs-order_with [] m = absurd m
  Occurs-order_with (a ∷ rows) (inl e) =
      subst (λ b. Occurs x (insert_with le b (order_with le rows))) e
        (Occurs-insert_self (order_with le rows))
  Occurs-order_with (a ∷ rows) (inr m) =
      Occurs-insert_with a (order_with le rows) (Occurs-order_with rows m)

pub Occurs-update_where :
    {A : Type 0} (p : A → Bool) (f : A → A) (x : A) (rows : List A)
    → p x ≡ true
    → Occurs x rows
    → Occurs (f x) (update_where p f rows)
unfolding update_where
Occurs-update_where p f x [] px m = absurd m
Occurs-update_where p f x (a ∷ rows) px (inl e) = inl (ground (arith, ap p e))
Occurs-update_where p f x (a ∷ rows) px (inr m) = inr (Occurs-update_where p f x rows px m)

pub Occurs-update_other :
    {A : Type 0} (p : A → Bool) (f : A → A) (x : A) (rows : List A)
    → p x ≡ false
    → Occurs x rows
    → Occurs x (update_where p f rows)
unfolding update_where
Occurs-update_other p f x [] px m = absurd m
Occurs-update_other p f x (a ∷ rows) px (inl e) = inl (ground (arith, ap p e))
Occurs-update_other p f x (a ∷ rows) px (inr m) = inr (Occurs-update_other p f x rows px m)

-- A row in order is a row.
pub Occurs-of_order :
    {A : Type 0} (le : A → A → Bool) (x : A) (rows : List A)
    → Occurs x (order_with le rows)
    → Occurs x rows
Occurs-of_order le x rows =
    Each-Occurs (λ r. Occurs r rows) x (order_with le rows)
      (Each-order_with (λ r. Occurs r rows) le rows (Each-all _ rows (λ r m. m)))
