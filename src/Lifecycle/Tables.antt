-- ===== src/Lifecycle/Tables.antt =====
-- A loop that updates, one by one, the rows that a query has given: each of these rows is changed
-- once, and no other.
use kaepora.Base.{
  ℕ, ◌≡◌, refl, ap, ◌∙◌, List, [], ◌∷◌, map, Bool, true, false, ◌==◌, if◌then◌else◌, Bool-cases,
  inl, inr, arith,
}
use kaepora.Base.Lists.{has, select, IsNodup}
use kaepora.Store.{update_where}

module _ {A : Type 0} (key : A → ℕ) (change : A → A → A) where
  -- `change s r` is the row `r` with what an update takes from `s`.
  abbrev apply : List A → A → A
  apply [] r = r
  apply (s ∷ sel) r = apply sel (if key r == key s then change s r else r)

  -- The table after the updates.
  abbrev pub update_all : List A → List A → List A
  update_all [] rows = rows
  update_all (s ∷ sel) rows = update_all sel (update_where (λ r. key r == key s) (change s) rows)

  update_all-apply : (sel rows : List A) → update_all sel rows ≡ map (apply sel) rows
  unfolding update_where
  update_all-apply [] [] = refl
  update_all-apply [] (r ∷ rows) = ap (λ l. r ∷ l) (update_all-apply [] rows)
  update_all-apply (s ∷ sel) rows =
      update_all-apply sel (update_where (λ r. key r == key s) (change s) rows) ∙ fused rows
    where
      fused :
          (rows : List A)
          → map (apply sel) (update_where (λ r. key r == key s) (change s) rows)
            ≡ map (apply (s ∷ sel)) rows
      fused [] = refl
      fused (r ∷ rows) =
          ap (λ l. apply sel (if key r == key s then change s r else r) ∷ l) (fused rows)

  apply-other : (sel : List A) (r : A) → has (key r) (map key sel) ≡ false → apply sel r ≡ r
  unfolding has
  apply-other [] r h = refl
  apply-other (s ∷ sel) r h = ground (arith, apply-other sel r)

  module _ (keeps : (s r : A) → key (change s r) ≡ key r) where
    apply_self :
        (sel : List A) (s : A) → has (key s) (map key sel) ≡ false → apply (s ∷ sel) s ≡ change s s
    apply_self sel s fresh =
        ground (
          arith,
          keeps s s,
          apply-other sel (change s s),
          ap (λ k. has k (map key sel)) (keeps s s),
        )

    has-select :
        (p : A → Bool) (k : ℕ) (rows : List A)
        → has k (map key rows) ≡ false
        → has k (map key (select p rows)) ≡ false
    unfolding has select
    has-select p k [] h = refl
    has-select p k (r ∷ rows) h = ground (arith, has-select p k rows)

    map-skip :
        (sel rows : List A) (s : A)
        → has (key s) (map key rows) ≡ false
        → map (apply (s ∷ sel)) rows ≡ map (apply sel) rows
    unfolding has
    map-skip sel [] s h = refl
    map-skip sel (r ∷ rows) s h = ground (arith, map-skip sel rows s)

    select-true :
        (p : A → Bool) (r : A) (rows : List A)
        → p r ≡ true
        → select p (r ∷ rows) ≡ r ∷ select p rows
    unfolding select
    select-true p r rows e = rw e refl

    select-false :
        (p : A → Bool) (r : A) (rows : List A) → p r ≡ false → select p (r ∷ rows) ≡ select p rows
    unfolding select
    select-false p r rows e = rw e refl

    map-selected :
        (p : A → Bool) (rows : List A)
        → IsNodup (map key rows)
        → map (apply (select p rows)) rows ≡ map (λ r. if p r then change r r else r) rows
    map-selected p [] h = refl
    map-selected p (r ∷ rows) (fresh, nodup) = elim (Bool-cases (p r)) [
      | inl taken ↦
          ap (λ l. map (apply l) (r ∷ rows)) (select-true p r rows taken)
          ∙ cc (
            apply_self (select p rows) r (has-select p (key r) rows fresh),
            map-skip (select p rows) rows r fresh,
            map-selected p rows nodup,
          )
      | inr passed ↦
          ap (λ l. map (apply l) (r ∷ rows)) (select-false p r rows passed)
          ∙ cc (
            apply-other (select p rows) r (has-select p (key r) rows fresh),
            map-selected p rows nodup,
          )
    ]

    -- Where no two rows have the same key, the updates of the selected rows change those rows,
    -- each by its own update, and no other.
    pub update_all-select :
        (p : A → Bool) (rows : List A)
        → IsNodup (map key rows)
        → update_all (select p rows) rows ≡ map (λ r. if p r then change r r else r) rows
    update_all-select p rows nodup =
        update_all-apply (select p rows) rows ∙ map-selected p rows nodup
