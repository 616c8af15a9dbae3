-- ===== src/Pairing/Picks.antt =====
-- The players that the map of matched indices leaves over, in `rangedPairPlayers`.
use mathlib.Core.List.{Perm}
use mathlib.Core.List.Perm
use kaepora.Base.{
  ℕ, zero, suc, ◌+◌, ◌<◌, ◌≡◌, ◌≢◌, refl, ap, inl, inr, List, [], ◌∷◌, some, true, false,
  Bool-cases, arith,
}
use mathlib.Core.Option.{some-injective}
use kaepora.Base.Lists.{get_elem?, has}
use kaepora.Pairing.{unmatched_from}

pub has-cons_self : (i j : ℕ) (m : List ℕ) → i ≡ j → has j (i ∷ m) ≡ true
unfolding has
has-cons_self i j m e = ground arith

pub has-cons_ne : (i j : ℕ) (m : List ℕ) → i ≢ j → has j (i ∷ m) ≡ has j m
unfolding has
has-cons_ne i j m h = ground arith

has-cons_lt : (i j : ℕ) (m : List ℕ) → j < i → has j (i ∷ m) ≡ has j m
unfolding has
has-cons_lt i j m h = ground arith

module _ {A : Type 0} where
  pub unmatched_from-nil : (j : ℕ) (l : List A) → unmatched_from [] j l ≡ l
  unfolding unmatched_from has
  unmatched_from-nil j [] = refl
  unmatched_from-nil j (x ∷ l) = ap (λ r. x ∷ r) (unmatched_from-nil (suc j) l)

  unmatched_from-below :
      (i j : ℕ) (m : List ℕ) (l : List A)
      → i < j
      → unmatched_from (i ∷ m) j l ≡ unmatched_from m j l
  unfolding unmatched_from has
  unmatched_from-below i j m [] h = refl
  unmatched_from-below i j m (x ∷ l) h =
      ground (arith, unmatched_from-below i (suc j) m l (omega arith))

  take_off :
      (i j k : ℕ) (m : List ℕ) (l : List A) {x : A}
      → i ≡ j + k
      → get_elem? l k ≡ some x
      → has i m ≡ false
      → Perm (x ∷ unmatched_from (i ∷ m) j l) (unmatched_from m j l)
  unfolding unmatched_from
  take_off i j k m [] e g h = cc
  take_off i j zero m (y ∷ l) {x} e g h =
      let here : i ≡ j = omega arith in
      rw
        (
          has-cons_self i j m here,
          rw here at h,
          unmatched_from-below i (suc j) m l (omega arith),
          some-injective _ _ g,
        )
        (Perm.refl (x ∷ unmatched_from m (suc j) l))
  take_off i j (suc k) m (y ∷ l) {x} e g h = elim (Bool-cases (has j m)) [
    | inl old ↦
        rw (has-cons_lt i j m (omega arith), old) (take_off i (suc j) k m l (omega arith) g h)
    | inr new ↦
        rw (has-cons_lt i j m (omega arith), new)
          (Perm.trans (Perm.swap _ _ _) (Perm.cons y (take_off i (suc j) k m l (omega arith) g h)))
  ]

  -- One more matched player is one player fewer to match.
  pub unmatched_from-cons :
      (i : ℕ) (m : List ℕ) (l : List A) {x : A}
      → get_elem? l i ≡ some x
      → has i m ≡ false
      → Perm (x ∷ unmatched_from (i ∷ m) 0 l) (unmatched_from m 0 l)
  unmatched_from-cons i m l g h = take_off i 0 i m l (omega arith) g h
