-- ===== src/Pairing/Near.antt =====
-- What `orderedRandomPairPlayers` promises: a relation between a sorted list of players and its
-- pairs, in which each player is drawn from the list, and the opponent from near the same place
-- in what is left.
use mathlib.Core.List.{Perm}
use mathlib.Core.List.Perm
use mathlib.Core.Option.{some-injective}
use kaepora.Base.{
  ℕ, zero, suc, ◌+◌, ◌*◌, ◌≤◌, ◌<◌, ◌≡◌, refl, ap, subst, List, [], ◌∷◌, ◌++◌, some, arith,
}
use kaepora.Base.Lists.{length, get_elem?, erase_idx}
use kaepora.Rating.{Player}
use kaepora.Pairing.{Pair}

pub data NearPairing {F : Type 0} (delta : ℕ) : List (Player F) → List (Pair F) → Type 0 where
  done : NearPairing delta [] []
  pair :
      {l : List (Player F)} {pairs : List (Pair F)} (i j : ℕ) (p q : Player F)
      → get_elem? l i ≡ some p
      → get_elem? (erase_idx l i) j ≡ some q
      → j ≤ i + delta
      → i ≤ j + delta
      → NearPairing delta (erase_idx (erase_idx l i) j) pairs
      → NearPairing delta l (record { p1 = p; p2 = q } ∷ pairs)

-- Everybody who is paired, in order.
abbrev pub players_of : {F : Type 0} → List (Pair F) → List (Player F)
players_of [] = []
players_of (p ∷ pairs) = p.p1 ∷ p.p2 ∷ players_of pairs

pub length-players_of :
    {F : Type 0} (pairs : List (Pair F)) → length (players_of pairs) ≡ 2 * length pairs
length-players_of [] = refl
length-players_of (p ∷ pairs) = omega (arith, length-players_of pairs)

pub players_of-append :
    {F : Type 0} (xs ys : List (Pair F)) → players_of (xs ++ ys) ≡ players_of xs ++ players_of ys
players_of-append [] ys = refl
players_of-append (x ∷ xs) ys = ap (λ l. x.p1 ∷ x.p2 ∷ l) (players_of-append xs ys)

module _ {A : Type 0} where
  pub erase_idx-perm :
      (l : List A) (i : ℕ) {a : A} → get_elem? l i ≡ some a → Perm (a ∷ erase_idx l i) l
  erase_idx-perm [] i e = cc
  erase_idx-perm (x ∷ l) zero e =
      subst (λ a. Perm (a ∷ l) (x ∷ l)) (some-injective _ _ e) (Perm.refl (x ∷ l))
  erase_idx-perm (x ∷ l) (suc i) e =
      Perm.trans (Perm.swap _ _ _) (Perm.cons x (erase_idx-perm l i e))

  pub length-erase_idx :
      (l : List A) (i : ℕ) → i < length l → suc (length (erase_idx l i)) ≡ length l
  length-erase_idx [] i h = absurd (omega arith)
  length-erase_idx (x ∷ l) zero h = refl
  length-erase_idx (x ∷ l) (suc i) h = omega (arith, length-erase_idx l i (omega arith))

  pub get_elem?-some : (l : List A) (i : ℕ) → i < length l → (a : A) × (get_elem? l i ≡ some a)
  get_elem?-some [] i h = absurd (omega arith)
  get_elem?-some (x ∷ l) zero h = (x, refl)
  get_elem?-some (x ∷ l) (suc i) h = get_elem?-some l i (omega arith)

-- In such a pairing everybody is in exactly one pair.
pub NearPairing-perm :
    {F : Type 0} {delta : ℕ} {l : List (Player F)} {pairs : List (Pair F)}
    → NearPairing delta l pairs
    → Perm (players_of pairs) l
NearPairing-perm done = Perm.refl []
NearPairing-perm (pair {l} i j p q ei ej near near' rest) =
    Perm.trans
      (Perm.cons p (Perm.trans (Perm.cons q (NearPairing-perm rest)) (erase_idx-perm _ j ej)))
      (erase_idx-perm l i ei)
