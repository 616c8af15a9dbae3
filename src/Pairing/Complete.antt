-- ===== src/Pairing/Complete.antt =====
-- `getOverlappingRanges` of back_pair_players.go leaves out no two players whose ranges overlap.
use mathlib.Core.List.Perm
use mathlib.Core.Option.{some-injective}
use kaepora.Base.{
  ℕ, zero, suc, ◌+◌, ◌<◌, ◌≡◌, ◌≢◌, refl, ap, subst, sym, ◌∙◌, inl, inr, List, [], ◌∷◌, some, Bool,
  true, false, ◌||◌, ◌==◌, Bool-cases, arith,
}
use kaepora.Base.Lists.{get_elem?, has, Each}
use kaepora.Base.Perm.{All, Every, All-perm, All-head, All-tail}
use kaepora.Rating.{Player}
use kaepora.Pairing.{
  Platform, RangeEntry, PlayerRange, overlapping_entries, dist_less, entries_less, ranges_from,
  get_overlapping_ranges, index_of, unmatched_from,
}
use kaepora.Pairing.Ranges.{Overlap, overlap, disjoint, EndsAt, EndsAt-tail, EndsAt-head}

-- Every entry of the range, or the player whom it is about, is matched.
abbrev pub IsServed : List ℕ → PlayerRange → Type 0
IsServed matched r = Every (λ e. has r.player_index matched || has e.player_index matched) r.entries

module _ {F : Type 0} (platform : Platform F) where
  open platform use {float}

  -- What a test of the entries says of the entry for a player whose range overlaps.
  record Located (b : RangeEntry → Bool) (i j : ℕ) (entries : List RangeEntry) : Type 0 where
    entry : RangeEntry
    index : entry.player_index ≡ j
    holds : b entry ≡ true
    own_index : index_of i entries ≡ i

  located :
      (b : RangeEntry → Bool) (i : ℕ) (p q : Player F) (j k : ℕ) (l : List (Player F))
      → get_elem? l k ≡ some q
      → i ≢ j + k
      → overlap platform p q ≡ true
      → Every b (overlapping_entries platform i p j l)
      → Located b i (j + k) (overlapping_entries platform i p j l)
  unfolding overlapping_entries
  located b i p q j k [] g other near h = absurd (cc)
  located b i p q j zero (x ∷ l) g other near h =
      let e : x ≡ q = some-injective _ _ g in
      let apart : (i == j) ≡ false = ground arith in
      let meets : disjoint platform p x ≡ false =
        ground (arith, ap (disjoint platform p) e, near) in
      rw (apart, meets)
        (record {
          entry = _;
          index = omega arith;
          holds = All-head (λ y. b y ≡ true) (rw (apart, meets) at h);
          own_index = refl;
        })
  located b i p q j (suc k) (x ∷ l) g other near h =
      let deeper : Every b (overlapping_entries platform i p (suc j) l)
          → Located b i (j + suc k) (overlapping_entries platform i p (suc j) l) =
        λ t.
          subst (λ n. Located b i n (overlapping_entries platform i p (suc j) l)) (omega arith)
            (located b i p q (suc j) k l g (λ e. other (omega arith)) near t) in
      elim (Bool-cases (i == j)) [
        | inl same ↦ rw same (deeper (rw same at h))
        | inr apart ↦ elim (Bool-cases (disjoint platform p x)) [
          | inl far ↦ rw (apart, far) (deeper (rw (apart, far) at h))
          | inr meets ↦
              let rest = deeper (All-tail (λ y. b y ≡ true) (rw (apart, meets) at h)) in
              rw (apart, meets)
                (record {
                  entry = rest.entry;
                  index = rest.index;
                  holds = rest.holds;
                  own_index = refl;
                })
        ]
      ]

  -- Two players whose ranges overlap: one of them is matched.
  abbrev OneOf : List ℕ → ℕ → ℕ → Type 0
  OneOf matched i j = (has i matched || has j matched) ≡ true

  IsServed-OneOf :
      (players : List (Player F)) (matched : List ℕ) (i j : ℕ) (p q : Player F)
      → get_elem? players j ≡ some q
      → i ≢ j
      → overlap platform p q ≡ true
      → IsServed matched (record {
        player_index = index_of i (overlapping_entries platform i p 0 players);
        entries =
            platform.range_entries.sort dist_less (overlapping_entries platform i p 0 players);
      })
      → OneOf matched i j
  IsServed-OneOf players matched i j p q at_j other near h =
      let entries = overlapping_entries platform i p 0 players in
      let own = index_of i entries in
      let test : RangeEntry → Bool = λ e. has own matched || has e.player_index matched in
      let unsorted : Every test entries =
        All-perm (λ e. test e ≡ true)
          (Perm.symm (platform.range_entries.sort-perm dist_less entries)) h in
      let found = located test i p q 0 j players at_j (λ e. other (omega arith)) near unsorted in
      ap2 (λ a b. has a matched || has b matched) (sym found.own_index)
        (sym (found.index ∙ omega arith))
      ∙ found.holds
    where
      ap2 :
          {A B C : Type 0} (f : A → B → C) {a a' : A} {b b' : B} → a ≡ a' → b ≡ b' → f a b ≡ f a' b'
      ap2 f e e' = cc

  ranges_from-OneOf :
      (players : List (Player F)) (matched : List ℕ) (i j k : ℕ) (l : List (Player F))
      (p q : Player F)
      → get_elem? l k ≡ some p
      → get_elem? players j ≡ some q
      → i + k ≢ j
      → overlap platform p q ≡ true
      → All (IsServed matched) (ranges_from platform players i l)
      → OneOf matched (i + k) j
  unfolding ranges_from
  ranges_from-OneOf players matched i j k [] p q g at_j other near h = cc
  ranges_from-OneOf players matched i j zero (x ∷ l) p q g at_j other near h =
      subst (λ n. OneOf matched n j) (omega arith)
        (IsServed-OneOf players matched i j x q at_j (λ e. other (omega arith))
          (ap (λ y. overlap platform y q) (some-injective _ _ g) ∙ near)
          (All-head (IsServed matched) h))
  ranges_from-OneOf players matched i j (suc k) (x ∷ l) p q g at_j other near h =
      subst (λ n. OneOf matched n j) (omega arith)
        (ranges_from-OneOf players matched (suc i) j k l p q g at_j (λ e. other (omega arith)) near
          (All-tail (IsServed matched) h))

  overlapping_served :
      (players : List (Player F)) (matched : List ℕ) (i j : ℕ) (p q : Player F)
      → All (IsServed matched) (get_overlapping_ranges platform players)
      → get_elem? players i ≡ some p
      → get_elem? players j ≡ some q
      → i ≢ j
      → Overlap platform p q
      → OneOf matched i j
  unfolding get_overlapping_ranges
  overlapping_served players matched i j p q h at_i at_j other near =
      let zero_plus : 0 + i ≡ i = omega arith in
      subst (λ n. OneOf matched n j) zero_plus
        (ranges_from-OneOf players matched 0 j i players p q at_i at_j (λ e. other (omega arith))
          (ground arith)
          (All-perm (IsServed matched)
            (Perm.symm (
              platform.player_ranges.sort-perm entries_less
                (ranges_from platform players 0 players)))
            h))

  -- No two players of a list have ranges that overlap.
  abbrev pub AreFar : List (Player F) → Type 0
  AreFar [] = Unit
  AreFar (p ∷ l) = Each (λ q. ¬ Overlap platform p q) l × AreFar l

  module _ (players : List (Player F)) (matched : List ℕ)
      (served : All (IsServed matched) (get_overlapping_ranges platform players)) where
    far_from :
        (i : ℕ) (p : Player F)
        → get_elem? players i ≡ some p
        → has i matched ≡ false
        → (j : ℕ) (l : List (Player F)) → i < j
        → EndsAt platform players j l
        → Each (λ q. ¬ Overlap platform p q) (unmatched_from matched j l)
    unfolding unmatched_from
    far_from i p at_i free j [] behind ends = tt
    far_from i p at_i free j (x ∷ l) behind ends =
        let rest =
          far_from i p at_i free (suc j) l (omega arith)
            (EndsAt-tail platform players j x l ends) in
        elim (Bool-cases (has j matched)) [
          | inl old ↦ rw old rest
          | inr new ↦ rw new (
            (λ near.
                let one : OneOf matched i j =
                  overlapping_served players matched i j p x served at_i
                    (EndsAt-head platform players j x l ends) (λ e. omega arith) near in
                absurd (ground arith)),
            rest,
          )
        ]

    unmatched_from-AreFar :
        (j : ℕ) (l : List (Player F))
        → EndsAt platform players j l
        → AreFar (unmatched_from matched j l)
    unfolding unmatched_from
    unmatched_from-AreFar j [] ends = tt
    unmatched_from-AreFar j (x ∷ l) ends =
        let rest = unmatched_from-AreFar (suc j) l (EndsAt-tail platform players j x l ends) in
        elim (Bool-cases (has j matched)) [
          | inl old ↦ rw old rest
          | inr new ↦ rw new (
            far_from j x (EndsAt-head platform players j x l ends) new (suc j) l (omega arith)
                (EndsAt-tail platform players j x l ends),
            rest,
          )
        ]

    -- Once every range has been served, no two of the players who are left have ranges that
    -- overlap.
    pub left-AreFar : AreFar (unmatched_from matched 0 players)
    left-AreFar = unmatched_from-AreFar 0 players (λ k. ap (get_elem? players) (omega arith))
