-- ===== src/Pairing/Ranges.antt =====
-- `getOverlappingRanges` of back_pair_players.go: what its entries name.
use mathlib.Core.List.{Perm}
use kaepora.Base.{
  ℕ, suc, ◌+◌, ◌≡◌, ◌≢◌, refl, subst, ap, inl, inr, List, [], ◌∷◌, some, none, Option, Bool, true,
  false, not, ◌&&◌, ◌||◌, ◌==◌, Bool-cases, arith,
}
use kaepora.Base.Int.{ltb_ℤ, ◌≤ℤ◌}
use kaepora.Base.Lists.{get_elem?}
use kaepora.Base.Perm.{All, All-perm, Every, Every-nil, Every-cons, Every-prop, All-nil, All-cons}
use kaepora.Rating.{Player, range}
use kaepora.Pairing.{
  Platform, RangeEntry, PlayerRange, overlapping_entries, dist_less, entries_less, ranges_from,
  get_overlapping_ranges, index_of,
}

module _ {F : Type 0} (platform : Platform F) where
  open platform use {float}

  -- The two players may have the same true rating.
  abbrev pub Overlap : Player F → Player F → Type 0
  Overlap p q =
      ((range float q.rating).0 ≤ℤ (range float p.rating).1)
      × ((range float p.rating).0 ≤ℤ (range float q.rating).1)

  abbrev pub disjoint : Player F → Player F → Bool
  disjoint p q =
      ltb_ℤ (range float p.rating).1 (range float q.rating).0
      || ltb_ℤ (range float q.rating).1 (range float p.rating).0

  abbrev pub overlap : Player F → Player F → Bool
  overlap p q = not (disjoint p q)

  abbrev overlap_at : Option (Player F) → Option (Player F) → Bool
  overlap_at (some p) (some q) = overlap p q
  overlap_at _ _ = false

  -- An entry of player `i` names another player, whose range overlaps.
  abbrev pub is_entry : List (Player F) → ℕ → RangeEntry → Bool
  is_entry players i e =
      not (i == e.player_index)
      && overlap_at (get_elem? players i) (get_elem? players e.player_index)

  -- The same of an entry that was read.
  pub record IsEntry (players : List (Player F)) (i : ℕ) (e : RangeEntry) : Type 0 where
    pub player : Player F
    pub opponent : Player F
    pub at_player : get_elem? players i ≡ some player
    pub at_opponent : get_elem? players e.player_index ≡ some opponent
    pub others : i ≢ e.player_index
    pub overlapping : Overlap player opponent

  IsEntry-IsEntry_at :
      (players : List (Player F)) (i : ℕ) (e : RangeEntry) (o o' : Option (Player F))
      → get_elem? players i ≡ o
      → get_elem? players e.player_index ≡ o'
      → (not (i == e.player_index) && overlap_at o o') ≡ true
      → IsEntry players i e
  IsEntry-IsEntry_at players i e (some p) (some q) g g' h = record {
    player = p;
    opponent = q;
    at_player = g;
    at_opponent = g';
    others = ground arith;
    overlapping = ground arith;
  }
  IsEntry-IsEntry_at players i e none q g g' h = absurd (ground arith)
  IsEntry-IsEntry_at players i e (some p) none g g' h = absurd (ground arith)

  pub is_entry-IsEntry :
      (players : List (Player F)) (i : ℕ) (e : RangeEntry)
      → is_entry players i e ≡ true
      → IsEntry players i e
  is_entry-IsEntry players i e h = IsEntry-IsEntry_at players i e _ _ refl refl h

  -- `l` is the end of `players` from index `j` on.
  abbrev pub EndsAt : List (Player F) → ℕ → List (Player F) → Type 0
  EndsAt players j l = (k : ℕ) → get_elem? players (j + k) ≡ get_elem? l k

  pub EndsAt-tail :
      (players : List (Player F)) (j : ℕ) (x : Player F) (l : List (Player F))
      → EndsAt players j (x ∷ l)
      → EndsAt players (suc j) l
  EndsAt-tail players j x l h k =
      subst (λ n. get_elem? players n ≡ get_elem? l k) (omega arith) (h (suc k))

  pub EndsAt-head :
      (players : List (Player F)) (j : ℕ) (x : Player F) (l : List (Player F))
      → EndsAt players j (x ∷ l)
      → get_elem? players j ≡ some x
  EndsAt-head players j x l h = subst (λ n. get_elem? players n ≡ some x) (omega arith) (h 0)

  overlapping_entries-Every :
      (players : List (Player F)) (i : ℕ) (p : Player F)
      → get_elem? players i ≡ some p
      → (j : ℕ) (l : List (Player F)) → EndsAt players j l
      → Every (is_entry players i) (overlapping_entries platform i p j l)
  unfolding overlapping_entries
  overlapping_entries-Every players i p g j [] h = Every-nil _
  overlapping_entries-Every players i p g j (q ∷ l) h =
      let rest = overlapping_entries-Every players i p g (suc j) l (EndsAt-tail players j q l h) in
      elim (Bool-cases (i == j)) [
        | inl same ↦ rw same rest
        | inr other ↦ elim (Bool-cases (disjoint p q)) [
          | inl apart ↦ rw (other, apart) rest
          | inr near ↦
              rw (other, near)
                (Every-cons _ _ _ (rw (g, EndsAt-head players j q l h, other, near)) rest)
        ]
      ]

  abbrev pub IsRange : List (Player F) → PlayerRange → Type 0
  IsRange players r = Every (is_entry players r.player_index) r.entries

  -- The index is the player's own where there is an entry to be read.
  index_of-Every :
      (players : List (Player F)) (i : ℕ) (entries l : List RangeEntry)
      → Perm l entries
      → Every (is_entry players i) entries
      → IsRange players (record { player_index = index_of i entries; entries = l })
  index_of-Every players i [] l p h = All-perm _ p (Every-nil _)
  index_of-Every players i (e ∷ entries) l p h = All-perm _ p h

  ranges_from-IsRange :
      (players : List (Player F)) (i : ℕ) (l : List (Player F))
      → EndsAt players i l
      → All (IsRange players) (ranges_from platform players i l)
  unfolding ranges_from
  ranges_from-IsRange players i [] h = All-nil _
  ranges_from-IsRange players i (p ∷ l) h =
      All-cons (IsRange players) _ _ (λ r. Every-prop (is_entry players r.player_index) r.entries)
        (index_of-Every players i (overlapping_entries platform i p 0 players) _
          (platform.range_entries.sort-perm dist_less _)
          (overlapping_entries-Every players i p (EndsAt-head players i p l h) 0 players
            (λ k. ap (get_elem? players) (omega arith))))
        (ranges_from-IsRange players (suc i) l (EndsAt-tail players i p l h))

  -- Every entry of every range names another player, whose range overlaps that of the player whom
  -- the range is about.
  pub get_overlapping_ranges-IsRange :
      (players : List (Player F)) → All (IsRange players) (get_overlapping_ranges platform players)
  unfolding get_overlapping_ranges
  get_overlapping_ranges-IsRange players =
      All-perm (IsRange players) (platform.player_ranges.sort-perm entries_less _)
        (ranges_from-IsRange players 0 players (λ k. ap (get_elem? players) (omega arith)))
