-- ===== src/Pairing/Matched.antt =====
-- The loop of `rangedPairPlayers` of back_pair_players.go over the ranges: each takes a pair of
-- players with overlapping ranges off those who are left.
use mathlib.Core.List.{Perm}
use mathlib.Core.List.Perm
use kaepora.Base.{
  ==_self, ◌||◌, true, false, ℕ, ◌<◌, ◌≡◌, refl, ◌∙◌, inl, inr, List, [], ◌∷◌, ◌++◌, some, none,
  Option, false, not, ◌==◌, Bool-cases, arith,
}
use kaepora.Base.Int.{pos}
use kaepora.Base.Lists.{select, get_elem?, length, has}
use kaepora.Pairing.Complete.{IsServed}
use kaepora.Base.Perm.{
  Every, Every-nil, Every-cons, Every-prop, All-nil, All-cons, All, All-head, All-tail,
  Every-get_elem?, Every-select,
}
use kaepora.Base.Result.{ok}
use kaepora.Base.Random.{Source, random_low_index, random_low_index-Draws}
use kaepora.Rating.{Player}
use kaepora.Pairing.{
  Pair, Platform, RangeEntry, PlayerRange, cons_some, available_entries, match_range, match_ranges,
  unmatched_from,
}
use kaepora.Pairing.Near.{players_of, get_elem?-some}
use kaepora.Pairing.Ordered.{at-pos}
use kaepora.Pairing.Picks.{unmatched_from-cons, has-cons_ne}
use kaepora.Pairing.Ranges.{Overlap, is_entry, IsEntry, is_entry-IsEntry, IsRange}

module _ {F : Type 0} (platform : Platform F) (players : List (Player F)) where
  abbrev pub left : List ℕ → List (Player F)
  left matched = unmatched_from matched 0 players

  abbrev players_of_option : Option (Pair F) → List (Player F)
  players_of_option none = []
  players_of_option (some p) = p.p1 ∷ p.p2 ∷ []

  abbrev OptionOverlap : Option (Pair F) → Type 0
  OptionOverlap none = Unit
  OptionOverlap (some p) = Overlap platform p.p1 p.p2

  -- The pairs were made of overlapping ranges.
  abbrev pub Overlapping : List (Pair F) → Type 0
  Overlapping [] = Unit
  Overlapping (p ∷ pairs) = Overlap platform p.p1 p.p2 × Overlapping pairs

  -- One range: a step that takes its pair off the players that are left.
  record MatchStep (r : PlayerRange) (matched : List ℕ) (s : Source) : Type 0 where
    made : Option (Pair F)
    matched' : List ℕ
    source : Source
    result : match_range players r matched s ≡ ok ((made, matched'), source)
    taken : Perm (players_of_option made ++ left matched') (left matched)
    overlapping : OptionOverlap made
    grows : (k : ℕ) → has k matched ≡ true → has k matched' ≡ true
    served : IsServed matched' r

  -- Where no entry is available, all are matched.
  none_available :
      (matched : List ℕ) (entries : List RangeEntry)
      → (length (available_entries matched entries) == 0) ≡ true
      → Every (λ e. has e.player_index matched) entries
  unfolding available_entries select
  none_available matched [] h = Every-nil _
  none_available matched (e ∷ entries) h = elim (Bool-cases (has e.player_index matched)) [
    | inl old ↦ Every-cons _ e entries old (none_available matched entries (rw old at h))
    | inr new ↦ absurd (ground arith)
  ]

  -- An available entry is one of the range's, and its player is not matched.
  available_entries-IsEntry :
      (r : PlayerRange) (matched : List ℕ) (k : ℕ) {e : RangeEntry}
      → IsRange platform players r
      → get_elem? (available_entries matched r.entries) k ≡ some e
      → IsEntry platform players r.player_index e × (has e.player_index matched ≡ false)
  unfolding available_entries
  available_entries-IsEntry r matched k {e} good at_k =
      let both = Every-get_elem? _ _ k at_k (
        Every-select (is_entry platform players r.player_index)
          (λ x. not (has x.player_index matched)) r.entries good) in
      (is_entry-IsEntry platform players r.player_index e (ground arith), ground arith)

  match_range-eq :
      (r : PlayerRange) (matched : List ℕ) (s s' : Source) (k : ℕ) (e : RangeEntry)
      → (entry : IsEntry platform players r.player_index e) → has r.player_index matched ≡ false
      → 0 < length (available_entries matched r.entries)
      → random_low_index (length (available_entries matched r.entries)) s ≡ ok (pos k, s')
      → get_elem? (available_entries matched r.entries) k ≡ some e
      → match_range players r matched s
        ≡ ok (
          (
            some (record { p1 = entry.player; p2 = entry.opponent }),
            e.player_index ∷ r.player_index ∷ matched,
          ),
          s',
        )
  unfolding match_range
  match_range-eq r matched s s' k e entry fresh some_available draw at_k = ground (
    arith,
    at-pos players r.player_index entry.at_player,
    at-pos (available_entries matched r.entries) k at_k,
    at-pos players e.player_index entry.at_opponent,
  )

  match_range-pick :
      (r : PlayerRange) (matched : List ℕ) (s : Source)
      → IsRange platform players r
      → has r.player_index matched ≡ false
      → 0 < length (available_entries matched r.entries)
      → MatchStep r matched s
  match_range-pick r matched s good fresh some_available =
      let available = available_entries matched r.entries in
      let (k, s', draw, bound) = random_low_index-Draws (length available) s some_available in
      let (e, at_k) = get_elem?-some available k bound in
      let (entry, free) = available_entries-IsEntry r matched k good at_k in
      record {
        made = some (record { p1 = entry.player; p2 = entry.opponent });
        matched' = e.player_index ∷ r.player_index ∷ matched;
        source = s';
        result = match_range-eq r matched s s' k e entry fresh some_available draw at_k;
        taken =
            Perm.trans
              (Perm.cons entry.player (
                unmatched_from-cons e.player_index (r.player_index ∷ matched) players
                  entry.at_opponent (has-cons_ne _ _ matched entry.others ∙ free)))
              (unmatched_from-cons r.player_index matched players entry.at_player fresh);
        overlapping = entry.overlapping;
        grows = λ k old. unfold has in ground arith;
        served = λ x m. unfold has in ground (arith, ==_self r.player_index);
      }

  match_range-skip :
      (r : PlayerRange) (matched : List ℕ) (s : Source)
      → match_range players r matched s ≡ ok ((none, matched), s)
      → IsServed matched r
      → MatchStep r matched s
  match_range-skip r matched s e served = record {
    made = none;
    matched' = matched;
    source = s;
    result = e;
    taken = Perm.refl (left matched);
    overlapping = tt;
    grows = λ k old. old;
    served = served;
  }

  match_range-MatchStep :
      (r : PlayerRange) (matched : List ℕ) (s : Source)
      → IsRange platform players r
      → MatchStep r matched s
  match_range-MatchStep r matched s good = elim (Bool-cases (has r.player_index matched)) [
    | inl old ↦
        match_range-skip r matched s (unfold match_range in ground arith) (λ x m. ground arith)
    | inr fresh ↦ elim (Bool-cases (length (available_entries matched r.entries) == 0)) [
      | inl none_left ↦
          match_range-skip r matched s (unfold match_range in ground arith)
            (λ x m. ground (arith, none_available matched r.entries none_left x m))
      | inr some_left ↦ match_range-pick r matched s good fresh (ground arith)
    ]
  ]

  pub record MatchAll (ranges : List PlayerRange) (matched : List ℕ) (s : Source) : Type 0 where
    pub pairs : List (Pair F)
    pub matched' : List ℕ
    pub source : Source
    pub result : match_ranges players ranges matched s ≡ ok ((pairs, matched'), source)
    pub taken : Perm (players_of pairs ++ left matched') (left matched)
    pub overlapping : Overlapping pairs
    pub grows : (k : ℕ) → has k matched ≡ true → has k matched' ≡ true
    pub served : All (IsServed matched') ranges

  taken_pair :
      (made : Option (Pair F)) (pairs : List (Pair F)) (l : List (Player F)) {m : List (Player F)}
      → Perm (players_of pairs ++ l) m
      → Perm (players_of (cons_some made pairs) ++ l) (players_of_option made ++ m)
  taken_pair none pairs l p = p
  taken_pair (some pair) pairs l p = Perm.cons pair.p1 (Perm.cons pair.p2 p)

  cons_some-Overlapping :
      (made : Option (Pair F)) (pairs : List (Pair F))
      → OptionOverlap made
      → Overlapping pairs
      → Overlapping (cons_some made pairs)
  cons_some-Overlapping none pairs h t = t
  cons_some-Overlapping (some pair) pairs h t = (h, t)

  match_ranges-step :
      (r : PlayerRange) (ranges : List PlayerRange) (matched : List ℕ) (s : Source)
      → (one : MatchStep r matched s) → MatchAll ranges one.matched' one.source
      → MatchAll (r ∷ ranges) matched s
  match_ranges-step r ranges matched s one rest = record {
    pairs = cons_some one.made rest.pairs;
    matched' = rest.matched';
    source = rest.source;
    result = unfold match_ranges in rw (one.result, rest.result, match_ranges);
    taken = Perm.trans (taken_pair one.made rest.pairs _ rest.taken) one.taken;
    overlapping = cons_some-Overlapping one.made rest.pairs one.overlapping rest.overlapping;
    grows = λ k old. rest.grows k (one.grows k old);
    served =
        All-cons (IsServed rest.matched') r ranges
          (λ q.
            Every-prop (λ e. has q.player_index rest.matched' || has e.player_index rest.matched')
              q.entries)
          (λ x m.
            ground (arith, one.served x m, rest.grows r.player_index, rest.grows x.player_index))
          rest.served;
  }

  pub match_ranges-MatchAll :
      (ranges : List PlayerRange) (matched : List ℕ) (s : Source)
      → All (IsRange platform players) ranges
      → MatchAll ranges matched s
  match_ranges-MatchAll [] matched s good = record {
    pairs = [];
    matched' = matched;
    source = s;
    result = unfold match_ranges in refl;
    taken = Perm.refl (left matched);
    overlapping = tt;
    grows = λ k old. old;
    served = All-nil (IsServed matched);
  }
  match_ranges-MatchAll (r ∷ ranges) matched s good =
      let one = match_range-MatchStep r matched s (All-head (IsRange platform players) good) in
      match_ranges-step r ranges matched s one (
        match_ranges-MatchAll ranges one.matched' one.source
          (All-tail (IsRange platform players) good))
