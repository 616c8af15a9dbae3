-- ===== src/Pairing/Ranged.antt =====
-- `rangedPairPlayers` of back_pair_players.go: the pairs of players whose ranges overlap, and the
-- rest of the players.
use mathlib.Core.List.{Perm}
use mathlib.Core.List.Perm
use kaepora.Base.{
  ℕ, zero, suc, ◌+◌, ◌*◌, ◌<◌, ◌≡◌, refl, List, [], ◌∷◌, ◌++◌, ◌-◌, ltb, lt→ltb, if◌then◌else◌,
  arith,
}
use kaepora.Base.Lists.{length, length-append, length-zero}
use kaepora.Base.Perm.{length-perm}
use kaepora.Base.Result.{ok}
use kaepora.Base.Random.{Source, pure}
use kaepora.Rating.{Player}
use kaepora.Pairing.{
  Pair, Platform, get_overlapping_ranges, ordered_random_pair_players, ranged_pair_players,
}
use kaepora.Pairing.Near.{players_of, players_of-append, length-players_of}
use kaepora.Pairing.Ordered.{ordered_random_pair_players-perm}
use kaepora.Pairing.Picks.{unmatched_from-nil}
use kaepora.Pairing.Ranges.{get_overlapping_ranges-IsRange}
use kaepora.Pairing.Complete.{AreFar, left-AreFar}
use kaepora.Pairing.Matched.{left, Overlapping, MatchAll, match_ranges-MatchAll}

module _ {F : Type 0} (platform : Platform F) (players : List (Player F)) where
  -- What `rangedPairPlayers` makes: pairs of overlapping ranges, then pairs of all the others, among
  -- whom no ranges overlap.
  pub record RangedPairing (s : Source) : Type 0 where
    pub near : List (Pair F)
    pub others : List (Pair F)
    pub source : Source
    pub result : ranged_pair_players platform players s ≡ ok (near ++ others, source)
    pub overlapping : Overlapping platform players near
    pub unmatched : List (Player F)
    pub far : AreFar platform unmatched
    pub remaining : Perm (players_of others) unmatched
    pub everybody : Perm (players_of (near ++ others)) players

  -- The last part of `rangedPairPlayers`: the players who are left are paired by order.
  record RestPaired (unmatched : List (Player F)) (s : Source) : Type 0 where
    others : List (Pair F)
    source : Source
    result :
        (if ltb 0 (length unmatched)
            then ordered_random_pair_players platform unmatched
            else pure [])
          s
        ≡ ok (others, source)
    paired : Perm (players_of others) unmatched

  rest-RestPaired :
      (unmatched : List (Player F)) (k : ℕ) (s : Source)
      → length unmatched ≡ 2 * k
      → RestPaired unmatched s
  rest-RestPaired [] k s size = record {
    others = [];
    source = s;
    result = refl;
    paired = Perm.refl [];
  }
  rest-RestPaired (p ∷ l) k s size =
      let (others, s', e, paired) = ordered_random_pair_players-perm platform (p ∷ l) s k size in
      record {
        others = others;
        source = s';
        result = rw (lt→ltb 0 (length (p ∷ l)) (omega arith)) e;
        paired = paired;
      }

  ranged-few : (s : Source) → length players ≡ 0 → RangedPairing s
  unfolding ranged_pair_players
  ranged-few s size = record {
    near = [];
    others = [];
    source = s;
    result = ground arith;
    overlapping = tt;
    unmatched = [];
    far = tt;
    remaining = Perm.refl [];
    everybody = rw (length-zero players size) (Perm.refl []);
  }

  ranged-eq :
      (k : ℕ) (s : Source)
      → length players ≡ 2 * k
      → 0 < k
      → (all : MatchAll platform players (get_overlapping_ranges platform players) [] s)
      → (rest : RestPaired (left platform players all.matched') all.source)
      → ranged_pair_players platform players s ≡ ok (all.pairs ++ rest.others, rest.source)
  unfolding ranged_pair_players
  ranged-eq k s size some_players all rest = ground (arith, all.result, rest.result)

  -- For any even number of players `rangedPairPlayers` succeeds and puts each of them in exactly
  -- one pair. The first pairs are of players whose ranges overlap, and the others are of players of
  -- whom no two have ranges that overlap: nobody is left over whom another such player could race.
  pub ranged_pair_players-RangedPairing :
      (k : ℕ) (s : Source) → length players ≡ 2 * k → RangedPairing s
  ranged_pair_players-RangedPairing zero s size = ranged-few s size
  ranged_pair_players-RangedPairing (suc k) s size =
      let all =
        match_ranges-MatchAll platform players (get_overlapping_ranges platform players) [] s
          (get_overlapping_ranges-IsRange platform players) in
      let taken : Perm (players_of all.pairs ++ left platform players all.matched') players =
        rw (unmatched_from-nil 0 players) at all.taken in
      let count : 2 * length all.pairs + length (left platform players all.matched') ≡ 2 * suc k =
        omega (
          arith,
          length-perm taken,
          length-append (players_of all.pairs) (left platform players all.matched'),
          length-players_of all.pairs,
        ) in
      let rest =
        rest-RestPaired (left platform players all.matched') (suc k - length all.pairs) all.source
          (omega arith) in
      record {
        near = all.pairs;
        others = rest.others;
        source = rest.source;
        result = ranged-eq (suc k) s size (omega arith) all rest;
        overlapping = all.overlapping;
        unmatched = left platform players all.matched';
        far = left-AreFar platform players all.matched' all.served;
        remaining = rest.paired;
        everybody =
            rw (players_of-append all.pairs rest.others)
              (Perm.trans (Perm.append_left (players_of all.pairs) rest.paired) taken);
      }
