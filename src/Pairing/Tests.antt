-- ===== src/Pairing/Tests.antt =====
-- The pairing of four players, with whole numbers as ratings.
use mathlib.Core.List.{Perm}
use mathlib.Core.Path.{◌≡◌, refl}
use kaepora.Base.{ℕ, map, ◌+◌, ◌*◌, List, [], ◌∷◌, none, arith}
use kaepora.Base.Int.{ℤ, pos, pos_part, neg_part, sub_ℕ, ltb_ℤ, ◌+ℤ◌, ◌-ℤ◌}
use kaepora.Base.Lists.{has, select}
use kaepora.Base.Random.{Source, rand_int, random_int, random_index, random_low_index}
use kaepora.Base.Result.{Result, ok, err}
use kaepora.Rating.{Float, Player, range, rating_less}
use kaepora.Rating.Insertion.{insertion_sorter}
use kaepora.Pairing.{
  Pair, Platform, get_max_delta, clamp, at, remove_player, pick_pair, pair_loop,
  ordered_random_pair_players, ranged_pair_players, match_range, match_ranges,
  get_overlapping_ranges, ranges_from, overlapping_entries, dist_less, entries_less,
  available_entries, unmatched_from,
}
use kaepora.Pairing.Near.{NearPairing, players_of}
use kaepora.Pairing.Ordered.{
  sorted, ordered_random_pair_players-NearPairing, ordered_random_pair_players-perm,
}
use kaepora.Pairing.Ranged.{RangedPairing, ranged_pair_players-RangedPairing}

abbrev pub whole_numbers : Float ℤ
unfolding ◌+ℤ◌ ◌-ℤ◌
whole_numbers = record {
  add = ◌+ℤ◌;
  sub = ◌-ℤ◌;
  mul = λ a b.
      sub_ℕ (pos_part a * pos_part b + neg_part a * neg_part b)
        (pos_part a * neg_part b + neg_part a * pos_part b);
  neg = λ a. pos 0 -ℤ a;
  lt = ltb_ℤ;
  zero = pos 0;
  two = pos 2;
  to_int = λ a. a;
}

abbrev pub platform : Platform ℤ
unfolding whole_numbers
platform = record {
  float = whole_numbers;
  players = insertion_sorter;
  range_entries = insertion_sorter;
  player_ranges = insertion_sorter;
}

abbrev pub rated : ℕ → ℤ → ℤ → Player ℤ
rated id rating deviation = record {
  id = id;
  created_at = 1;
  name = "player";
  discord_id = none;
  stream_url = "";
  rating = record {
    player_id = id;
    league_id = 1;
    created_at = 1;
    rating_period_started_at = 1;
    rating = rating;
    deviation = deviation;
    volatility = pos 0;
  };
}

abbrev four : List (Player ℤ)
four =
    rated 1 (pos 1500) (pos 50)
    ∷ rated 2 (pos 1900) (pos 30)
    ∷ rated 3 (pos 1600) (pos 40)
    ∷ rated 4 (pos 800) (pos 20)
    ∷ []

abbrev counting : Source
counting n = n

pairing : Unit {0}
unfolding platform ranged_pair_players match_ranges match_range get_overlapping_ranges ranges_from
    overlapping_entries dist_less entries_less available_entries unmatched_from
    ordered_random_pair_players pair_loop pick_pair clamp get_max_delta at remove_player
    random_low_index random_index random_int rand_int range rating_less ◌+ℤ◌ ◌-ℤ◌ has select
pairing = tt

-- Players 1 and 3 are near each other; the other two are left over.
ids : Result (List (Pair ℤ) × Source) → List ℕ
ids (ok (pairs, _)) = map (λ (p : Player ℤ). p.id) (players_of pairs)
ids (err _) = []

four_paired : ids (ranged_pair_players platform four counting) ≡ 1 ∷ 3 ∷ 4 ∷ 2 ∷ []
unfolding pairing ids
four_paired = refl

ordered_random_pair_players-NearPairing_example :
    (pairs : List (Pair ℤ)) × (s' : Source) × (ordered_random_pair_players platform four counting
      ≡ ok (pairs, s'))
    × NearPairing (get_max_delta 4) (sorted platform four counting) pairs
ordered_random_pair_players-NearPairing_example =
    ordered_random_pair_players-NearPairing platform four counting 2 refl (omega arith)

ordered_random_pair_players-perm_example :
    (pairs : List (Pair ℤ)) × (s' : Source) × (ordered_random_pair_players platform four counting
      ≡ ok (pairs, s'))
    × Perm (players_of pairs) four
ordered_random_pair_players-perm_example =
    ordered_random_pair_players-perm platform four counting 2 refl

ranged_pair_players-RangedPairing_example : RangedPairing platform four counting
ranged_pair_players-RangedPairing_example =
    ranged_pair_players-RangedPairing platform four 2 counting refl
