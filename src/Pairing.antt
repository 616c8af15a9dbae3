-- ===== src/Pairing.antt =====
-- internal/back/back_pair_players.go: how the players of a session are paired.
pub mod Near
pub mod Ordered
pub mod Picks
pub mod Ranges
pub mod Complete
pub mod Matched
pub mod Ranged
pub mod Tests
use kaepora.Base.{
  ℕ, zero, suc, ◌+◌, ◌%◌, ◌≡◌, List, [], ◌∷◌, ◌++◌, Option, none, some, Bool, true, false, ◌||◌,
  not, ltb, leb, ◌==◌, if◌then◌else◌,
}
use kaepora.Base.Int.{ℤ, pos, negsuc, ◌+ℤ◌, ◌-ℤ◌, ltb_ℤ}
use kaepora.Base.Lists.{length, get_elem?, erase_idx, has, select}
use kaepora.Base.Result.{Result, ok, err, panic, internal}
use kaepora.Base.Random.{
  Source, Random, ◌>>=◌, ◌>>◌, pure, lift, random_int, random_index, random_low_index,
}
use kaepora.Rating.{Float, Sorter, Player, PlayerRating, range, rating_less}

-- `clamp(v, min, max)` of back_matchmaking.go.
unfoldable pub clamp : ℤ → ℤ → ℤ → ℤ
clamp v min max = if ltb_ℤ max v then max else if ltb_ℤ v min then min else v

-- The max distance between opponents for a session size.
unfoldable pub get_max_delta : ℕ → ℕ
get_max_delta session_size = if leb session_size 8 then 1 else if leb session_size 16 then 2 else 3

module _ {A : Type 0} where
  abbrev or_panic : Option A → Result A
  or_panic none = err (panic "index out of range")
  or_panic (some a) = ok a

  -- `l[i]`.
  unfoldable pub at : List A → ℤ → Result A
  at l (pos i) = or_panic (get_elem? l i)
  at l (negsuc i) = err (panic "index out of range")

  -- `removePlayer`: the players behind `i` are copied one place to the left. The slice behind
  -- `i+1` is out of bounds if there is no player `i`.
  unfoldable pub remove_player : List A → ℤ → Result (List A)
  remove_player players (pos i) =
      if ltb i (length players)
      then ok (erase_idx players i)
      else err (panic "slice bounds out of range")
  remove_player players (negsuc i) = err (panic "slice bounds out of range")

pub record Pair (F : Type 0) : Type 0 where
  pub p1 : Player F
  pub p2 : Player F

pub record RangeEntry : Type 0 where
  pub player_index : ℕ
  pub dist : ℤ  -- distance between ratings

pub record PlayerRange : Type 0 where
  pub player_index : ℕ
  pub entries : List RangeEntry

-- What the pairing takes from outside: float64, and `sort.Sort` at the three types that it sorts.
pub record Platform (F : Type 0) : Type 0 where
  pub float : Float F
  pub players : Sorter (Player F)
  pub range_entries : Sorter RangeEntry
  pub player_ranges : Sorter PlayerRange

-- One round of the loop of `orderedRandomPairPlayers`: a pair, and the players that are left.
unfoldable pub pick_pair : {F : Type 0} → ℕ → List (Player F) → Random (Pair F × List (Player F))
pick_pair max_delta players = do
  i1 ← random_index (length players)
  p1 ← lift (at players i1)
  players' ← lift (remove_player players i1)
  let last = pos (length players') -ℤ pos 1
  let min_index = clamp (i1 -ℤ pos max_delta) (pos 0) last
  let max_index = clamp (i1 +ℤ pos max_delta) (pos 0) last
  i2 ← random_int min_index max_index
  p2 ← lift (at players' i2)
  players'' ← lift (remove_player players' i2)
  pure (record { p1 = p1; p2 = p2 }, players'')

-- The loop, with fuel for the rounds: the number of players is always enough.
unfoldable pub pair_loop : {F : Type 0} → ℕ → ℕ → List (Player F) → Random (List (Pair F))
pair_loop fuel max_delta [] = pure []
pair_loop zero max_delta (p ∷ players) = lift (err (internal "out of fuel"))
pair_loop (suc fuel) max_delta (p ∷ players) = λ source.
    elim (pick_pair max_delta (p ∷ players) source) [
      | ok ((pair, rest), source') ↦ elim (pair_loop fuel max_delta rest source') [
        | ok (pairs, source'') ↦ ok (pair ∷ pairs, source'')
        | err e ↦ err e
      ]
      | err e ↦ err e
    ]

unfoldable pub dist_less : RangeEntry → RangeEntry → Bool
dist_less a b = ltb_ℤ a.dist b.dist

unfoldable pub entries_less : PlayerRange → PlayerRange → Bool
entries_less a b = ltb (length a.entries) (length b.entries)

-- The index is only written together with an entry, and stays 0 for a player without any.
abbrev index_of : ℕ → List RangeEntry → ℕ
index_of i [] = 0
index_of i (e ∷ entries) = i

module _ {F : Type 0} (platform : Platform F) where
  open platform use {float}

  unfoldable pub ordered_random_pair_players : List (Player F) → Random (List (Pair F))
  ordered_random_pair_players players =
      if ltb (length players) 2
      then pure []
      else if not (length players % 2 == 0)
      then lift (err (panic "fed an odd number of players to orderedRandomPairPlayers"))
      else pair_loop (length players) (get_max_delta (length players))
          (platform.players.sort (rating_less float) players)

  -- The entries of one player's range: the body of the inner loop of `getOverlappingRanges`, for
  -- the opponents from index `j` on.
  unfoldable pub overlapping_entries : ℕ → Player F → ℕ → List (Player F) → List RangeEntry
  overlapping_entries i player j [] = []
  overlapping_entries i player j (opponent ∷ players) =
      let rest = overlapping_entries i player (suc j) players in
      let (min0, max0) = range float player.rating in
      let (min1, max1) = range float opponent.rating in
      let dist = float.sub player.rating.rating opponent.rating.rating in
      if i == j
      then rest
      else if ltb_ℤ max0 min1 || ltb_ℤ max1 min0
      then rest
      else record {
        player_index = j;
        dist = float.to_int (if float.lt dist float.zero then float.neg dist else dist);
      }
        ∷ rest

  unfoldable pub ranges_from : List (Player F) → ℕ → List (Player F) → List PlayerRange
  ranges_from all i [] = []
  ranges_from all i (player ∷ players) =
      let entries = overlapping_entries i player 0 all in
      record {
        player_index = index_of i entries;
        entries = platform.range_entries.sort dist_less entries;
      }
      ∷ ranges_from all (suc i) players

  unfoldable pub get_overlapping_ranges : List (Player F) → List PlayerRange
  get_overlapping_ranges players =
      platform.player_ranges.sort entries_less (ranges_from players 0 players)

abbrev cons_some : {A : Type 0} → Option A → List A → List A
cons_some none l = l
cons_some (some a) l = a ∷ l

-- The players of a range that are not matched yet. `matched` holds the keys of the map.
unfoldable pub available_entries : List ℕ → List RangeEntry → List RangeEntry
unfolding select has
available_entries matched entries = select (λ e. not (has e.player_index matched)) entries

-- The body of the loop over the ranges: a pair, if one is made, and the matched indices.
unfoldable pub match_range :
    {F : Type 0} → List (Player F) → PlayerRange → List ℕ → Random (Option (Pair F) × List ℕ)
match_range players r matched =
    let available = available_entries matched r.entries in
    if has r.player_index matched
    then pure (none, matched)
    else if length available == 0
    then pure (none, matched)
    else (do
      pick ← random_low_index (length available)
      p1 ← lift (at players (pos r.player_index))
      e ← lift (at available pick)
      p2 ← lift (at players (pos e.player_index))
      pure (some (record { p1 = p1; p2 = p2 }), e.player_index ∷ r.player_index ∷ matched))

unfoldable pub match_ranges :
    {F : Type 0} → List (Player F) → List PlayerRange → List ℕ → Random (List (Pair F) × List ℕ)
match_ranges players [] matched = pure ([], matched)
match_ranges players (r ∷ ranges) matched = λ source. elim (match_range players r matched source) [
  | ok ((pair, matched'), source') ↦ elim (match_ranges players ranges matched' source') [
    | ok ((pairs, matched''), source'') ↦ ok ((cons_some pair pairs, matched''), source'')
    | err e ↦ err e
  ]
  | err e ↦ err e
]

-- The players from index `j` on that are not matched.
unfoldable pub unmatched_from : {A : Type 0} → List ℕ → ℕ → List A → List A
unmatched_from matched j [] = []
unmatched_from matched j (player ∷ players) =
    let rest = unmatched_from matched (suc j) players in
    if has j matched then rest else player ∷ rest

module _ {F : Type 0} (platform : Platform F) where
  unfoldable pub ranged_pair_players : List (Player F) → Random (List (Pair F))
  ranged_pair_players players =
      if ltb (length players) 2
      then pure []
      else if not (length players % 2 == 0)
      then lift (err (panic "fed an odd number of players to rangedPairPlayers"))
      else (do
        (pairs, matched) ← match_ranges players (get_overlapping_ranges platform players) []
        let unmatched = unmatched_from matched 0 players
        rest ←
            if ltb 0 (length unmatched)
            then ordered_random_pair_players platform unmatched
            else pure []
        pure (pairs ++ rest))
