-- ===== src/Pairing/Ordered.antt =====
-- `orderedRandomPairPlayers` of back_pair_players.go.
use Prim.Native.Nat.{min}
use mathlib.Core.List.{Perm}
use mathlib.Core.List.Perm
use kaepora.Base.{
  ℕ, zero, suc, ◌+◌, ◌*◌, ◌-◌, ◌≤◌, ◌<◌, ◌≡◌, ◌≢◌, refl, List, [], ◌∷◌, some, arith, ◌∙◌,
}
use kaepora.Base.Int.{pos, ◌+ℤ◌, ◌-ℤ◌}
use kaepora.Base.Lists.{length, get_elem?, erase_idx, length-zero}
use kaepora.Base.Perm.{length-perm}
use kaepora.Base.Result.{ok}
use kaepora.Base.Random.{
  Source, Random, random_int, random_index, random_int-pos, random_index-Draws,
}
use kaepora.Rating.{Player, rating_less}
use kaepora.Pairing.{
  Pair, Platform, clamp, get_max_delta, at, remove_player, pick_pair, pair_loop,
  ordered_random_pair_players,
}
use kaepora.Pairing.Near.{
  NearPairing, done, pair, players_of, NearPairing-perm, length-erase_idx, get_elem?-some,
}

-- The window of opponents around place `i`, among the `n + 1` players that are left.
module _ (d i n : ℕ) where
  clamp_low : clamp (pos i -ℤ pos d) (pos 0) (pos (suc n) -ℤ pos 1) ≡ pos (min (i - d) n)
  unfolding clamp ◌-ℤ◌
  clamp_low = ground arith

  clamp_high : clamp (pos i +ℤ pos d) (pos 0) (pos (suc n) -ℤ pos 1) ≡ pos (min (i + d) n)
  unfolding clamp ◌-ℤ◌ ◌+ℤ◌
  clamp_high = ground arith

module _ {A : Type 0} where
  pub at-pos : (l : List A) (i : ℕ) {a : A} → get_elem? l i ≡ some a → at l (pos i) ≡ ok a
  unfolding at
  at-pos l i e = ground arith

  remove_player-pos :
      (l : List A) (i : ℕ) → i < length l → remove_player l (pos i) ≡ ok (erase_idx l i)
  unfolding remove_player
  remove_player-pos l i h = ground arith

module _ {F : Type 0} (d : ℕ) (l : List (Player F)) (s : Source) where
  -- A round pairs a player with a near one, and does not panic.
  record Round : Type 0 where
    i : ℕ
    j : ℕ
    p : Player F
    q : Player F
    source : Source
    result : pick_pair d l s ≡ ok ((record { p1 = p; p2 = q }, erase_idx (erase_idx l i) j), source)
    at_i : get_elem? l i ≡ some p
    at_j : get_elem? (erase_idx l i) j ≡ some q
    above : j ≤ i + d
    below : i ≤ j + d
    left : suc (suc (length (erase_idx (erase_idx l i) j))) ≡ length l

  pick_pair-eq :
      (i j n : ℕ) (p q : Player F) (s1 s2 : Source)
      → random_index (length l) s ≡ ok (pos i, s1)
      → get_elem? l i ≡ some p
      → i < length l
      → length (erase_idx l i) ≡ suc n
      → random_int (pos (min (i - d) n)) (pos (min (i + d) n)) s1 ≡ ok (pos j, s2)
      → get_elem? (erase_idx l i) j ≡ some q
      → j < suc n
      → pick_pair d l s ≡ ok ((record { p1 = p; p2 = q }, erase_idx (erase_idx l i) j), s2)
  unfolding pick_pair
  pick_pair-eq i j n p q s1 s2 ei ep bi size ej eq bj = ground (
    arith,
    at-pos l i ep,
    remove_player-pos l i bi,
    clamp_low d i n,
    clamp_high d i n,
    at-pos (erase_idx l i) j eq,
    remove_player-pos (erase_idx l i) j,
  )

  pick_pair-Round : 2 ≤ length l → 0 < d → Round
  pick_pair-Round big wide =
      let (i, s1, ei, bi) = random_index-Draws (length l) s (omega arith) in
      let (p, ep) = get_elem?-some l i bi in
      let n : ℕ = length l - 2 in
      let size : length (erase_idx l i) ≡ suc n = omega (arith, length-erase_idx l i bi) in
      let (j, s2, ej, low, high) =
        random_int-pos (min (i - d) n) (min (i + d) n) s1 (omega arith) in
      let bj : j < length (erase_idx l i) = omega arith in
      let (q, eq) = get_elem?-some (erase_idx l i) j bj in
      record {
        i = i;
        j = j;
        p = p;
        q = q;
        source = s2;
        result = pick_pair-eq i j n p q s1 s2 ei ep bi size ej eq (omega arith);
        at_i = ep;
        at_j = eq;
        above = omega arith;
        below = omega arith;
        left = omega (arith, length-erase_idx l i bi, length-erase_idx (erase_idx l i) j bj);
      }

abbrev Paired : {F : Type 0} → ℕ → List (Player F) → Random (List (Pair F)) → Source → Type 0
Paired {F} d l m s =
    (pairs : List (Pair F)) × (s' : Source) × (m s ≡ ok (pairs, s')) × NearPairing d l pairs

module _ {F : Type 0} (d : ℕ) (wide : 0 < d) where
  pair_loop-step :
      (fuel : ℕ) (l : List (Player F)) (s : Source) (r : Round d l s)
      → l ≢ []
      → Paired d
          (erase_idx (erase_idx l r.i) r.j)
          (pair_loop fuel d (erase_idx (erase_idx l r.i) r.j))
          r.source
      → Paired d l (pair_loop (suc fuel) d l) s
  unfolding pair_loop
  pair_loop-step fuel [] s r ne rest = absurd (ne refl)
  pair_loop-step fuel (x ∷ l) s r ne (pairs, s', e, near) = (
    record { p1 = r.p; p2 = r.q } ∷ pairs,
    s',
    rw (r.result, e, pair_loop),
    pair r.i r.j r.p r.q r.at_i r.at_j r.above r.below near,
  )

  -- An even number of players is paired whole.
  pair_loop-Paired :
      (fuel k : ℕ) (l : List (Player F)) (s : Source)
      → length l ≡ 2 * k
      → k ≤ fuel
      → Paired d l (pair_loop fuel d l) s
  unfolding pair_loop
  pair_loop-Paired fuel k [] s size enough = ([], s, refl, done)
  pair_loop-Paired zero k (x ∷ l) s size enough = absurd (omega arith)
  pair_loop-Paired (suc fuel) k (x ∷ l) s size enough =
      let r = pick_pair-Round d (x ∷ l) s (omega arith) wide in
      pair_loop-step fuel (x ∷ l) s r (λ e. cc)
        (pair_loop-Paired fuel (k - 1) (erase_idx (erase_idx (x ∷ l) r.i) r.j) r.source
          (omega (arith, r.left)) (omega arith))

get_max_delta-pos : (n : ℕ) → 0 < get_max_delta n
unfolding get_max_delta
get_max_delta-pos n = ground arith

module _ {F : Type 0} (platform : Platform F) (players : List (Player F)) (s : Source) where
  abbrev pub sorted : List (Player F)
  sorted = platform.players.sort (rating_less platform.float) players

  -- An even number of players, two at least, is paired without a panic and within the fuel. Each
  -- pair is a player of the list sorted by rating, less the pairs before, and an opponent whose
  -- place in the list without that player is at most the session's delta from the player's.
  pub ordered_random_pair_players-NearPairing :
      (k : ℕ)
      → length players ≡ 2 * k
      → 0 < k
      → (pairs : List (Pair F)) × (s' : Source) × (ordered_random_pair_players platform players s
          ≡ ok (pairs, s'))
        × NearPairing (get_max_delta (length players)) sorted pairs
  unfolding ordered_random_pair_players
  ordered_random_pair_players-NearPairing k size some_players =
      let (pairs, s', e, near) =
        pair_loop-Paired (get_max_delta (length players)) (get_max_delta-pos (length players))
          (length players) k sorted s
          (length-perm (platform.players.sort-perm (rating_less platform.float) players) ∙ size)
          (omega arith) in
      (pairs, s', ground arith, near)

  -- For any even number of players `orderedRandomPairPlayers` succeeds, and puts each of them in
  -- exactly one pair.
  pub ordered_random_pair_players-perm :
      (k : ℕ)
      → length players ≡ 2 * k
      → (pairs : List (Pair F)) × (s' : Source) × (ordered_random_pair_players platform players s
          ≡ ok (pairs, s'))
        × Perm (players_of pairs) players
  ordered_random_pair_players-perm zero size = (
    [],
    s,
    unfold ordered_random_pair_players in ground arith,
    rw (length-zero players (omega arith)) (Perm.refl []),
  )
  ordered_random_pair_players-perm (suc k) size =
      let (pairs, s', e, near) =
        ordered_random_pair_players-NearPairing (suc k) size (omega arith) in
      (pairs, s', e, Perm.trans (NearPairing-perm near) (platform.players.sort-perm _ players))
