-- ===== src/Matchmaking/Paired.antt =====
-- `matchMakeSession` of back_matchmaking.go: every player of a session gets one entry.
use kaepora.Base.{
  ℕ, suc, ◌*◌, ◌≤◌, ◌≡◌, refl, ap, sym, subst, ◌∙◌, List, [], ◌∷◌, ◌++◌, map, some, Bool, true,
  false, ◌==◌, ◌&&◌, if◌then◌else◌, Bool-cases, Option-cases, ==_iff, ==_self, inl, inr, arith,
}
use kaepora.Base.Count.{count, count-perm, count-IsNodup}
use kaepora.Base.Lists.{find, has, length, IsNodup, Each}
use kaepora.Base.Result.{ok}
use kaepora.Clock.{Time}
use kaepora.Match.{Uuid, MatchEntry, Match}
use kaepora.Pairing.{Pair, Platform}
use kaepora.Pairing.Near.{players_of}
use kaepora.Pairing.Ranged.{ranged_pair_players-RangedPairing}
use kaepora.Rating.{PlayerRating, Player}
use kaepora.Session.{MatchSession}
use kaepora.Store.{World, League}
use kaepora.Store.Rows.{get_player_by_id}
use kaepora.Joining.Join.{league_row}
use kaepora.Lifecycle.Succeeds.{HasPlayer}
use kaepora.Matchmaking.{
  Setting, new_player_rating, get_player_rating, get_players, get_session_players,
  match_make_valid_session,
}
use kaepora.Matchmaking.Inserted.{IsFresh, ArePaired, insert_pairs-Inserted}

find-holds : {A : Type 0} (p : A → Bool) (rows : List A) (x : A) → find p rows ≡ some x → p x ≡ true
unfolding find
find-holds p [] x e = absurd (cc)
find-holds p (r ∷ rows) x e = elim (Bool-cases (p r)) [
  | inl here ↦ ground arith
  | inr there ↦ find-holds p rows x (ground arith)
]

module _ {F : Type 0} (setting : Setting F) (now : Time) where
  get_player_rating-reads :
      (player_id league_id : Uuid) (w : World F)
      → (r : PlayerRating F) × (get_player_rating setting now player_id league_id w ≡ (ok r, w))
  unfolding get_player_rating
  get_player_rating-reads player_id league_id w =
      elim (Option-cases
        (find (λ r. r.player_id == player_id && r.league_id == league_id) w.db.ratings)) [
          | inl missing ↦ (new_player_rating setting now player_id league_id, ground arith)
          | inr (r, found) ↦ (r, ground arith)
        ]

  record Fetched (league_id : Uuid) (ids : List Uuid) (w : World F) : Type 0 where
    players : List (Player F)
    result : get_players setting now league_id ids w ≡ (ok players, w)
    same_ids : map (λ p. p.id) players ≡ ids

  get_players-Fetched :
      (league_id : Uuid) (ids : List Uuid) (w : World F)
      → Each (HasPlayer w.db) ids
      → Fetched league_id ids w
  unfolding get_players get_player_by_id
  get_players-Fetched league_id [] w h = record { players = []; result = refl; same_ids = refl }
  get_players-Fetched league_id (id ∷ ids) w ((p, found), h) =
      let rest = get_players-Fetched league_id ids w h in
      let (r, rated) = get_player_rating-reads p.id league_id w in
      record {
        players = record p { rating = r } ∷ rest.players;
        result = ground (arith, rated, rest.result);
        same_ids = ground (
          arith,
          rest.same_ids,
          (==_iff p.id id).0 (find-holds (λ q. q.id == id) w.db.players p found),
        );
      }

length-map :
    {F : Type 0} (players : List (Player F)) → length players ≡ length (map (λ p. p.id) players)
length-map [] = refl
length-map (p ∷ players) = ap suc (length-map players)

module _ {F : Type 0} where
  abbrev id_of : Player F → Uuid
  id_of p = p.id

  -- Where every id occurs once at most, no pair is of a player and the same player.
  pairs-apart :
      (pairs : List (Pair F))
      → ((a : Uuid) → count id_of a (players_of pairs) ≤ 1)
      → Each (λ pair. (pair.p1.id == pair.p2.id) ≡ false) pairs
  pairs-apart [] h = tt
  pairs-apart (pair ∷ pairs) h = (
    elim (Bool-cases (pair.p1.id == pair.p2.id)) [
      | inl same ↦ absurd (ground (arith, h pair.p2.id, ==_self pair.p2.id))
      | inr apart ↦ apart
    ],
    pairs-apart pairs (λ a. omega (arith, h a)),
  )

  count-ArePaired :
      (setting : Setting F) (now : Time) (s : MatchSession) (l : League) (a : Uuid)
      (pairs : List (Pair F)) (matches : List Match) (entries : List MatchEntry)
      → ArePaired setting now s l pairs matches entries
      → count (λ e. e.player_id) a entries ≡ count id_of a (players_of pairs)
  count-ArePaired setting now s l a [] [] [] h = refl
  count-ArePaired setting now s l a (pair ∷ pairs) (m ∷ matches) (e1 ∷ e2 ∷ entries)
        (_, _, _, p1, _, _, p2, _, h) =
      ground (arith, p1, p2, count-ArePaired setting now s l a pairs matches entries h)
  count-ArePaired setting now s l a _ _ _ h = absurd h

module _ {F : Type 0} (setting : Setting F) (platform : Platform F) (now : Time) (s : MatchSession)
    (l : League) (w : World F) where
  -- What the matchmaking of a session leaves: new matches and entries, and nothing else in the
  -- database; each player of the session has one of the entries, nobody else has one, and the
  -- two entries of a match are those of a pair.
  pub record MatchMade : Type 0 where
    pub pairs : List (Pair F)
    pub matches : List Match
    pub entries : List MatchEntry
    pub succeeds : (match_make_valid_session setting platform now s w).0 ≡ ok tt
    pub writes :
        (match_make_valid_session setting platform now s w).1.db
        ≡ record w.db { matches = w.db.matches ++ matches; entries = w.db.entries ++ entries }
    pub paired : ArePaired setting now s l pairs matches entries
    pub one_each :
        (a : Uuid) → count (λ e. e.player_id) a entries ≡ (if has a s.player_ids then 1 else 0)

  -- The matchmaking of a session with an even number of different players, who are all rows of the
  -- database as is the league, succeeds, for fresh UUIDs and any random numbers. It inserts
  -- matches of the session with two waiting entries each, and nothing else, so that every player
  -- of the session has exactly one of the new entries and nobody else has one.
  pub match_make_valid_session-MatchMade :
      (k : ℕ)
      → length s.player_ids ≡ 2 * k
      → IsNodup s.player_ids
      → Each (HasPlayer w.db) s.player_ids
      → league_row s.league_id w.db ≡ some l
      → IsFresh w
      → MatchMade
  unfolding match_make_valid_session get_session_players
  match_make_valid_session-MatchMade k even nodup linked found fresh =
      let got = get_players-Fetched setting now s.league_id s.player_ids w linked in
      let ranged =
        ranged_pair_players-RangedPairing platform got.players k w.random
          (same_length got.players s.player_ids got.same_ids ∙ even) in
      let pairs = ranged.near ++ ranged.others in
      let drawn = record w { random = ranged.source } in
      let inserted =
        insert_pairs-Inserted setting now s l pairs drawn found
          (record {
            different = fresh.different;
            no_match = fresh.no_match;
            no_entry = fresh.no_entry;
          })
          (pairs-apart pairs (λ a.
            grind
              (arith, counted got.players a got.same_ids, count-perm id_of a ranged.everybody))) in
      record {
        pairs = pairs;
        matches = inserted.matches;
        entries = inserted.entries;
        succeeds = ground (arith, got.result, ranged.result, inserted.succeeds);
        writes = ground (arith, got.result, ranged.result, inserted.writes);
        paired = inserted.paired;
        one_each = λ a.
            count-ArePaired setting now s l a pairs inserted.matches inserted.entries
              inserted.paired
            ∙ count-perm id_of a ranged.everybody
            ∙ counted got.players a got.same_ids;
      }
    where
      same_length :
          (players : List (Player F)) (ids : List Uuid)
          → map (λ p. p.id) players ≡ ids
          → length players ≡ length ids
      same_length players ids e = length-map players ∙ ap length e

      counted :
          (players : List (Player F)) (a : Uuid)
          → map (λ p. p.id) players ≡ s.player_ids
          → count id_of a players ≡ (if has a s.player_ids then 1 else 0)
      counted players a e =
          count-IsNodup id_of a players (subst IsNodup (sym e) nodup)
          ∙ ap {B = ℕ} (λ ids. if has a ids then 1 else 0) e
