-- ===== src/Matchmaking/Whole.antt =====
-- `matchMakeSession` of back_matchmaking.go from the odd player to the entries.
use mathlib.Core.List.{append-nil}
use kaepora.Base.{
  ◌*◌, ◌/◌, ◌≡◌, refl, List, [], ◌∷◌, ◌++◌, some, true, false, ltb, if◌then◌else◌, Bool-cases, inl,
  inr, arith,
}
use kaepora.Base.Count.{count}
use kaepora.Base.Lists.{length, has, IsNodup, Each}
use kaepora.Base.Result.{ok}
use kaepora.Clock.{Time}
use kaepora.Match.{Uuid, MatchEntry, Match}
use kaepora.Pairing.{Pair, Platform}
use kaepora.Session.{MatchSession, preparing}
use kaepora.Store.{World, League}
use kaepora.Joining.Join.{IsKeyed, IsWhole, session_row, league_row, with_session}
use kaepora.Lifecycle.Succeeds.{HasPlayer}
use kaepora.Matchmaking.{Setting, match_make_session}
use kaepora.Matchmaking.Inserted.{IsFresh, ArePaired}
use kaepora.Matchmaking.Kept.{kept}
use kaepora.Matchmaking.Paired.{match_make_valid_session-MatchMade}
use kaepora.Matchmaking.Valid.{with_kept, ensure_session_is_valid_for_match_making_lem}

length-kept : (ids : List Uuid) → length (kept ids) ≡ 2 * (length ids / 2)
length-kept [] = refl
length-kept (a ∷ []) = refl
length-kept (a ∷ b ∷ ids) = omega (arith, length-kept ids)

kept-none : (ids : List Uuid) → ltb (length ids) 2 ≡ true → kept ids ≡ []
kept-none [] h = refl
kept-none (a ∷ []) h = refl
kept-none (a ∷ b ∷ ids) h = absurd (ground arith)

has-kept : (x : Uuid) (ids : List Uuid) → has x ids ≡ false → has x (kept ids) ≡ false
unfolding has
has-kept x [] h = refl
has-kept x (a ∷ []) h = refl
has-kept x (a ∷ b ∷ ids) h = ground (arith, has-kept x ids)

kept-IsNodup : (ids : List Uuid) → IsNodup ids → IsNodup (kept ids)
unfolding has
kept-IsNodup [] h = tt
kept-IsNodup (a ∷ []) h = tt
kept-IsNodup (a ∷ b ∷ ids) (fresh_a, (fresh_b, h)) =
    (ground (arith, has-kept a ids), (has-kept b ids fresh_b, kept-IsNodup ids h))

kept-Each : (P : Uuid → Type 0) (ids : List Uuid) → Each P ids → Each P (kept ids)
kept-Each P [] h = tt
kept-Each P (a ∷ []) h = tt
kept-Each P (a ∷ b ∷ ids) (ha, (hb, h)) = (ha, (hb, kept-Each P ids h))

module _ {F : Type 0} (setting : Setting F) (platform : Platform F) (now : Time) (s : MatchSession)
    (l : League) (w : World F) where
  -- What the whole matchmaking leaves: the session without its odd player, and a match with two
  -- entries for each pair of those who stay.
  pub record SessionMade : Type 0 where
    pub pairs : List (Pair F)
    pub matches : List Match
    pub entries : List MatchEntry
    pub succeeds : (match_make_session setting platform now s w).0 ≡ ok tt
    pub writes :
        (match_make_session setting platform now s w).1.db
        ≡ record (with_session s.id with_kept w).db {
          matches = w.db.matches ++ matches;
          entries = w.db.entries ++ entries;
        }
    pub paired : ArePaired setting now (with_kept s) l pairs matches entries
    pub one_each :
        (a : Uuid)
        → count (λ e. e.player_id) a entries ≡ (if has a (kept s.player_ids) then 1 else 0)

  -- For a preparing session of the database, of different players who are all there, with its
  -- league there too, for fresh UUIDs and any random numbers: `matchMakeSession` succeeds. It
  -- drops the last of an odd number of players from the session, inserts matches of two waiting
  -- entries, of which each player who stays has exactly one and nobody else has any, and writes
  -- nothing else. With fewer than two players there is no match.
  pub match_make_session-SessionMade :
      IsKeyed w.db
      → IsWhole s
      → session_row s.id w.db ≡ some s
      → s.status ≡ preparing
      → IsNodup s.player_ids
      → Each (HasPlayer w.db) s.player_ids
      → league_row s.league_id w.db ≡ some l
      → IsFresh w
      → SessionMade
  unfolding match_make_session has
  match_make_session-SessionMade keyed whole found ready nodup linked league fresh =
      let (notices, _, e) =
        ensure_session_is_valid_for_match_making_lem s w keyed whole found ready nodup linked in
      elim (Bool-cases (ltb (length s.player_ids) 2)) [
        | inl few ↦ record {
          pairs = [];
          matches = [];
          entries = [];
          succeeds = ground (arith, e);
          writes = rw (append-nil w.db.matches, append-nil w.db.entries) (ground (arith, e));
          paired = tt;
          one_each = λ a. rw (kept-none s.player_ids few) refl;
        }
        | inr enough ↦
            let w' = record (with_session s.id with_kept w) { sent = notices ++ w.sent } in
            let made =
              match_make_valid_session-MatchMade setting platform now (with_kept s) l w'
                (length s.player_ids / 2) (length-kept s.player_ids)
                (kept-IsNodup s.player_ids nodup) (kept-Each (HasPlayer w.db) s.player_ids linked)
                league
                (record {
                  different = fresh.different;
                  no_match = fresh.no_match;
                  no_entry = fresh.no_entry;
                }) in
            record {
              pairs = made.pairs;
              matches = made.matches;
              entries = made.entries;
              succeeds = ground (arith, e, made.succeeds);
              writes = ground (arith, e, made.writes);
              paired = made.paired;
              one_each = made.one_each;
            }
      ]
