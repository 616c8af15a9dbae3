-- ===== src/Matchmaking/Inserted.antt =====
-- The matches and the entries that `matchMakeSession` of back_matchmaking.go inserts.
use mathlib.Core.List.{append_assoc, append-nil}
use kaepora.Base.{
  ℕ, suc, ◌≡◌, refl, List, [], ◌∷◌, ◌++◌, none, some, false, ◌==◌, Bool-cases, ==_iff, inl, inr,
  arith,
}
use kaepora.Base.Lists.{any, any-append, any-false, Each}
use kaepora.Base.Result.{ok}
use kaepora.Clock.{Time, null_timestamp}
use kaepora.Match.{Uuid, waiting, MatchEntry, Match, ensure_not_null, new_match_entry}
use kaepora.Pairing.{Pair}
use kaepora.Session.{MatchSession}
use kaepora.Store.{World, League, stored, stored_null}
use kaepora.Store.Rows.{same_entry, insert_entry, insert_match, get_league_by_id}
use kaepora.Joining.Join.{league_row}
use kaepora.Matchmaking.{Setting, new_match, insert_pair, insert_pairs}

-- The row of an entry that a pair inserts.
abbrev entry_row : Time → Uuid → Uuid → MatchEntry
entry_row now match_id player_id =
    let e = new_match_entry now match_id player_id in
    record e {
      created_at = stored e.created_at;
      started_at = stored_null e.started_at;
      ended_at = stored_null e.ended_at;
    }

same_entry-other :
    (now : Time) (id p : Uuid) (rows : List MatchEntry)
    → any (λ e. e.match_id == id) rows ≡ false
    → any (same_entry (new_match_entry now id p)) rows ≡ false
unfolding same_entry new_match_entry
same_entry-other now id p rows h =
    any-false (λ e. e.match_id == id) (same_entry (new_match_entry now id p)) (λ e ne. ground arith)
      rows h

second_entry :
    (now : Time) (id p q : Uuid) (rows : List MatchEntry)
    → any (λ e. e.match_id == id) rows ≡ false
    → (p == q) ≡ false
    → any (same_entry (new_match_entry now id q)) (rows ++ entry_row now id p ∷ []) ≡ false
unfolding any same_entry new_match_entry
second_entry now id p q rows h other = ground (
  arith,
  any-append (same_entry (new_match_entry now id q)) rows (entry_row now id p ∷ []),
  same_entry-other now id q rows h,
)

module _ {F : Type 0} where
  -- The UUIDs to come are different, and no match or entry has one of them.
  pub record IsFresh (w : World F) : Type 0 where
    pub different : (n k : ℕ) → w.uuids n ≡ w.uuids k → n ≡ k
    pub no_match : (n : ℕ) → any (λ r. r.id == w.uuids n) w.db.matches ≡ false
    pub no_entry : (n : ℕ) → any (λ e. e.match_id == w.uuids n) w.db.entries ≡ false

  insert_entry-new :
      (e : MatchEntry) (w : World F)
      → any (same_entry e) w.db.entries ≡ false
      → insert_entry e w ≡ (
        ok tt,
        record w {
          db = record w.db {
            entries =
                w.db.entries
                ++ record e {
                  created_at = stored e.created_at;
                  started_at = stored_null e.started_at;
                  ended_at = stored_null e.ended_at;
                }
                  ∷ [];
          };
        },
      )
  unfolding insert_entry
  insert_entry-new e w fresh = ground arith

-- The row of the match that a pair inserts, with the first UUID to come as its seed, and the
-- second as its id.
abbrev match_row : {F : Type 0} → Setting F → Time → MatchSession → League → World F → Match
match_row setting now s l w = record {
  id = w.uuids 1;
  league_id = s.league_id;
  match_session_id = s.id;
  created_at = stored now;
  started_at = stored_null null_timestamp;
  ended_at = stored_null null_timestamp;
  generator = l.generator;
  settings = l.settings;
  seed = setting.uuid_text (w.uuids 0);
  spoiler_log = some [];
  generator_state = some [];
  seed_patch = none;
  entries = [];
}

module _ {F : Type 0} (setting : Setting F) (now : Time) (s : MatchSession) (l : League) where
  -- The world after one pair has been inserted.
  abbrev after_pair : Pair F → World F → World F
  after_pair pair w = record w {
    db = record w.db {
      matches = w.db.matches ++ match_row setting now s l w ∷ [];
      entries =
          (w.db.entries ++ entry_row now (w.uuids 1) pair.p1.id ∷ [])
          ++ entry_row now (w.uuids 1) pair.p2.id ∷ [];
    };
    uuids = λ n. w.uuids (suc (suc n));
  }

  insert_pair-after :
      (pair : Pair F) (w : World F)
      → league_row s.league_id w.db ≡ some l
      → IsFresh w
      → (pair.p1.id == pair.p2.id) ≡ false
      → insert_pair setting now s pair w ≡ (ok tt, after_pair pair w)
  unfolding insert_pair new_match get_league_by_id insert_match insert_entry ensure_not_null
  insert_pair-after pair w found fresh apart = ground (
    arith,
    fresh.no_match 1,
    same_entry-other now (w.uuids 1) pair.p1.id w.db.entries (fresh.no_entry 1),
    second_entry now (w.uuids 1) pair.p1.id pair.p2.id w.db.entries (fresh.no_entry 1) apart,
  )

  uuids-apart : (w : World F) (n : ℕ) → IsFresh w → (w.uuids 1 == w.uuids (suc (suc n))) ≡ false
  uuids-apart w n fresh = elim (Bool-cases (w.uuids 1 == w.uuids (suc (suc n)))) [
    | inl same ↦ absurd (
        omega (
          arith,
          fresh.different 1 (suc (suc n)) ((==_iff (w.uuids 1) (w.uuids (suc (suc n)))).0 same),
        ))
    | inr apart ↦ apart
  ]

  after_pair-IsFresh : (pair : Pair F) (w : World F) → IsFresh w → IsFresh (after_pair pair w)
  unfolding any new_match_entry
  after_pair-IsFresh pair w fresh = record {
    different = λ n k e. omega (arith, fresh.different (suc (suc n)) (suc (suc k)) e);
    no_match = λ n. ground (
      arith,
      any-append (λ r. r.id == w.uuids (suc (suc n))) w.db.matches
          (match_row setting now s l w ∷ []),
      fresh.no_match (suc (suc n)),
      uuids-apart w n fresh,
    );
    no_entry = λ n. ground (
      arith,
      any-append (λ e. e.match_id == w.uuids (suc (suc n)))
          (w.db.entries ++ entry_row now (w.uuids 1) pair.p1.id ∷ [])
          (entry_row now (w.uuids 1) pair.p2.id ∷ []),
      any-append (λ e. e.match_id == w.uuids (suc (suc n))) w.db.entries
          (entry_row now (w.uuids 1) pair.p1.id ∷ []),
      fresh.no_entry (suc (suc n)),
      uuids-apart w n fresh,
    );
  }

  -- The matches and entries of pairs: for each pair a match of the session, and an entry in it
  -- for either player, who waits for the start.
  abbrev pub ArePaired : List (Pair F) → List Match → List MatchEntry → Type 0
  ArePaired [] [] [] = Unit
  ArePaired (pair ∷ pairs) (m ∷ matches) (e1 ∷ e2 ∷ entries) =
      (m.match_session_id ≡ s.id)
      × (m.league_id ≡ s.league_id)
      × (e1.match_id ≡ m.id)
      × (e1.player_id ≡ pair.p1.id)
      × (e1.status ≡ waiting)
      × (e2.match_id ≡ m.id)
      × (e2.player_id ≡ pair.p2.id)
      × (e2.status ≡ waiting)
      × ArePaired pairs matches entries
  ArePaired _ _ _ = ⊥

  pub record Inserted (pairs : List (Pair F)) (w : World F) : Type 0 where
    pub matches : List Match
    pub entries : List MatchEntry
    pub succeeds : (insert_pairs setting now s pairs w).0 ≡ ok tt
    pub writes :
        (insert_pairs setting now s pairs w).1.db
        ≡ record w.db { matches = w.db.matches ++ matches; entries = w.db.entries ++ entries }
    pub paired : ArePaired pairs matches entries

  pub insert_pairs-Inserted :
      (pairs : List (Pair F)) (w : World F)
      → league_row s.league_id w.db ≡ some l
      → IsFresh w
      → Each (λ pair. (pair.p1.id == pair.p2.id) ≡ false) pairs
      → Inserted pairs w
  unfolding insert_pairs new_match_entry
  insert_pairs-Inserted [] w found fresh h = record {
    matches = [];
    entries = [];
    succeeds = refl;
    writes = cc (append-nil w.db.matches, append-nil w.db.entries);
    paired = tt;
  }
  insert_pairs-Inserted (pair ∷ pairs) w found fresh (apart, h) =
      let first = insert_pair-after pair w found fresh apart in
      let rest =
        insert_pairs-Inserted pairs (after_pair pair w) found (after_pair-IsFresh pair w fresh) h in
      record {
        matches = match_row setting now s l w ∷ rest.matches;
        entries =
            entry_row now (w.uuids 1) pair.p1.id
            ∷ entry_row now (w.uuids 1) pair.p2.id
            ∷ rest.entries;
        succeeds = ground (arith, first, rest.succeeds);
        writes = ground (
          arith,
          first,
          rest.writes,
          append_assoc w.db.matches (match_row setting now s l w ∷ []) rest.matches,
          append_assoc (w.db.entries ++ entry_row now (w.uuids 1) pair.p1.id ∷ [])
              (entry_row now (w.uuids 1) pair.p2.id ∷ []) rest.entries,
          append_assoc w.db.entries (entry_row now (w.uuids 1) pair.p1.id ∷ [])
              (entry_row now (w.uuids 1) pair.p2.id ∷ rest.entries),
        );
        paired = (refl, refl, refl, refl, refl, refl, refl, refl, rest.paired);
      }
