-- ===== src/Leagues/Deleted.antt =====
-- What `deleteLeague` of league.go leaves.
use kaepora.Base.{
  ◌≡◌, refl, ap, subst, map, ==_iff, inl, inr, List, [], ◌∷◌, Bool, true, false, not, ◌&&◌, ◌==◌,
  Bool-cases, arith,
}
use kaepora.Base.Lists.{select, any, has, IsNodup, Each}
use kaepora.Base.Result.{ok}
use kaepora.Match.{Uuid, Match, MatchEntry}
use kaepora.Store.{League, Db, World}
use kaepora.Leagues.{delete_league}

module _ {A : Type 0} where
  -- An element that a test finds is kept where every such element passes.
  any-select :
      (q p : A → Bool) (rows : List A)
      → ((x : A) → q x ≡ true → p x ≡ true)
      → any q rows ≡ true
      → any q (select p rows) ≡ true
  unfolding any select
  any-select q p [] h e = e
  any-select q p (x ∷ rows) h e = ground (arith, h x, any-select q p rows h)

  any-select-not :
      (q r : A → Bool) (rows : List A)
      → any (λ x. q x && r x) rows ≡ false
      → any q rows ≡ true
      → any q (select (λ x. not (r x)) rows) ≡ true
  unfolding any select
  any-select-not q r [] none_both e = e
  any-select-not q r (x ∷ rows) none_both e = ground (arith, any-select-not q r rows)

  Each-kept :
      (P Q : A → Type 0) (p : A → Bool) (rows : List A)
      → ((x : A) → p x ≡ true → P x → Q x)
      → Each P rows
      → Each Q (select p rows)
  unfolding select
  Each-kept P Q p [] f h = tt
  Each-kept P Q p (x ∷ rows) f (hx, h) = elim (Bool-cases (p x)) [
    | inl kept ↦ rw kept (f x kept hx, Each-kept P Q p rows f h)
    | inr gone ↦ rw gone (Each-kept P Q p rows f h)
  ]

same : (a b c : Uuid) → (a == b) ≡ true → not (b == c) ≡ true → not (a == c) ≡ true
same a b c e h = ground arith

none_left :
    {A : Type 0} (key : A → Uuid) (id : Uuid) (rows : List A)
    → Each (λ r. (key r == id) ≡ false) (select (λ r. not (key r == id)) rows)
unfolding select
none_left key id [] = tt
none_left key id (r ∷ rows) = elim (Bool-cases (key r == id)) [
  | inl gone ↦ rw gone (none_left key id rows)
  | inr stays ↦ rw stays (stays, none_left key id rows)
]

no_league :
    (id : Uuid) (rows : List League)
    → any (λ l. l.id == id) (select (λ l. not (l.id == id)) rows) ≡ false
unfolding any select
no_league id [] = refl
no_league id (l ∷ rows) = ground (arith, no_league id rows)

none_of :
    (p : Match → Bool) (id : Uuid) (matches : List Match)
    → has id (map (λ m. m.id) matches) ≡ false
    → any (λ m. m.id == id && p m) matches ≡ false
unfolding any has
none_of p id [] h = refl
none_of p id (m ∷ matches) h = ground (arith, none_of p id matches)

-- Where matches have different ids, the match of an entry is of one league.
one_league :
    (id match_id : Uuid) (matches : List Match)
    → IsNodup (map (λ m. m.id) matches)
    → any (λ m. m.id == match_id) matches ≡ true
    → not (any (λ m. m.id == match_id && m.league_id == id) matches)
      ≡ any (λ m. m.id == match_id && not (m.league_id == id)) matches
unfolding any has
one_league id match_id [] nodup h = absurd (cc)
one_league id match_id (m ∷ matches) (fresh, nodup) h = elim (Bool-cases (m.id == match_id)) [
  | inl here ↦ ground (
    arith,
    none_of (λ n. n.league_id == id) match_id matches
        (subst (λ k. has k (map (λ n. n.id) matches) ≡ false) ((==_iff m.id match_id).0 here)
          fresh),
    none_of (λ n. not (n.league_id == id)) match_id matches
        (subst (λ k. has k (map (λ n. n.id) matches) ≡ false) ((==_iff m.id match_id).0 here)
          fresh),
  )
  | inr other ↦ ground (arith, one_league id match_id matches nodup)
]

select-same :
    {A : Type 0} (p q : A → Bool) (P : A → Type 0)
    → ((x : A) → P x → p x ≡ q x)
    → (rows : List A) → Each P rows
    → select p rows ≡ select q rows
unfolding select
select-same p q P agree [] h = refl
select-same p q P agree (x ∷ rows) (hx, h) =
    ground (arith, agree x hx, select-same p q P agree rows h)

module _ {F : Type 0} where
  abbrev has_league : Db F → Uuid → Bool
  has_league db id = any (λ l. l.id == id) db.leagues

  -- What the foreign keys of the schema say, and that a match is of the league of its session.
  pub record IsReferential (db : Db F) : Type 0 where
    pub sessions_in : Each (λ s. has_league db s.league_id ≡ true) db.sessions
    pub ratings_in : Each (λ r. has_league db r.league_id ≡ true) db.ratings
    pub history_in : Each (λ r. has_league db r.league_id ≡ true) db.history
    pub matches_in :
        Each
          (λ m.
            any (λ s. s.id == m.match_session_id && s.league_id == m.league_id) db.sessions ≡ true)
          db.matches
    pub entries_in : Each (λ e. any (λ m. m.id == e.match_id) db.matches ≡ true) db.entries

  -- No row is of the league.
  abbrev pub IsWithout : Uuid → Db F → Type 0
  IsWithout id db =
      (has_league db id ≡ false)
      × Each (λ s. (s.league_id == id) ≡ false) db.sessions
      × Each (λ r. (r.league_id == id) ≡ false) db.ratings
      × Each (λ r. (r.league_id == id) ≡ false) db.history
      × Each (λ m. (m.league_id == id) ≡ false) db.matches

  -- An entry of a match of another league.
  abbrev pub is_elsewhere : Uuid → Db F → MatchEntry → Bool
  is_elsewhere id db e = any (λ m. m.id == e.match_id && not (m.league_id == id)) db.matches

  -- A database with the rows of the other leagues alone.
  abbrev pub elsewhere : Uuid → Db F → Db F
  unfolding select
  elsewhere id db = record db {
    leagues = select (λ l. not (l.id == id)) db.leagues;
    ratings = select (λ r. not (r.league_id == id)) db.ratings;
    history = select (λ r. not (r.league_id == id)) db.history;
    sessions = select (λ s. not (s.league_id == id)) db.sessions;
    matches = select (λ m. not (m.league_id == id)) db.matches;
    entries = select (is_elsewhere id db) db.entries;
  }

  module _ (id : Uuid) (db : Db F) where
    abbrev other_leagues : List League
    other_leagues = select (λ l. not (l.id == id)) db.leagues

    league_kept :
        (league_id : Uuid)
        → not (league_id == id) ≡ true
        → has_league db league_id ≡ true
        → any (λ l. l.id == league_id) other_leagues ≡ true
    league_kept league_id other h =
        any-select (λ l. l.id == league_id) (λ l. not (l.id == id)) db.leagues
          (λ l e. same l.id league_id id e other) h

    session_kept :
        (m : Match)
        → not (m.league_id == id) ≡ true
        → any (λ s. s.id == m.match_session_id && s.league_id == m.league_id) db.sessions ≡ true
        → any
            (λ s. s.id == m.match_session_id && s.league_id == m.league_id)
            (select (λ s. not (s.league_id == id)) db.sessions)
          ≡ true
    session_kept m other h =
        any-select (λ s. s.id == m.match_session_id && s.league_id == m.league_id)
          (λ s. not (s.league_id == id)) db.sessions
          (λ s e. same s.league_id m.league_id id (ground arith) other) h

    match_kept :
        (e : MatchEntry)
        → not (any (λ m. m.id == e.match_id && m.league_id == id) db.matches) ≡ true
        → any (λ m. m.id == e.match_id) db.matches ≡ true
        → any (λ m. m.id == e.match_id) (select (λ m. not (m.league_id == id)) db.matches) ≡ true
    match_kept e other h =
        any-select-not (λ m. m.id == e.match_id) (λ m. m.league_id == id) db.matches (ground arith)
          h

  -- `deleteLeague` succeeds. No row of the league is left then, nor one of a session, match or
  -- rating of it, every row of another league is as it was, and every key that a row refers to by
  -- is still there, if that was so before and matches had different ids.
  pub delete_league-IsReferential :
      (id : Uuid) (w : World F)
      → IsReferential w.db
      → IsNodup (map (λ m. m.id) w.db.matches)
      → ((delete_league id w).0 ≡ ok tt)
        × ((delete_league id w).1.db ≡ elsewhere id w.db)
        × IsWithout id (delete_league id w).1.db
        × IsReferential (delete_league id w).1.db
  unfolding delete_league
  delete_league-IsReferential id w h keyed = (
    refl,
    ap (λ rows. record (elsewhere id w.db) { entries = rows })
        (select-same _ (is_elsewhere id w.db)
          (λ e. any (λ m. m.id == e.match_id) w.db.matches ≡ true)
          (λ e. one_league id e.match_id w.db.matches keyed) w.db.entries h.entries_in),
    (
      no_league id w.db.leagues,
      none_left (λ s. s.league_id) id w.db.sessions,
      none_left (λ r. r.league_id) id w.db.ratings,
      none_left (λ r. r.league_id) id w.db.history,
      none_left (λ m. m.league_id) id w.db.matches,
    ),
    record {
      sessions_in =
          Each-kept _ _ _ w.db.sessions (λ s other. league_kept id w.db s.league_id other)
            h.sessions_in;
      ratings_in =
          Each-kept _ _ _ w.db.ratings (λ s other. league_kept id w.db s.league_id other)
            h.ratings_in;
      history_in =
          Each-kept _ _ _ w.db.history (λ s other. league_kept id w.db s.league_id other)
            h.history_in;
      matches_in =
          Each-kept _ _ _ w.db.matches (λ m other. session_kept id w.db m other) h.matches_in;
      entries_in =
          Each-kept _ _ _ w.db.entries (λ e other. match_kept id w.db e other) h.entries_in;
    },
  )
