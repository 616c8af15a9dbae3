-- ===== src/Joining/Calls.antt =====
-- What joining a session leaves, both ways: internal/back/back_racing.go.
use Prim.Native.String.{String}
use text.Mathlib.Text
use kaepora.Base.{
  ◌≡◌, ◌⊎◌, refl, ap, sym, ◌∙◌, subst, inl, inr, List, [], ◌∷◌, map, Option, none, some, Bool, true,
  false, ◌&&◌, ◌==◌, ==_iff, Bool-cases, Option-cases, leb, ltb, arith,
}
use mathlib.Core.Option.{some-injective}
use kaepora.Base.Lists.{IsNodup, find, has, Each-Occurs, Occurs, Occurs-find}
use kaepora.Base.Result.{Result, ok, err, Error, no_rows, public, internal, panic, is_ok}
use kaepora.Clock.{Time}
use kaepora.Match.{Uuid}
use kaepora.Session.{MatchSession, add_ids, add_player_id, has_player_id, is_joinable}
use kaepora.Session.Players.{has-add_ids}
use kaepora.Store.{League, Db, World, transaction, date_time, order_by, stored, update_where}
use kaepora.Store.Order.{Occurs-update_where, Occurs-update_other, Occurs-of_order}
use kaepora.Store.Updates.{Each-find_self}
use kaepora.Store.Rows.{
  is_match_of, get_match_session_by_id, get_league_by_id, get_league_by_short_code, update_session,
}
use kaepora.Joining.{
  already_registered, is_open, get_player_active_session, ensure_player_has_no_active_match,
  join_match_session_tx, join_match_session_by_id, join_current_match_session_tx,
  join_current_match_session_by_shortcode, get_next_joinable_match_session_for_league,
}
use kaepora.Joining.Active.{get_player_active_session-reads}
use kaepora.Joining.Join.{IsKeyed}

-- The calls by which players join sessions, one after the other.
module _ {F : Type 0} (w : World F) where
  pub data Joins : World F → Type 0 where
    no_call : Joins w
    by_id :
        {w1 w2 : World F} (session_id player_id : Uuid)
        → Joins w1
        → w2 ≡ (join_match_session_by_id session_id player_id w1).1
        → Joins w2
    by_shortcode :
        {w1 w2 : World F} (now : Time) (player_id : Uuid) (shortcode : String)
        → Joins w1
        → w2 ≡ (join_current_match_session_by_shortcode now player_id shortcode w1).1
        → Joins w2

-- What a call writes to the row of the session that is joined.
abbrev pub taken_up : Uuid → MatchSession → MatchSession → MatchSession
unfolding add_ids stored
taken_up player_id t r = record r {
  start_date = stored t.start_date;
  status = t.status;
  player_ids = add_ids t.player_ids (player_id ∷ []);
}

module _ {F : Type 0} (player_id : Uuid) (w : World F) where
  abbrev pub entered : MatchSession → World F
  entered t = record w {
    db = record w.db {
      sessions = update_where (λ r. r.id == t.id) (taken_up player_id t) w.db.sessions;
    };
  }

  -- A call is refused and changes nothing, or it adds the player, who has no active session, to
  -- one.
  pub data Call {B : Type 0} (r : Result B × World F) : Type 0 where
    refused : is_ok r.0 ≡ false → r.1 ≡ w → Call r
    joins :
        (t : MatchSession)
        → (get_player_active_session player_id w).0 ≡ err no_rows
        → Occurs t w.db.sessions
        → r.1 ≡ entered t
        → Call r

  data Tx (t : MatchSession) (league : League) : Type 0 where
    fails : (e : Error) → join_match_session_tx t player_id league w ≡ (err e, w) → Tx t league
    succeeds :
        (get_player_active_session player_id w).0 ≡ err no_rows
        → join_match_session_tx t player_id league w ≡ (ok tt, entered t)
        → Tx t league

  Tx-decided :
      (t : MatchSession) (league : League) (r : Result MatchSession)
      → (get_player_active_session player_id w).0 ≡ r
      → has_player_id t player_id ≡ false
      → Tx t league
  unfolding join_match_session_tx ensure_player_has_no_active_match add_player_id update_session
      taken_up
  Tx-decided t league (ok s) e new =
      fails (public "you already have a race in progress")
        (ground (arith, get_player_active_session-reads player_id w))
  Tx-decided t league (err no_rows) e new =
      succeeds e (ground (arith, get_player_active_session-reads player_id w))
  Tx-decided t league (err (public m)) e new =
      fails (public m) (ground (arith, get_player_active_session-reads player_id w))
  Tx-decided t league (err (internal m)) e new =
      fails (internal m) (ground (arith, get_player_active_session-reads player_id w))
  Tx-decided t league (err (panic m)) e new =
      fails (panic m) (ground (arith, get_player_active_session-reads player_id w))

  Tx-total : (t : MatchSession) (league : League) → Tx t league
  unfolding join_match_session_tx
  Tx-total t league = elim (Bool-cases (has_player_id t player_id)) [
    | inl old ↦ fails (already_registered league) (ground arith)
    | inr new ↦ Tx-decided t league (get_player_active_session player_id w).0 refl new
  ]

  pub join_match_session_by_id-Call :
      (session_id : Uuid) → Call (join_match_session_by_id session_id player_id w)
  unfolding join_match_session_by_id transaction get_match_session_by_id get_league_by_id
  join_match_session_by_id-Call session_id =
      elim (Option-cases (find (λ s. s.id == session_id) w.db.sessions)) [
        | inl no_session ↦ refused (ground (arith, no_session)) (ground (arith, no_session))
        | inr (t, found) ↦ elim (Option-cases (find (λ l. l.id == t.league_id) w.db.leagues)) [
          | inl no_league ↦
              refused (ground (arith, found, no_league)) (ground (arith, found, no_league))
          | inr (league, there) ↦ elim (Tx-total t league) [
            | fails e failed ↦
                refused (ground (arith, found, there, failed))
                  (ground (arith, found, there, failed))
            | succeeds idle goes ↦
                joins t idle (Occurs-find t (λ s. s.id == session_id) w.db.sessions found)
                  (ground (arith, found, there, goes))
          ]
        ]
      ]

  -- The query of the next session that can be joined.
  abbrev is_next : Time → Uuid → MatchSession → Bool
  is_next now league_id s =
      s.league_id == league_id
      && ltb (date_time now) (date_time s.start_date)
      && is_joinable s.status

  abbrev next_session : Time → Uuid → Option MatchSession
  next_session now league_id =
      find (is_next now league_id) (order_by (λ s. s.start_date) w.db.sessions)

  by_shortcode-Call :
      (now : Time) (shortcode : String) (league : League)
      → get_league_by_short_code shortcode w ≡ (ok league, w)
      → Call (join_current_match_session_by_shortcode now player_id shortcode w)
  unfolding join_current_match_session_by_shortcode join_current_match_session_tx transaction
      get_next_joinable_match_session_for_league
  by_shortcode-Call now shortcode league there = elim (Option-cases (next_session now league.id)) [
    | inl no_session ↦
        refused (ground (arith, there, no_session)) (ground (arith, there, no_session))
    | inr (t, found) ↦ elim (Tx-total t league) [
      | fails e failed ↦
          refused (ground (arith, there, found, failed)) (ground (arith, there, found, failed))
      | succeeds idle goes ↦
          joins t idle
            (Occurs-of_order (λ a b. leb a.start_date b.start_date) t w.db.sessions
              (Occurs-find t (is_next now league.id) (order_by (λ s. s.start_date) w.db.sessions)
                found))
            (ground (arith, there, found, goes))
    ]
  ]

  no_league-Call :
      (now : Time) (shortcode : String) (e : Error)
      → get_league_by_short_code shortcode w ≡ (err e, w)
      → Call (join_current_match_session_by_shortcode now player_id shortcode w)
  unfolding join_current_match_session_by_shortcode transaction
  no_league-Call now shortcode no_rows there =
      refused (ground (arith, there)) (ground (arith, there))
  no_league-Call now shortcode (public m) there =
      refused (ground (arith, there)) (ground (arith, there))
  no_league-Call now shortcode (internal m) there =
      refused (ground (arith, there)) (ground (arith, there))
  no_league-Call now shortcode (panic m) there =
      refused (ground (arith, there)) (ground (arith, there))

  league_of :
      (shortcode : String)
      → ((e : Error) × (get_league_by_short_code shortcode w ≡ (err e, w)))
        ⊎ ((l : League) × (get_league_by_short_code shortcode w ≡ (ok l, w)))
  unfolding get_league_by_short_code
  league_of shortcode = elim (Bool-cases (Text.◌==◌ shortcode "")) [
    | inl empty ↦
        inl (
          public "you need to give me a league shortcode, see `!leagues` and `!help`",
          ground arith,
        )
    | inr given ↦ elim (Option-cases (find (λ l. Text.◌==◌ l.short_code shortcode) w.db.leagues)) [
      | inl missing ↦ inl (no_rows, ground (arith, missing))
      | inr (l, found) ↦ inr (l, ground (arith, found))
    ]
  ]

  pub join_current_match_session_by_shortcode-Call :
      (now : Time) (shortcode : String)
      → Call (join_current_match_session_by_shortcode now player_id shortcode w)
  join_current_match_session_by_shortcode-Call now shortcode = elim (league_of shortcode) [
    | inl (e, missing) ↦ no_league-Call now shortcode e missing
    | inr (l, there) ↦ by_shortcode-Call now shortcode l there
  ]

pub keys-kept :
    (p : MatchSession → Bool) (f : MatchSession → MatchSession) (rows : List MatchSession)
    → ((r : MatchSession) → (f r).id ≡ r.id)
    → map (λ s. s.id) (update_where p f rows) ≡ map (λ s. s.id) rows
unfolding update_where
keys-kept p f [] keeps = refl
keys-kept p f (r ∷ rows) keeps = ground (arith, keeps r, keys-kept p f rows keeps)

module _ {F : Type 0} (player_id : Uuid) where
  -- The player has no match in the session.
  abbrev pub IsUnmatched : MatchSession → Db F → Type 0
  IsUnmatched s db = find (is_match_of db player_id s.id) db.matches ≡ none

  -- The player has joined an open session, and has no match in it; sessions have different ids.
  pub record HasJoined (w : World F) : Type 0 where
    pub session : MatchSession
    pub row : Occurs session w.db.sessions
    pub is_open_session : is_open session.status ≡ true
    pub inside : has player_id session.player_ids ≡ true
    pub unmatched : IsUnmatched session w.db
    pub keyed : IsKeyed w.db

  -- Rows of the same id are one.
  one_row :
      (s t : MatchSession) (db : Db F)
      → IsKeyed db
      → Occurs s db.sessions
      → Occurs t db.sessions
      → s.id ≡ t.id
      → t ≡ s
  one_row s t db keyed row other same =
      let found = Each-find_self (λ r. r.id) db.sessions keyed in
      some-injective _ _ (
        sym (
          Each-Occurs (λ r. find (λ q. q.id == r.id) db.sessions ≡ some r) t db.sessions found
            other)
        ∙ ap (λ id. find (λ q. q.id == id) db.sessions) (sym same)
        ∙ Each-Occurs (λ r. find (λ q. q.id == r.id) db.sessions ≡ some r) s db.sessions found row)

  entered-HasJoined :
      (q : Uuid) (w : World F) (t : MatchSession)
      → Occurs t w.db.sessions
      → HasJoined w
      → HasJoined (entered q w t)
  unfolding taken_up is_match_of
  entered-HasJoined q w t other h = elim (Bool-cases (h.session.id == t.id)) [
    | inl same ↦
        let e = one_row h.session t w.db h.keyed h.row other ((==_iff h.session.id t.id).0 same) in
        record {
          session = taken_up q t h.session;
          row =
              Occurs-update_where (λ r. r.id == t.id) (taken_up q t) h.session w.db.sessions same
                h.row;
          is_open_session = ap (λ s. is_open s.status) e ∙ h.is_open_session;
          inside = ground (
            arith,
            has-add_ids player_id t.player_ids (q ∷ []),
            ap (λ s. has player_id s.player_ids) e,
            h.inside,
          );
          unmatched = h.unmatched;
          keyed = subst IsNodup (sym (keys-kept _ _ w.db.sessions (λ r. refl))) h.keyed;
        }
    | inr apart ↦ record {
      session = h.session;
      row =
          Occurs-update_other (λ r. r.id == t.id) (taken_up q t) h.session w.db.sessions apart
            h.row;
      is_open_session = h.is_open_session;
      inside = h.inside;
      unmatched = h.unmatched;
      keyed = subst IsNodup (sym (keys-kept _ _ w.db.sessions (λ r. refl))) h.keyed;
    }
  ]

  Call-HasJoined :
      {B : Type 0} (q : Uuid) (w : World F) (r : Result B × World F)
      → Call q w r
      → HasJoined w
      → HasJoined r.1
  Call-HasJoined q w r (refused _ e) h = subst HasJoined (sym e) h
  Call-HasJoined q w r (joins t _ other e) h =
      subst HasJoined (sym e) (entered-HasJoined q w t other h)

  -- A player who has joined an open session stays in it whoever joins one.
  pub Joins-HasJoined : {w later : World F} → Joins w later → HasJoined w → HasJoined later
  Joins-HasJoined no_call h = h
  Joins-HasJoined (by_id {w1} session_id q before e) h = subst HasJoined (sym e) (
      Call-HasJoined q w1 _ (join_match_session_by_id-Call q w1 session_id)
        (Joins-HasJoined before h))
  Joins-HasJoined (by_shortcode {w1} now q shortcode before e) h = subst HasJoined (sym e) (
      Call-HasJoined q w1 _ (join_current_match_session_by_shortcode-Call q w1 now shortcode)
        (Joins-HasJoined before h))
