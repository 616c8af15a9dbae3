-- ===== src/Joining/Join.antt =====
-- `JoinMatchSessionByID` of back_racing.go: who can join, and what is written.
use kaepora.Base.{◌≡◌, [], ◌∷◌, ◌++◌, map, Option, some, false, ◌==◌, if◌then◌else◌, ap, arith}
use kaepora.Base.Lists.{find, has, IsNodup}
use kaepora.Base.Result.{Result, ok, err, no_rows, public}
use kaepora.Match.{Uuid}
use kaepora.Session.{MatchSession, has_player_id, add_player_id, add_ids}
use kaepora.Store.{League, Db, World, transaction, stored, update_where}
use kaepora.Store.Rows.{get_league_by_id, get_match_session_by_id, update_session}
use kaepora.Store.Updates.{update_where-find}
use kaepora.Joining.{
  already_registered, get_player_active_session, ensure_player_has_no_active_match,
  join_match_session_tx, join_match_session_by_id,
}
use kaepora.Joining.Active.{get_player_active_session-reads}

module _ {F : Type 0} where
  -- No two sessions of the database have the same id.
  abbrev pub IsKeyed : Db F → Type 0
  IsKeyed db = IsNodup (map (λ s. s.id) db.sessions)

  -- The row that a query by id finds.
  abbrev pub session_row : Uuid → Db F → Option MatchSession
  session_row id db = find (λ s. s.id == id) db.sessions

  abbrev pub league_row : Uuid → Db F → Option League
  league_row id db = find (λ l. l.id == id) db.leagues

-- What a start date is that comes from the database: whole seconds.
abbrev pub IsWhole : MatchSession → Type 0
IsWhole s = stored s.start_date ≡ s.start_date

-- The row of a session with one more player, behind the others.
abbrev pub joined : Uuid → MatchSession → MatchSession
joined player_id s = record s { player_ids = s.player_ids ++ player_id ∷ [] }

module _ {F : Type 0} where
  -- The world with one row of a session changed.
  abbrev pub with_session : Uuid → (MatchSession → MatchSession) → World F → World F
  with_session id change w = record w {
    db = record w.db { sessions = update_where (λ r. r.id == id) change w.db.sessions };
  }

  -- What joining a session gives, by the active session of the player.
  abbrev pub join_outcome :
      Uuid → MatchSession → League → Result MatchSession → World F → Result (Unit {0}) × World F
  join_outcome player_id s league active w =
      if has player_id s.player_ids then (err (already_registered league), w) else elim active [
        | ok session ↦ (err (public "you already have a race in progress"), w)
        | err no_rows ↦ (ok tt, with_session s.id (joined player_id) w)
        | err e ↦ (err e, w)
      ]

  update_session-joined :
      (player_id : Uuid) (w : World F) (s : MatchSession)
      → IsKeyed w.db
      → IsWhole s
      → session_row s.id w.db ≡ some s
      → has player_id s.player_ids ≡ false
      → update_session (add_player_id s (player_id ∷ [])) w
        ≡ (ok tt, with_session s.id (joined player_id) w)
  unfolding update_session add_player_id add_ids
  update_session-joined player_id w s keyed whole found fresh = rw fresh (
      ap (λ rows. (ok tt, record w { db = record w.db { sessions = rows } }))
        (update_where-find (λ r. r.id) s.id
          (λ r. record r {
            start_date = stored s.start_date;
            status = s.status;
            player_ids = s.player_ids ++ player_id ∷ [];
          })
          (joined player_id) w.db.sessions s keyed found
          (ap (λ t. record s { start_date = t; player_ids = s.player_ids ++ player_id ∷ [] })
            whole)))

  -- What `JoinMatchSessionByID` does, for a session and its league that are found: it refuses a
  -- player of the session, and one with an active session, and else writes the player behind the
  -- others of that session. It asks for no status, so a session that is waiting, preparing, in
  -- progress or closed is joined as well. All the other rows, and all else, stay as they are.
  pub join_match_session_by_id_lem :
      (player_id : Uuid) (w : World F) (s : MatchSession) (league : League)
      → IsKeyed w.db
      → IsWhole s
      → session_row s.id w.db ≡ some s
      → league_row s.league_id w.db ≡ some league
      → join_match_session_by_id s.id player_id w
        ≡ join_outcome player_id s league (get_player_active_session player_id w).0 w
  unfolding join_match_session_by_id transaction get_match_session_by_id get_league_by_id
      join_match_session_tx ensure_player_has_no_active_match has_player_id
  join_match_session_by_id_lem player_id w s league keyed whole found in_league = ground (
    arith,
    get_player_active_session-reads player_id w,
    update_session-joined player_id w s keyed whole found,
  )
