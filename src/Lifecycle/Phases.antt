-- ===== src/Lifecycle/Phases.antt =====
-- What the periodic tasks write to the table of the sessions.
use kaepora.Base.{
  ◌≡◌, refl, ap, ◌∙◌, List, [], ◌∷◌, map, Bool, ◌==◌, ltb, leb, if◌then◌else◌, Bool-cases, inl, inr,
  arith,
}
use kaepora.Base.Lists.{length, select, IsNodup, Each}
use kaepora.Base.Result.{ok}
use kaepora.Clock.{Time}
use kaepora.Match.{Uuid}
use kaepora.Session.{MatchSession, SessionStatus, joinable, preparing, closed}
use kaepora.Store.{World, Action, transaction, stored, update_where}
use kaepora.Store.Rows.{update_session, get_league_by_id, get_player_by_id}
use kaepora.Joining.Join.{IsKeyed, IsWhole}
use kaepora.Lifecycle.{
  for_each, is_due_to_join, is_due_to_prepare, send_session_status_update_notification,
  send_match_session_empty_notification, send_match_session_empty_player_notification,
  make_joinable, make_match_sessions_joinable, make_preparing, prepared,
  get_match_sessions_to_prepare, make_match_sessions_preparing,
}
use kaepora.Lifecycle.Tables.{update_all, update_all-select}

-- What an update takes from the session that it writes, which has been given a status.
abbrev pub written : (MatchSession → SessionStatus) → MatchSession → MatchSession → MatchSession
written status s r = record r {
  start_date = stored s.start_date;
  status = status s;
  player_ids = s.player_ids;
}

abbrev pub to_joinable : MatchSession → SessionStatus
to_joinable s = joinable

abbrev pub to_prepare : MatchSession → SessionStatus
to_prepare s = if ltb (length s.player_ids) 2 then closed else preparing

-- A table of sessions where those that a test selects have a new status.
abbrev pub with_status :
    (MatchSession → Bool) → (MatchSession → SessionStatus) → List MatchSession → List MatchSession
with_status p status rows = map (λ r. if p r then record r { status = status r } else r) rows

module _ {F : Type 0} where
  -- The body of a loop writes the table of the sessions by one update, and no other table.
  abbrev pub Writes : (MatchSession → SessionStatus) → (MatchSession → Action F (Unit {0})) → Type 0
  Writes status body =
      (s : MatchSession) (w : World F)
      → (body s w).0 ≡ ok tt
      → (body s w).1.db ≡ record w.db {
        sessions = update_where (λ r. r.id == s.id) (written status s) w.db.sessions;
      }

  for_each-update_all :
      (status : MatchSession → SessionStatus) (body : MatchSession → Action F (Unit {0}))
      → Writes status body
      → (sel : List MatchSession) (w : World F) → (for_each body sel w).0 ≡ ok tt
      → (for_each body sel w).1.db
        ≡ record w.db { sessions = update_all (λ s. s.id) (written status) sel w.db.sessions }
  for_each-update_all status body writes [] w h = refl
  for_each-update_all status body writes (s ∷ sel) w h =
      ground (arith, writes s w, for_each-update_all status body writes sel (body s w).1)

  pub make_joinable-Writes : Writes to_joinable make_joinable
  unfolding make_joinable update_session send_session_status_update_notification get_league_by_id
  make_joinable-Writes s w h = ground arith

  notify_players-db :
      (session_id : Uuid) (ids : List Uuid) (w : World F)
      → (for_each (send_match_session_empty_player_notification session_id) ids w).1.db ≡ w.db
  unfolding send_match_session_empty_player_notification get_player_by_id
  notify_players-db session_id [] w = refl
  notify_players-db session_id (id ∷ ids) w = ground (
    arith,
    notify_players-db session_id ids
        (send_match_session_empty_player_notification session_id id w).1,
  )

  send_empty-db :
      (s : MatchSession) (ids : List Uuid) (w : World F)
      → (send_match_session_empty_notification s ids w).1.db ≡ w.db
  unfolding send_match_session_empty_notification get_league_by_id
  send_empty-db s ids w = grind (arith, notify_players-db s.id ids)

  send_status-db :
      (s : MatchSession) (w : World F) → (send_session_status_update_notification s w).1.db ≡ w.db
  unfolding send_session_status_update_notification get_league_by_id
  send_status-db s w = ground arith

  pub make_preparing-Writes : Writes to_prepare make_preparing
  unfolding make_preparing update_session
  make_preparing-Writes s w h = elim (Bool-cases (ltb (length s.player_ids) 2)) [
    | inl few ↦ ground (
      arith,
      send_empty-db (record s { status = closed }) s.player_ids
          (update_session (record s { status = closed }) w).1,
    )
    | inr enough ↦ ground (
      arith,
      send_status-db (record s { status = preparing })
          (update_session (record s { status = preparing }) w).1,
    )
  ]

-- In a table of whole seconds, an update of a row by itself changes its status alone.
map-written :
    (p : MatchSession → Bool) (status : MatchSession → SessionStatus) (rows : List MatchSession)
    → Each IsWhole rows
    → map (λ r. if p r then written status r r else r) rows ≡ with_status p status rows
map-written p status [] h = refl
map-written p status (r ∷ rows) (whole, h) =
    ap2 (λ t l. (if p r then record r { start_date = t; status = status r } else r) ∷ l) whole
      (map-written p status rows h)
  where
    ap2 : {A B C : Type 0} (f : A → B → C) {a a' : A} {b b' : B} → a ≡ a' → b ≡ b' → f a b ≡ f a' b'
    ap2 f e e' = cc

update_all-with_status :
    (p : MatchSession → Bool) (status : MatchSession → SessionStatus) (rows : List MatchSession)
    → IsNodup (map (λ s. s.id) rows)
    → Each IsWhole rows
    → update_all (λ s. s.id) (written status) (select p rows) rows ≡ with_status p status rows
update_all-with_status p status rows keyed whole =
    update_all-select (λ s. s.id) (written status) (λ s r. refl) p rows keyed
    ∙ map-written p status rows whole

abbrev pub set_preparing : MatchSession → MatchSession
set_preparing s = record s { status = preparing }

pub prepared_lem :
    (sessions : List MatchSession)
    → prepared sessions ≡ map set_preparing (select (λ s. leb 2 (length s.player_ids)) sessions)
unfolding prepared select
prepared_lem [] = refl
prepared_lem (s ∷ sessions) = ground (arith, prepared_lem sessions)

module _ {F : Type 0} (now : Time) (w : World F) (keyed : IsKeyed w.db)
    (whole : Each IsWhole w.db.sessions) where
  transaction-db :
      (p : MatchSession → Bool) (status : MatchSession → SessionStatus)
      (body : MatchSession → Action F (Unit {0}))
      → Writes status body
      → (for_each body (select p w.db.sessions) w).0 ≡ ok tt
      → (for_each body (select p w.db.sessions) w).1.db
        ≡ record w.db { sessions = with_status p status w.db.sessions }
  transaction-db p status body writes goes =
      for_each-update_all status body writes (select p w.db.sessions) w goes
      ∙ ap (λ rows. record w.db { sessions = rows })
          (update_all-with_status p status w.db.sessions keyed whole)

  pub make_match_sessions_joinable_lem :
      (make_match_sessions_joinable now w).0 ≡ ok tt
      → (make_match_sessions_joinable now w).1.db
        ≡ record w.db { sessions = with_status (is_due_to_join now) to_joinable w.db.sessions }
  unfolding make_match_sessions_joinable transaction
  make_match_sessions_joinable_lem goes =
      ground
        (arith, transaction-db (is_due_to_join now) to_joinable make_joinable make_joinable-Writes)

  pub make_match_sessions_preparing_lem :
      (ret : List MatchSession)
      → (make_match_sessions_preparing now w).0 ≡ ok ret
      → ((make_match_sessions_preparing now w).1.db
          ≡ record w.db { sessions = with_status (is_due_to_prepare now) to_prepare w.db.sessions })
        × (ret
            ≡ map set_preparing (
                select
                  (λ s. leb 2 (length s.player_ids))
                  (select (is_due_to_prepare now) w.db.sessions)))
  unfolding make_match_sessions_preparing get_match_sessions_to_prepare transaction
  make_match_sessions_preparing_lem ret goes = (
    ground (
      arith,
      transaction-db (is_due_to_prepare now) to_prepare make_preparing make_preparing-Writes,
    ),
    ground (arith, prepared_lem (select (is_due_to_prepare now) w.db.sessions)),
  )
