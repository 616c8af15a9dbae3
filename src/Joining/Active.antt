-- ===== src/Joining/Active.antt =====
-- The queries of `getPlayerActiveSession` only read.
use kaepora.Base.{◌≡◌, List, [], ◌∷◌, arith, leb}
use kaepora.Match.{Uuid}
use kaepora.Session.{MatchSession}
use kaepora.Base.Lists.{Each, Each-find, Each-select}
use kaepora.Base.Result.{ok}
use kaepora.Store.{World, order_by}
use kaepora.Store.Order.{Each-order_with}
use kaepora.Store.Rows.{get_match_by_player_and_session, inject_entries}
use kaepora.Joining.{
  active_of, get_player_active_started_session, get_player_active_session, open_sessions_of,
  is_running_in,
}

module _ {F : Type 0} (player_id : Uuid) (w : World F) where
  pub get_match_by_player_and_session-reads :
      (session_id : Uuid) → (get_match_by_player_and_session player_id session_id w).1 ≡ w
  unfolding get_match_by_player_and_session inject_entries
  get_match_by_player_and_session-reads session_id = ground arith

  get_player_active_started_session-reads : (get_player_active_started_session player_id w).1 ≡ w
  unfolding get_player_active_started_session
  get_player_active_started_session-reads = ground arith

  active_of-reads : (sessions : List MatchSession) → (active_of player_id sessions w).1 ≡ w
  unfolding active_of
  active_of-reads [] = get_player_active_started_session-reads
  active_of-reads (v ∷ sessions) =
      ground (arith, get_match_by_player_and_session-reads v.id, active_of-reads sessions)

  pub get_player_active_session-reads : (get_player_active_session player_id w).1 ≡ w
  unfolding get_player_active_session
  get_player_active_session-reads = active_of-reads (open_sessions_of player_id w.db)

module _ {κ} {F : Type 0} (P : MatchSession → Type κ) (player_id : Uuid) (w : World F) where
  started-Each :
      (s : MatchSession)
      → Each P w.db.sessions
      → (get_player_active_started_session player_id w).0 ≡ ok s
      → P s
  unfolding get_player_active_started_session
  started-Each s h e =
      Each-find P (is_running_in w.db player_id) (order_by (λ r. r.start_date) w.db.sessions) s
        (Each-order_with P (λ a b. leb a.start_date b.start_date) w.db.sessions h) (ground arith)

  active_of-Each :
      (sessions : List MatchSession) (s : MatchSession)
      → Each P w.db.sessions
      → Each P sessions
      → (active_of player_id sessions w).0 ≡ ok s
      → P s
  unfolding active_of
  active_of-Each [] s all h e = started-Each s all e
  active_of-Each (v ∷ sessions) s all (hv, h) e = ground (
    arith,
    get_match_by_player_and_session-reads player_id w v.id,
    active_of-Each sessions s all h,
  )

  -- The active session is a row of the database.
  pub active-Each :
      (s : MatchSession)
      → Each P w.db.sessions
      → (get_player_active_session player_id w).0 ≡ ok s
      → P s
  unfolding get_player_active_session open_sessions_of
  active-Each s h e =
      active_of-Each (open_sessions_of player_id w.db) s h
        (Each-select P _ (order_by (λ r. r.start_date) w.db.sessions)
          (Each-order_with P (λ a b. leb a.start_date b.start_date) w.db.sessions h))
        e
