-- ===== src/Lifecycle/Succeeds.antt =====
-- The periodic tasks on sessions succeed where the rows that they refer to are there.
use mathlib.Core.Path.{fun_ext}
use kaepora.Base.{
  ℕ, ◌+◌, ◌/◌, ◌&&◌, Bool, ◌≡◌, refl, subst, sym, map, leb, List, [], ◌∷◌, some, ◌==◌, ltb,
  Bool-cases, inl, inr, arith,
}
use kaepora.Base.Lists.{length, select, find, Each, Each-select}
use kaepora.Base.Result.{ok}
use kaepora.Clock.{Time, second}
use kaepora.Match.{Uuid}
use kaepora.Rating.{Player}
use kaepora.Session.{MatchSession, SessionStatus, closed, is_waiting, is_joinable}
use kaepora.Store.{channel, session_empty, Db, World, Action, transaction, League}
use kaepora.Store.Rows.{get_league_by_id, get_player_by_id, update_session}
use kaepora.Joining.Join.{league_row, IsKeyed, IsWhole}
use kaepora.Lifecycle.{
  for_each, is_due_to_join, is_due_to_prepare, send_session_status_update_notification,
  send_match_session_empty_notification, send_match_session_empty_player_notification,
  make_joinable, make_match_sessions_joinable, make_preparing, get_match_sessions_to_prepare,
  make_match_sessions_preparing,
}
use kaepora.Lifecycle.Phases.{
  set_preparing, prepared_lem, with_status, make_match_sessions_joinable_lem,
  make_match_sessions_preparing_lem, Writes, to_joinable, to_prepare, make_joinable-Writes,
  make_preparing-Writes,
}

-- A session starts more than so many seconds after a time, and at most so many, in whole seconds.
abbrev pub starts_within : ℕ → ℕ → Time → MatchSession → Bool
starts_within more most now s =
    ltb (now / second + more) (s.start_date / second)
    && leb (s.start_date / second) (now / second + most)

-- A session waits, and starts in more than 15 and at most 60 minutes.
abbrev pub opens : Time → MatchSession → Bool
opens now s = starts_within 900 3600 now s && is_waiting s.status

-- A session can be joined, and starts in at most 15 minutes, but has not started.
abbrev pub fills : Time → MatchSession → Bool
fills now s = starts_within 0 900 now s && is_joinable s.status

due_to_join-opens : (now : Time) → is_due_to_join now ≡ opens now
unfolding is_due_to_join
due_to_join-opens now = fun_ext λ s. ground arith

due_to_prepare-fills : (now : Time) → is_due_to_prepare now ≡ fills now
unfolding is_due_to_prepare
due_to_prepare-fills now = fun_ext λ s. ground arith

module _ {F : Type 0} where
  abbrev pub HasPlayer : Db F → Uuid → Type 0
  HasPlayer db id = (p : Player F) × (find (λ r. r.id == id) db.players ≡ some p)

  -- The league and the players that a session refers to are rows of the database.
  abbrev pub IsLinked : Db F → MatchSession → Type 0
  IsLinked db s =
      ((l : League) × (league_row s.league_id db ≡ some l)) × Each (HasPlayer db) s.player_ids

  abbrev Goes : (MatchSession → Action F (Unit {0})) → Type 0
  Goes body = (s : MatchSession) (w : World F) → IsLinked w.db s → (body s w).0 ≡ ok tt

  for_each-Goes :
      (status : MatchSession → SessionStatus) (body : MatchSession → Action F (Unit {0}))
      → Writes status body
      → Goes body
      → (sel : List MatchSession) (w : World F) → Each (IsLinked w.db) sel
      → (for_each body sel w).0 ≡ ok tt
  for_each-Goes status body writes goes [] w h = refl
  for_each-Goes status body writes goes (s ∷ sel) w (linked, h) = ground (
    arith,
    goes s w linked,
    for_each-Goes status body writes goes sel (body s w).1
        (subst (λ db. Each (IsLinked db) sel) (sym (writes s w (goes s w linked))) h),
  )

  make_joinable-Goes : Goes make_joinable
  unfolding make_joinable update_session send_session_status_update_notification get_league_by_id
  make_joinable-Goes s w ((l, found), players) = ground arith

  notify_players-goes :
      (session_id : Uuid) (ids : List Uuid) (w : World F)
      → Each (HasPlayer w.db) ids
      → (for_each (send_match_session_empty_player_notification session_id) ids w).0 ≡ ok tt
  unfolding send_match_session_empty_player_notification get_player_by_id
  notify_players-goes session_id [] w h = refl
  notify_players-goes session_id (id ∷ ids) w ((p, found), h) = ground (
    arith,
    notify_players-goes session_id ids
        (send_match_session_empty_player_notification session_id id w).1,
  )

  send_empty-goes :
      (s : MatchSession) (ids : List Uuid) (w : World F) (l : League)
      → league_row s.league_id w.db ≡ some l
      → Each (HasPlayer w.db) ids
      → (send_match_session_empty_notification s ids w).0 ≡ ok tt
  unfolding send_match_session_empty_notification get_league_by_id
  send_empty-goes s ids w l found players = ground (
    arith,
    found,
    notify_players-goes s.id ids
        (record w {
          sent =
              record {
                recipient = channel l.announce_discord_channel_id;
                kind = session_empty s.id;
              }
              ∷ w.sent;
        })
        players,
  )

  make_preparing-Goes : Goes make_preparing
  unfolding make_preparing update_session send_session_status_update_notification
      send_match_session_empty_notification get_league_by_id
  make_preparing-Goes s w ((l, found), players) = elim (Bool-cases (ltb (length s.player_ids) 2)) [
    | inl few ↦ ground (
      arith,
      send_empty-goes (record s { status = closed }) s.player_ids
          (update_session (record s { status = closed }) w).1 l found players,
    )
    | inr enough ↦ ground arith
  ]

  module _ (now : Time) (w : World F) (keyed : IsKeyed w.db) (whole : Each IsWhole w.db.sessions)
      (linked : Each (IsLinked w.db) w.db.sessions) where
    make_match_sessions_joinable-goes : (make_match_sessions_joinable now w).0 ≡ ok tt
    unfolding make_match_sessions_joinable transaction
    make_match_sessions_joinable-goes = ground (
      arith,
      for_each-Goes to_joinable make_joinable make_joinable-Writes make_joinable-Goes
          (select (is_due_to_join now) w.db.sessions) w
          (Each-select (IsLinked w.db) (is_due_to_join now) w.db.sessions linked),
    )

    -- Where the sessions of the database have different ids, start at whole seconds, and refer to a
    -- league and to players that are there: `makeMatchSessionsJoinable` succeeds, the sessions that
    -- wait and start more than 15 and at most 60 minutes from now, in whole seconds, are joinable
    -- after it, and nothing else in the database has changed.
    pub make_match_sessions_joinable-total :
        ((make_match_sessions_joinable now w).0 ≡ ok tt)
        × ((make_match_sessions_joinable now w).1.db
            ≡ record w.db { sessions = with_status (opens now) to_joinable w.db.sessions })
    make_match_sessions_joinable-total = (
      make_match_sessions_joinable-goes,
      subst
          (λ p.
            (make_match_sessions_joinable now w).1.db
            ≡ record w.db { sessions = with_status p to_joinable w.db.sessions })
          (due_to_join-opens now)
          (make_match_sessions_joinable_lem now w keyed whole make_match_sessions_joinable-goes),
    )

    -- What `makeMatchSessionsPreparing` gives back: the joinable sessions that start in time and
    -- that two players have joined, as preparing.
    abbrev pub now_preparing : List MatchSession
    now_preparing =
        map set_preparing
          (select (λ s. leb 2 (length s.player_ids)) (select (fills now) w.db.sessions))

    make_match_sessions_preparing-goes : (make_match_sessions_preparing now w).0 ≡ ok now_preparing
    unfolding make_match_sessions_preparing get_match_sessions_to_prepare transaction
    make_match_sessions_preparing-goes = ground (
      arith,
      for_each-Goes to_prepare make_preparing make_preparing-Writes make_preparing-Goes
          (select (is_due_to_prepare now) w.db.sessions) w
          (Each-select (IsLinked w.db) (is_due_to_prepare now) w.db.sessions linked),
      prepared_lem (select (is_due_to_prepare now) w.db.sessions),
      due_to_prepare-fills now,
    )

    -- Where the sessions of the database have different ids, start at whole seconds, and refer to
    -- a league and to players that are there: `makeMatchSessionsPreparing` succeeds, and the
    -- joinable sessions that start after now and at most 15 minutes from now, in whole seconds,
    -- are closed after it if fewer than two players have joined, and else preparing; nothing else
    -- in the database has changed. The sessions given back are those that are now preparing.
    pub make_match_sessions_preparing-total :
        ((make_match_sessions_preparing now w).0 ≡ ok now_preparing)
        × ((make_match_sessions_preparing now w).1.db
            ≡ record w.db { sessions = with_status (fills now) to_prepare w.db.sessions })
    make_match_sessions_preparing-total = (
      make_match_sessions_preparing-goes,
      subst
          (λ p.
            (make_match_sessions_preparing now w).1.db
            ≡ record w.db { sessions = with_status p to_prepare w.db.sessions })
          (due_to_prepare-fills now) (writes_due now_preparing make_match_sessions_preparing-goes),
    )
      where
        writes_due :
            (ret : List MatchSession)
            → (make_match_sessions_preparing now w).0 ≡ ok ret
            → (make_match_sessions_preparing now w).1.db ≡ record w.db {
              sessions = with_status (is_due_to_prepare now) to_prepare w.db.sessions;
            }
        writes_due ret e = (make_match_sessions_preparing_lem now w keyed whole ret e).0
