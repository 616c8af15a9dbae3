-- ===== src/Lifecycle/Scheduled/Body.antt =====
-- What the body of the loop of `createNextScheduledMatchSessions` does.
use kaepora.Base.{
  suc, ◌≡◌, ◌≢◌, ◌⊎◌, inl, inr, [], ◌∷◌, ◌++◌, some, true, false, ◌==◌, ==_iff, Bool-cases,
  Option-cases, arith,
}
use kaepora.Base.Lists.{find, any, any-append}
use kaepora.Base.Result.{ok}
use kaepora.Clock.{Time}
use kaepora.Session.{MatchSession, waiting, new_match_session}
use kaepora.Store.{League, World, Notification, channel, status_update, stored}
use kaepora.Store.Rows.{insert_session, get_league_by_id}
use kaepora.Joining.Join.{league_row}
use kaepora.Schedule.DayOfWeek.{LoadLocation}
use kaepora.Schedule.Config.{Unmarshal}
use kaepora.Lifecycle.{send_session_status_update_notification}
use kaepora.Lifecycle.Scheduled.{
  get_match_session_by_start_date, create_session, create_next_session,
}
use kaepora.Lifecycle.Scheduled.Rows.{starts_at, find-any, any-find, new_row, IsUnused, next_of}

module _ {F : Type 0} (unmarshal : Unmarshal) (load_location : LoadLocation) (now : Time) where
  insert_session-new :
      (s : MatchSession) (w : World F)
      → any (λ r. r.id == s.id) w.db.sessions ≡ false
      → insert_session s w ≡ (
        ok tt,
        record w {
          db = record w.db {
            sessions =
                w.db.sessions
                ++ record s { created_at = stored s.created_at; start_date = stored s.start_date }
                  ∷ [];
          };
        },
      )
  unfolding insert_session
  insert_session-new s w fresh = ground arith

  -- The notice of a new session.
  abbrev notice : League → World F → Notification
  notice l w = record {
    recipient = channel l.announce_discord_channel_id;
    kind = status_update (w.uuids 0) waiting;
  }

  -- The world with a session more, and its notification.
  abbrev pub with_new : League → Time → Notification → World F → World F
  with_new l next n w = record w {
    db = record w.db { sessions = w.db.sessions ++ new_row (w.uuids 0) now l.id next ∷ [] };
    sent = n ∷ w.sent;
    uuids = λ k. w.uuids (suc k);
  }

  create_session-new :
      (l : League) (next : Time) (w : World F) (l' : League)
      → league_row l.id w.db ≡ some l'
      → IsUnused w
      → create_session now l next w ≡ (ok tt, with_new l next (notice l' w) w)
  unfolding create_session new_match_session send_session_status_update_notification
      get_league_by_id
  create_session-new l next w l' found unused = ground (
    arith,
    found,
    insert_session-new (new_match_session (w.uuids 0) now l.id next)
        (record w { uuids = λ n. w.uuids (suc n) }) (unused.no_session 0),
  )

  pub with_new-IsUnused :
      (l : League) (next : Time) (n : Notification) (w : World F)
      → IsUnused w
      → IsUnused (with_new l next n w)
  unfolding any
  with_new-IsUnused l next n w unused = record {
    different = λ i k e. omega (arith, unused.different (suc i) (suc k) e);
    no_session = λ k. ground (
      arith,
      any-append (λ r. r.id == w.uuids (suc k)) w.db.sessions
          (new_row (w.uuids 0) now l.id next ∷ []),
      unused.no_session (suc k),
      unused.different 0 (suc k),
    );
  }

  -- What the body of the loop does: nothing, or a session more.
  pub data Body (l : League) (next : Time) (w : World F) : Type 0 where
    keeps :
        create_next_session unmarshal load_location now l w ≡ (ok tt, w)
        → (next ≡ 0) ⊎ (any (starts_at l.id (stored next)) w.db.sessions ≡ true)
        → Body l next w
    creates :
        (n : Notification)
        → create_next_session unmarshal load_location now l w ≡ (ok tt, with_new l next n w)
        → next ≢ 0
        → any (starts_at l.id (stored next)) w.db.sessions ≡ false
        → Body l next w

  pub body :
      (l : League) (next : Time) (w : World F) (l' : League)
      → next_of unmarshal load_location now l ≡ ok next
      → league_row l.id w.db ≡ some l'
      → IsUnused w
      → Body l next w
  unfolding create_next_session get_match_session_by_start_date
  body l next w l' asked found unused = elim (Bool-cases (next == 0)) [
    | inl none_planned ↦ keeps (ground (arith, asked)) (inl ((==_iff next 0).0 none_planned))
    | inr planned ↦ elim (Option-cases (find (starts_at l.id (stored next)) w.db.sessions)) [
      | inl free ↦
          creates (notice l' w)
            (ground (arith, asked, planned, free, create_session-new l next w l' found unused))
            (λ e. ground arith) (find-any _ w.db.sessions free)
      | inr (s, there) ↦
          keeps (ground (arith, asked, planned, there)) (inr (any-find _ w.db.sessions s there))
    ]
  ]

  pub keeps_held :
      (l : League) (next : Time) (w : World F)
      → next_of unmarshal load_location now l ≡ ok next
      → (next ≡ 0) ⊎ (any (starts_at l.id (stored next)) w.db.sessions ≡ true)
      → create_next_session unmarshal load_location now l w ≡ (ok tt, w)
  unfolding create_next_session get_match_session_by_start_date
  keeps_held l next w asked (inl none_planned) = ground (arith, asked)
  keeps_held l next w asked (inr there) =
      elim (Option-cases (find (starts_at l.id (stored next)) w.db.sessions)) [
        | inl free ↦ absurd (ground (arith, find-any _ w.db.sessions free))
        | inr (s, found) ↦ ground (arith, asked, found)
      ]
