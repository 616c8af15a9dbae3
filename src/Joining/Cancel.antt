-- ===== src/Joining/Cancel.antt =====
-- `CancelActiveMatchSession` of back_racing.go: who can leave, and what is written.
use kaepora.Base.{◌≡◌, refl, List, [], ◌∷◌, some, ap, ◌⊎◌, inl, inr, arith}
use kaepora.Base.Lists.{Each}
use kaepora.Base.Result.{Result, Error, ok, err, no_rows, public}
use kaepora.Clock.{Time}
use kaepora.Match.{Uuid}
use kaepora.Session.{MatchSession, can_cancel, remove_player_id, remove_ids, without}
use kaepora.Store.{World, transaction, stored}
use kaepora.Store.Rows.{update_session}
use kaepora.Store.Updates.{update_where-find, Each-find_self}
use kaepora.Joining.{get_player_active_session, cancel_active_match_session}
use kaepora.Joining.Active.{get_player_active_session-reads, active-Each}
use kaepora.Joining.Join.{IsKeyed, IsWhole, session_row, with_session}

-- The row of a session without a player.
abbrev pub left : Uuid → MatchSession → MatchSession
left player_id s = record s { player_ids = without player_id s.player_ids }

module _ {F : Type 0} where
  -- What leaving gives, by the active session of the player.
  abbrev pub cancel_outcome :
      Time → Uuid → Result MatchSession → World F → Result MatchSession × World F
  cancel_outcome now player_id active w = elim active [
    | err no_rows ↦ (err (public "you are not in any active race right now"), w)
    | err e ↦ (err e, w)
    | ok s ↦ elim (can_cancel now s) [
      | err e ↦ (err e, w)
      | ok _ ↦ elim (remove_player_id s player_id) [
        | err e ↦ (err e, w)
        | ok s' ↦ (ok (left player_id s), with_session s.id (left player_id) w)
      ]
    ]
  ]

  module _ (now : Time) (player_id : Uuid) (w : World F) where
    update_session-left :
        (s : MatchSession)
        → IsKeyed w.db
        → IsWhole s
        → session_row s.id w.db ≡ some s
        → update_session (left player_id s) w ≡ (ok tt, with_session s.id (left player_id) w)
    unfolding update_session
    update_session-left s keyed whole found =
        ap (λ rows. (ok tt, record w { db = record w.db { sessions = rows } }))
          (update_where-find (λ r. r.id) s.id
            (λ r. record r {
              start_date = stored s.start_date;
              status = s.status;
              player_ids = without player_id s.player_ids;
            })
            (left player_id) w.db.sessions s keyed found
            (ap (λ t. record s { start_date = t; player_ids = without player_id s.player_ids })
              whole))

    remove_ids-cases :
        (ids : List Uuid)
        → ((e : Error) × (remove_ids player_id ids ≡ err e))
          ⊎ (remove_ids player_id ids ≡ ok (without player_id ids))
    unfolding remove_ids
    remove_ids-cases [] = inl (_, refl)
    remove_ids-cases (k ∷ ids) = inr refl

    writes_left :
        (s : MatchSession)
        → IsKeyed w.db
        → IsWhole s
        → session_row s.id w.db ≡ some s
        → (get_player_active_session player_id w).0 ≡ ok s
        → cancel_active_match_session now player_id w ≡ cancel_outcome now player_id (ok s) w
    unfolding cancel_active_match_session transaction remove_player_id
    writes_left s keyed whole found active = elim (remove_ids-cases s.player_ids) [
      | inl (e, fails) ↦ ground (arith, get_player_active_session-reads player_id w)
      | inr goes ↦ ground (
        arith,
        get_player_active_session-reads player_id w,
        update_session-left s keyed whole found,
      )
    ]

    -- The sessions of a database whose start dates are whole seconds.
    abbrev pub AllWhole : Type 0
    AllWhole = Each IsWhole w.db.sessions

    cancel_of :
        (active : Result MatchSession)
        → IsKeyed w.db
        → AllWhole
        → (get_player_active_session player_id w).0 ≡ active
        → cancel_active_match_session now player_id w ≡ cancel_outcome now player_id active w
    unfolding cancel_active_match_session transaction
    cancel_of (err e) keyed whole active =
        ground (arith, get_player_active_session-reads player_id w)
    cancel_of (ok s) keyed whole active =
        writes_left s keyed (active-Each IsWhole player_id w s whole active)
          (active-Each (λ r. session_row r.id w.db ≡ some r) player_id w s
            (Each-find_self (λ r. r.id) w.db.sessions keyed) active)
          active

    -- What `CancelActiveMatchSession` does. A player without an active session, or with one that
    -- cannot be cancelled, gets an error and nothing changes. Else the row of the active session
    -- is written without the player, and nothing else; the session that is given back is that row.
    pub cancel_active_match_session_lem :
        IsKeyed w.db
        → AllWhole
        → cancel_active_match_session now player_id w
          ≡ cancel_outcome now player_id (get_player_active_session player_id w).0 w
    cancel_active_match_session_lem keyed whole = cancel_of _ keyed whole refl
