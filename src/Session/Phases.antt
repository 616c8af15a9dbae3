-- ===== src/Session/Phases.antt =====
-- When a player may cancel and when a player may forfeit: `canCancel` and `canForfeit` of
-- match_session.go.
use kaepora.Base.{◌+◌, ◌*◌, ◌≤◌, ◌≡◌, ◌↔◌, ◌⊎◌, false, ◌&&◌, arith}
use kaepora.Base.Result.{ok, is_ok}
use kaepora.Clock.{Time, minute}
use kaepora.Session.{MatchSession, joinable, preparing, in_progress, can_cancel, can_forfeit}

-- A player can cancel exactly in the joinable phase, up to 15 minutes before the start, and can
-- forfeit exactly once the session is preparing or in progress. So no session allows both.
pub can_cancel-can_forfeit :
    (now : Time) (s : MatchSession)
    → ((can_cancel now s ≡ ok tt) ↔ (s.status ≡ joinable) × (now + 15 * minute ≤ s.start_date))
      × ((can_forfeit now s ≡ ok tt) ↔ (s.status ≡ preparing) ⊎ (s.status ≡ in_progress))
      × ((is_ok (can_cancel now s) && is_ok (can_forfeit now s)) ≡ false)
unfolding can_cancel can_forfeit
can_cancel-can_forfeit now s =
    ((ground arith, ground arith), (ground arith, ground arith), ground arith)
