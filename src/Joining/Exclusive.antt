-- ===== src/Joining/Exclusive.antt =====
-- One active session at a time: who has joined an open session joins no other.
use Prim.Native.String.{String}
use kaepora.Clock.{Time}
use kaepora.Base.{
  subst, ◌≡◌, ◌≢◌, refl, ap, List, [], ◌∷◌, ◌++◌, some, true, false, ◌&&◌, ◌==◌, inl, inr, sym, ◌∙◌,
  ==_self, arith, leb,
}
use kaepora.Base.Lists.{IsNodup, has, has-append, Occurs, Occurs-find, Occurs-select}
use kaepora.Base.Result.{Result, ok, err, no_rows, is_ok}
use kaepora.Match.{Uuid}
use kaepora.Session.{MatchSession}
use kaepora.Store.{League, World, order_by}
use kaepora.Store.Order.{Occurs-order_with, Occurs-update_where}
use kaepora.Store.Rows.{get_match_by_player_and_session, is_match_of}
use kaepora.Joining.{
  is_open, active_of, open_sessions_of, get_player_active_session, join_match_session_by_id,
  join_current_match_session_by_shortcode,
}
use kaepora.Joining.Active.{get_match_by_player_and_session-reads}
use kaepora.Joining.Calls.{
  Joins, Call, refused, joins, IsUnmatched, HasJoined, Joins-HasJoined, keys-kept,
  join_match_session_by_id-Call, join_current_match_session_by_shortcode-Call,
}
use kaepora.Joining.Join.{
  IsKeyed, IsWhole, session_row, league_row, joined, with_session, join_outcome,
  join_match_session_by_id_lem,
}

has-joined :
    (player_id : Uuid) (s : MatchSession) → has player_id (s.player_ids ++ player_id ∷ []) ≡ true
unfolding has
has-joined player_id s = ground (arith, has-append player_id s.player_ids (player_id ∷ []))

module _ {F : Type 0} (player_id : Uuid) where
  get_match-no_rows :
      (s : MatchSession) (w : World F)
      → IsUnmatched player_id s w.db
      → get_match_by_player_and_session player_id s.id w ≡ (err no_rows, w)
  unfolding get_match_by_player_and_session
  get_match-no_rows s w h = ground arith

  active_of-found :
      (s : MatchSession) (w : World F) (sessions : List MatchSession)
      → IsUnmatched player_id s w.db
      → Occurs s sessions
      → (active_of player_id sessions w).0 ≢ err no_rows
  unfolding active_of
  active_of-found s w [] unmatched m = absurd m
  active_of-found s w (v ∷ sessions) unmatched (inl e) =
      λ wrong. ground (arith, ap (λ r. r.id) e, get_match-no_rows s w unmatched)
  active_of-found s w (v ∷ sessions) unmatched (inr m) = λ wrong. ground (
    arith,
    get_match_by_player_and_session-reads player_id w v.id,
    active_of-found s w sessions unmatched m,
  )

  active-found :
      (s : MatchSession) (w : World F)
      → IsUnmatched player_id s w.db
      → Occurs s w.db.sessions
      → is_open s.status ≡ true
      → has player_id s.player_ids ≡ true
      → (get_player_active_session player_id w).0 ≢ err no_rows
  unfolding get_player_active_session open_sessions_of
  active-found s w unmatched row is_open_s joined_s =
      active_of-found s w (open_sessions_of player_id w.db) unmatched (
        Occurs-select s (λ r. is_open r.status && has player_id r.player_ids)
          (order_by (λ r. r.start_date) w.db.sessions) (rw (is_open_s, joined_s) refl)
          (Occurs-order_with (λ a b. leb a.start_date b.start_date) s w.db.sessions row))

  has_active :
      (w : World F)
      → HasJoined player_id w
      → (get_player_active_session player_id w).0 ≢ err no_rows
  has_active w h = active-found h.session w h.unmatched h.row h.is_open_session h.inside

  refused_call :
      {B : Type 0} (w : World F) (r : Result B × World F)
      → Call player_id w r
      → HasJoined player_id w
      → is_ok r.0 ≡ false
  refused_call w r (refused e _) h = e
  refused_call w r (joins t idle _ _) h = absurd (has_active w h idle)

  joined-HasJoined :
      (w : World F) (s : MatchSession)
      → IsKeyed w.db
      → session_row s.id w.db ≡ some s
      → is_open s.status ≡ true
      → IsUnmatched player_id s w.db
      → HasJoined player_id (with_session s.id (joined player_id) w)
  unfolding is_match_of
  joined-HasJoined w s keyed found open_s unmatched = record {
    session = joined player_id s;
    row =
        Occurs-update_where (λ r. r.id == s.id) (joined player_id) s w.db.sessions (==_self s.id)
          (Occurs-find s (λ r. r.id == s.id) w.db.sessions found);
    is_open_session = open_s;
    inside = has-joined player_id s;
    unmatched = unmatched;
    keyed =
        subst IsNodup
          (sym (keys-kept (λ r. r.id == s.id) (joined player_id) w.db.sessions (λ r. refl))) keyed;
  }

  -- A player who has joined an open session (joinable, preparing or in progress) by its id, and
  -- has no match in it, joins no session, be it the same or another one: after any calls by which
  -- players join sessions, whoever they are, both ways to join refuse the player.
  pub join_match_session_by_id-exclusive :
      (w w' later : World F) (s : MatchSession) (league : League)
      → IsKeyed w.db
      → IsWhole s
      → session_row s.id w.db ≡ some s
      → league_row s.league_id w.db ≡ some league
      → is_open s.status ≡ true
      → IsUnmatched player_id s w.db
      → join_match_session_by_id s.id player_id w ≡ (ok tt, w')
      → Joins w' later
      → ((session_id : Uuid)
          → is_ok (join_match_session_by_id session_id player_id later).0 ≡ false)
        × ((now : Time) (shortcode : String)
            → is_ok (join_current_match_session_by_shortcode now player_id shortcode later).0
              ≡ false)
  join_match_session_by_id-exclusive w w' later s league keyed whole found in_league open_s
        unmatched goes calls =
      let now_joined : HasJoined player_id w' =
        subst (HasJoined player_id) (sym (world goes))
          (joined-HasJoined w s keyed found open_s unmatched) in
      let still = Joins-HasJoined player_id calls now_joined in
      (
        (λ session_id.
            refused_call later _ (join_match_session_by_id-Call player_id later session_id) still),
        (λ now shortcode.
            refused_call later _
              (join_current_match_session_by_shortcode-Call player_id later now shortcode) still),
      )
    where
      outcome-world :
          (active : Result MatchSession)
          → join_outcome player_id s league active w ≡ (ok tt, w')
          → w' ≡ with_session s.id (joined player_id) w
      outcome-world (ok r) e = ground arith
      outcome-world (err x) e = ground arith

      world :
          join_match_session_by_id s.id player_id w ≡ (ok tt, w')
          → w' ≡ with_session s.id (joined player_id) w
      world e =
          outcome-world (get_player_active_session player_id w).0 (
            sym (join_match_session_by_id_lem player_id w s league keyed whole found in_league) ∙ e)
