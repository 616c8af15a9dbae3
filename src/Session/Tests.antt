-- ===== src/Session/Tests.antt =====
-- Four players who join a session (match_session_test.go), and its phases.
use kaepora.Base.{
  ◌+◌, ◌*◌, ◌≤◌, ◌≡◌, ◌≢◌, ◌↔◌, ◌⊎◌, refl, [], ◌∷◌, ◌++◌, true, false, ◌||◌, ◌&&◌, ◌==◌,
  if◌then◌else◌,
}
use kaepora.Base.Lists.{has, IsNodup}
use kaepora.Base.Result.{ok, is_ok, is_panic}
use kaepora.Clock.{minute, hour}
use kaepora.Match.{Uuid}
use kaepora.Session.{
  MatchSession, joinable, preparing, in_progress, has_player_id, new_match_session, add_player_id,
  remove_player_id, can_cancel, can_forfeit,
}
use kaepora.Session.Players.{
  firsts, missing_from, add_player_id_lem, remove_player_id_lem, remove_player_id-add_player_id,
}
use kaepora.Session.Phases.{can_cancel-can_forfeit}

abbrev empty_session : MatchSession
unfolding new_match_session
empty_session = new_match_session 1 (5 * hour) 2 (7 * hour)

abbrev joined : MatchSession
unfolding empty_session add_player_id
joined = add_player_id empty_session (1 ∷ 2 ∷ 3 ∷ 1 ∷ 4 ∷ 3 ∷ [])

order_is_kept : remove_player_id joined 1 ≡ ok (record joined { player_ids = 2 ∷ 3 ∷ 4 ∷ [] })
unfolding joined remove_player_id
order_is_kept = refl

add_player_id_lem_example :
    (add_player_id empty_session (3 ∷ 3 ∷ []) ≡ record empty_session {
      player_ids =
          empty_session.player_ids ++ missing_from empty_session.player_ids (firsts (3 ∷ 3 ∷ []));
    })
    × ((a : Uuid)
        → has_player_id (add_player_id empty_session (3 ∷ 3 ∷ [])) a
          ≡ (has_player_id empty_session a || has a (3 ∷ 3 ∷ [])))
    × (IsNodup empty_session.player_ids
        → IsNodup (add_player_id empty_session (3 ∷ 3 ∷ [])).player_ids)
add_player_id_lem_example = add_player_id_lem empty_session (3 ∷ 3 ∷ [])

remove_player_id_lem_example :
    ((joined.player_ids ≢ [])
      → (t : MatchSession) × (remove_player_id joined 3 ≡ ok t)
        × (t ≡ record joined { player_ids = t.player_ids })
        × ((a : Uuid) → has_player_id t a ≡ (if 3 == a then false else has_player_id joined a))
        × (IsNodup joined.player_ids → IsNodup t.player_ids))
    × ((joined.player_ids ≡ []) → is_panic (remove_player_id joined 3) ≡ true)
remove_player_id_lem_example = remove_player_id_lem joined 3

remove_player_id-add_player_id_example :
    remove_player_id (add_player_id joined (9 ∷ [])) 9 ≡ ok joined
unfolding joined has_player_id
remove_player_id-add_player_id_example = remove_player_id-add_player_id joined 9 refl

can_cancel-can_forfeit_example :
    ((can_cancel (6 * hour) joined ≡ ok tt)
      ↔ (joined.status ≡ joinable) × (6 * hour + 15 * minute ≤ joined.start_date))
    × ((can_forfeit (6 * hour) joined ≡ ok tt)
        ↔ (joined.status ≡ preparing) ⊎ (joined.status ≡ in_progress))
    × ((is_ok (can_cancel (6 * hour) joined) && is_ok (can_forfeit (6 * hour) joined)) ≡ false)
can_cancel-can_forfeit_example = can_cancel-can_forfeit (6 * hour) joined
