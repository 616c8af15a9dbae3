-- ===== src/Matchmaking/Valid.antt =====
-- What `ensureSessionIsValidForMatchMaking` of back_matchmaking.go writes and gives back.
use kaepora.Base.{
  ℕ, ◌%◌, ◌≡◌, ◌⊎◌, inl, inr, ap, sym, subst, List, [], ◌∷◌, ◌++◌, none, some, true, ltb, ◌==◌,
  ==_iff, Bool-cases, if◌then◌else◌, arith,
}
use kaepora.Base.Lists.{length, has, IsNodup, Each}
use kaepora.Base.Result.{ok}
use kaepora.Session.{MatchSession, preparing, remove_player_id}
use kaepora.Store.{World, Notification, user, odd_kick, stored}
use kaepora.Store.Rows.{update_session, get_player_by_id}
use kaepora.Store.Updates.{update_where-find}
use kaepora.Joining.Join.{IsKeyed, IsWhole, session_row, with_session}
use kaepora.Lifecycle.Succeeds.{HasPlayer}
use kaepora.Matchmaking.{
  kick_odd_player, ensure_session_is_valid_for_match_making, last_player,
  send_odd_kick_notification,
}
use kaepora.Matchmaking.Kept.{kept, kept-even, odd_last}

Each-has : (P : ℕ → Type 0) (x : ℕ) (ids : List ℕ) → has x ids ≡ true → Each P ids → P x
unfolding has
Each-has P x [] h e = absurd (cc)
Each-has P x (y ∷ ids) h (hy, hs) = elim (Bool-cases (y == x)) [
  | inl same ↦ subst P ((==_iff y x).0 same) hy
  | inr other ↦ Each-has P x ids (ground arith) hs
]

parity : (n : ℕ) → (n % 2 ≡ 0) ⊎ (n % 2 ≡ 1)
parity n = omega arith

-- A session with the players who stay.
abbrev pub with_kept : MatchSession → MatchSession
with_kept s = record s { player_ids = kept s.player_ids }

module _ {F : Type 0} where
  kick-even :
      (s : MatchSession) (w : World F)
      → length s.player_ids % 2 ≡ 0
      → kick_odd_player s w ≡ (ok s, w)
  unfolding kick_odd_player
  kick-even s w even = ground arith

  kick-odd :
      (s : MatchSession) (w : World F)
      → length s.player_ids % 2 ≡ 1
      → IsNodup s.player_ids
      → Each (HasPlayer w.db) s.player_ids
      → (n : Notification) × (kick_odd_player s w
          ≡ (ok (with_kept s), record w { sent = n ∷ w.sent }))
  unfolding kick_odd_player last_player remove_player_id send_odd_kick_notification get_player_by_id
  kick-odd s w odd nodup linked =
      let o = odd_last s.player_ids odd nodup in
      let (p, found) = Each-has (HasPlayer w.db) o.last s.player_ids o.inside linked in
      (
        record { recipient = user p.discord_id; kind = odd_kick },
        ground (arith, o.at_end, o.removed, found),
      )

  update_session-kept :
      (s : MatchSession) (w : World F)
      → IsKeyed w.db
      → IsWhole s
      → session_row s.id w.db ≡ some s
      → update_session (with_kept s) w ≡ (ok tt, with_session s.id with_kept w)
  unfolding update_session
  update_session-kept s w keyed whole found =
      ap (λ rows. (ok tt, record w { db = record w.db { sessions = rows } }))
        (update_where-find (λ r. r.id) s.id
          (λ r. record r {
            start_date = stored s.start_date;
            status = s.status;
            player_ids = kept s.player_ids;
          })
          with_kept w.db.sessions s keyed found
          (ap (λ t. record s { start_date = t; player_ids = kept s.player_ids }) whole))

  -- For a preparing session of the database, of different players who are all there:
  -- `ensureSessionIsValidForMatchMaking` succeeds, and it keeps the players two by two in the order
  -- in which they joined, so that only the last one of an odd number is dropped. The row of the
  -- session is written so, and nothing else in the database; the session is valid exactly if two
  -- players have joined it, and one notification is sent exactly if a player is dropped.
  pub ensure_session_is_valid_for_match_making_lem :
      (s : MatchSession) (w : World F)
      → IsKeyed w.db
      → IsWhole s
      → session_row s.id w.db ≡ some s
      → s.status ≡ preparing
      → IsNodup s.player_ids
      → Each (HasPlayer w.db) s.player_ids
      → (notices : List Notification) × (length notices ≡ length s.player_ids % 2)
        × (ensure_session_is_valid_for_match_making s w ≡ (
          ok (if ltb (length s.player_ids) 2 then none else some (with_kept s)),
          record (with_session s.id with_kept w) { sent = notices ++ w.sent },
        ))
  unfolding ensure_session_is_valid_for_match_making
  ensure_session_is_valid_for_match_making_lem s w keyed whole found is_preparing_s nodup linked =
      elim (parity (length s.player_ids)) [
        | inl even ↦ (
          [],
          sym even,
          ground (
            arith,
            kick-even s w even,
            update_session-kept s w keyed whole found,
            kept-even s.player_ids even,
          ),
        )
        | inr odd ↦
            let (n, e) = kick-odd s w odd nodup linked in
            (
              n ∷ [],
              sym odd,
              ground (
                arith,
                e,
                update_session-kept s (record w { sent = n ∷ w.sent }) keyed whole found,
              ),
            )
      ]
