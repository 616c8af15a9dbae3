-- ===== src/Session/Players.antt =====
-- The list of registered players: `AddPlayerID` and `RemovePlayerID` of match_session.go.
use kaepora.Base.{
  ◌≡◌, ◌≢◌, inl, inr, refl, sym, ap, ◌∙◌, List, [], ◌∷◌, ◌++◌, true, false, not, ◌||◌, ◌==◌,
  ==_self, Bool-cases, if◌then◌else◌, arith,
}
use mathlib.Core.List.{append_assoc, append-nil}
use kaepora.Base.Lists.{select, has, has-append, IsNodup, append-IsNodup}
use kaepora.Base.Result.{ok, is_panic}
use kaepora.Match.{Uuid}
use kaepora.Session.{
  MatchSession, has_player_id, add_ids, add_player_id, without, remove_ids, remove_player_id,
}

add_ids-IsNodup : (ids uuids : List Uuid) → IsNodup ids → IsNodup (add_ids ids uuids)
unfolding add_ids
add_ids-IsNodup ids [] n = n
add_ids-IsNodup ids (v ∷ uuids) n = elim (Bool-cases (has v ids)) [
  | inl old ↦ rw old (add_ids-IsNodup ids uuids n)
  | inr new ↦ rw new (add_ids-IsNodup _ uuids (append-IsNodup v ids new n))
]

pub has-add_ids :
    (a : Uuid) (ids uuids : List Uuid) → has a (add_ids ids uuids) ≡ (has a ids || has a uuids)
unfolding add_ids has
has-add_ids a ids [] = ground arith
has-add_ids a ids (v ∷ uuids) = elim (Bool-cases (has v ids)) [
  | inl old ↦ rw old (ground (arith, has-add_ids a ids uuids))
  | inr new ↦
      rw new (ground (arith, has-add_ids a (ids ++ v ∷ []) uuids, has-append a ids (v ∷ [])))
]

has-without :
    (a b : Uuid) (ids : List Uuid) → has a (without b ids) ≡ (if b == a then false else has a ids)
unfolding without has
has-without a b [] = ground arith
has-without a b (k ∷ ids) = ground (arith, has-without a b ids)

without-IsNodup : (b : Uuid) (ids : List Uuid) → IsNodup ids → IsNodup (without b ids)
unfolding without
without-IsNodup b [] n = tt
without-IsNodup b (k ∷ ids) n = elim (Bool-cases (k == b)) [
  | inl e ↦ rw e (without-IsNodup b ids n.1)
  | inr e ↦ rw e (ground (arith, has-without k b ids), without-IsNodup b ids n.1)
]

without-absent : (b : Uuid) (ids : List Uuid) → has b ids ≡ false → without b ids ≡ ids
unfolding without has
without-absent b [] h = refl
without-absent b (k ∷ ids) h = ground (arith, without-absent b ids)

without-append :
    (b : Uuid) (xs ys : List Uuid) → without b (xs ++ ys) ≡ without b xs ++ without b ys
unfolding without
without-append b [] ys = refl
without-append b (k ∷ xs) ys = ground (arith, without-append b xs ys)

-- Each id of a list at the place where it comes first.
abbrev pub firsts : List Uuid → List Uuid
unfolding without
firsts [] = []
firsts (v ∷ uuids) = v ∷ without v (firsts uuids)

-- The ids of a list that another one does not have.
abbrev pub missing_from : List Uuid → List Uuid → List Uuid
unfolding select has
missing_from ids uuids = select (λ v. not (has v ids)) uuids

missing-old :
    (v : Uuid) (ids l : List Uuid)
    → has v ids ≡ true
    → missing_from ids (without v l) ≡ missing_from ids l
unfolding missing_from select without
missing-old v ids [] h = refl
missing-old v ids (k ∷ l) h = ground (arith, missing-old v ids l h)

missing-new :
    (v : Uuid) (ids l : List Uuid) → missing_from (ids ++ v ∷ []) l ≡ missing_from ids (without v l)
unfolding missing_from select without has
missing-new v ids [] = refl
missing-new v ids (k ∷ l) = ground (arith, has-append k ids (v ∷ []), missing-new v ids l)

add_ids-firsts :
    (ids uuids : List Uuid) → add_ids ids uuids ≡ ids ++ missing_from ids (firsts uuids)
unfolding add_ids missing_from select firsts
add_ids-firsts ids [] = sym (append-nil ids)
add_ids-firsts ids (v ∷ uuids) = elim (Bool-cases (has v ids)) [
  | inl old ↦
      rw old
        (add_ids-firsts ids uuids ∙ ap (λ l. ids ++ l) (sym (missing-old v ids (firsts uuids) old)))
  | inr new ↦ rw new (
      add_ids-firsts (ids ++ v ∷ []) uuids
      ∙ append_assoc ids (v ∷ []) (missing_from (ids ++ v ∷ []) (firsts uuids))
      ∙ ap (λ l. ids ++ v ∷ l) (missing-new v ids (firsts uuids)))
]

-- `AddPlayerID` appends the ids that are not registered yet, each once, in the order in which they
-- first come, and changes no other field. It registers exactly the old and the given ids, and
-- keeps a list without duplicates free of them.
pub add_player_id_lem :
    (s : MatchSession) (uuids : List Uuid)
    → (add_player_id s uuids
        ≡ record s { player_ids = s.player_ids ++ missing_from s.player_ids (firsts uuids) })
      × ((a : Uuid) → has_player_id (add_player_id s uuids) a ≡ (has_player_id s a || has a uuids))
      × (IsNodup s.player_ids → IsNodup (add_player_id s uuids).player_ids)
unfolding add_player_id has_player_id
add_player_id_lem s uuids = (
  ap (λ ids. record s { player_ids = ids }) (add_ids-firsts s.player_ids uuids),
  (λ a. has-add_ids a s.player_ids uuids),
  add_ids-IsNodup s.player_ids uuids,
)

remove_ids_lem : (p : Uuid) (ids : List Uuid) → ids ≢ [] → remove_ids p ids ≡ ok (without p ids)
unfolding remove_ids
remove_ids_lem p [] ne = absurd (ne refl)
remove_ids_lem p (k ∷ ids) ne = refl

remove_player_id-eq :
    (s : MatchSession) (p : Uuid)
    → s.player_ids ≢ []
    → remove_player_id s p ≡ ok (record s { player_ids = without p s.player_ids })
unfolding remove_player_id
remove_player_id-eq s p ne = rw (remove_ids_lem p s.player_ids ne)

remove_player_id-nil :
    (s : MatchSession) (p : Uuid) → s.player_ids ≡ [] → is_panic (remove_player_id s p) ≡ true
unfolding remove_player_id
remove_player_id-nil s p e = ground arith

-- Where somebody is registered, `RemovePlayerID` succeeds: the player is no longer registered,
-- everybody else is as before, no other field changes and no duplicate appears. Where nobody is
-- registered it panics.
pub remove_player_id_lem :
    (s : MatchSession) (p : Uuid)
    → ((s.player_ids ≢ [])
        → (t : MatchSession) × (remove_player_id s p ≡ ok t)
          × (t ≡ record s { player_ids = t.player_ids })
          × ((a : Uuid) → has_player_id t a ≡ (if p == a then false else has_player_id s a))
          × (IsNodup s.player_ids → IsNodup t.player_ids))
      × ((s.player_ids ≡ []) → is_panic (remove_player_id s p) ≡ true)
unfolding has_player_id
remove_player_id_lem s p = (
  (λ ne. (
    record s { player_ids = without p s.player_ids },
    remove_player_id-eq s p ne,
    refl,
    (λ a. has-without a p s.player_ids),
    without-IsNodup p s.player_ids,
  )),
  remove_player_id-nil s p,
)

without_last : (p : Uuid) (ids : List Uuid) → has p ids ≡ false → without p (ids ++ p ∷ []) ≡ ids
unfolding without
without_last p ids h =
    rw (without-append p ids (p ∷ []), ==_self p, without-absent p ids h) (append-nil ids)

append-ne-nil : (xs : List Uuid) (a : Uuid) → (xs ++ a ∷ []) ≢ []
append-ne-nil [] a e = cc
append-ne-nil (x ∷ xs) a e = cc

-- A player who was not registered, and joins and cancels, leaves the session as it was.
pub remove_player_id-add_player_id :
    (s : MatchSession) (p : Uuid)
    → has_player_id s p ≡ false
    → remove_player_id (add_player_id s (p ∷ [])) p ≡ ok s
unfolding has_player_id add_player_id add_ids
remove_player_id-add_player_id s p h = rw (
  h,
  remove_player_id-eq (record s { player_ids = s.player_ids ++ p ∷ [] }) p
      (append-ne-nil s.player_ids p),
  without_last p s.player_ids h,
)
