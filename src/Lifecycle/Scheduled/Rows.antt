-- ===== src/Lifecycle/Scheduled/Rows.antt =====
-- The sessions of a table by league and start.
use mathlib.Core.List.{append-nil}
use kaepora.Base.{
  ℕ, ◌≤◌, ◌≡◌, ◌≢◌, ◌⊎◌, refl, subst, inl, inr, List, [], ◌∷◌, ◌++◌, some, none, Bool, true, false,
  ◌&&◌, ◌==◌, Bool-cases, arith,
}
use kaepora.Base.Lists.{Occurs, length, select, find, any, any-append}
use kaepora.Base.Result.{Result, ok}
use kaepora.Clock.{Time}
use kaepora.Match.{Uuid}
use kaepora.Session.{MatchSession, waiting}
use kaepora.Store.{League, World, stored}
use kaepora.Leagues.{league_scheduler}
use kaepora.Schedule.DayOfWeek.{LoadLocation}
use kaepora.Schedule.Config.{Unmarshal, scheduler_next}

-- A session of a league that starts at a time.
abbrev pub starts_at : Uuid → Time → MatchSession → Bool
starts_at league_id start_date s = s.league_id == league_id && s.start_date == start_date

module _ {A : Type 0} (p : A → Bool) where
  pub none-select : (rows : List A) → any p rows ≡ false → select p rows ≡ []
  unfolding any select
  none-select [] h = refl
  none-select (r ∷ rows) h = ground (arith, none-select rows)

  select-append : (xs ys : List A) → select p (xs ++ ys) ≡ select p xs ++ select p ys
  unfolding select
  select-append [] ys = refl
  select-append (x ∷ xs) ys = ground (arith, select-append xs ys)

  pub find-any : (rows : List A) → find p rows ≡ none → any p rows ≡ false
  unfolding find any
  find-any [] h = refl
  find-any (r ∷ rows) h = ground (arith, find-any rows)

  pub any-find : (rows : List A) (x : A) → find p rows ≡ some x → any p rows ≡ true
  unfolding find any
  any-find [] x h = absurd (cc)
  any-find (r ∷ rows) x h = ground (arith, any-find rows x)

-- The row of a new session.
abbrev pub new_row : Uuid → Time → Uuid → Time → MatchSession
new_row id now league_id next = record {
  id = id;
  league_id = league_id;
  created_at = stored now;
  start_date = stored next;
  status = waiting;
  player_ids = [];
}

-- A session that nobody has joined yet.
abbrev pub IsNew : MatchSession → Type 0
IsNew s = (s.status ≡ waiting) × (s.player_ids ≡ [])

-- No two sessions of a league start at the same time.
abbrev pub AreApart : List MatchSession → Type 0
AreApart rows = (league_id : Uuid) (t : Time) → length (select (starts_at league_id t) rows) ≤ 1

pub AreApart-new :
    (id : Uuid) (now : Time) (league_id : Uuid) (next : Time) (rows : List MatchSession)
    → any (starts_at league_id (stored next)) rows ≡ false
    → AreApart rows
    → AreApart (rows ++ new_row id now league_id next ∷ [])
unfolding select
AreApart-new id now league_id next rows free apart a t =
    elim (Bool-cases (league_id == a && stored next == t)) [
      | inl same ↦ ground (
        arith,
        select-append (starts_at a t) rows (new_row id now league_id next ∷ []),
        none-select (starts_at a t) rows (taken (ground arith) (ground arith)),
      )
      | inr other ↦ ground (
        arith,
        select-append (starts_at a t) rows (new_row id now league_id next ∷ []),
        apart a t,
        append-nil (select (starts_at a t) rows),
      )
    ]
  where
    taken : league_id ≡ a → stored next ≡ t → any (starts_at a t) rows ≡ false
    taken e f =
        subst (λ b. any (starts_at b t) rows ≡ false) e
          (subst (λ u. any (starts_at league_id u) rows ≡ false) f free)

module _ {F : Type 0} where
  -- The UUIDs to come are different, and no session has one of them.
  pub record IsUnused (w : World F) : Type 0 where
    pub different : (n k : ℕ) → w.uuids n ≡ w.uuids k → n ≡ k
    pub no_session : (n : ℕ) → any (λ r. r.id == w.uuids n) w.db.sessions ≡ false

module _ (unmarshal : Unmarshal) (load_location : LoadLocation) (now : Time) where
  -- What the scheduler of a league answers.
  abbrev pub next_of : League → Result Time
  next_of l = scheduler_next load_location (league_scheduler unmarshal l) now

  -- The session that is next for a league, if there is one, is a row.
  abbrev pub IsHeld : List MatchSession → League → Type 0
  IsHeld rows l =
      (next : Time) × (next_of l ≡ ok next)
      × ((next ≡ 0) ⊎ (any (starts_at l.id (stored next)) rows ≡ true))

  pub IsHeld-append :
      (l : League) (rows more : List MatchSession) → IsHeld rows l → IsHeld (rows ++ more) l
  IsHeld-append l rows more (next, asked, inl none_planned) = (next, asked, inl none_planned)
  IsHeld-append l rows more (next, asked, inr there) =
      (next, asked, inr (ground (arith, any-append (starts_at l.id (stored next)) rows more)))

  -- A session is the next one of one of the leagues, which had none at that time.
  abbrev pub IsPlanned : List League → List MatchSession → MatchSession → Type 0
  IsPlanned leagues before s =
      (l : League) × Occurs l leagues
      × (next : Time) × (next_of l ≡ ok next)
      × (next ≢ 0)
      × (any (starts_at l.id (stored next)) before ≡ false)
      × (s.league_id ≡ l.id)
      × (s.start_date ≡ stored next)

  pub IsPlanned-map :
      (leagues leagues' : List League) (before before' : List MatchSession) (s : MatchSession)
      → ((l : League) → Occurs l leagues → Occurs l leagues')
      → ((p : MatchSession → Bool) → any p before ≡ false → any p before' ≡ false)
      → IsPlanned leagues before s
      → IsPlanned leagues' before' s
  IsPlanned-map leagues leagues' before before' s f g
        (l, m, next, asked, some_next, free, in_league, at) =
      (l, f l m, next, asked, some_next, g _ free, in_league, at)
