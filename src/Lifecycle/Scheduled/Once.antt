-- ===== src/Lifecycle/Scheduled/Once.antt =====
-- `createNextScheduledMatchSessions` creates each session once.
use mathlib.Core.List.{append_assoc, append-nil}
use kaepora.Base.{◌≡◌, refl, ap, sym, subst, ◌∙◌, inl, inr, List, [], ◌∷◌, ◌++◌, some, arith}
use kaepora.Base.Lists.{any, any-append, Each, Each-append}
use kaepora.Base.Result.{Result, ok}
use kaepora.Clock.{Time}
use kaepora.Session.{MatchSession}
use kaepora.Store.{League, Db, World, stored}
use kaepora.Joining.Join.{league_row}
use kaepora.Schedule.DayOfWeek.{LoadLocation}
use kaepora.Schedule.Config.{Unmarshal}
use kaepora.Lifecycle.{for_each}
use kaepora.Lifecycle.Scheduled.{create_next_session, create_next_scheduled_match_sessions}
use kaepora.Store.{order_with}
use kaepora.Store.Order.{Each-order_with, Occurs-order_with, Occurs-of_order}
use kaepora.Base.Lists.{Each-all, Each-Occurs}
use kaepora.Leagues.{name_desc, get_leagues}
use kaepora.Store.{transaction}
use kaepora.Lifecycle.Scheduled.Rows.{
  starts_at, new_row, IsUnused, next_of, IsHeld, IsHeld-append, IsNew, IsPlanned, IsPlanned-map,
  AreApart, AreApart-new,
}
use kaepora.Lifecycle.Scheduled.Body.{with_new-IsUnused, body, keeps_held, keeps, creates}

module _ {F : Type 0} (unmarshal : Unmarshal) (load_location : LoadLocation) (now : Time) where
  pub record Created (leagues : List League) (w : World F) (r : Result (Unit {0}) × World F)
      : Type 0 where
    pub news : List MatchSession
    pub succeeds : r.0 ≡ ok tt
    pub writes : r.1.db ≡ record w.db { sessions = w.db.sessions ++ news }
    pub are_new : Each IsNew news
    pub planned : Each (IsPlanned unmarshal load_location now leagues w.db.sessions) news
    pub held : Each (IsHeld unmarshal load_location now (w.db.sessions ++ news)) leagues
    pub apart : AreApart w.db.sessions → AreApart (w.db.sessions ++ news)
    pub unused : IsUnused r.1

  -- The league has a row, and its scheduler an answer.
  abbrev pub CanBeAsked : Db F → League → Type 0
  CanBeAsked db l =
      ((next : Time) × (next_of unmarshal load_location now l ≡ ok next))
      × ((row : League) × (league_row l.id db ≡ some row))

  -- What the body of the loop leaves.
  abbrev pub Made : League → World F → Result (Unit {0}) × World F → Type 0
  Made l w r = Created (l ∷ []) w r

  create_next_session-Made :
      (l : League) (w : World F)
      → CanBeAsked w.db l
      → IsUnused w
      → Made l w (create_next_session unmarshal load_location now l w)
  unfolding any
  create_next_session-Made l w ((next, asked), (row, found)) unused =
      elim (body unmarshal load_location now l next w row asked found unused) [
        | keeps e held ↦ record {
          news = [];
          succeeds = ap (λ r. r.0) e;
          writes =
              ap (λ r. r.1.db) e
              ∙ ap (λ rows. record w.db { sessions = rows }) (sym (append-nil w.db.sessions));
          are_new = tt;
          planned = tt;
          held = (
            IsHeld-append unmarshal load_location now l w.db.sessions [] (next, asked, held),
            tt,
          );
          apart = λ h. subst AreApart (sym (append-nil w.db.sessions)) h;
          unused = subst IsUnused (sym (ap (λ r. r.1) e)) unused;
        }
        | creates n e some_next free ↦ record {
          news = new_row (w.uuids 0) now l.id next ∷ [];
          succeeds = ap (λ r. r.0) e;
          writes = ap (λ r. r.1.db) e;
          are_new = ((refl, refl), tt);
          planned = ((l, inl refl, next, asked, some_next, free, refl, refl), tt);
          held = (
            (
              next,
              asked,
              inr (
                  ground (
                    arith,
                    any-append (starts_at l.id (stored next)) w.db.sessions
                        (new_row (w.uuids 0) now l.id next ∷ []),
                  )),
            ),
            tt,
          );
          apart = AreApart-new (w.uuids 0) now l.id next w.db.sessions free;
          unused =
              subst IsUnused (sym (ap (λ r. r.1) e))
                (with_new-IsUnused unmarshal load_location now l next n w unused);
        }
      ]

  Created-append :
      (l : League) (leagues : List League) (w : World F) (first : Result (Unit {0}) × World F)
      (r : Result (Unit {0}) × World F)
      → Made l w first
      → Created leagues first.1 r
      → Created (l ∷ leagues) w r
  Created-append l leagues w first r made rest = record {
    news = made.news ++ rest.news;
    succeeds = rest.succeeds;
    writes = all_written;
    are_new = Each-append IsNew made.news rest.news made.are_new rest.are_new;
    planned =
        Each-append (IsPlanned unmarshal load_location now (l ∷ leagues) w.db.sessions) made.news
          rest.news
          (Each-all _ made.news (λ s m. here s (Each-Occurs _ s made.news made.planned m)))
          (Each-all _ rest.news (λ s m. there s (Each-Occurs _ s rest.news rest.planned m)));
    held = (now_held, later);
    apart = all_apart;
    unused = rest.unused;
  }
    where
      here :
          (s : MatchSession)
          → IsPlanned unmarshal load_location now (l ∷ []) w.db.sessions s
          → IsPlanned unmarshal load_location now (l ∷ leagues) w.db.sessions s
      here s =
          IsPlanned-map unmarshal load_location now (l ∷ []) (l ∷ leagues) w.db.sessions
            w.db.sessions s (λ l' m. elim m [ inl e ↦ inl e | inr none_left ↦ absurd none_left ])
            (λ p free. free)

      there :
          (s : MatchSession)
          → IsPlanned unmarshal load_location now leagues first.1.db.sessions s
          → IsPlanned unmarshal load_location now (l ∷ leagues) w.db.sessions s
      there s =
          IsPlanned-map unmarshal load_location now leagues (l ∷ leagues) first.1.db.sessions
            w.db.sessions s (λ l' m. inr m)
            (λ p free. ground (
              arith,
              free,
              ap (λ db. any p db.sessions) made.writes,
              any-append p w.db.sessions made.news,
            ))

      assoc : w.db.sessions ++ made.news ++ rest.news ≡ w.db.sessions ++ (made.news ++ rest.news)
      assoc = append_assoc w.db.sessions made.news rest.news

      moved : first.1.db.sessions ++ rest.news ≡ w.db.sessions ++ (made.news ++ rest.news)
      moved = ap (λ db. db.sessions ++ rest.news) made.writes ∙ assoc

      all_written : r.1.db ≡ record w.db { sessions = w.db.sessions ++ (made.news ++ rest.news) }
      all_written = ground (arith, rest.writes, made.writes, assoc)

      later :
          Each
            (IsHeld unmarshal load_location now (w.db.sessions ++ (made.news ++ rest.news)))
            leagues
      later = subst (λ rows. Each (IsHeld unmarshal load_location now rows) leagues) moved rest.held

      now_held : IsHeld unmarshal load_location now (w.db.sessions ++ (made.news ++ rest.news)) l
      now_held =
          subst (λ rows. IsHeld unmarshal load_location now rows l) assoc
            (IsHeld-append unmarshal load_location now l (w.db.sessions ++ made.news) rest.news
              made.held.0)

      all_apart : AreApart w.db.sessions → AreApart (w.db.sessions ++ (made.news ++ rest.news))
      all_apart h =
          subst AreApart moved
            (rest.apart (subst (λ db. AreApart db.sessions) (sym made.writes) (made.apart h)))

  for_each-Created :
      (leagues : List League) (w : World F)
      → Each (CanBeAsked w.db) leagues
      → IsUnused w
      → Created leagues w (for_each (create_next_session unmarshal load_location now) leagues w)
  for_each-Created [] w h unused = record {
    news = [];
    succeeds = refl;
    writes = ap (λ rows. record w.db { sessions = rows }) (sym (append-nil w.db.sessions));
    are_new = tt;
    planned = tt;
    held = tt;
    apart = λ h. subst AreApart (sym (append-nil w.db.sessions)) h;
    unused = unused;
  }
  for_each-Created (l ∷ leagues) w (asked, h) unused =
      let made = create_next_session-Made l w asked unused in
      let first = create_next_session unmarshal load_location now l w in
      let rest =
        for_each-Created leagues first.1
          (subst (λ db. Each (CanBeAsked db) leagues) (sym made.writes) h) made.unused in
      subst (Created (l ∷ leagues) w) (ground (arith, made.succeeds))
        (Created-append l leagues w first _ made rest)

  for_each-keeps :
      (leagues : List League) (w : World F)
      → Each (IsHeld unmarshal load_location now w.db.sessions) leagues
      → for_each (create_next_session unmarshal load_location now) leagues w ≡ (ok tt, w)
  for_each-keeps [] w h = refl
  for_each-keeps (l ∷ leagues) w ((next, asked, there), h) = ground (
    arith,
    keeps_held unmarshal load_location now l next w asked there,
    for_each-keeps leagues w h,
  )

  -- Each league in the order in which the loop takes them.
  module _ (w : World F) (asked : Each (CanBeAsked w.db) w.db.leagues) (unused : IsUnused w) where
    in_order : Created (order_with name_desc w.db.leagues) w (
        for_each
          (create_next_session unmarshal load_location now)
          (order_with name_desc w.db.leagues)
          w)
    in_order =
        for_each-Created (order_with name_desc w.db.leagues) w
          (Each-order_with (CanBeAsked w.db) name_desc w.db.leagues asked) unused

    -- Where every league's scheduler gives an answer, and the UUIDs to come are fresh:
    -- `createNextScheduledMatchSessions` succeeds and writes nothing but new sessions, which wait
    -- and which nobody has joined; each is the next one of a league that has a next race and had no
    -- session then. Every league's next session, if it has one, is there then, and
    -- where no two sessions of a league started at the same time before, no two do after.
    pub create_next_scheduled_match_sessions-Created :
        Created w.db.leagues w (create_next_scheduled_match_sessions unmarshal load_location now w)
    unfolding create_next_scheduled_match_sessions transaction get_leagues
    create_next_scheduled_match_sessions-Created =
        let made = in_order in
        subst (Created w.db.leagues w) (ground (arith, made.succeeds)) (record {
          news = made.news;
          succeeds = made.succeeds;
          writes = made.writes;
          are_new = made.are_new;
          planned = Each-all _ made.news (λ s m.
              IsPlanned-map unmarshal load_location now (order_with name_desc w.db.leagues)
                w.db.leagues w.db.sessions w.db.sessions s
                (λ l m. Occurs-of_order name_desc l w.db.leagues m) (λ p free. free)
                (Each-Occurs _ s made.news made.planned m));
          held =
              Each-all (IsHeld unmarshal load_location now (w.db.sessions ++ made.news))
                w.db.leagues
                (λ l m.
                  Each-Occurs (IsHeld unmarshal load_location now (w.db.sessions ++ made.news)) l
                    (order_with name_desc w.db.leagues) made.held
                    (Occurs-order_with name_desc l w.db.leagues m));
          apart = made.apart;
          unused = made.unused;
        })

  -- Where the next session of every league is there, `createNextScheduledMatchSessions` changes
  -- nothing and sends nothing.
  keeps_all :
      (w : World F)
      → Each (IsHeld unmarshal load_location now w.db.sessions) w.db.leagues
      → create_next_scheduled_match_sessions unmarshal load_location now w ≡ (ok tt, w)
  unfolding create_next_scheduled_match_sessions transaction get_leagues
  keeps_all w held = ground (
    arith,
    for_each-keeps (order_with name_desc w.db.leagues) w (
        Each-order_with (IsHeld unmarshal load_location now w.db.sessions) name_desc w.db.leagues
          held),
  )

  -- A second run at the same time creates no session and sends no notification, for leagues whose
  -- schedulers give an answer and for fresh UUIDs.
  pub create_next_scheduled_match_sessions_twice :
      (w : World F)
      → Each (CanBeAsked w.db) w.db.leagues
      → IsUnused w
      → create_next_scheduled_match_sessions unmarshal load_location now
          (create_next_scheduled_match_sessions unmarshal load_location now w).1
        ≡ (ok tt, (create_next_scheduled_match_sessions unmarshal load_location now w).1)
  create_next_scheduled_match_sessions_twice w asked unused =
      let made = create_next_scheduled_match_sessions-Created w asked unused in
      keeps_all (create_next_scheduled_match_sessions unmarshal load_location now w).1 (
        subst (λ db. Each (IsHeld unmarshal load_location now db.sessions) db.leagues)
          (sym made.writes) made.held)
