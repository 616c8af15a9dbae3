-- ===== src/Schedule/DayOfWeek/Bounded.antt =====
-- `NextBetween` of the day-of-week scheduler ends, and its answer lies between the bounds.
use kaepora.Base.{
  ℕ, zero, suc, ◌+◌, ◌*◌, ◌/◌, ◌≤◌, ◌<◌, ◌≡◌, ◌⊎◌, inl, inr, refl, sym, subst, ◌∙◌, Option-cases,
  List, [], ◌∷◌, Option, some, none, ltb, ◌==◌, ◌||◌, Bool-cases, if◌then◌else◌, tests, arith,
}
use kaepora.Base.Lists.{Each, Each-Occurs, Occurs}
use kaepora.Base.Result.{Result, ok, ◌>>=◌}
use kaepora.Clock.{Time, day}
use kaepora.Store.{order_by}
use kaepora.Store.Order.{IsOrdered, order_by-IsOrdered}
use kaepora.Schedule.DayOfWeek.{
  LoadLocation, DayOfWeekScheduler, hours_from, hours_for_dow, sunday_of, flatten_hours,
  first_after, day_of_week_from, next_hour_between,
}

-- What the loop over the hours finds: nothing after `t`, or the least hour after `t`.
abbrev pub FirstAfter : Time → List Time → Option Time → Type 0
FirstAfter t hours none = Each (λ x. x ≤ t) hours
FirstAfter t hours (some next) =
    (t < next) × Occurs next hours × Each (λ x. (x ≤ t) ⊎ (next ≤ x)) hours

Each-later :
    (t next : Time) (hours : List Time)
    → Each (λ x. next ≤ x) hours
    → Each (λ x. (x ≤ t) ⊎ (next ≤ x)) hours
Each-later t next [] h = tt
Each-later t next (x ∷ hours) (hx, h) = (inr hx, Each-later t next hours h)

FirstAfter-over :
    (t next : Time) (hours : List Time) (o : Option Time)
    → next ≤ t
    → FirstAfter t hours o
    → FirstAfter t (next ∷ hours) o
FirstAfter-over t next hours none over h = (over, h)
FirstAfter-over t next hours (some x) over (after, here, least) =
    (after, inr here, (inl over, least))

pub first_after-FirstAfter :
    (t : Time) (hours : List Time)
    → IsOrdered (λ x. x) hours
    → FirstAfter t hours (first_after t hours)
unfolding first_after
first_after-FirstAfter t [] h = tt
first_after-FirstAfter t (next ∷ hours) (least, h) = elim (Bool-cases (ltb next t || next == t)) [
  | inl over ↦ rw over (
      FirstAfter-over t next hours (first_after t hours) (ground arith)
        (first_after-FirstAfter t hours h))
  | inr after ↦
      rw after (ground arith, inl refl, (inr (omega arith), Each-later t next hours least))
]

module _ (load_location : LoadLocation) (s : DayOfWeekScheduler) where
  hours_from-total :
      (start : ℕ) → (ret : List Time) × (hours_from load_location s start 7 0 ≡ ok ret)
  unfolding hours_from hours_for_dow
  hours_from-total start = (_, refl)

  pub flatten_hours-total :
      (t : Time)
      → (hours : List Time) × (flatten_hours load_location s t ≡ ok hours)
        × IsOrdered (λ x. x) hours
  unfolding flatten_hours
  flatten_hours-total t =
      let (ret, e) = hours_from-total (sunday_of t) in
      (order_by (λ x. x) ret, rw (e, ◌>>=◌) refl, order_by-IsOrdered (λ x. x) ret)

  -- An hour of the schedule in the week of `t`.
  abbrev pub Scheduled : Time → Time → Type 0
  Scheduled t x =
      (hours : List Time) × (flatten_hours load_location s t ≡ ok hours) × Occurs x hours

  -- What `NextBetween` gives: the zero time, where no hour of the week of `t` lies in time, or an
  -- hour of a week between `t` and it, which is as early as any hour of the week of `t`.
  pub record Bounded (t max : Time) (r : Result Time) : Type 0 where
    pub answer : Time
    pub ends : r ≡ ok answer
    pub between :
        (answer ≡ 0) ⊎ ((u : Time) × (t ≤ u) × (u < answer) × (answer ≤ max) × Scheduled u answer)
    pub first : (x : Time) → Scheduled t x → t < x → x ≤ max → (0 < answer) × (answer ≤ x)

  -- What holds of the hours of a week.
  pub Scheduled-Each :
      (P : Time → Type 0) (t x : Time) (hours : List Time)
      → flatten_hours load_location s t ≡ ok hours
      → Each P hours
      → Scheduled t x
      → P x
  Scheduled-Each P t x hours e h (hours', e', m) =
      Each-Occurs P x hours h (subst (Occurs x) (same (sym e' ∙ e)) m)
    where
      same : {a b : List Time} → ◌≡◌ {A = Result (List Time)} (ok a) (ok b) → a ≡ b
      same h = cc h

  Bounded-later :
      (t max : Time) (r : Result Time)
      → ((x : Time) → Scheduled t x → x ≤ t)
      → Bounded ((t / day + 1) * day) max r
      → Bounded t max r
  Bounded-later t max r nothing later = record {
    answer = later.answer;
    ends = later.ends;
    between = elim later.between [
      | inl none_at_all ↦ inl none_at_all
      | inr (u, after, before, in_time, here) ↦ inr (u, omega arith, before, in_time, here)
    ];
    first = λ x here after before. absurd (omega (arith, nothing x here));
  }

  pub Found-none :
      (t : Time) (hours : List Time)
      → flatten_hours load_location s t ≡ ok hours
      → FirstAfter t hours none
      → (x : Time) → Scheduled t x
      → x ≤ t
  Found-none t hours e h x here = Scheduled-Each (λ x. x ≤ t) t x hours e h here

  pub Found-some :
      (t next : Time) (hours : List Time)
      → flatten_hours load_location s t ≡ ok hours
      → FirstAfter t hours (some next)
      → (x : Time) → Scheduled t x
      → t < x
      → next ≤ x
  Found-some t next hours e (_, _, h) x here after =
      elim (Scheduled-Each (λ x. (x ≤ t) ⊎ (next ≤ x)) t x hours e h here) [
        | inl over ↦ absurd (omega arith)
        | inr le ↦ le
      ]

  Bounded-found :
      (t max next : Time) (hours : List Time) (r : Result Time)
      → flatten_hours load_location s t ≡ ok hours
      → FirstAfter t hours (some next)
      → r ≡ ok (if ltb max next then 0 else next)
      → Bounded t max r
  Bounded-found t max next hours r e (after_t, here, least) ends =
      elim (Bool-cases (ltb max next)) [
        | inl past ↦ record {
          answer = 0;
          ends = ground arith;
          between = inl refl;
          first = λ x is_hour after before.
              absurd
                (omega (tests, Found-some t next hours e (after_t, here, least) x is_hour after));
        }
        | inr in_time ↦ record {
          answer = next;
          ends = ground arith;
          between = inr (t, omega arith, after_t, ground arith, (hours, e, here));
          first = λ x is_hour after before. (
            omega (arith, after_t),
            Found-some t next hours e (after_t, here, least) x is_hour after,
          );
        }
      ]

  pub day_of_week_from-Bounded :
      (fuel : ℕ) (t max : Time)
      → 0 < fuel
      → max / day + 2 ≤ fuel + t / day
      → Bounded t max (day_of_week_from load_location s fuel t max)
  unfolding day_of_week_from
  day_of_week_from-Bounded zero t max some_fuel enough = absurd (omega arith)
  day_of_week_from-Bounded (suc fuel) t max some_fuel enough = elim (Bool-cases (ltb max t)) [
    | inl late ↦ record {
      answer = 0;
      ends = rw late refl;
      between = inl refl;
      first = λ x here after before. absurd (omega (tests));
    }
    | inr early ↦
        let (hours, flattened, ordered) = flatten_hours-total t in
        let found = first_after-FirstAfter t hours ordered in
        elim (Option-cases (first_after t hours)) [
          | inl nothing ↦ subst (Bounded t max) (sym (ground (arith, flattened, nothing))) (
              Bounded-later t max _
                (Found-none t hours flattened (subst (FirstAfter t hours) nothing found))
                (day_of_week_from-Bounded fuel ((t / day + 1) * day) max (ground arith)
                  (ground arith)))
          | inr (next, at) ↦
              Bounded-found t max next hours _ flattened (subst (FirstAfter t hours) at found)
                (ground (arith, flattened, at))
        ]
  ]

  -- `NextBetween` ends for any bounds. Its answer is the zero time or an hour of the schedule
  -- behind `t` and up to `max`, one of the week of a day between `t` and itself. No hour of the
  -- week of `t` between `t` and `max` is earlier, and where there is one the answer is not zero.
  pub next_hour_between-Bounded :
      (t max : Time) → Bounded t max (next_hour_between load_location s t max)
  unfolding next_hour_between
  next_hour_between-Bounded t max =
      day_of_week_from-Bounded (max / day + 2) t max (omega arith) (omega arith)
