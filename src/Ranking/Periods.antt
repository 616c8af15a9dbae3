-- ===== src/Ranking/Periods.antt =====
-- The periods cover time, one after the other, and `Rerank` goes through all of them.
use kaepora.Base.{
  ℕ, zero, suc, ◌+◌, ◌-◌, ◌*◌, ◌/◌, ◌%◌, ◌≤◌, ◌<◌, ◌≡◌, ap, some, lt→ltb, ◌∙◌, ◌↔◌, arith,
}
use kaepora.Base.Lists.{get_elem?}
use kaepora.Clock.{Time, day, weekday}
use kaepora.Ranking.{
  current_period_start, next_period_start, previous_period_start, rerank_from, rerank_periods,
}

abbrev pub week : ℕ
week = 7 * day

current_period_start-week : (t : Time) → current_period_start t ≡ t / week * week
unfolding current_period_start
current_period_start-week t = ground arith

next_period_start-week : (t : Time) → next_period_start t ≡ t / week * week + week
unfolding next_period_start
next_period_start-week t = omega (arith, current_period_start-week t)

-- A period starts on a Monday at 00:00 UTC, and holds the instants up to the next one.
pub current_period_start_lem :
    (t : Time)
    → (weekday (current_period_start t) ≡ 1)
      × (current_period_start t % day ≡ 0)
      × (current_period_start t ≤ t)
      × (t < next_period_start t)
unfolding weekday next_period_start
current_period_start_lem t =
    let e = current_period_start-week t in (omega arith, omega arith, omega arith, omega arith)

-- The period of an instant is the only one that holds it: whatever starts a whole number of weeks
-- after the zero time, not after the instant and less than a week before, is its start. So all
-- instants of a period have the same start, the next period starts where it ends, and the
-- previous one is that of the last week.
pub current_period_start_unique :
    (t p : Time)
    → p % week ≡ 0
    → p ≤ t
    → t < p + week
    → (current_period_start t ≡ p)
      × (next_period_start t ≡ current_period_start (t + week))
      × (previous_period_start (t + week) ≡ p)
unfolding next_period_start previous_period_start
current_period_start_unique t p monday after before =
    let e = current_period_start-week t in
    let f = current_period_start-week (t + week) in (omega arith, omega arith, omega arith)

rerank_from-get :
    (fuel : ℕ) (i end : Time) (k : ℕ)
    → k < fuel
    → i + k * week < end
    → get_elem? (rerank_from fuel i end) k ≡ some (i + k * week)
unfolding rerank_from
rerank_from-get zero i end k h b = absurd (omega arith)
rerank_from-get (suc fuel) i end zero h b = rw (lt→ltb i end (omega arith)) (ap some (omega arith))
rerank_from-get (suc fuel) i end (suc k) h b =
    rw (lt→ltb i end (omega arith))
      (rerank_from-get fuel (i + week) end k (omega arith) (omega arith) ∙ ap some (omega arith))

rerank_from-only :
    (fuel : ℕ) (i end : Time) (k : ℕ) {x : Time}
    → get_elem? (rerank_from fuel i end) k ≡ some x
    → (x ≡ i + k * week) × (x < end)
unfolding rerank_from
rerank_from-only zero i end k e = cc
rerank_from-only (suc fuel) i end zero e = ground arith
rerank_from-only (suc fuel) i end (suc k) {x} e = ground (
  arith,
  λ (h : get_elem? (rerank_from fuel (i + week) end) k ≡ some x).
      rerank_from-only fuel (i + week) end k h,
)

-- `Rerank` recomputes the periods from that of the first match to the current one, in order and
-- each once: the k-th round is for the period k weeks after the first, exactly as long as that
-- period starts before the next one does. The period of every instant between is among them.
pub rerank_periods_lem :
    (first now : Time)
    → ((k : ℕ) (x : Time)
        → (get_elem? (rerank_periods first now) k ≡ some x)
          ↔ (x ≡ current_period_start first + k * week) × (x < next_period_start now))
      × ((t : Time)
          → first ≤ t
          → t ≤ now
          → (k : ℕ) × (get_elem? (rerank_periods first now) k ≡ some (current_period_start t)))
unfolding rerank_periods
rerank_periods_lem first now = (
  (λ k x. (
    rerank_from-only (next_period_start now / day + 1) (current_period_start first)
        (next_period_start now) k,
    (λ h.
        rerank_from-get (next_period_start now / day + 1) (current_period_start first)
          (next_period_start now) k (omega arith) (omega arith)
        ∙ ap some (omega arith)),
  )),
  (λ t from to. (
    (t / week - first / week),
    rerank_from-get (next_period_start now / day + 1) (current_period_start first)
          (next_period_start now) (t / week - first / week)
          (omega (arith, next_period_start-week now))
          (omega (
            arith,
            current_period_start-week first,
            current_period_start-week t,
            next_period_start-week now,
          ))
        ∙ ap some (
            omega (
              arith,
              current_period_start-week first,
              current_period_start-week t,
              next_period_start-week now,
            )),
  )),
)
