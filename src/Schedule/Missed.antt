-- ===== src/Schedule/Missed.antt =====
-- The offset of the rolling scheduler and the period that the asked instant falls in.
use kaepora.Base.{ℕ, zero, suc, ◌-◌, ◌*◌, ◌/◌, ◌≤◌, ◌<◌, ◌≡◌, ◌≢◌, ◌⊎◌, inl, inr, ap, arith}
use kaepora.Base.Int.{pos, pos_part, neg_part, eq_of_parts, parts_normal}
use kaepora.Base.Result.{Result, ok, err}
use kaepora.Clock.{Time, second, unix_epoch}
use kaepora.Schedule.{RollingScheduler, period_seconds, unix, instant, next_between}
use kaepora.Schedule.First.{
  IsSound, IsEvent, Answers, next_between-Answers, instant_parts, mul_mono,
}

mul-le_of_le-div : (p k n : ℕ) → 0 < p → k ≤ n / p → p * k ≤ n
mul-le_of_le-div p k n h b = grind arith

le_or_lt : (a b : ℕ) → (a ≤ b) ⊎ (b < a)
le_or_lt a b = omega arith

module _ (s : RollingScheduler) (t max : Time) where
  -- An event after the asked instant, not at it.
  abbrev pub IsLater : ℕ → Type 0
  IsLater k = IsEvent s t max k × (instant s k ≢ pos t)

  -- The first of all the events after `t`, up to `max`.
  abbrev pub IsFirst : Result Time → Type 0
  IsFirst (ok zero) = (k : ℕ) → ¬ IsLater k
  IsFirst (ok (suc x)) =
      (k : ℕ) × IsEvent s t max k × (pos (suc x) ≡ instant s k) × ((j : ℕ) → IsLater j → k ≤ j)
  IsFirst (err e) = ⊥

  -- Without a positive offset, the instants of the periods up to that of `t` are over.
  earlier_over :
      (k : ℕ)
      → pos_part s.offset ≡ 0
      → unix_epoch * second ≤ t
      → k ≤ unix t / period_seconds s
      → 0 < period_seconds s
      → ¬ IsLater k
  unfolding unix
  earlier_over k no_offset epoch below pos_period ((_, after, _), not_now) = not_now (
      eq_of_parts (instant s k) (pos t) (
        omega (
          arith,
          instant_parts s k,
          mul-le_of_le-div (period_seconds s) k (t / second - unix_epoch) pos_period below,
          parts_normal (instant s k),
        )))

  Answers-IsFirst :
      (r : Result Time)
      → pos_part s.offset ≡ 0
      → unix_epoch * second ≤ t
      → 0 < period_seconds s
      → Answers s t max (unix t / period_seconds s) r
      → IsFirst r
  Answers-IsFirst (ok zero) no_offset epoch pos_period h = λ k later.
      elim (le_or_lt k (unix t / period_seconds s)) [
        | inl over ↦ earlier_over k no_offset epoch over pos_period later
        | inr ahead ↦ h k ahead later.0
      ]
  Answers-IsFirst (ok (suc x)) no_offset epoch pos_period (k, _, event, e, first) = (
    k,
    event,
    e,
    λ j later. elim (le_or_lt j (unix t / period_seconds s)) [
      | inl over ↦ absurd (earlier_over j no_offset epoch over pos_period later)
      | inr ahead ↦ elim (le_or_lt k j) [ inl le ↦ le | inr lt ↦ absurd (first j ahead lt later.0) ]
    ],
  )
  Answers-IsFirst (err e) no_offset epoch pos_period h = h

-- Without a positive offset, and from 1970 on, `NextBetween` gives the first of all the events
-- after `t` and up to `max`, or one at `t`, and the zero time only if there is none.
pub next_between-IsFirst :
    (s : RollingScheduler) (t max : Time)
    → 0 < period_seconds s
    → IsSound s
    → pos_part s.offset ≡ 0
    → unix_epoch * second ≤ t
    → IsFirst s t max (next_between s t max)
next_between-IsFirst s t max pos_period sound no_offset epoch =
    Answers-IsFirst s t max (next_between s t max) no_offset epoch pos_period
      (next_between-Answers s t max pos_period sound epoch)

module _ (s : RollingScheduler) where
  instant_lt : (i j : ℕ) → 0 < period_seconds s → i < j → instant s i ≢ instant s j
  instant_lt i j pos_period h e = omega (
    arith,
    instant_parts s i,
    instant_parts s j,
    mul_mono (period_seconds s) (suc i) j h,
    ap pos_part e,
    ap neg_part e,
  )

  Answers-ne :
      (t max : Time) (k id : ℕ) (r : Result Time) {x : ℕ}
      → 0 < period_seconds s
      → k ≤ id
      → pos (suc x) ≡ instant s k
      → Answers s t max id r
      → r ≢ ok (suc x)
  Answers-ne t max k id (ok zero) pos_period below at h e = cc
  Answers-ne t max k id (ok (suc y)) {x} pos_period below at (j, above, _, at_j, _) e =
      instant_lt k j pos_period (omega arith) (cc)
  Answers-ne t max k id (err e) pos_period below at h e' = cc

-- From 1970 on, an event of the period that `t` falls in is passed over, also where the offset
-- brings its instant behind `t`: `NextBetween` does not give it, though it lies between `t` and
-- `max`.
pub next_between-skips :
    (s : RollingScheduler) (t max : Time) (x : ℕ)
    → 0 < period_seconds s
    → IsSound s
    → unix_epoch * second ≤ t
    → IsEvent s t max (unix t / period_seconds s)
    → pos (suc x) ≡ instant s (unix t / period_seconds s)
    → next_between s t max ≢ ok (suc x)
next_between-skips s t max x pos_period sound late event at =
    Answers-ne s t max (unix t / period_seconds s) (unix t / period_seconds s) _ pos_period
      (omega arith) at (next_between-Answers s t max pos_period sound late)
