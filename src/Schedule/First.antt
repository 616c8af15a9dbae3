-- ===== src/Schedule/First.antt =====
-- `NextBetween` of the rolling scheduler ends, and gives the first instant that it looks for.
use kaepora.Base.{
  ℕ, zero, suc, ◌+◌, ◌-◌, ◌*◌, ◌/◌, ◌%◌, ◌≤◌, ◌<◌, ◌≡◌, ◌⊎◌, inl, inr, refl, List, [], ◌∷◌, some,
  none, Bool, true, false, ◌==◌, subst, Bool-cases, tests, arith,
}
use kaepora.Base.Int.{ℤ, pos, pos_part, neg_part, ltb_ℤ, ◌≤ℤ◌, +ℤ_parts, ltb_ℤ-≤ℤ}
use kaepora.Base.Result.{Result, ok, err}
use kaepora.Clock.{Time, second, unix_epoch}
use kaepora.Schedule.{
  RollingScheduler, period_seconds, unix, instant, abs, eq_ℤ, chosen, try_period, rolling_loop,
  rolling_fuel, next_between,
}

-- The scheduler can be asked about any period.
abbrev pub IsSound : RollingScheduler → Type 0
IsSound s = (s.remainders ≡ []) ⊎ (0 < abs s.modulus)

module _ (s : RollingScheduler) (t max : Time) where
  -- A period is an event if the remainders name it and its instant lies between the bounds.
  abbrev pub IsEvent : ℕ → Type 0
  IsEvent id =
      (chosen s.modulus s.remainders id ≡ ok true)
      × (pos t ≤ℤ instant s id)
      × (instant s id ≤ℤ pos max)

  -- What an answer means, for the periods after `id`.
  abbrev pub Answers : ℕ → Result Time → Type 0
  Answers id (ok zero) = (k : ℕ) → id < k → ¬ IsEvent k
  Answers id (ok (suc x)) =
      (k : ℕ) × (id < k)
      × IsEvent k
      × (pos (suc x) ≡ instant s k)
      × ((j : ℕ) → id < j → j < k → ¬ IsEvent j)
  Answers id (err e) = ⊥

chosen-total :
    (modulus : ℤ) (remainders : List ℤ) (id : ℕ)
    → (remainders ≡ []) ⊎ (0 < abs modulus)
    → (b : Bool) × (chosen modulus remainders id ≡ ok b)
unfolding chosen
chosen-total modulus [] id h = (false, refl)
chosen-total modulus (v ∷ remainders) id (inl none_left) = cc
chosen-total modulus (v ∷ remainders) id (inr pos_modulus) =
    elim (Bool-cases (eq_ℤ (pos (id % abs modulus)) v)) [
      | inl hit ↦ (true, ground arith)
      | inr miss ↦
          let (b, e) = chosen-total modulus remainders id (inr pos_modulus) in (b, ground arith)
    ]

le-mul : (p a : ℕ) → 0 < p → a ≤ p * a
le-mul p a h = grind arith

pub mul_mono : (p i j : ℕ) → i ≤ j → p * i ≤ p * j
mul_mono p i j h = grind arith

next_or_later : (i j : ℕ) → i < j → (j ≡ suc i) ⊎ (suc i < j)
next_or_later i j h = omega arith

fuel_pos : (s : RollingScheduler) (t max : Time) → 0 < rolling_fuel s t max
unfolding rolling_fuel
fuel_pos s t max = omega arith

module _ (s : RollingScheduler) where
  pub instant_parts :
      (id : ℕ)
      → pos_part (instant s id) + neg_part s.offset
        ≡ neg_part (instant s id)
          + (unix_epoch + period_seconds s * id) * second
          + pos_part s.offset
  unfolding instant
  instant_parts id =
      omega (arith, +ℤ_parts (pos ((unix_epoch + period_seconds s * id) * second)) s.offset)

  pub instant_mono : (i j : ℕ) → i ≤ j → instant s i ≤ℤ instant s j
  instant_mono i j h =
      omega (arith, instant_parts i, instant_parts j, mul_mono (period_seconds s) i j h)

  module _ (t max : Time) (pos_period : 0 < period_seconds s) where
    -- An instant that is not past both bounds is one of the first.
    in_time_before : (id : ℕ) → ltb_ℤ (instant s id) (pos t) ≡ true → id < rolling_fuel s t max
    unfolding rolling_fuel
    in_time_before id h = omega (tests, instant_parts id, le-mul (period_seconds s) id pos_period)

    in_time : (id : ℕ) → ltb_ℤ (pos max) (instant s id) ≡ false → id < rolling_fuel s t max
    unfolding rolling_fuel
    in_time id h = omega (
      arith,
      instant_parts id,
      le-mul (period_seconds s) id pos_period,
      ltb_ℤ-≤ℤ (pos max) (instant s id) h,
    )

    -- What one round finds out.
    data Tried (id : ℕ) : Type 0 where
      goes_on :
          try_period s t max id ≡ ok none
          → ¬ IsEvent s t max id
          → id < rolling_fuel s t max
          → Tried id
      is_over :
          try_period s t max id ≡ ok (some 0) → ltb_ℤ (pos max) (instant s id) ≡ true → Tried id
      finds :
          (x : ℕ)
          → try_period s t max id ≡ ok (some (suc x))
          → pos (suc x) ≡ instant s id
          → IsEvent s t max id
          → Tried id

    tries_chosen :
        0 < t
        → (id : ℕ) → ltb_ℤ (instant s id) (pos t) ≡ false
        → ltb_ℤ (pos max) (instant s id) ≡ false
        → (b : Bool) × (chosen s.modulus s.remainders id ≡ ok b)
        → Tried id
    unfolding try_period
    tries_chosen late id after before (false, e) =
        goes_on (ground arith) (λ event. cc) (in_time id before)
    tries_chosen late id after before (true, e) =
        finds (pos_part (instant s id) - 1) (ground arith) (ground arith)
          (e, ltb_ℤ-≤ℤ (instant s id) (pos t) after, ltb_ℤ-≤ℤ (pos max) (instant s id) before)

    tries : IsSound s → 0 < t → (id : ℕ) → Tried id
    unfolding try_period
    tries sound late id = elim (Bool-cases (ltb_ℤ (instant s id) (pos t))) [
      | inl early ↦ goes_on (rw early) (λ event. ground arith) (in_time_before id early)
      | inr after ↦ elim (Bool-cases (ltb_ℤ (pos max) (instant s id))) [
        | inl past ↦ is_over (rw (after, past)) past
        | inr before ↦
            tries_chosen late id after before (chosen-total s.modulus s.remainders id sound)
      ]
    ]

    none_between :
        (id j : ℕ)
        → ¬ IsEvent s t max (suc id)
        → id < j
        → (suc id < j → ¬ IsEvent s t max j)
        → ¬ IsEvent s t max j
    none_between id j none_here above later event = elim (next_or_later id j above) [
      | inl e ↦ none_here (subst (IsEvent s t max) e event)
      | inr r ↦ later r event
    ]

    Answers-extend :
        (id : ℕ) (r : Result Time)
        → ¬ IsEvent s t max (suc id)
        → Answers s t max (suc id) r
        → Answers s t max id r
    Answers-extend id (ok zero) none_here h =
        λ k below event. none_between id k none_here below (h k) event
    Answers-extend id (ok (suc x)) none_here (k, below, event, e, first) = (
      k,
      omega arith,
      event,
      e,
      (λ j above under. none_between id j none_here above (λ r. first j r under)),
    )
    Answers-extend id (err e) none_here h = h

    -- Periods behind one that is past the end are no events.
    Answers-over :
        (id : ℕ) → ltb_ℤ (pos max) (instant s (suc id)) ≡ true → Answers s t max id (ok 0)
    Answers-over id past k below (_, _, before) =
        omega (tests, instant_mono (suc id) k (omega arith))

    rolling_loop-Answers :
        (fuel : ℕ) (id : ℕ)
        → IsSound s
        → 0 < t
        → 0 < fuel
        → rolling_fuel s t max ≤ fuel + id
        → Answers s t max id (rolling_loop fuel s t max id)
    unfolding rolling_loop
    rolling_loop-Answers zero id sound late some_fuel enough = absurd (omega arith)
    rolling_loop-Answers (suc fuel) id sound late some_fuel enough =
        elim (tries sound late (suc id)) [
          | goes_on e none_here early ↦
              rw (e, rolling_loop)
                (Answers-extend id (rolling_loop fuel s t max (suc id)) none_here
                  (rolling_loop-Answers fuel (suc id) sound late (omega arith) (omega arith)))
          | is_over e past ↦ rw (e, rolling_loop) (Answers-over id past)
          | finds x e at event ↦
              rw (e, rolling_loop)
                (suc id, omega arith, event, at, (λ j below above. absurd (omega arith)))
        ]

-- From 1970 on, for a period of a second at least and remainders that can be taken,
-- `NextBetween` ends. It gives the instant of the first period, of those numbered behind the
-- period that `t` falls in, which the remainders choose and whose instant is not before `t` and
-- not after `max`, or the zero time if there is none.
pub next_between-Answers :
    (s : RollingScheduler) (t max : Time)
    → 0 < period_seconds s
    → IsSound s
    → unix_epoch * second ≤ t
    → Answers s t max (unix t / period_seconds s) (next_between s t max)
unfolding next_between
next_between-Answers s t max pos_period sound epoch = rw (ne_zero (period_seconds s) pos_period) (
    rolling_loop-Answers s t max pos_period (rolling_fuel s t max) (unix t / period_seconds s) sound
      (omega arith) (fuel_pos s t max) (omega arith))
  where
    ne_zero : (n : ℕ) → 0 < n → (n == 0) ≡ false
    ne_zero n h = ground arith
