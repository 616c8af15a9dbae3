-- ===== src/Base/Random.antt =====
-- The random numbers of internal/back/back_matchmaking.go. `crypto/rand` is a source of numbers,
-- of which each call of `rand.Int` takes one and brings it below its bound.
use Prim.Native.Nat.{ℕ, suc, ◌+◌, ◌%◌, ◌<◌, ◌≤◌}
use mathlib.Core.Path.{◌≡◌, ap, ◌∙◌}
use native.Mathlib.Omega.{arith}
use kaepora.Base.Int.{
  ℤ, pos, pos_part, neg_part, ◌+ℤ◌, ◌-ℤ◌, ◌≤ℤ◌, ltb_ℤ, +ℤ_parts, -ℤ_parts, parts_normal, ≤ℤ-ltb_ℤ,
  eq_of_parts,
}
use kaepora.Base.Tests.{ltb, if◌then◌else◌, ◌==◌}
use kaepora.Base.Result.{Result, ok, err, panic}

abbrev pub Source : Type 0
Source = ℕ → ℕ

-- A computation that draws random numbers and may panic.
abbrev pub Random {ℓ} : Type ℓ → Type ℓ
Random A = Source → Result (A × Source)

infixl 5 ◌>>=◌ ◌>>◌
abbrev pub ◌>>=◌ {ℓ κ} : {A : Type ℓ} {B : Type κ} → Random A → (A → Random B) → Random B
◌>>=◌ m f s = elim (m s) [ ok (a, s') ↦ f a s' | err e ↦ err e ]

abbrev pub ◌>>◌ {ℓ} : {B : Type ℓ} → Random (Unit {0}) → Random B → Random B
m >> k = m >>= λ _. k

abbrev pub pure {ℓ} : {A : Type ℓ} → A → Random A
pure a s = ok (a, s)

-- A result that needs no random number.
abbrev pub lift {ℓ} : {A : Type ℓ} → Result A → Random A
lift (ok a) s = ok (a, s)
lift (err e) s = err e

-- `rand.Int(rand.Reader, max)`: a number below `max`, which is positive where it is called.
unfoldable pub rand_int : ℕ → Random ℕ
rand_int max s = ok (s 0 % max, λ n. s (suc n))

unfoldable pub random_int : ℤ → ℤ → Random ℤ
unfolding rand_int
random_int i_min i_max =
    if ltb_ℤ i_max i_min
    then lift (err (panic "iMin > iMax"))
    else (do offset ← rand_int (pos_part (i_max -ℤ i_min +ℤ pos 1)); pure (pos offset +ℤ i_min))

unfoldable pub random_index : ℕ → Random ℤ
random_index length =
    if length == 0
    then lift (err (panic "calling randomIndex with a length of zero"))
    else random_int (pos 0) (pos length -ℤ pos 1)

-- A random index with a higher chance of having a value close to 0.
unfoldable pub random_low_index : ℕ → Random ℤ
random_low_index ln = do a ← random_index ln; b ← random_index ln; pure (if ltb_ℤ a b then a else b)

-- What a draw gives: a result in the range, and never a panic.
abbrev pub Draws : (ℤ → Type 0) → Random ℤ → Source → Type 0
Draws P m s = (i : ℤ) × (s' : Source) × (m s ≡ ok (i, s')) × P i

-- The number of values from `a` to `b`.
pos_part-span :
    (a b : ℤ)
    → a ≤ℤ b
    → pos_part (b -ℤ a +ℤ pos 1) + pos_part a + neg_part b ≡ pos_part b + neg_part a + 1
unfolding ◌-ℤ◌ ◌+ℤ◌
pos_part-span a b h = ground arith

pub random_int-Draws :
    (a b : ℤ) (s : Source) → a ≤ℤ b → Draws (λ i. (a ≤ℤ i) × (i ≤ℤ b)) (random_int a b) s
unfolding random_int
random_int-Draws a b s h =
    let k = s 0 % pos_part (b -ℤ a +ℤ pos 1) in
    (
      pos k +ℤ a,
      (λ n. s (suc n)),
      rw (≤ℤ-ltb_ℤ a b h),
      (omega (arith, +ℤ_parts (pos k) a), omega (arith, +ℤ_parts (pos k) a, pos_part-span a b h)),
    )

random_int_range :
    (n : ℕ) (s : Source)
    → 0 < n
    → (i : ℤ) × (s' : Source) × (random_int (pos 0) (pos n -ℤ pos 1) s ≡ ok (i, s'))
      × (pos 0 ≤ℤ i)
      × (i ≤ℤ pos n -ℤ pos 1)
random_int_range n s h =
    let (i, s', e, range) =
      random_int-Draws (pos 0) (pos n -ℤ pos 1) s (omega (arith, -ℤ_parts (pos n) (pos 1))) in
    (i, s', e, range.0, range.1)

random_index-pos :
    (n : ℕ) (s : Source) → 0 < n → random_index n s ≡ random_int (pos 0) (pos n -ℤ pos 1) s
unfolding random_index
random_index-pos n s h = ground arith

pub random_index-Draws :
    (n : ℕ) (s : Source)
    → 0 < n
    → (i : ℕ) × (s' : Source) × (random_index n s ≡ ok (pos i, s')) × (i < n)
random_index-Draws n s h =
    let span = -ℤ_parts (pos n) (pos 1) in
    let (i, s', e, low, high) = random_int_range n s h in
    (
      pos_part i,
      s',
      random_index-pos n s h
          ∙ e
          ∙ ap (λ k. ok (k, s')) (eq_of_parts i (pos (pos_part i)) (omega (arith, parts_normal i))),
      omega (arith, parts_normal (pos n -ℤ pos 1), parts_normal i),
    )

pub random_low_index-Draws :
    (n : ℕ) (s : Source)
    → 0 < n
    → (i : ℕ) × (s' : Source) × (random_low_index n s ≡ ok (pos i, s')) × (i < n)
unfolding random_low_index
random_low_index-Draws n s h =
    let (a, s1, ea, ba) = random_index-Draws n s h in
    let (b, s2, eb, bb) = random_index-Draws n s1 h in
    (if ltb a b then a else b, s2, ground arith, ground arith)

pub random_int-pos :
    (a b : ℕ) (s : Source)
    → a ≤ b
    → (i : ℕ) × (s' : Source) × (random_int (pos a) (pos b) s ≡ ok (pos i, s')) × (a ≤ i) × (i ≤ b)
random_int-pos a b s h =
    let (i, s', e, range) = random_int-Draws (pos a) (pos b) s (omega arith) in
    (
      pos_part i,
      s',
      e ∙ ap (λ k. ok (k, s')) (eq_of_parts i (pos (pos_part i)) (bound i range.0)),
      bound_low i range.0,
      bound_high i range.1,
    )
  where
    bound : (i : ℤ) → pos a ≤ℤ i → pos_part i + 0 ≡ pos_part i + neg_part i
    bound i low = omega (arith, parts_normal i)

    bound_low : (i : ℤ) → pos a ≤ℤ i → a ≤ pos_part i
    bound_low i low = omega (arith, parts_normal i)

    bound_high : (i : ℤ) → i ≤ℤ pos b → pos_part i ≤ b
    bound_high i high = omega (arith, parts_normal i)
