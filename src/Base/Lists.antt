-- ===== src/Base/Lists.antt =====
-- Lists measured and indexed by native numbers, under the library's names, and membership tests.
use Prim.Native.Nat.{ℕ, zero, suc, ◌+◌}
use mathlib.Core.Path.{◌≡◌, refl, subst, sym, ap, ◌∙◌}
use mathlib.Core.Logic.{◌⊎◌, inl, inr}
use mathlib.Core.Bool.{Bool, true, false, ◌||◌}
use mathlib.Core.List.{List, [], ◌∷◌, ◌++◌}
use mathlib.Core.Option.{Option, none, some, some-injective}
use native.Mathlib.Omega.{arith}
use kaepora.Base.Tests.{if◌then◌else◌, ◌==◌, Bool-cases}

module _ {ℓ} {A : Type ℓ} where
  abbrev pub take : ℕ → List A → List A
  take zero l = []
  take (suc n) [] = []
  take (suc n) (a ∷ l) = a ∷ take n l

  abbrev pub length : List A → ℕ
  length [] = 0
  length (x ∷ xs) = suc (length xs)

  abbrev pub get_elem? : List A → ℕ → Option A
  get_elem? [] i = none
  get_elem? (x ∷ xs) zero = some x
  get_elem? (x ∷ xs) (suc i) = get_elem? xs i

  -- The list without the element at an index; an index out of range removes nothing.
  abbrev pub erase_idx : List A → ℕ → List A
  erase_idx [] i = []
  erase_idx (x ∷ xs) zero = xs
  erase_idx (x ∷ xs) (suc i) = x ∷ erase_idx xs i

  -- Filter, find and `any` by a Boolean test: these run in a test.
  unfoldable pub select : (A → Bool) → List A → List A
  select p [] = []
  select p (x ∷ xs) = if p x then x ∷ select p xs else select p xs

  unfoldable pub find : (A → Bool) → List A → Option A
  find p [] = none
  find p (x ∷ xs) = if p x then some x else find p xs

  unfoldable pub any : (A → Bool) → List A → Bool
  any p [] = false
  any p (x ∷ xs) = p x || any p xs

  pub length-append : (xs ys : List A) → length (xs ++ ys) ≡ length xs + length ys
  length-append [] ys = omega arith
  length-append (x ∷ xs) ys = omega (arith, length-append xs ys)

  pub length-zero : (xs : List A) → length xs ≡ 0 → xs ≡ []
  length-zero [] e = refl
  length-zero (x ∷ xs) e = absurd (omega arith)

-- Membership of numbers, by the loop that the code writes, and lists that name no number twice.
unfoldable pub has : ℕ → List ℕ → Bool
has a [] = false
has a (x ∷ xs) = if x == a then true else has a xs

abbrev pub IsNodup : List ℕ → Type 0
IsNodup [] = Unit
IsNodup (x ∷ xs) = (has x xs ≡ false) × IsNodup xs

pub has-append : (a : ℕ) (xs ys : List ℕ) → has a (xs ++ ys) ≡ (has a xs || has a ys)
unfolding has
has-append a [] ys = refl
has-append a (x ∷ xs) ys = ground (arith, has-append a xs ys)

pub append-IsNodup : (a : ℕ) (xs : List ℕ) → has a xs ≡ false → IsNodup xs → IsNodup (xs ++ a ∷ [])
unfolding has
append-IsNodup a [] h n = (refl, tt)
append-IsNodup a (x ∷ xs) h n =
    (ground (arith, has-append x xs (a ∷ [])), append-IsNodup a xs (ground arith) n.1)

-- A property of every element, by recursion: it computes to a tuple.
abbrev pub Each {ℓ κ} : {A : Type ℓ} → (A → Type κ) → List A → Type κ
Each P [] = Unit
Each P (x ∷ xs) = P x × Each P xs

module _ {ℓ κ} {A : Type ℓ} (P : A → Type κ) where
  pub Each-select : (p : A → Bool) (xs : List A) → Each P xs → Each P (select p xs)
  unfolding select
  Each-select p [] h = tt
  Each-select p (x ∷ xs) (hx, hs) = ground (arith, Each-select p xs hs)

  pub Each-find : (p : A → Bool) (xs : List A) (x : A) → Each P xs → find p xs ≡ some x → P x
  unfolding find
  Each-find p [] x h e = absurd (cc)
  Each-find p (y ∷ xs) x (hy, hs) e = elim (Bool-cases (p y)) [
    | inl here ↦ subst P (some-injective _ _ (ground arith)) hy
    | inr there ↦ Each-find p xs x hs (ground arith)
  ]

  pub Each-append : (xs ys : List A) → Each P xs → Each P ys → Each P (xs ++ ys)
  Each-append [] ys hx hy = hy
  Each-append (x ∷ xs) ys (hx, hs) hy = (hx, Each-append xs ys hs hy)

pub Each-both {ℓ κ μ ν} :
    {A : Type ℓ} (P : A → Type κ) (Q : A → Type μ) (R : A → Type ν)
    → ((x : A) → P x → Q x → R x)
    → (xs : List A) → Each P xs
    → Each Q xs
    → Each R xs
Each-both P Q R f [] hp hq = tt
Each-both P Q R f (x ∷ xs) (hp, hps) (hq, hqs) = (f x hp hq, Each-both P Q R f xs hps hqs)

-- A list with an element in it.
abbrev pub Occurs : {A : Type 0} → A → List A → Type 0
Occurs x [] = ⊥
Occurs x (y ∷ ys) = (x ≡ y) ⊎ Occurs x ys

module _ {A : Type 0} (P : A → Type 0) where
  pub Each-Occurs : (x : A) (xs : List A) → Each P xs → Occurs x xs → P x
  Each-Occurs x [] h m = absurd m
  Each-Occurs x (y ∷ xs) (hy, h) (inl e) = subst P (sym e) hy
  Each-Occurs x (y ∷ xs) (hy, h) (inr m) = Each-Occurs x xs h m

  pub Each-all : (xs : List A) → ((x : A) → Occurs x xs → P x) → Each P xs
  Each-all [] h = tt
  Each-all (y ∷ xs) h = (h y (inl refl), Each-all xs (λ x m. h x (inr m)))

module _ {A : Type 0} (x : A) where
  pub Occurs-find : (p : A → Bool) (ys : List A) → find p ys ≡ some x → Occurs x ys
  unfolding find
  Occurs-find p [] e = absurd (cc)
  Occurs-find p (y ∷ ys) e = elim (Bool-cases (p y)) [
    | inl here ↦ inl (sym (some-injective _ _ (ground arith)))
    | inr there ↦ inr (Occurs-find p ys (ground arith))
  ]

  pub Occurs-select :
      (p : A → Bool) (ys : List A) → p x ≡ true → Occurs x ys → Occurs x (select p ys)
  unfolding select
  Occurs-select p [] px m = absurd m
  Occurs-select p (y ∷ ys) px (inl e) = rw (ap p (sym e) ∙ px) (inl e)
  Occurs-select p (y ∷ ys) px (inr m) = elim (Bool-cases (p y)) [
    | inl here ↦ rw here (inr (Occurs-select p ys px m))
    | inr there ↦ rw there (Occurs-select p ys px m)
  ]

module _ {ℓ} {A : Type ℓ} (p : A → Bool) where
  pub any-append : (xs ys : List A) → any p (xs ++ ys) ≡ (any p xs || any p ys)
  unfolding any
  any-append [] ys = refl
  any-append (x ∷ xs) ys = ground (arith, any-append xs ys)

  -- A test that implies another one fails where that one does.
  pub any-false :
      (q : A → Bool)
      → ((x : A) → p x ≡ false → q x ≡ false)
      → (xs : List A) → any p xs ≡ false
      → any q xs ≡ false
  unfolding any
  any-false q h [] e = refl
  any-false q h (x ∷ xs) e = ground (arith, h x, any-false q h xs)

  pub any-ext : (q : A → Bool) → ((x : A) → p x ≡ q x) → (xs : List A) → any p xs ≡ any q xs
  unfolding any
  any-ext q h [] = refl
  any-ext q h (x ∷ xs) = ground (arith, h x, any-ext q h xs)
