-- ===== src/Base/Perm.antt =====
-- Permutations, measured by native numbers and read element by element.
use mathlib.Core.List.{
  List, [], ◌∷◌, Mem, Perm, Permᴰ, mem-cons_self, mem-cons_of_mem, mem-cons, not-mem-nil,
}
use mathlib.Core.List.Perm
use mathlib.Core.Logic.{∥∥₁_elim, inl, inr}
use mathlib.Core.Logic.Or
use mathlib.Core.HLevel.{Π_prop}
use mathlib.Core.Bool.{Bool, true, ◌&&◌}
use mathlib.Core.Option.{some, some-injective}
use mathlib.Core.Path.{◌≡◌, refl, ap, ◌∙◌, sym, subst}
use Prim.Native.Nat.{ℕ, zero, suc}
use native.Mathlib.Nat.{ℕ_set}
use kaepora.Base.Lists.{length, get_elem?, select}
use kaepora.Base.Tests.{Bool-cases}

module _ {ℓ} {A : Type ℓ} where
  length-permᴰ : {xs ys : List A} → Permᴰ xs ys → length xs ≡ length ys
  length-permᴰ Permᴰ.nil = refl
  length-permᴰ (Permᴰ.cons e d) = ap suc (length-permᴰ d)
  length-permᴰ (Permᴰ.swap e f) = refl
  length-permᴰ (Permᴰ.trans c d) = length-permᴰ c ∙ length-permᴰ d

  pub length-perm : {xs ys : List A} → Perm xs ys → length xs ≡ length ys
  length-perm p = ∥∥₁_elim p (ℕ_set _ _) length-permᴰ

-- A property of every member; it does not see the order.
abbrev pub All {ℓ κ} : {A : Type ℓ} → (A → Type κ) → List A → Type (ℓ ⊔ κ)
All {A} P l = (x : A) → Mem x l → P x

pub All-perm {ℓ κ} :
    {A : Type ℓ} (P : A → Type κ) {xs ys : List A} → Perm xs ys → All P ys → All P xs
All-perm P p h x m = h x (Perm.subset p x m)

pub All-head {ℓ κ} : {A : Type ℓ} (P : A → Type κ) {x : A} {l : List A} → All P (x ∷ l) → P x
All-head P h = h _ mem-cons_self

pub All-tail {ℓ κ} : {A : Type ℓ} (P : A → Type κ) {x : A} {l : List A} → All P (x ∷ l) → All P l
All-tail P {x} h y m = h y (mem-cons_of_mem x m)

Bool-set : IsSet Bool
Bool-set = hlevel

-- A Boolean test holds of every member.
abbrev pub Every {ℓ} : {A : Type ℓ} → (A → Bool) → List A → Type ℓ
Every p = All (λ x. p x ≡ true)

pub Every-nil {ℓ} : {A : Type ℓ} (p : A → Bool) → Every p []
Every-nil p x m = absurd (not-mem-nil m)

pub Every-cons {ℓ} :
    {A : Type ℓ} (p : A → Bool) (x : A) (l : List A) → p x ≡ true → Every p l → Every p (x ∷ l)
Every-cons p x l h t y m =
    Or.elim (Bool-set (p y) true) (mem-cons.0 m) (λ e. subst (λ z. p z ≡ true) (sym e) h) (t y)

pub Every-get_elem? {ℓ} :
    {A : Type ℓ} (p : A → Bool) (l : List A) (i : ℕ) {x : A}
    → get_elem? l i ≡ some x
    → Every p l
    → p x ≡ true
Every-get_elem? p [] i e h = cc
Every-get_elem? p (y ∷ l) zero e h =
    subst (λ z. p z ≡ true) (some-injective _ _ e) (All-head (λ z. p z ≡ true) h)
Every-get_elem? p (y ∷ l) (suc i) e h = Every-get_elem? p l i e (All-tail (λ z. p z ≡ true) h)

pub Every-select {ℓ} :
    {A : Type ℓ} (p q : A → Bool) (l : List A) → Every p l → Every (λ x. p x && q x) (select q l)
unfolding select
Every-select p q [] h = Every-nil _
Every-select p q (x ∷ l) h = elim (Bool-cases (q x)) [
  | inl e ↦ rw e (
      Every-cons _ x (select q l) (rw (e, All-head (λ z. p z ≡ true) h))
        (Every-select p q l (All-tail (λ z. p z ≡ true) h)))
  | inr e ↦ rw e (Every-select p q l (All-tail (λ z. p z ≡ true) h))
]

pub Every-prop {ℓ} : {A : Type ℓ} (p : A → Bool) (l : List A) → IsProp (Every p l)
Every-prop p l = Π_prop λ x. Π_prop λ m. Bool-set (p x) true

pub All-nil {ℓ κ} : {A : Type ℓ} (P : A → Type κ) → All P []
All-nil P x m = absurd (not-mem-nil m)

pub All-cons {ℓ κ} :
    {A : Type ℓ} (P : A → Type κ) (x : A) (l : List A)
    → ((y : A) → IsProp (P y))
    → P x
    → All P l
    → All P (x ∷ l)
All-cons P x l prop h t y m = Or.elim (prop y) (mem-cons.0 m) (λ e. subst P (sym e) h) (t y)
