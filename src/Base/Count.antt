-- ===== src/Base/Count.antt =====
-- How often a key occurs in a list, in any order.
use mathlib.Core.List.{List, [], ◌∷◌, Perm, Permᴰ, map}
use mathlib.Core.Logic.{∥∥₁_elim, inl, inr}
use mathlib.Core.Path.{◌≡◌, refl, ap, ◌∙◌}
use Prim.Native.Nat.{ℕ, ◌+◌}
use native.Mathlib.Nat.{ℕ_set}
use native.Mathlib.Omega.{arith}
use kaepora.Base.Lists.{has, IsNodup}
use kaepora.Base.Tests.{◌==◌, if◌then◌else◌, Bool-cases, ==_iff}

module _ {A : Type 0} (key : A → ℕ) (a : ℕ) where
  abbrev pub count : List A → ℕ
  count [] = 0
  count (x ∷ xs) = (if key x == a then 1 else 0) + count xs

  count-permᴰ : {xs ys : List A} → Permᴰ xs ys → count xs ≡ count ys
  count-permᴰ Permᴰ.nil = refl
  count-permᴰ (Permᴰ.cons {l₁ = xs} e d) = cc (e, count-permᴰ d)
  count-permᴰ (Permᴰ.swap {l} e f) = omega (
    arith,
    ap {B = ℕ} (λ z. if key z == a then 1 else 0) e,
    ap {B = ℕ} (λ z. if key z == a then 1 else 0) f,
  )
  count-permᴰ (Permᴰ.trans c d) = count-permᴰ c ∙ count-permᴰ d

  pub count-perm : {xs ys : List A} → Perm xs ys → count xs ≡ count ys
  count-perm p = ∥∥₁_elim p (ℕ_set _ _) count-permᴰ

  -- In a list of different keys, a key occurs once or not at all.
  pub count-IsNodup :
      (xs : List A) → IsNodup (map key xs) → count xs ≡ (if has a (map key xs) then 1 else 0)
  unfolding has
  count-IsNodup [] h = refl
  count-IsNodup (x ∷ xs) (fresh, h) = elim (Bool-cases (key x == a)) [
    | inl same ↦
        ground (arith, count-IsNodup xs h, ap (λ k. has k (map key xs)) ((==_iff (key x) a).0 same))
    | inr other ↦ ground (arith, count-IsNodup xs h)
  ]
