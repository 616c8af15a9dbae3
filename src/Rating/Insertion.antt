-- ===== src/Rating/Insertion.antt =====
-- Insertion sort, which the package sort uses for short slices: a function that meets the
-- assumption on `sort.Sort`.
use mathlib.Core.List.{Perm}
use mathlib.Core.List.Perm
use kaepora.Base.{inl, inr, List, [], ◌∷◌, Bool, Bool-cases, if◌then◌else◌}
use kaepora.Rating.{Sorter}

module _ {A : Type 0} (less : A → A → Bool) where
  abbrev insert : A → List A → List A
  insert x [] = x ∷ []
  insert x (y ∷ l) = if less y x then y ∷ insert x l else x ∷ y ∷ l

  abbrev insertion_sort : List A → List A
  insertion_sort [] = []
  insertion_sort (x ∷ l) = insert x (insertion_sort l)

  insert-perm : (x : A) (l : List A) → Perm (insert x l) (x ∷ l)
  insert-perm x [] = Perm.refl (x ∷ [])
  insert-perm x (y ∷ l) = elim (Bool-cases (less y x)) [
    | inl e ↦ rw e (Perm.trans (Perm.cons y (insert-perm x l)) (Perm.swap x y l))
    | inr e ↦ rw e (Perm.refl (x ∷ y ∷ l))
  ]

  pub insertion_sort-perm : (l : List A) → Perm (insertion_sort l) l
  insertion_sort-perm [] = Perm.refl []
  insertion_sort-perm (x ∷ l) =
      Perm.trans (insert-perm x (insertion_sort l)) (Perm.cons x (insertion_sort-perm l))

abbrev pub insertion_sorter : {A : Type 0} → Sorter A
insertion_sorter = record { sort = insertion_sort; sort-perm = insertion_sort-perm }
