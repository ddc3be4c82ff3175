-- ===== src/Prelude/Sort.antt =====
-- `sort.Slice` by a strict order, as insertion sort. Where the order is total on the elements, the
-- result is the only one that `sort.Slice` can give; among elements that tie it keeps their order,
-- which is one of the results that it can give.
use mathlib.Core.Bool.{Bool}
use mathlib.Core.Path.{◌≡◌}
use mathlib.Core.List.{List, [], ◌∷◌}
use mathlib.Core.Logic.{◌⊎◌, inl, inr}
use ants.Prelude.Tests.{if◌then◌else◌, Bool-cases}
use ants.Prelude.Lists.{All, IsIn}

module _ {ℓ} {A : Type ℓ} where
  unfoldable pub insert : (A → A → Bool) → A → List A → List A
  insert lt x [] = x ∷ []
  insert lt x (y ∷ ys) = let rest = insert lt x ys in if lt y x then y ∷ rest else x ∷ y ∷ ys

  unfoldable pub sort : (A → A → Bool) → List A → List A
  unfolding insert
  sort lt [] = []
  sort lt (x ∷ xs) = insert lt x (sort lt xs)

module _ {ℓ κ} {A : Type ℓ} (P : A → Type κ) (lt : A → A → Bool) where
  pub All-insert : (x : A) (xs : List A) → P x → All P xs → All P (insert lt x xs)
  unfolding insert
  All-insert x [] p h = (p, tt)
  All-insert x (y ∷ ys) p h = elim (Bool-cases (lt y x)) [
    | inl e ↦ rw e (h.0, All-insert x ys p h.1)
    | inr e ↦ rw e (p, h)
  ]

  pub All-sort : (xs : List A) → All P xs → All P (sort lt xs)
  unfolding sort
  All-sort [] h = tt
  All-sort (x ∷ xs) h = All-insert x (sort lt xs) h.0 (All-sort xs h.1)

module _ {A : Type 0} (lt : A → A → Bool) where
  insert-IsIn : (y : A) (xs : List A) (x : A) → (x ≡ y) ⊎ IsIn x xs → IsIn x (insert lt y xs)
  unfolding insert
  insert-IsIn y [] x h = h
  insert-IsIn y (z ∷ zs) x h = elim (Bool-cases (lt z y)) [
    | inl e ↦ rw e (elim h [
      | inl k ↦ inr (insert-IsIn y zs x (inl k))
      | inr k ↦ elim k [ inl at ↦ inl at | inr more ↦ inr (insert-IsIn y zs x (inr more)) ]
    ])
    | inr e ↦ rw e h
  ]

  pub sort-IsIn : (xs : List A) (x : A) → IsIn x xs → IsIn x (sort lt xs)
  unfolding sort
  sort-IsIn [] x h = h
  sort-IsIn (y ∷ ys) x (inl e) = insert-IsIn y (sort lt ys) x (inl e)
  sort-IsIn (y ∷ ys) x (inr h) = insert-IsIn y (sort lt ys) x (inr (sort-IsIn ys x h))
