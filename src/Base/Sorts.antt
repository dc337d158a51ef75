-- ===== src/Base/Sorts.antt =====
-- A stable sort: an item goes before those behind it that it does not have to follow.
use tuppira.Base.Tests.{if◌then◌else◌}
use tuppira.Base.Lists.{filter}
use mathlib.Core.Path.{◌≡◌, refl, ap, ◌∙◌}
use mathlib.Core.Bool.{Bool, true, false}
use mathlib.Core.List.{List, [], ◌∷◌, map}

module _ {ℓ} {A : Type ℓ} (before : A → A → Bool) where
  unfoldable pub insert_by : A → List A → List A
  insert_by a [] = a ∷ []
  insert_by a (x ∷ xs) = let rest = insert_by a xs in if before a x then a ∷ x ∷ xs else x ∷ rest

  unfoldable pub sort_by : List A → List A
  sort_by [] = []
  sort_by (x ∷ xs) = insert_by x (sort_by xs)

module _ {ℓ} {A : Type ℓ} where
  map-if :
      (f : A → A) (b : Bool) (xs ys : List A)
      → map f (if b then xs else ys) ≡ (if b then map f xs else map f ys)
  map-if f true xs ys = refl
  map-if f false xs ys = refl

  -- What does not touch the order can be done before or after sorting and filtering.
  module _ (before : A → A → Bool) (f : A → A)
      (kept : (a b : A) → before (f a) (f b) ≡ before a b) where
    map-insert_by :
        (a : A) (xs : List A) → map f (insert_by before a xs) ≡ insert_by before (f a) (map f xs)
    unfolding insert_by
    map-insert_by a [] = refl
    map-insert_by a (x ∷ xs) =
        map-if f (before a x) (a ∷ x ∷ xs) (x ∷ insert_by before a xs)
        ∙ rw (kept a x, map-insert_by a xs) refl

    pub map-sort_by : (xs : List A) → map f (sort_by before xs) ≡ sort_by before (map f xs)
    unfolding sort_by
    map-sort_by [] = refl
    map-sort_by (x ∷ xs) =
        map-insert_by x (sort_by before xs) ∙ ap (insert_by before (f x)) (map-sort_by xs)

  pick_map :
      (p : A → Bool) (f : A → A) (b : Bool) (x : A) (xs : List A)
      → map f (filter p xs) ≡ filter p (map f xs)
      → map f (elim b [ true ↦ x ∷ filter p xs | false ↦ filter p xs ])
        ≡ elim b [ true ↦ f x ∷ filter p (map f xs) | false ↦ filter p (map f xs) ]
  pick_map p f true x xs h = ap (λ rest. f x ∷ rest) h
  pick_map p f false x xs h = h

  pub map-filter :
      (p : A → Bool) (f : A → A)
      → ((a : A) → p (f a) ≡ p a)
      → (xs : List A) → map f (filter p xs) ≡ filter p (map f xs)
  map-filter p f kept [] = refl
  map-filter p f kept (x ∷ xs) = pick_map p f (p x) x xs (map-filter p f kept xs) ∙ rw (kept x) refl
