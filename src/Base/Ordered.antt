-- ===== src/Base/Ordered.antt =====
-- Lists in order: what a sort, a filter and a limit leave of a list, whatever is listed.
use tuppira.Base.{
  List, [], ◌∷◌, ◌++◌, Bool, true, false, not, Bool-cases, filter, filter_cases, All, ◌≡◌, inl, inr,
}
use tuppira.Base.Sorts.{insert_by, sort_by}
use mathlib.Core.List.{Perm, perm_middle}
use mathlib.Core.List.Perm

-- Each item stands in the relation to all that follow it.
abbrev pub IsOrdered {ℓ} : {A : Type ℓ} → (A → A → Type 0) → List A → Type 0
IsOrdered R [] = Unit
IsOrdered R (x ∷ xs) = All (R x) xs × IsOrdered R xs

module _ {ℓ} {A : Type ℓ} (P : A → Type 0) where
  All-insert_by :
      (before : A → A → Bool) (a : A) (xs : List A) → P a → All P xs → All P (insert_by before a xs)
  unfolding insert_by
  All-insert_by before a [] p ps = (p, tt)
  All-insert_by before a (x ∷ xs) p ps = elim (Bool-cases (before a x)) [
    | inl first ↦ rw first (p, ps)
    | inr later ↦ rw later (ps.0, All-insert_by before a xs p ps.1)
  ]

  pub All-sort_by : (before : A → A → Bool) (xs : List A) → All P xs → All P (sort_by before xs)
  unfolding sort_by
  All-sort_by before [] ps = tt
  All-sort_by before (x ∷ xs) ps =
      All-insert_by before x (sort_by before xs) ps.0 (All-sort_by before xs ps.1)

  -- Every item that a filter keeps passes its test.
  pub All-passing :
      (p : A → Bool) (xs : List A) → ((x : A) → p x ≡ true → P x) → All P (filter p xs)
  All-passing p [] h = tt
  All-passing p (x ∷ xs) h =
      filter_cases (All P) p x xs (λ passes. (h x passes, All-passing p xs h)) (All-passing p xs h)

module _ {ℓ} {A : Type ℓ} (before : A → A → Bool) where
  insert_by-perm : (a : A) (xs : List A) → Perm (insert_by before a xs) (a ∷ xs)
  unfolding insert_by
  insert_by-perm a [] = Perm.refl _
  insert_by-perm a (x ∷ xs) = elim (Bool-cases (before a x)) [
    | inl first ↦ rw first (Perm.refl _)
    | inr later ↦ rw later (Perm.trans (Perm.cons x (insert_by-perm a xs)) (Perm.swap a x xs))
  ]

  -- A sort loses nothing and adds nothing.
  pub sort_by-perm : (xs : List A) → Perm (sort_by before xs) xs
  unfolding sort_by
  sort_by-perm [] = Perm.refl []
  sort_by-perm (x ∷ xs) =
      Perm.trans (insert_by-perm x (sort_by before xs)) (Perm.cons x (sort_by-perm xs))

  module _ (R : A → A → Type 0) (yes_before : (a b : A) → before a b ≡ true → R a b)
      (not_before : (a b : A) → before a b ≡ false → R b a)
      (trans : (a b c : A) → R a b → R b c → R a c) where
    All-before : (a x : A) (xs : List A) → R a x → All (R x) xs → All (R a) xs
    All-before a x [] h all = tt
    All-before a x (y ∷ ys) h all = (trans a x y h all.0, All-before a x ys h all.1)

    insert_by-IsOrdered :
        (a : A) (xs : List A) → IsOrdered R xs → IsOrdered R (insert_by before a xs)
    unfolding insert_by
    insert_by-IsOrdered a [] o = (tt, tt)
    insert_by-IsOrdered a (x ∷ xs) o = elim (Bool-cases (before a x)) [
      | inl first ↦ let h = yes_before a x first in rw first ((h, All-before a x xs h o.0), o)
      | inr later ↦
          rw later (
            All-insert_by (R x) before a xs (not_before a x later) o.0,
            insert_by-IsOrdered a xs o.1,
          )
    ]

    -- A sort by a test that decides a transitive relation puts a list in that order.
    pub sort_by-IsOrdered : (xs : List A) → IsOrdered R (sort_by before xs)
    unfolding sort_by
    sort_by-IsOrdered [] = tt
    sort_by-IsOrdered (x ∷ xs) = insert_by-IsOrdered x (sort_by before xs) (sort_by-IsOrdered xs)

module _ {ℓ} {A : Type ℓ} (p : A → Bool) where
  pick-perm :
      (b : Bool) (x : A) (kept dropped xs : List A)
      → Perm (kept ++ dropped) xs
      → Perm
          ((elim b [ true ↦ x ∷ kept | false ↦ kept ])
            ++ (elim (not b) [ true ↦ x ∷ dropped | false ↦ dropped ]))
          (x ∷ xs)
  pick-perm true x kept dropped xs h = Perm.cons x h
  pick-perm false x kept dropped xs h = Perm.trans (perm_middle kept dropped) (Perm.cons x h)

  -- What a filter keeps and what it drops are the list.
  pub filter-perm : (xs : List A) → Perm (filter p xs ++ filter (λ x. not (p x)) xs) xs
  filter-perm [] = Perm.refl []
  filter-perm (x ∷ xs) = pick-perm (p x) x _ _ xs (filter-perm xs)

module _ {ℓ} {A : Type ℓ} where
  pub All-kept : (P : A → Type 0) (p : A → Bool) (xs : List A) → All P xs → All P (filter p xs)
  All-kept P p [] h = tt
  All-kept P p (x ∷ xs) h =
      filter_cases (All P) p x xs (λ passes. (h.0, All-kept P p xs h.1)) (All-kept P p xs h.1)

  -- A filter keeps the order.
  pub IsOrdered-filter :
      (R : A → A → Type 0) (p : A → Bool) (xs : List A) → IsOrdered R xs → IsOrdered R (filter p xs)
  IsOrdered-filter R p [] o = tt
  IsOrdered-filter R p (x ∷ xs) o =
      filter_cases (IsOrdered R) p x xs
        (λ passes. (All-kept (R x) p xs o.0, IsOrdered-filter R p xs o.1))
        (IsOrdered-filter R p xs o.1)

  All-weaken : (P Q : A → Type 0) → ((a : A) → P a → Q a) → (xs : List A) → All P xs → All Q xs
  All-weaken P Q f [] h = tt
  All-weaken P Q f (x ∷ xs) h = (f x h.0, All-weaken P Q f xs h.1)

  pub IsOrdered-weaken :
      (R S : A → A → Type 0)
      → ((a b : A) → R a b → S a b)
      → (xs : List A) → IsOrdered R xs
      → IsOrdered S xs
  IsOrdered-weaken R S f [] o = tt
  IsOrdered-weaken R S f (x ∷ xs) o =
      (All-weaken (R x) (S x) (f x) xs o.0, IsOrdered-weaken R S f xs o.1)
