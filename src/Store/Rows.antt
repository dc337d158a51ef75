-- ===== src/Store/Rows.antt =====
-- Queries of storage/src/repositories/observations.rs over rows in the order of insertion.
use tuppira.Base.{
  Text, List, [], ◌∷◌, ◌++◌, none, some, Bool, true, false, ◌||◌, text_eq, if◌then◌else◌, All, ◌≡◌,
  ◌⊎◌, inl, inr, refl, arith,
}
use tuppira.Store.Schema.{lookup, any_row, has_key}

abbrev pub Somewhere : {A : Type 0} → (A → Type 0) → List A → Type 0
Somewhere P [] = ⊥
Somewhere P (x ∷ xs) = P x ⊎ Somewhere P xs

either : (a b : Bool) → (a || b) ≡ true → (a ≡ true) ⊎ (b ≡ true)
either true b h = inl refl
either false b h = inr h

module _ {A : Type 0} where
  pub Somewhere-append : (P : A → Type 0) (xs ys : List A) → Somewhere P xs → Somewhere P (xs ++ ys)
  Somewhere-append P [] ys s = absurd s
  Somewhere-append P (x ∷ xs) ys (inl here) = inl here
  Somewhere-append P (x ∷ xs) ys (inr there) = inr (Somewhere-append P xs ys there)

  pub Somewhere-end : (P : A → Type 0) (xs : List A) (y : A) → P y → Somewhere P (xs ++ y ∷ [])
  Somewhere-end P [] y p = inl p
  Somewhere-end P (x ∷ xs) y p = inr (Somewhere-end P xs y p)

  pub Somewhere-map :
      {P Q : A → Type 0} (xs : List A) → ((x : A) → P x → Q x) → Somewhere P xs → Somewhere Q xs
  Somewhere-map [] f s = s
  Somewhere-map (x ∷ xs) f (inl here) = inl (f x here)
  Somewhere-map (x ∷ xs) f (inr there) = inr (Somewhere-map xs f there)

  -- What holds somewhere meets what holds everywhere.
  pub Somewhere-All :
      (P Q R : A → Type 0) (xs : List A)
      → ((x : A) → P x → Q x → R x)
      → All Q xs
      → Somewhere P xs
      → Somewhere R xs
  Somewhere-All P Q R [] f q s = s
  Somewhere-All P Q R (x ∷ xs) f q (inl here) = inl (f x here q.0)
  Somewhere-All P Q R (x ∷ xs) f q (inr there) = inr (Somewhere-All P Q R xs f q.1 there)

  pub Somewhere-absurd : (xs : List A) → Somewhere (λ x. ⊥) xs → ⊥
  Somewhere-absurd [] s = s
  Somewhere-absurd (x ∷ xs) (inl here) = here
  Somewhere-absurd (x ∷ xs) (inr there) = Somewhere-absurd xs there

  pub All-map : {P Q : A → Type 0} (xs : List A) → ((x : A) → P x → Q x) → All P xs → All Q xs
  All-map [] f a = tt
  All-map (x ∷ xs) f a = (f x a.0, All-map xs f a.1)

  pub All-end : (P : A → Type 0) (xs : List A) (y : A) → All P xs → P y → All P (xs ++ y ∷ [])
  All-end P [] y a p = (p, tt)
  All-end P (x ∷ xs) y a p = (a.0, All-end P xs y a.1 p)

  pub All-append : (P : A → Type 0) (xs ys : List A) → All P xs → All P ys → All P (xs ++ ys)
  All-append P [] ys a b = b
  All-append P (x ∷ xs) ys a b = (a.0, All-append P xs ys a.1 b)

  pub any_row-Somewhere :
      (test : A → Bool) (xs : List A) → any_row test xs ≡ true → Somewhere (λ x. test x ≡ true) xs
  unfolding any_row
  any_row-Somewhere test [] h = cc (h)
  any_row-Somewhere test (x ∷ xs) h = elim (either (test x) (any_row test xs) h) [
    | inl a ↦ inl a
    | inr b ↦ inr (any_row-Somewhere test xs b)
  ]

  pub any_row-All :
      (test : A → Bool) (xs : List A) → any_row test xs ≡ false → All (λ x. test x ≡ false) xs
  unfolding any_row
  any_row-All test [] h = tt
  any_row-All test (x ∷ xs) h = (ground arith, any_row-All test xs (ground arith))

  -- A key that no row has finds the row that is put behind them.
  pub lookup-end :
      (key : A → Text) (xs : List A) (y : A) (id : Text)
      → lookup key (xs ++ y ∷ []) id ≡ (
          if has_key key xs id
          then lookup key xs id
          else (if text_eq (key y) id then some y else none))
  unfolding lookup any_row
  lookup-end key [] y id = refl
  lookup-end key (x ∷ xs) y id = ground (arith, lookup-end key xs y id)
