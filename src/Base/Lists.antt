-- ===== src/Base/Lists.antt =====
-- Lists measured by native numbers, predicates over their items, and cancellation of a prefix.
use Prim.Native.Nat.{ℕ, zero, suc, ◌+◌}
use mathlib.Core.Path.{◌≡◌, refl, ap, ◌∙◌}
use mathlib.Core.Bool.{Bool, true, false, ◌&&◌}
use mathlib.Core.List.{List, [], ◌∷◌, ◌++◌}
use mathlib.Core.Option.{Option, none, some}
use native.Mathlib.Omega.{arith}

module _ {ℓ} {A : Type ℓ} where
  abbrev pub length : List A → ℕ
  length [] = 0
  length (x ∷ xs) = suc (length xs)

  abbrev pub is_empty : List A → Bool
  is_empty [] = true
  is_empty (x ∷ xs) = false

  abbrev pub all : (A → Bool) → List A → Bool
  all p [] = true
  all p (x ∷ xs) = p x && all p xs

  abbrev pub filter : (A → Bool) → List A → List A
  filter p [] = []
  filter p (x ∷ xs) = elim (p x) [ true ↦ x ∷ filter p xs | false ↦ filter p xs ]

  abbrev pub find : (A → Bool) → List A → Option A
  find p [] = none
  find p (x ∷ xs) = elim (p x) [ true ↦ some x | false ↦ find p xs ]

  abbrev pub replicate : ℕ → A → List A
  replicate zero a = []
  replicate (suc n) a = a ∷ replicate n a

  abbrev pub drop : ℕ → List A → List A
  drop zero xs = xs
  drop (suc n) [] = []
  drop (suc n) (x ∷ xs) = drop n xs

  kept_or_dropped {κ} :
      (P : List A → Type κ) (b : Bool) {with_it without : List A}
      → (b ≡ true → P with_it)
      → P without
      → P (elim b [ true ↦ with_it | false ↦ without ])
  kept_or_dropped P true kept dropped = kept refl
  kept_or_dropped P false kept dropped = dropped

  -- A filtered list has its first item or goes on without it.
  pub filter_cases {κ} :
      (P : List A → Type κ) (p : A → Bool) (x : A) (xs : List A)
      → (p x ≡ true → P (x ∷ filter p xs))
      → P (filter p xs)
      → P (filter p (x ∷ xs))
  filter_cases P p x xs kept dropped = kept_or_dropped P (p x) kept dropped

  pub filter-kept :
      (p : A → Bool) (x : A) (xs : List A) → p x ≡ true → filter p (x ∷ xs) ≡ x ∷ filter p xs
  filter-kept p x xs h = ap (λ b. elim b [ true ↦ x ∷ filter p xs | false ↦ filter p xs ]) h

  pub filter-dropped :
      (p : A → Bool) (x : A) (xs : List A) → p x ≡ false → filter p (x ∷ xs) ≡ filter p xs
  filter-dropped p x xs h = ap (λ b. elim b [ true ↦ x ∷ filter p xs | false ↦ filter p xs ]) h

  kept_then :
      (b : Bool) (x : A) (xs ys : List A)
      → elim b [ true ↦ x ∷ (xs ++ ys) | false ↦ xs ++ ys ]
        ≡ elim b [ true ↦ x ∷ xs | false ↦ xs ] ++ ys
  kept_then true x xs ys = refl
  kept_then false x xs ys = refl

  pub filter-append :
      (p : A → Bool) (xs ys : List A) → filter p (xs ++ ys) ≡ filter p xs ++ filter p ys
  filter-append p [] ys = refl
  filter-append p (x ∷ xs) ys =
      ap (λ z. elim (p x) [ true ↦ x ∷ z | false ↦ z ]) (filter-append p xs ys)
      ∙ kept_then (p x) x (filter p xs) (filter p ys)

  pub length-append : (xs ys : List A) → length (xs ++ ys) ≡ length xs + length ys
  length-append [] ys = omega arith
  length-append (x ∷ xs) ys = omega (arith, length-append xs ys)

  -- Two lists that continue prefixes of one length agree in prefix and in rest.
  pub append-cancel :
      (xs ys : List A) {us vs : List A}
      → length xs ≡ length ys
      → xs ++ us ≡ ys ++ vs
      → (xs ≡ ys) × (us ≡ vs)
  append-cancel [] [] n e = (refl, e)
  append-cancel [] (y ∷ ys) n e = absurd (omega arith)
  append-cancel (x ∷ xs) [] n e = absurd (omega arith)
  append-cancel (x ∷ xs) (y ∷ ys) {us} {vs} n e =
      let (same, rest) = append-cancel xs ys {us = us} {vs = vs} (omega arith) (cc e) in
      (cc (same, e), rest)

  pub append-left_injective : (xs : List A) {us vs : List A} → xs ++ us ≡ xs ++ vs → us ≡ vs
  append-left_injective [] e = e
  append-left_injective (x ∷ xs) {us} {vs} e = append-left_injective xs {us = us} {vs = vs} (cc e)

module _ {ℓ κ} {A : Type ℓ} where
  abbrev pub All : (A → Type κ) → List A → Type κ
  All P [] = Unit
  All P (x ∷ xs) = P x × All P xs
