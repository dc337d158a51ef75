-- ===== src/Base/Results.antt =====
-- Rust's `Result<A, E>`: `?` is bind, an early `return Err(e)` is `refuse_if`.
use mathlib.Core.Path.{◌≡◌, refl}
use mathlib.Core.Logic.{◌↔◌, ◌⊎◌, inl, inr}
use mathlib.Core.Bool.{Bool, true, false}
use mathlib.Core.Option.{Option, none, some}
use mathlib.Core.List.{List, [], ◌∷◌}
use tuppira.Base.Lists.{All}

pub data Result {ℓ} (E : Type 0) (A : Type ℓ) : Type ℓ where
  ok : A → Result E A
  err : E → Result E A

infixl 5 ◌>>=◌ ◌>>◌
abbrev pub ◌>>=◌ {ℓ κ} :
    {E : Type 0} {A : Type ℓ} {B : Type κ} → Result E A → (A → Result E B) → Result E B
ok a >>= f = f a
err e >>= f = err e

abbrev pub ◌>>◌ {ℓ} : {E : Type 0} {B : Type ℓ} → Result E (Unit {0}) → Result E B → Result E B
m >> k = m >>= λ _. k

-- if test { return Err(e) }
abbrev pub refuse_if : {E : Type 0} → Bool → E → Result E (Unit {0})
refuse_if true e = err e
refuse_if false e = ok tt

abbrev pub ok_or {ℓ} : {E : Type 0} {A : Type ℓ} → Option A → E → Result E A
ok_or none e = err e
ok_or (some a) e = ok a

abbrev pub map_err {ℓ} : {E F : Type 0} {A : Type ℓ} → (E → F) → Result E A → Result F A
map_err f (ok a) = ok a
map_err f (err e) = err (f e)

-- for x in xs { f(x)?; }
abbrev pub for_each {ℓ} :
    {E : Type 0} {A : Type ℓ} → (A → Result E (Unit {0})) → List A → Result E (Unit {0})
for_each f [] = ok tt
for_each f (x ∷ xs) = f x >> for_each f xs

module _ {E : Type 0} where
  -- A chain that succeeds had a first result, and the rest of it succeeds on that.
  pub >>=-eq-ok {ℓ κ} :
      {A : Type ℓ} {B : Type κ} (first : Result E A) (next : A → Result E B) {result : B}
      → (first >>= next) ≡ ok result
      → (value : A) × (first ≡ ok value) × (next value ≡ ok result)
  >>=-eq-ok (ok value) next done = (value, refl, done)
  >>=-eq-ok (err problem) next done = cc

  -- A sequence succeeds exactly when both of its parts do.
  pub >>_iff {ℓ} :
      {B : Type ℓ} (m : Result E (Unit {0})) (k : Result E B) {b : B}
      → ((m >> k) ≡ ok b) ↔ ((m ≡ ok tt) × (k ≡ ok b))
  >>_iff (ok tt) k = (λ h. (refl, h), λ h. h.1)
  >>_iff (err e) k = (λ h. cc, λ h. cc (h.0))

  pub refuse_if_iff : (b : Bool) (e : E) → (refuse_if b e ≡ ok tt) ↔ (b ≡ false)
  refuse_if_iff true e = (λ h. cc, λ h. cc)
  refuse_if_iff false e = (λ h. refl, λ h. refl)

  pub map_err_iff {ℓ} :
      {F : Type 0} {A : Type ℓ} (f : E → F) (r : Result E A) {a : A}
      → (map_err f r ≡ ok a) ↔ (r ≡ ok a)
  map_err_iff f (ok a) = (λ h. cc, λ h. cc)
  map_err_iff f (err e) = (λ h. cc, λ h. cc)

  pub ok_or_iff {ℓ} :
      {A : Type ℓ} (o : Option A) (e : E) {a : A} → (ok_or o e ≡ ok a) ↔ (o ≡ some a)
  ok_or_iff none e = (λ h. cc, λ h. cc)
  ok_or_iff (some a) e = (λ h. cc, λ h. cc)

  -- A loop of checks succeeds exactly when each item passes.
  pub for_each_iff {ℓ} :
      {A : Type ℓ} (f : A → Result E (Unit {0})) (xs : List A)
      → (for_each f xs ≡ ok tt) ↔ All (λ x. f x ≡ ok tt) xs
  for_each_iff f [] = (λ h. tt, λ h. refl)
  for_each_iff f (x ∷ xs) = (
    λ h. let (a, b) = (>>_iff (f x) (for_each f xs)).0 h in (a, (for_each_iff f xs).0 b),
    λ h. (>>_iff (f x) (for_each f xs)).1 (h.0, (for_each_iff f xs).1 h.1),
  )

  pub Result-cases {ℓ} :
      {A : Type ℓ} (r : Result E A) → ((a : A) × (r ≡ ok a)) ⊎ ((e : E) × (r ≡ err e))
  Result-cases (ok a) = inl (a, refl)
  Result-cases (err e) = inr (e, refl)
