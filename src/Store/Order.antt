-- ===== src/Store/Order.antt =====
-- storage/src/repositories/observations.rs: the orders of the queries, ORDER BY ref and ORDER BY
-- observed_at DESC, observation_id DESC, as relations.
use tuppira.Base.{
  ◌<◌, ltb, ◌==◌, Text, List, [], ◌∷◌, true, false, if◌then◌else◌, Bool-cases, ◌≡◌, ◌⊎◌, inl, inr,
  refl, ap, subst, arith,
}
use tuppira.Base.Ordered.{IsOrdered, sort_by-perm, sort_by-IsOrdered}
use tuppira.Base.Sorts.{insert_by, sort_by}
use mathlib.Core.List.{Perm}
use tuppira.Observation.Records.{ObservationRecord}
use tuppira.Store.Repository.{text_le, insert_sorted}
use tuppira.Store.Listing.{newer}

-- The order of a dictionary.
abbrev pub Precedes : Text → Text → Type 0
Precedes [] t = Unit
Precedes (x ∷ s) [] = ⊥
Precedes (x ∷ s) (y ∷ t) = (x < y) ⊎ ((x ≡ y) × Precedes s t)

Precedes-trans : (s t u : Text) → Precedes s t → Precedes t u → Precedes s u
Precedes-trans [] t u h j = tt
Precedes-trans (x ∷ s) [] u h j = absurd h
Precedes-trans (x ∷ s) (y ∷ t) [] h j = absurd j
Precedes-trans (x ∷ s) (y ∷ t) (z ∷ u) (inl h) (inl j) = inl (omega arith)
Precedes-trans (x ∷ s) (y ∷ t) (z ∷ u) (inl h) (inr (e, j)) = inl (omega (arith, h, e))
Precedes-trans (x ∷ s) (y ∷ t) (z ∷ u) (inr (d, h)) (inl j) = inl (omega (arith, d, j))
Precedes-trans (x ∷ s) (y ∷ t) (z ∷ u) (inr (d, h)) (inr (e, j)) =
    inr (omega (arith, d, e), Precedes-trans s t u h j)

text_le-Precedes : (s t : Text) → text_le s t ≡ true → Precedes s t
unfolding text_le
text_le-Precedes [] t h = tt
text_le-Precedes (x ∷ s) [] h = cc (h)
text_le-Precedes (x ∷ s) (y ∷ t) h = elim (Bool-cases (x == y)) [
  | inl same ↦ inr (
    ground (arith, same),
    text_le-Precedes s t (subst (λ b. (if b then text_le s t else ltb x y) ≡ true) same h),
  )
  | inr apart ↦
      let less : ltb x y ≡ true =
        subst (λ b. (if b then text_le s t else ltb x y) ≡ true) apart h in
      inl (ground (arith, less))
]

not_text_le-Precedes : (s t : Text) → text_le s t ≡ false → Precedes t s
unfolding text_le
not_text_le-Precedes [] t h = cc (h)
not_text_le-Precedes (x ∷ s) [] h = tt
not_text_le-Precedes (x ∷ s) (y ∷ t) h = elim (Bool-cases (x == y)) [
  | inl same ↦ inr (
    ground (arith, same),
    not_text_le-Precedes s t (subst (λ b. (if b then text_le s t else ltb x y) ≡ false) same h),
  )
  | inr apart ↦
      let least : ltb x y ≡ false =
        subst (λ b. (if b then text_le s t else ltb x y) ≡ false) apart h in
      inl (ground (arith, least, apart))
]

-- The references in the order in which a query returns them.
unfoldable pub sorted : List Text → List Text
sorted [] = []
sorted (t ∷ ts) = insert_sorted t (sorted ts)

insert_sorted_lem : (t : Text) (ts : List Text) → insert_sorted t ts ≡ insert_by text_le t ts
unfolding insert_sorted insert_by
insert_sorted_lem t [] = refl
insert_sorted_lem t (u ∷ us) =
    ap (λ l. if text_le t u then t ∷ u ∷ us else u ∷ l) (insert_sorted_lem t us)

sorted_lem : (ts : List Text) → sorted ts ≡ sort_by text_le ts
unfolding sorted sort_by
sorted_lem [] = refl
sorted_lem (t ∷ ts) = rw (insert_sorted_lem t (sorted ts), sorted_lem ts) refl

-- The list is in the order of a dictionary and holds exactly the texts of the other.
abbrev pub IsSortOf : List Text → List Text → Type 0
IsSortOf us ts = IsOrdered Precedes us × Perm us ts

pub sorted-IsSortOf : (ts : List Text) → IsSortOf (sorted ts) ts
sorted-IsSortOf ts = rw (sorted_lem ts) (
  sort_by-IsOrdered text_le Precedes text_le-Precedes not_text_le-Precedes Precedes-trans ts,
  sort_by-perm text_le ts,
)

-- The first was observed later, or at the same time and has the later id.
abbrev pub IsNewer : ObservationRecord → ObservationRecord → Type 0
IsNewer a b =
    (b.observed_at < a.observed_at)
    ⊎ ((a.observed_at ≡ b.observed_at) × Precedes b.observation_id a.observation_id)

IsNewer-trans : (a b c : ObservationRecord) → IsNewer a b → IsNewer b c → IsNewer a c
IsNewer-trans a b c (inl h) (inl j) = inl (omega arith)
IsNewer-trans a b c (inl h) (inr (e, j)) = inl (omega (arith, h, e))
IsNewer-trans a b c (inr (d, h)) (inl j) = inl (omega (arith, d, j))
IsNewer-trans a b c (inr (d, h)) (inr (e, j)) =
    inr (omega (arith, d, e), Precedes-trans c.observation_id b.observation_id a.observation_id j h)

newer-IsNewer : (a b : ObservationRecord) → newer a b ≡ true → IsNewer a b
unfolding newer
newer-IsNewer a b h = elim (Bool-cases (ltb b.observed_at a.observed_at)) [
  | inl later ↦ inl (ground (arith, later))
  | inr earlier ↦ inr (
    ground (arith, h, earlier),
    text_le-Precedes b.observation_id a.observation_id (ground (arith, h, earlier)),
  )
]

not_newer-IsNewer : (a b : ObservationRecord) → newer a b ≡ false → IsNewer b a
unfolding newer
not_newer-IsNewer a b h = elim (Bool-cases (a.observed_at == b.observed_at)) [
  | inr apart ↦ inl (ground (arith, h, apart))
  | inl same ↦ inr (
    ground (arith, same),
    not_text_le-Precedes b.observation_id a.observation_id (ground (arith, h, same)),
  )
]

-- A sort by the query's test puts the newest first.
pub newest-IsOrdered : (rows : List ObservationRecord) → IsOrdered IsNewer (sort_by newer rows)
newest-IsOrdered = sort_by-IsOrdered newer IsNewer newer-IsNewer not_newer-IsNewer IsNewer-trans
