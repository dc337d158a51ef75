-- ===== src/Store/Listable.antt =====
-- storage/src/repositories/observations.rs: every row of a store is found under its id, so each query
-- of many observations reads all of them.
use tuppira.Base.{
  zero, suc, ℕ, Text, text_eq, text_eq_iff, text_eq_refl, List, [], ◌∷◌, ◌++◌, some, Bool,
  Bool-cases, true, false, not, ok, map, filter, filter_cases, All, ◌≡◌, ◌≢◌, inl, inr, refl, subst,
  arith, if◌then◌else◌,
}
use tuppira.Base.Ordered.{All-sort_by}
use tuppira.Observation.Records.{ObservationRecord}
use tuppira.Store.Schema.{Store, lookup, row_of}
use tuppira.Store.Repository.{
  ensure_text, get_observation, refs_of, owned_by_other, get_visible_observation,
}
use tuppira.Store.Rows.{All-map, All-end}
use tuppira.Store.Reachable.{IsHistory, nothing, later}
use tuppira.Store.Lineage.{read_each}
use tuppira.Store.Listing.{ℤ, pos, negsuc, take, limit_to, newer, newest_ids}

abbrev key : ObservationRecord → Text
key r = r.observation_id

lookup-more :
    (rows : List ObservationRecord) (id : Text) (r y : ObservationRecord)
    → lookup key rows id ≡ some r
    → lookup key (rows ++ y ∷ []) id ≡ some r
unfolding lookup
lookup-more [] id r y h = cc (h)
lookup-more (x ∷ xs) id r y h = elim (Bool-cases (text_eq x.observation_id id)) [
  | inl same ↦ rw same (subst (λ b. (if b then some x else lookup key xs id) ≡ some r) same h)
  | inr apart ↦ rw apart (
      lookup-more xs id r y
        (subst (λ b. (if b then some x else lookup key xs id) ≡ some r) apart h))
]

lookup-new :
    (rows : List ObservationRecord) (y : ObservationRecord)
    → All (λ p. p.observation_id ≢ y.observation_id) rows
    → lookup key (rows ++ y ∷ []) y.observation_id ≡ some y
unfolding lookup
lookup-new [] y a = rw (text_eq_refl y.observation_id) refl
lookup-new (x ∷ xs) y a = elim (Bool-cases (text_eq x.observation_id y.observation_id)) [
  | inl same ↦ absurd (a.0 ((text_eq_iff x.observation_id y.observation_id).0 same))
  | inr apart ↦ rw apart (lookup-new xs y a.1)
]

IsHistory-lookup :
    (rows : List ObservationRecord)
    → IsHistory rows
    → All (λ r. lookup key rows r.observation_id ≡ some r) rows
unfolding row_of
IsHistory-lookup _ nothing = tt
IsHistory-lookup _ (later rows r history fresh linked) =
    All-end (λ x. lookup key (rows ++ row_of r ∷ []) x.observation_id ≡ some x) rows (row_of r)
      (All-map rows (λ x. lookup-more rows x.observation_id x (row_of r))
        (IsHistory-lookup rows history))
      (lookup-new rows (row_of r) fresh)

module _ {A : Type 0} (P : A → Type 0) where
  pub All-take : (n : ℕ) (xs : List A) → All P xs → All P (take n xs)
  unfolding take
  All-take zero xs ps = tt
  All-take (suc n) [] ps = tt
  All-take (suc n) (x ∷ xs) ps = (ps.0, All-take n xs ps.1)

  All-limit_to : (limit : ℤ) (xs : List A) → All P xs → All P (limit_to limit xs)
  unfolding limit_to
  All-limit_to (pos n) xs ps = All-take n xs ps
  All-limit_to (negsuc n) xs ps = ps

  All-filter :
      (Q : A → Type 0) (test : A → Bool) (xs : List A)
      → ((x : A) → test x ≡ true → Q x → P x)
      → All Q xs
      → All P (filter test xs)
  All-filter Q test [] f qs = tt
  All-filter Q test (x ∷ xs) f qs =
      filter_cases (All P) test x xs (λ holds. (f x holds qs.0, All-filter Q test xs f qs.1))
        (All-filter Q test xs f qs.1)

All-keys :
    (P : Text → Type 0) (xs : List ObservationRecord)
    → All (λ r. P r.observation_id) xs
    → All P (map key xs)
All-keys P [] ps = tt
All-keys P (x ∷ xs) ps = (ps.0, All-keys P xs ps.1)

abbrev pub IsReadable : Store → Text → Text → Type 0
IsReadable s tenant_id id =
    (r : ObservationRecord) × (get_visible_observation s id tenant_id ≡ ok r)

row-IsReadable :
    (s : Store) (tenant_id : Text) (r : ObservationRecord)
    → ensure_text tenant_id "tenant_id" ≡ ok tt
    → not (owned_by_other r.tenant_visibility tenant_id) ≡ true
    → lookup key s.observations r.observation_id ≡ some r
    → IsReadable s tenant_id r.observation_id
unfolding get_visible_observation get_observation
row-IsReadable s tenant_id r named own found =
    let mine : owned_by_other r.tenant_visibility tenant_id ≡ false = ground (arith, own) in
    let whole : ObservationRecord = record r {
      subject_refs = refs_of s.subjects r.observation_id;
      authenticity_material_refs = refs_of s.authenticity_refs r.observation_id;
    } in
    (whole, rw (named, found, mine))

pub newest_ids-IsReadable :
    (s : Store) (tenant_id : Text) (limit : ℤ)
    → IsHistory s.observations
    → ensure_text tenant_id "tenant_id" ≡ ok tt
    → All (IsReadable s tenant_id) (newest_ids s tenant_id limit)
unfolding newest_ids
newest_ids-IsReadable s tenant_id limit history named = All-keys (IsReadable s tenant_id) _ (
    All-limit_to _ limit _ (
      All-sort_by _ newer _ (
        All-filter (λ r. IsReadable s tenant_id r.observation_id) _ _ s.observations
          (λ r own found. row-IsReadable s tenant_id r named own found)
          (IsHistory-lookup s.observations history))))

pub read_each-ok :
    (s : Store) (tenant_id : Text) (ids : List Text)
    → All (IsReadable s tenant_id) ids
    → (rs : List ObservationRecord) × (read_each s tenant_id ids ≡ ok rs)
unfolding read_each
read_each-ok s tenant_id [] a = ([], refl)
read_each-ok s tenant_id (id ∷ ids) ((r, read), a) =
    let (rs, rest) = read_each-ok s tenant_id ids a in (r ∷ rs, rw (read, rest) refl)
