-- ===== src/Store/Reads.antt =====
-- storage/src/repositories/observations.rs: what is read back after an append, and what a tenant can
-- read.
use tuppira.Base.{
  Text, List, [], ◌∷◌, ◌++◌, some, true, false, ◌||◌, ok, err, text_eq, text_eq_refl, text_eq_iff,
  not-text_eq_iff, Bool-cases, if◌then◌else◌, map, All, ◌≡◌, ◌≢◌, ◌⊎◌, inl, inr, refl, ap, ◌∙◌,
  subst, arith,
}
use tuppira.Observation.Records.{
  ObservationRecord, SyncCursorRecord, TenantVisibility, public, tenant,
}
use tuppira.Store.Schema.{not_found, empty_store, any_row, Store, row_of, lookup, has_key}
use tuppira.Store.Repository.{
  ensure_text, refs_of, get_observation, owned_by_other, get_visible_observation,
  append_observation,
}
use tuppira.Store.Order.{sorted, IsSortOf, sorted-IsSortOf}
use tuppira.Store.Rows.{Somewhere-All, Somewhere-absurd, lookup-end}
use tuppira.Store.Writes.{insert_refs_lem}
use tuppira.Store.Append.{append_observation-Appended}
use tuppira.Store.Reachable.{Owned, Reachable, Reachable-IsSound, unequal_keys}

differ : (s t : Text) → s ≢ t → text_eq s t ≡ false
differ s t apart = ground (arith, (text_eq_iff s t).0, apart)

refs_of-fresh :
    (old : List (Text × Text)) (id : Text) (refs : List Text)
    → All (λ p. p.0 ≢ id) old
    → refs_of (old ++ map (λ x. (id, x)) refs) id ≡ sorted refs
unfolding refs_of sorted
refs_of-fresh [] id [] a = refl
refs_of-fresh [] id (x ∷ xs) a = rw (text_eq_refl id, refs_of-fresh [] id xs tt)
refs_of-fresh ((owner, ref) ∷ rows) id refs a =
    rw (differ owner id a.0) (refs_of-fresh rows id refs a.1)

-- No reference belongs to an id that no row has.
unowned :
    (rows : List ObservationRecord) (id : Text) (refs : List (Text × Text))
    → All (λ p. p.observation_id ≢ id) rows
    → All (Owned rows) refs
    → All (λ p. p.0 ≢ id) refs
unowned rows id [] fresh owned = tt
unowned rows id (ref ∷ refs) fresh owned = (
  λ same. Somewhere-absurd rows (
      Somewhere-All (λ p. p.observation_id ≡ ref.0) (λ p. p.observation_id ≢ id) (λ p. ⊥) rows
        (λ p one other. other (one ∙ same)) fresh owned.0),
  unowned rows id refs fresh owned.1,
)

stored_twice :
    (key : ObservationRecord → Text) (rows : List ObservationRecord) (id : Text)
    (r : ObservationRecord)
    → lookup key rows id ≡ some r
    → has_key key rows id ≢ false
unfolding lookup any_row
stored_twice key [] id r found h = cc (found)
stored_twice key (x ∷ xs) id r found h = elim (Bool-cases (text_eq (key x) id)) [
  | inl same ↦ ground (arith, same, h)
  | inr apart ↦
      stored_twice key xs id r
        (subst (λ b. (if b then some x else lookup key xs id) ≡ some r) apart found)
        (subst (λ b. (b || has_key key xs id) ≡ false) apart h)
]

-- What an append to a store that the repository's writes reach has stored is read back under its id:
-- every field is the observation's own, but that its subjects and its references to authenticity
-- material are in the order of a dictionary, the same texts each as often; and the same observation
-- is not appended again, with whatever cursor.
pub get_observation-append_observation :
    (s : Store) (r : ObservationRecord) (c : SyncCursorRecord) (t : Store)
    → Reachable s
    → append_observation s r c ≡ ok t
    → ((subjects : List Text) × (refs : List Text) × IsSortOf subjects r.subject_refs
        × IsSortOf refs r.authenticity_material_refs
        × (get_observation t r.observation_id
            ≡ ok (record r { subject_refs = subjects; authenticity_material_refs = refs })))
      × ((d : SyncCursorRecord) (u : Store) → append_observation t r d ≢ ok u)
unfolding get_observation row_of
get_observation-append_observation s r c t reached h =
    let (_, _, subjects_owned, refs_owned) = Reachable-IsSound s reached in
    let a = append_observation-Appended s r c t h in
    let id = r.observation_id in
    let key = λ (p : ObservationRecord). p.observation_id in
    let fresh = unequal_keys s.observations id a.fresh in
    let found : lookup key t.observations id ≡ some (row_of r) =
      ap (λ k. lookup key k id) a.observations
      ∙ (lookup-end key s.observations (row_of r) id ∙ rw (a.fresh, text_eq_refl id)) in
    let subjects : refs_of t.subjects id ≡ sorted r.subject_refs =
      ap (λ k. refs_of k id) (insert_refs_lem s.subjects id r.subject_refs t.subjects a.subjects)
      ∙ refs_of-fresh s.subjects id r.subject_refs
          (unowned s.observations id s.subjects fresh subjects_owned) in
    let refs : refs_of t.authenticity_refs id ≡ sorted r.authenticity_material_refs =
      ap (λ k. refs_of k id)
        (insert_refs_lem s.authenticity_refs id r.authenticity_material_refs t.authenticity_refs
          a.refs)
      ∙ refs_of-fresh s.authenticity_refs id r.authenticity_material_refs
          (unowned s.observations id s.authenticity_refs fresh refs_owned) in
    (
      (
        sorted r.subject_refs,
        sorted r.authenticity_material_refs,
        sorted-IsSortOf r.subject_refs,
        sorted-IsSortOf r.authenticity_material_refs,
        rw (found, subjects, refs),
      ),
      λ d u again.
          stored_twice key t.observations id (row_of r) found
            (append_observation-Appended t r d u again).fresh,
    )

pub visible_to :
    (v : TenantVisibility) (t : Text) → owned_by_other v t ≡ false → (v ≡ public) ⊎ (v ≡ tenant t)
unfolding owned_by_other
visible_to public t h = inl refl
visible_to (tenant owner) t h = inr (ap tenant ((not-text_eq_iff owner t).0 h))

pub other_owner :
    (v : TenantVisibility) (t : Text)
    → owned_by_other v t ≡ true
    → (owner : Text) × (v ≡ tenant owner) × (owner ≢ t)
unfolding owned_by_other
other_owner public t h = cc (h)
other_owner (tenant owner) t h =
    (owner, refl, λ same. ground (arith, h, (not-text_eq_iff owner t).1 same))

missing : (id : Text) → get_observation empty_store id ≡ err (not_found "observation" id)
unfolding get_observation lookup
missing id = refl

-- A tenant reads exactly the stored observations that are public or its own; for one of another
-- tenant the answer is the one for an observation that does not exist.
pub get_visible_observation_lem :
    (s : Store) (id tenant_id : Text) (r : ObservationRecord)
    → get_observation s id ≡ ok r
    → ensure_text tenant_id "tenant_id" ≡ ok tt
    → ((get_visible_observation s id tenant_id ≡ ok r)
        × ((r.tenant_visibility ≡ public) ⊎ (r.tenant_visibility ≡ tenant tenant_id)))
      ⊎ ((get_visible_observation s id tenant_id ≡ get_visible_observation empty_store id tenant_id)
          × ((owner : Text) × (r.tenant_visibility ≡ tenant owner) × (owner ≢ tenant_id)))
unfolding get_visible_observation
get_visible_observation_lem s id tenant_id r stored named =
    elim (Bool-cases (owned_by_other r.tenant_visibility tenant_id)) [
      | inl hidden ↦
          inr (
            rw (named, stored, hidden, missing id),
            other_owner r.tenant_visibility tenant_id hidden,
          )
      | inr shown ↦ inl (rw (named, stored, shown), visible_to r.tenant_visibility tenant_id shown)
    ]
