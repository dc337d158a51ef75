-- ===== src/Store/VisibleLineage.antt =====
-- storage/src/repositories/observations.rs: `visible_lineage` against `lineage`.
use tuppira.Base.{
  ℕ, ◌≤◌, Text, List, [], ◌∷◌, Option, none, some, Bool, Bool-cases, true, false, ok, err, length,
  filter, filter-kept, filter-dropped, map, All, if◌then◌else◌, ◌≡◌, ◌⊎◌, inl, inr, refl, sym, ap,
  ◌∙◌, subst, arith,
}
use tuppira.Observation.Records.{ObservationRecord}
use tuppira.Store.Schema.{Store, lookup, not_found}
use tuppira.Store.Repository.{
  ensure_text, refs_of, get_observation, owned_by_other, get_visible_observation,
}
use tuppira.Store.Rows.{Somewhere, All-map}
use tuppira.Store.Append.{SameEvent}
use tuppira.Store.Reachable.{Reachable}
use tuppira.Store.Lineage.{
  superseded_by, checked, lineage, is_visible, visible_row, visible_ids, read_each, read_rows,
  visible_lineage, walk,
}
use tuppira.Store.Told.{Chain, walk-Chain, walk_nil}
use tuppira.Store.Ancestry.{Ancestry, lineage-Ancestry}
use tuppira.Store.Newest.{IsShown}
use tuppira.Store.Listed.{read_each-IsShown}
use tuppira.Store.Listable.{IsReadable, read_each-ok}

abbrev key : ObservationRecord → Text
key r = r.observation_id

-- The items before the first one that fails the test.
abbrev pub take_while : {A : Type 0} → (A → Bool) → List A → List A
take_while p [] = []
take_while p (x ∷ xs) = if p x then x ∷ take_while p xs else []

take_while-All : (p : Text → Bool) (xs : List Text) → All (λ x. p x ≡ true) (take_while p xs)
take_while-All p [] = tt
take_while-All p (x ∷ xs) = elim (Bool-cases (p x)) [
  | inl holds ↦
      subst (λ b. All (λ y. p y ≡ true) (if b then x ∷ take_while p xs else [])) (sym holds)
        (holds, take_while-All p xs)
  | inr stop ↦
      subst (λ b. All (λ y. p y ≡ true) (if b then x ∷ take_while p xs else [])) (sym stop) tt
]

length-take_while : (p : Text → Bool) (xs : List Text) → length (take_while p xs) ≤ length xs
length-take_while p [] = omega arith
length-take_while p (x ∷ xs) = ground (arith, length-take_while p xs)

module _ (next : Text → List Text) (p : Text → Bool) where
  abbrev seen : Text → List Text
  seen x = filter p (next x)

  take_while-hidden :
      (id : Text) (chain : List Text) → Chain next id chain → p id ≡ false → take_while p chain ≡ []
  take_while-hidden _ _ (Chain.first id end) h = rw h
  take_while-hidden _ _ (Chain.corrects id prior rest end c) h = rw h

  -- A chain that stops where the test first fails.
  Chain-take_while :
      (id : Text) (chain : List Text)
      → Chain next id chain
      → p id ≡ true
      → Chain seen id (take_while p chain)
  Chain-take_while _ _ (Chain.first id end) own =
      subst (λ k. Chain seen id (if k then id ∷ [] else [])) (sym own)
        (Chain.first id (ap (filter p) end))
  Chain-take_while _ _ (Chain.corrects id prior rest end c) own =
      subst (λ k. Chain seen id (if k then id ∷ take_while p rest else [])) (sym own)
        (elim (Bool-cases (p prior)) [
          | inl holds ↦
              Chain.corrects id prior (take_while p rest)
                (ap (filter p) end ∙ filter-kept p prior [] holds)
                (Chain-take_while prior rest c holds)
          | inr fails ↦
              subst (λ k. Chain seen id (id ∷ k)) (sym (take_while-hidden prior rest c fails))
                (Chain.first id (ap (filter p) end ∙ filter-dropped p prior [] fails))
        ])

read_visible :
    (s : Store) (tenant_id id : Text)
    → ensure_text tenant_id "tenant_id" ≡ ok tt
    → is_visible s tenant_id id ≡ true
    → IsReadable s tenant_id id
unfolding is_visible visible_row get_visible_observation get_observation
read_visible s tenant_id id named own = go (lookup key s.observations id) refl own
  where
    go :
        (o : Option ObservationRecord)
        → lookup key s.observations id ≡ o
        → visible_row tenant_id o ≡ true
        → IsReadable s tenant_id id
    go none found h = cc (h)
    go (some r) found h =
        let whole : ObservationRecord = record r {
          subject_refs = refs_of s.subjects id;
          authenticity_material_refs = refs_of s.authenticity_refs id;
        } in
        let mine : owned_by_other r.tenant_visibility tenant_id ≡ false = ground (arith, h) in
        (whole, rw (named, found, mine))

read_rows-Chain :
    (next : Text → List Text) (s : Store) (id tenant_id first : Text) (ids : List Text)
    → Chain next first ids
    → read_rows s id tenant_id (some ids) ≡ some (read_each s tenant_id ids)
unfolding read_rows
read_rows-Chain next s id tenant_id _ _ (Chain.first first end) = refl
read_rows-Chain next s id tenant_id _ _ (Chain.corrects first prior rest end c) = refl

visible_ids-Chain :
    (s : Store) (id tenant_id : Text) (chain : List Text) (fuel : ℕ)
    → Chain (superseded_by s.supersessions) id chain
    → length chain ≤ fuel
    → is_visible s tenant_id id ≡ true
    → visible_ids fuel s id tenant_id ≡ some (take_while (is_visible s tenant_id) chain)
unfolding visible_ids
visible_ids-Chain s id tenant_id chain fuel c enough own =
    let p = is_visible s tenant_id in
    let next = superseded_by s.supersessions in
    ap (walk fuel (λ x. filter p (next x))) (filter-kept p id [] own)
    ∙ walk-Chain (λ x. filter p (next x)) id (take_while p chain) fuel
        (Chain-take_while next p id chain c own) (omega (arith, length-take_while p chain, enough))

hidden_ids :
    (s : Store) (id tenant_id : Text) (fuel : ℕ)
    → is_visible s tenant_id id ≡ false
    → visible_ids fuel s id tenant_id ≡ some []
unfolding visible_ids
hidden_ids s id tenant_id fuel hidden =
    let p = is_visible s tenant_id in
    ap (walk fuel (λ x. filter p (superseded_by s.supersessions x))) (filter-dropped p id [] hidden)
    ∙ walk_nil fuel (λ x. filter p (superseded_by s.supersessions x))

-- What a tenant is answered for the lineage `chain` of `id`.
pub record IsVisibleLineage (s : Store) (fuel : ℕ) (id tenant_id : Text) (chain : List Text)
    : Type 0 where
  pub rows : List ObservationRecord
  pub answer : visible_lineage fuel s id tenant_id ≡ some (ok rows)
  pub ids : map key rows ≡ take_while (is_visible s tenant_id) chain
  pub shown : All (IsShown tenant_id) rows

-- In every store that the repository's writes reach, with fuel for each observation, the visible
-- lineage of a stored observation ends. A tenant that may see the observation gets its lineage up to
-- the first observation that it may not see, and each record that it gets is public or its own. A
-- tenant that may not see it gets the error for an observation that does not exist.
pub visible_lineage-IsVisibleLineage :
    (s : Store) (q : ObservationRecord) (tenant_id : Text) (fuel : ℕ)
    → Reachable s
    → ensure_text q.observation_id "observation_id" ≡ ok tt
    → ensure_text tenant_id "tenant_id" ≡ ok tt
    → Somewhere (λ p. (p.observation_id ≡ q.observation_id) × SameEvent p q) s.observations
    → length s.observations ≤ fuel
    → (a : Ancestry s.observations s.supersessions q q.observation_id) × (lineage fuel s
          q.observation_id
        ≡ some (ok a.chain))
      × (((is_visible s tenant_id q.observation_id ≡ true)
            × IsVisibleLineage s fuel q.observation_id tenant_id a.chain)
          ⊎ ((is_visible s tenant_id q.observation_id ≡ false)
              × (visible_lineage fuel s q.observation_id tenant_id
                  ≡ some (err (not_found "observation" q.observation_id)))))
unfolding visible_lineage checked read_rows
visible_lineage-IsVisibleLineage s q tenant_id fuel reached proper named here enough =
    let (a, told) = lineage-Ancestry s q fuel reached proper here enough in
    let vis = is_visible s tenant_id in
    (
      a,
      told,
      elim (Bool-cases (vis q.observation_id)) [
        | inl own ↦
            let ids = take_while vis a.chain in
            let (rows, read) = read_each-ok s tenant_id ids (
              All-map ids (λ x k. read_visible s tenant_id x named k)
                (take_while-All vis a.chain)) in
            let (keys, shown, _) = read_each-IsShown s tenant_id ids rows read in
            let kept =
              Chain-take_while (superseded_by s.supersessions) vis q.observation_id a.chain a.linked
                own in
            let walked =
              visible_ids-Chain s q.observation_id tenant_id a.chain fuel a.linked
                (omega (arith, a.short, enough)) own in
            let told_rows =
              read_rows-Chain _ s q.observation_id tenant_id q.observation_id ids kept in
            inl (
              own,
              record {
                rows = rows;
                answer = rw (proper, named, walked, told_rows, read);
                ids = keys;
                shown = shown;
              },
            )
        | inr hidden ↦
            inr (hidden, rw (proper, named, hidden_ids s q.observation_id tenant_id fuel hidden))
      ],
    )
