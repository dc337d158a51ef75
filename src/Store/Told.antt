-- ===== src/Store/Told.antt =====
-- storage/src/repositories/observations.rs: the rows of supersessions tell the same history as
-- those of observations.
use tuppira.Base.{
  zero, suc, ℕ, ◌≤◌, Text, List, [], ◌∷◌, ◌++◌, append-nil, Option, none, some, ok, length,
  refuse_if, >>_iff, text_eq_iff, text_eq_refl, All, ◌≡◌, ◌≢◌, refl, sym, ap, ap₂, ◌∙◌, subst,
  arith,
}
use tuppira.Observation.Records.{ObservationRecord, SupersessionRecord}
use tuppira.Store.Schema.{Store, StoreResult, row_of, insert_supersession, has_key}
use tuppira.Store.Writes.{
  insert_retention_class_lem, insert_source_lem, insert_collection_run_lem,
  insert_raw_payload_descriptor_lem,
}
use tuppira.Store.Append.{IsLinked, append_observation-Appended}
use tuppira.Store.Reachable.{
  Reachable, Write, unequal_keys, start, step, write_class, write_source, write_run, write_payload,
  write_observation,
}
use tuppira.Store.Lineage.{after, walk, superseded_by}

-- From `id` each entry is the one that the last supersedes, down to one that supersedes nothing.
pub data Chain (next : Text → List Text) : Text → List Text → Type 0 where
  first : (id : Text) → next id ≡ [] → Chain next id (id ∷ [])
  corrects :
      (id prior : Text) (rest : List Text)
      → next id ≡ prior ∷ []
      → Chain next prior rest
      → Chain next id (id ∷ rest)

pub walk_nil : (fuel : ℕ) (next : Text → List Text) → walk fuel next [] ≡ some []
unfolding walk
walk_nil zero next = refl
walk_nil (suc fuel) next = refl

walk_step :
    (fuel : ℕ) (next : Text → List Text) (id : Text) (queue : List Text)
    → walk (suc fuel) next (id ∷ queue) ≡ after id (walk fuel next (queue ++ next id))
unfolding walk
walk_step fuel next id queue = refl

pub walk-Chain :
    (next : Text → List Text) (id : Text) (chain : List Text) (fuel : ℕ)
    → Chain next id chain
    → length chain ≤ fuel
    → walk fuel next (id ∷ []) ≡ some chain
walk-Chain next _ _ zero (Chain.first id end) enough = absurd (omega arith)
walk-Chain next _ _ zero (Chain.corrects id prior rest end c) enough = absurd (omega arith)
walk-Chain next _ _ (suc fuel) (Chain.first id end) enough =
    walk_step fuel next id []
    ∙ ap (λ q. after id (walk fuel next q)) end
    ∙ ap (after id) (walk_nil fuel next)
walk-Chain next _ _ (suc fuel) (Chain.corrects id prior rest end c) enough =
    walk_step fuel next id []
    ∙ ap (λ q. after id (walk fuel next q)) end
    ∙ ap (after id) (walk-Chain next prior rest fuel c (omega arith))

pub Chain-extend :
    (next more : Text → List Text) (id : Text) (chain : List Text)
    → Chain next id chain
    → All (λ x. more x ≡ next x) chain
    → Chain more id chain
Chain-extend next more _ _ (Chain.first id end) same = Chain.first id (same.0 ∙ end)
Chain-extend next more _ _ (Chain.corrects id prior rest end c) same =
    Chain.corrects id prior rest (same.0 ∙ end) (Chain-extend next more prior rest c same.1)

-- The rows of supersessions that a history of observations leaves.
abbrev pub link_of : ObservationRecord → Option Text → List SupersessionRecord
link_of r none = []
link_of r (some prior) =
    record {
      schema_version = r.schema_version;
      superseding_observation_id = r.observation_id;
      superseded_observation_id = prior;
      observed_at = r.observed_at;
    }
    ∷ []

links_of :
    {xs ys : List SupersessionRecord}
    → ◌≡◌ {A = StoreResult (List SupersessionRecord)} (ok xs) (ok ys)
    → ys ≡ xs
links_of h = cc (h)

insert_supersession-link_of :
    (rows : List SupersessionRecord) (r : ObservationRecord) (prior : Option Text)
    (t : List SupersessionRecord)
    → insert_supersession rows r prior ≡ ok t
    → t ≡ rows ++ link_of r prior
unfolding insert_supersession
insert_supersession-link_of rows r none t h = cc (h) ∙ sym (append-nil rows)
insert_supersession-link_of rows r (some prior) t h =
    let (_, result) =
      (>>_iff (refuse_if (has_key (λ p. p.superseding_observation_id) rows r.observation_id) _) _).0
        h in
    links_of result

-- The two tables tell one history.
pub data Told : List ObservationRecord → List SupersessionRecord → Type 0 where
  untold : Told [] []
  told :
      (rows : List ObservationRecord) (links : List SupersessionRecord) (r : ObservationRecord)
      → Told rows links
      → All (λ p. p.observation_id ≢ r.observation_id) rows
      → IsLinked rows r r.supersedes
      → Told (rows ++ row_of r ∷ []) (links ++ link_of r r.supersedes)

Told-step :
    (s t : Store)
    → Told s.observations s.supersessions
    → Write s t
    → Told t.observations t.supersessions
Told-step s t d (write_class _ r _ h) =
    subst (λ k. Told k.observations k.supersessions) (insert_retention_class_lem s r t h) d
Told-step s t d (write_source _ r _ h) =
    subst (λ k. Told k.observations k.supersessions) (insert_source_lem s r t h) d
Told-step s t d (write_run _ r _ h) =
    subst (λ k. Told k.observations k.supersessions) (insert_collection_run_lem s r t h) d
Told-step s t d (write_payload _ r _ h) =
    subst (λ k. Told k.observations k.supersessions) (insert_raw_payload_descriptor_lem s r t h) d
Told-step s t d (write_observation _ r c _ h) =
    let a = append_observation-Appended s r c t h in
    let next =
      told s.observations s.supersessions r d (unequal_keys s.observations r.observation_id a.fresh)
        a.linked in
    subst (λ k. Told k t.supersessions) (sym a.observations)
      (subst (λ k. Told (s.observations ++ row_of r ∷ []) k)
        (sym (
          insert_supersession-link_of s.supersessions r r.supersedes t.supersessions
            a.supersessions))
        next)

pub Reachable-Told : (s : Store) → Reachable s → Told s.observations s.supersessions
Reachable-Told _ start = untold
Reachable-Told _ (step s t reached write) = Told-step s t (Reachable-Told s reached) write

pub superseded_by-append :
    (xs ys : List SupersessionRecord) (id : Text)
    → superseded_by (xs ++ ys) id ≡ superseded_by xs id ++ superseded_by ys id
unfolding superseded_by
superseded_by-append [] ys id = refl
superseded_by-append (x ∷ xs) ys id = ground (arith, superseded_by-append xs ys id)

pub superseded_by-other :
    (r : ObservationRecord) (prior : Option Text) (id : Text)
    → r.observation_id ≢ id
    → superseded_by (link_of r prior) id ≡ []
unfolding superseded_by
superseded_by-other r none id apart = refl
superseded_by-other r (some prior) id apart =
    ground (arith, (text_eq_iff r.observation_id id).0, apart)

pub superseded_by-own :
    (r : ObservationRecord) (prior : Text)
    → superseded_by (link_of r (some prior)) r.observation_id ≡ prior ∷ []
unfolding superseded_by
superseded_by-own r prior = ground (arith, text_eq_refl r.observation_id)

All-split :
    (P : ObservationRecord → Type 0) (xs : List ObservationRecord) (y : ObservationRecord)
    → All P (xs ++ y ∷ [])
    → All P xs × P y
All-split P [] y a = (tt, a.0)
All-split P (x ∷ xs) y a = let (rest, end) = All-split P xs y a.1 in ((a.0, rest), end)

-- An id that no row has supersedes nothing.
pub superseded_by-fresh :
    (rows : List ObservationRecord) (links : List SupersessionRecord) (id : Text)
    → Told rows links
    → All (λ p. p.observation_id ≢ id) rows
    → superseded_by links id ≡ []
unfolding superseded_by row_of
superseded_by-fresh _ _ id untold fresh = refl
superseded_by-fresh _ _ id (told rows links r d unequal linked) fresh =
    let (old, new) = All-split (λ p. p.observation_id ≢ id) rows (row_of r) fresh in
    superseded_by-append links (link_of r r.supersedes) id
    ∙ ap₂ (λ x y. x ++ y) (superseded_by-fresh rows links id d old)
        (superseded_by-other r r.supersedes id new)
