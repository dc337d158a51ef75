-- ===== src/Store/Reachable.antt =====
-- storage/src/repositories/observations.rs: what holds in every store that the repository's writes
-- can reach from an empty database.
use tuppira.Base.{
  ◌≤◌, Text, List, [], ◌∷◌, ◌++◌, false, ok, text_eq, text_eq_iff, map, All, ◌≡◌, ◌≢◌, refl, sym,
  ap, ◌∙◌, subst, arith,
}
use tuppira.Observation.Records.{
  ObservationRecord, SyncCursorRecord, SourceRecord, CollectionRunRecord, RetentionClassRecord,
  RawPayloadDescriptor,
}
use tuppira.Store.Schema.{Store, empty_store, row_of, has_key, insert_refs}
use tuppira.Store.Repository.{
  insert_retention_class, insert_source, insert_collection_run, insert_raw_payload_descriptor,
  append_observation,
}
use tuppira.Store.Rows.{
  Somewhere, Somewhere-append, Somewhere-end, Somewhere-map, All-map, All-end, All-append,
  any_row-All,
}
use tuppira.Store.Writes.{
  Covers, insert_refs_lem, put_cursor-Covers, insert_retention_class_lem, insert_source_lem,
  insert_collection_run_lem, insert_raw_payload_descriptor_lem,
}
use tuppira.Store.Append.{IsLinked, append_observation-Appended}

-- One write of the repository.
pub data Write : Store → Store → Type 0 where
  write_class :
      (s : Store) (r : RetentionClassRecord) (t : Store)
      → insert_retention_class s r ≡ ok t
      → Write s t
  write_source : (s : Store) (r : SourceRecord) (t : Store) → insert_source s r ≡ ok t → Write s t
  write_run :
      (s : Store) (r : CollectionRunRecord) (t : Store)
      → insert_collection_run s r ≡ ok t
      → Write s t
  write_payload :
      (s : Store) (r : RawPayloadDescriptor) (t : Store)
      → insert_raw_payload_descriptor s r ≡ ok t
      → Write s t
  write_observation :
      (s : Store) (r : ObservationRecord) (c : SyncCursorRecord) (t : Store)
      → append_observation s r c ≡ ok t
      → Write s t

pub data Reachable : Store → Type 0 where
  start : Reachable empty_store
  step : (s t : Store) → Reachable s → Write s t → Reachable t

-- A history: each row has a new id, and it is the first of its source event or names an older
-- row of it. So corrections never form a cycle.
pub data IsHistory : List ObservationRecord → Type 0 where
  nothing : IsHistory []
  later :
      (rows : List ObservationRecord) (r : ObservationRecord)
      → IsHistory rows
      → All (λ p. p.observation_id ≢ r.observation_id) rows
      → IsLinked rows r r.supersedes
      → IsHistory (rows ++ row_of r ∷ [])

abbrev pub IsCovered : List SyncCursorRecord → ObservationRecord → Type 0
IsCovered cursors p = Somewhere (Covers p.source_id p.observed_at) cursors

abbrev pub Owned : List ObservationRecord → Text × Text → Type 0
Owned rows ref = Somewhere (λ p. p.observation_id ≡ ref.0) rows

-- The rows are a history, no observation is newer than its source's cursor, and each reference
-- belongs to a row.
abbrev pub IsSound : Store → Type 0
IsSound s =
    IsHistory s.observations
    × All (IsCovered s.cursors) s.observations
    × All (Owned s.observations) s.subjects
    × All (Owned s.observations) s.authenticity_refs

pub unequal_keys :
    (rows : List ObservationRecord) (id : Text)
    → has_key (λ p. p.observation_id) rows id ≡ false
    → All (λ p. p.observation_id ≢ id) rows
unequal_keys rows id h =
    All-map rows (λ p k same. ground (arith, k, (text_eq_iff p.observation_id id).1 same))
      (any_row-All (λ p. text_eq p.observation_id id) rows h)

Owned-append :
    (rows new : List ObservationRecord) (refs : List (Text × Text))
    → All (Owned rows) refs
    → All (Owned (rows ++ new)) refs
Owned-append rows new refs a =
    All-map refs (λ ref o. Somewhere-append (λ p. p.observation_id ≡ ref.0) rows new o) a

-- The references of a new row belong to it.
Owned-new :
    (rows : List ObservationRecord) (r : ObservationRecord) (old : List (Text × Text))
    (refs : List Text) (t : List (Text × Text))
    → All (Owned rows) old
    → insert_refs old r.observation_id refs ≡ ok t
    → All (Owned (rows ++ row_of r ∷ [])) t
unfolding row_of
Owned-new rows r old refs t a h =
    subst (λ k. All (Owned (rows ++ row_of r ∷ [])) k)
      (sym (insert_refs_lem old r.observation_id refs t h))
      (All-append (Owned (rows ++ row_of r ∷ [])) old (map (λ x. (r.observation_id, x)) refs)
        (Owned-append rows (row_of r ∷ []) old a) (mine refs))
  where
    mine :
        (xs : List Text) → All (Owned (rows ++ row_of r ∷ [])) (map (λ x. (r.observation_id, x)) xs)
    mine [] = tt
    mine (x ∷ xs) =
        (Somewhere-end (λ p. p.observation_id ≡ r.observation_id) rows (row_of r) refl, mine xs)

append_observation-IsSound :
    (s : Store) (r : ObservationRecord) (c : SyncCursorRecord) (t : Store)
    → IsSound s
    → append_observation s r c ≡ ok t
    → IsSound t
unfolding row_of
append_observation-IsSound s r c t (history, covered, subjects, refs) h =
    let a = append_observation-Appended s r c t h in
    let (put, moved) = put_cursor-Covers s.cursors c t.cursors a.cursors in
    let rows = s.observations ++ row_of r ∷ [] in
    let sound : IsHistory rows
        × All (IsCovered t.cursors) rows
        × All (Owned rows) t.subjects
        × All (Owned rows) t.authenticity_refs =
      (
        later s.observations r history (unequal_keys s.observations r.observation_id a.fresh)
            a.linked,
        All-end (IsCovered t.cursors) s.observations (row_of r)
            (All-map s.observations (λ p k. moved p.source_id p.observed_at k) covered)
            (Somewhere-map t.cursors
              (λ x same. (
                ap (λ (k : SyncCursorRecord). k.source_id) same ∙ a.source,
                subst (λ (k : SyncCursorRecord). r.observed_at ≤ k.observed_at) (sym same) a.timely,
              ))
              put),
        Owned-new s.observations r s.subjects r.subject_refs t.subjects subjects a.subjects,
        Owned-new s.observations r s.authenticity_refs r.authenticity_material_refs
            t.authenticity_refs refs a.refs,
      ) in
    subst
      (λ (k : List ObservationRecord).
        IsHistory k
        × All (IsCovered t.cursors) k
        × All (Owned k) t.subjects
        × All (Owned k) t.authenticity_refs)
      (sym a.observations) sound

-- In every store that the repository's writes reach from an empty database, observation ids are
-- unique, each observation is the first of its source event or corrects an older one of it, no
-- observation is newer than its source's cursor, and each reference row belongs to an observation.
pub Reachable-IsSound : (s : Store) → Reachable s → IsSound s
Reachable-IsSound _ start = (nothing, tt, tt, tt)
Reachable-IsSound _ (step s t reached write) = after write (Reachable-IsSound s reached)
  where
    after : {s t : Store} → Write s t → IsSound s → IsSound t
    after (write_class s r t h) sound = subst IsSound (insert_retention_class_lem s r t h) sound
    after (write_source s r t h) sound = subst IsSound (insert_source_lem s r t h) sound
    after (write_run s r t h) sound = subst IsSound (insert_collection_run_lem s r t h) sound
    after (write_payload s r t h) sound =
        subst IsSound (insert_raw_payload_descriptor_lem s r t h) sound
    after (write_observation s r c t h) sound = append_observation-IsSound s r c t sound h
