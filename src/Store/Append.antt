-- ===== src/Store/Append.antt =====
-- storage/src/repositories/observations.rs: what `append_observation` has done when it succeeds.
use tuppira.Base.{
  ℕ, ◌≤◌, Text, List, [], ◌∷◌, ◌++◌, Option, none, some, Bool, true, false, ◌||◌, ◌&&◌, ok, >>_iff,
  >>=-eq-ok, refuse_if, refuse_if_iff, ok_or, ok_or_iff, map_err, map_err_iff, ltb, ◌==◌, is_empty,
  text_eq, text_eq_iff, not, All, ◌≡◌, refl, sym, ap, ◌∙◌, subst, arith,
}
use tuppira.Observation.Records.{
  ObservationRecord, SyncCursorRecord, SourceRecord, CollectionRunRecord,
}
use tuppira.Observation.Validate.{validate}
use tuppira.Observation.Sound.{IsValid, validate_iff}
use tuppira.Store.Schema.{
  StoreResult, Store, row_of, any_row, has_key, same_event, check_lineage, check_columns,
  insert_observation_row, insert_refs, insert_supersession, put_cursor,
}
use tuppira.Store.Repository.{
  invalid, ensure_version, required_i64, optional_i64, validate_cursor, insert_observation,
  upsert_cursor, invalid_observation, append_observation,
}
use tuppira.Store.Rows.{Somewhere, Somewhere-map, All-map, any_row-Somewhere, any_row-All}

-- Two records of one event of one source.
abbrev pub SameEvent : ObservationRecord → ObservationRecord → Type 0
SameEvent p r = (p.source_id ≡ r.source_id) × (p.source_event_id ≡ r.source_event_id)

-- The first record of an event names no predecessor; a later one names an older record of it.
abbrev pub IsLinked : List ObservationRecord → ObservationRecord → Option Text → Type 0
IsLinked rows r none = All (λ p. SameEvent p r → ⊥) rows
IsLinked rows r (some prior) = Somewhere (λ p. (p.observation_id ≡ prior) × SameEvent p r) rows

pub record Appended (s : Store) (r : ObservationRecord) (c : SyncCursorRecord) (t : Store)
    : Type 0 where
  pub valid : IsValid r
  pub observations : t.observations ≡ s.observations ++ row_of r ∷ []
  pub fresh : has_key (λ p. p.observation_id) s.observations r.observation_id ≡ false
  pub linked : IsLinked s.observations r r.supersedes
  pub subjects : insert_refs s.subjects r.observation_id r.subject_refs ≡ ok t.subjects
  pub refs :
      insert_refs s.authenticity_refs r.observation_id r.authenticity_material_refs
      ≡ ok t.authenticity_refs
  pub supersessions : insert_supersession s.supersessions r r.supersedes ≡ ok t.supersessions
  pub cursors : put_cursor s.cursors c ≡ some t.cursors
  pub source : c.source_id ≡ r.source_id
  pub timely : r.observed_at ≤ c.observed_at

same_event_iff : (r p : ObservationRecord) → same_event r p ≡ true → SameEvent p r
same_event_iff r p h = ((text_eq_iff _ _).0 (ground arith), (text_eq_iff _ _).0 (ground arith))

other_event : (r p : ObservationRecord) → same_event r p ≡ false → SameEvent p r → ⊥
other_event r p h same =
    let one = (text_eq_iff p.source_id r.source_id).1 same.0 in
    let two = (text_eq_iff p.source_event_id r.source_event_id).1 same.1 in ground arith

both_hold : (a b : Bool) → (a && b) ≡ true → (a ≡ true) × (b ≡ true)
both_hold a b h = (ground arith, ground arith)

was_true : (b : Bool) → not b ≡ false → b ≡ true
was_true b h = ground arith

check_lineage-IsLinked :
    (rows : List ObservationRecord) (r : ObservationRecord) (prior : Option Text)
    → check_lineage rows r prior ≡ ok tt
    → IsLinked rows r prior
unfolding check_lineage
check_lineage-IsLinked rows r none h =
    All-map rows (other_event r) (any_row-All (same_event r) rows ((refuse_if_iff _ _).0 h))
check_lineage-IsLinked rows r (some prior) h =
    Somewhere-map rows
      (λ p k.
        let (id, same) = both_hold (text_eq p.observation_id prior) (same_event r p) k in
        ((text_eq_iff _ _).0 id, same_event_iff r p same))
      (any_row-Somewhere (λ p. text_eq p.observation_id prior && same_event r p) rows
        (was_true _ ((refuse_if_iff _ _).0 h)))

cursor_guards :
    (a b c : Bool) (m n : ℕ) → (not a || b || c || ltb n m) ≡ false → (a ≡ true) × (m ≤ n)
cursor_guards a b c m n h = (ground arith, ground arith)

store_of : {s t : Store} → ◌≡◌ {A = StoreResult Store} (ok s) (ok t) → s ≡ t
store_of h = cc (h)

rows_of :
    {s t : List ObservationRecord}
    → ◌≡◌ {A = StoreResult (List ObservationRecord)} (ok s) (ok t)
    → s ≡ t
rows_of h = cc (h)

record RowIn (s : Store) (r : ObservationRecord) (rows : List ObservationRecord) : Type 0 where
  rows_end : rows ≡ s.observations ++ row_of r ∷ []
  fresh : has_key (λ p. p.observation_id) s.observations r.observation_id ≡ false
  linked : IsLinked s.observations r r.supersedes

insert_observation_row-RowIn :
    (s : Store) (r : ObservationRecord) (rows : List ObservationRecord)
    → insert_observation_row s r ≡ ok rows
    → RowIn s r rows
unfolding insert_observation_row
insert_observation_row-RowIn s r rows h =
    let (lineage, h₁) = (>>_iff (check_lineage s.observations r r.supersedes) _).0 h in
    let (_, h₂) = (>>_iff (check_columns r) _).0 h₁ in
    let (fresh, h₃) =
      (>>_iff
          (refuse_if
            (has_key (λ (p : ObservationRecord). p.observation_id) s.observations r.observation_id)
            _)
          _).0
        h₂ in
    let (_, h₄) =
      (>>_iff
          (refuse_if
            (any_row
              (λ p.
                same_event r p && text_eq p.normalized_payload_digest r.normalized_payload_digest)
              s.observations)
            _)
          _).0
        h₃ in
    let (_, result) =
      (>>_iff
          (refuse_if
            (not (has_key (λ (p : SourceRecord). p.source_id) s.sources r.source_id)
              || not (
                  has_key (λ (p : CollectionRunRecord). p.collection_run_id) s.runs
                    r.collection_run_id))
            _)
          _).0
        h₄ in
    record {
      rows_end = sym (rows_of result);
      fresh = (refuse_if_iff _ _).0 fresh;
      linked = check_lineage-IsLinked s.observations r r.supersedes lineage;
    }

record Inserted (s : Store) (r : ObservationRecord) (t : Store) : Type 0 where
  row_in : RowIn s r t.observations
  subjects : insert_refs s.subjects r.observation_id r.subject_refs ≡ ok t.subjects
  refs :
      insert_refs s.authenticity_refs r.observation_id r.authenticity_material_refs
      ≡ ok t.authenticity_refs
  supersessions : insert_supersession s.supersessions r r.supersedes ≡ ok t.supersessions
  cursors : t.cursors ≡ s.cursors

insert_observation-Inserted :
    (s : Store) (r : ObservationRecord) (t : Store) → insert_observation s r ≡ ok t → Inserted s r t
unfolding insert_observation
insert_observation-Inserted s r t h =
    let (_, h₁) = (>>_iff (optional_i64 r.asserted_event_time "asserted_event_time") _).0 h in
    let (_, h₂) = (>>_iff (required_i64 r.observed_at "observed_at") _).0 h₁ in
    let (rows, row, h₃) = >>=-eq-ok (insert_observation_row s r) _ h₂ in
    let (subjects, subjects_in, h₄) =
      >>=-eq-ok (insert_refs s.subjects r.observation_id r.subject_refs) _ h₃ in
    let (refs, refs_in, h₅) =
      >>=-eq-ok (insert_refs s.authenticity_refs r.observation_id r.authenticity_material_refs) _
        h₄ in
    let (links, links_in, h₆) =
      >>=-eq-ok (insert_supersession s.supersessions r r.supersedes) _ h₅ in
    subst (Inserted s r) (store_of h₆) (record {
      row_in = insert_observation_row-RowIn s r rows row;
      subjects = subjects_in;
      refs = refs_in;
      supersessions = links_in;
      cursors = refl;
    })

abbrev Moved : Store → SyncCursorRecord → Store → Type 0
Moved s c t =
    ◌≡◌ {A = Store} (record s { cursors = t.cursors }) t × (put_cursor s.cursors c ≡ some t.cursors)

upsert_cursor-Moved :
    (s : Store) (c : SyncCursorRecord) (t : Store) → upsert_cursor s c ≡ ok t → Moved s c t
unfolding upsert_cursor
upsert_cursor-Moved s c t h =
    let (_, h₁) = (>>_iff (required_i64 c.observed_at "observed_at") _).0 h in
    let (_, h₂) =
      (>>_iff
          (refuse_if
            (c.observed_at == 0
              || not (has_key (λ (x : SourceRecord). x.source_id) s.sources c.source_id))
            _)
          _).0
        h₁ in
    let (cursors, put, h₃) =
      >>=-eq-ok (ok_or (put_cursor s.cursors c) (invalid "cursor must advance monotonically")) _
        h₂ in
    subst (Moved s c) (store_of h₃) (refl, (ok_or_iff _ _).0 put)

-- An append that succeeds has stored a valid observation under a new id behind the rows that were
-- there, which it leaves alone, with the lineage that its source event demands; and it has moved
-- the source's cursor to a time that is not before the observation's.
pub append_observation-Appended :
    (s : Store) (r : ObservationRecord) (c : SyncCursorRecord) (t : Store)
    → append_observation s r c ≡ ok t
    → Appended s r c t
unfolding append_observation validate_cursor
append_observation-Appended s r c t h =
    let (valid, h₁) = (>>_iff (map_err invalid_observation (validate r)) _).0 h in
    let (timed, h₂) = (>>_iff (validate_cursor c r.source_id r.observed_at) _).0 h₁ in
    let (_, guards) = (>>_iff (ensure_version c.schema_version) _).0 timed in
    let (source, timely) =
      cursor_guards (text_eq c.source_id r.source_id) (c.cursor_version == 0) (is_empty c.cursor)
        r.observed_at c.observed_at ((refuse_if_iff _ _).0 guards) in
    let (mid, inserted, moved) = >>=-eq-ok (insert_observation s r) _ h₂ in
    let i = insert_observation-Inserted s r mid inserted in
    let (kept, put) = upsert_cursor-Moved mid c t moved in
    record {
      valid = (validate_iff r).0 ((map_err_iff invalid_observation _).0 valid);
      observations = sym (ap (λ (k : Store). k.observations) kept) ∙ (i.row_in).rows_end;
      fresh = (i.row_in).fresh;
      linked = (i.row_in).linked;
      subjects = i.subjects ∙ ap (λ (k : Store). ok k.subjects) kept;
      refs = i.refs ∙ ap (λ (k : Store). ok k.authenticity_refs) kept;
      supersessions = i.supersessions ∙ ap (λ (k : Store). ok k.supersessions) kept;
      cursors = sym (ap (λ k. put_cursor k c) i.cursors) ∙ put;
      source = (text_eq_iff _ _).0 source;
      timely = timely;
    }
