-- ===== src/Store/Schema.antt =====
-- storage/migrations/0003_observation_plane.sql: the tables that observations are kept in, and what
-- their keys, checks, references and triggers refuse. Rows stand in the order of insertion.
use tuppira.Base.{
  Text, String, List, [], ◌∷◌, ◌++◌, Option, none, some, Bool, false, ◌&&◌, ◌||◌, Result, ok, ◌>>◌,
  refuse_if, ltb, ◌==◌, length, is_empty, text_eq, not, if◌then◌else◌,
}
use mathlib.Core.Option
use tuppira.Observation.Records.{
  Digest, ObservationRecord, TenantVisibility, public, tenant, SupersessionRecord, SyncCursorRecord,
  SourceRecord, CollectionRunRecord, RetentionClassRecord, RawPayloadDescriptor,
}

pub data StoreError : Type 0 where
  -- TuppiraError::Parse
  parse : Text → StoreError
  -- TuppiraError::NotFound
  not_found : String → Text → StoreError
  -- TuppiraError::Database, with the message of the constraint or the trigger
  database : String → StoreError

abbrev pub StoreResult {ℓ} : Type ℓ → Type ℓ
StoreResult A = Result StoreError A

-- A row of `observations` is the record without its references, which have tables of their own.
unfoldable pub row_of : ObservationRecord → ObservationRecord
row_of r = record r { subject_refs = []; authenticity_material_refs = [] }

pub record Store : Type 0 where
  pub retention_classes : List RetentionClassRecord
  pub sources : List SourceRecord
  pub runs : List CollectionRunRecord
  pub payloads : List RawPayloadDescriptor
  pub observations : List ObservationRecord
  pub subjects : List (Text × Text)
  pub authenticity_refs : List (Text × Text)
  pub supersessions : List SupersessionRecord
  pub cursors : List SyncCursorRecord

-- The database after the migrations.
abbrev pub empty_store : Store
empty_store = record {
  retention_classes = [];
  sources = [];
  runs = [];
  payloads = [];
  observations = [];
  subjects = [];
  authenticity_refs = [];
  supersessions = [];
  cursors = [];
}

module _ {A : Type 0} where
  -- SELECT ... WHERE key = id
  unfoldable pub lookup : (A → Text) → List A → Text → Option A
  lookup key [] id = none
  lookup key (r ∷ rows) id = if text_eq (key r) id then some r else lookup key rows id

  -- EXISTS (SELECT 1 ... WHERE test)
  unfoldable pub any_row : (A → Bool) → List A → Bool
  any_row test [] = false
  any_row test (r ∷ rows) = test r || any_row test rows

abbrev pub has_key : {A : Type 0} → (A → Text) → List A → Text → Bool
has_key key rows id = any_row (λ r. text_eq (key r) id) rows

abbrev pub same_event : ObservationRecord → ObservationRecord → Bool
same_event r prior =
    text_eq prior.source_id r.source_id && text_eq prior.source_event_id r.source_event_id

-- The triggers observations_require_correction_lineage and observations_validate_correction_lineage
unfoldable pub check_lineage :
    List ObservationRecord → ObservationRecord → Option Text → StoreResult (Unit {0})
check_lineage rows r none =
    refuse_if (any_row (same_event r) rows)
      (database "changed source events require supersession lineage")
check_lineage rows r (some prior) =
    refuse_if (not (any_row (λ p. text_eq p.observation_id prior && same_event r p) rows))
      (database "superseded observation must represent the same source event")

unfoldable pub owner_missing : TenantVisibility → Bool
owner_missing public = false
owner_missing (tenant t) = is_empty t

unfoldable pub wrong_length : Option Digest → Bool
wrong_length none = false
wrong_length (some d) = not (length d == 32)

unfoldable pub names_itself : ObservationRecord → Option Text → Bool
names_itself r none = false
names_itself r (some prior) = text_eq prior r.observation_id

-- The CHECK clauses of `observations`.
unfoldable pub check_columns : ObservationRecord → StoreResult (Unit {0})
check_columns r =
    refuse_if
      (not (r.schema_version == 1)
        || r.observed_at == 0
        || r.normalized_profile_version == 0
        || not (length r.normalized_payload_digest == 32)
        || wrong_length r.raw_payload_digest
        || owner_missing r.tenant_visibility
        || names_itself r r.supersedes)
      (database "CHECK constraint failed: observations")

-- INSERT INTO observations: the triggers first, then the checks, the keys and the references.
unfoldable pub insert_observation_row :
    Store → ObservationRecord → StoreResult (List ObservationRecord)
insert_observation_row s r = do
  check_lineage s.observations r r.supersedes
  check_columns r
  refuse_if (has_key (λ p. p.observation_id) s.observations r.observation_id)
      (database "UNIQUE constraint failed: observations.observation_id")
  refuse_if
      (any_row
        (λ p. same_event r p && text_eq p.normalized_payload_digest r.normalized_payload_digest)
        s.observations)
      (database "UNIQUE constraint failed: observations.source_id")
  refuse_if
      (not (has_key (λ p. p.source_id) s.sources r.source_id)
        || not (has_key (λ p. p.collection_run_id) s.runs r.collection_run_id))
      (database "FOREIGN KEY constraint failed")
  ok (s.observations ++ row_of r ∷ [])

-- INSERT INTO observation_subjects and observation_authenticity_refs, whose key is the pair. The
-- observation that the row refers to was inserted just before.
unfoldable pub insert_refs :
    List (Text × Text) → Text → List Text → StoreResult (List (Text × Text))
insert_refs rows id [] = ok rows
insert_refs rows id (ref ∷ refs) = do
  refuse_if (any_row (λ p. text_eq p.0 id && text_eq p.1 ref) rows)
      (database "UNIQUE constraint failed: observation references")
  insert_refs (rows ++ (id, ref) ∷ []) id refs

-- INSERT INTO supersessions, whose key is the superseding observation.
unfoldable pub insert_supersession :
    List SupersessionRecord
    → ObservationRecord
    → Option Text
    → StoreResult (List SupersessionRecord)
insert_supersession rows r none = ok rows
insert_supersession rows r (some prior) = do
  refuse_if (has_key (λ p. p.superseding_observation_id) rows r.observation_id)
      (database "UNIQUE constraint failed: supersessions.superseding_observation_id")
  ok (
      rows
      ++ record {
        schema_version = r.schema_version;
        superseding_observation_id = r.observation_id;
        superseded_observation_id = prior;
        observed_at = r.observed_at;
      }
        ∷ [])

-- INSERT INTO sync_cursors ... ON CONFLICT(source_id) DO UPDATE ... WHERE the time is later: no row
-- is affected when it is not.
unfoldable pub put_cursor :
    List SyncCursorRecord → SyncCursorRecord → Option (List SyncCursorRecord)
put_cursor [] c = some (c ∷ [])
put_cursor (old ∷ rest) c =
    let later = put_cursor rest c in
    if text_eq old.source_id c.source_id
    then (if ltb old.observed_at c.observed_at then some (c ∷ rest) else none)
    else Option.map (λ cs. old ∷ cs) later
