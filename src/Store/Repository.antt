-- ===== src/Store/Repository.antt =====
-- storage/src/repositories/observations.rs: `ObservationRepository`. A transaction is a result: the
-- store that an error leaves behind is the one before. A statement whose connection fails, which
-- leaves the store alone as well, is not modelled.
use tuppira.Base.{
  ℕ, ◌^◌, Text, String, codes, List, [], ◌∷◌, ◌++◌, Option, none, some, Bool, true, false, ◌||◌,
  ◌&&◌, ok, ◌>>=◌, ◌>>◌, refuse_if, ok_or, map_err, ltb, leb, ◌==◌, is_empty, is_blank, has_char,
  text_eq, not, if◌then◌else◌,
}
use tuppira.Observation.Records.{
  Digest, zero_digest, ObservationRecord, TenantVisibility, public, tenant, SyncCursorRecord,
  SourceRecord, CollectionRunRecord, RetentionClassRecord, RawPayloadDescriptor,
  ObservationValidationError,
}
use tuppira.Observation.Validate.{validate}
use tuppira.Connector.Contract.{debug}
use tuppira.Store.Schema.{
  StoreError, parse, not_found, database, StoreResult, Store, lookup, any_row, has_key,
  insert_observation_row, insert_refs, insert_supersession, put_cursor,
}

abbrev pub StoreCheck : Type 0
StoreCheck = StoreResult (Unit {0})

abbrev pub invalid : String → StoreError
invalid message = parse (codes message)

unfoldable pub ensure_version : ℕ → StoreCheck
ensure_version version = refuse_if (not (version == 1)) (invalid "unsupported schema version")

unfoldable pub ensure_text : Text → String → StoreCheck
ensure_text value field =
    refuse_if (is_blank value || has_char 0 value) (parse (codes "invalid " ++ codes field))

unfoldable pub ensure_digest : Digest → String → StoreCheck
ensure_digest value field =
    refuse_if (text_eq value zero_digest) (parse (codes "invalid " ++ codes field))

-- The number is passed on as it is when it fits a signed word.
unfoldable pub required_i64 : ℕ → String → StoreCheck
required_i64 value field =
    refuse_if (leb (2 ^ 63) value) (parse (codes field ++ codes " exceeds SQLite range"))

unfoldable pub optional_i64 : Option ℕ → String → StoreCheck
optional_i64 none field = ok tt
optional_i64 (some value) field = required_i64 value field

unfoldable pub insert_retention_class : Store → RetentionClassRecord → StoreResult Store
insert_retention_class s r = do
  ensure_version r.schema_version
  ensure_text r.retention_class_id "retention_class_id"
  ensure_text r.purpose "purpose"
  optional_i64 r.retain_for_seconds "retain_for_seconds"
  refuse_if (has_key (λ x. x.retention_class_id) s.retention_classes r.retention_class_id)
      (database "UNIQUE constraint failed: retention_classes.retention_class_id")
  ok (record s { retention_classes = s.retention_classes ++ r ∷ [] })

abbrev pub class_missing : Store → Text → Bool
class_missing s id =
    not (has_key (λ (x : RetentionClassRecord). x.retention_class_id) s.retention_classes id)

unfoldable pub insert_source : Store → SourceRecord → StoreResult Store
insert_source s r = do
  ensure_version r.schema_version
  ensure_text r.source_id "source_id"
  ensure_text r.connector_kind "connector_kind"
  ensure_text r.display_name "display_name"
  refuse_if (has_key (λ x. x.source_id) s.sources r.source_id)
      (database "UNIQUE constraint failed: observation_sources.source_id")
  refuse_if (class_missing s r.retention_class_id) (database "FOREIGN KEY constraint failed")
  ok (record s { sources = s.sources ++ r ∷ [] })

unfoldable pub ends_before : Option ℕ → ℕ → Bool
ends_before none started = false
ends_before (some completed) started = ltb completed started

unfoldable pub insert_collection_run : Store → CollectionRunRecord → StoreResult Store
insert_collection_run s r = do
  ensure_version r.schema_version
  ensure_text r.collection_run_id "collection_run_id"
  ensure_text r.source_id "source_id"
  required_i64 r.started_at "started_at"
  optional_i64 r.completed_at "completed_at"
  refuse_if (ends_before r.completed_at r.started_at) (invalid "completed_at precedes started_at")
  refuse_if (r.started_at == 0) (database "CHECK constraint failed: started_at > 0")
  refuse_if (has_key (λ x. x.collection_run_id) s.runs r.collection_run_id)
      (database "UNIQUE constraint failed: collection_runs.collection_run_id")
  refuse_if (not (has_key (λ x. x.source_id) s.sources r.source_id))
      (database "FOREIGN KEY constraint failed")
  ok (record s { runs = s.runs ++ r ∷ [] })

unfoldable pub insert_raw_payload_descriptor : Store → RawPayloadDescriptor → StoreResult Store
insert_raw_payload_descriptor s r = do
  ensure_version r.schema_version
  ensure_text r.payload_id "payload_id"
  ensure_text r.digest_algorithm "digest_algorithm"
  ensure_text r.media_type "media_type"
  ensure_digest r.payload_digest "payload_digest"
  required_i64 r.byte_length "byte_length"
  refuse_if
      (any_row
        (λ x.
          text_eq x.payload_id r.payload_id
          || text_eq x.digest_algorithm r.digest_algorithm
            && text_eq x.payload_digest r.payload_digest)
        s.payloads)
      (database "UNIQUE constraint failed: raw_payload_descriptors")
  refuse_if (class_missing s r.retention_class_id) (database "FOREIGN KEY constraint failed")
  ok (record s { payloads = s.payloads ++ r ∷ [] })

-- The cursor belongs to the source and does not stand before the observation.
unfoldable pub validate_cursor : SyncCursorRecord → Text → ℕ → StoreCheck
validate_cursor c source_id minimum_time = do
  ensure_version c.schema_version
  refuse_if
      (not (text_eq c.source_id source_id)
        || c.cursor_version == 0
        || is_empty c.cursor
        || ltb c.observed_at minimum_time)
      (invalid "cursor does not match or advance the observation batch")

unfoldable pub insert_observation : Store → ObservationRecord → StoreResult Store
insert_observation s r = do
  optional_i64 r.asserted_event_time "asserted_event_time"
  required_i64 r.observed_at "observed_at"
  observations ← insert_observation_row s r
  subjects ← insert_refs s.subjects r.observation_id r.subject_refs
  refs ← insert_refs s.authenticity_refs r.observation_id r.authenticity_material_refs
  supersessions ← insert_supersession s.supersessions r r.supersedes
  ok (record s {
    observations = observations;
    subjects = subjects;
    authenticity_refs = refs;
    supersessions = supersessions;
  })

unfoldable pub upsert_cursor : Store → SyncCursorRecord → StoreResult Store
upsert_cursor s c = do
  required_i64 c.observed_at "observed_at"
  refuse_if (c.observed_at == 0 || not (has_key (λ x. x.source_id) s.sources c.source_id))
      (database "constraint failed: sync_cursors")
  cursors ← ok_or (put_cursor s.cursors c) (invalid "cursor must advance monotonically")
  ok (record s { cursors = cursors })

unfoldable pub invalid_observation : ObservationValidationError → StoreError
invalid_observation error = parse (codes "invalid observation: " ++ debug error)

-- The observation and the cursor are written together, or neither is.
unfoldable pub append_observation : Store → ObservationRecord → SyncCursorRecord → StoreResult Store
append_observation s r c = do
  map_err invalid_observation (validate r)
  validate_cursor c r.source_id r.observed_at
  appended ← insert_observation s r
  upsert_cursor appended c

-- The order of texts in SQLite, that of their code points.
unfoldable pub text_le : Text → Text → Bool
text_le [] t = true
text_le (x ∷ s) [] = false
text_le (x ∷ s) (y ∷ t) = if x == y then text_le s t else ltb x y

unfoldable pub insert_sorted : Text → List Text → List Text
insert_sorted t [] = t ∷ []
insert_sorted t (u ∷ us) =
    let later = insert_sorted t us in if text_le t u then t ∷ u ∷ us else u ∷ later

-- SELECT ref WHERE observation_id = id ORDER BY ref
unfoldable pub refs_of : List (Text × Text) → Text → List Text
refs_of [] id = []
refs_of ((owner, ref) ∷ rows) id =
    let rest = refs_of rows id in if text_eq owner id then insert_sorted ref rest else rest

unfoldable pub get_observation : Store → Text → StoreResult ObservationRecord
get_observation s id = do
  row ← ok_or (lookup (λ r. r.observation_id) s.observations id) (not_found "observation" id)
  ok (record row {
    subject_refs = refs_of s.subjects id;
    authenticity_material_refs = refs_of s.authenticity_refs id;
  })

unfoldable pub owned_by_other : TenantVisibility → Text → Bool
owned_by_other public tenant_id = false
owned_by_other (tenant owner) tenant_id = not (text_eq owner tenant_id)

unfoldable pub get_visible_observation : Store → Text → Text → StoreResult ObservationRecord
get_visible_observation s id tenant_id = do
  ensure_text tenant_id "tenant_id"
  r ← get_observation s id
  refuse_if (owned_by_other r.tenant_visibility tenant_id) (not_found "observation" id)
  ok r

unfoldable pub cursor : Store → Text → StoreResult SyncCursorRecord
cursor s source_id =
    ok_or (lookup (λ c. c.source_id) s.cursors source_id) (not_found "sync_cursor" source_id)
