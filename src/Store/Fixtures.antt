-- ===== src/Store/Fixtures.antt =====
-- A store of storage/src/repositories/observations.rs with one observation of a tenant.
use tuppira.Base.{
  codes, [], ◌∷◌, none, some, true, ok, ◌≡◌, refl, replicate, is_blank, is_whitespace, has_char,
  byte_len, char_len, text_eq, contains,
}
use tuppira.Observation.Records.{
  ObservationRecord, RetentionClassRecord, SourceRecord, CollectionRunRecord, SyncCursorRecord,
  active, tenant,
}
use tuppira.Observation.Validate.{
  validate, validate_version, validate_id, validate_digest, validate_each_ref, validate_refs, names,
  validate_raw_digest, validate_supersedes, validate_visibility,
}
use tuppira.Store.Schema.{
  Store, empty_store, row_of, any_row, check_lineage, check_columns, owner_missing, wrong_length,
  names_itself, insert_observation_row, insert_refs, insert_supersession, put_cursor,
}
use tuppira.Store.Repository.{
  ensure_version, ensure_text, required_i64, optional_i64, ends_before, insert_retention_class,
  insert_source, insert_collection_run, validate_cursor, insert_observation, upsert_cursor,
  append_observation,
}
use tuppira.Store.Reachable.{
  write_class, write_source, write_run, write_observation, Reachable, start, step,
}

abbrev pub class : RetentionClassRecord
class = record {
  schema_version = 1;
  retention_class_id = codes "audit";
  purpose = codes "forensic audit";
  retain_for_seconds = some 86_400;
  raw_payload_permitted = true;
}

abbrev pub source : SourceRecord
source = record {
  schema_version = 1;
  source_id = codes "feed";
  connector_kind = codes "piteka";
  display_name = codes "Piteka";
  retention_class_id = codes "audit";
}

abbrev pub run : CollectionRunRecord
run = record {
  schema_version = 1;
  collection_run_id = codes "run:1";
  source_id = codes "feed";
  started_at = 5;
  completed_at = none;
}

abbrev pub observation : ObservationRecord
observation = record {
  schema_version = 1;
  observation_id = codes "obs:1";
  source_id = codes "feed";
  source_event_id = codes "event:1";
  source_event_type = codes "created";
  subject_refs = codes "repo" ∷ codes "git" ∷ [];
  asserted_event_time = none;
  observed_at = 101;
  normalized_profile_id = codes "profile";
  normalized_profile_version = 1;
  normalized_payload_digest = replicate 32 1;
  raw_payload_digest = none;
  authenticity_material_refs = codes "sig:1" ∷ [];
  collection_run_id = codes "run:1";
  supersedes = none;
  retraction_status = active;
  tenant_visibility = tenant (codes "acme");
}

abbrev pub sync : SyncCursorRecord
sync = record {
  schema_version = 1;
  source_id = codes "feed";
  cursor_version = 1;
  cursor = 1 ∷ [];
  observed_at = 101;
}

abbrev pub with_class : Store
with_class = record empty_store { retention_classes = class ∷ [] }

abbrev pub with_source : Store
with_source = record with_class { sources = source ∷ [] }

abbrev pub with_run : Store
with_run = record with_source { runs = run ∷ [] }

abbrev pub with_observation : Store
with_observation = record with_run {
  observations = record observation { subject_refs = []; authenticity_material_refs = [] } ∷ [];
  subjects = (codes "obs:1", codes "repo") ∷ (codes "obs:1", codes "git") ∷ [];
  authenticity_refs = (codes "obs:1", codes "sig:1") ∷ [];
  cursors = sync ∷ [];
}

class_inserted : insert_retention_class empty_store class ≡ ok with_class
unfolding insert_retention_class ensure_version ensure_text optional_i64 required_i64 any_row
    is_blank is_whitespace has_char
class_inserted = refl

source_inserted : insert_source with_class source ≡ ok with_source
unfolding insert_source ensure_version ensure_text any_row is_blank is_whitespace has_char text_eq
source_inserted = refl

run_inserted : insert_collection_run with_source run ≡ ok with_run
unfolding insert_collection_run ensure_version ensure_text required_i64 optional_i64 ends_before
    any_row is_blank is_whitespace has_char text_eq
run_inserted = refl

pub appends : append_observation with_run observation sync ≡ ok with_observation
unfolding append_observation validate_cursor ensure_version insert_observation required_i64
    optional_i64 insert_observation_row check_lineage check_columns owner_missing wrong_length
    names_itself any_row row_of insert_refs insert_supersession upsert_cursor put_cursor validate
    validate_version validate_id validate_digest validate_each_ref validate_refs names
    validate_raw_digest validate_supersedes validate_visibility is_blank is_whitespace has_char
    byte_len char_len text_eq contains
appends = refl

pub reached : Reachable with_run
reached =
    step with_source with_run
      (step with_class with_source
        (step empty_store with_class start
          (write_class empty_store class with_class class_inserted))
        (write_source with_class source with_source source_inserted))
      (write_run with_source run with_run run_inserted)

pub stored : Reachable with_observation
stored =
    step with_run with_observation reached
      (write_observation with_run observation sync with_observation appends)
