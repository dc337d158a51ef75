-- ===== src/Connector/Tests.antt =====
-- Runs of the checks and of the gate of indexer/src/connector.rs on small inputs.
use tuppira.Base.{
  codes, [], ◌∷◌, none, ok, err, ◌≡◌, ◌↔◌, refl, replicate, is_blank, is_whitespace, has_char,
  byte_len, char_len, text_eq, contains, has_control, is_control,
}
use tuppira.Observation.Records.{ObservationRecord, active, tenant, ProviderSignatureRecord}
use tuppira.Observation.Validate.{
  validate, validate_version, validate_digest, validate_each_ref, validate_refs, names,
  validate_raw_digest, validate_supersedes, validate_visibility,
}
use tuppira.Observation.Validate
use tuppira.Connector.Contract.{
  ConnectorCursor, RawSourceEvent, RawSourceBatch, authenticated, indeterminate,
  NormalizedObservationInput, SourceConnector, healthy, invalid_field, authentication_indeterminate,
  duplicate_source_event,
}
use tuppira.Connector.Checks.{
  validate_limit, validate_id, validate_cursor, validate_owner, validate_event, validate_events,
  validate_batch,
}
use tuppira.Connector.Gate.{
  require_authenticated, check_profile, visibility_eq, collect_refs, same_set,
  authenticate_and_normalize,
}
use tuppira.Connector.Sound.{IsBatch, validate_batch_iff}
use tuppira.Connector.Gated.{Gated, authenticate_and_normalize-Gated}

abbrev raw : RawSourceEvent
raw = record {
  source_id = codes "feed";
  source_event_id = codes "event:1";
  media_type = codes "text/plain";
  bytes = 1 ∷ 2 ∷ [];
  observed_at = 101;
  tenant_visibility = tenant (codes "acme");
}

abbrev cursor : ConnectorCursor
cursor = record { source_id = codes "feed"; cursor_version = 1; bytes = 7 ∷ [] }

abbrev batch : RawSourceBatch
batch = record {
  source_id = codes "feed";
  events = raw ∷ record raw { source_event_id = codes "event:2" } ∷ [];
  proposed_cursor = cursor;
}

abbrev material : ProviderSignatureRecord
material = record {
  schema_version = 1;
  authenticity_material_id = codes "sig:1";
  source_identity_id = codes "key:1";
  signature_scheme = codes "ed25519";
  signed_payload_digest = replicate 32 1;
  signature = 9 ∷ [];
}

abbrev observation : ObservationRecord
observation = record {
  schema_version = 1;
  observation_id = codes "obs:1";
  source_id = codes "feed";
  source_event_id = codes "event:1";
  source_event_type = codes "created";
  subject_refs = codes "repo:a" ∷ [];
  asserted_event_time = none;
  observed_at = 101;
  normalized_profile_id = codes "profile";
  normalized_profile_version = 1;
  normalized_payload_digest = replicate 32 1;
  raw_payload_digest = none;
  authenticity_material_refs = codes "sig:1" ∷ [];
  collection_run_id = codes "run:1";
  supersedes = none;
  retraction_status = active;
  tenant_visibility = tenant (codes "acme");
}

abbrev candidate : NormalizedObservationInput
candidate = record { observation = observation; raw_payload = none; deployment_profile = none }

abbrev source : SourceConnector
source = record {
  source_id = codes "feed";
  discover = λ cursor limit. ok batch;
  authenticate = λ raw. ok (authenticated (material ∷ []));
  normalize = λ raw version. ok candidate;
  checkpoint = λ batch. ok cursor;
  reconcile = λ subject from to. err (invalid_field "interval");
  health = healthy;
}

accepts_batch : validate_batch batch 10 ≡ ok tt
unfolding validate_batch validate_limit validate_id validate_cursor validate_events validate_event
    validate_owner byte_len char_len has_control is_control text_eq contains
accepts_batch = refl

rejects_duplicate_event :
    validate_batch (record batch { events = raw ∷ raw ∷ [] }) 10
    ≡ err (duplicate_source_event (codes "event:1"))
unfolding validate_batch validate_limit validate_id validate_cursor validate_events validate_event
    validate_owner byte_len char_len has_control is_control text_eq contains
rejects_duplicate_event = refl

passes : authenticate_and_normalize source raw 1 ≡ ok candidate
unfolding authenticate_and_normalize validate_event validate_id validate_owner byte_len char_len
    has_control is_control text_eq contains require_authenticated check_profile visibility_eq
    collect_refs same_set validate validate_version Validate.validate_id validate_digest
    validate_each_ref validate_refs names validate_raw_digest validate_supersedes
    validate_visibility is_blank is_whitespace has_char
passes = refl

uncertain_is_an_error :
    authenticate_and_normalize
      (record source { authenticate = λ raw. ok (indeterminate (codes "late")) })
      raw
      1
    ≡ err (authentication_indeterminate (codes "event:1") (codes "late"))
unfolding authenticate_and_normalize validate_event validate_id validate_owner byte_len char_len
    has_control is_control text_eq require_authenticated
uncertain_is_an_error = refl

validate_batch_iff_example : (validate_batch batch 10 ≡ ok tt) ↔ IsBatch batch 10
validate_batch_iff_example = validate_batch_iff batch 10

authenticate_and_normalize-Gated_example : Gated source raw 1 candidate
authenticate_and_normalize-Gated_example =
    authenticate_and_normalize-Gated source raw 1 candidate passes
