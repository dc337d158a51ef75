-- ===== src/Observation/Tests.antt =====
-- Runs of the validations of shared/src/observation.rs, on the inputs of its own tests.
use tuppira.Base.{
  codes, [], ◌∷◌, none, some, ok, err, ◌≡◌, ◌↔◌, refl, replicate, is_blank, is_whitespace, has_char,
  byte_len, char_len, text_eq, contains,
}
use tuppira.Observation.Records.{
  observed, missing, ObservationRecord, active, tenant, DeploymentAttestationProjection,
  unsupported_version, duplicate_reference, self_supersession,
}
use tuppira.Observation.Validate.{
  validate, validate_version, validate_id, validate_digest, validate_each_ref, validate_refs, names,
  validate_raw_digest, validate_supersedes, validate_visibility, validate_profile,
  validate_status_history, validate_each_status, validate_reasons, validate_workflow,
  validate_artifact,
}
use tuppira.Observation.Sound.{IsValid, validate_iff}

abbrev observation : ObservationRecord
observation = record {
  schema_version = 1;
  observation_id = codes "obs:42";
  source_id = codes "source:piteka";
  source_event_id = codes "deployment:42";
  source_event_type = codes "created";
  subject_refs = codes "repo:a" ∷ codes "git:b" ∷ [];
  asserted_event_time = some 100;
  observed_at = 101;
  normalized_profile_id = codes "profile";
  normalized_profile_version = 1;
  normalized_payload_digest = replicate 32 1;
  raw_payload_digest = some (replicate 32 2);
  authenticity_material_refs = codes "sig:42" ∷ [];
  collection_run_id = codes "run:1";
  supersedes = none;
  retraction_status = active;
  tenant_visibility = tenant (codes "tenant:acme");
}

accepts : validate observation ≡ ok tt
unfolding validate validate_version validate_id validate_digest validate_each_ref validate_refs
    names validate_raw_digest validate_supersedes validate_visibility is_blank is_whitespace
    has_char byte_len char_len text_eq contains
accepts = refl

rejects_unknown_version :
    validate (record observation { schema_version = 2 }) ≡ err (unsupported_version 2)
unfolding validate validate_version
rejects_unknown_version = refl

rejects_duplicate_subject :
    validate (record observation { subject_refs = codes "a" ∷ codes "b" ∷ codes "a" ∷ [] })
    ≡ err (duplicate_reference "subject_refs")
unfolding validate validate_version validate_id validate_digest validate_each_ref validate_refs
    validate_raw_digest is_blank is_whitespace has_char byte_len char_len text_eq contains
rejects_duplicate_subject = refl

rejects_self_supersession :
    validate (record observation { supersedes = some (codes "obs:42") }) ≡ err self_supersession
unfolding validate validate_version validate_id validate_digest validate_each_ref validate_refs
    names validate_raw_digest is_blank is_whitespace has_char byte_len char_len text_eq contains
rejects_self_supersession = refl

abbrev profile : DeploymentAttestationProjection
profile = record {
  schema_version = 1;
  receipt_id = codes "receipt:1";
  mandate_id = codes "mandate:1";
  intent_id = codes "intent:1";
  attempt_id = codes "attempt:1";
  status_history = observed (
      record { status = codes "queued"; asserted_at = 9; evidence_refs = [] }
      ∷ record { status = codes "succeeded"; asserted_at = 10; evidence_refs = codes "e" ∷ [] }
      ∷ []);
  workflow_identity = missing (codes "not disclosed" ∷ []);
  artifact_attestation = missing (codes "not disclosed" ∷ []);
}

accepts_profile : validate_profile profile ≡ ok tt
unfolding validate_profile validate_version validate_id validate_each_ref validate_refs
    validate_status_history validate_each_status validate_reasons validate_workflow
    validate_artifact is_blank is_whitespace has_char byte_len char_len text_eq contains
accepts_profile = refl

validate_iff_example : (validate observation ≡ ok tt) ↔ IsValid observation
validate_iff_example = validate_iff observation
