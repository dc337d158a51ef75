-- ===== src/Observation/Validate.antt =====
-- shared/src/observation.rs: `ObservationRecord::validate`,
-- `DeploymentAttestationProjectionV1::validate` and the checks that they share.
use tuppira.Base.{
  ℕ, Text, String, List, [], ◌∷◌, ◌++◌, Option, none, some, Bool, false, ◌||◌, Result, ok, ◌>>◌,
  refuse_if, ltb, ◌==◌, length, is_empty, is_blank, has_char, byte_len, text_eq, contains, not,
}
use tuppira.Observation.Records.{
  Digest, zero_digest, observation_schema_version, max_observation_id_bytes, max_observation_refs,
  ObservedOrMissing, observed, missing, DeploymentStatusReading, WorkflowIdentityReading,
  ArtifactAttestationReading, DeploymentAttestationProjection, TenantVisibility, public, tenant,
  ObservationRecord, ObservationValidationError, unsupported_version, invalid_field, invalid_digest,
  bounds_exceeded, duplicate_reference, self_supersession,
}

abbrev pub Check : Type 0
Check = Result ObservationValidationError (Unit {0})

unfoldable pub validate_version : ℕ → Check
validate_version version =
    refuse_if (not (version == observation_schema_version)) (unsupported_version version)

unfoldable pub validate_id : Text → String → Check
validate_id value field =
    refuse_if (is_blank value || ltb max_observation_id_bytes (byte_len value) || has_char 0 value)
      (invalid_field field)

-- Arrays of bytes are compared as texts are.
unfoldable pub validate_digest : Digest → String → Check
validate_digest digest field = refuse_if (text_eq digest zero_digest) (invalid_digest field)

-- The loop of `validate_refs`: `before` holds `values[..index]`.
unfoldable pub validate_each_ref : List Text → List Text → String → Check
validate_each_ref before [] field = ok tt
validate_each_ref before (value ∷ rest) field = do
  validate_id value field
  refuse_if (contains before value) (duplicate_reference field)
  validate_each_ref (before ++ value ∷ []) rest field

unfoldable pub validate_refs : List Text → String → Check
validate_refs values field = do
  refuse_if (ltb max_observation_refs (length values)) (bounds_exceeded field)
  validate_each_ref [] values field

unfoldable pub validate_reasons : List Text → Check
validate_reasons reasons = do
  refuse_if (is_empty reasons) (invalid_field "missing.reasons")
  validate_refs reasons "missing.reasons"

-- The loop of `validate_status_history`.
unfoldable pub validate_each_status : ℕ → List DeploymentStatusReading → Check
validate_each_status previous [] = ok tt
validate_each_status previous (s ∷ rest) = do
  validate_id s.status "status_history.status"
  refuse_if (s.asserted_at == 0 || ltb s.asserted_at previous)
      (invalid_field "status_history.asserted_at")
  validate_refs s.evidence_refs "status_history.evidence_refs"
  validate_each_status s.asserted_at rest

unfoldable pub validate_status_history : ObservedOrMissing (List DeploymentStatusReading) → Check
validate_status_history (missing reasons) = validate_reasons reasons
validate_status_history (observed value) = do
  refuse_if (is_empty value || ltb max_observation_refs (length value))
      (bounds_exceeded "status_history")
  validate_each_status 0 value

unfoldable pub validate_workflow : ObservedOrMissing WorkflowIdentityReading → Check
validate_workflow (missing reasons) = validate_reasons reasons
validate_workflow (observed value) = do
  validate_id value.provider "workflow.provider"
  validate_id value.repository "workflow.repository"
  validate_id value.workflow_ref "workflow.workflow_ref"
  validate_id value.run_id "workflow.run_id"
  refuse_if (value.run_attempt == 0) (invalid_field "workflow.run_attempt")

unfoldable pub validate_artifact_digest : ObservedOrMissing Digest → Check
validate_artifact_digest (observed value) = validate_digest value "artifact.digest"
validate_artifact_digest (missing reasons) = validate_reasons reasons

unfoldable pub validate_artifact : ObservedOrMissing ArtifactAttestationReading → Check
validate_artifact (missing reasons) = validate_reasons reasons
validate_artifact (observed value) = do
  validate_id value.digest_algorithm "artifact.digest_algorithm"
  validate_artifact_digest value.artifact_digest
  validate_digest value.attestation_digest "artifact.attestation_digest"
  refuse_if (is_empty value.attestation_evidence_refs)
      (invalid_field "artifact.attestation_evidence_refs")
  validate_refs value.attestation_evidence_refs "artifact.attestation_evidence_refs"

unfoldable pub validate_profile : DeploymentAttestationProjection → Check
validate_profile p = do
  validate_version p.schema_version
  validate_id p.receipt_id "receipt_id"
  validate_id p.mandate_id "mandate_id"
  validate_id p.intent_id "intent_id"
  validate_id p.attempt_id "attempt_id"
  validate_status_history p.status_history
  validate_workflow p.workflow_identity
  validate_artifact p.artifact_attestation

unfoldable pub validate_raw_digest : Option Digest → Check
validate_raw_digest none = ok tt
validate_raw_digest (some digest) = validate_digest digest "raw_payload_digest"

-- self.supersedes.as_deref() == Some(id)
unfoldable pub names : Option Text → Text → Bool
names none id = false
names (some prior) id = text_eq prior id

unfoldable pub validate_supersedes : Option Text → Check
validate_supersedes none = ok tt
validate_supersedes (some id) = validate_id id "supersedes"

unfoldable pub validate_visibility : TenantVisibility → Check
validate_visibility public = ok tt
validate_visibility (tenant tenant_id) = validate_id tenant_id "tenant_id"

unfoldable pub validate : ObservationRecord → Check
validate r = do
  validate_version r.schema_version
  validate_id r.observation_id "observation_id"
  validate_id r.source_id "source_id"
  validate_id r.source_event_id "source_event_id"
  validate_id r.source_event_type "source_event_type"
  validate_id r.normalized_profile_id "normalized_profile_id"
  validate_id r.collection_run_id "collection_run_id"
  refuse_if (r.observed_at == 0 || r.normalized_profile_version == 0)
      (invalid_field "time_or_profile_version")
  validate_digest r.normalized_payload_digest "normalized_payload_digest"
  validate_raw_digest r.raw_payload_digest
  validate_refs r.subject_refs "subject_refs"
  validate_refs r.authenticity_material_refs "authenticity_material_refs"
  refuse_if (names r.supersedes r.observation_id) self_supersession
  validate_supersedes r.supersedes
  validate_visibility r.tenant_visibility
