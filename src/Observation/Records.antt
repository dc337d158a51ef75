-- ===== src/Observation/Records.antt =====
-- shared/src/observation.rs: the records of the observation plane and the reasons for which
-- their validation refuses one. A digest `[u8; 32]` is the list of its 32 bytes.
use tuppira.Base.{ℕ, Text, List, Option, String, Bool, replicate, codes}

abbrev pub Digest : Type 0
Digest = List ℕ

-- [0; 32]
abbrev pub zero_digest : Digest
zero_digest = replicate 32 0

abbrev pub observation_schema_version : ℕ
observation_schema_version = 1

abbrev pub max_observation_id_bytes : ℕ
max_observation_id_bytes = 512

abbrev pub max_observation_refs : ℕ
max_observation_refs = 128

abbrev pub deployment_attestation_profile_id : Text
deployment_attestation_profile_id = codes "org.diewan.piteka.deployment-attestation-observation.v1"

pub data ObservedOrMissing {ℓ} (A : Type ℓ) : Type ℓ where
  observed : A → ObservedOrMissing A
  missing : List Text → ObservedOrMissing A

pub record DeploymentStatusReading : Type 0 where
  pub status : Text
  pub asserted_at : ℕ
  pub evidence_refs : List Text

pub record WorkflowIdentityReading : Type 0 where
  pub provider : Text
  pub repository : Text
  pub workflow_ref : Text
  pub run_id : Text
  pub run_attempt : ℕ

pub record ArtifactAttestationReading : Type 0 where
  pub digest_algorithm : Text
  pub artifact_digest : ObservedOrMissing Digest
  pub attestation_digest : Digest
  pub attestation_evidence_refs : List Text

pub record DeploymentAttestationProjection : Type 0 where
  pub schema_version : ℕ
  pub receipt_id : Text
  pub mandate_id : Text
  pub intent_id : Text
  pub attempt_id : Text
  pub status_history : ObservedOrMissing (List DeploymentStatusReading)
  pub workflow_identity : ObservedOrMissing WorkflowIdentityReading
  pub artifact_attestation : ObservedOrMissing ArtifactAttestationReading

pub data RetractionStatus : Type 0 where
  active retracted : RetractionStatus

pub data TenantVisibility : Type 0 where
  public : TenantVisibility
  tenant : Text → TenantVisibility

pub record ObservationRecord : Type 0 where
  pub schema_version : ℕ
  pub observation_id : Text
  pub source_id : Text
  pub source_event_id : Text
  pub source_event_type : Text
  pub subject_refs : List Text
  pub asserted_event_time : Option ℕ
  pub observed_at : ℕ
  pub normalized_profile_id : Text
  pub normalized_profile_version : ℕ
  pub normalized_payload_digest : Digest
  pub raw_payload_digest : Option Digest
  pub authenticity_material_refs : List Text
  pub collection_run_id : Text
  pub supersedes : Option Text
  pub retraction_status : RetractionStatus
  pub tenant_visibility : TenantVisibility

pub record RawPayloadDescriptor : Type 0 where
  pub schema_version : ℕ
  pub payload_id : Text
  pub digest_algorithm : Text
  pub payload_digest : Digest
  pub media_type : Text
  pub byte_length : ℕ
  pub custody_locator : Option Text
  pub retention_class_id : Text

pub record ProviderSignatureRecord : Type 0 where
  pub schema_version : ℕ
  pub authenticity_material_id : Text
  pub source_identity_id : Text
  pub signature_scheme : Text
  pub signed_payload_digest : Digest
  pub signature : List ℕ

pub record SyncCursorRecord : Type 0 where
  pub schema_version : ℕ
  pub source_id : Text
  pub cursor_version : ℕ
  pub cursor : List ℕ
  pub observed_at : ℕ

pub record CollectionRunRecord : Type 0 where
  pub schema_version : ℕ
  pub collection_run_id : Text
  pub source_id : Text
  pub started_at : ℕ
  pub completed_at : Option ℕ

pub record SourceRecord : Type 0 where
  pub schema_version : ℕ
  pub source_id : Text
  pub connector_kind : Text
  pub display_name : Text
  pub retention_class_id : Text

pub record RetentionClassRecord : Type 0 where
  pub schema_version : ℕ
  pub retention_class_id : Text
  pub purpose : Text
  pub retain_for_seconds : Option ℕ
  pub raw_payload_permitted : Bool

pub record ReorgRecord : Type 0 where
  pub schema_version : ℕ
  pub reorg_id : Text
  pub source_id : Text
  pub detected_at : ℕ
  pub prior_tip : Text
  pub replacement_tip : Text

pub record SupersessionRecord : Type 0 where
  pub schema_version : ℕ
  pub superseding_observation_id : Text
  pub superseded_observation_id : Text
  pub observed_at : ℕ

pub record ContradictionHintRecord : Type 0 where
  pub schema_version : ℕ
  pub hint_id : Text
  pub left_observation_id : Text
  pub right_observation_id : Text
  pub detector_id : Text

pub data ObservationValidationError : Type 0 where
  unsupported_version : ℕ → ObservationValidationError
  invalid_field : String → ObservationValidationError
  invalid_digest : String → ObservationValidationError
  bounds_exceeded : String → ObservationValidationError
  duplicate_reference : String → ObservationValidationError
  self_supersession : ObservationValidationError
