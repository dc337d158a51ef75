-- ===== src/Connector/Contract.antt =====
-- indexer/src/connector.rs: the errors, the records and the trait of a source connector.
use tuppira.Base.{ℕ, ◌*◌, ◌++◌, Text, String, codes, List, Option, Result}
use tuppira.Base.Decimal.{decimal}
use tuppira.Observation.Records.{
  ObservationRecord, RawPayloadDescriptor, DeploymentAttestationProjection, ProviderSignatureRecord,
  ReorgRecord, SupersessionRecord, ContradictionHintRecord, TenantVisibility,
  ObservationValidationError, unsupported_version, invalid_digest, bounds_exceeded,
  duplicate_reference, self_supersession,
}

abbrev pub max_discovery_limit : ℕ
max_discovery_limit = 10_000

abbrev pub max_raw_event_bytes : ℕ
max_raw_event_bytes = 8 * 1024 * 1024

abbrev pub max_cursor_bytes : ℕ
max_cursor_bytes = 64 * 1024

pub data ConnectorError : Type 0 where
  unsupported_contract_version : ℕ → ConnectorError
  unsupported_profile : Text → ℕ → ConnectorError
  invalid_field : String → ConnectorError
  bound_exceeded : String → ConnectorError
  duplicate_source_event : Text → ConnectorError
  source_mismatch : Text → Text → ConnectorError
  authentication_rejected : Text → Text → ConnectorError
  authentication_indeterminate : Text → Text → ConnectorError
  operation : Text → ConnectorError

abbrev pub ConnectorResult {ℓ} : Type ℓ → Type ℓ
ConnectorResult A = Result ConnectorError A

-- `{error:?}` of a validation error; the field names need no escapes.
unfoldable pub debug : ObservationValidationError → Text
debug (unsupported_version v) = codes "UnsupportedVersion(" ++ (decimal v ++ codes ")")
debug (ObservationValidationError.invalid_field f) =
    codes "InvalidField(\"" ++ (codes f ++ codes "\")")
debug (invalid_digest f) = codes "InvalidDigest(\"" ++ (codes f ++ codes "\")")
debug (bounds_exceeded f) = codes "BoundsExceeded(\"" ++ (codes f ++ codes "\")")
debug (duplicate_reference f) = codes "DuplicateReference(\"" ++ (codes f ++ codes "\")")
debug self_supersession = codes "SelfSupersession"

pub record ConnectorCursor : Type 0 where
  pub source_id : Text
  pub cursor_version : ℕ
  pub bytes : List ℕ

pub record RawSourceEvent : Type 0 where
  pub source_id : Text
  pub source_event_id : Text
  pub media_type : Text
  pub bytes : List ℕ
  pub observed_at : ℕ
  pub tenant_visibility : TenantVisibility

pub record RawSourceBatch : Type 0 where
  pub source_id : Text
  pub events : List RawSourceEvent
  pub proposed_cursor : ConnectorCursor

pub data SourceAuthentication : Type 0 where
  authenticated : List ProviderSignatureRecord → SourceAuthentication
  rejected : Text → SourceAuthentication
  indeterminate : Text → SourceAuthentication

pub record NormalizedObservationInput : Type 0 where
  pub observation : ObservationRecord
  pub raw_payload : Option RawPayloadDescriptor
  pub deployment_profile : Option DeploymentAttestationProjection

pub record SourceReconciliationAssessment : Type 0 where
  pub source_id : Text
  pub subject_ref : Text
  pub reorgs : List ReorgRecord
  pub supersessions : List SupersessionRecord
  pub contradictions : List ContradictionHintRecord

pub data SourceHealth : Type 0 where
  healthy : SourceHealth
  degraded : Text → SourceHealth
  unavailable : Text → SourceHealth

-- The trait. A call is a function of its arguments: the sources are immutable feeds.
pub record SourceConnector : Type 0 where
  pub source_id : Text
  pub discover : Option ConnectorCursor → ℕ → ConnectorResult RawSourceBatch
  pub authenticate : RawSourceEvent → ConnectorResult SourceAuthentication
  pub normalize : RawSourceEvent → ℕ → ConnectorResult NormalizedObservationInput
  pub checkpoint : RawSourceBatch → ConnectorResult ConnectorCursor
  pub reconcile : Text → ℕ → ℕ → ConnectorResult SourceReconciliationAssessment
  pub health : SourceHealth
