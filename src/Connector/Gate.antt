-- ===== src/Connector/Gate.antt =====
-- indexer/src/connector.rs: `authenticate_and_normalize`, the gate before persistence.
use tuppira.Base.{
  ℕ, Text, codes, List, [], ◌∷◌, ◌++◌, Option, none, some, Bool, true, false, ◌||◌, ◌&&◌, ok, err,
  ◌>>=◌, ◌>>◌, refuse_if, map_err, is_empty, all, text_eq, contains, not,
}
use tuppira.Observation.Records.{
  DeploymentAttestationProjection, ObservationValidationError, ProviderSignatureRecord,
  TenantVisibility, public, tenant, zero_digest, deployment_attestation_profile_id,
}
use tuppira.Observation.Validate.{validate, validate_profile}
use tuppira.Connector.Contract.{
  ConnectorError, invalid_field, source_mismatch, authentication_rejected,
  authentication_indeterminate, operation, ConnectorResult, RawSourceEvent, SourceAuthentication,
  authenticated, rejected, indeterminate, NormalizedObservationInput, SourceConnector, debug,
}
use tuppira.Connector.Checks.{Check, validate_id, validate_event}

-- Only authenticated input goes on; a rejected or an uncertain event is an error.
unfoldable pub require_authenticated :
    Text → SourceAuthentication → ConnectorResult (List ProviderSignatureRecord)
require_authenticated event_id (authenticated material) = ok material
require_authenticated event_id (rejected reason) = err (authentication_rejected event_id reason)
require_authenticated event_id (indeterminate reason) =
    err (authentication_indeterminate event_id reason)

unfoldable pub invalid_profile : ObservationValidationError → ConnectorError
invalid_profile error = operation (codes "invalid deployment profile: " ++ debug error)

unfoldable pub invalid_observation : ObservationValidationError → ConnectorError
invalid_observation error = operation (codes "invalid observation: " ++ debug error)

unfoldable pub check_profile : Option DeploymentAttestationProjection → Text → Check
check_profile none profile_id = ok tt
check_profile (some profile) profile_id = do
  map_err invalid_profile (validate_profile profile)
  refuse_if (not (text_eq profile_id deployment_attestation_profile_id))
      (invalid_field "normalized profile linkage")

-- The derived equality.
unfoldable pub visibility_eq : TenantVisibility → TenantVisibility → Bool
visibility_eq public public = true
visibility_eq (tenant a) (tenant b) = text_eq a b
visibility_eq _ _ = false

-- The loop over the material: the set of the ids seen so far grows to `authenticated_refs`.
unfoldable pub collect_refs : List Text → List ProviderSignatureRecord → ConnectorResult (List Text)
collect_refs refs [] = ok refs
collect_refs refs (m ∷ rest) = do
  validate_id m.authenticity_material_id "authentication.material_id"
  refuse_if
      (is_empty m.signature
        || text_eq m.signed_payload_digest zero_digest
        || contains refs m.authenticity_material_id)
      (invalid_field "authentication.material")
  collect_refs (m.authenticity_material_id ∷ refs) rest

-- Equality of two sets that are given by lists.
unfoldable pub same_set : List Text → List Text → Bool
same_set xs ys = all (contains ys) xs && all (contains xs) ys

unfoldable pub authenticate_and_normalize :
    SourceConnector → RawSourceEvent → ℕ → ConnectorResult NormalizedObservationInput
authenticate_and_normalize connector raw profile_version = do
  validate_event raw
  refuse_if (not (text_eq raw.source_id connector.source_id))
      (source_mismatch connector.source_id raw.source_id)
  answer ← connector.authenticate raw
  material ← require_authenticated raw.source_event_id answer
  candidate ← connector.normalize raw profile_version
  check_profile candidate.deployment_profile candidate.observation.normalized_profile_id
  map_err invalid_observation (validate candidate.observation)
  refuse_if
      (not (text_eq candidate.observation.source_id raw.source_id)
        || not (text_eq candidate.observation.source_event_id raw.source_event_id)
        || not (visibility_eq candidate.observation.tenant_visibility raw.tenant_visibility))
      (invalid_field "normalized source boundary")
  refs ← collect_refs [] material
  refuse_if (not (same_set candidate.observation.authenticity_material_refs refs))
      (invalid_field "normalized authenticity linkage")
  ok candidate
