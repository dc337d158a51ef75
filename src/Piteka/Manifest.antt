-- ===== src/Piteka/Manifest.antt =====
-- indexer/src/piteka_feed.rs: `ExportManifest`, the payload of an export, its validation and the
-- deployment profile that is read from it.
use tuppira.Base.{
  ℕ, ◌+◌, Text, codes, List, [], ◌∷◌, ◌++◌, Option, none, some, Bool, true, false, ◌&&◌, ◌||◌, ok,
  err, ◌>>=◌, ◌>>◌, refuse_if, ok_or, for_each, leb, ◌==◌, length, is_empty, filter, map, text_eq,
  not, if◌then◌else◌,
}
use tuppira.Observation.Records.{
  Digest, zero_digest, ObservedOrMissing, observed, missing, DeploymentAttestationProjection,
  ArtifactAttestationReading,
}
use tuppira.Connector.Contract.{invalid_field, ConnectorResult}
use tuppira.Connector.Checks.{Check}
use tuppira.Piteka.Export.{validate_text}

abbrev pub attestation_registry_id : Text
attestation_registry_id = codes "org.diewan.evidence.attestation.v1"

pub record ExportReceipt : Type 0 where
  pub receipt_id : Text
  pub mandate_id : Text
  pub intent_id : Text
  pub attempt_id : Text
  pub outcome : Text
  pub created_at : ℕ

pub record ExportEvidenceDescriptor : Type 0 where
  pub node_id : Text
  pub registry_id : Text
  pub source : Text
  pub content_digest : Text

pub record ExportGapDescriptor : Type 0 where
  pub node_id : Text
  pub content_digest : Text

pub record ExportSourceAttribution : Type 0 where
  pub piteka_claims : ℕ
  pub provider_observations : ℕ
  pub verifier_conclusions : ℕ

pub record ExportMissingEvidence : Type 0 where
  pub gap_count : ℕ
  pub gaps : List Text

pub record ExportSingleUseAnchor : Type 0 where
  pub seal_id_hex : Text
  pub nullifier_hex : Text
  pub commitment_hex : Text
  pub anchor_backend : Text

pub record ExportManifest : Type 0 where
  pub bundle_version : Text
  pub receipt : ExportReceipt
  pub dispatch_evidence : List ExportEvidenceDescriptor
  pub target_evidence : List ExportEvidenceDescriptor
  pub evidence_gaps : List ExportGapDescriptor
  pub source_attribution : ExportSourceAttribution
  pub missing_evidence : ExportMissingEvidence
  pub single_use_anchor : Option ExportSingleUseAnchor

-- u8::to_ascii_lowercase
unfoldable pub to_ascii_lowercase : ℕ → ℕ
to_ascii_lowercase c = if leb b'A' c && leb c b'Z' then c + 32 else c

unfoldable pub starts_with : Text → Text → Bool
starts_with t [] = true
starts_with [] (p ∷ ps) = false
starts_with (c ∷ t) (p ∷ ps) = c == p && starts_with t ps

-- str::contains on a pattern
unfoldable pub has_infix : Text → Text → Bool
has_infix [] class = is_empty class
has_infix (c ∷ t) class = starts_with (c ∷ t) class || has_infix t class

unfoldable pub missing_reasons : List Text → Text → List Text
missing_reasons reported class =
    let matching = filter (λ reason. has_infix (map to_ascii_lowercase reason) class) reported in
    if is_empty matching
    then (class ++ codes " was not disclosed by the source export") ∷ []
    else matching

-- `hex::decode` is the crate's.
module _ (hex_decode : Text → Option (List ℕ)) where
  unfoldable pub decode_sha256 : Text → ConnectorResult Digest
  decode_sha256 value = do
    bytes ← ok_or (hex_decode value) (invalid_field "evidence.digest")
    refuse_if (not (length bytes == 32)) (invalid_field "evidence.digest")
    refuse_if (text_eq bytes zero_digest) (invalid_field "evidence.digest")
    ok bytes

  unfoldable pub validate_node : ExportEvidenceDescriptor → Check
  validate_node node = do
    validate_text node.node_id "evidence.node_id"
    validate_text node.registry_id "evidence.registry_id"
    validate_text node.source "evidence.source"
    digest ← decode_sha256 node.content_digest
    ok tt

  unfoldable pub validate_gap : ExportGapDescriptor → Check
  validate_gap gap = do
    validate_text gap.node_id "gap.node_id"
    digest ← decode_sha256 gap.content_digest
    ok tt

  unfoldable pub validate_anchor : Option ExportSingleUseAnchor → Check
  validate_anchor none = ok tt
  validate_anchor (some anchor) = do
    validate_text anchor.anchor_backend "single_use_anchor.anchor_backend"
    seal ← decode_sha256 anchor.seal_id_hex
    nullifier ← decode_sha256 anchor.nullifier_hex
    commitment ← decode_sha256 anchor.commitment_hex
    ok tt

  unfoldable pub validate_manifest : ExportManifest → Check
  validate_manifest m = do
    refuse_if (not (text_eq m.bundle_version (codes "0.1")) || m.receipt.created_at == 0)
        (invalid_field "piteka_feed.manifest_version")
    validate_text m.receipt.receipt_id "receipt_id"
    validate_text m.receipt.mandate_id "mandate_id"
    validate_text m.receipt.intent_id "intent_id"
    validate_text m.receipt.attempt_id "attempt_id"
    validate_text m.receipt.outcome "outcome"
    refuse_if
        (not (m.missing_evidence.gap_count == length m.evidence_gaps)
          || not (length m.missing_evidence.gaps == length m.evidence_gaps))
        (invalid_field "piteka_feed.missing_evidence")
    for_each validate_node (m.dispatch_evidence ++ m.target_evidence)
    for_each validate_gap m.evidence_gaps
    validate_anchor m.single_use_anchor

  -- At most one attestation may be present; its digest must be one.
  unfoldable pub read_attestation :
      List Text
      → List ExportEvidenceDescriptor
      → ConnectorResult (ObservedOrMissing ArtifactAttestationReading)
  read_attestation gaps [] = ok (missing (missing_reasons gaps (codes "artifact attestation")))
  read_attestation gaps (node ∷ []) = do
    digest ← decode_sha256 node.content_digest
    ok (
        observed (record {
          digest_algorithm = codes "sha-256";
          artifact_digest = missing (missing_reasons gaps (codes "artifact digest"));
          attestation_digest = digest;
          attestation_evidence_refs = node.node_id ∷ [];
        }))
  read_attestation gaps (node ∷ other ∷ rest) =
      err (invalid_field "piteka_feed.ambiguous_artifact_attestation")

  unfoldable pub deployment_profile :
      ExportManifest → ConnectorResult DeploymentAttestationProjection
  deployment_profile m = do
    artifact_attestation ← read_attestation m.missing_evidence.gaps (
        filter (λ node. text_eq node.registry_id attestation_registry_id)
          (m.dispatch_evidence ++ m.target_evidence))
    ok (record {
      schema_version = 1;
      receipt_id = m.receipt.receipt_id;
      mandate_id = m.receipt.mandate_id;
      intent_id = m.receipt.intent_id;
      attempt_id = m.receipt.attempt_id;
      status_history = observed (
          record {
            status = m.receipt.outcome;
            asserted_at = m.receipt.created_at;
            evidence_refs = map (λ node. node.node_id) m.target_evidence;
          }
          ∷ []);
      workflow_identity =
          missing (missing_reasons m.missing_evidence.gaps (codes "workflow identity"));
      artifact_attestation = artifact_attestation;
    })
