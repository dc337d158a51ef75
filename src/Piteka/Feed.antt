-- ===== src/Piteka/Feed.antt =====
-- indexer/src/piteka_feed.rs: `PitekaEvidenceFeedConnector` and its `SourceConnector` methods. The
-- transport is the function `fetch` from a sequence and a limit to a page.
pub mod Authentic
pub mod Discovery
pub mod Candidate
pub mod Corrections
use tuppira.Base.{
  ℕ, Text, codes, List, [], ◌∷◌, ◌++◌, Option, none, some, Bool, ◌||◌, ok, ◌>>=◌, ◌>>◌, refuse_if,
  ok_or, ltb, ◌==◌, length, text_eq, not, if◌then◌else◌,
}
use mathlib.Core.Option
use tuppira.Base.Words.{saturating_add}
use tuppira.Observation.Records.{
  tenant, active, deployment_attestation_profile_id, observation_schema_version,
}
use tuppira.Connector.Contract.{
  unsupported_contract_version, unsupported_profile, invalid_field, operation, ConnectorResult,
  ConnectorCursor, RawSourceEvent, RawSourceBatch, SourceAuthentication, authenticated, rejected,
  NormalizedObservationInput, SourceReconciliationAssessment, SourceHealth, SourceConnector,
  max_discovery_limit,
}
use tuppira.Connector.Checks.{validate_limit, validate_batch}
use tuppira.Piteka.Export.{
  feed_schema_version, SignedPitekaExport, validate_text, signing_bytes, event_id, observation_id,
  prior_observation_id, auth_id, encode_cursor, decode_cursor,
}
use tuppira.Piteka.Manifest.{validate_manifest, deployment_profile}
use tuppira.Piteka.Externals.{Externals}

abbrev pub media_type : Text
media_type = codes "application/vnd.diewan.piteka-evidence-export+json"

pub record PitekaFeedPage : Type 0 where
  pub schema_version : ℕ
  pub exports : List SignedPitekaExport
  pub next_sequence : ℕ

pub record PitekaFeedConfig : Type 0 where
  pub source_id : Text
  pub tenant_id : Text
  pub signing_key_id : Text
  pub verifying_key : List ℕ
  pub retention_class_id : Text
  pub collection_run_id : Text

abbrev pub Fetch : Type 0
Fetch = ℕ → ℕ → ConnectorResult PitekaFeedPage

module _ (X : Externals) where
  open X use {
    VerifyingKey, key_from_bytes, signature_from_slice, verify, sha256, hex_decode, hex_encode,
    to_vec, export_from_slice, manifest_from_slice, json_error,
  }

  pub record PitekaEvidenceFeedConnector : Type 0 where
    pub config : PitekaFeedConfig
    pub verifying_key : VerifyingKey
    pub fetch : Fetch
    pub health : SourceHealth

  -- PitekaEvidenceFeedConnector::new
  unfoldable pub new :
      PitekaFeedConfig → Fetch → SourceHealth → ConnectorResult PitekaEvidenceFeedConnector
  new config fetch health = do
    validate_text config.source_id "piteka_feed.source_id"
    validate_text config.tenant_id "piteka_feed.tenant_id"
    validate_text config.signing_key_id "piteka_feed.signing_key_id"
    validate_text config.retention_class_id "piteka_feed.retention_class_id"
    validate_text config.collection_run_id "piteka_feed.collection_run_id"
    key ← ok_or (key_from_bytes config.verifying_key) (invalid_field "piteka_feed.verifying_key")
    ok (record { config = config; verifying_key = key; fetch = fetch; health = health })

  unfoldable pub decode : RawSourceEvent → ConnectorResult SignedPitekaExport
  decode raw = ok_or (export_from_slice raw.bytes) (invalid_field "piteka_feed.envelope")

  unfoldable pub raw_event : PitekaFeedConfig → SignedPitekaExport → List ℕ → RawSourceEvent
  raw_event config e bytes = record {
    source_id = config.source_id;
    source_event_id = event_id e;
    media_type = media_type;
    bytes = bytes;
    observed_at = e.emitted_at;
    tenant_visibility = tenant config.tenant_id;
  }

  -- The loop of `discover`: the events, and the sequence that the last one reached.
  unfoldable pub read_exports :
      PitekaFeedConfig → ℕ → List SignedPitekaExport → ConnectorResult (List RawSourceEvent × ℕ)
  read_exports config expected [] = ok ([], expected)
  read_exports config expected (e ∷ rest) = do
    refuse_if
        (not (e.sequence == saturating_add expected 1)
          || not (text_eq e.tenant_id config.tenant_id))
        (invalid_field "piteka_feed.sequence_or_tenant")
    bytes ← ok_or (to_vec e) (operation json_error)
    later ← read_exports config e.sequence rest
    ok (raw_event config e bytes ∷ later.0, later.1)

  unfoldable pub discover :
      PitekaEvidenceFeedConnector → Option ConnectorCursor → ℕ → ConnectorResult RawSourceBatch
  discover c cursor limit = do
    validate_limit limit
    after ← decode_cursor cursor c.config.source_id
    page ← c.fetch after limit
    refuse_if (not (page.schema_version == feed_schema_version) || ltb limit (length page.exports))
        (unsupported_contract_version page.schema_version)
    found ← read_exports c.config after page.exports
    refuse_if (not (page.next_sequence == found.1)) (invalid_field "piteka_feed.next_sequence")
    let batch : RawSourceBatch = record {
      source_id = c.config.source_id;
      events = found.0;
      proposed_cursor = encode_cursor c.config.source_id found.1;
    }
    validate_batch batch limit
    ok batch

  -- The signature record of an export whose signature holds.
  unfoldable pub signature_material : SignedPitekaExport → SourceAuthentication
  signature_material e = authenticated (
      record {
        schema_version = observation_schema_version;
        authenticity_material_id = auth_id e;
        source_identity_id = codes "piteka-signing-key:" ++ e.signing_key_id;
        signature_scheme = codes "ed25519-piteka-evidence-feed-v1";
        signed_payload_digest = e.payload_sha256;
        signature = e.signature;
      }
      ∷ [])

  unfoldable pub verify_export :
      PitekaEvidenceFeedConnector → SignedPitekaExport → ConnectorResult SourceAuthentication
  verify_export c e = do
    message ← signing_bytes sha256 e
    signature ← ok_or (signature_from_slice e.signature) (invalid_field "piteka_feed.signature")
    ok (
        if verify c.verifying_key message signature
        then signature_material e
        else rejected (codes "invalid Piteka feed signature"))

  unfoldable pub mismatched : PitekaFeedConfig → RawSourceEvent → SignedPitekaExport → Bool
  mismatched config raw e =
      not (text_eq e.tenant_id config.tenant_id)
      || not (text_eq e.signing_key_id config.signing_key_id)
      || not (text_eq raw.source_event_id (event_id e))

  unfoldable pub authenticate :
      PitekaEvidenceFeedConnector → RawSourceEvent → ConnectorResult SourceAuthentication
  authenticate c raw = do
    e ← decode raw
    if mismatched c.config raw e
        then ok (rejected (codes "feed identity or tenant mismatch"))
        else verify_export c e

  unfoldable pub normalize :
      PitekaEvidenceFeedConnector → RawSourceEvent → ℕ → ConnectorResult NormalizedObservationInput
  normalize c raw profile_version = do
    refuse_if (not (profile_version == 1))
        (unsupported_profile deployment_attestation_profile_id profile_version)
    e ← decode raw
    message ← signing_bytes sha256 e
    manifest ← ok_or (manifest_from_slice e.payload) (invalid_field "piteka_feed.payload")
    validate_manifest hex_decode manifest
    profile ← deployment_profile hex_decode manifest
    ok (record {
      observation = record {
        schema_version = observation_schema_version;
        observation_id = observation_id e;
        source_id = raw.source_id;
        source_event_id = raw.source_event_id;
        source_event_type = codes "piteka_evidence_export";
        subject_refs =
            (codes "mandate:" ++ manifest.receipt.mandate_id)
            ∷ (codes "receipt:" ++ manifest.receipt.receipt_id)
            ∷ [];
        asserted_event_time = some manifest.receipt.created_at;
        observed_at = raw.observed_at;
        normalized_profile_id = deployment_attestation_profile_id;
        normalized_profile_version = 1;
        normalized_payload_digest = e.payload_sha256;
        raw_payload_digest = some (sha256 raw.bytes);
        authenticity_material_refs = auth_id e ∷ [];
        collection_run_id = c.config.collection_run_id;
        supersedes = Option.map prior_observation_id e.supersedes_export_id;
        retraction_status = active;
        tenant_visibility = raw.tenant_visibility;
      };
      raw_payload = some (record {
        schema_version = observation_schema_version;
        payload_id = codes "piteka-raw:" ++ hex_encode (sha256 raw.bytes);
        digest_algorithm = codes "sha-256";
        payload_digest = sha256 raw.bytes;
        media_type = raw.media_type;
        byte_length = length raw.bytes;
        custody_locator = none;
        retention_class_id = c.config.retention_class_id;
      });
      deployment_profile = some profile;
    })

  unfoldable pub checkpoint : RawSourceBatch → ConnectorResult ConnectorCursor
  checkpoint batch = do validate_batch batch max_discovery_limit; ok batch.proposed_cursor

  unfoldable pub reconcile :
      PitekaEvidenceFeedConnector → Text → ℕ → ℕ → ConnectorResult SourceReconciliationAssessment
  reconcile c subject_ref from to = do
    validate_text subject_ref "piteka_feed.subject_ref"
    refuse_if (ltb to from) (invalid_field "piteka_feed.interval")
    ok (record {
      source_id = c.config.source_id;
      subject_ref = subject_ref;
      reorgs = [];
      supersessions = [];
      contradictions = [];
    })

  -- The implementation of the trait.
  unfoldable pub connector : PitekaEvidenceFeedConnector → SourceConnector
  connector c = record {
    source_id = c.config.source_id;
    discover = discover c;
    authenticate = authenticate c;
    normalize = normalize c;
    checkpoint = checkpoint;
    reconcile = reconcile c;
    health = c.health;
  }
