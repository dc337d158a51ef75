-- ===== src/Piteka/Fixtures.antt =====
-- The feed on which the connector of indexer/src/piteka_feed.rs is run: keys, signatures, digests
-- and JSON are small functions; a signature is the key that made it.
use tuppira.Base.{ℕ, codes, List, [], ◌∷◌, none, some, ok, replicate, text_eq, if◌then◌else◌}
use tuppira.Connector.Contract.{healthy, RawSourceEvent, NormalizedObservationInput}
use tuppira.Observation.Records.{
  tenant, active, observed, missing, ProviderSignatureRecord, deployment_attestation_profile_id,
}
use tuppira.Piteka.Export.{SignedPitekaExport}
use tuppira.Piteka.Manifest.{ExportManifest}
use tuppira.Piteka.Externals.{Externals}
use tuppira.Piteka.Feed.{PitekaFeedConfig, PitekaEvidenceFeedConnector}

abbrev pub envelope : SignedPitekaExport
envelope = record {
  schema_version = 1;
  sequence = 4;
  export_id = codes "export:a";
  revision = 1;
  supersedes_export_id = none;
  tenant_id = codes "acme";
  emitted_at = 101;
  payload = 5 ∷ 6 ∷ [];
  payload_sha256 = replicate 32 7;
  signing_key_id = codes "key:1";
  signature = 9 ∷ [];
}

abbrev pub manifest : ExportManifest
manifest = record {
  bundle_version = codes "0.1";
  receipt = record {
    receipt_id = codes "receipt:1";
    mandate_id = codes "mandate:1";
    intent_id = codes "intent:1";
    attempt_id = codes "attempt:1";
    outcome = codes "succeeded";
    created_at = 100;
  };
  dispatch_evidence = [];
  target_evidence =
      record {
        node_id = codes "node:1";
        registry_id = codes "registry:1";
        source = codes "provider";
        content_digest = codes "ab";
      }
      ∷ [];
  evidence_gaps = [];
  source_attribution = record {
    piteka_claims = 1;
    provider_observations = 1;
    verifier_conclusions = 0;
  };
  missing_evidence = record { gap_count = 0; gaps = [] };
  single_use_anchor = none;
}

-- An export that corrects the first one.
abbrev pub correction : SignedPitekaExport
correction = record envelope {
  sequence = 5;
  export_id = codes "export:b";
  supersedes_export_id = some (codes "export:a");
}

abbrev pub externals : Externals
externals = record {
  VerifyingKey = List ℕ;
  Signature = List ℕ;
  key_from_bytes = λ k. some k;
  signature_from_slice = λ s. some s;
  verify = λ key message signature. text_eq key signature;
  sha256 = λ bytes. replicate 32 7;
  hex_decode = λ t. some (replicate 32 3);
  hex_encode = λ bytes. codes "07";
  to_vec = λ e. some (e.sequence ∷ []);
  export_from_slice = λ bytes.
      if text_eq bytes (4 ∷ [])
      then some envelope
      else (if text_eq bytes (5 ∷ []) then some correction else none);
  manifest_from_slice = λ payload. some manifest;
  json_error = codes "json";
}

abbrev pub config : PitekaFeedConfig
config = record {
  source_id = codes "feed";
  tenant_id = codes "acme";
  signing_key_id = codes "key:1";
  verifying_key = 9 ∷ [];
  retention_class_id = codes "standard";
  collection_run_id = codes "run:1";
}

abbrev pub feed : PitekaEvidenceFeedConnector externals
feed = record {
  config = config;
  verifying_key = 9 ∷ [];
  fetch =
      λ after limit. ok (record { schema_version = 1; exports = envelope ∷ []; next_sequence = 4 });
  health = healthy;
}

abbrev pub raw : RawSourceEvent
raw = record {
  source_id = codes "feed";
  source_event_id = codes "export:a:revision:1";
  media_type = codes "application/vnd.diewan.piteka-evidence-export+json";
  bytes = 4 ∷ [];
  observed_at = 101;
  tenant_visibility = tenant (codes "acme");
}

abbrev pub material : ProviderSignatureRecord
material = record {
  schema_version = 1;
  authenticity_material_id = codes "piteka-feed-signature:export:a:revision:1";
  source_identity_id = codes "piteka-signing-key:key:1";
  signature_scheme = codes "ed25519-piteka-evidence-feed-v1";
  signed_payload_digest = replicate 32 7;
  signature = 9 ∷ [];
}

abbrev pub candidate : NormalizedObservationInput
candidate = record {
  observation = record {
    schema_version = 1;
    observation_id = codes "observation:piteka:export:a:revision:1";
    source_id = codes "feed";
    source_event_id = codes "export:a:revision:1";
    source_event_type = codes "piteka_evidence_export";
    subject_refs = codes "mandate:mandate:1" ∷ codes "receipt:receipt:1" ∷ [];
    asserted_event_time = some 100;
    observed_at = 101;
    normalized_profile_id = deployment_attestation_profile_id;
    normalized_profile_version = 1;
    normalized_payload_digest = replicate 32 7;
    raw_payload_digest = some (replicate 32 7);
    authenticity_material_refs = codes "piteka-feed-signature:export:a:revision:1" ∷ [];
    collection_run_id = codes "run:1";
    supersedes = none;
    retraction_status = active;
    tenant_visibility = tenant (codes "acme");
  };
  raw_payload = some (record {
    schema_version = 1;
    payload_id = codes "piteka-raw:07";
    digest_algorithm = codes "sha-256";
    payload_digest = replicate 32 7;
    media_type = codes "application/vnd.diewan.piteka-evidence-export+json";
    byte_length = 1;
    custody_locator = none;
    retention_class_id = codes "standard";
  });
  deployment_profile = some (record {
    schema_version = 1;
    receipt_id = codes "receipt:1";
    mandate_id = codes "mandate:1";
    intent_id = codes "intent:1";
    attempt_id = codes "attempt:1";
    status_history = observed (
        record {
          status = codes "succeeded";
          asserted_at = 100;
          evidence_refs = codes "node:1" ∷ [];
        }
        ∷ []);
    workflow_identity =
        missing (codes "workflow identity was not disclosed by the source export" ∷ []);
    artifact_attestation =
        missing (codes "artifact attestation was not disclosed by the source export" ∷ []);
  });
}
