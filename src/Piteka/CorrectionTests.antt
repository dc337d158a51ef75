-- ===== src/Piteka/CorrectionTests.antt =====
-- A correction that indexer/src/piteka_feed.rs lets through and storage/src/repositories/observations.rs
-- refuses.
use tuppira.Base.{
  Option, sym, ap, All, ◌≢◌, codes, [], ◌∷◌, some, ok, ◌≡◌, refl, is_blank, is_whitespace, has_char,
  byte_len, char_len, text_eq, contains, has_control, is_control,
}
use tuppira.Base.Utf8.{as_bytes, encode_char}
use tuppira.Base.Words.{to_be_bytes}
use tuppira.Base.Decimal.{decimal}
use tuppira.Connector.Contract.{RawSourceEvent, authenticated, NormalizedObservationInput}
use tuppira.Piteka.Fixtures.{raw, material, candidate, envelope, correction, externals, feed}
use tuppira.Piteka.Export.{
  SignedPitekaExport, signing_bytes, event_id, observation_id, prior_observation_id,
}
use tuppira.Piteka.Manifest.{
  validate_node, validate_gap, validate_anchor, validate_manifest, decode_sha256, read_attestation,
  missing_reasons, deployment_profile,
}
use tuppira.Piteka.Feed.{
  connector, authenticate, signature_material, decode, mismatched, verify_export, normalize,
}
use tuppira.Piteka.Feed.Corrections.{IsExported, append_observation-superseding}
use tuppira.Store.Schema.{Store, empty_store, row_of}
use tuppira.Store.Repository.{append_observation}
use tuppira.Piteka.Feed.Candidate.{IsCandidate, authenticate_and_normalize-IsCandidate}
use tuppira.Connector.Checks.{validate_id, validate_owner, validate_event}
use tuppira.Observation.Records.{SyncCursorRecord}
use tuppira.Observation.Validate.{
  validate, validate_version, validate_digest, validate_each_ref, validate_refs, names,
  validate_raw_digest, validate_supersedes, validate_visibility, validate_profile,
  validate_status_history, validate_each_status, validate_reasons, validate_workflow,
  validate_artifact,
}
use tuppira.Observation.Validate
use tuppira.Connector.Gate.{
  require_authenticated, check_profile, visibility_eq, collect_refs, same_set,
  authenticate_and_normalize,
}
use tuppira.Piteka.Export.{
  check_export, layout_bytes, put_text, put_supersedes, check_supersedes, validate_text, auth_id,
}

abbrev correcting : RawSourceEvent
correcting = record raw { source_event_id = codes "export:b:revision:1"; bytes = 5 ∷ [] }

abbrev corrected : NormalizedObservationInput
corrected = record candidate {
  observation = record (candidate.observation) {
    observation_id = codes "observation:piteka:export:b:revision:1";
    source_event_id = codes "export:b:revision:1";
    authenticity_material_refs = codes "piteka-feed-signature:export:b:revision:1" ∷ [];
    supersedes = some (codes "observation:piteka:export:a:revision:1");
  };
}

correction_authentic :
    authenticate externals feed correcting
    ≡ ok (
        authenticated (
          record material {
            authenticity_material_id = codes "piteka-feed-signature:export:b:revision:1";
          }
          ∷ []))
unfolding authenticate decode mismatched verify_export signature_material event_id auth_id decimal
    signing_bytes check_export layout_bytes put_text put_supersedes check_supersedes validate_text
    text_eq byte_len char_len has_control is_control to_be_bytes as_bytes encode_char
correction_authentic = refl

correction_normalizes : normalize externals feed correcting 1 ≡ ok corrected
unfolding normalize decode signing_bytes check_export layout_bytes put_text put_supersedes
    check_supersedes validate_text text_eq byte_len char_len has_control is_control to_be_bytes
    as_bytes encode_char observation_id auth_id decimal validate_manifest validate_node validate_gap
    validate_anchor decode_sha256 deployment_profile read_attestation missing_reasons
    prior_observation_id
correction_normalizes = refl

correction_passes :
    authenticate_and_normalize (connector externals feed) correcting 1 ≡ ok corrected
unfolding authenticate_and_normalize connector validate_event validate_id validate_owner byte_len
    char_len has_control is_control text_eq contains require_authenticated check_profile
    visibility_eq collect_refs same_set validate validate_version Validate.validate_id
    validate_digest validate_each_ref validate_refs names validate_raw_digest validate_supersedes
    validate_visibility is_blank is_whitespace has_char validate_profile validate_status_history
    validate_each_status validate_reasons validate_workflow validate_artifact
correction_passes = rw (correction_authentic, correction_normalizes)

-- A store with the observation of the first export.
abbrev stored : Store
stored = record empty_store { observations = row_of (candidate.observation) ∷ [] }

abbrev sync : SyncCursorRecord
sync = record {
  schema_version = 1;
  source_id = codes "feed";
  cursor_version = 1;
  cursor = 1 ∷ [];
  observed_at = 102;
}

stored-IsExported : All IsExported stored.observations
unfolding row_of observation_id event_id decimal
stored-IsExported = (record { envelope = envelope; id = refl; event = refl }, tt)

export_of :
    {d e : SignedPitekaExport} → ◌≡◌ {A = Option SignedPitekaExport} (some d) (some e) → d ≡ e
export_of h = cc (h)

correction_IsCandidate : IsCandidate externals feed correcting corrected
correction_IsCandidate =
    authenticate_and_normalize-IsCandidate externals feed correcting 1 corrected correction_passes

correction_named : (correction_IsCandidate.envelope).supersedes_export_id ≡ some (codes "export:a")
unfolding text_eq
correction_named =
    ap (λ (e : SignedPitekaExport). e.supersedes_export_id)
      (sym (export_of {d = correction} correction_IsCandidate.parsed))

append_observation-superseding_example :
    append_observation stored (corrected.observation) sync ≢ ok stored
append_observation-superseding_example =
    append_observation-superseding externals feed correcting corrected correction_IsCandidate
      (codes "export:a") stored sync stored correction_named stored-IsExported
