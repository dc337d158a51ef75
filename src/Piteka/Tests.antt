-- ===== src/Piteka/Tests.antt =====
-- Runs of the connector of indexer/src/piteka_feed.rs on the feed of Fixtures.
use tuppira.Base.{
  ℕ, ◌++◌, codes, List, [], ◌∷◌, some, ok, ◌≡◌, ◌↔◌, refl, replicate, is_blank, is_whitespace,
  has_char, byte_len, char_len, text_eq, contains, has_control, is_control, arith,
}
use tuppira.Base.Utf8.{as_bytes, encode_char}
use tuppira.Base.Words.{to_be_bytes, from_be_bytes, saturating_add}
use tuppira.Base.Decimal.{decimal}
use tuppira.Connector.Contract.{RawSourceBatch, authenticated}
use tuppira.Piteka.Fixtures.{raw, material, candidate, envelope, externals, feed}
use tuppira.Piteka.Export.{signing_bytes, event_id, observation_id, encode_cursor, decode_cursor}
use tuppira.Piteka.Export.Ids.{decode_cursor-encode_cursor}
use tuppira.Piteka.Export.Signing.{IsTyped, SameSigned, signing_bytes_injective}
use tuppira.Piteka.Manifest.{
  validate_node, validate_gap, validate_anchor, validate_manifest, decode_sha256, read_attestation,
  missing_reasons, deployment_profile,
}
use tuppira.Piteka.Feed.{
  connector, discover, authenticate, raw_event, signature_material, decode, mismatched,
  verify_export, read_exports, normalize,
}
use tuppira.Piteka.Feed.Authentic.{IsGenuine, authenticate_iff}
use tuppira.Piteka.Feed.Discovery.{IsDiscovered, discover-IsDiscovered}
use tuppira.Piteka.Feed.Candidate.{IsCandidate, authenticate_and_normalize-IsCandidate}
use tuppira.Connector.Checks.{
  validate_limit, validate_id, validate_cursor, validate_owner, validate_event, validate_events,
  validate_batch,
}
use tuppira.Connector.Sound.{IsName}
use tuppira.Observation.Validate.{
  validate, validate_version, validate_digest, validate_each_ref, validate_refs, names,
  validate_raw_digest, validate_supersedes, validate_visibility, validate_profile,
  validate_status_history, validate_each_status, validate_reasons, validate_workflow,
  validate_artifact,
}
use tuppira.Observation.Validate
use tuppira.Connector.Gate.{
  require_authenticated, check_profile, visibility_eq, collect_refs, same_set,
  authenticate_and_normalize,
}
use tuppira.Piteka.Export.{
  check_export, layout_bytes, put_text, put_supersedes, check_supersedes, validate_text, auth_id,
}

typed : IsTyped envelope
typed = record {
  version = omega arith;
  sequence = omega arith;
  revision = omega arith;
  emitted = omega arith;
  payload = omega arith;
  digest = refl;
}

feed_name : IsName (codes "feed")
unfolding byte_len char_len is_control
feed_name = record {
  some_char = omega arith;
  short = omega arith;
  printable = (refl, (refl, (refl, (refl, tt))));
}

decode_cursor-encode_cursor_example :
    decode_cursor (some (encode_cursor (codes "feed") 300)) (codes "feed") ≡ ok 300
decode_cursor-encode_cursor_example =
    decode_cursor-encode_cursor (codes "feed") 300 feed_name (omega arith)

abbrev signed_message : List ℕ
signed_message =
    codes "diewan.piteka.evidence-feed.v1"
    ++ (0 ∷ 0 ∷ 1 ∷ 0 ∷ 0 ∷ 0 ∷ 0 ∷ 0 ∷ 0 ∷ 0 ∷ 4 ∷ 0 ∷ 0 ∷ 0 ∷ 8 ∷ [])
    ++ codes "export:a"
    ++ (0 ∷ 0 ∷ 0 ∷ 1 ∷ 0 ∷ 0 ∷ 0 ∷ 0 ∷ 4 ∷ [])
    ++ codes "acme"
    ++ (0 ∷ 0 ∷ 0 ∷ 0 ∷ 0 ∷ 0 ∷ 0 ∷ 101 ∷ [])
    ++ replicate 32 7
    ++ (0 ∷ 0 ∷ 0 ∷ 0 ∷ 0 ∷ 0 ∷ 0 ∷ 2 ∷ 5 ∷ 6 ∷ [])

signs : signing_bytes externals.sha256 envelope ≡ ok signed_message
unfolding signing_bytes check_export layout_bytes put_text put_supersedes check_supersedes
    validate_text text_eq byte_len char_len has_control is_control to_be_bytes as_bytes encode_char
signs = refl

signing_bytes_injective_example : SameSigned envelope envelope
signing_bytes_injective_example =
    signing_bytes_injective externals.sha256 envelope envelope typed typed signs signs

authentic : authenticate externals feed raw ≡ ok (authenticated (material ∷ []))
unfolding authenticate decode mismatched verify_export signature_material event_id auth_id decimal
    signing_bytes check_export layout_bytes put_text put_supersedes check_supersedes validate_text
    text_eq byte_len char_len has_control is_control to_be_bytes as_bytes encode_char
authentic = refl

authenticate_iff_example :
    (authenticate externals feed raw ≡ ok (authenticated (material ∷ [])))
    ↔ IsGenuine externals feed raw (material ∷ [])
authenticate_iff_example = authenticate_iff externals feed raw (material ∷ [])

abbrev batch : RawSourceBatch
batch = record {
  source_id = codes "feed";
  events = raw ∷ [];
  proposed_cursor = record {
    source_id = codes "feed";
    cursor_version = 1;
    bytes = 0 ∷ 0 ∷ 0 ∷ 0 ∷ 0 ∷ 0 ∷ 0 ∷ 4 ∷ [];
  };
}

discovers : discover externals feed (some (encode_cursor (codes "feed") 3)) 10 ≡ ok batch
unfolding discover read_exports raw_event event_id decimal decode_cursor encode_cursor to_be_bytes
    from_be_bytes saturating_add text_eq byte_len char_len has_control is_control contains
    validate_batch validate_limit validate_id validate_cursor validate_events validate_event
    validate_owner
discovers = refl

discover-IsDiscovered_example : IsDiscovered externals feed 3 10 batch
discover-IsDiscovered_example =
    discover-IsDiscovered externals feed (some (encode_cursor (codes "feed") 3)) 3 10 batch
      (decode_cursor-encode_cursor (codes "feed") 3 feed_name (omega arith)) (omega arith) discovers

normalizes : normalize externals feed raw 1 ≡ ok candidate
unfolding normalize decode signing_bytes check_export layout_bytes put_text put_supersedes
    check_supersedes validate_text text_eq byte_len char_len has_control is_control to_be_bytes
    as_bytes encode_char observation_id auth_id decimal validate_manifest validate_node validate_gap
    validate_anchor decode_sha256 deployment_profile read_attestation missing_reasons
normalizes = refl

passes : authenticate_and_normalize (connector externals feed) raw 1 ≡ ok candidate
unfolding authenticate_and_normalize connector validate_event validate_id validate_owner byte_len
    char_len has_control is_control text_eq contains require_authenticated check_profile
    visibility_eq collect_refs same_set validate validate_version Validate.validate_id
    validate_digest validate_each_ref validate_refs names validate_raw_digest validate_supersedes
    validate_visibility is_blank is_whitespace has_char validate_profile validate_status_history
    validate_each_status validate_reasons validate_workflow validate_artifact
passes = rw (authentic, normalizes)

authenticate_and_normalize-IsCandidate_example : IsCandidate externals feed raw candidate
authenticate_and_normalize-IsCandidate_example =
    authenticate_and_normalize-IsCandidate externals feed raw 1 candidate passes
