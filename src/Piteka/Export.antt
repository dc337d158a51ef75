-- ===== src/Piteka/Export.antt =====
-- indexer/src/piteka_feed.rs: `SignedPitekaExport`, the bytes that its signature covers, the
-- identifiers derived from it, and the cursor of the feed.
pub mod Ids
pub mod Signing
use tuppira.Base.{
  ℕ, ◌^◌, Text, String, codes, List, [], ◌∷◌, ◌++◌, Option, none, some, ◌||◌, Result, ok, err,
  ◌>>=◌, ◌>>◌, refuse_if, ltb, leb, ◌==◌, length, is_empty, byte_len, has_control, text_eq, not,
}
use tuppira.Base.Utf8.{as_bytes}
use tuppira.Base.Words.{to_be_bytes, from_be_bytes}
use tuppira.Base.Decimal.{decimal}
use tuppira.Observation.Records.{Digest}
use tuppira.Connector.Contract.{
  unsupported_contract_version, invalid_field, bound_exceeded, ConnectorResult, ConnectorCursor,
}
use tuppira.Connector.Checks.{Check, validate_cursor}

abbrev pub feed_schema_version : ℕ
feed_schema_version = 1

-- b"diewan.piteka.evidence-feed.v1\0"
abbrev pub signature_domain : List ℕ
signature_domain = codes "diewan.piteka.evidence-feed.v1" ++ 0 ∷ []

pub record SignedPitekaExport : Type 0 where
  pub schema_version : ℕ
  pub sequence : ℕ
  pub export_id : Text
  pub revision : ℕ
  pub supersedes_export_id : Option Text
  pub tenant_id : Text
  pub emitted_at : ℕ
  pub payload : List ℕ
  pub payload_sha256 : Digest
  pub signing_key_id : Text
  pub signature : List ℕ

unfoldable pub validate_text : Text → String → Check
validate_text value field =
    refuse_if (is_empty value || ltb 512 (byte_len value) || has_control value)
      (invalid_field field)

-- A text behind its length, which must fit 32 bits.
unfoldable pub put_text : List ℕ → Text → ConnectorResult (List ℕ)
put_text out value = do
  refuse_if (leb (2 ^ 32) (byte_len value)) (bound_exceeded "piteka_feed.signing_field")
  ok (out ++ (to_be_bytes 4 (byte_len value) ++ as_bytes value))

unfoldable pub put_supersedes : List ℕ → Option Text → ConnectorResult (List ℕ)
put_supersedes out none = ok (out ++ 0 ∷ [])
put_supersedes out (some value) = put_text (out ++ 1 ∷ []) value

unfoldable pub check_supersedes : Option Text → Text → Check
check_supersedes none export_id = ok tt
check_supersedes (some prior) export_id = do
  validate_text prior "piteka_feed.supersedes_export_id"
  refuse_if (text_eq prior export_id) (invalid_field "piteka_feed.self_supersession")

-- The guards of `signing_bytes`; `digest` is the SHA-256 of the payload.
unfoldable pub check_export : Digest → SignedPitekaExport → Check
check_export digest e = do
  refuse_if (not (e.schema_version == feed_schema_version))
      (unsupported_contract_version e.schema_version)
  refuse_if (e.sequence == 0 || e.revision == 0 || e.emitted_at == 0)
      (invalid_field "piteka_feed.ordering")
  validate_text e.export_id "piteka_feed.export_id"
  validate_text e.tenant_id "piteka_feed.tenant_id"
  validate_text e.signing_key_id "piteka_feed.signing_key_id"
  check_supersedes e.supersedes_export_id e.export_id
  refuse_if (is_empty e.payload || not (text_eq digest e.payload_sha256))
      (invalid_field "piteka_feed.payload_digest")

-- The layout of the signed bytes.
unfoldable pub layout_bytes : SignedPitekaExport → ConnectorResult (List ℕ)
layout_bytes e = do
  identified ←
      put_text ((signature_domain ++ to_be_bytes 2 e.schema_version) ++ to_be_bytes 8 e.sequence)
        e.export_id
  linked ← put_supersedes (identified ++ to_be_bytes 4 e.revision) e.supersedes_export_id
  owned ← put_text linked e.tenant_id
  ok (
      (((owned ++ to_be_bytes 8 e.emitted_at) ++ e.payload_sha256)
        ++ to_be_bytes 8 (length e.payload))
      ++ e.payload)

unfoldable pub signing_bytes : (List ℕ → Digest) → SignedPitekaExport → ConnectorResult (List ℕ)
signing_bytes sha256 e = do check_export (sha256 e.payload) e; layout_bytes e

unfoldable pub event_id : SignedPitekaExport → Text
event_id e = e.export_id ++ (codes ":revision:" ++ decimal e.revision)

unfoldable pub observation_id : SignedPitekaExport → Text
observation_id e =
    codes "observation:piteka:" ++ (e.export_id ++ (codes ":revision:" ++ decimal e.revision))

unfoldable pub prior_observation_id : Text → Text
prior_observation_id export_id = codes "observation:piteka:" ++ (export_id ++ codes ":revision:1")

unfoldable pub auth_id : SignedPitekaExport → Text
auth_id e =
    codes "piteka-feed-signature:" ++ (e.export_id ++ (codes ":revision:" ++ decimal e.revision))

unfoldable pub encode_cursor : Text → ℕ → ConnectorCursor
encode_cursor source_id sequence = record {
  source_id = source_id;
  cursor_version = 1;
  bytes = to_be_bytes 8 sequence;
}

unfoldable pub decode_cursor : Option ConnectorCursor → Text → ConnectorResult ℕ
decode_cursor none source_id = ok 0
decode_cursor (some c) source_id = do
  validate_cursor c
  refuse_if
      (not (text_eq c.source_id source_id)
        || not (c.cursor_version == 1)
        || not (length c.bytes == 8))
      (invalid_field "piteka_feed.cursor")
  ok (from_be_bytes c.bytes)
