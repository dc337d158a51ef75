-- ===== src/Piteka/Feed/Authentic.antt =====
-- indexer/src/piteka_feed.rs: which events `authenticate` accepts.
use tuppira.Base.{
  ℕ, List, some, Bool, true, false, ◌||◌, ok, >>=-eq-ok, ok_or, ok_or_iff, text_eq, not,
  if◌then◌else◌, not-text_eq_iff, ◌≡◌, ◌↔◌, refl, ap, arith, text_eq_iff, Text,
}
use tuppira.Observation.Records.{ProviderSignatureRecord}
use tuppira.Connector.Contract.{
  invalid_field, ConnectorResult, RawSourceEvent, SourceAuthentication, authenticated, rejected,
}
use tuppira.Piteka.Export.{SignedPitekaExport, signing_bytes, event_id}
use tuppira.Piteka.Externals.{Externals}
use tuppira.Piteka.Feed.{
  PitekaFeedConfig, PitekaEvidenceFeedConnector, decode, signature_material, verify_export,
  mismatched, authenticate,
}

all_hold : (a b c : Bool) → (not a || not b || not c) ≡ false → (a ≡ true) × (b ≡ true) × (c ≡ true)
all_hold a b c h = ground arith

signed_only :
    (b : Bool) {answer : SourceAuthentication} (reason : Text)
    {material : List ProviderSignatureRecord}
    → ◌≡◌ {A = ConnectorResult SourceAuthentication}
        (ok (if b then answer else rejected reason))
        (ok (authenticated material))
    → (b ≡ true) × (answer ≡ authenticated material)
signed_only true reason h = (refl, cc (h))
signed_only false reason h = cc (h)

matched_only :
    (b : Bool) {answer : ConnectorResult SourceAuthentication} (reason : Text)
    {material : List ProviderSignatureRecord}
    → (if b then ok (rejected reason) else answer) ≡ ok (authenticated material)
    → (b ≡ false) × (answer ≡ ok (authenticated material))
matched_only true reason h = cc (h)
matched_only false reason h = (refl, h)

module _ (X : Externals) where
  open X use {Signature, signature_from_slice, verify, sha256, export_from_slice}

  -- The signature of the export holds, under the connector's key, over its signed bytes.
  pub record IsSigned (c : PitekaEvidenceFeedConnector X) (e : SignedPitekaExport) : Type 0 where
    pub message : List ℕ
    pub signed_bytes : signing_bytes sha256 e ≡ ok message
    pub mark : Signature
    pub decoded : signature_from_slice e.signature ≡ some mark
    pub holds : verify c.verifying_key message mark ≡ true

  -- The bytes of the event are an export of the connector's tenant and key, the event id is the
  -- export's, the signature holds, and the material is that of the export.
  pub record IsGenuine (c : PitekaEvidenceFeedConnector X) (raw : RawSourceEvent)
      (material : List ProviderSignatureRecord) : Type 0 where
    pub envelope : SignedPitekaExport
    pub parsed : export_from_slice raw.bytes ≡ some envelope
    pub owner : envelope.tenant_id ≡ c.config.tenant_id
    pub key : envelope.signing_key_id ≡ c.config.signing_key_id
    pub event : raw.source_event_id ≡ event_id envelope
    pub is_signed : IsSigned c envelope
    pub same : signature_material X envelope ≡ authenticated material

  mismatched_iff :
      (config : PitekaFeedConfig) (raw : RawSourceEvent) (e : SignedPitekaExport)
      → (mismatched X config raw e ≡ false) ↔ (
          (e.tenant_id ≡ config.tenant_id)
          × (e.signing_key_id ≡ config.signing_key_id)
          × (raw.source_event_id ≡ event_id e))
  unfolding mismatched
  mismatched_iff config raw e = (
    λ h.
        let (owner, key, event) =
          all_hold (text_eq e.tenant_id config.tenant_id)
            (text_eq e.signing_key_id config.signing_key_id)
            (text_eq raw.source_event_id (event_id e)) h in
        ((text_eq_iff _ _).0 owner, (text_eq_iff _ _).0 key, (text_eq_iff _ _).0 event),
    λ v. rw ((not-text_eq_iff _ _).1 v.0, (not-text_eq_iff _ _).1 v.1, (not-text_eq_iff _ _).1 v.2),
  )

  verify_export_iff :
      (c : PitekaEvidenceFeedConnector X) (e : SignedPitekaExport)
      (material : List ProviderSignatureRecord)
      → (verify_export X c e ≡ ok (authenticated material))
        ↔ (IsSigned c e × (signature_material X e ≡ authenticated material))
  unfolding verify_export
  verify_export_iff c e material = (
    λ h.
        let (message, laid, h₁) = >>=-eq-ok (signing_bytes sha256 e) _ h in
        let (mark, decoded, h₂) =
          >>=-eq-ok
            (ok_or (signature_from_slice e.signature) (invalid_field "piteka_feed.signature")) _
            h₁ in
        let (holds, same) = signed_only (verify c.verifying_key message mark) _ h₂ in
        (
          record {
            message = message;
            signed_bytes = laid;
            mark = mark;
            decoded = (ok_or_iff _ _).0 decoded;
            holds = holds;
          },
          same,
        ),
    λ v. rw ((v.0).signed_bytes, (v.0).decoded, (v.0).holds) (ap ok v.1),
  )

  -- `authenticate` accepts an event exactly when its bytes are an export of the configured tenant
  -- and key whose id is the event's and whose signature holds over the signed bytes; the material
  -- is then that of the export.
  pub authenticate_iff :
      (c : PitekaEvidenceFeedConnector X) (raw : RawSourceEvent)
      (material : List ProviderSignatureRecord)
      → (authenticate X c raw ≡ ok (authenticated material)) ↔ IsGenuine c raw material
  unfolding authenticate decode
  authenticate_iff c raw material = (
    λ h.
        let (e, parsed, h₁) = >>=-eq-ok (decode X raw) _ h in
        let (matched, h₂) = matched_only (mismatched X c.config raw e) _ h₁ in
        let (owner, key, event) = (mismatched_iff c.config raw e).0 matched in
        let (is_signed, same) = (verify_export_iff c e material).0 h₂ in
        record {
          envelope = e;
          parsed = (ok_or_iff _ _).0 parsed;
          owner = owner;
          key = key;
          event = event;
          is_signed = is_signed;
          same = same;
        },
    λ v.
        rw (v.parsed, (mismatched_iff c.config raw v.envelope).1 (v.owner, v.key, v.event))
          ((verify_export_iff c v.envelope material).1 (v.is_signed, v.same)),
  )
