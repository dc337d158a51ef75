-- ===== src/Piteka/Feed/Candidate.antt =====
-- indexer/src/piteka_feed.rs: the observations that the Piteka connector gets through the gate of
-- indexer/src/connector.rs.
use tuppira.Base.{
  ℕ, [], ◌∷◌, Option, some, ◌||◌, ok, >>=-eq-ok, >>_iff, refuse_if, refuse_if_iff, ok_or, ok_or_iff,
  ◌==◌, is_empty, text_eq, not, not-text_eq_iff, or-eq-false_iff, ◌≡◌, refl, sym, ◌∙◌, subst,
}
use mathlib.Core.Option
use tuppira.Observation.Records.{deployment_attestation_profile_id}
use tuppira.Observation.Sound.{IsValid}
use tuppira.Connector.Contract.{
  unsupported_profile, invalid_field, ConnectorResult, RawSourceEvent, NormalizedObservationInput,
}
use tuppira.Connector.Gate.{authenticate_and_normalize}
use tuppira.Connector.Gated.{authenticate_and_normalize-Gated}
use tuppira.Observation.Records.{Digest}
use tuppira.Piteka.Export.{
  SignedPitekaExport, feed_schema_version, validate_text, check_supersedes, check_export,
  signing_bytes, event_id, observation_id, prior_observation_id, auth_id,
}
use tuppira.Piteka.Manifest.{validate_manifest, deployment_profile}
use tuppira.Piteka.Externals.{Externals}
use tuppira.Piteka.Feed.{PitekaEvidenceFeedConnector, decode, normalize, connector}
use tuppira.Piteka.Feed.Authentic.{IsSigned, authenticate_iff}

check_export-digest :
    (digest : Digest) (e : SignedPitekaExport)
    → check_export digest e ≡ ok tt
    → digest ≡ e.payload_sha256
unfolding check_export
check_export-digest digest e h =
    let (_, h₁) = (>>_iff (refuse_if (not (e.schema_version == feed_schema_version)) _) _).0 h in
    let (_, h₂) =
      (>>_iff (refuse_if (e.sequence == 0 || e.revision == 0 || e.emitted_at == 0) _) _).0 h₁ in
    let (_, h₃) = (>>_iff (validate_text e.export_id _) _).0 h₂ in
    let (_, h₄) = (>>_iff (validate_text e.tenant_id _) _).0 h₃ in
    let (_, h₅) = (>>_iff (validate_text e.signing_key_id _) _).0 h₄ in
    let (_, h₆) = (>>_iff (check_supersedes e.supersedes_export_id e.export_id) _).0 h₅ in
    (not-text_eq_iff _ _).0 (
      ((or-eq-false_iff (is_empty e.payload) (not (text_eq digest e.payload_sha256))).0
        ((refuse_if_iff _ _).0 h₆)).1)

candidate_of :
    {x y : NormalizedObservationInput}
    → ◌≡◌ {A = ConnectorResult NormalizedObservationInput} (ok x) (ok y)
    → x ≡ y
candidate_of h = cc (h)

export_of :
    {o : Option SignedPitekaExport} {d e : SignedPitekaExport} → o ≡ some d → o ≡ some e → d ≡ e
export_of h k = cc (h, k)

module _ (X : Externals) where
  open X use {sha256, hex_decode, export_from_slice, manifest_from_slice}

  -- The candidate says of the export what the export says.
  pub record IsDerived (raw : RawSourceEvent) (e : SignedPitekaExport)
      (x : NormalizedObservationInput) : Type 0 where
    pub id : x.observation.observation_id ≡ observation_id e
    pub content : x.observation.normalized_payload_digest ≡ sha256 e.payload
    pub exact_bytes : x.observation.raw_payload_digest ≡ some (sha256 raw.bytes)
    pub lineage : x.observation.supersedes ≡ Option.map prior_observation_id e.supersedes_export_id
    pub material : x.observation.authenticity_material_refs ≡ auth_id e ∷ []

  normalize-IsDerived :
      (c : PitekaEvidenceFeedConnector X) (raw : RawSourceEvent) (version : ℕ)
      (e : SignedPitekaExport) (x : NormalizedObservationInput)
      → export_from_slice raw.bytes ≡ some e
      → normalize X c raw version ≡ ok x
      → IsDerived raw e x
  unfolding normalize decode signing_bytes
  normalize-IsDerived c raw version e x parsed h =
      let (_, h₁) =
        (>>_iff
            (refuse_if (not (version == 1))
              (unsupported_profile deployment_attestation_profile_id version))
            _).0
          h in
      let (d, decoded, h₂) = >>=-eq-ok (decode X raw) _ h₁ in
      let (message, signed, h₃) = >>=-eq-ok (signing_bytes sha256 d) _ h₂ in
      let (manifest, read, h₄) =
        >>=-eq-ok (ok_or (manifest_from_slice d.payload) (invalid_field "piteka_feed.payload")) _
          h₃ in
      let (_, h₅) = (>>_iff (validate_manifest hex_decode manifest) _).0 h₄ in
      let (profile, projected, h₆) = >>=-eq-ok (deployment_profile hex_decode manifest) _ h₅ in
      let content =
        check_export-digest (sha256 d.payload) d
          ((>>_iff (check_export (sha256 d.payload) d) _).0 signed).0 in
      subst (λ k. IsDerived raw k x) (export_of ((ok_or_iff _ _).0 decoded) parsed)
        (subst (IsDerived raw d) (candidate_of h₆) (record {
          id = refl;
          content = sym content;
          exact_bytes = refl;
          lineage = refl;
          material = refl;
        }))

  -- What the gate has made of a raw event of the feed.
  pub record IsCandidate (c : PitekaEvidenceFeedConnector X) (raw : RawSourceEvent)
      (x : NormalizedObservationInput) : Type 0 where
    pub envelope : SignedPitekaExport
    pub parsed : export_from_slice raw.bytes ≡ some envelope
    pub owner : envelope.tenant_id ≡ c.config.tenant_id
    pub is_signed : IsSigned X c envelope
    pub event : x.observation.source_event_id ≡ event_id envelope
    pub derived : IsDerived raw envelope x
    pub valid : IsValid x.observation

  -- Whatever the gate lets through for the Piteka connector comes from one export: of the
  -- configured tenant, signed with the connector's key, and with that export's identifiers, the
  -- digest of its very payload, the digest of the very bytes received, and its lineage.
  pub authenticate_and_normalize-IsCandidate :
      (c : PitekaEvidenceFeedConnector X) (raw : RawSourceEvent) (version : ℕ)
      (x : NormalizedObservationInput)
      → authenticate_and_normalize (connector X c) raw version ≡ ok x
      → IsCandidate c raw x
  unfolding connector
  authenticate_and_normalize-IsCandidate c raw version x h =
      let gated = authenticate_and_normalize-Gated (connector X c) raw version x h in
      let genuine = (authenticate_iff X c raw gated.material).0 gated.answer in
      record {
        envelope = genuine.envelope;
        parsed = genuine.parsed;
        owner = genuine.owner;
        is_signed = genuine.is_signed;
        event = gated.source_event ∙ genuine.event;
        derived =
            normalize-IsDerived c raw version genuine.envelope x genuine.parsed gated.normalized;
        valid = gated.observation;
      }
