-- ===== src/Piteka/Feed/Corrections.antt =====
-- The corrections of indexer/src/piteka_feed.rs in the store of
-- storage/src/repositories/observations.rs.
use tuppira.Base.{
  ℕ, Text, List, Option, none, some, ◌||◌, ok, >>_iff, refuse_if, refuse_if_iff, ◌==◌, text_eq,
  text_eq_iff, not, All, ◌≡◌, ◌≢◌, sym, ap, ◌∙◌, subst, arith,
}
use mathlib.Core.Option
use tuppira.Observation.Records.{Digest, ObservationRecord, SyncCursorRecord}
use tuppira.Connector.Contract.{RawSourceEvent, NormalizedObservationInput}
use tuppira.Piteka.Export.{
  SignedPitekaExport, feed_schema_version, validate_text, check_supersedes, check_export,
  signing_bytes, event_id, observation_id, prior_observation_id,
}
use tuppira.Piteka.Export.Ids.{event_id_injective, prior_observation_id_iff}
use tuppira.Piteka.Externals.{Externals}
use tuppira.Piteka.Feed.{PitekaEvidenceFeedConnector}
use tuppira.Piteka.Feed.Candidate.{IsCandidate}
use tuppira.Store.Schema.{Store}
use tuppira.Store.Repository.{append_observation}
use tuppira.Store.Rows.{Somewhere-All, Somewhere-absurd}
use tuppira.Store.Append.{SameEvent, IsLinked, append_observation-Appended}

-- The row has the identifiers of some export.
pub record IsExported (p : ObservationRecord) : Type 0 where
  pub envelope : SignedPitekaExport
  pub id : p.observation_id ≡ observation_id envelope
  pub event : p.source_event_id ≡ event_id envelope

prior_of : {a b : Text} → ◌≡◌ {A = Option Text} (some a) (some b) → a ≡ b
prior_of h = cc (h)

apart :
    (e : SignedPitekaExport) (supersedes : Option Text) (prior : Text)
    → supersedes ≡ some prior
    → check_supersedes supersedes e.export_id ≡ ok tt
    → prior ≢ e.export_id
unfolding check_supersedes
apart e none prior named h same = cc (named)
apart e (some p) prior named h same =
    let (_, other) = (>>_iff (validate_text p "piteka_feed.supersedes_export_id") _).0 h in
    let equal : p ≡ e.export_id = prior_of named ∙ same in
    ground (
      arith,
      (refuse_if_iff (text_eq p e.export_id) _).0 other,
      (text_eq_iff p e.export_id).1 equal,
    )

signing_bytes-apart :
    (sha256 : List ℕ → Digest) (e : SignedPitekaExport) (message : List ℕ) (prior : Text)
    → signing_bytes sha256 e ≡ ok message
    → e.supersedes_export_id ≡ some prior
    → prior ≢ e.export_id
unfolding signing_bytes check_export
signing_bytes-apart sha256 e message prior h named =
    let (checked, _) = (>>_iff (check_export (sha256 e.payload) e) _).0 h in
    let (_, h₁) =
      (>>_iff (refuse_if (not (e.schema_version == feed_schema_version)) _) _).0 checked in
    let (_, h₂) =
      (>>_iff (refuse_if (e.sequence == 0 || e.revision == 0 || e.emitted_at == 0) _) _).0 h₁ in
    let (_, h₃) = (>>_iff (validate_text e.export_id _) _).0 h₂ in
    let (_, h₄) = (>>_iff (validate_text e.tenant_id _) _).0 h₃ in
    let (_, h₅) = (>>_iff (validate_text e.signing_key_id _) _).0 h₄ in
    apart e e.supersedes_export_id prior named
      ((>>_iff (check_supersedes e.supersedes_export_id e.export_id) _).0 h₅).0

module _ (X : Externals) where
  -- A store whose rows have the identifiers of exports refuses every correction of the feed: an
  -- export that supersedes another one passes the gate and is never stored.
  pub append_observation-superseding :
      (c : PitekaEvidenceFeedConnector X) (raw : RawSourceEvent) (x : NormalizedObservationInput)
      (candidate : IsCandidate X c raw x) (prior : Text) (s : Store) (d : SyncCursorRecord)
      (t : Store)
      → candidate.envelope.supersedes_export_id ≡ some prior
      → All IsExported s.observations
      → append_observation s x.observation d ≢ ok t
  append_observation-superseding c raw x candidate prior s d t named exported h =
      let e = candidate.envelope in
      let appended = append_observation-Appended s x.observation d t h in
      let lineage = candidate.derived.lineage ∙ ap (λ o. Option.map prior_observation_id o) named in
      let linked = subst (λ o. IsLinked s.observations x.observation o) lineage appended.linked in
      let different =
        signing_bytes-apart X.sha256 e candidate.is_signed.message prior
          candidate.is_signed.signed_bytes named in
      Somewhere-absurd s.observations (
        Somewhere-All
          (λ p. (p.observation_id ≡ prior_observation_id prior) × SameEvent p x.observation)
          IsExported (λ p. ⊥) s.observations
          (λ p found row.
            let named_prior =
              ((prior_observation_id_iff prior row.envelope).0 (sym found.0 ∙ row.id)).0 in
            let same_export =
              (event_id_injective row.envelope e
                (sym row.event ∙ ((found.1).1 ∙ candidate.event))).0 in
            different (named_prior ∙ same_export))
          exported linked)
