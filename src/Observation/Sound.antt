-- ===== src/Observation/Sound.antt =====
-- shared/src/observation.rs: the observations that `ObservationRecord::validate` is for, described
-- without its code.
use tuppira.Base.{
  ℕ, ◌<◌, Text, Option, none, some, ok, >>_iff, refuse_if, refuse_if_iff, text_eq_iff, ◌≡◌, ◌≢◌,
  ◌↔◌, refl, arith, ◌==◌, ◌||◌, false,
}
use tuppira.Observation.Records.{TenantVisibility, public, tenant, ObservationRecord, Digest}
use tuppira.Observation.Validate.{
  names, validate_raw_digest, validate_supersedes, validate_visibility, validate, validate_version,
  validate_id, validate_digest, validate_refs,
}
use tuppira.Observation.Parts.{
  IsId, IsRefs, IsDigest, OnSome, validate_version_iff, validate_id_iff, validate_digest_iff,
  validate_refs_iff,
}

abbrev pub OwnerIsId : TenantVisibility → Type 0
OwnerIsId public = Unit
OwnerIsId (tenant t) = IsId t

-- The constitution of an observation: identity, provenance, time, digests and lineage.
pub record IsValid (r : ObservationRecord) : Type 0 where
  pub version : r.schema_version ≡ 1
  pub observation : IsId r.observation_id
  pub source : IsId r.source_id
  pub event : IsId r.source_event_id
  pub event_type : IsId r.source_event_type
  pub profile : IsId r.normalized_profile_id
  pub run : IsId r.collection_run_id
  pub time : 0 < r.observed_at
  pub profile_version : 0 < r.normalized_profile_version
  pub payload : IsDigest r.normalized_payload_digest
  pub raw : OnSome IsDigest r.raw_payload_digest
  pub subjects : IsRefs r.subject_refs
  pub authenticity : IsRefs r.authenticity_material_refs
  pub lineage : OnSome (λ prior. IsId prior × (prior ≢ r.observation_id)) r.supersedes
  pub owner : OwnerIsId r.tenant_visibility

validate_raw_digest_iff : (o : Option Digest) → (validate_raw_digest o ≡ ok tt) ↔ OnSome IsDigest o
unfolding validate_raw_digest
validate_raw_digest_iff none = (λ h. tt, λ h. refl)
validate_raw_digest_iff (some d) = validate_digest_iff d "raw_payload_digest"

validate_visibility_iff : (v : TenantVisibility) → (validate_visibility v ≡ ok tt) ↔ OwnerIsId v
unfolding validate_visibility
validate_visibility_iff public = (λ h. tt, λ h. refl)
validate_visibility_iff (tenant t) = validate_id_iff t "tenant_id"

positive_iff : (a b : ℕ) → ((a == 0 || b == 0) ≡ false) ↔ ((0 < a) × (0 < b))
positive_iff a b = (λ h. (ground arith, ground arith), λ h. ground arith)

-- The two checks of the lineage: no observation supersedes itself, and the prior id is one.
lineage_iff :
    (o : Option Text) (id : Text)
    → ((names o id ≡ false) × (validate_supersedes o ≡ ok tt))
      ↔ OnSome (λ prior. IsId prior × (prior ≢ id)) o
unfolding names validate_supersedes
lineage_iff none id = (λ h. tt, λ h. (refl, refl))
lineage_iff (some prior) id = (
  λ h. (
    (validate_id_iff prior "supersedes").0 h.1,
    λ e. ground (arith, (text_eq_iff prior id).1 e, h.0),
  ),
  λ v. (ground (arith, text_eq_iff prior id, v.1), (validate_id_iff prior "supersedes").1 v.0),
)

-- An observation is accepted exactly when it keeps every rule of `IsValid`; nothing else is
-- looked at, and no rule is skipped.
pub validate_iff : (r : ObservationRecord) → (validate r ≡ ok tt) ↔ IsValid r
unfolding validate
validate_iff r = (
  λ h.
      let (version, h₁) = (>>_iff (validate_version r.schema_version) _).0 h in
      let (observation, h₂) = (>>_iff (validate_id r.observation_id _) _).0 h₁ in
      let (source, h₃) = (>>_iff (validate_id r.source_id _) _).0 h₂ in
      let (event, h₄) = (>>_iff (validate_id r.source_event_id _) _).0 h₃ in
      let (event_type, h₅) = (>>_iff (validate_id r.source_event_type _) _).0 h₄ in
      let (profile, h₆) = (>>_iff (validate_id r.normalized_profile_id _) _).0 h₅ in
      let (run, h₇) = (>>_iff (validate_id r.collection_run_id _) _).0 h₆ in
      let (times, h₈) =
        (>>_iff (refuse_if (r.observed_at == 0 || r.normalized_profile_version == 0) _) _).0 h₇ in
      let (payload, h₉) = (>>_iff (validate_digest r.normalized_payload_digest _) _).0 h₈ in
      let (raw, k₁) = (>>_iff (validate_raw_digest r.raw_payload_digest) _).0 h₉ in
      let (subjects, k₂) = (>>_iff (validate_refs r.subject_refs _) _).0 k₁ in
      let (authenticity, k₃) = (>>_iff (validate_refs r.authenticity_material_refs _) _).0 k₂ in
      let (other, k₄) = (>>_iff (refuse_if (names r.supersedes r.observation_id) _) _).0 k₃ in
      let (prior, owner) = (>>_iff (validate_supersedes r.supersedes) _).0 k₄ in
      let (time, profile_version) = (positive_iff _ _).0 ((refuse_if_iff _ _).0 times) in
      record {
        version = (validate_version_iff _).0 version;
        observation = (validate_id_iff _ _).0 observation;
        source = (validate_id_iff _ _).0 source;
        event = (validate_id_iff _ _).0 event;
        event_type = (validate_id_iff _ _).0 event_type;
        profile = (validate_id_iff _ _).0 profile;
        run = (validate_id_iff _ _).0 run;
        time = time;
        profile_version = profile_version;
        payload = (validate_digest_iff _ _).0 payload;
        raw = (validate_raw_digest_iff _).0 raw;
        subjects = (validate_refs_iff _ _).0 subjects;
        authenticity = (validate_refs_iff _ _).0 authenticity;
        lineage = (lineage_iff _ _).0 ((refuse_if_iff _ _).0 other, prior);
        owner = (validate_visibility_iff _).0 owner;
      },
  λ v.
      let (other, prior) = (lineage_iff _ _).1 v.lineage in
      rw (
        (validate_version_iff _).1 v.version,
        (validate_id_iff _ "observation_id").1 v.observation,
        (validate_id_iff _ "source_id").1 v.source,
        (validate_id_iff _ "source_event_id").1 v.event,
        (validate_id_iff _ "source_event_type").1 v.event_type,
        (validate_id_iff _ "normalized_profile_id").1 v.profile,
        (validate_id_iff _ "collection_run_id").1 v.run,
        (positive_iff _ _).1 (v.time, v.profile_version),
        (validate_digest_iff _ "normalized_payload_digest").1 v.payload,
        (validate_raw_digest_iff _).1 v.raw,
        (validate_refs_iff _ "subject_refs").1 v.subjects,
        (validate_refs_iff _ "authenticity_material_refs").1 v.authenticity,
        other,
        prior,
        (validate_visibility_iff _).1 v.owner,
      ),
)
