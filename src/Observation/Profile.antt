-- ===== src/Observation/Profile.antt =====
-- shared/src/observation.rs: the profiles that `DeploymentAttestationProjectionV1::validate` is
-- for, described without its code.
use tuppira.Base.{
  ℕ, ◌≤◌, ◌<◌, List, [], ◌∷◌, ok, >>_iff, refuse_if, refuse_if_iff, ltb, ◌==◌, length, is_empty,
  All, ◌≡◌, ◌↔◌, refl, arith, ◌||◌, false,
}
use tuppira.Observation.Records.{
  Digest, ObservedOrMissing, observed, missing, DeploymentStatusReading, WorkflowIdentityReading,
  ArtifactAttestationReading, DeploymentAttestationProjection,
}
use tuppira.Observation.Validate.{
  validate_version, validate_id, validate_digest, validate_refs, validate_each_status,
  validate_status_history, validate_workflow, validate_artifact_digest, validate_artifact,
  validate_profile,
}
use tuppira.Observation.Parts.{
  IsId, IsRefs, IsReasons, IsDigest, validate_version_iff, validate_id_iff, validate_digest_iff,
  validate_refs_iff, validate_reasons_iff,
}

-- What is observed satisfies `P`; what is missing comes with reasons.
abbrev pub Explained {ℓ} : {A : Type ℓ} → (A → Type 0) → ObservedOrMissing A → Type 0
Explained P (observed a) = P a
Explained P (missing reasons) = IsReasons reasons

pub record IsReading (s : DeploymentStatusReading) : Type 0 where
  pub status : IsId s.status
  pub time : 0 < s.asserted_at
  pub refs : IsRefs s.evidence_refs

-- Each status is asserted no later than all that follow it.
abbrev pub Ascending : List DeploymentStatusReading → Type 0
Ascending [] = Unit
Ascending (s ∷ rest) = All (λ t. s.asserted_at ≤ t.asserted_at) rest × Ascending rest

pub record IsHistory (ss : List DeploymentStatusReading) : Type 0 where
  pub some_status : 0 < length ss
  pub few : length ss ≤ 128
  pub readings : All IsReading ss
  pub ascending : Ascending ss

pub record IsWorkflow (w : WorkflowIdentityReading) : Type 0 where
  pub provider : IsId w.provider
  pub repository : IsId w.repository
  pub workflow : IsId w.workflow_ref
  pub run : IsId w.run_id
  pub attempt : 0 < w.run_attempt

pub record IsArtifact (a : ArtifactAttestationReading) : Type 0 where
  pub algorithm : IsId a.digest_algorithm
  pub artifact : Explained IsDigest a.artifact_digest
  pub attestation : IsDigest a.attestation_digest
  pub some_ref : 0 < length a.attestation_evidence_refs
  pub refs : IsRefs a.attestation_evidence_refs

pub record IsProfile (p : DeploymentAttestationProjection) : Type 0 where
  pub version : p.schema_version ≡ 1
  pub receipt : IsId p.receipt_id
  pub mandate : IsId p.mandate_id
  pub intent : IsId p.intent_id
  pub attempt : IsId p.attempt_id
  pub history : Explained IsHistory p.status_history
  pub workflow : Explained IsWorkflow p.workflow_identity
  pub artifact : Explained IsArtifact p.artifact_attestation

time_iff : (t previous : ℕ) → ((t == 0 || ltb t previous) ≡ false) ↔ ((0 < t) × (previous ≤ t))
time_iff t previous = (λ h. (ground arith, ground arith), λ h. ground arith)

All-le :
    (a b : ℕ) (ss : List DeploymentStatusReading)
    → a ≤ b
    → All (λ s. b ≤ s.asserted_at) ss
    → All (λ s. a ≤ s.asserted_at) ss
All-le a b [] h all = tt
All-le a b (s ∷ ss) h all = (omega (arith, all.0), All-le a b ss h all.1)

validate_each_status_iff :
    (previous : ℕ) (ss : List DeploymentStatusReading)
    → (validate_each_status previous ss ≡ ok tt)
      ↔ (All IsReading ss × Ascending ss × All (λ s. previous ≤ s.asserted_at) ss)
unfolding validate_each_status
validate_each_status_iff previous [] = (λ h. (tt, tt, tt), λ h. refl)
validate_each_status_iff previous (s ∷ ss) = (
  λ h.
      let (status, h₁) = (>>_iff (validate_id s.status _) _).0 h in
      let (time, h₂) =
        (>>_iff (refuse_if (s.asserted_at == 0 || ltb s.asserted_at previous) _) _).0 h₁ in
      let (refs, h₃) = (>>_iff (validate_refs s.evidence_refs _) _).0 h₂ in
      let (positive, later) = (time_iff s.asserted_at previous).0 ((refuse_if_iff _ _).0 time) in
      let (readings, ascending, after) = (validate_each_status_iff s.asserted_at ss).0 h₃ in
      (
        (
          record {
            status = (validate_id_iff _ _).0 status;
            time = positive;
            refs = (validate_refs_iff _ _).0 refs;
          },
          readings,
        ),
        (after, ascending),
        (later, All-le previous s.asserted_at ss later after),
      ),
  λ v.
      rw
        (
          (validate_id_iff _ "status_history.status").1 (v.0).0.status,
          (time_iff s.asserted_at previous).1 ((v.0).0.time, (v.2).0),
          (validate_refs_iff _ "status_history.evidence_refs").1 (v.0).0.refs,
        )
        ((validate_each_status_iff s.asserted_at ss).1 ((v.0).1, (v.1).1, (v.1).0)),
)

zero_le : (ss : List DeploymentStatusReading) → All (λ s. 0 ≤ s.asserted_at) ss
zero_le [] = tt
zero_le (s ∷ ss) = (omega arith, zero_le ss)

size_iff {ℓ} :
    {A : Type ℓ} (xs : List A)
    → ((is_empty xs || ltb 128 (length xs)) ≡ false) ↔ ((0 < length xs) × (length xs ≤ 128))
size_iff [] = (λ h. cc, λ h. absurd (omega (arith, h.0)))
size_iff (x ∷ xs) = (λ h. (omega arith, ground arith), λ h. ground arith)

pub validate_status_history_iff :
    (h : ObservedOrMissing (List DeploymentStatusReading))
    → (validate_status_history h ≡ ok tt) ↔ Explained IsHistory h
unfolding validate_status_history
validate_status_history_iff (missing reasons) = validate_reasons_iff reasons
validate_status_history_iff (observed ss) = (
  λ h.
      let (size, each) = (>>_iff (refuse_if (is_empty ss || ltb 128 (length ss)) _) _).0 h in
      let (more, few) = (size_iff ss).0 ((refuse_if_iff _ _).0 size) in
      let (readings, ascending, _) = (validate_each_status_iff 0 ss).0 each in
      record { some_status = more; few = few; readings = readings; ascending = ascending },
  λ v.
      rw ((size_iff ss).1 (v.some_status, v.few))
        ((validate_each_status_iff 0 ss).1 (v.readings, v.ascending, zero_le ss)),
)

zero_iff : (n : ℕ) → ((n == 0) ≡ false) ↔ (0 < n)
zero_iff n = (λ h. ground arith, λ h. ground arith)

empty_iff {ℓ} : {A : Type ℓ} (xs : List A) → (is_empty xs ≡ false) ↔ (0 < length xs)
empty_iff [] = (λ h. cc, λ h. absurd (omega (arith, h)))
empty_iff (x ∷ xs) = (λ h. omega arith, λ h. refl)

validate_workflow_iff :
    (w : ObservedOrMissing WorkflowIdentityReading)
    → (validate_workflow w ≡ ok tt) ↔ Explained IsWorkflow w
unfolding validate_workflow
validate_workflow_iff (missing reasons) = validate_reasons_iff reasons
validate_workflow_iff (observed w) = (
  λ h.
      let (provider, h₁) = (>>_iff (validate_id w.provider _) _).0 h in
      let (repository, h₂) = (>>_iff (validate_id w.repository _) _).0 h₁ in
      let (workflow, h₃) = (>>_iff (validate_id w.workflow_ref _) _).0 h₂ in
      let (run, attempt) = (>>_iff (validate_id w.run_id _) _).0 h₃ in
      record {
        provider = (validate_id_iff _ _).0 provider;
        repository = (validate_id_iff _ _).0 repository;
        workflow = (validate_id_iff _ _).0 workflow;
        run = (validate_id_iff _ _).0 run;
        attempt = (zero_iff _).0 ((refuse_if_iff _ _).0 attempt);
      },
  λ v. rw (
    (validate_id_iff _ "workflow.provider").1 v.provider,
    (validate_id_iff _ "workflow.repository").1 v.repository,
    (validate_id_iff _ "workflow.workflow_ref").1 v.workflow,
    (validate_id_iff _ "workflow.run_id").1 v.run,
    (zero_iff _).1 v.attempt,
  ),
)

validate_artifact_digest_iff :
    (d : ObservedOrMissing Digest) → (validate_artifact_digest d ≡ ok tt) ↔ Explained IsDigest d
unfolding validate_artifact_digest
validate_artifact_digest_iff (missing reasons) = validate_reasons_iff reasons
validate_artifact_digest_iff (observed d) = validate_digest_iff d "artifact.digest"

validate_artifact_iff :
    (a : ObservedOrMissing ArtifactAttestationReading)
    → (validate_artifact a ≡ ok tt) ↔ Explained IsArtifact a
unfolding validate_artifact
validate_artifact_iff (missing reasons) = validate_reasons_iff reasons
validate_artifact_iff (observed a) = (
  λ h.
      let (algorithm, h₁) = (>>_iff (validate_id a.digest_algorithm _) _).0 h in
      let (artifact, h₂) = (>>_iff (validate_artifact_digest a.artifact_digest) _).0 h₁ in
      let (attestation, h₃) = (>>_iff (validate_digest a.attestation_digest _) _).0 h₂ in
      let (more, refs) = (>>_iff (refuse_if (is_empty a.attestation_evidence_refs) _) _).0 h₃ in
      record {
        algorithm = (validate_id_iff _ _).0 algorithm;
        artifact = (validate_artifact_digest_iff _).0 artifact;
        attestation = (validate_digest_iff _ _).0 attestation;
        some_ref = (empty_iff _).0 ((refuse_if_iff _ _).0 more);
        refs = (validate_refs_iff _ _).0 refs;
      },
  λ v. rw (
    (validate_id_iff _ "artifact.digest_algorithm").1 v.algorithm,
    (validate_artifact_digest_iff _).1 v.artifact,
    (validate_digest_iff _ "artifact.attestation_digest").1 v.attestation,
    (empty_iff _).1 v.some_ref,
    (validate_refs_iff _ "artifact.attestation_evidence_refs").1 v.refs,
  ),
)

-- A deployment profile is accepted exactly when its identifiers are sound, its status history is
-- in the order of time, and each reading that is absent comes with reasons.
pub validate_profile_iff :
    (p : DeploymentAttestationProjection) → (validate_profile p ≡ ok tt) ↔ IsProfile p
unfolding validate_profile
validate_profile_iff p = (
  λ h.
      let (version, h₁) = (>>_iff (validate_version p.schema_version) _).0 h in
      let (receipt, h₂) = (>>_iff (validate_id p.receipt_id _) _).0 h₁ in
      let (mandate, h₃) = (>>_iff (validate_id p.mandate_id _) _).0 h₂ in
      let (intent, h₄) = (>>_iff (validate_id p.intent_id _) _).0 h₃ in
      let (attempt, h₅) = (>>_iff (validate_id p.attempt_id _) _).0 h₄ in
      let (history, h₆) = (>>_iff (validate_status_history p.status_history) _).0 h₅ in
      let (workflow, artifact) = (>>_iff (validate_workflow p.workflow_identity) _).0 h₆ in
      record {
        version = (validate_version_iff _).0 version;
        receipt = (validate_id_iff _ _).0 receipt;
        mandate = (validate_id_iff _ _).0 mandate;
        intent = (validate_id_iff _ _).0 intent;
        attempt = (validate_id_iff _ _).0 attempt;
        history = (validate_status_history_iff _).0 history;
        workflow = (validate_workflow_iff _).0 workflow;
        artifact = (validate_artifact_iff _).0 artifact;
      },
  λ v. rw (
    (validate_version_iff _).1 v.version,
    (validate_id_iff _ "receipt_id").1 v.receipt,
    (validate_id_iff _ "mandate_id").1 v.mandate,
    (validate_id_iff _ "intent_id").1 v.intent,
    (validate_id_iff _ "attempt_id").1 v.attempt,
    (validate_status_history_iff _).1 v.history,
    (validate_workflow_iff _).1 v.workflow,
    (validate_artifact_iff _).1 v.artifact,
  ),
)
