-- ===== src/Connector/Gated.antt =====
-- indexer/src/connector.rs: what `authenticate_and_normalize` has established about a candidate
-- that it hands on, and what it does with an event that is not authenticated.
use tuppira.Base.{
  ℕ, ◌<◌, Text, List, [], ◌∷◌, Option, none, some, Bool, true, false, ◌||◌, ok, >>_iff, >>=-eq-ok,
  refuse_if, refuse_if_iff, map_err, map_err_iff, is_empty, all, map, length, text_eq, text_eq_iff,
  not-text_eq_iff, contains, contains-Occurs, Occurs, not, All, ◌≡◌, ◌≢◌, ◌↔◌, ◌⊎◌, inl, inr, refl,
  sym, ap, ◌∙◌, subst, arith,
}
use tuppira.Observation.Records.{
  DeploymentAttestationProjection, ProviderSignatureRecord, TenantVisibility, public, tenant,
  zero_digest, deployment_attestation_profile_id,
}
use tuppira.Observation.Validate.{validate, validate_profile}
use tuppira.Observation.Parts.{OnSome}
use tuppira.Observation.Sound.{IsValid, validate_iff}
use tuppira.Observation.Profile.{IsProfile, validate_profile_iff}
use tuppira.Connector.Contract.{
  ConnectorResult, RawSourceEvent, SourceAuthentication, authenticated, rejected, indeterminate,
  NormalizedObservationInput, SourceConnector,
}
use tuppira.Connector.Checks.{validate_event, validate_id}
use tuppira.Connector.Gate.{
  require_authenticated, invalid_profile, invalid_observation, check_profile, visibility_eq,
  collect_refs, same_set, authenticate_and_normalize,
}
use tuppira.Connector.Sound.{IsName, IsEvent, validate_id_iff, validate_event_iff}

pub record IsMaterial (m : ProviderSignatureRecord) : Type 0 where
  pub id : IsName m.authenticity_material_id
  pub signed : 0 < length m.signature
  pub digest : m.signed_payload_digest ≢ zero_digest

abbrev pub material_ids : List ProviderSignatureRecord → List Text
material_ids ms = map (λ m. m.authenticity_material_id) ms

-- The profile is sound, and of the profile that the observation names.
abbrev pub Linked : Option DeploymentAttestationProjection → Text → Type 0
Linked profile id = OnSome (λ p. IsProfile p × (id ≡ deployment_attestation_profile_id)) profile

-- All that is known of a candidate behind the gate.
pub record Gated (c : SourceConnector) (raw : RawSourceEvent) (version : ℕ)
    (x : NormalizedObservationInput) : Type 0 where
  pub event : IsEvent raw
  pub own : raw.source_id ≡ c.source_id
  pub material : List ProviderSignatureRecord
  pub answer : c.authenticate raw ≡ ok (authenticated material)
  pub normalized : c.normalize raw version ≡ ok x
  pub profile : Linked x.deployment_profile x.observation.normalized_profile_id
  pub observation : IsValid x.observation
  pub source : x.observation.source_id ≡ raw.source_id
  pub source_event : x.observation.source_event_id ≡ raw.source_event_id
  pub visibility : x.observation.tenant_visibility ≡ raw.tenant_visibility
  pub signatures : All IsMaterial material
  pub refs :
      (id : Text)
      → Occurs id x.observation.authenticity_material_refs ↔ Occurs id (material_ids material)

authenticated_only :
    (id : Text) (answer : SourceAuthentication) {material : List ProviderSignatureRecord}
    → require_authenticated id answer ≡ ok material
    → answer ≡ authenticated material
unfolding require_authenticated
authenticated_only id (authenticated m) h = cc
authenticated_only id (rejected reason) h = cc
authenticated_only id (indeterminate reason) h = cc

check_profile-Linked :
    (p : Option DeploymentAttestationProjection) (id : Text)
    → check_profile p id ≡ ok tt
    → Linked p id
unfolding check_profile
check_profile-Linked none id h = tt
check_profile-Linked (some p) id h =
    let (sound, linked) = (>>_iff (map_err invalid_profile (validate_profile p)) _).0 h in
    (
      (validate_profile_iff p).0 ((map_err_iff invalid_profile _).0 sound),
      (not-text_eq_iff id _).0 ((refuse_if_iff _ _).0 linked),
    )

visibility_eq_sound : (a b : TenantVisibility) → visibility_eq a b ≡ true → a ≡ b
unfolding visibility_eq
visibility_eq_sound public public h = refl
visibility_eq_sound (tenant a) (tenant b) h = ground (arith, (text_eq_iff a b).0 h)
visibility_eq_sound public (tenant b) h = cc
visibility_eq_sound (tenant a) public h = cc

material_guards :
    (signature : List ℕ) (b c : Bool)
    → (is_empty signature || b || c) ≡ false
    → (0 < length signature) × (b ≡ false) × (c ≡ false)
material_guards [] b c h = cc
material_guards (x ∷ xs) b c h = (omega arith, ground arith, ground arith)

regroup : {A B C : Type 0} → (A ⊎ (B ⊎ C)) ↔ ((B ⊎ A) ⊎ C)
regroup = (
  λ s. elim s [ inl a ↦ inl (inr a) | inr (inl b) ↦ inl (inl b) | inr (inr c) ↦ inr c ],
  λ s. elim s [ inl (inl b) ↦ inr (inl b) | inl (inr a) ↦ inl a | inr c ↦ inr (inr c) ],
)

-- The set that the loop collects is that of the ids of the material, each of which is sound.
collect_refs_sound :
    (refs : List Text) (ms : List ProviderSignatureRecord) {out : List Text}
    → collect_refs refs ms ≡ ok out
    → All IsMaterial ms
      × ((id : Text) → Occurs id out ↔ (Occurs id (material_ids ms) ⊎ Occurs id refs))
unfolding collect_refs
collect_refs_sound refs [] {out} h =
    let same : refs ≡ out = cc in
    (
      tt,
      λ id. (
        λ o. inr (subst (λ l. Occurs id l) (sym same) o),
        λ s. elim s [ inl nothing ↦ absurd nothing | inr o ↦ subst (λ l. Occurs id l) same o ],
      ),
    )
collect_refs_sound refs (m ∷ ms) h =
    let (name, h₁) = (>>_iff (validate_id m.authenticity_material_id _) _).0 h in
    let (guards, rest) =
      (>>_iff
          (refuse_if
            (is_empty m.signature
              || text_eq m.signed_payload_digest zero_digest
              || contains refs m.authenticity_material_id)
            _)
          _).0
        h₁ in
    let (signed, digest, _) = material_guards m.signature _ _ ((refuse_if_iff _ _).0 guards) in
    let (sound, same) = collect_refs_sound (m.authenticity_material_id ∷ refs) ms rest in
    (
      (
        record {
          id = (validate_id_iff _ _).0 name;
          signed = signed;
          digest = λ e. ground (arith, (text_eq_iff m.signed_payload_digest zero_digest).1 e);
        },
        sound,
      ),
      λ id. (λ o. regroup.0 ((same id).0 o), λ s. (same id).1 (regroup.1 s)),
    )

all-contains :
    (xs ys : List Text) (id : Text) → all (contains ys) xs ≡ true → Occurs id xs → Occurs id ys
all-contains [] ys id h o = absurd o
all-contains (x ∷ xs) ys id h (inl here) =
    subst (λ t. Occurs t ys) here ((contains-Occurs ys x).0 (ground arith))
all-contains (x ∷ xs) ys id h (inr there) = all-contains xs ys id (ground arith) there

same_set_sound :
    (xs ys : List Text) → same_set xs ys ≡ true → (id : Text) → Occurs id xs ↔ Occurs id ys
unfolding same_set
same_set_sound xs ys h id =
    (all-contains xs ys id (ground arith), all-contains ys xs id (ground arith))

unmixed : {A : Type 0} → A ⊎ ⊥ → A
unmixed (inl a) = a
unmixed (inr nothing) = absurd nothing

ok-injective :
    {x y : NormalizedObservationInput}
    → ◌≡◌ {A = ConnectorResult NormalizedObservationInput} (ok x) (ok y)
    → x ≡ y
ok-injective e = cc

boundary_guards :
    (a b c : Bool) → (not a || not b || not c) ≡ false → (a ≡ true) × (b ≡ true) × (c ≡ true)
boundary_guards a b c h = ground arith

kept : (b : Bool) → not b ≡ false → b ≡ true
kept b h = ground arith

module _ (c : SourceConnector) (raw : RawSourceEvent) (version : ℕ) where
  -- Whatever passes the gate was sound as raw bytes, belongs to the connector's source, was
  -- authenticated, and is a valid observation of that very event and visibility whose
  -- authenticity references are exactly the ids of the authenticated material.
  pub authenticate_and_normalize-Gated :
      (x : NormalizedObservationInput)
      → authenticate_and_normalize c raw version ≡ ok x
      → Gated c raw version x
  unfolding authenticate_and_normalize
  authenticate_and_normalize-Gated x h =
      let (event, h₁) = (>>_iff (validate_event raw) _).0 h in
      let (own, h₂) = (>>_iff (refuse_if (not (text_eq raw.source_id c.source_id)) _) _).0 h₁ in
      let (answer, asked, h₃) = >>=-eq-ok (c.authenticate raw) _ h₂ in
      let (material, genuine, h₄) =
        >>=-eq-ok (require_authenticated raw.source_event_id answer) _ h₃ in
      let (y, normalized, h₅) = >>=-eq-ok (c.normalize raw version) _ h₄ in
      let (profile, h₆) =
        (>>_iff (check_profile y.deployment_profile y.observation.normalized_profile_id) _).0 h₅ in
      let (valid, h₇) = (>>_iff (map_err invalid_observation (validate y.observation)) _).0 h₆ in
      let (boundary, h₈) =
        (>>_iff
            (refuse_if
              (not (text_eq y.observation.source_id raw.source_id)
                || not (text_eq y.observation.source_event_id raw.source_event_id)
                || not (visibility_eq y.observation.tenant_visibility raw.tenant_visibility))
              _)
            _).0
          h₇ in
      let (refs, collected, h₉) = >>=-eq-ok (collect_refs [] material) _ h₈ in
      let (linked, result) =
        (>>_iff (refuse_if (not (same_set y.observation.authenticity_material_refs refs)) _) _).0
          h₉ in
      let (source, source_event, visibility) =
        boundary_guards (text_eq y.observation.source_id raw.source_id)
          (text_eq y.observation.source_event_id raw.source_event_id)
          (visibility_eq y.observation.tenant_visibility raw.tenant_visibility)
          ((refuse_if_iff _ _).0 boundary) in
      let (signatures, same) = collect_refs_sound [] material collected in
      let equal = same_set_sound y.observation.authenticity_material_refs refs (
        kept (same_set y.observation.authenticity_material_refs refs)
          ((refuse_if_iff _ _).0 linked)) in
      subst (Gated c raw version) (ok-injective result) (record {
        event = (validate_event_iff raw).0 event;
        own = (not-text_eq_iff _ _).0 ((refuse_if_iff _ _).0 own);
        material = material;
        answer = asked ∙ ap ok (authenticated_only raw.source_event_id answer genuine);
        normalized = normalized;
        profile = check_profile-Linked y.deployment_profile _ profile;
        observation = (validate_iff y.observation).0 ((map_err_iff invalid_observation _).0 valid);
        source = (text_eq_iff _ _).0 source;
        source_event = (text_eq_iff _ _).0 source_event;
        visibility = visibility_eq_sound _ _ visibility;
        signatures = signatures;
        refs = λ id.
            (λ o. unmixed ((same id).0 ((equal id).0 o)), λ o. (equal id).1 ((same id).1 (inl o)));
      })

  -- An event whose authentication is rejected or uncertain never becomes a candidate: the
  -- normalization is not even asked.
  pub authenticate_and_normalize-rejected :
      (reason : Text) (x : NormalizedObservationInput)
      → (c.authenticate raw ≡ ok (rejected reason))
        ⊎ (c.authenticate raw ≡ ok (indeterminate reason))
      → authenticate_and_normalize c raw version ≢ ok x
  authenticate_and_normalize-rejected reason x refused h =
      let answer = (authenticate_and_normalize-Gated x h).answer in
      elim refused [ inl r ↦ ground (arith, answer, r) | inr u ↦ ground (arith, answer, u) ]
