-- ===== src/Rest/Shown.antt =====
-- api/src/rest/handlers.rs: what GET /api/v1/observations answers, with the access control before it
-- and the store behind it.
use tuppira.Base.{
  ℕ, ◌≤◌, ◌<◌, ltb, Text, codes, none, some, [], ◌∷◌, refl, Bool-cases, has_char_iff, length, List,
  map, Option, Bool, ok, err, Result-cases, All, ◌≡◌, ◌⊎◌, inl, inr, arith,
}
use tuppira.Observation.Records.{
  Digest, ObservationRecord, RetractionStatus, active, retracted, TenantVisibility, public, tenant,
}
use tuppira.Access.{StatusCode, ObservationAccess, HeaderMap, authenticate}
use tuppira.Access.Sound.{ValidId, IsAuthenticated, authenticate-IsAuthenticated}
use tuppira.Store.Schema.{Store, StoreError}
use tuppira.Store.Repository.{ensure_text, get_observation}
use tuppira.Store.Reachable.{Reachable}
use tuppira.Store.Listing.{ℤ, pos, negsuc}
use tuppira.Store.Newest.{IsShown, IsNewestOf}
use tuppira.Store.Listed.{list_visible_observations-IsListed}
use tuppira.Rest.Replies.{auth_error, access, tuppira_error}
use tuppira.Rest.Observations.{
  ObservationView, status_text, scope_text, limit_or, clamp, view, observation_list,
}

valid_named : (t : Text) → ValidId t → ensure_text t "tenant_id" ≡ ok tt
unfolding ensure_text
valid_named t v = rw (v.not_blank, (has_char_iff 0 t).1 v.clean)

-- How many observations a request asks for: 50 without a limit, and else the limit, but at least 1
-- and at most 500.
abbrev pub IsLimit : Option ℤ → ℕ → Type 0
IsLimit none n = n ≡ 50
IsLimit (some (negsuc k)) n = n ≡ 1
IsLimit (some (pos k)) n =
    ((k < 1) × (n ≡ 1)) ⊎ ((1 ≤ k) × (k ≤ 500) × (n ≡ k)) ⊎ ((500 < k) × (n ≡ 500))

clamp-IsLimit : (limit : Option ℤ) → IsLimit limit (clamp (limit_or limit))
unfolding clamp limit_or
clamp-IsLimit none = refl
clamp-IsLimit (some (negsuc k)) = refl
clamp-IsLimit (some (pos k)) = elim (Bool-cases (ltb k 1)) [
  | inl low ↦ inl (ground arith)
  | inr at_least ↦ elim (Bool-cases (ltb 500 k)) [
    | inl high ↦ inr (inr (ground arith))
    | inr at_most ↦ inr (inl (ground arith))
  ]
]

-- How a retraction status is written.
abbrev IsStatus : RetractionStatus → Text → Type 0
IsStatus active t = t ≡ codes "active"
IsStatus retracted t = t ≡ codes "retracted"

-- How a visibility is written: its kind, without the tenant.
abbrev IsScope : TenantVisibility → Text → Type 0
IsScope public t = t ≡ codes "public"
IsScope (tenant owner) t = t ≡ codes "tenant"

-- The body shows the record, its digest in hexadecimal.
pub record Views (hex : Digest → Text) (r : ObservationRecord) (v : ObservationView) : Type 0 where
  pub observation_id : v.observation_id ≡ r.observation_id
  pub source_id : v.source_id ≡ r.source_id
  pub source_event_id : v.source_event_id ≡ r.source_event_id
  pub source_event_type : v.source_event_type ≡ r.source_event_type
  pub subject_refs : v.subject_refs ≡ r.subject_refs
  pub asserted_event_time : v.asserted_event_time ≡ r.asserted_event_time
  pub observed_at : v.observed_at ≡ r.observed_at
  pub normalized_profile_id : v.normalized_profile_id ≡ r.normalized_profile_id
  pub normalized_profile_version : v.normalized_profile_version ≡ r.normalized_profile_version
  pub normalized_payload_digest : v.normalized_payload_digest ≡ hex r.normalized_payload_digest
  pub authenticity_material_refs : v.authenticity_material_refs ≡ r.authenticity_material_refs
  pub collection_run_id : v.collection_run_id ≡ r.collection_run_id
  pub supersedes : v.supersedes ≡ r.supersedes
  pub retraction_status : IsStatus r.retraction_status v.retraction_status
  pub visibility_scope : IsScope r.tenant_visibility v.visibility_scope

status_text-IsStatus : (status : RetractionStatus) → IsStatus status (status_text status)
unfolding status_text
status_text-IsStatus active = refl
status_text-IsStatus retracted = refl

scope_text-IsScope : (v : TenantVisibility) → IsScope v (scope_text v)
unfolding scope_text
scope_text-IsScope public = refl
scope_text-IsScope (tenant owner) = refl

view-Views : (hex : Digest → Text) (r : ObservationRecord) → Views hex r (view hex r)
unfolding view
view-Views hex r = record {
  observation_id = refl;
  source_id = refl;
  source_event_id = refl;
  source_event_type = refl;
  subject_refs = refl;
  asserted_event_time = refl;
  observed_at = refl;
  normalized_profile_id = refl;
  normalized_profile_version = refl;
  normalized_payload_digest = refl;
  authenticity_material_refs = refl;
  collection_run_id = refl;
  supersedes = refl;
  retraction_status = status_text-IsStatus r.retraction_status;
  visibility_scope = scope_text-IsScope r.tenant_visibility;
}

-- The views show the records, one by one.
abbrev pub AllView : (Digest → Text) → List ObservationRecord → List ObservationView → Type 0
AllView hex [] [] = Unit
AllView hex [] (v ∷ vs) = ⊥
AllView hex (r ∷ rs) [] = ⊥
AllView hex (r ∷ rs) (v ∷ vs) = Views hex r v × AllView hex rs vs

map-AllView :
    (hex : Digest → Text) (rs : List ObservationRecord) → AllView hex rs (map (view hex) rs)
map-AllView hex [] = tt
map-AllView hex (r ∷ rs) = (view-Views hex r, map-AllView hex rs)

clamp_bounds : (limit : ℤ) → (1 ≤ clamp limit) × (clamp limit ≤ 500)
unfolding clamp
clamp_bounds (negsuc n) = omega arith
clamp_bounds (pos n) = ground arith

module _ (hex : Digest → Text) (display : StoreError → Text) {Hash : Type 0}
    (digest : List ℕ → Hash) (digest_eq : Hash → Hash → Bool) (headers : HeaderMap)
    (configured : Option Text) (s : Store) (limit : Option ℤ) where
  -- The answer to a request that has access for a tenant.
  pub record IsAnswered (granted : ObservationAccess) : Type 0 where
    pub rows : List ObservationRecord
    pub views : List ObservationView
    pub answer : observation_list hex display digest digest_eq headers configured s limit ≡ ok views
    pub written : AllView hex rows views
    pub number : ℕ
    pub asked : IsLimit limit number
    pub newest :
        IsNewestOf s granted.tenant_id number
          (map (λ (r : ObservationRecord). r.observation_id) rows)
    pub shown : All (IsShown granted.tenant_id) rows
    pub stored : All (λ r. get_observation s r.observation_id ≡ ok r) rows
    pub few : length rows ≤ 500

  -- In every store that the repository's writes reach, a request for the newest observations either
  -- names a tenant and bears its token, and then gets the newest observations that are public or of
  -- that tenant, the newest first, or no access fits it, and then it gets the error of the access
  -- control and nothing of the store. The number is 50, or the limit that the request gives, but at
  -- least 1 and at most 500; fewer are shown only when there are no more. Every field of the answer
  -- is that of the record that the store has under the id, the digest in hexadecimal, the status and
  -- the scope by their names.
  pub observation_list-IsAnswered :
      Reachable s
      → ((granted : ObservationAccess) × IsAuthenticated digest digest_eq headers configured granted
          × IsAnswered granted)
        ⊎ (((granted : ObservationAccess)
              → ¬ IsAuthenticated digest digest_eq headers configured granted)
            × ((status : StatusCode) × (observation_list hex display digest digest_eq headers
                    configured s limit
                  ≡ err (auth_error status))))
  unfolding observation_list access tuppira_error
  observation_list-IsAnswered reached =
      elim (Result-cases (authenticate digest digest_eq headers configured)) [
        | inl (granted, accepted) ↦
            let a =
              (authenticate-IsAuthenticated digest digest_eq headers configured granted).0
                accepted in
            let l =
              list_visible_observations-IsListed s granted.tenant_id (clamp (limit_or limit))
                reached (valid_named granted.tenant_id a.valid) in
            let (_, most) = clamp_bounds (limit_or limit) in
            inl (
              granted,
              a,
              record {
                rows = l.rows;
                views = map (view hex) l.rows;
                answer = rw (accepted, l.answer);
                written = map-AllView hex l.rows;
                number = clamp (limit_or limit);
                asked = clamp-IsLimit limit;
                newest = l.newest;
                shown = l.shown;
                stored = l.stored;
                few = omega (arith, l.short, most);
              },
            )
        | inr (status, denied) ↦ inr (
          λ granted a. cc (
            (authenticate-IsAuthenticated digest digest_eq headers configured granted).1 a,
            denied,
          ),
          (status, rw denied),
        )
      ]
