-- ===== src/Rest/Observations.antt =====
-- api/src/rest/handlers.rs: the handlers of observations. The body of a reply is a record with the
-- fields of its JSON; hexadecimal and the display of an error are arguments.
use tuppira.Base.{
  ℕ, ltb, Text, codes, List, map, Option, none, some, Bool, ok, err, ◌>>=◌, if◌then◌else◌,
}
use tuppira.Observation.Records.{
  Digest, ObservationRecord, RetractionStatus, active, retracted, TenantVisibility, public, tenant,
}
use tuppira.Access.{ObservationAccess, HeaderMap}
use tuppira.Store.Schema.{Store, StoreError, StoreResult}
use tuppira.Store.Lineage.{visible_lineage}
use tuppira.Store.Listing.{
  ℤ, pos, negsuc, list_visible_observations, SourceHealthProjection, source_health,
}
use tuppira.Rest.Replies.{Reply, access, tuppira_error}

pub record ObservationView : Type 0 where
  pub observation_id : Text
  pub source_id : Text
  pub source_event_id : Text
  pub source_event_type : Text
  pub subject_refs : List Text
  pub asserted_event_time : Option ℕ
  pub observed_at : ℕ
  pub normalized_profile_id : Text
  pub normalized_profile_version : ℕ
  pub normalized_payload_digest : Text
  pub authenticity_material_refs : List Text
  pub collection_run_id : Text
  pub supersedes : Option Text
  pub retraction_status : Text
  pub visibility_scope : Text

unfoldable pub status_text : RetractionStatus → Text
status_text active = codes "active"
status_text retracted = codes "retracted"

unfoldable pub scope_text : TenantVisibility → Text
scope_text public = codes "public"
scope_text (tenant owner) = codes "tenant"

-- limit.unwrap_or(50)
unfoldable pub limit_or : Option ℤ → ℤ
limit_or none = pos 50
limit_or (some limit) = limit

-- clamp(1, 500)
unfoldable pub clamp : ℤ → ℕ
clamp (negsuc n) = 1
clamp (pos n) = if ltb n 1 then 1 else if ltb 500 n then 500 else n

module _ (hex : Digest → Text) where
  unfoldable pub view : ObservationRecord → ObservationView
  view r = record {
    observation_id = r.observation_id;
    source_id = r.source_id;
    source_event_id = r.source_event_id;
    source_event_type = r.source_event_type;
    subject_refs = r.subject_refs;
    asserted_event_time = r.asserted_event_time;
    observed_at = r.observed_at;
    normalized_profile_id = r.normalized_profile_id;
    normalized_profile_version = r.normalized_profile_version;
    normalized_payload_digest = hex r.normalized_payload_digest;
    authenticity_material_refs = r.authenticity_material_refs;
    collection_run_id = r.collection_run_id;
    supersedes = r.supersedes;
    retraction_status = status_text r.retraction_status;
    visibility_scope = scope_text r.tenant_visibility;
  }

  module _ (display : StoreError → Text) {Hash : Type 0} (digest : List ℕ → Hash)
      (digest_eq : Hash → Hash → Bool) (headers : HeaderMap) (configured : Option Text)
      (s : Store) where
    unfoldable pub observation_list : Option ℤ → Reply (List ObservationView)
    observation_list limit = do
      granted ← access digest digest_eq headers configured
      records ←
          tuppira_error display
            (list_visible_observations s granted.tenant_id (pos (clamp (limit_or limit))))
      ok (map view records)

    unfoldable pub views_of :
        Option (StoreResult (List ObservationRecord)) → Option (Reply (List ObservationView))
    views_of none = none
    views_of (some answer) =
        some (tuppira_error display answer >>= λ records. ok (map view records))

    unfoldable pub lineage_of :
        ℕ → Text → Reply ObservationAccess → Option (Reply (List ObservationView))
    lineage_of fuel id (err problem) = some (err problem)
    lineage_of fuel id (ok granted) = views_of (visible_lineage fuel s id granted.tenant_id)

    -- The query takes the fuel of `visible_lineage`.
    unfoldable pub observation_lineage : ℕ → Text → Option (Reply (List ObservationView))
    observation_lineage fuel id = lineage_of fuel id (access digest digest_eq headers configured)

unfoldable pub observation_source_health :
    {Hash : Type 0}
    → (List ℕ → Hash)
    → (Hash → Hash → Bool)
    → HeaderMap
    → Option Text
    → Store
    → Reply (List SourceHealthProjection)
observation_source_health digest digest_eq headers configured s = do
  granted ← access digest digest_eq headers configured
  ok (source_health s)
