-- ===== src/Store/Listing.antt =====
-- storage/src/repositories/observations.rs: the newest observations that a tenant can see, and what
-- is known of each source.
use tuppira.Base.{
  zero, suc, ℕ, ltb, ◌==◌, ◌&&◌, ◌||◌, not, Text, text_eq, List, [], ◌∷◌, Option, none, some, Bool,
  ◌>>◌, filter, map,
}
use tuppira.Base.Sorts.{sort_by}
use mathlib.Core.Option
use tuppira.Observation.Records.{ObservationRecord, CollectionRunRecord, SourceRecord}
use tuppira.Store.Schema.{Store, StoreResult, lookup}
use tuppira.Store.Repository.{ensure_text, owned_by_other, text_le}
use tuppira.Store.Lineage.{read_each}

pub data ℤ : Type 0 where
  pos : ℕ → ℤ
  negsuc : ℕ → ℤ

unfoldable pub take : {A : Type 0} → ℕ → List A → List A
take zero xs = []
take (suc n) [] = []
take (suc n) (x ∷ xs) = x ∷ take n xs

-- LIMIT ?, which a negative number switches off.
unfoldable pub limit_to : {A : Type 0} → ℤ → List A → List A
limit_to (pos n) xs = take n xs
limit_to (negsuc n) xs = xs

-- ORDER BY observed_at DESC, observation_id DESC
unfoldable pub newer : ObservationRecord → ObservationRecord → Bool
newer a b =
    ltb b.observed_at a.observed_at
    || (a.observed_at == b.observed_at && text_le b.observation_id a.observation_id)

unfoldable pub newest_ids : Store → Text → ℤ → List Text
newest_ids s tenant_id limit =
    map (λ (r : ObservationRecord). r.observation_id)
      (limit_to limit (
        sort_by newer
          (filter (λ r. not (owned_by_other r.tenant_visibility tenant_id)) s.observations)))

unfoldable pub list_visible_observations : Store → Text → ℤ → StoreResult (List ObservationRecord)
list_visible_observations s tenant_id limit = do
  ensure_text tenant_id "tenant_id"
  read_each s tenant_id (newest_ids s tenant_id limit)

pub record SourceHealthProjection : Type 0 where
  pub source_id : Text
  pub connector_kind : Text
  pub display_name : Text
  pub last_run_started_at : Option ℕ
  pub last_run_completed_at : Option ℕ
  pub cursor_observed_at : Option ℕ

unfoldable pub first : {A : Type 0} → List A → Option A
first [] = none
first (x ∷ xs) = some x

-- ORDER BY started_at DESC LIMIT 1. Of runs that started at one time a query may return any, here
-- that which was inserted first.
unfoldable pub last_run : List CollectionRunRecord → Text → Option CollectionRunRecord
last_run runs source_id = first (
    sort_by (λ a b. not (ltb a.started_at b.started_at))
      (filter (λ r. text_eq r.source_id source_id) runs))

unfoldable pub completion : Option CollectionRunRecord → Option ℕ
completion none = none
completion (some run) = run.completed_at

unfoldable pub health_of : Store → SourceRecord → SourceHealthProjection
health_of s source = record {
  source_id = source.source_id;
  connector_kind = source.connector_kind;
  display_name = source.display_name;
  last_run_started_at = Option.map (λ r. r.started_at) (last_run s.runs source.source_id);
  last_run_completed_at = completion (last_run s.runs source.source_id);
  cursor_observed_at =
      Option.map (λ c. c.observed_at) (lookup (λ c. c.source_id) s.cursors source.source_id);
}

unfoldable pub source_health : Store → List SourceHealthProjection
source_health s = map (health_of s) (sort_by (λ a b. text_le a.source_id b.source_id) s.sources)
