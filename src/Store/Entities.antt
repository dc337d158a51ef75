-- ===== src/Store/Entities.antt =====
-- storage/src/repositories/entities.rs over storage/migrations/0005_accountable_entities.sql: what a
-- tenant knows of accountable entities. Each row stands with its tenant and its entity.
use tuppira.Base.{
  ℕ, ltb, ◌==◌, ◌&&◌, ◌||◌, Text, codes, text_eq, is_blank, List, map, Option, none, some, Bool,
  true, false, ok, ok_or, ◌>>=◌, ◌>>◌, refuse_if, filter, find, if◌then◌else◌,
}
use tuppira.Base.Sorts.{sort_by}
use tuppira.Store.Schema.{StoreResult, parse, not_found}
use tuppira.Store.Repository.{StoreCheck, text_le}

pub record EntityProfile : Type 0 where
  pub entity_id : Text
  pub entity_kind : Text
  pub display_name : Text
  pub profile_digest_hex : Text
  pub updated_at : ℕ

pub record AccountabilityReference : Type 0 where
  pub ref_kind : Text
  pub disclosure_state : Text
  pub object_id : Option Text
  pub source_observation_id : Option Text
  pub observed_at : ℕ

pub record EntityRelationship : Type 0 where
  pub relationship_kind : Text
  pub disclosure_state : Text
  pub related_entity_id : Option Text

pub record EntityAggregate : Type 0 where
  pub profile : EntityProfile
  pub references : List AccountabilityReference
  pub relationships : List EntityRelationship

abbrev pub Scoped : Type 0 → Type 0
Scoped A = Text × Text × A

pub record EntityTables : Type 0 where
  pub profiles : List (Scoped EntityProfile)
  pub references : List (Scoped AccountabilityReference)
  pub relationships : List (Scoped EntityRelationship)

-- WHERE tenant_id = ? AND entity_id = ?
unfoldable pub in_scope : {A : Type 0} → Text → Text → Scoped A → Bool
in_scope tenant entity (t, e, row) = text_eq t tenant && text_eq e entity

abbrev pub row_in : {A : Type 0} → Scoped A → A
row_in (t, e, row) = row

unfoldable pub ensure_scope : Text → Text → StoreCheck
ensure_scope tenant entity =
    refuse_if (is_blank tenant || is_blank entity)
      (parse (codes "entity scope or projection value is invalid"))

unfoldable pub profile : EntityTables → Text → Text → StoreResult EntityProfile
profile t tenant entity = do
  ensure_scope tenant entity
  row ← ok_or (find (in_scope tenant entity) t.profiles) (not_found "accountable_entity" entity)
  ok (record row.2 { entity_id = entity })

-- ORDER BY observed_at, ref_kind
unfoldable pub reference_before : AccountabilityReference → AccountabilityReference → Bool
reference_before a b =
    ltb a.observed_at b.observed_at
    || a.observed_at == b.observed_at && text_le a.ref_kind b.ref_kind

-- NULL comes first.
unfoldable pub optional_le : Option Text → Option Text → Bool
optional_le none b = true
optional_le (some a) none = false
optional_le (some a) (some b) = text_le a b

-- ORDER BY relationship_kind, related_entity_id
unfoldable pub relationship_before : EntityRelationship → EntityRelationship → Bool
relationship_before a b =
    if text_eq a.relationship_kind b.relationship_kind
    then optional_le a.related_entity_id b.related_entity_id
    else text_le a.relationship_kind b.relationship_kind

unfoldable pub aggregate : EntityTables → Text → Text → StoreResult EntityAggregate
aggregate t tenant entity = do
  found ← profile t tenant entity
  ok (record {
    profile = found;
    references =
        sort_by reference_before (map row_in (filter (in_scope tenant entity) t.references));
    relationships =
        sort_by relationship_before (map row_in (filter (in_scope tenant entity) t.relationships));
  })

-- The rows of one tenant.
unfoldable pub of_tenant : {A : Type 0} → Text → Scoped A → Bool
of_tenant tenant (t, e, row) = text_eq t tenant

unfoldable pub rows_of : EntityTables → Text → EntityTables
rows_of t tenant = record {
  profiles = filter (of_tenant tenant) t.profiles;
  references = filter (of_tenant tenant) t.references;
  relationships = filter (of_tenant tenant) t.relationships;
}
