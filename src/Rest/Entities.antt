-- ===== src/Rest/Entities.antt =====
-- api/src/rest/handlers.rs: the handlers of accountable entities. A reply says of itself that it is an
-- observation and no authorization.
use tuppira.Base.{ℕ, Text, codes, List, Option, Bool, ok, ◌>>=◌}
use tuppira.Access.{HeaderMap}
use tuppira.Store.Schema.{StoreError}
use tuppira.Store.Entities.{EntityProfile, EntityAggregate, EntityTables, profile, aggregate}
use tuppira.Rest.Replies.{Reply, access, tuppira_error}

abbrev pub semantics : Text
semantics = codes "observational_not_authorization"

module _ (display : StoreError → Text) {Hash : Type 0} (digest : List ℕ → Hash)
    (digest_eq : Hash → Hash → Bool) (headers : HeaderMap) (configured : Option Text)
    (t : EntityTables) where
  unfoldable pub entity_profile : Text → Reply (EntityProfile × Text)
  entity_profile id = do
    granted ← access digest digest_eq headers configured
    found ← tuppira_error display (profile t granted.tenant_id id)
    ok (found, semantics)

  unfoldable pub entity_accountability : Text → Reply (EntityAggregate × Text)
  entity_accountability id = do
    granted ← access digest digest_eq headers configured
    found ← tuppira_error display (aggregate t granted.tenant_id id)
    ok (found, semantics)
