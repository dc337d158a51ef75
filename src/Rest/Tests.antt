-- ===== src/Rest/Tests.antt =====
-- A request of a tenant for its observations, and the tables of two tenants.
use tuppira.Base.{ℕ, Text, codes, text_eq, List, [], ◌∷◌, Option, none, some, ◌≡◌, ◌⊎◌, refl, err}
use tuppira.Access.{StatusCode, ObservationAccess, HeaderMap}
use tuppira.Access.Sound.{IsAuthenticated}
use tuppira.Observation.Records.{Digest}
use tuppira.Store.Schema.{StoreError}
use tuppira.Store.Fixtures.{with_observation, stored}
use tuppira.Store.Entities.{EntityProfile, EntityTables, aggregate, of_tenant, rows_of}
use tuppira.Store.Isolation.{aggregate-isolated}
use tuppira.Rest.Replies.{auth_error}
use tuppira.Rest.Observations.{observation_list}
use tuppira.Rest.Shown.{IsAnswered, observation_list-IsAnswered}

abbrev headers : HeaderMap
headers = record { tenant_header = some (codes "acme"); authorization = some (codes "Bearer k2") }

abbrev keys : Option Text
keys = some (codes "b=k1,acme=k2")

abbrev hex : Digest → Text
hex d = d

abbrev display : StoreError → Text
display e = codes "storage"

abbrev same_bytes : List ℕ → List ℕ
same_bytes bytes = bytes

observation_list-IsAnswered_example :
    ((granted : ObservationAccess) × IsAuthenticated same_bytes text_eq headers keys granted
      × IsAnswered hex display same_bytes text_eq headers keys with_observation none granted)
    ⊎ (((granted : ObservationAccess) → ¬ IsAuthenticated same_bytes text_eq headers keys granted)
        × ((status : StatusCode) × (observation_list hex display same_bytes text_eq headers keys
                with_observation none
              ≡ err (auth_error status))))
observation_list-IsAnswered_example =
    observation_list-IsAnswered hex display same_bytes text_eq headers keys with_observation none
      stored

abbrev agent : EntityProfile
agent = record {
  entity_id = codes "e";
  entity_kind = codes "agent";
  display_name = codes "E";
  profile_digest_hex = codes "11";
  updated_at = 1;
}

abbrev alone : EntityTables
alone = record {
  profiles = (codes "a", codes "e", agent) ∷ [];
  references = [];
  relationships = [];
}

abbrev shared : EntityTables
shared = record alone {
  profiles = (codes "b", codes "e", record agent { display_name = codes "F" }) ∷ alone.profiles;
}

own_rows : rows_of alone (codes "a") ≡ rows_of shared (codes "a")
unfolding rows_of of_tenant text_eq
own_rows = refl

aggregate-isolated_example :
    aggregate alone (codes "a") (codes "e") ≡ aggregate shared (codes "a") (codes "e")
aggregate-isolated_example = aggregate-isolated alone shared (codes "a") (codes "e") own_rows
