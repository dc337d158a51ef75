-- ===== src/Rpc.antt =====
-- indexer/src/rpc_manager.rs: the endpoints of each chain, their authentication and the choice among
-- them. The environment, the checks of header names and values, and the answers of the endpoints are
-- arguments.
pub mod Base64
pub mod Decode
pub mod Defaults
pub mod Endpoints
mod Tests
use tuppira.Base.{
  ℕ, Text, codes, List, [], ◌∷◌, ◌++◌, Option, none, some, Bool, true, false, ◌==◌, leb, not,
  filter, find, is_empty, map, if◌then◌else◌, Result, ok, err,
}
use tuppira.Base.Maps.{get}
use tuppira.Rpc.Base64.{base64_encode}

pub data RpcType : Type 0 where
  http wss : RpcType

pub data AuthType : Type 0 where
  api_key bearer_token basic_auth : AuthType

pub record RpcAuth : Type 0 where
  pub auth_type : AuthType
  pub header : Text
  pub value : Text

pub record RpcEndpoint : Type 0 where
  pub url : Text
  pub endpoint_type : RpcType
  pub priority : ℕ
  pub auth : Option RpcAuth

pub record ChainRpcConfig : Type 0 where
  pub primary : RpcEndpoint
  pub alternatives : List RpcEndpoint

pub record RpcConfig : Type 0 where
  pub chains : List (Text × ChainRpcConfig)

-- str::trim_start_matches with a character
unfoldable pub trim_start_matches : Text → ℕ → Text
trim_start_matches [] c = []
trim_start_matches (x ∷ t) c = let rest = trim_start_matches t c in if x == c then rest else x ∷ t

unfoldable pub drop_if_last : ℕ → Text → ℕ → Text
drop_if_last x [] c = if x == c then [] else x ∷ []
drop_if_last x (y ∷ t) c = x ∷ y ∷ t

-- A text without the trailing `c`s.
unfoldable pub trim_end_matches : Text → ℕ → Text
trim_end_matches [] c = []
trim_end_matches (x ∷ t) c = drop_if_last x (trim_end_matches t c) c

unfoldable pub unwrap_or : Option Text → Text → Text
unwrap_or none t = t
unwrap_or (some v) t = v

unfoldable pub starts_with_dollar : Text → Bool
starts_with_dollar [] = false
starts_with_dollar (c ∷ t) = c == b'$'

unfoldable pub resolve_value : (Text → Option Text) → Text → Text
resolve_value env value =
    if starts_with_dollar value
    then unwrap_or
        (env (trim_end_matches (trim_start_matches (trim_start_matches value b'$') b'{') b'}'))
        value
    else unwrap_or (env value) value

unfoldable pub resolve_auth : (Text → Option Text) → Option RpcAuth → Option RpcAuth
resolve_auth env none = none
resolve_auth env (some a) = some (record a { value = resolve_value env a.value })

unfoldable pub resolve_endpoint : (Text → Option Text) → RpcEndpoint → RpcEndpoint
resolve_endpoint env e = record e { auth = resolve_auth env e.auth }

unfoldable pub resolve_env_vars : (Text → Option Text) → RpcConfig → RpcConfig
resolve_env_vars env config = record {
  chains =
      map
        (λ (chain, c). (
          chain,
          record {
            primary = resolve_endpoint env c.primary;
            alternatives = map (resolve_endpoint env) c.alternatives;
          },
        ))
        config.chains;
}

-- sort_by_key is stable: an entry goes before those of its own priority that stood behind it.
unfoldable pub insert_by_priority : RpcEndpoint → List RpcEndpoint → List RpcEndpoint
insert_by_priority e [] = e ∷ []
insert_by_priority e (x ∷ xs) =
    let rest = insert_by_priority e xs in if leb e.priority x.priority then e ∷ x ∷ xs else x ∷ rest

unfoldable pub sort_by_priority : List RpcEndpoint → List RpcEndpoint
sort_by_priority [] = []
sort_by_priority (e ∷ es) = insert_by_priority e (sort_by_priority es)

abbrev pub has_url : RpcEndpoint → Bool
has_url e = not (is_empty e.url)

unfoldable pub best_of : ChainRpcConfig → Option RpcEndpoint
best_of c =
    if has_url c.primary then some c.primary else find has_url (sort_by_priority c.alternatives)

unfoldable pub best_of_chain : Option ChainRpcConfig → Option RpcEndpoint
best_of_chain none = none
best_of_chain (some c) = best_of c

unfoldable pub get_endpoint : RpcConfig → Text → Option RpcEndpoint
get_endpoint config chain = best_of_chain (get config.chains chain)

unfoldable pub all_of : ChainRpcConfig → List RpcEndpoint
all_of c =
    let alternatives = filter has_url (sort_by_priority c.alternatives) in
    if has_url c.primary then c.primary ∷ alternatives else alternatives

unfoldable pub all_of_chain : Option ChainRpcConfig → List RpcEndpoint
all_of_chain none = []
all_of_chain (some c) = all_of c

unfoldable pub get_all_endpoints : RpcConfig → Text → List RpcEndpoint
get_all_endpoints config chain = all_of_chain (get config.chains chain)

unfoldable pub primary_of : Option ChainRpcConfig → Option RpcEndpoint
primary_of none = none
primary_of (some c) = some c.primary

unfoldable pub get_primary_endpoint : RpcConfig → Text → Option RpcEndpoint
get_primary_endpoint config chain = primary_of (get config.chains chain)

-- Whether an endpoint passes: an HTTP endpoint has to answer the request in time, a WebSocket one is
-- taken as it is.
unfoldable pub health_check : (RpcEndpoint → Bool) → RpcType → RpcEndpoint → Bool
health_check answers RpcType.http e = answers e
health_check answers RpcType.wss e = true

unfoldable pub first_healthy : (RpcEndpoint → Bool) → List RpcEndpoint → Option RpcEndpoint
first_healthy answers [] = none
first_healthy answers (e ∷ es) =
    let rest = first_healthy answers es in
    if is_empty e.url then rest else if health_check answers e.endpoint_type e then some e else rest

unfoldable pub get_healthy_endpoint : (RpcEndpoint → Bool) → RpcConfig → Text → Option RpcEndpoint
get_healthy_endpoint answers config chain = first_healthy answers (get_all_endpoints config chain)

-- The header that a client sends with each request, given the checks of the crate `http`.
unfoldable pub header_if : Option Text → Option Text → List (Text × Text)
header_if (some name) (some value) = (name, value) ∷ []
header_if _ _ = []

unfoldable pub auth_header :
    (Text → Option Text) → (Text → Option Text) → AuthType → RpcAuth → List (Text × Text)
auth_header name value AuthType.api_key a = header_if (name a.header) (value a.value)
auth_header name value AuthType.bearer_token a =
    header_if (some (codes "authorization")) (value (codes "Bearer " ++ a.value))
auth_header name value AuthType.basic_auth a =
    header_if (some (codes "authorization")) (value (codes "Basic " ++ base64_encode a.value))

unfoldable pub build_http_client :
    (Text → Option Text) → (Text → Option Text) → Option RpcAuth → List (Text × Text)
build_http_client name value none = []
build_http_client name value (some a) = auth_header name value a.auth_type a
