-- ===== src/Rpc/Tests.antt =====
-- Endpoints of one chain, of which the primary one has no address and one does not answer.
use tuppira.Base.{ℕ, Text, codes, text_eq, [], ◌∷◌, none, some, Bool, ◌==◌, ◌≡◌, refl}
use tuppira.Base.Maps.{get}
use tuppira.Rpc.{RpcType, RpcEndpoint, ChainRpcConfig, RpcConfig}
use tuppira.Rpc.Endpoints.{Served, get_healthy_endpoint-Served}

abbrev endpoint : Text → ℕ → RpcEndpoint
endpoint url priority = record {
  url = url;
  endpoint_type = RpcType.http;
  priority = priority;
  auth = none;
}

abbrev chain : ChainRpcConfig
chain = record {
  primary = endpoint [] 0;
  alternatives =
      endpoint (codes "slow") 2 ∷ endpoint (codes "down") 1 ∷ endpoint (codes "last") 2 ∷ [];
}

abbrev config : RpcConfig
config = record { chains = (codes "sui", chain) ∷ [] }

abbrev answers : RpcEndpoint → Bool
answers e = e.priority == 2

found : get config.chains (codes "sui") ≡ some chain
unfolding get text_eq
found = refl

get_healthy_endpoint-Served_example : Served answers config (codes "sui") chain
get_healthy_endpoint-Served_example =
    get_healthy_endpoint-Served answers config (codes "sui") chain found
