-- ===== src/Rpc/Defaults.antt =====
-- indexer/src/rpc_manager.rs: the configuration without a file, and the loading of one. The file and
-- its parser are arguments.
use tuppira.Base.{
  ℕ, Text, String, codes, List, [], ◌∷◌, Option, none, some, Result, ok, err, ◌>>=◌, ◌++◌,
}
use tuppira.Sync.Errors.{TuppiraError, internal}
use tuppira.Rpc.{RpcType, AuthType, RpcEndpoint, ChainRpcConfig, RpcConfig, resolve_env_vars}

abbrev make_http : String → ℕ → RpcEndpoint
make_http url priority = record {
  url = codes url;
  endpoint_type = RpcType.http;
  priority = priority;
  auth = none;
}

abbrev with_alternatives : RpcEndpoint → List RpcEndpoint → ChainRpcConfig
with_alternatives primary alternatives = record { primary = primary; alternatives = alternatives }

abbrev getblock : RpcEndpoint
getblock = record (make_http "https://btc.getblock.io/mainnet/" 2) {
  auth = some (record {
    auth_type = AuthType.api_key;
    header = codes "X-API-Key";
    value = codes "${GETBLOCK_API_KEY}";
  });
}

abbrev pub default_config : RpcConfig
default_config = record {
  chains =
      (codes "bitcoin", with_alternatives (make_http "https://mempool.space/api" 1) (getblock ∷ []))
      ∷ (
        codes "ethereum",
        with_alternatives (make_http "https://eth.llamarpc.com" 1) (
            make_http "https://ethereum-rpc.publicnode.com" 2
            ∷ record (make_http "wss://ethereum-rpc.publicnode.com" 3) {
              endpoint_type = RpcType.wss;
            }
            ∷ []),
      )
      ∷ (
        codes "sui",
        with_alternatives (make_http "https://fullnode.mainnet.sui.io:443" 1)
            (make_http "https://sui-mainnet-rpc.allthatnode.com" 2 ∷ []),
      )
      ∷ (
        codes "aptos",
        with_alternatives (make_http "https://fullnode.mainnet.aptoslabs.com/v1" 1)
            (make_http "https://aptos-mainnet-rpc.allthatnode.com/v1" 2 ∷ []),
      )
      ∷ (
        codes "solana",
        with_alternatives (make_http "https://api.mainnet-beta.solana.com" 1)
            (make_http "https://solana-rpc.publicnode.com" 2 ∷ []),
      )
      ∷ [];
}

unfoldable pub parsed : (Text → Option Text) → Result Text RpcConfig → Result TuppiraError RpcConfig
parsed env (ok config) = ok (resolve_env_vars env config)
parsed env (err reason) = err (internal (codes "Failed to parse RPC config: " ++ reason))

unfoldable pub from_file :
    (Text → Option Text)
    → (Text → Result Text RpcConfig)
    → Result TuppiraError Text
    → Result TuppiraError RpcConfig
from_file env parse content = do text ← content; parsed env (parse text)

-- The file is none when it does not exist, else what reading it gave.
unfoldable pub load_rpc_config :
    (Text → Option Text)
    → (Text → Result Text RpcConfig)
    → Option (Result TuppiraError Text)
    → Result TuppiraError RpcConfig
load_rpc_config env parse none = ok default_config
load_rpc_config env parse (some content) = from_file env parse content
