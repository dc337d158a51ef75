-- ===== src/Sync/Errors.antt =====
-- shared/src/error.rs: `TuppiraError` and its codes. An error of another crate is the text that it
-- shows.
use tuppira.Base.{ℕ, Text, String}

pub data TuppiraError : Type 0 where
  io toml json database migration : Text → TuppiraError
  not_found : Text → Text → TuppiraError
  http : Text → TuppiraError
  rpc_error rpc_parse_error : Text → Text → TuppiraError
  indexer_stopped : TuppiraError
  block_error : Text → ℕ → String → TuppiraError
  chain_reorg : Text → ℕ → ℕ → TuppiraError
  graph_ql http_server hex_error parse internal : Text → TuppiraError
