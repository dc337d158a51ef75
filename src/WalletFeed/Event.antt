-- ===== src/WalletFeed/Event.antt =====
-- shared/src/types.rs: `TuppiraEventDto`, its parts and its `validate`.
use tuppira.Base.{
  ℕ, Text, String, Bool, true, false, ◌||◌, Result, ◌>>◌, refuse_if, ◌==◌, is_empty, not,
}
use tuppira.WalletFeed.Protocol.{Protocol}

pub data Network : Type 0 where
  mainnet testnet devnet : Network

unfoldable pub network_eq : Network → Network → Bool
network_eq Network.mainnet Network.mainnet = true
network_eq Network.testnet Network.testnet = true
network_eq Network.devnet Network.devnet = true
network_eq _ _ = false

pub data TuppiraFinality : Type 0 where
  observed reorg_possible finalized : TuppiraFinality

unfoldable pub finality_rank : TuppiraFinality → ℕ
finality_rank TuppiraFinality.observed = 0
finality_rank TuppiraFinality.reorg_possible = 1
finality_rank TuppiraFinality.finalized = 2

pub data TuppiraEventType : Type 0 where
  sanad_created seal_consumed transfer_sent transfer_materialized : TuppiraEventType

abbrev pub tuppira_event_schema_version : ℕ
tuppira_event_schema_version = 1

module _ (P : Protocol) where
  open P use {ChainId, as_str}

  pub data TuppiraEventPayload : Type 0 where
    created : Text → Text → Text → TuppiraEventPayload
    consumed : Text → Text → TuppiraEventPayload
    sent : Text → Text → ChainId → Text → TuppiraEventPayload
    materialized : Text → ChainId → Text → Text → Text → TuppiraEventPayload

  pub record TuppiraEventDto : Type 0 where
    pub schema_version : ℕ
    pub chain_id : ChainId
    pub network : Network
    pub contract : Text
    pub event_type : TuppiraEventType
    pub block_height : ℕ
    pub block_hash : Text
    pub transaction_id : Text
    pub log_index : ℕ
    pub finality : TuppiraFinality
    pub payload : TuppiraEventPayload

  -- The pairs of event type and payload that belong together.
  unfoldable pub matches : TuppiraEventType → TuppiraEventPayload → Bool
  matches TuppiraEventType.transfer_sent (TuppiraEventPayload.sent _ _ _ _) = true
  matches TuppiraEventType.transfer_materialized (TuppiraEventPayload.materialized _ _ _ _ _) = true
  matches TuppiraEventType.sanad_created (TuppiraEventPayload.created _ _ _) = true
  matches TuppiraEventType.seal_consumed (TuppiraEventPayload.consumed _ _) = true
  matches _ _ = false

  unfoldable pub validate : TuppiraEventDto → Result String (Unit {0})
  unfolding matches
  validate e = do
    refuse_if (not (e.schema_version == tuppira_event_schema_version))
        "unsupported explorer event schema version"
    refuse_if
        (is_empty (as_str e.chain_id)
          || is_empty e.contract
          || is_empty e.block_hash
          || is_empty e.transaction_id)
        "event identity is incomplete"
    refuse_if (not (matches e.event_type e.payload)) "event type and payload do not match"
