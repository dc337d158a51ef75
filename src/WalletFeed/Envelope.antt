-- ===== src/WalletFeed/Envelope.antt =====
-- shared/src/types.rs: `WalletFeedEnvelope`, its parts and its `validate`.
use tuppira.Base.{
  ℕ, Text, String, Bool, ◌||◌, ◌&&◌, Option, none, some, Result, ok, ◌>>◌, refuse_if, ◌==◌, leb,
  is_empty, not, text_eq,
}
use tuppira.WalletFeed.Protocol.{Protocol}
use tuppira.WalletFeed.Event
use tuppira.WalletFeed.Event.{Network, network_eq, TuppiraFinality, finality_rank, TuppiraEventDto}

abbrev pub wallet_feed_schema_version : ℕ
wallet_feed_schema_version = 1

pub record ObservedBlock : Type 0 where
  pub height : ℕ
  pub hash : Text

-- The derived equality.
unfoldable pub block_eq : ObservedBlock → ObservedBlock → Bool
block_eq a b = a.height == b.height && text_eq a.hash b.hash

pub data IndexerFreshnessStatus : Type 0 where
  fresh stale unknown : IndexerFreshnessStatus

pub record IndexerFreshness (DateTime : Type 0) : Type 0 where
  pub indexed_at : DateTime
  pub tip : ObservedBlock
  pub lag_blocks : ℕ
  pub status : IndexerFreshnessStatus

pub record FeedProvenance : Type 0 where
  pub producer : Text
  pub source_cursor : Text
  pub cryptographically_verified : Bool

pub record ReorgReplacement : Type 0 where
  pub replaced_observation_id : Text
  pub common_ancestor : ObservedBlock
  pub replacement_block : ObservedBlock

-- The derived equality of a plain enum.
unfoldable pub finality_eq : TuppiraFinality → TuppiraFinality → Bool
finality_eq a b = finality_rank a == finality_rank b

module _ (P : Protocol) where
  open P use {ChainId, chain_eq, protocol_version as current_version, DateTime}

  pub record WalletFeedEnvelope : Type 0 where
    pub schema_version : ℕ
    pub protocol_version : Text
    pub observation_id : Text
    pub sequence : ℕ
    pub chain_id : ChainId
    pub network : Network
    pub observed_block : ObservedBlock
    pub freshness : IndexerFreshness DateTime
    pub finality : TuppiraFinality
    pub provenance : FeedProvenance
    pub event : TuppiraEventDto P
    pub reorg_replacement : Option ReorgReplacement

  unfoldable pub validate_reorg :
      WalletFeedEnvelope → Option ReorgReplacement → Result String (Unit {0})
  validate_reorg e none = ok tt
  validate_reorg e (some reorg) = do
    refuse_if
        (is_empty reorg.replaced_observation_id
          || text_eq reorg.replaced_observation_id e.observation_id
          || is_empty reorg.common_ancestor.hash
          || is_empty reorg.replacement_block.hash)
        "reorg replacement identity is incomplete"
    refuse_if
        (leb reorg.replacement_block.height reorg.common_ancestor.height
          || not (block_eq reorg.replacement_block e.observed_block))
        "reorg replacement block relationship is invalid"

  unfoldable pub validate : WalletFeedEnvelope → Result String (Unit {0})
  validate e = do
    refuse_if (not (e.schema_version == wallet_feed_schema_version))
        "unsupported wallet feed schema version"
    refuse_if (not (text_eq e.protocol_version current_version))
        "unsupported protocol version in wallet feed"
    refuse_if
        (is_empty e.observation_id
          || is_empty e.provenance.producer
          || is_empty e.provenance.source_cursor
          || is_empty e.observed_block.hash
          || is_empty e.freshness.tip.hash)
        "wallet feed identity or provenance is incomplete"
    refuse_if e.provenance.cryptographically_verified
        "explorer feed must not claim cryptographic verification"
    refuse_if
        (not (chain_eq e.chain_id e.event.chain_id) || not (network_eq e.network e.event.network))
        "wallet feed and event chain identity differ"
    refuse_if
        (not (e.observed_block.height == e.event.block_height)
          || not (text_eq e.observed_block.hash e.event.block_hash))
        "wallet feed and event block identity differ"
    refuse_if (not (finality_eq e.finality e.event.finality))
        "wallet feed and event finality differ"
    validate_reorg e e.reorg_replacement
    Event.validate P e.event
