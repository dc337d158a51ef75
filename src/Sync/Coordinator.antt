-- ===== src/Sync/Coordinator.antt =====
-- indexer/src/sync.rs: `SyncCoordinator`, its synchronization of a chain on request, the turns of a
-- chain's task and the status that it reports.
use tuppira.Base.{
  ℕ, Text, text_eq, List, [], ◌∷◌, Option, none, some, Bool, false, Result, ok, err, for_each, find,
  map, codes, ◌++◌, if◌then◌else◌,
}
use tuppira.Base.Maps.{get}
use tuppira.WalletFeed.Protocol.{Protocol}
use tuppira.WalletFeed.Event.{Network}
use tuppira.Sync.Errors.{TuppiraError, internal, database}
use tuppira.Sync.Progress.{Disk, reset, reset_all}
use tuppira.Sync.Chain.{ChainConfig, SyncState, ChainIndexer, sync_chain}

pub data ChainStatus : Type 0 where
  syncing synced stopped error : ChainStatus

pub record ChainSyncState : Type 0 where
  pub chain_id : Text
  pub chain_name : Text
  pub status : ChainStatus
  pub latest_block : ℕ
  pub latest_slot : Option ℕ
  pub rpc_url : Text
  pub network : Text

pub record ChainInfo : Type 0 where
  pub id : Text
  pub name : Text
  pub network : Network
  pub status : ChainStatus
  pub latest_block : ℕ
  pub latest_slot : Option ℕ
  pub rpc_url : Text
  pub sync_lag : ℕ

pub record IndexerStatus : Type 0 where
  pub chains : List ChainInfo
  pub total_indexed_blocks : ℕ
  pub is_running : Bool
  pub started_at : Option ℕ
  pub uptime_seconds : Option ℕ

-- The network that a chain is configured with, Mainnet without a configuration.
unfoldable pub configured_network : Option ChainConfig → Network
configured_network none = Network.mainnet
configured_network (some config) = config.network

unfoldable pub chain_info : List (Text × ChainConfig) → ChainSyncState → ChainInfo
chain_info configs state = record {
  id = state.chain_id;
  name = state.chain_name;
  network = configured_network (get configs state.chain_id);
  status = state.status;
  latest_block = state.latest_block;
  latest_slot = state.latest_slot;
  rpc_url = state.rpc_url;
  sync_lag = 0;
}

-- for state in states.iter_mut() { if state.chain_id == chain_id { …; break; } }
unfoldable pub mark_synced : List ChainSyncState → Text → ℕ → List ChainSyncState
mark_synced [] chain tip = []
mark_synced (state ∷ states) chain tip =
    let rest = mark_synced states chain tip in
    if text_eq state.chain_id chain
    then record state { latest_block = tip; status = ChainStatus.synced } ∷ states
    else state ∷ rest

-- if let Ok(tip) = indexer.get_chain_tip()
unfoldable pub update_states :
    Result TuppiraError ℕ → List ChainSyncState → Text → List ChainSyncState
update_states (err problem) states chain = states
update_states (ok tip) states chain = mark_synced states chain tip

unfoldable pub with_start : ℕ → Option ChainConfig → Option ChainConfig
with_start start none = none
with_start start (some config) = some (record config { start_block = some start })

-- The configuration with the start that the caller asks for in the place of its own.
unfoldable pub effective_config : Option ℕ → Option ChainConfig → Option ChainConfig
effective_config none config = config
effective_config (some start) config = with_start start config

module _ (P : Protocol) where
  pub record SyncCoordinator : Type 0 where
    pub indexers : List (ChainIndexer P)
    pub chain_configs : List (Text × ChainConfig)
    pub batch_size : ℕ
    pub running : Bool
    pub chain_states : List ChainSyncState
    pub sync : SyncState

  abbrev pub Outcome : Type 0
  Outcome = Result TuppiraError (Unit {0}) × SyncState

  unfoldable pub is_enabled : Option ChainConfig → Bool
  is_enabled none = false
  is_enabled (some config) = config.enabled

  unfoldable pub initialize : SyncCoordinator → Result TuppiraError (Unit {0})
  initialize c =
      for_each
        (λ indexer.
          if is_enabled (get c.chain_configs indexer.chain_id) then indexer.initialize else ok tt)
        c.indexers

  -- self.indexers.iter().find(…)
  unfoldable pub find_indexer : List (ChainIndexer P) → Text → Option (ChainIndexer P)
  find_indexer indexers chain = find (λ indexer. text_eq indexer.chain_id chain) indexers

  unfoldable pub sync_found :
      ℕ
      → SyncCoordinator
      → Disk
      → Text
      → Option ℕ
      → SyncState
      → Option (ChainIndexer P)
      → Option Outcome
  sync_found fuel c disk chain start s none =
      some (err (internal (codes "Chain " ++ chain ++ codes " not found")), s)
  sync_found fuel c disk chain start s (some indexer) =
      sync_chain P fuel indexer
        (record {
          batch_size = c.batch_size;
          chain_config = effective_config start (get c.chain_configs chain);
        })
        disk s

  unfoldable pub sync_chain_from :
      ℕ → SyncCoordinator → Disk → Text → Option ℕ → SyncState → Option Outcome
  sync_chain_from fuel c disk chain start s =
      sync_found fuel c disk chain start s (find_indexer c.indexers chain)

  unfoldable pub sync_chain_from_block :
      ℕ → SyncCoordinator → Disk → Text → ℕ → SyncState → Option Outcome
  sync_chain_from_block fuel c disk chain from_block s =
      sync_chain_from fuel c disk chain (some from_block) s

  -- The deletion may fail; what follows it starts from the rows that are left.
  unfoldable pub reindex_from : ℕ → SyncCoordinator → Disk → Text → ℕ → SyncState → Option Outcome
  reindex_from fuel c disk chain from_block s =
      if disk.deletable
      then sync_chain_from_block fuel c disk chain from_block
          (record s { progress = reset s.progress chain })
      else some (err (database disk.failure), s)

  unfoldable pub reset_sync : Disk → SyncState → Outcome
  reset_sync disk s =
      if disk.deletable
      then (ok tt, record s { progress = reset_all s.progress })
      else (err (database disk.failure), s)

  -- One turn of a chain's task: the run, whose error is only logged, and then the chain's entry
  -- among the states, with the tip that the chain has by now.
  unfoldable pub after_sync :
      SyncCoordinator → Result TuppiraError ℕ → Text → Option Outcome → Option SyncCoordinator
  after_sync c tip chain none = none
  after_sync c tip chain (some (result, s)) =
      some (record c { chain_states = update_states tip c.chain_states chain; sync = s })

  unfoldable pub turn :
      ℕ → SyncCoordinator → ChainIndexer P → Disk → Result TuppiraError ℕ → Option SyncCoordinator
  turn fuel c indexer disk tip = after_sync c tip indexer.chain_id (
      sync_chain P fuel indexer
        (record { batch_size = c.batch_size; chain_config = get c.chain_configs indexer.chain_id })
        disk c.sync)

  unfoldable pub stop : SyncCoordinator → SyncCoordinator
  stop c = record c { running = false }

  unfoldable pub status : SyncCoordinator → IndexerStatus
  status c = record {
    chains = map (chain_info c.chain_configs) c.chain_states;
    total_indexed_blocks = c.sync.total_indexed;
    is_running = c.running;
    started_at = none;
    uptime_seconds = none;
  }
