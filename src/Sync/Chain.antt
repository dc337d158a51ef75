-- ===== src/Sync/Chain.antt =====
-- indexer/src/sync.rs: `sync_chain`, one run over the next blocks of a chain. The indexer answers
-- from the chain; a run asks for each block once.
use tuppira.Base.{
  ℕ, zero, suc, ◌+◌, ◌-◌, ◌^◌, ◌%◌, min, Text, List, Option, none, some, Bool, true, false, Result,
  ok, err, ◌>>=◌, ◌>>◌, map_err, for_each, if◌then◌else◌, leb,
}
use tuppira.WalletFeed.Protocol.{Protocol}
use tuppira.WalletFeed.Event.{Network, TuppiraEventDto, validate}
use tuppira.Sync.Errors.{TuppiraError, block_error, database}
use tuppira.Sync.Progress.{SyncProgressRow, Disk, get_latest_block, update_progress}

-- The fields of the configuration that the coordinator reads.
pub record ChainConfig : Type 0 where
  pub enabled : Bool
  pub network : Network
  pub rpc_url : Text
  pub start_block : Option ℕ

pub record SyncState : Type 0 where
  pub progress : List SyncProgressRow
  pub total_indexed : ℕ

pub record SyncContext : Type 0 where
  pub batch_size : ℕ
  pub chain_config : Option ChainConfig

unfoldable pub start_or_genesis : Option ℕ → ℕ
start_or_genesis none = 0
start_or_genesis (some start) = start

unfoldable pub configured_start : Option ChainConfig → ℕ
configured_start none = 0
configured_start (some config) = start_or_genesis config.start_block

-- The block behind which a run goes on: the database's, else the configured one, else genesis.
unfoldable pub from_block : Option ℕ → Option ChainConfig → ℕ
from_block none config = configured_start config
from_block (some block) config = block

unfoldable pub read_progress : Disk → List SyncProgressRow → Text → Result TuppiraError (Option ℕ)
read_progress disk rows chain =
    if disk.readable then ok (get_latest_block rows chain) else err (database disk.failure)

unfoldable pub last_of_batch : ℕ → ℕ → ℕ → ℕ
last_of_batch current batch_size tip = min ((current + batch_size - 1) % 2 ^ 64) tip

module _ (P : Protocol) where
  -- What a run uses of the trait.
  pub record ChainIndexer : Type 0 where
    pub chain_id : Text
    pub chain_name : Text
    pub initialize : Result TuppiraError (Unit {0})
    pub get_chain_tip : Result TuppiraError ℕ
    pub index_tuppira_events : ℕ → Result TuppiraError (List (TuppiraEventDto P))

  unfoldable pub check_event : Text → ℕ → TuppiraEventDto P → Result TuppiraError (Unit {0})
  check_event chain current event =
      map_err (λ message. block_error chain current message) (validate P event)

  -- The body of the loop; an error leaves the state as it was.
  unfoldable pub sync_block : ChainIndexer → Disk → ℕ → SyncState → Result TuppiraError SyncState
  sync_block indexer disk current s = do
    events ← indexer.index_tuppira_events current
    for_each (check_event indexer.chain_id current) events
    progress ← update_progress disk s.progress indexer.chain_id current none
    ok (record { progress = progress; total_indexed = (s.total_indexed + 1) % 2 ^ 64 })

  -- `?` on the outcome of a block
  unfoldable pub after_block :
      Result TuppiraError SyncState
      → SyncState
      → (SyncState → Option (Result TuppiraError (Unit {0}) × SyncState))
      → Option (Result TuppiraError (Unit {0}) × SyncState)
  after_block (err error) s go_on = some (err error, s)
  after_block (ok t) s go_on = go_on t

  -- while current <= end, on fuel
  unfoldable pub sync_blocks :
      ℕ
      → ChainIndexer
      → Disk
      → ℕ
      → ℕ
      → SyncState
      → Option (Result TuppiraError (Unit {0}) × SyncState)
  sync_blocks zero indexer disk current last s = none
  sync_blocks (suc fuel) indexer disk current last s = elim (leb current last) [
    | true ↦
        after_block (sync_block indexer disk current s) s
          (λ t. sync_blocks fuel indexer disk ((current + 1) % 2 ^ 64) last t)
    | false ↦ some (ok tt, s)
  ]

  unfoldable pub sync_from :
      ℕ
      → ChainIndexer
      → SyncContext
      → Disk
      → SyncState
      → ℕ
      → ℕ
      → Option (Result TuppiraError (Unit {0}) × SyncState)
  sync_from fuel indexer ctx disk s start tip = elim (leb tip start) [
    | true ↦ some (ok tt, s)
    | false ↦
        sync_blocks fuel indexer disk (start + 1) (last_of_batch (start + 1) ctx.batch_size tip) s
  ]

  unfoldable pub located :
      Disk → ChainIndexer → SyncContext → SyncState → Result TuppiraError (ℕ × ℕ)
  located disk indexer ctx s = do
    block ← read_progress disk s.progress indexer.chain_id
    tip ← indexer.get_chain_tip
    ok (from_block block ctx.chain_config, tip)

  unfoldable pub after_located :
      Result TuppiraError (ℕ × ℕ)
      → SyncState
      → (ℕ → ℕ → Option (Result TuppiraError (Unit {0}) × SyncState))
      → Option (Result TuppiraError (Unit {0}) × SyncState)
  after_located (err error) s go_on = some (err error, s)
  after_located (ok (start, tip)) s go_on = go_on start tip

  unfoldable pub sync_chain :
      ℕ
      → ChainIndexer
      → SyncContext
      → Disk
      → SyncState
      → Option (Result TuppiraError (Unit {0}) × SyncState)
  unfolding located after_located sync_from sync_blocks
  sync_chain fuel indexer ctx disk s =
      after_located (located disk indexer ctx s) s (sync_from fuel indexer ctx disk s)
