-- ===== src/Sync/Tests.antt =====
-- Runs of the coordinator over a chain of three blocks and a chain that stops at the second.
use tuppira.Base.{
  ℕ, Text, codes, text_eq, text_eq_iff, List, [], ◌∷◌, none, some, true, Result, ok, err, ◌^◌, ◌+◌,
  ◌==◌, if◌then◌else◌, min, ◌*◌, ◌<◌, ◌≤◌, ◌≢◌, ◌≡◌, refl, arith,
}
use tuppira.Base.Maps.{get}
use tuppira.WalletFeed.Protocol.{Protocol}
use tuppira.WalletFeed.Event.{
  Network, TuppiraEventDto, TuppiraFinality, TuppiraEventType, TuppiraEventPayload, validate,
  matches,
}
use tuppira.Sync.Errors.{TuppiraError, rpc_error}
use tuppira.Sync.Progress.{
  Disk, get_latest_block, row_of_chain, block_of, progress_row, upsert, update_progress, reset,
}
use tuppira.Sync.Chain.{
  ChainConfig, SyncState, SyncContext, ChainIndexer, from_block, configured_start, start_or_genesis,
  sync_chain, located, after_located, sync_from, sync_blocks, sync_block, after_block,
  read_progress, last_of_batch, check_event,
}
use tuppira.Sync.Coordinator.{
  SyncCoordinator, ChainStatus, find_indexer, turn, after_sync, update_states, mark_synced,
  reindex_from,
}
use tuppira.Sync.Runs.{Synced, Passes}
use tuppira.Sync.Start.{position, last_block, Ran, sync_chain-Ran}
use tuppira.Sync.History.{Turn, runs, PassedIn, runs-PassedIn}
use tuppira.Sync.Arrival.{IsHealthy, runs-IsHealthy}
use tuppira.Sync.Reindex.{requested_start, reindex_from-Synced}

abbrev protocol : Protocol
protocol = record {
  ChainId = Text;
  as_str = λ c. c;
  chain_eq = text_eq;
  chain_eq_iff = text_eq_iff;
  protocol_version = codes "1";
  DateTime = ℕ;
}

abbrev event : ℕ → TuppiraEventDto protocol
event block = record {
  schema_version = 1;
  chain_id = codes "eth";
  network = Network.testnet;
  contract = codes "x";
  event_type = TuppiraEventType.seal_consumed;
  block_height = block;
  block_hash = codes "b";
  transaction_id = codes "y";
  log_index = 1;
  finality = TuppiraFinality.observed;
  payload = TuppiraEventPayload.consumed (codes "s") (codes "n");
}

abbrev chain : ChainIndexer protocol
chain = record {
  chain_id = codes "eth";
  chain_name = codes "Ethereum";
  initialize = ok tt;
  get_chain_tip = ok 3;
  index_tuppira_events = λ block. ok (event block ∷ []);
}

abbrev broken_chain : ChainIndexer protocol
broken_chain = record chain {
  index_tuppira_events = λ block.
      if block == 2 then err (rpc_error (codes "eth") (codes "gone")) else ok (event block ∷ []);
}

abbrev disk : Disk
disk = record {
  readable = true;
  writable = λ block. true;
  now = λ block. 7;
  deletable = true;
  failure = codes "closed";
}

abbrev ctx : SyncContext
ctx = record { batch_size = 2; chain_config = none }

abbrev fresh : SyncState
fresh = record { progress = []; total_indexed = 0 }

abbrev config : ChainConfig
config = record {
  enabled = true;
  network = Network.testnet;
  rpc_url = codes "u";
  start_block = none;
}

abbrev coordinator : SyncCoordinator protocol
coordinator = record {
  indexers = chain ∷ [];
  chain_configs = (codes "eth", config) ∷ [];
  batch_size = 2;
  running = true;
  chain_states =
      record {
        chain_id = codes "eth";
        chain_name = codes "Ethereum";
        status = ChainStatus.stopped;
        latest_block = 0;
        latest_slot = none;
        rpc_url = codes "u";
        network = codes "Testnet";
      }
      ∷ [];
  sync = fresh;
}

event-passes : (block : ℕ) → validate protocol (event block) ≡ ok tt
unfolding validate matches
event-passes block = refl

chain-Passes : (block : ℕ) → Passes protocol chain block
chain-Passes block = (event block ∷ [], refl, (event-passes block, tt))

fresh-position : position (codes "eth") ctx fresh ≡ 0
unfolding from_block configured_start get_latest_block block_of row_of_chain
fresh-position = refl

tip_is : (tip : ℕ) → ◌≡◌ {A = Result TuppiraError ℕ} (ok 3) (ok tip) → tip ≡ 3
tip_is tip same = cc (same)

sync_chain-Ran_example :
    (result : Result TuppiraError (Unit {0})) × (t : SyncState) × (sync_chain protocol 3
        broken_chain ctx disk fresh
      ≡ some (result, t))
    × Ran protocol broken_chain ctx disk fresh result t
sync_chain-Ran_example =
    sync_chain-Ran protocol broken_chain ctx disk fresh 3 (omega arith)
      (omega (arith, fresh-position)) (λ tip answers. omega (arith, tip_is tip answers))

abbrev turns : List (Turn protocol)
turns = (broken_chain, disk) ∷ (chain, disk) ∷ []

turn_fits :
    (codes "eth" ≡ codes "eth")
    × ((tip : ℕ) → ◌≡◌ {A = Result TuppiraError ℕ} (ok 3) (ok tip) → tip + 1 + 2 < 2 ^ 64)
turn_fits = (refl, λ tip answers. omega (arith, tip_is tip answers))

runs-PassedIn_example :
    (t : SyncState) × (runs protocol ctx turns fresh ≡ some t)
    × (position (codes "eth") ctx fresh ≤ position (codes "eth") ctx t)
    × ((block : ℕ)
        → position (codes "eth") ctx fresh < block
        → block ≤ position (codes "eth") ctx t
        → PassedIn protocol turns block)
runs-PassedIn_example =
    runs-PassedIn protocol (codes "eth") ctx turns fresh (turn_fits, (turn_fits, tt))
      (omega (arith, fresh-position))

chain-IsHealthy : IsHealthy protocol (codes "eth") 3 (chain, disk)
chain-IsHealthy = record {
  about = refl;
  answers = refl;
  readable = refl;
  passes = λ block below. chain-Passes block;
  writable = λ block below. refl;
}

runs-IsHealthy_example :
    (t : SyncState) × (runs protocol ctx ((chain, disk) ∷ (chain, disk) ∷ []) fresh ≡ some t)
    × (position (codes "eth") ctx t ≡ min (position (codes "eth") ctx fresh + 2 * 2) 3)
runs-IsHealthy_example =
    runs-IsHealthy protocol (codes "eth") ctx 3 ((chain, disk) ∷ (chain, disk) ∷ []) fresh
      (chain-IsHealthy, (chain-IsHealthy, tt)) (omega (arith, fresh-position)) (omega arith)

find_chain : find_indexer protocol coordinator.indexers (codes "eth") ≡ some chain
unfolding find_indexer text_eq
find_chain = refl

reindex_from-Synced_example :
    let start = requested_start (get coordinator.chain_configs (codes "eth")) 1 in
    (result : Result TuppiraError (Unit {0})) × (t : SyncState) × (reindex_from protocol 3
        coordinator disk
        (codes "eth")
        1
        fresh
      ≡ some (result, t))
    × Synced protocol chain disk
        (record fresh { progress = reset [] (codes "eth") })
        start
        (last_block start 2 3)
        result
        t
    × ((other : Text)
        → other ≢ codes "eth"
        → get_latest_block t.progress other ≡ get_latest_block [] other)
reindex_from-Synced_example =
    reindex_from-Synced protocol coordinator disk (codes "eth") 1 fresh chain 3 find_chain refl refl
      refl (omega arith) (omega arith)

-- The state of the coordinator after a turn that has synchronized `block` blocks.
abbrev after_turn : ℕ → SyncCoordinator protocol
after_turn block = record coordinator {
  chain_states =
      record {
        chain_id = codes "eth";
        chain_name = codes "Ethereum";
        status = ChainStatus.synced;
        latest_block = 3;
        latest_slot = none;
        rpc_url = codes "u";
        network = codes "Testnet";
      }
      ∷ [];
  sync = record { progress = progress_row (codes "eth") block none 7 ∷ []; total_indexed = block };
}

failed_turn : turn protocol 3 coordinator broken_chain disk (ok 3) ≡ some (after_turn 1)
unfolding turn sync_chain located after_located sync_from sync_blocks sync_block after_block
    read_progress last_of_batch check_event from_block configured_start start_or_genesis
    get_latest_block block_of row_of_chain update_progress upsert progress_row after_sync
    update_states mark_synced validate matches get text_eq
failed_turn = refl

whole_turn : turn protocol 3 coordinator chain disk (ok 3) ≡ some (after_turn 2)
unfolding turn sync_chain located after_located sync_from sync_blocks sync_block after_block
    read_progress last_of_batch check_event from_block configured_start start_or_genesis
    get_latest_block block_of row_of_chain update_progress upsert progress_row after_sync
    update_states mark_synced validate matches get text_eq
whole_turn = refl
