-- ===== src/Wallet/Bridge.antt =====
-- indexer/src/wallet_bridge.rs: the cycle in which the registered addresses are indexed. `asked` is
-- the trace of what the indexers are asked. A HashMap is a list of its entries; the order in which a
-- cycle walks it is a field of `Writes`, since it differs from map to map.
use tuppira.Base.{
  ℕ, zero, suc, Text, String, codes, text_eq, is_empty, List, [], ◌∷◌, ◌++◌, Option, none, some,
  Bool, true, false, find, filter, Result, ok, err, if◌then◌else◌,
}
use tuppira.Base.Maps.{get, insert}
use tuppira.WalletFeed.Event.{Network}
use tuppira.Sync.Errors.{TuppiraError, internal}
use tuppira.Wallet.Addresses.{
  PriorityLevel, AddressRow, PriorityAddress, ActivityRow, get_all_active_addresses,
  update_last_indexed_at, record_indexing_activity, activity, IndexingActivityRequest,
}

pub record AddressIndexingResult : Type 0 where
  pub addresses_processed : ℕ
  pub sanads_indexed : ℕ
  pub seals_indexed : ℕ
  pub transfers_indexed : ℕ
  pub contracts_indexed : ℕ
  pub errors : List (Text × Text)

-- What the bridge uses of the trait ChainIndexer.
pub record AddressIndexer : Type 0 where
  pub chain_id : Text
  pub index_addresses_with_priority :
      List Text → PriorityLevel → Network → Result TuppiraError AddressIndexingResult

pub record WalletIndexerBridgeConfig : Type 0 where
  pub high_priority_interval_ms : ℕ
  pub normal_priority_interval_ms : ℕ
  pub low_priority_interval_ms : ℕ
  pub max_batch_size : ℕ

abbrev pub default_bridge : WalletIndexerBridgeConfig
default_bridge = record {
  high_priority_interval_ms = 10000;
  normal_priority_interval_ms = 60000;
  low_priority_interval_ms = 300000;
  max_batch_size = 50;
}

-- What the database does in a cycle: whether the addresses are read, whether a write about an
-- address is taken, and the time; the text of an error; and the order in which the map of each level
-- yields its entries.
pub record Writes : Type 0 where
  pub readable : Bool
  pub failure : Text
  pub takes : Text → String → Bool
  pub now : ℕ
  pub show_error : TuppiraError → Text
  pub walk : PriorityLevel → List (Text × List Text) → List (Text × List Text)

pub record Call : Type 0 where
  pub chain_id : Text
  pub addresses : List Text
  pub priority : PriorityLevel
  pub network : Network

pub record BridgeState : Type 0 where
  pub rows : List AddressRow
  pub activities : List ActivityRow
  pub asked : List Call

-- addresses_by_chain.entry(chain).or_default().push(address)
unfoldable pub push_address : List (Text × List Text) → Text → Text → List (Text × List Text)
push_address [] chain address = (chain, address ∷ []) ∷ []
push_address ((k, xs) ∷ groups) chain address =
    let rest = push_address groups chain address in
    if text_eq k chain then (k, xs ++ address ∷ []) ∷ groups else (k, xs) ∷ rest

unfoldable pub addresses_by_chain :
    List (Text × List Text) → List PriorityAddress → List (Text × List Text)
addresses_by_chain groups [] = groups
addresses_by_chain groups (a ∷ addresses) =
    addresses_by_chain (push_address groups a.chain a.address) addresses

unfoldable pub network_map : List (Text × Network) → List PriorityAddress → List (Text × Network)
network_map networks [] = networks
network_map networks (a ∷ addresses) = network_map (insert networks a.chain a.network) addresses

unfoldable pub network_or_mainnet : Option Network → Network
network_or_mainnet none = Network.mainnet
network_or_mainnet (some network) = network

unfoldable pub take_addresses : ℕ → List Text → List Text
take_addresses zero xs = []
take_addresses (suc n) [] = []
take_addresses (suc n) (x ∷ xs) = x ∷ take_addresses n xs

-- result.errors.first().map(…).unwrap_or("")
unfoldable pub first_error : List (Text × Text) → Text
first_error [] = []
first_error ((address, message) ∷ errors) = message

-- record_indexing_activity(…).ok()
unfoldable pub note : Writes → IndexingActivityRequest → BridgeState → BridgeState
note w request s =
    if w.takes request.address request.indexed_type
    then record s { activities = record_indexing_activity s.activities request w.now }
    else s

-- update_last_indexed_at(…).ok()
unfoldable pub touch : Writes → Text → Text → Network → BridgeState → BridgeState
touch w address chain network s =
    if w.takes address "last_indexed_at"
    then record s { rows = update_last_indexed_at s.rows address chain network w.now }
    else s

unfoldable pub note_success :
    Writes → Text → Network → AddressIndexingResult → List Text → BridgeState → BridgeState
note_success w chain network result [] s = s
note_success w chain network result (address ∷ batch) s =
    let fine = is_empty result.errors in
    let problem = first_error result.errors in
    note_success w chain network result batch (
      touch w address chain network (
        note w (activity address chain network "transfers" result.transfers_indexed fine problem) (
          note w (activity address chain network "seals" result.seals_indexed fine problem) (
            note w (activity address chain network "sanads" result.sanads_indexed fine problem)
              s))))

unfoldable pub note_failure :
    Writes → Text → Network → TuppiraError → List Text → BridgeState → BridgeState
note_failure w chain network error [] s = s
note_failure w chain network error (address ∷ batch) s =
    note_failure w chain network error batch
      (note w (activity address chain network "error" 0 false (w.show_error error)) s)

unfoldable pub after_indexing :
    Writes
    → Text
    → Network
    → List Text
    → Result TuppiraError AddressIndexingResult
    → BridgeState
    → BridgeState
after_indexing w chain network batch (ok result) s = note_success w chain network result batch s
after_indexing w chain network batch (err error) s = note_failure w chain network error batch s

unfoldable pub ask :
    Writes → AddressIndexer → Text → List Text → PriorityLevel → Network → BridgeState → BridgeState
ask w indexer chain batch priority network s =
    after_indexing w chain network batch
      (indexer.index_addresses_with_priority batch priority network)
      (record s {
        asked =
            s.asked
            ++ record {
              chain_id = chain;
              addresses = batch;
              priority = priority;
              network = network;
            }
              ∷ [];
      })

unfoldable pub find_address_indexer : List AddressIndexer → Text → Option AddressIndexer
find_address_indexer indexers chain = find (λ indexer. text_eq indexer.chain_id chain) indexers

unfoldable pub level_eq : PriorityLevel → PriorityLevel → Bool
level_eq PriorityLevel.high PriorityLevel.high = true
level_eq PriorityLevel.normal PriorityLevel.normal = true
level_eq PriorityLevel.low PriorityLevel.low = true
level_eq _ _ = false

unfoldable pub of_level : PriorityLevel → List PriorityAddress → List PriorityAddress
of_level priority addresses = filter (λ a. level_eq a.priority priority) addresses

module _ (indexers : List AddressIndexer) (config : WalletIndexerBridgeConfig) (w : Writes) where
  unfoldable pub index_found :
      Option AddressIndexer → PriorityLevel → Network → Text → List Text → BridgeState → BridgeState
  index_found none priority network chain addresses s = s
  index_found (some indexer) priority network chain addresses s =
      ask w indexer chain (take_addresses config.max_batch_size addresses) priority network s

  -- for (chain_id, chain_addresses) in addresses_by_chain, over the entries that the map yields
  unfoldable pub index_groups :
      PriorityLevel → List (Text × Network) → List (Text × List Text) → BridgeState → BridgeState
  index_groups priority networks [] s = s
  index_groups priority networks ((chain, addresses) ∷ groups) s =
      index_groups priority networks groups (
        index_found (find_address_indexer indexers chain) priority
          (network_or_mainnet (get networks chain)) chain addresses s)

  unfoldable pub index_addresses_by_priority_level :
      List PriorityAddress → PriorityLevel → BridgeState → BridgeState
  index_addresses_by_priority_level addresses priority s =
      index_groups priority (network_map [] addresses)
        (w.walk priority (addresses_by_chain [] addresses)) s

  unfoldable pub run_levels : List PriorityAddress → BridgeState → BridgeState
  run_levels all s =
      index_addresses_by_priority_level (of_level PriorityLevel.low all) PriorityLevel.low (
        index_addresses_by_priority_level (of_level PriorityLevel.normal all) PriorityLevel.normal (
          index_addresses_by_priority_level (of_level PriorityLevel.high all) PriorityLevel.high s))

  -- The error, if there is one, is only logged.
  unfoldable pub run_priority_indexing_cycle :
      BridgeState → Result TuppiraError (Unit {0}) × BridgeState
  run_priority_indexing_cycle s =
      if w.readable
      then (ok tt, run_levels (get_all_active_addresses s.rows) s)
      else (err (internal (codes "Failed to get active addresses: " ++ w.failure)), s)
