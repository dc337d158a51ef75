-- ===== src/Wallet/Tests.antt =====
-- Two wallets with three addresses of one chain on two networks, and room for two in a batch.
use tuppira.Base.{Text, codes, List, [], ◌∷◌, ◌++◌, true, filter, length, ok, All, ◌≡◌, refl}
use tuppira.WalletFeed.Event.{Network}
use tuppira.Wallet.Addresses.{PriorityLevel, AddressRow, register_address}
use tuppira.Wallet.Bridge.{
  AddressIndexer, WalletIndexerBridgeConfig, default_bridge, Writes, Call, BridgeState,
  find_address_indexer,
}
use tuppira.Wallet.Calls.{about}
use tuppira.Wallet.Turns.{IsTurn}
use tuppira.Wallet.Cycles.{cycles}
use tuppira.Wallet.Repeats.{in_turn, IsRead, cycles-repeat}

abbrev indexer : AddressIndexer
indexer = record {
  chain_id = codes "sui";
  index_addresses_with_priority = λ addresses priority network. ok (record {
    addresses_processed = length addresses;
    sanads_indexed = 1;
    seals_indexed = 0;
    transfers_indexed = 0;
    contracts_indexed = 0;
    errors = [];
  });
}

abbrev config : WalletIndexerBridgeConfig
config = record default_bridge { max_batch_size = 2 }

abbrev writes : Writes
writes = record {
  readable = true;
  failure = codes "closed";
  takes = λ address what. true;
  now = 9;
  show_error = λ error. codes "error";
  walk = λ p g. g;
}

abbrev registered : List AddressRow
registered =
    register_address
      (register_address
        (register_address [] (codes "a") (codes "sui") Network.mainnet PriorityLevel.normal
          (codes "w") 1)
        (codes "b") (codes "sui") Network.mainnet PriorityLevel.normal (codes "w") 2)
      (codes "c") (codes "sui") Network.testnet PriorityLevel.normal (codes "v") 3

abbrev start : BridgeState
start = record { rows = registered; activities = []; asked = [] }

IsRead-twice : All IsRead (writes ∷ writes ∷ [])
IsRead-twice = ((refl, λ p g d. (d, λ k. refl)), ((refl, λ p g d. (d, λ k. refl)), tt))

cycles-repeat_example :
    (asks : (PriorityLevel → Text → List Call)) × (per_cycle : List (List Call)) × ((cycles
        (indexer ∷ [])
        config
        (writes ∷ writes ∷ [])
        start).asked
      ≡ [] ++ in_turn per_cycle)
    × (length per_cycle ≡ 2)
    × All
        (λ calls. (q : PriorityLevel) (chain : Text) → filter (about chain q) calls ≡ asks q chain)
        per_cycle
    × ((q : PriorityLevel) (chain : Text)
        → IsTurn 2 (find_address_indexer (indexer ∷ []) chain) registered q chain (asks q chain))
cycles-repeat_example =
    cycles-repeat (indexer ∷ []) config (writes ∷ writes ∷ []) start IsRead-twice
