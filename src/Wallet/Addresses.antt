-- ===== src/Wallet/Addresses.antt =====
-- storage/src/repositories/priority_addresses.rs: the tables of the priority addresses and of the
-- indexing activities. SQLite leaves the order of rows with equal keys open; here it is that of
-- their insertion. The column `id` is read by nothing.
use tuppira.Base.{
  ℕ, zero, suc, ltb, leb, ◌==◌, ◌&&◌, ◌||◌, Text, String, codes, text_eq, List, [], ◌∷◌, ◌++◌,
  Option, none, some, Bool, true, false, filter, map, length, if◌then◌else◌,
}
use tuppira.Base.Sorts.{sort_by}
use tuppira.WalletFeed.Event.{Network}

pub data PriorityLevel : Type 0 where
  high normal low : PriorityLevel

unfoldable pub network_str : Network → Text
network_str Network.mainnet = codes "mainnet"
network_str Network.testnet = codes "testnet"
network_str Network.devnet = codes "devnet"

unfoldable pub network_of_str : Text → Network
network_of_str s =
    if text_eq s (codes "mainnet")
    then Network.mainnet
    else if text_eq s (codes "testnet")
    then Network.testnet
    else if text_eq s (codes "devnet")
    then Network.devnet
    else Network.mainnet

unfoldable pub priority_str : PriorityLevel → Text
priority_str PriorityLevel.high = codes "high"
priority_str PriorityLevel.normal = codes "normal"
priority_str PriorityLevel.low = codes "low"

unfoldable pub priority_of_str : Text → PriorityLevel
priority_of_str s =
    if text_eq s (codes "high")
    then PriorityLevel.high
    else if text_eq s (codes "normal")
    then PriorityLevel.normal
    else if text_eq s (codes "low")
    then PriorityLevel.low
    else PriorityLevel.normal

pub record AddressRow : Type 0 where
  pub address : Text
  pub chain : Text
  pub network : Text
  pub priority : Text
  pub wallet_id : Text
  pub registered_at : ℕ
  pub last_indexed_at : Option ℕ
  pub is_active : Bool

pub record PriorityAddress : Type 0 where
  pub address : Text
  pub chain : Text
  pub network : Network
  pub priority : PriorityLevel
  pub wallet_id : Text
  pub registered_at : ℕ
  pub last_indexed_at : Option ℕ
  pub is_active : Bool

unfoldable pub of_row : AddressRow → PriorityAddress
of_row r = record {
  address = r.address;
  chain = r.chain;
  network = network_of_str r.network;
  priority = priority_of_str r.priority;
  wallet_id = r.wallet_id;
  registered_at = r.registered_at;
  last_indexed_at = r.last_indexed_at;
  is_active = r.is_active;
}

-- The columns of UNIQUE(address, chain, network, wallet_id)
unfoldable pub has_key : Text → Text → Network → Text → AddressRow → Bool
has_key address chain network wallet_id r =
    text_eq r.address address
    && text_eq r.chain chain
    && text_eq r.network (network_str network)
    && text_eq r.wallet_id wallet_id

-- INSERT … ON CONFLICT DO UPDATE SET priority, is_active = 1
unfoldable pub register_address :
    List AddressRow → Text → Text → Network → PriorityLevel → Text → ℕ → List AddressRow
register_address [] address chain network priority wallet_id now =
    record {
      address = address;
      chain = chain;
      network = network_str network;
      priority = priority_str priority;
      wallet_id = wallet_id;
      registered_at = now;
      last_indexed_at = none;
      is_active = true;
    }
    ∷ []
register_address (r ∷ rows) address chain network priority wallet_id now =
    let rest = register_address rows address chain network priority wallet_id now in
    if has_key address chain network wallet_id r
    then record r { priority = priority_str priority; is_active = true } ∷ rows
    else r ∷ rest

unfoldable pub deactivate : (AddressRow → Bool) → AddressRow → AddressRow
deactivate p r = if p r then record r { is_active = false } else r

-- The rows, and whether one of them was affected.
unfoldable pub unregister_address :
    List AddressRow → Text → Text → Network → Text → List AddressRow × Bool
unregister_address rows address chain network wallet_id =
    let p = has_key address chain network wallet_id in
    (map (deactivate p) rows, ltb 0 (length (filter p rows)))

-- CASE priority WHEN …; a NULL comes first
unfoldable pub priority_rank : Text → ℕ
priority_rank s =
    if text_eq s (codes "high")
    then 1
    else if text_eq s (codes "normal")
    then 2
    else if text_eq s (codes "low")
    then 3
    else 0

-- ORDER BY CASE priority … END, registered_at ASC
unfoldable pub ordered : AddressRow → AddressRow → Bool
ordered a b =
    ltb (priority_rank a.priority) (priority_rank b.priority)
    || (priority_rank a.priority == priority_rank b.priority && leb a.registered_at b.registered_at)

unfoldable pub select_addresses : (AddressRow → Bool) → List AddressRow → List PriorityAddress
select_addresses p rows = map of_row (sort_by ordered (filter p rows))

unfoldable pub get_all_active_addresses : List AddressRow → List PriorityAddress
get_all_active_addresses rows = select_addresses (λ r. r.is_active) rows

unfoldable pub get_addresses_by_wallet : List AddressRow → Text → List PriorityAddress
get_addresses_by_wallet rows wallet_id =
    select_addresses (λ r. text_eq r.wallet_id wallet_id && r.is_active) rows

unfoldable pub get_addresses_by_chain_and_network :
    List AddressRow → Text → Network → List PriorityAddress
get_addresses_by_chain_and_network rows chain network =
    select_addresses
      (λ r. text_eq r.chain chain && text_eq r.network (network_str network) && r.is_active) rows

unfoldable pub stamp : (AddressRow → Bool) → ℕ → AddressRow → AddressRow
stamp p now r = if p r then record r { last_indexed_at = some now } else r

unfoldable pub update_last_indexed_at :
    List AddressRow → Text → Text → Network → ℕ → List AddressRow
update_last_indexed_at rows address chain network now =
    map
      (stamp
        (λ r.
          text_eq r.address address
          && text_eq r.chain chain
          && text_eq r.network (network_str network))
        now)
      rows

pub record IndexingActivityRequest : Type 0 where
  pub address : Text
  pub chain : Text
  pub network : Network
  pub indexed_type : String
  pub items_count : ℕ
  pub success : Bool
  pub error : Option Text

pub record ActivityRow : Type 0 where
  pub request : IndexingActivityRequest
  pub timestamp : ℕ

unfoldable pub record_indexing_activity :
    List ActivityRow → IndexingActivityRequest → ℕ → List ActivityRow
record_indexing_activity activities request now =
    activities ++ record { request = request; timestamp = now } ∷ []

-- IndexingActivityRequest::new(…).with_error(…)
abbrev pub activity : Text → Text → Network → String → ℕ → Bool → Text → IndexingActivityRequest
activity address chain network indexed_type items_count success error = record {
  address = address;
  chain = chain;
  network = network;
  indexed_type = indexed_type;
  items_count = items_count;
  success = success;
  error = some error;
}

pub record PriorityIndexingStatus : Type 0 where
  pub total_addresses : ℕ
  pub active_indexing : ℕ
  pub completed_indexing : ℕ
  pub recent_activities : List ActivityRow

unfoldable pub take : ℕ → List ActivityRow → List ActivityRow
take zero rows = []
take (suc n) [] = []
take (suc n) (r ∷ rows) = r ∷ take n rows

-- ORDER BY timestamp DESC LIMIT ?1
unfoldable pub get_recent_activities : List ActivityRow → ℕ → List ActivityRow
get_recent_activities activities limit =
    take limit (sort_by (λ a b. leb b.timestamp a.timestamp) activities)

unfoldable pub get_priority_indexing_status :
    List AddressRow → List ActivityRow → PriorityIndexingStatus
get_priority_indexing_status rows activities =
    let total = length (filter (λ r. r.is_active) rows) in
    record {
      total_addresses = total;
      active_indexing = 0;
      completed_indexing = total;
      recent_activities = get_recent_activities activities 20;
    }
