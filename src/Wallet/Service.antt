-- ===== src/Wallet/Service.antt =====
-- indexer/src/wallet_bridge.rs: what a wallet asks of the bridge. A call of the repository reaches the
-- database or not; the records of a chain are what its indexer answers for an address.
use tuppira.Base.{ℕ, Text, codes, List, [], ◌∷◌, ◌++◌, Bool, true, false, Result, ok, err}
use tuppira.WalletFeed.Event.{Network}
use tuppira.Sync.Errors.{TuppiraError, internal}
use tuppira.Wallet.Addresses

-- map_err(|e| TuppiraError::Internal(format!(…, e)))
unfoldable pub reached {ℓ} : {A : Type ℓ} → Bool → Text → Text → A → Result TuppiraError A
reached true message failure a = ok a
reached false message failure a = err (internal (message ++ failure))

unfoldable pub register :
    Bool
    → Text
    → List Addresses.AddressRow
    → Text
    → Text
    → Network
    → Addresses.PriorityLevel
    → Text
    → ℕ
    → Result TuppiraError (List Addresses.AddressRow)
register up failure rows address chain network priority wallet_id now =
    reached up (codes "Failed to register address: ") failure
      (Addresses.register_address rows address chain network priority wallet_id now)

unfoldable pub unregister :
    Bool
    → Text
    → List Addresses.AddressRow
    → Text
    → Text
    → Network
    → Text
    → Result TuppiraError (List Addresses.AddressRow × Bool)
unregister up failure rows address chain network wallet_id =
    reached up (codes "Failed to unregister address: ") failure
      (Addresses.unregister_address rows address chain network wallet_id)

unfoldable pub get_wallet_addresses :
    Bool
    → Text
    → List Addresses.AddressRow
    → Text
    → Result TuppiraError (List Addresses.PriorityAddress)
get_wallet_addresses up failure rows wallet_id =
    reached up (codes "Failed to get wallet addresses: ") failure
      (Addresses.get_addresses_by_wallet rows wallet_id)

unfoldable pub indexing_status :
    Bool
    → Text
    → List Addresses.AddressRow
    → List Addresses.ActivityRow
    → Result TuppiraError Addresses.PriorityIndexingStatus
indexing_status up failure rows activities =
    reached up (codes "Failed to get priority indexing status: ") failure
      (Addresses.get_priority_indexing_status rows activities)

module _ (SanadRecord SealRecord TransferRecord : Type 0) where
  -- What the bridge asks an indexer about an address.
  pub record RecordIndexer : Type 0 where
    pub index_sanads_by_address : Text → Result TuppiraError (List SanadRecord)
    pub index_seals_by_address : Text → Result TuppiraError (List SealRecord)
    pub index_transfers_by_address : Text → Result TuppiraError (List TransferRecord)

  pub record AddressDataResult : Type 0 where
    pub address : Text
    pub sanads : List SanadRecord
    pub seals : List SealRecord
    pub transfers : List TransferRecord

  -- A failure of one indexer is only logged.
  unfoldable pub with_answer : {A : Type 0} → Result TuppiraError (List A) → List A → List A
  with_answer (ok found) rest = found ++ rest
  with_answer (err error) rest = rest

  unfoldable pub collect :
      {A : Type 0} → (RecordIndexer → Result TuppiraError (List A)) → List RecordIndexer → List A
  collect ask [] = []
  collect ask (indexer ∷ indexers) = with_answer (ask indexer) (collect ask indexers)

  unfoldable pub get_sanads_by_address : List RecordIndexer → Text → List SanadRecord
  get_sanads_by_address indexers address = collect (λ i. i.index_sanads_by_address address) indexers

  unfoldable pub get_seals_by_address : List RecordIndexer → Text → List SealRecord
  get_seals_by_address indexers address = collect (λ i. i.index_seals_by_address address) indexers

  unfoldable pub get_transfers_by_address : List RecordIndexer → Text → List TransferRecord
  get_transfers_by_address indexers address =
      collect (λ i. i.index_transfers_by_address address) indexers

  unfoldable pub get_address_data : List RecordIndexer → Text → AddressDataResult
  get_address_data indexers address = record {
    address = address;
    sanads = get_sanads_by_address indexers address;
    seals = get_seals_by_address indexers address;
    transfers = get_transfers_by_address indexers address;
  }
