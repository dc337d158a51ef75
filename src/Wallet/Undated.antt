-- ===== src/Wallet/Undated.antt =====
-- indexer/src/wallet_bridge.rs: what is asked does not depend on the times of the last indexing.
use tuppira.Base.{
  ℕ, Text, text_eq, List, [], ◌∷◌, Option, none, some, filter, map, ◌≡◌, refl, sym, ap, ap₂, ◌∙◌,
}
use tuppira.Wallet.Groups.{of_chain, last_network}
use tuppira.Wallet.Calls.{expected_call}
use tuppira.Base.Sorts.{sort_by, map-sort_by, map-filter}
use tuppira.WalletFeed.Event.{Network}
use tuppira.Wallet.Addresses.{
  PriorityLevel, AddressRow, PriorityAddress, of_row, ordered, select_addresses,
  get_all_active_addresses,
}
use tuppira.Wallet.Bridge.{AddressIndexer, of_level, network_or_mainnet, take_addresses, level_eq}
use tuppira.Wallet.Cycles.{undated}

unfoldable pub forget : PriorityAddress → PriorityAddress
forget a = record a { last_indexed_at = none }

addresses-forget :
    (all : List PriorityAddress)
    → map (λ (x : PriorityAddress). x.address) (map forget all)
      ≡ map (λ (x : PriorityAddress). x.address) all
unfolding forget
addresses-forget [] = refl
addresses-forget (a ∷ all) = ap (λ l. a.address ∷ l) (addresses-forget all)

last_network-forget :
    (o : Option Network) (all : List PriorityAddress)
    → last_network o (map forget all) ≡ last_network o all
unfolding forget
last_network-forget o [] = refl
last_network-forget o (a ∷ all) = last_network-forget (some a.network) all

pub expected_call-forget :
    (max : ℕ) (o : Option AddressIndexer) (q : PriorityLevel) (chain : Text)
    (all : List PriorityAddress)
    → expected_call max o q chain (map forget all) ≡ expected_call max o q chain all
unfolding expected_call
expected_call-forget max none q chain all = refl
expected_call-forget max (some indexer) q chain [] = refl
expected_call-forget max (some indexer) q chain (a ∷ all) =
    ap₂
      (λ xs n.
        record {
          chain_id = chain;
          addresses = take_addresses max xs;
          priority = q;
          network = network_or_mainnet n;
        }
        ∷ [])
      (addresses-forget (a ∷ all)) (last_network-forget none (a ∷ all))

pub turn_rows-forget :
    (q : PriorityLevel) (chain : Text) (all : List PriorityAddress)
    → of_chain chain (of_level q (map forget all)) ≡ map forget (of_chain chain (of_level q all))
unfolding of_level forget
turn_rows-forget q chain all =
    ap (of_chain chain) (sym (map-filter (λ a. level_eq a.priority q) forget (λ a. refl) all))
    ∙ sym (map-filter (λ a. text_eq a.chain chain) forget (λ a. refl) _)

ordered-undated : (a b : AddressRow) → ordered (undated a) (undated b) ≡ ordered a b
unfolding ordered
ordered-undated a b = refl

map-of_row : (rows : List AddressRow) → map of_row (map undated rows) ≡ map forget (map of_row rows)
unfolding of_row forget
map-of_row [] = refl
map-of_row (r ∷ rows) = ap (λ xs. forget (of_row r) ∷ xs) (map-of_row rows)

-- The time of the last indexing changes nothing in what is read.
pub active-undated :
    (rows : List AddressRow)
    → get_all_active_addresses (map undated rows) ≡ map forget (get_all_active_addresses rows)
unfolding get_all_active_addresses select_addresses of_row forget
active-undated rows =
    ap (λ xs. map of_row (sort_by ordered xs))
      (sym (map-filter (λ r. r.is_active) undated (λ r. refl) rows))
    ∙ ap (map of_row)
        (sym (map-sort_by ordered undated ordered-undated (filter (λ r. r.is_active) rows)))
    ∙ map-of_row (sort_by ordered (filter (λ r. r.is_active) rows))
