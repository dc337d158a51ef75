-- ===== src/Wallet/Batches.antt =====
-- indexer/src/wallet_bridge.rs: the call for the rows of one chain at one level.
use tuppira.Base.{
  ℕ, zero, suc, ◌≤◌, Text, List, [], ◌∷◌, ◌++◌, length, Option, none, some, map, ◌≡◌, ◌⊎◌, inl, inr,
  refl, sym, ap, ◌∙◌, arith,
}
use tuppira.WalletFeed.Event.{Network}
use tuppira.Wallet.Addresses.{PriorityLevel, AddressRow, PriorityAddress, network_of_str, of_row}
use tuppira.Wallet.Bridge.{AddressIndexer, Call, network_or_mainnet, take_addresses}
use tuppira.Wallet.Groups.{last_network}
use tuppira.Wallet.Calls.{expected_call}

-- One call with a batch: the first addresses, as many as `max` or all of them, and the network of
-- the last row.
pub record IsBatch (max : ℕ) (q : PriorityLevel) (chain : Text) (rows : List AddressRow)
    (calls : List Call) : Type 0 where
  pub batch : List Text
  pub later : List Text
  pub addresses : map (λ (r : AddressRow). r.address) rows ≡ batch ++ later
  pub few : length batch ≤ max
  pub full : (length batch ≡ max) ⊎ (later ≡ [])
  pub before : List AddressRow
  pub last : AddressRow
  pub ends : rows ≡ before ++ last ∷ []
  pub call :
      calls
      ≡ record {
        chain_id = chain;
        addresses = batch;
        priority = q;
        network = network_of_str last.network;
      }
        ∷ []

-- Nothing is asked without an indexer or without rows.
abbrev pub IsAsked :
    ℕ → Option AddressIndexer → PriorityLevel → Text → List AddressRow → List Call → Type 0
IsAsked max none q chain rows calls = calls ≡ []
IsAsked max (some indexer) q chain [] calls = calls ≡ []
IsAsked max (some indexer) q chain (r ∷ rows) calls = IsBatch max q chain (r ∷ rows) calls

take_addresses-split :
    (n : ℕ) (xs : List Text)
    → (later : List Text) × (xs ≡ take_addresses n xs ++ later)
      × (length (take_addresses n xs) ≤ n)
      × ((length (take_addresses n xs) ≡ n) ⊎ (later ≡ []))
unfolding take_addresses
take_addresses-split zero xs = (xs, refl, omega arith, inl refl)
take_addresses-split (suc n) [] = ([], refl, omega arith, inr refl)
take_addresses-split (suc n) (x ∷ xs) =
    let (later, whole, few, full) = take_addresses-split n xs in
    (
      later,
      ap (λ l. x ∷ l) whole,
      omega (arith, few),
      elim full [ inl all ↦ inl (ap suc all) | inr no_more ↦ inr no_more ],
    )

last_network-last :
    (o : Option Network) (r : AddressRow) (rows : List AddressRow)
    → (before : List AddressRow) × (last : AddressRow) × (r ∷ rows ≡ before ++ last ∷ [])
      × (last_network o (map of_row (r ∷ rows)) ≡ some (network_of_str last.network))
last_network-last o r [] = ([], r, refl, unfold of_row in refl)
last_network-last o r (x ∷ rows) =
    let (before, last, ends, at) = last_network-last (some (of_row r).network) x rows in
    (r ∷ before, last, ap (λ l. r ∷ l) ends, at)

addresses-of_row :
    (rows : List AddressRow)
    → map (λ (x : PriorityAddress). x.address) (map of_row rows)
      ≡ map (λ (r : AddressRow). r.address) rows
unfolding of_row
addresses-of_row [] = refl
addresses-of_row (r ∷ rows) = ap (λ l. r.address ∷ l) (addresses-of_row rows)

pub expected_call-IsAsked :
    (max : ℕ) (o : Option AddressIndexer) (q : PriorityLevel) (chain : Text)
    (rows : List AddressRow)
    → IsAsked max o q chain rows (expected_call max o q chain (map of_row rows))
unfolding expected_call
expected_call-IsAsked max none q chain rows = refl
expected_call-IsAsked max (some indexer) q chain [] = refl
expected_call-IsAsked max (some indexer) q chain (r ∷ rows) =
    let xs = map (λ (x : PriorityAddress). x.address) (map of_row (r ∷ rows)) in
    let (later, whole, few, full) = take_addresses-split max xs in
    let (before, last, ends, at) = last_network-last none r rows in
    record {
      batch = take_addresses max xs;
      later = later;
      addresses = sym (addresses-of_row (r ∷ rows)) ∙ whole;
      few = few;
      full = full;
      before = before;
      last = last;
      ends = ends;
      call = rw at (unfold network_or_mainnet in refl);
    }
