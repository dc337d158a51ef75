-- ===== src/Wallet/Calls.antt =====
-- indexer/src/wallet_bridge.rs: the calls that a list of addresses leads to, chain by chain.
use tuppira.Base.{
  ℕ, Text, text_eq, text_eq_iff, List, [], ◌∷◌, ◌++◌, append-nil, Option, none, some, Bool, true,
  false, ◌&&◌, filter, filter-append, map, if◌then◌else◌, ◌≡◌, refl, ap₂, ◌∙◌, subst, arith,
}
use tuppira.Base.Maps.{get}
use tuppira.WalletFeed.Event.{Network}
use tuppira.Wallet.Addresses.{PriorityLevel, PriorityAddress}
use tuppira.Wallet.Bridge.{
  AddressIndexer, Call, addresses_by_chain, network_map, network_or_mainnet, take_addresses,
  find_address_indexer, level_eq,
}
use tuppira.Wallet.Groups.{
  of_chain, last_network, merged, Distinct, IsWalk, get-addresses_by_chain, get-network_map,
}

-- One call for a chain with an indexer and addresses: for the first `max` of them, and with the
-- network of the last.
unfoldable pub expected_call :
    ℕ → Option AddressIndexer → PriorityLevel → Text → List PriorityAddress → List Call
expected_call max none priority chain addresses = []
expected_call max (some indexer) priority chain [] = []
expected_call max (some indexer) priority chain (a ∷ addresses) =
    record {
      chain_id = chain;
      addresses = take_addresses max (map (λ x. x.address) (a ∷ addresses));
      priority = priority;
      network = network_or_mainnet (last_network none (a ∷ addresses));
    }
    ∷ []

-- What is asked about one chain at one level.
abbrev pub about : Text → PriorityLevel → Call → Bool
about chain priority call = text_eq call.chain_id chain && level_eq call.priority priority

level_eq_refl : (p : PriorityLevel) → level_eq p p ≡ true
unfolding level_eq
level_eq_refl PriorityLevel.high = refl
level_eq_refl PriorityLevel.normal = refl
level_eq_refl PriorityLevel.low = refl

module _ (indexers : List AddressIndexer) (max : ℕ) where
  unfoldable pub call_of :
      Option AddressIndexer → PriorityLevel → Network → Text → List Text → List Call
  call_of none priority network chain addresses = []
  call_of (some indexer) priority network chain addresses =
      record {
        chain_id = chain;
        addresses = take_addresses max addresses;
        priority = priority;
        network = network;
      }
      ∷ []

  unfoldable pub group_calls :
      PriorityLevel → List (Text × Network) → List (Text × List Text) → List Call
  group_calls priority networks [] = []
  group_calls priority networks ((chain, addresses) ∷ groups) =
      call_of (find_address_indexer indexers chain) priority
        (network_or_mainnet (get networks chain)) chain addresses
      ++ group_calls priority networks groups

  -- The calls of a level, whose map yields its entries in some order.
  unfoldable pub level_calls :
      (List (Text × List Text) → List (Text × List Text))
      → List PriorityAddress
      → PriorityLevel
      → List Call
  level_calls walk addresses priority =
      group_calls priority (network_map [] addresses) (walk (addresses_by_chain [] addresses))

  entry_calls : PriorityLevel → Network → Text → Option (List Text) → List Call
  entry_calls priority network chain none = []
  entry_calls priority network chain (some addresses) =
      call_of (find_address_indexer indexers chain) priority network chain addresses

  filter-call_of :
      (o : Option AddressIndexer) (priority : PriorityLevel) (network : Network) (k chain : Text)
      (xs : List Text)
      → filter (about chain priority) (call_of o priority network k xs)
        ≡ (if text_eq k chain then call_of o priority network k xs else [])
  unfolding call_of
  filter-call_of none priority network k chain xs = ground arith
  filter-call_of (some indexer) priority network k chain xs = ground (arith, level_eq_refl priority)

  entry_step :
      (priority : PriorityLevel) (networks : List (Text × Network))
      (groups : List (Text × List Text)) (k chain : Text) (xs : List Text)
      → get groups k ≡ none
      → (b : Bool) → text_eq k chain ≡ b
      → (if b
            then call_of
                (find_address_indexer indexers k)
                priority
                (network_or_mainnet (get networks k))
                k
                xs
            else [])
          ++ entry_calls priority (network_or_mainnet (get networks chain)) chain (get groups chain)
        ≡ entry_calls priority
            (network_or_mainnet (get networks chain))
            chain
            (if b then some xs else get groups chain)
  unfolding entry_calls
  entry_step priority networks groups k chain xs fresh true here =
      subst
        (λ c.
          call_of (find_address_indexer indexers k) priority (network_or_mainnet (get networks k)) k
              xs
            ++ entry_calls priority (network_or_mainnet (get networks c)) c (get groups c)
          ≡ entry_calls priority (network_or_mainnet (get networks c)) c (some xs))
        ((text_eq_iff k chain).0 here) (rw fresh (append-nil _))
  entry_step priority networks groups k chain xs fresh false other = refl

  -- Of the groups with distinct chains, those about one chain are the calls of its entry.
  filter-group_calls :
      (priority : PriorityLevel) (networks : List (Text × Network))
      (groups : List (Text × List Text)) (chain : Text)
      → Distinct groups
      → filter (about chain priority) (group_calls priority networks groups)
        ≡ entry_calls priority (network_or_mainnet (get networks chain)) chain (get groups chain)
  unfolding group_calls entry_calls get
  filter-group_calls priority networks [] chain d = refl
  filter-group_calls priority networks ((k, xs) ∷ groups) chain d =
      filter-append (about chain priority)
        (call_of (find_address_indexer indexers k) priority (network_or_mainnet (get networks k)) k
          xs)
        (group_calls priority networks groups)
      ∙ ap₂ (λ x y. x ++ y)
          (filter-call_of (find_address_indexer indexers k) priority
            (network_or_mainnet (get networks k)) k chain xs)
          (filter-group_calls priority networks groups chain d.1)
      ∙ entry_step priority networks groups k chain xs d.0 (text_eq k chain) refl

  other_call :
      (o : Option AddressIndexer) (p q : PriorityLevel) (network : Network) (k chain : Text)
      (xs : List Text)
      → level_eq p q ≡ false
      → filter (about chain q) (call_of o p network k xs) ≡ []
  unfolding call_of
  other_call none p q network k chain xs apart = refl
  other_call (some indexer) p q network k chain xs apart = ground arith

  filter-other_level :
      (p q : PriorityLevel) (networks : List (Text × Network)) (groups : List (Text × List Text))
      (chain : Text)
      → level_eq p q ≡ false
      → filter (about chain q) (group_calls p networks groups) ≡ []
  unfolding group_calls
  filter-other_level p q networks [] chain apart = refl
  filter-other_level p q networks ((k, xs) ∷ groups) chain apart =
      filter-append (about chain q)
        (call_of (find_address_indexer indexers k) p (network_or_mainnet (get networks k)) k xs)
        (group_calls p networks groups)
      ∙ ap₂ (λ x y. x ++ y)
          (other_call (find_address_indexer indexers k) p q (network_or_mainnet (get networks k)) k
            chain xs apart)
          (filter-other_level p q networks groups chain apart)

  no_addresses :
      (o : Option AddressIndexer) (priority : PriorityLevel) (chain : Text)
      → [] ≡ expected_call max o priority chain []
  unfolding expected_call
  no_addresses none priority chain = refl
  no_addresses (some indexer) priority chain = refl

  some_addresses :
      (o : Option AddressIndexer) (priority : PriorityLevel) (chain : Text) (a : PriorityAddress)
      (rest : List PriorityAddress)
      → call_of o priority
          (network_or_mainnet (last_network none (a ∷ rest)))
          chain
          (map (λ x. x.address) (a ∷ rest))
        ≡ expected_call max o priority chain (a ∷ rest)
  unfolding expected_call call_of
  some_addresses none priority chain a rest = refl
  some_addresses (some indexer) priority chain a rest = refl

  entry_expected :
      (priority : PriorityLevel) (chain : Text) (addresses : List PriorityAddress)
      → entry_calls priority
          (network_or_mainnet (last_network none addresses))
          chain
          (merged none (map (λ x. x.address) addresses))
        ≡ expected_call max (find_address_indexer indexers chain) priority chain addresses
  unfolding entry_calls expected_call call_of
  entry_expected priority chain [] =
      no_addresses (find_address_indexer indexers chain) priority chain
  entry_expected priority chain (a ∷ addresses) =
      some_addresses (find_address_indexer indexers chain) priority chain a addresses

  -- What is asked about a chain at a level, in terms of the addresses alone.
  pub filter-level_calls :
      (walk : List (Text × List Text) → List (Text × List Text)) (addresses : List PriorityAddress)
      (priority : PriorityLevel) (chain : Text)
      → IsWalk (walk (addresses_by_chain [] addresses)) (addresses_by_chain [] addresses)
      → filter (about chain priority) (level_calls walk addresses priority)
        ≡ expected_call max
            (find_address_indexer indexers chain)
            priority
            chain
            (of_chain chain addresses)
  unfolding level_calls get
  filter-level_calls walk addresses priority chain w =
      filter-group_calls priority (network_map [] addresses)
        (walk (addresses_by_chain [] addresses)) chain w.0
      ∙ ap₂ (λ n xs. entry_calls priority (network_or_mainnet n) chain xs)
          (get-network_map [] addresses chain)
          (w.1 chain ∙ get-addresses_by_chain [] addresses chain)
      ∙ entry_expected priority chain (of_chain chain addresses)

  pub filter-level_calls_other :
      (walk : List (Text × List Text) → List (Text × List Text)) (addresses : List PriorityAddress)
      (p q : PriorityLevel) (chain : Text)
      → level_eq p q ≡ false
      → filter (about chain q) (level_calls walk addresses p) ≡ []
  unfolding level_calls
  filter-level_calls_other walk addresses p q chain apart =
      filter-other_level p q (network_map [] addresses) (walk (addresses_by_chain [] addresses))
        chain apart
