-- ===== src/Wallet/Groups.antt =====
-- indexer/src/wallet_bridge.rs: the two maps by chain that are built from a list of addresses.
use tuppira.Base.{
  Text, text_eq, text_eq_iff, List, [], ◌∷◌, ◌++◌, append_assoc, append-nil, Option, none, some,
  Bool, true, false, filter, map, if◌then◌else◌, ◌≡◌, refl, sym, ap, ◌∙◌, arith, if_cases,
}
use tuppira.Base.Maps.{get, insert, get-insert}
use tuppira.WalletFeed.Event.{Network}
use tuppira.Wallet.Addresses.{PriorityAddress}
use tuppira.Wallet.Bridge.{push_address, addresses_by_chain, network_map}

-- The addresses of a chain, in their order.
abbrev pub of_chain : Text → List PriorityAddress → List PriorityAddress
of_chain chain addresses = filter (λ a. text_eq a.chain chain) addresses

abbrev pub last_network : Option Network → List PriorityAddress → Option Network
last_network o [] = o
last_network o (a ∷ addresses) = last_network (some a.network) addresses

abbrev pub merged : Option (List Text) → List Text → Option (List Text)
merged none [] = none
merged none (x ∷ xs) = some (x ∷ xs)
merged (some ys) xs = some (ys ++ xs)

merged-nil : (o : Option (List Text)) → merged o [] ≡ o
merged-nil none = refl
merged-nil (some ys) = ap some (append-nil ys)

merged-merged :
    (o : Option (List Text)) (x : Text) (xs : List Text)
    → merged (merged o (x ∷ [])) xs ≡ merged o (x ∷ xs)
merged-merged none x xs = refl
merged-merged (some ys) x xs = ap some (append_assoc ys (x ∷ []) xs)

get-push_address :
    (g : List (Text × List Text)) (k a c : Text)
    → get (push_address g k a) c ≡ (if text_eq k c then merged (get g c) (a ∷ []) else get g c)
unfolding get push_address
get-push_address [] k a c = refl
get-push_address ((j, xs) ∷ g) k a c =
    ground (arith, get-push_address g k a c, text_eq_iff j k, text_eq_iff k c, text_eq_iff j c)

merged_step :
    (b : Bool) (o : Option (List Text)) (a : PriorityAddress) (rest : List PriorityAddress)
    → merged (if b then merged o (a.address ∷ []) else o) (map (λ x. x.address) rest)
      ≡ merged o (map (λ x. x.address) (elim b [ true ↦ a ∷ rest | false ↦ rest ]))
merged_step true o a rest = merged-merged o a.address (map (λ x. x.address) rest)
merged_step false o a rest = refl

network_step :
    (b : Bool) (o : Option Network) (a : PriorityAddress) (rest : List PriorityAddress)
    → last_network (if b then some a.network else o) rest
      ≡ last_network o (elim b [ true ↦ a ∷ rest | false ↦ rest ])
network_step true o a rest = refl
network_step false o a rest = refl

pub get-addresses_by_chain :
    (g : List (Text × List Text)) (addresses : List PriorityAddress) (c : Text)
    → get (addresses_by_chain g addresses) c
      ≡ merged (get g c) (map (λ x. x.address) (of_chain c addresses))
unfolding addresses_by_chain
get-addresses_by_chain g [] c = sym (merged-nil (get g c))
get-addresses_by_chain g (a ∷ addresses) c =
    get-addresses_by_chain (push_address g a.chain a.address) addresses c
    ∙ ap (λ o. merged o (map (λ x. x.address) (of_chain c addresses)))
        (get-push_address g a.chain a.address c)
    ∙ merged_step (text_eq a.chain c) (get g c) a (of_chain c addresses)

pub get-network_map :
    (networks : List (Text × Network)) (addresses : List PriorityAddress) (c : Text)
    → get (network_map networks addresses) c ≡ last_network (get networks c) (of_chain c addresses)
unfolding network_map
get-network_map networks [] c = refl
get-network_map networks (a ∷ addresses) c =
    get-network_map (insert networks a.chain a.network) addresses c
    ∙ ap (λ o. last_network o (of_chain c addresses)) (get-insert networks a.chain c a.network)
    ∙ network_step (text_eq a.chain c) (get networks c) a (of_chain c addresses)

-- Each chain has one entry.
abbrev pub Distinct : List (Text × List Text) → Type 0
Distinct [] = Unit
Distinct ((k, xs) ∷ g) = (get g k ≡ none) × Distinct g

-- An order in which a map yields its entries: each key once, with its value.
abbrev pub IsWalk : List (Text × List Text) → List (Text × List Text) → Type 0
IsWalk yielded g = Distinct yielded × ((k : Text) → get yielded k ≡ get g k)

text_eq-sym : (j k : Text) → text_eq j k ≡ false → text_eq k j ≡ false
text_eq-sym j k apart = ground (arith, text_eq_iff j k, text_eq_iff k j)

push_address-Distinct :
    (g : List (Text × List Text)) (k a : Text) → Distinct g → Distinct (push_address g k a)
unfolding push_address get
push_address-Distinct [] k a d = (refl, tt)
push_address-Distinct ((j, xs) ∷ g) k a d =
    if_cases Distinct (text_eq j k) (λ _. d)
      (λ apart. (
        get-push_address g k a j ∙ rw (text_eq-sym j k apart) (d.0),
        push_address-Distinct g k a d.1,
      ))

pub addresses_by_chain-Distinct :
    (g : List (Text × List Text)) (addresses : List PriorityAddress)
    → Distinct g
    → Distinct (addresses_by_chain g addresses)
unfolding addresses_by_chain
addresses_by_chain-Distinct g [] d = d
addresses_by_chain-Distinct g (a ∷ addresses) d =
    addresses_by_chain-Distinct (push_address g a.chain a.address) addresses
      (push_address-Distinct g a.chain a.address d)
