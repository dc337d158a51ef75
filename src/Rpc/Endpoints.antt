-- ===== src/Rpc/Endpoints.antt =====
-- indexer/src/rpc_manager.rs: the order in which the endpoints of a chain are tried.
use tuppira.Base.{
  ℕ, ◌≤◌, Text, List, [], ◌∷◌, Option, none, some, Bool, true, false, ◌==◌, leb, leb→le, leb→lt,
  filter, filter_cases, find, is_empty, if◌then◌else◌, All, ◌≡◌, refl, ◌∙◌, ap, arith, if_cases,
}
use tuppira.Base.Maps.{get}
use tuppira.Rpc.{
  RpcEndpoint, ChainRpcConfig, RpcConfig, insert_by_priority, sort_by_priority, has_url, best_of,
  best_of_chain, get_endpoint, all_of, all_of_chain, get_all_endpoints, health_check, first_healthy,
  get_healthy_endpoint,
}

abbrev pub head : List RpcEndpoint → Option RpcEndpoint
head [] = none
head (e ∷ es) = some e

-- Each endpoint has no greater priority number than those behind it.
abbrev pub IsSorted : List RpcEndpoint → Type 0
IsSorted [] = Unit
IsSorted (e ∷ es) = All (λ x. e.priority ≤ x.priority) es × IsSorted es

abbrev pub of_priority : ℕ → RpcEndpoint → Bool
of_priority n e = e.priority == n

All-insert :
    (n : ℕ) (e : RpcEndpoint) (es : List RpcEndpoint)
    → n ≤ e.priority
    → All (λ x. n ≤ x.priority) es
    → All (λ x. n ≤ x.priority) (insert_by_priority e es)
unfolding insert_by_priority
All-insert n e [] low h = (low, tt)
All-insert n e (x ∷ xs) low h =
    if_cases (All (λ x. n ≤ x.priority)) (leb e.priority x.priority) (λ _. (low, h))
      (λ _. (h.0, All-insert n e xs low h.1))

All-mono :
    (n m : ℕ) (es : List RpcEndpoint)
    → n ≤ m
    → All (λ x. m ≤ x.priority) es
    → All (λ x. n ≤ x.priority) es
All-mono n m [] low h = tt
All-mono n m (x ∷ xs) low h = (omega (arith, h.0), All-mono n m xs low h.1)

insert-IsSorted :
    (e : RpcEndpoint) (es : List RpcEndpoint) → IsSorted es → IsSorted (insert_by_priority e es)
unfolding insert_by_priority
insert-IsSorted e [] h = (tt, tt)
insert-IsSorted e (x ∷ xs) h =
    if_cases IsSorted (leb e.priority x.priority)
      (λ below.
        let small = leb→le e.priority x.priority below in
        ((small, All-mono e.priority x.priority xs small h.0), h))
      (λ above. (
        All-insert x.priority e xs (omega (arith, leb→lt e.priority x.priority above)) h.0,
        insert-IsSorted e xs h.1,
      ))

filter-insert :
    (n : ℕ) (e : RpcEndpoint) (es : List RpcEndpoint)
    → filter (of_priority n) (insert_by_priority e es) ≡ filter (of_priority n) (e ∷ es)
unfolding insert_by_priority
filter-insert n e [] = refl
filter-insert n e (x ∷ xs) = ground (arith, filter-insert n e xs)

sort-IsSorted : (es : List RpcEndpoint) → IsSorted (sort_by_priority es)
unfolding sort_by_priority
sort-IsSorted [] = tt
sort-IsSorted (e ∷ es) = insert-IsSorted e (sort_by_priority es) (sort-IsSorted es)

filter-sort :
    (n : ℕ) (es : List RpcEndpoint)
    → filter (of_priority n) (sort_by_priority es) ≡ filter (of_priority n) es
unfolding sort_by_priority
filter-sort n [] = refl
filter-sort n (e ∷ es) =
    filter-insert n e (sort_by_priority es)
    ∙ ap (λ rest. elim (of_priority n e) [ true ↦ e ∷ rest | false ↦ rest ]) (filter-sort n es)

filter-filter :
    (p q : RpcEndpoint → Bool) (es : List RpcEndpoint)
    → filter p (filter q es) ≡ filter q (filter p es)
filter-filter p q [] = refl
filter-filter p q (e ∷ es) = ground (arith, filter-filter p q es)

All-filter :
    (n : ℕ) (p : RpcEndpoint → Bool) (es : List RpcEndpoint)
    → All (λ x. n ≤ x.priority) es
    → All (λ x. n ≤ x.priority) (filter p es)
All-filter n p [] h = tt
All-filter n p (e ∷ es) h =
    filter_cases (All (λ x. n ≤ x.priority)) p e es (λ _. (h.0, All-filter n p es h.1))
      (All-filter n p es h.1)

filter-IsSorted :
    (p : RpcEndpoint → Bool) (es : List RpcEndpoint) → IsSorted es → IsSorted (filter p es)
filter-IsSorted p [] h = tt
filter-IsSorted p (e ∷ es) h =
    filter_cases IsSorted p e es (λ _. (All-filter e.priority p es h.0, filter-IsSorted p es h.1))
      (filter-IsSorted p es h.1)

-- The order in which the endpoints of a chain are tried: the primary one, if it has an address, then
-- the alternatives with an address by their priority, and those of one priority as configured.
pub record Tried (c : ChainRpcConfig) (endpoints : List RpcEndpoint) : Type 0 where
  pub alternatives : List RpcEndpoint
  pub primary_first :
      endpoints ≡ (if has_url c.primary then c.primary ∷ alternatives else alternatives)
  pub sorted : IsSorted alternatives
  pub stable :
      (n : ℕ)
      → filter (of_priority n) alternatives ≡ filter (of_priority n) (filter has_url c.alternatives)

find-head : (p : RpcEndpoint → Bool) (es : List RpcEndpoint) → find p es ≡ head (filter p es)
find-head p [] = refl
find-head p (e ∷ es) = ground (arith, find-head p es)

tried_lem : (c : ChainRpcConfig) → Tried c (all_of c)
unfolding all_of
tried_lem c = record {
  alternatives = filter has_url (sort_by_priority c.alternatives);
  primary_first = refl;
  sorted = filter-IsSorted has_url (sort_by_priority c.alternatives) (sort-IsSorted c.alternatives);
  stable = λ n.
      filter-filter (of_priority n) has_url (sort_by_priority c.alternatives)
      ∙ ap (filter has_url) (filter-sort n c.alternatives)
      ∙ filter-filter has_url (of_priority n) c.alternatives;
}

best_lem : (c : ChainRpcConfig) → best_of c ≡ head (all_of c)
unfolding best_of all_of
best_lem c = ground (arith, find-head has_url (sort_by_priority c.alternatives))

-- All endpoints of a configured chain are tried in that order, and the best one is the first.
get_all_endpoints-Tried :
    (config : RpcConfig) (chain : Text) (c : ChainRpcConfig)
    → get config.chains chain ≡ some c
    → Tried c (get_all_endpoints config chain)
      × (get_endpoint config chain ≡ head (get_all_endpoints config chain))
unfolding get_all_endpoints all_of_chain all_of get_endpoint best_of_chain best_of
get_all_endpoints-Tried config chain c found = rw found (tried_lem c, best_lem c)

-- The endpoint that is chosen: it passes its check, and those that are tried before it do not.
pub data Chosen (answers : RpcEndpoint → Bool)
    : List RpcEndpoint → Option RpcEndpoint → Type 0 where
  no_more : Chosen answers [] none
  passes :
      (e : RpcEndpoint) (es : List RpcEndpoint)
      → health_check answers e.endpoint_type e ≡ true
      → Chosen answers (e ∷ es) (some e)
  fails :
      (e : RpcEndpoint) (es : List RpcEndpoint) (chosen : Option RpcEndpoint)
      → health_check answers e.endpoint_type e ≡ false
      → Chosen answers es chosen
      → Chosen answers (e ∷ es) chosen

Chosen-first_healthy :
    (answers : RpcEndpoint → Bool) (es : List RpcEndpoint)
    → All (λ e. has_url e ≡ true) es
    → Chosen answers es (first_healthy answers es)
unfolding first_healthy
Chosen-first_healthy answers [] h = Chosen.no_more
Chosen-first_healthy answers (e ∷ es) h =
    let rest = Chosen-first_healthy answers es h.1 in
    if_cases (Chosen answers (e ∷ es)) (is_empty e.url) (λ bare. absurd (ground arith))
      (λ _.
        if_cases (Chosen answers (e ∷ es)) (health_check answers e.endpoint_type e)
          (λ sound. Chosen.passes e es sound) (λ bad. Chosen.fails e es _ bad rest))

All-has_url : (es : List RpcEndpoint) → All (λ e. has_url e ≡ true) (filter has_url es)
All-has_url [] = tt
All-has_url (e ∷ es) =
    filter_cases (All (λ e. has_url e ≡ true)) has_url e es (λ here. (here, All-has_url es))
      (All-has_url es)

all_of_chain-has_url : (c : Option ChainRpcConfig) → All (λ e. has_url e ≡ true) (all_of_chain c)
unfolding all_of_chain all_of
all_of_chain-has_url none = tt
all_of_chain-has_url (some c) =
    let rest = All-has_url (sort_by_priority c.alternatives) in
    if_cases (All (λ e. has_url e ≡ true)) (has_url c.primary) (λ h. (h, rest)) (λ _. rest)

-- How a configured chain is served: the order in which its endpoints are tried, the best of them,
-- and the healthy one.
pub record Served (answers : RpcEndpoint → Bool) (config : RpcConfig) (chain : Text)
    (c : ChainRpcConfig) : Type 0 where
  pub order : Tried c (get_all_endpoints config chain)
  pub best : get_endpoint config chain ≡ head (get_all_endpoints config chain)
  pub healthy :
      Chosen answers (get_all_endpoints config chain) (get_healthy_endpoint answers config chain)

-- The endpoints of a configured chain are tried with the primary one first and then by priority; the
-- best one is the first, and the healthy one the first that passes its check, whatever they answer.
pub get_healthy_endpoint-Served :
    (answers : RpcEndpoint → Bool) (config : RpcConfig) (chain : Text) (c : ChainRpcConfig)
    → get config.chains chain ≡ some c
    → Served answers config chain c
unfolding get_healthy_endpoint get_all_endpoints
get_healthy_endpoint-Served answers config chain c found =
    let (order, best) = get_all_endpoints-Tried config chain c found in
    record {
      order = order;
      best = best;
      healthy =
          Chosen-first_healthy answers (all_of_chain (get config.chains chain))
            (all_of_chain-has_url (get config.chains chain));
    }
