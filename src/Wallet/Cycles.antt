-- ===== src/Wallet/Cycles.antt =====
-- indexer/src/wallet_bridge.rs: what the indexers are asked in one cycle after the other.
use tuppira.Base.{
  ℕ, Text, List, [], ◌∷◌, ◌++◌, append_assoc, append-nil, Option, none, some, Bool, map, Result, ok,
  err, if_cases, ◌≡◌, refl, sym, ap, ap₂, ◌∙◌,
}
use tuppira.Wallet.Calls.{call_of, group_calls, level_calls}
use tuppira.WalletFeed.Event.{Network}
use tuppira.Sync.Errors.{TuppiraError}
use tuppira.Wallet.Addresses.{
  PriorityLevel, AddressRow, PriorityAddress, stamp, update_last_indexed_at,
  IndexingActivityRequest,
}
use tuppira.Wallet.Bridge.{
  AddressIndexer, AddressIndexingResult, WalletIndexerBridgeConfig, Writes, Call, BridgeState, note,
  touch, note_success, note_failure, after_indexing, ask, index_found, index_groups,
  index_addresses_by_priority_level, of_level, run_levels, run_priority_indexing_cycle,
}

-- A row without the time of its last indexing.
abbrev pub undated : AddressRow → AddressRow
undated r = record r { last_indexed_at = none }

-- The state after `t` is that of `s` but for activities and times, and with `calls` behind what was asked.
pub record Asked (s t : BridgeState) (calls : List Call) : Type 0 where
  pub asked : t.asked ≡ s.asked ++ calls
  pub rows : map undated t.rows ≡ map undated s.rows

Asked-refl : (s : BridgeState) → Asked s s []
Asked-refl s = record { asked = sym (append-nil s.asked); rows = refl }

Asked-trans :
    (s t u : BridgeState) (xs ys : List Call) → Asked s t xs → Asked t u ys → Asked s u (xs ++ ys)
Asked-trans s t u xs ys h k = record {
  asked = k.asked ∙ ap (λ z. z ++ ys) h.asked ∙ append_assoc s.asked xs ys;
  rows = k.rows ∙ h.rows;
}

undated-stamp :
    (p : AddressRow → Bool) (now : ℕ) (r : AddressRow) → undated (stamp p now r) ≡ undated r
unfolding stamp
undated-stamp p now r = if_cases (λ k. undated k ≡ undated r) (p r) (λ _. refl) (λ _. refl)

map-undated :
    (p : AddressRow → Bool) (now : ℕ) (rows : List AddressRow)
    → map undated (map (stamp p now) rows) ≡ map undated rows
map-undated p now [] = refl
map-undated p now (r ∷ rows) = ap₂ (λ x xs. x ∷ xs) (undated-stamp p now r) (map-undated p now rows)

Asked-touch :
    (w : Writes) (address chain : Text) (network : Network) (s : BridgeState)
    → Asked s (touch w address chain network s) []
unfolding touch update_last_indexed_at
Asked-touch w address chain network s =
    if_cases (λ k. Asked s k []) (w.takes address "last_indexed_at")
      (λ _. record { asked = sym (append-nil s.asked); rows = map-undated _ w.now s.rows })
      (λ _. Asked-refl s)

Asked-note :
    (w : Writes) (request : IndexingActivityRequest) (s : BridgeState)
    → Asked s (note w request s) []
unfolding note
Asked-note w request s =
    if_cases (λ k. Asked s k []) (w.takes request.address request.indexed_type)
      (λ _. record { asked = sym (append-nil s.asked); rows = refl }) (λ _. Asked-refl s)

Asked-note_success :
    (w : Writes) (chain : Text) (network : Network) (result : AddressIndexingResult)
    (batch : List Text) (s : BridgeState)
    → Asked s (note_success w chain network result batch s) []
unfolding note_success
Asked-note_success w chain network result [] s = Asked-refl s
Asked-note_success w chain network result (address ∷ batch) s =
    Asked-trans _ _ _ [] [] (Asked-note w _ s) (
      Asked-trans _ _ _ [] [] (Asked-note w _ _) (
        Asked-trans _ _ _ [] [] (Asked-note w _ _) (
          Asked-trans _ _ _ [] [] (Asked-touch w address chain network _)
            (Asked-note_success w chain network result batch _))))

Asked-note_failure :
    (w : Writes) (chain : Text) (network : Network) (error : TuppiraError) (batch : List Text)
    (s : BridgeState)
    → Asked s (note_failure w chain network error batch s) []
unfolding note_failure
Asked-note_failure w chain network error [] s = Asked-refl s
Asked-note_failure w chain network error (address ∷ batch) s =
    Asked-trans _ _ _ [] [] (Asked-note w _ s) (Asked-note_failure w chain network error batch _)

Asked-after_indexing :
    (w : Writes) (chain : Text) (network : Network) (batch : List Text)
    (result : Result TuppiraError AddressIndexingResult) (s : BridgeState)
    → Asked s (after_indexing w chain network batch result s) []
unfolding after_indexing
Asked-after_indexing w chain network batch (ok result) s =
    Asked-note_success w chain network result batch s
Asked-after_indexing w chain network batch (err error) s =
    Asked-note_failure w chain network error batch s

Asked-ask :
    (w : Writes) (indexer : AddressIndexer) (chain : Text) (batch : List Text)
    (priority : PriorityLevel) (network : Network) (s : BridgeState)
    → Asked s (ask w indexer chain batch priority network s) (
        record { chain_id = chain; addresses = batch; priority = priority; network = network } ∷ [])
unfolding ask
Asked-ask w indexer chain batch priority network s =
    let call : Call = record {
      chain_id = chain;
      addresses = batch;
      priority = priority;
      network = network;
    } in
    Asked-trans s (record s { asked = s.asked ++ call ∷ [] }) _ (call ∷ []) []
      (record { asked = refl; rows = refl }) (Asked-after_indexing w chain network batch _ _)

module _ (indexers : List AddressIndexer) (config : WalletIndexerBridgeConfig) where
  Asked-index_found :
      (w : Writes) (o : Option AddressIndexer) (priority : PriorityLevel) (network : Network)
      (chain : Text) (addresses : List Text) (s : BridgeState)
      → Asked s
          (index_found indexers config w o priority network chain addresses s)
          (call_of indexers config.max_batch_size o priority network chain addresses)
  unfolding index_found call_of
  Asked-index_found w none priority network chain addresses s = Asked-refl s
  Asked-index_found w (some indexer) priority network chain addresses s =
      Asked-ask w indexer chain _ priority network s

  Asked-index_groups :
      (w : Writes) (priority : PriorityLevel) (networks : List (Text × Network))
      (groups : List (Text × List Text)) (s : BridgeState)
      → Asked s
          (index_groups indexers config w priority networks groups s)
          (group_calls indexers config.max_batch_size priority networks groups)
  unfolding index_groups group_calls
  Asked-index_groups w priority networks [] s = Asked-refl s
  Asked-index_groups w priority networks ((chain, addresses) ∷ groups) s =
      Asked-trans s _ _ _ _ (Asked-index_found w _ priority _ chain addresses s)
        (Asked-index_groups w priority networks groups _)

  -- What the levels of a cycle ask, for the addresses that are read.
  unfoldable pub cycle_calls : Writes → List PriorityAddress → List Call
  cycle_calls w all =
      let calls = λ (p : PriorityLevel).
        level_calls indexers config.max_batch_size (w.walk p) (of_level p all) p in
      calls PriorityLevel.high ++ (calls PriorityLevel.normal ++ calls PriorityLevel.low)

  Asked-level :
      (w : Writes) (addresses : List PriorityAddress) (priority : PriorityLevel) (s : BridgeState)
      → Asked s
          (index_addresses_by_priority_level indexers config w addresses priority s)
          (level_calls indexers config.max_batch_size (w.walk priority) addresses priority)
  unfolding index_addresses_by_priority_level level_calls
  Asked-level w addresses priority s = Asked-index_groups w priority _ _ s

  pub Asked-run_levels :
      (w : Writes) (all : List PriorityAddress) (s : BridgeState)
      → Asked s (run_levels indexers config w all s) (cycle_calls w all)
  unfolding run_levels cycle_calls
  Asked-run_levels w all s = Asked-trans s _ _ _ _ (Asked-level w _ PriorityLevel.high s) (
      Asked-trans _ _ _ _ _ (Asked-level w _ PriorityLevel.normal _)
        (Asked-level w _ PriorityLevel.low _))

  -- One cycle after the other.
  unfoldable pub cycles : List Writes → BridgeState → BridgeState
  cycles [] s = s
  cycles (w ∷ ws) s = cycles ws (run_priority_indexing_cycle indexers config w s).1
