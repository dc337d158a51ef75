-- ===== src/Wallet/Repeats.antt =====
-- indexer/src/wallet_bridge.rs: every cycle asks the same about each
-- chain and level as long as no address comes or goes.
use tuppira.Base.{
  suc, Text, List, [], ◌∷◌, ◌++◌, append_assoc, append-nil, Bool, true, false, filter,
  filter-append, map, length, Result, All, if_cases, ◌≡◌, refl, sym, ap, ap₂, ◌∙◌,
}
use tuppira.Wallet.Groups.{of_chain, Distinct, IsWalk, addresses_by_chain-Distinct}
use tuppira.Wallet.Turns.{IsTurn, expected_call-IsTurn}
use tuppira.Wallet.Calls.{
  level_calls, about, expected_call, filter-level_calls, filter-level_calls_other,
}
use tuppira.Sync.Errors.{TuppiraError}
use tuppira.Wallet.Addresses.{PriorityLevel, AddressRow, PriorityAddress, get_all_active_addresses}
use tuppira.Wallet.Bridge.{
  AddressIndexer, WalletIndexerBridgeConfig, Writes, Call, BridgeState, find_address_indexer,
  of_level, level_eq, run_priority_indexing_cycle,
}
use tuppira.Wallet.Cycles.{undated, Asked, Asked-run_levels, cycle_calls, cycles}
use tuppira.Wallet.Undated.{expected_call-forget, turn_rows-forget, active-undated}

-- The calls of one cycle after the other.
abbrev pub in_turn : List (List Call) → List Call
in_turn [] = []
in_turn (calls ∷ rest) = calls ++ in_turn rest

-- The table is read, and each map yields every entry once.
abbrev pub IsRead : Writes → Type 0
IsRead w =
    (w.readable ≡ true)
    × ((p : PriorityLevel) (g : List (Text × List Text)) → Distinct g → IsWalk (w.walk p g) g)

filter_three :
    (p : Call → Bool) (xs ys zs : List Call)
    → filter p (xs ++ (ys ++ zs)) ≡ filter p xs ++ (filter p ys ++ filter p zs)
filter_three p xs ys zs =
    filter-append p xs (ys ++ zs) ∙ ap (λ k. filter p xs ++ k) (filter-append p ys zs)

module _ (indexers : List AddressIndexer) (config : WalletIndexerBridgeConfig) where
  -- What is asked about a chain at a level, by the code's grouping.
  unfoldable turn : List AddressRow → PriorityLevel → Text → List Call
  turn rows q chain =
      expected_call config.max_batch_size (find_address_indexer indexers chain) q chain
        (of_chain chain (of_level q (get_all_active_addresses rows)))

  turn-undated :
      (rows : List AddressRow) (q : PriorityLevel) (chain : Text)
      → turn (map undated rows) q chain ≡ turn rows q chain
  unfolding turn
  turn-undated rows q chain =
      let o = find_address_indexer indexers chain in
      ap (λ all. expected_call config.max_batch_size o q chain (of_chain chain (of_level q all)))
        (active-undated rows)
      ∙ ap (expected_call config.max_batch_size o q chain)
          (turn_rows-forget q chain (get_all_active_addresses rows))
      ∙ expected_call-forget config.max_batch_size o q chain _

  -- The calls depend on the rows without their times only.
  turn-same :
      (rows others : List AddressRow) (q : PriorityLevel) (chain : Text)
      → map undated rows ≡ map undated others
      → turn rows q chain ≡ turn others q chain
  turn-same rows others q chain same =
      sym (turn-undated rows q chain) ∙ ap (λ r. turn r q chain) same ∙ turn-undated others q chain

  module _ (w : Writes) (h : IsRead w) where
    about_level :
        (all : List PriorityAddress) (q : PriorityLevel) (chain : Text) (p : PriorityLevel)
        → List Call
    about_level all q chain p =
        filter (about chain q)
          (level_calls indexers config.max_batch_size (w.walk p) (of_level p all) p)

    own_level :
        (all : List PriorityAddress) (q : PriorityLevel) (chain : Text)
        → about_level all q chain q
          ≡ expected_call config.max_batch_size
              (find_address_indexer indexers chain)
              q
              chain
              (of_chain chain (of_level q all))
    unfolding about_level
    own_level all q chain =
        filter-level_calls indexers config.max_batch_size (w.walk q) (of_level q all) q chain
          (h.1 q _ (addresses_by_chain-Distinct [] (of_level q all) tt))

    other_level :
        (all : List PriorityAddress) (p q : PriorityLevel) (chain : Text)
        → level_eq p q ≡ false
        → about_level all q chain p ≡ []
    unfolding about_level
    other_level all p q chain apart =
        filter-level_calls_other indexers config.max_batch_size (w.walk p) (of_level p all) p q
          chain apart

    filter_levels :
        (all : List PriorityAddress) (q : PriorityLevel) (chain : Text)
        → filter (about chain q) (cycle_calls indexers config w all)
          ≡ about_level all q chain PriorityLevel.high
            ++ (about_level all q chain PriorityLevel.normal
                ++ about_level all q chain PriorityLevel.low)
    unfolding cycle_calls about_level
    filter_levels all q chain =
        let calls = λ (p : PriorityLevel).
          level_calls indexers config.max_batch_size (w.walk p) (of_level p all) p in
        filter_three (about chain q) (calls PriorityLevel.high) (calls PriorityLevel.normal)
          (calls PriorityLevel.low)

    filter-cycle_calls :
        (all : List PriorityAddress) (q : PriorityLevel) (chain : Text)
        → filter (about chain q) (cycle_calls indexers config w all)
          ≡ expected_call config.max_batch_size
              (find_address_indexer indexers chain)
              q
              chain
              (of_chain chain (of_level q all))
    unfolding level_eq
    filter-cycle_calls all PriorityLevel.high chain =
        filter_levels all PriorityLevel.high chain
        ∙ ap₂ (λ x y. x ++ y) (own_level all PriorityLevel.high chain)
            (ap₂ (λ x y. x ++ y)
              (other_level all PriorityLevel.normal PriorityLevel.high chain refl)
              (other_level all PriorityLevel.low PriorityLevel.high chain refl))
        ∙ append-nil _
    filter-cycle_calls all PriorityLevel.normal chain =
        filter_levels all PriorityLevel.normal chain
        ∙ ap₂ (λ x y. x ++ y) (other_level all PriorityLevel.high PriorityLevel.normal chain refl)
            (ap₂ (λ x y. x ++ y) (own_level all PriorityLevel.normal chain)
              (other_level all PriorityLevel.low PriorityLevel.normal chain refl))
        ∙ append-nil _
    filter-cycle_calls all PriorityLevel.low chain =
        filter_levels all PriorityLevel.low chain
        ∙ ap₂ (λ x y. x ++ y) (other_level all PriorityLevel.high PriorityLevel.low chain refl)
            (ap₂ (λ x y. x ++ y) (other_level all PriorityLevel.normal PriorityLevel.low chain refl)
              (own_level all PriorityLevel.low chain))

    Asked-cycle :
        (s : BridgeState)
        → Asked s
            (run_priority_indexing_cycle indexers config w s).1
            (cycle_calls indexers config w (get_all_active_addresses s.rows))
    unfolding run_priority_indexing_cycle
    Asked-cycle s =
        if_cases
          (λ (k : Result TuppiraError (Unit {0}) × BridgeState).
            Asked s k.1 (cycle_calls indexers config w (get_all_active_addresses s.rows)))
          w.readable (λ _. Asked-run_levels indexers config w (get_all_active_addresses s.rows) s)
          (λ unread. absurd (cc (h.0, unread)))

  -- What the cycles have asked, cycle by cycle, when each asks about every chain and level what the
  -- rows lead to.
  record Repeated (rows : List AddressRow) (ws : List Writes) (s t : BridgeState) : Type 0 where
    per_cycle : List (List Call)
    asked : t.asked ≡ s.asked ++ in_turn per_cycle
    number : length per_cycle ≡ length ws
    same :
        All
          (λ calls.
            (q : PriorityLevel) (chain : Text) → filter (about chain q) calls ≡ turn rows q chain)
          per_cycle

  cycles-Repeated :
      (rows : List AddressRow) (ws : List Writes) (s : BridgeState)
      → All IsRead ws
      → map undated s.rows ≡ map undated rows
      → Repeated rows ws s (cycles indexers config ws s)
  unfolding cycles
  cycles-Repeated rows [] s h e = record {
    per_cycle = [];
    asked = sym (append-nil s.asked);
    number = refl;
    same = tt;
  }
  cycles-Repeated rows (w ∷ ws) s h e =
      let d = Asked-cycle w h.0 s in
      let t = (run_priority_indexing_cycle indexers config w s).1 in
      let calls = cycle_calls indexers config w (get_all_active_addresses s.rows) in
      let more = cycles-Repeated rows ws t h.1 (d.rows ∙ e) in
      record {
        per_cycle = calls ∷ more.per_cycle;
        asked =
            more.asked
            ∙ ap (λ z. z ++ in_turn more.per_cycle) d.asked
            ∙ append_assoc s.asked calls (in_turn more.per_cycle);
        number = ap suc more.number;
        same = (
          λ q chain.
              filter-cycle_calls w h.0 (get_all_active_addresses s.rows) q chain
              ∙ unfold turn in turn-same s.rows rows q chain e,
          more.same,
        );
      }

  -- While no address is registered or unregistered, every cycle that reads the table asks the
  -- indexers the same about each chain and level, in whatever order the maps yield their entries,
  -- each once: nothing without an indexer of the chain or without active rows of the two, and else
  -- one call, for the first `max_batch_size` of these rows, or all if there are fewer, and with the
  -- network of the last of them all. Rows with one text for their priority are in the order of their
  -- registration.
  pub cycles-repeat :
      (ws : List Writes) (s : BridgeState)
      → All IsRead ws
      → (asks : (PriorityLevel → Text → List Call)) × (per_cycle : List (List Call)) × ((cycles
            indexers config ws s).asked
          ≡ s.asked ++ in_turn per_cycle)
        × (length per_cycle ≡ length ws)
        × All
            (λ calls.
              (q : PriorityLevel) (chain : Text) → filter (about chain q) calls ≡ asks q chain)
            per_cycle
        × ((q : PriorityLevel) (chain : Text)
            → IsTurn config.max_batch_size
                (find_address_indexer indexers chain)
                s.rows
                q
                chain
                (asks q chain))
  cycles-repeat ws s h =
      let r = cycles-Repeated s.rows ws s h refl in
      (
        turn s.rows,
        r.per_cycle,
        r.asked,
        r.number,
        r.same,
        λ q chain.
            unfold turn in
            expected_call-IsTurn config.max_batch_size (find_address_indexer indexers chain) s.rows
              q chain,
      )
