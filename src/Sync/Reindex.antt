-- ===== src/Sync/Reindex.antt =====
-- indexer/src/sync.rs: `reindex_from` and the status after a turn.
use tuppira.Base.{
  ℕ, zero, suc, ◌+◌, ◌^◌, ◌≤◌, ◌<◌, Text, text_eq, text_eq_iff, List, [], ◌∷◌, Option, none, some,
  Bool, true, false, Result, ok, map, ◌≡◌, ◌≢◌, inl, inr, refl, ◌∙◌, sym, ap, ap₂, subst, arith,
  Bool-cases,
}
use tuppira.Base.Maps.{get}
use tuppira.WalletFeed.Protocol.{Protocol}
use tuppira.Sync.Errors.{TuppiraError}
use tuppira.Sync.Progress.{
  SyncProgressRow, Disk, get_latest_block, block_of, row_of_chain, progress_row, reset,
  row_of_chain-upsert, row_of_chain-reset,
}
use tuppira.Sync.Chain.{
  ChainConfig, SyncState, SyncContext, ChainIndexer, from_block, configured_start, start_or_genesis,
}
use tuppira.Sync.Runs.{Synced, advanced}
use tuppira.Sync.Start.{position, last_block, sync_chain-Ran, Ran-Synced, tip_of}
use tuppira.Sync.Coordinator.{
  SyncCoordinator, with_start, effective_config, find_indexer, sync_found, sync_chain_from,
  sync_chain_from_block, reindex_from, turn, after_sync, status, update_states, chain_info,
}

-- The block behind which a requested run starts: without a configuration the request is lost.
abbrev pub requested_start : Option ChainConfig → ℕ → ℕ
requested_start none from_block = 0
requested_start (some config) from_block = from_block

requested_start_lem :
    (config : Option ChainConfig) (block : ℕ)
    → configured_start (effective_config (some block) config) ≡ requested_start config block
unfolding effective_config with_start configured_start start_or_genesis
requested_start_lem none block = refl
requested_start_lem (some config) block = refl

row_of_chain-reset_other :
    (rows : List SyncProgressRow) (chain other : Text)
    → other ≢ chain
    → row_of_chain (reset rows chain) other ≡ row_of_chain rows other
unfolding row_of_chain reset
row_of_chain-reset_other [] chain other h = refl
row_of_chain-reset_other (r ∷ rows) chain other h = ground (
  arith,
  row_of_chain-reset_other rows chain other h,
  text_eq_iff r.chain chain,
  text_eq_iff r.chain other,
)

requested_start_bound :
    (config : Option ChainConfig) (block : ℕ) → requested_start config block ≤ block
requested_start_bound none block = omega arith
requested_start_bound (some config) block = omega arith

position-reset :
    (batch_size : ℕ) (s : SyncState) (config : Option ChainConfig) (chain : Text) (block : ℕ)
    → position chain
        (record { batch_size = batch_size; chain_config = effective_config (some block) config })
        (record s { progress = reset s.progress chain })
      ≡ requested_start config block
unfolding from_block get_latest_block block_of
position-reset batch_size s config chain block =
    rw (row_of_chain-reset s.progress chain) (requested_start_lem config block)

not_text_eq : (s t : Text) → s ≢ t → text_eq s t ≡ false
not_text_eq s t apart = ground (arith, (text_eq_iff s t).0)

module _ (P : Protocol) where
  first_lem :
      (test : Bool) (i indexer : ChainIndexer P) (rest : Option (ChainIndexer P))
      → test ≡ true
      → elim test [ true ↦ some i | false ↦ rest ] ≡ some indexer
      → i ≡ indexer
  first_lem true i indexer rest this h = cc (h)
  first_lem false i indexer rest this h = cc (this)

  later_lem :
      (test : Bool) (i indexer : ChainIndexer P) (rest : Option (ChainIndexer P))
      → test ≡ false
      → elim test [ true ↦ some i | false ↦ rest ] ≡ some indexer
      → rest ≡ some indexer
  later_lem true i indexer rest other h = cc (other)
  later_lem false i indexer rest other h = h

  find_indexer-chain_id :
      (indexers : List (ChainIndexer P)) (chain : Text) (indexer : ChainIndexer P)
      → find_indexer P indexers chain ≡ some indexer
      → indexer.chain_id ≡ chain
  unfolding find_indexer
  find_indexer-chain_id [] chain indexer h = cc (h)
  find_indexer-chain_id (i ∷ indexers) chain indexer h =
      elim (Bool-cases (text_eq i.chain_id chain)) [
        | inl this ↦
            ap (λ k. k.chain_id) (sym (first_lem (text_eq i.chain_id chain) i indexer _ this h))
            ∙ (text_eq_iff i.chain_id chain).0 this
        | inr other ↦
            find_indexer-chain_id indexers chain indexer
              (later_lem (text_eq i.chain_id chain) i indexer _ other h)
      ]

  -- A run leaves the progress of the other chains alone.
  advanced-other :
      (indexer : ChainIndexer P) (disk : Disk) (s : SyncState) (start n : ℕ) (other : Text)
      → other ≢ indexer.chain_id
      → get_latest_block (advanced P indexer disk s start n).progress other
        ≡ get_latest_block s.progress other
  unfolding advanced get_latest_block progress_row
  advanced-other indexer disk s start zero other h = refl
  advanced-other indexer disk s start (suc n) other h = ap block_of (
      rw
        (
          row_of_chain-upsert s.progress
              (progress_row indexer.chain_id (start + suc n) none (disk.now (start + suc n))) other,
          not_text_eq indexer.chain_id other (λ e. h (sym e)),
        )
        refl)

  reindex_lem :
      (c : SyncCoordinator P) (disk : Disk) (chain : Text) (block : ℕ) (s : SyncState)
      → disk.deletable ≡ true
      → reindex_from P (suc c.batch_size) c disk chain block s
        ≡ sync_found P
            (suc c.batch_size)
            c
            disk
            chain
            (some block)
            (record s { progress = reset s.progress chain })
            (find_indexer P c.indexers chain)
  unfolding reindex_from sync_chain_from_block sync_chain_from
  reindex_lem c disk chain block s deletable = ground arith

  -- A request to index anew a chain that has an indexer forgets the chain's progress, and a run of
  -- the chain from `requested_start` follows, which for a chain without a configuration is 0; the
  -- progress of the other chains stays. This is under the conditions that the database deletes and
  -- reads, that the chain answers with a tip, and that the tip and one, and the block and the batch
  -- size, sum to less than 2 ^ 64.
  pub reindex_from-Synced :
      (c : SyncCoordinator P) (disk : Disk) (chain : Text) (block : ℕ) (s : SyncState)
      (indexer : ChainIndexer P) (tip : ℕ)
      → find_indexer P c.indexers chain ≡ some indexer
      → disk.deletable ≡ true
      → disk.readable ≡ true
      → indexer.get_chain_tip ≡ ok tip
      → tip + 1 < 2 ^ 64
      → block + c.batch_size < 2 ^ 64
      → let start = requested_start (get c.chain_configs chain) block in
        (result : Result TuppiraError (Unit {0})) × (t : SyncState) × (reindex_from P
            (suc c.batch_size)
            c
            disk
            chain
            block
            s
          ≡ some (result, t))
        × Synced P indexer disk
            (record s { progress = reset s.progress chain })
            start
            (last_block start c.batch_size tip)
            result
            t
        × ((other : Text)
            → other ≢ chain
            → get_latest_block t.progress other ≡ get_latest_block s.progress other)
  unfolding sync_found get_latest_block
  reindex_from-Synced c disk chain block s indexer tip found deletable readable answers top small =
      let same = find_indexer-chain_id c.indexers chain indexer found in
      let forgotten : SyncState = record s { progress = reset s.progress chain } in
      let ctx : SyncContext = record {
        batch_size = c.batch_size;
        chain_config = effective_config (some block) (get c.chain_configs chain);
      } in
      let at : position indexer.chain_id ctx forgotten
          ≡ requested_start (get c.chain_configs chain) block =
        ap (λ k. position k ctx forgotten) same
        ∙ position-reset c.batch_size s (get c.chain_configs chain) chain block in
      let (result, t, run, ran) =
        sync_chain-Ran P indexer ctx disk forgotten (suc c.batch_size) (omega arith)
          (omega (arith, at, requested_start_bound (get c.chain_configs chain) block, small))
          (λ other answered. omega (arith, tip_of P (sym answers ∙ answered), top)) in
      let d = Ran-Synced P indexer ctx disk forgotten t tip result readable answers ran in
      (
        result,
        t,
        reindex_lem c disk chain block s deletable
            ∙ ap (sync_found P (suc c.batch_size) c disk chain (some block) forgotten) found
            ∙ run,
        subst (λ k. Synced P indexer disk forgotten k (last_block k c.batch_size tip) result t) at
            d,
        λ other apart.
            ap (λ k. get_latest_block k.progress other) d.state
            ∙ advanced-other indexer disk forgotten _ d.blocks other (λ e. apart (e ∙ same))
            ∙ ap block_of (row_of_chain-reset_other s.progress chain other apart),
      )

  coordinator_of : {x y : SyncCoordinator P} → some x ≡ some y → y ≡ x
  coordinator_of h = cc (h)

  after_sync_lem :
      (c a : SyncCoordinator P) (tip : Result TuppiraError ℕ) (chain : Text)
      (outcome : Option (Result TuppiraError (Unit {0}) × SyncState))
      → after_sync P c tip chain outcome ≡ some a
      → (a.chain_states ≡ update_states tip c.chain_states chain)
        × (a.chain_configs ≡ c.chain_configs)
  unfolding after_sync
  after_sync_lem c a tip chain none h = cc (h)
  after_sync_lem c a tip chain (some (result, s)) h =
      (ap (λ k. k.chain_states) (coordinator_of h), ap (λ k. k.chain_configs) (coordinator_of h))

  -- What the status says of the chains does not depend on how the run of a turn went.
  pub status-turn :
      (fuel : ℕ) (c a b : SyncCoordinator P) (i j : ChainIndexer P) (d e : Disk) (tip : ℕ)
      → i.chain_id ≡ j.chain_id
      → turn P fuel c i d (ok tip) ≡ some a
      → turn P fuel c j e (ok tip) ≡ some b
      → (status P a).chains ≡ (status P b).chains
  unfolding turn status
  status-turn fuel c a b i j d e tip same h k =
      let (states, configs) = after_sync_lem c a (ok tip) i.chain_id _ h in
      let (others, same_configs) = after_sync_lem c b (ok tip) j.chain_id _ k in
      ap₂ (λ entries all. map (chain_info all) entries)
        (states ∙ ap (update_states (ok tip) c.chain_states) same ∙ sym others)
        (configs ∙ sym same_configs)
