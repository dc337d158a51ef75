-- ===== src/Sync/History.antt =====
-- indexer/src/sync.rs: the runs of a chain's task, one after the other, whatever the chain and the
-- database answer in each of them.
use tuppira.Base.{
  ℕ, zero, suc, ◌+◌, ◌^◌, ◌≤◌, ◌<◌, Text, text_eq_refl, List, [], ◌∷◌, Option, none, some, Result,
  ok, leb, leb→le, leb→lt, All, ◌≡◌, ◌⊎◌, inl, inr, refl, ◌∙◌, sym, ap, subst, arith, Bool-cases,
}
use tuppira.WalletFeed.Protocol.{Protocol}
use tuppira.Sync.Errors.{TuppiraError}
use tuppira.Sync.Progress.{
  SyncProgressRow, Disk, get_latest_block, block_of, row_of_chain-upsert, progress_row, upsert,
  as_u64-as_i64,
}
use tuppira.Sync.Chain.{SyncState, SyncContext, ChainIndexer, from_block, sync_chain}
use tuppira.Sync.Runs.{Passes, advanced, Synced}
use tuppira.Sync.Start.{position, last_block, Ran, sync_chain-Ran}

module _ (P : Protocol) where
  abbrev pub Turn : Type 0
  Turn = ChainIndexer P × Disk

  -- The next run starts from what the last one left, whether or not that one failed.
  unfoldable pub after_run :
      Option (Result TuppiraError (Unit {0}) × SyncState)
      → (SyncState → Option SyncState)
      → Option SyncState
  after_run none go_on = none
  after_run (some (result, s)) go_on = go_on s

  unfoldable pub runs : SyncContext → List Turn → SyncState → Option SyncState
  unfolding after_run
  runs ctx [] s = some s
  runs ctx ((indexer, disk) ∷ turns) s =
      after_run (sync_chain P (suc ctx.batch_size) indexer ctx disk s) (λ t. runs ctx turns t)

  -- The turns are about one chain, whose tips leave room for a batch below 2 ^ 64.
  abbrev pub IsTurn : Text → SyncContext → Turn → Type 0
  IsTurn chain ctx turn =
      (turn.0.chain_id ≡ chain)
      × ((tip : ℕ) → turn.0.get_chain_tip ≡ ok tip → tip + 1 + ctx.batch_size < 2 ^ 64)

  get_latest_block-upsert :
      (rows : List SyncProgressRow) (chain : Text) (block now : ℕ)
      → block < 2 ^ 64
      → get_latest_block (upsert rows (progress_row chain block none now)) chain ≡ some block
  unfolding get_latest_block block_of progress_row
  get_latest_block-upsert rows chain block now small =
      rw (row_of_chain-upsert rows (progress_row chain block none now) chain, text_eq_refl chain)
        (ap some (as_u64-as_i64 block small))

  pub position-advanced :
      (indexer : ChainIndexer P) (ctx : SyncContext) (disk : Disk) (s : SyncState) (n : ℕ)
      → let start = position indexer.chain_id ctx s in
        start + n < 2 ^ 64
        → position indexer.chain_id ctx (advanced P indexer disk s start n) ≡ start + n
  unfolding advanced from_block
  position-advanced indexer ctx disk s zero small = omega arith
  position-advanced indexer ctx disk s (suc n) small =
      rw
        (get_latest_block-upsert s.progress indexer.chain_id
          (position indexer.chain_id ctx s + suc n) (disk.now _) small)
        refl

  -- Where a run that has started leaves its chain.
  pub position-Synced :
      (indexer : ChainIndexer P) (ctx : SyncContext) (disk : Disk) (s t : SyncState) (last : ℕ)
      (result : Result TuppiraError (Unit {0}))
      → last < 2 ^ 64
      → (d : Synced P indexer disk s (position indexer.chain_id ctx s) last result t)
      → position indexer.chain_id ctx t ≡ position indexer.chain_id ctx s + d.blocks
  position-Synced indexer ctx disk s t last result small d =
      ap (position indexer.chain_id ctx) d.state
      ∙ position-advanced indexer ctx disk s d.blocks (omega (arith, d.within))

  -- A run moves its chain on by blocks that pass, or not at all.
  abbrev Moved : Text → SyncContext → ChainIndexer P → SyncState → SyncState → Type 0
  Moved chain ctx indexer s t =
      (position chain ctx s ≤ position chain ctx t)
      × (position chain ctx t + ctx.batch_size < 2 ^ 64)
      × ((block : ℕ)
          → position chain ctx s < block
          → block ≤ position chain ctx t
          → Passes P indexer block)

  Ran-Moved :
      (indexer : ChainIndexer P) (ctx : SyncContext) (disk : Disk) (s t : SyncState)
      (result : Result TuppiraError (Unit {0}))
      → position indexer.chain_id ctx s + ctx.batch_size < 2 ^ 64
      → ((tip : ℕ) → indexer.get_chain_tip ≡ ok tip → tip + 1 + ctx.batch_size < 2 ^ 64)
      → Ran P indexer ctx disk s result t
      → Moved indexer.chain_id ctx indexer s t
  Ran-Moved indexer ctx disk s _ _ small top (Ran.unreadable _) =
      (omega arith, small, λ block above upto. absurd (omega arith))
  Ran-Moved indexer ctx disk s _ _ small top (Ran.no_tip _ _ _) =
      (omega arith, small, λ block above upto. absurd (omega arith))
  Ran-Moved indexer ctx disk s t result small top (Ran.started tip _ _ read answered d) =
      let room = top tip answered in
      let at =
        position-Synced indexer ctx disk s t
          (last_block (position indexer.chain_id ctx s) ctx.batch_size tip) result
          (omega (arith, room, small)) d in
      (
        omega (arith, at),
        omega (arith, at, room, small, d.within),
        λ block above upto. (d.checked block above (omega (arith, at, upto))).0,
      )

  run_lem :
      (chain : Text) (ctx : SyncContext) (turn : Turn) (s : SyncState)
      → IsTurn chain ctx turn
      → position chain ctx s + ctx.batch_size < 2 ^ 64
      → (result : Result TuppiraError (Unit {0})) × (t : SyncState) × (sync_chain P
            (suc ctx.batch_size)
            turn.0
            ctx
            turn.1
            s
          ≡ some (result, t))
        × Moved chain ctx turn.0 s t
  run_lem chain ctx (indexer, disk) s fits small =
      let here = subst (λ k. position k ctx s + ctx.batch_size < 2 ^ 64) (sym fits.0) small in
      let (result, t, run, ran) =
        sync_chain-Ran P indexer ctx disk s (suc ctx.batch_size) (omega arith) here
          (λ tip answered. omega (arith, fits.1 tip answered)) in
      (
        result,
        t,
        run,
        subst (λ k. Moved k ctx indexer s t) fits.0
            (Ran-Moved indexer ctx disk s t result here fits.1 ran),
      )

  -- A block passed in one of the turns.
  abbrev pub PassedIn : List Turn → ℕ → Type 0
  PassedIn [] block = ⊥
  PassedIn (turn ∷ turns) block = Passes P turn.0 block ⊎ PassedIn turns block

  -- However the turns fail, the runs end, the chain's progress never falls, and it has not gone
  -- past a block that did not pass in one of them.
  pub runs-PassedIn :
      (chain : Text) (ctx : SyncContext) (turns : List Turn) (s : SyncState)
      → All (IsTurn chain ctx) turns
      → position chain ctx s + ctx.batch_size < 2 ^ 64
      → (t : SyncState) × (runs ctx turns s ≡ some t)
        × (position chain ctx s ≤ position chain ctx t)
        × ((block : ℕ)
            → position chain ctx s < block
            → block ≤ position chain ctx t
            → PassedIn turns block)
  unfolding runs
  runs-PassedIn chain ctx [] s fit small =
      (s, refl, omega arith, λ block above upto. absurd (omega arith))
  runs-PassedIn chain ctx (turn ∷ turns) s fit small =
      let (result, t, run, moved) = run_lem chain ctx turn s fit.0 small in
      let (rises, room, passes) = moved in
      let (u, rest, more, passed) = runs-PassedIn chain ctx turns t fit.1 room in
      (
        u,
        rw run rest,
        omega (arith, rises, more),
        λ block above upto. elim (Bool-cases (leb block (position chain ctx t))) [
          | inl now ↦ inl (passes block above (leb→le block (position chain ctx t) now))
          | inr later ↦ inr (passed block (leb→lt block (position chain ctx t) later) upto)
        ],
      )
