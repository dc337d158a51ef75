-- ===== src/Sync/Start.antt =====
-- indexer/src/sync.rs: where a run of `sync_chain` starts and ends.
use tuppira.Base.{
  Text, ℕ, ◌+◌, ◌^◌, ◌<◌, min, some, true, false, Result, ok, err, leb, leb→lt, ◌≡◌, inl, inr, refl,
  sym, ◌∙◌, subst, arith, Bool-cases, Result-cases,
}
use Prim.Native.Nat.{max}
use tuppira.WalletFeed.Protocol.{Protocol}
use tuppira.Sync.Errors.{TuppiraError, database}
use tuppira.Sync.Progress.{Disk, get_latest_block}
use tuppira.Sync.Chain.{
  SyncState, SyncContext, ChainIndexer, from_block, read_progress, last_of_batch, sync_blocks,
  sync_from, located, after_located, sync_chain,
}
use tuppira.Sync.Runs.{Synced, sync_blocks_lem, advanced}

-- The last block of a run: as far as the batch allows and the tip reaches, and never back.
abbrev pub last_block : ℕ → ℕ → ℕ → ℕ
last_block start batch_size tip = max start (min (start + batch_size) tip)

-- The block behind which the next run of a chain goes on.
abbrev pub position : Text → SyncContext → SyncState → ℕ
position chain ctx s = from_block (get_latest_block s.progress chain) ctx.chain_config

module _ (P : Protocol) where
  -- The outcome of a run: it has not started, or it has gone on from its start.
  pub data Ran (indexer : ChainIndexer P) (ctx : SyncContext) (disk : Disk) (s : SyncState)
      : Result TuppiraError (Unit {0}) → SyncState → Type 0 where
    unreadable : disk.readable ≡ false → Ran indexer ctx disk s (err (database disk.failure)) s
    no_tip :
        (error : TuppiraError)
        → disk.readable ≡ true
        → indexer.get_chain_tip ≡ err error
        → Ran indexer ctx disk s (err error) s
    started :
        (tip : ℕ) (result : Result TuppiraError (Unit {0})) (t : SyncState)
        → disk.readable ≡ true
        → indexer.get_chain_tip ≡ ok tip
        → Synced P indexer disk s
            (position indexer.chain_id ctx s)
            (last_block (position indexer.chain_id ctx s) ctx.batch_size tip)
            result
            t
        → Ran indexer ctx disk s result t

  last_of_batch_lem :
      (start batch tip : ℕ)
      → start < tip
      → start + batch < 2 ^ 64
      → last_of_batch (start + 1) batch tip ≡ last_block start batch tip
  unfolding last_of_batch
  last_of_batch_lem start batch tip behind small = omega arith

  caught_up_lem :
      (indexer : ChainIndexer P) (ctx : SyncContext) (disk : Disk) (s : SyncState)
      (fuel start tip : ℕ)
      → leb tip start ≡ true
      → sync_from P fuel indexer ctx disk s start tip ≡ some (ok tt, s)
  unfolding sync_from
  caught_up_lem indexer ctx disk s fuel start tip h = ground arith

  behind_lem :
      (indexer : ChainIndexer P) (ctx : SyncContext) (disk : Disk) (s : SyncState)
      (fuel start tip : ℕ)
      → leb tip start ≡ false
      → sync_from P fuel indexer ctx disk s start tip
        ≡ sync_blocks P fuel indexer disk
            (start + 1)
            (last_of_batch (start + 1) ctx.batch_size tip)
            s
  unfolding sync_from
  behind_lem indexer ctx disk s fuel start tip h = ground arith

  sync_from_lem :
      (indexer : ChainIndexer P) (ctx : SyncContext) (disk : Disk) (s : SyncState)
      (fuel start tip : ℕ)
      → ctx.batch_size < fuel
      → start + ctx.batch_size < 2 ^ 64
      → tip + 1 < 2 ^ 64
      → (result : Result TuppiraError (Unit {0})) × (t : SyncState) × (sync_from P fuel indexer ctx
            disk s start tip
          ≡ some (result, t))
        × Synced P indexer disk s start (last_block start ctx.batch_size tip) result t
  unfolding advanced
  sync_from_lem indexer ctx disk s fuel start tip enough small top =
      elim (Bool-cases (leb tip start)) [
        | inl caught_up ↦ (
          ok tt,
          s,
          caught_up_lem indexer ctx disk s fuel start tip caught_up,
          record {
            blocks = 0;
            within = omega arith;
            state = refl;
            checked = λ block above upto. absurd (omega arith);
            outcome = inl (refl, ground arith);
          },
        )
        | inr behind ↦
            let (result, t, run, synced) =
              sync_blocks_lem P indexer disk s start (last_block start ctx.batch_size tip)
                (omega (arith, leb→lt tip start behind)) fuel 0 (start + 1) s (omega arith) refl
                (omega arith) (omega arith) (λ block above upto. absurd (omega arith)) in
            (
              result,
              t,
              rw
                  (
                    behind_lem indexer ctx disk s fuel start tip behind,
                    last_of_batch_lem start ctx.batch_size tip (leb→lt tip start behind) small,
                  )
                  run,
              synced,
            )
      ]

  unreadable_lem :
      (indexer : ChainIndexer P) (ctx : SyncContext) (disk : Disk) (s : SyncState)
      → disk.readable ≡ false
      → located P disk indexer ctx s ≡ err (database disk.failure)
  unfolding located read_progress
  unreadable_lem indexer ctx disk s unread = rw unread refl

  no_tip_lem :
      (indexer : ChainIndexer P) (ctx : SyncContext) (disk : Disk) (s : SyncState)
      (error : TuppiraError)
      → disk.readable ≡ true
      → indexer.get_chain_tip ≡ err error
      → located P disk indexer ctx s ≡ err error
  unfolding located read_progress
  no_tip_lem indexer ctx disk s error read silent = rw (read, silent) refl

  located_lem :
      (indexer : ChainIndexer P) (ctx : SyncContext) (disk : Disk) (s : SyncState) (tip : ℕ)
      → disk.readable ≡ true
      → indexer.get_chain_tip ≡ ok tip
      → located P disk indexer ctx s ≡ ok (position indexer.chain_id ctx s, tip)
  unfolding located read_progress
  located_lem indexer ctx disk s tip read answered = rw (read, answered) refl

  -- A run with more fuel than the batch size ends with one of the outcomes of `Ran`, whether the
  -- chain and the database answer or fail, as long as the position and the batch size sum to less
  -- than 2 ^ 64 and a tip that the chain answers is less than 2 ^ 64 - 1.
  pub sync_chain-Ran :
      (indexer : ChainIndexer P) (ctx : SyncContext) (disk : Disk) (s : SyncState) (fuel : ℕ)
      → ctx.batch_size < fuel
      → position indexer.chain_id ctx s + ctx.batch_size < 2 ^ 64
      → ((tip : ℕ) → indexer.get_chain_tip ≡ ok tip → tip + 1 < 2 ^ 64)
      → (result : Result TuppiraError (Unit {0})) × (t : SyncState) × (sync_chain P fuel indexer ctx
            disk s
          ≡ some (result, t))
        × Ran indexer ctx disk s result t
  unfolding sync_chain after_located
  sync_chain-Ran indexer ctx disk s fuel enough small top = elim (Bool-cases disk.readable) [
    | inr unread ↦ (
      err (database disk.failure),
      s,
      rw (unreadable_lem indexer ctx disk s unread) refl,
      Ran.unreadable unread,
    )
    | inl read ↦ elim (Result-cases indexer.get_chain_tip) [
      | inr (error, silent) ↦ (
        err error,
        s,
        rw (no_tip_lem indexer ctx disk s error read silent) refl,
        Ran.no_tip error read silent,
      )
      | inl (tip, answered) ↦
          let (result, t, run, synced) =
            sync_from_lem indexer ctx disk s fuel (position indexer.chain_id ctx s) tip enough small
              (top tip answered) in
          (
            result,
            t,
            rw (located_lem indexer ctx disk s tip read answered) run,
            Ran.started tip result t read answered synced,
          )
    ]
  ]

  pub tip_of : {m n : ℕ} → ◌≡◌ {A = Result TuppiraError ℕ} (ok m) (ok n) → m ≡ n
  tip_of same = cc (same)

  -- A run that reads its progress and the tip has started.
  pub Ran-Synced :
      (indexer : ChainIndexer P) (ctx : SyncContext) (disk : Disk) (s t : SyncState) (tip : ℕ)
      (result : Result TuppiraError (Unit {0}))
      → disk.readable ≡ true
      → indexer.get_chain_tip ≡ ok tip
      → Ran indexer ctx disk s result t
      → Synced P indexer disk s
          (position indexer.chain_id ctx s)
          (last_block (position indexer.chain_id ctx s) ctx.batch_size tip)
          result
          t
  Ran-Synced indexer ctx disk s _ tip _ readable answers (Ran.unreadable unread) =
      absurd (cc (readable, unread))
  Ran-Synced indexer ctx disk s _ tip _ readable answers (Ran.no_tip error _ silent) =
      absurd (cc (answers, silent))
  Ran-Synced indexer ctx disk s t tip result readable answers (Ran.started found _ _ _ answered d) =
      subst
        (λ k.
          Synced P indexer disk s (position indexer.chain_id ctx s)
            (last_block (position indexer.chain_id ctx s) ctx.batch_size k) result t)
        (tip_of (sym answered ∙ answers)) d
