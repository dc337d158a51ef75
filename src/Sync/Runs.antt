-- ===== src/Sync/Runs.antt =====
-- indexer/src/sync.rs: what one run of `sync_chain` does, told without its loop.
use tuppira.Base.{
  ℕ, zero, suc, ◌+◌, ◌^◌, ◌%◌, ◌≤◌, ◌<◌, Text, List, [], ◌∷◌, none, some, true, false, Result, ok,
  err, for_each, >>_iff, map_err_iff, leb, All, ◌≡◌, ◌⊎◌, inl, inr, refl, subst, arith, Bool-cases,
  Result-cases, String,
}
use tuppira.WalletFeed.Protocol.{Protocol}
use tuppira.WalletFeed.Event.{TuppiraEventDto, validate}
use tuppira.Sync.Errors.{TuppiraError, block_error, database}
use tuppira.Sync.Progress.{
  SyncProgressRow, Disk, update_progress, upsert, upsert-upsert, progress_row,
}
use tuppira.Sync.Chain.{SyncState, ChainIndexer, check_event, sync_block, after_block, sync_blocks}

-- The first event that is not valid, and why.
pub data Refused (P : Protocol) : List (TuppiraEventDto P) → String → Type 0 where
  here :
      (event : TuppiraEventDto P) (events : List (TuppiraEventDto P)) (message : String)
      → validate P event ≡ err message
      → Refused P (event ∷ events) message
  later :
      (event : TuppiraEventDto P) (events : List (TuppiraEventDto P)) (message : String)
      → validate P event ≡ ok tt
      → Refused P events message
      → Refused P (event ∷ events) message

module _ (P : Protocol) where
  -- The block's events were read and each one is valid.
  abbrev pub Passes : ChainIndexer P → ℕ → Type 0
  Passes indexer block =
      (events : List (TuppiraEventDto P)) × (indexer.index_tuppira_events block ≡ ok events)
      × All (λ event. validate P event ≡ ok tt) events

  -- Why a run stops at a block: the indexer fails, an event is not valid, or the progress is not
  -- written.
  pub data Stops (indexer : ChainIndexer P) (disk : Disk) (block : ℕ) : TuppiraError → Type 0 where
    unread :
        (error : TuppiraError)
        → indexer.index_tuppira_events block ≡ err error
        → Stops indexer disk block error
    refused :
        (events : List (TuppiraEventDto P)) (message : String)
        → indexer.index_tuppira_events block ≡ ok events
        → Refused P events message
        → Stops indexer disk block (block_error indexer.chain_id block message)
    unwritten :
        Passes indexer block
        → disk.writable block ≡ false
        → Stops indexer disk block (database disk.failure)

  -- The state behind `count` more blocks.
  unfoldable pub advanced : ChainIndexer P → Disk → SyncState → ℕ → ℕ → SyncState
  advanced indexer disk s start zero = s
  advanced indexer disk s start (suc n) = record {
    progress =
        upsert s.progress
          (progress_row indexer.chain_id (start + suc n) none (disk.now (start + suc n)));
    total_indexed = (s.total_indexed + suc n) % 2 ^ 64;
  }

  checks-err :
      (chain : Text) (block : ℕ) (events : List (TuppiraEventDto P)) (error : TuppiraError)
      → for_each (check_event P chain block) events ≡ err error
      → (message : String) × Refused P events message × (error ≡ block_error chain block message)
  unfolding check_event
  checks-err chain block [] error h = cc (h)
  checks-err chain block (event ∷ events) error h = elim (Result-cases (validate P event)) [
    | inl (unit, valid) ↦
        let (message, bad, same) = checks-err chain block events error (cc (h, valid)) in
        (message, Refused.later event events message valid bad, same)
    | inr (message, invalid) ↦ (message, Refused.here event events message invalid, cc (h, invalid))
  ]

  checks-ok :
      (chain : Text) (block : ℕ) (events : List (TuppiraEventDto P))
      → for_each (check_event P chain block) events ≡ ok tt
      → All (λ event. validate P event ≡ ok tt) events
  unfolding check_event
  checks-ok chain block [] h = tt
  checks-ok chain block (event ∷ events) h =
      let (first, rest) =
        (>>_iff (check_event P chain block event) (for_each (check_event P chain block) events)).0
          h in
      (
        (map_err_iff (λ message. block_error chain block message) (validate P event)).0 first,
        checks-ok chain block events rest,
      )

  -- A block's outcome.
  pub sync_block_lem :
      (indexer : ChainIndexer P) (disk : Disk) (block : ℕ) (s : SyncState)
      → ((sync_block P indexer disk block s
            ≡ ok (record {
              progress =
                  upsert s.progress (progress_row indexer.chain_id block none (disk.now block));
              total_indexed = (s.total_indexed + 1) % 2 ^ 64;
            }))
          × Passes indexer block
          × (disk.writable block ≡ true))
        ⊎ ((error : TuppiraError) × (sync_block P indexer disk block s ≡ err error)
            × Stops indexer disk block error)
  unfolding sync_block update_progress
  sync_block_lem indexer disk block s = elim (Result-cases (indexer.index_tuppira_events block)) [
    | inr (error, silent) ↦ inr (error, rw silent refl, Stops.unread error silent)
    | inl (events, read) ↦
        elim (Result-cases (for_each (check_event P indexer.chain_id block) events)) [
          | inr (error, invalid) ↦
              let (message, bad, same) = checks-err indexer.chain_id block events error invalid in
              inr (
                block_error indexer.chain_id block message,
                rw (read, invalid, same) refl,
                Stops.refused events message read bad,
              )
          | inl (unit, valid) ↦
              let passes : Passes indexer block =
                (events, read, checks-ok indexer.chain_id block events valid) in
              elim (Bool-cases (disk.writable block)) [
                | inl written ↦ inl (rw (read, valid, written) refl, passes, written)
                | inr full ↦ inr (
                  database disk.failure,
                  rw (read, valid, full) refl,
                  Stops.unwritten passes full,
                )
              ]
        ]
  ]

  -- What a run from `start` to `last` has done when it returns `result` with the state `t`: it has
  -- gone on by some blocks, each of which passed, and has stopped at the end or at the first block
  -- that does not let it pass.
  pub record Synced (indexer : ChainIndexer P) (disk : Disk) (s : SyncState) (start last : ℕ)
      (result : Result TuppiraError (Unit {0})) (t : SyncState) : Type 0 where
    pub blocks : ℕ
    pub within : start + blocks ≤ last
    pub state : t ≡ advanced indexer disk s start blocks
    pub checked :
        (block : ℕ)
        → start < block
        → block ≤ start + blocks
        → Passes indexer block × (disk.writable block ≡ true)
    pub outcome :
        ((result ≡ ok tt) × (start + blocks ≡ last))
        ⊎ ((error : TuppiraError) × (result ≡ err error)
            × (start + blocks < last)
            × Stops indexer disk (start + suc blocks) error)

  record_of :
      {rows more : List SyncProgressRow} {n m : ℕ}
      → rows ≡ more
      → n ≡ m
      → ◌≡◌ {A = SyncState}
          (record { progress = rows; total_indexed = n })
          (record { progress = more; total_indexed = m })
  record_of same equal = cc (same, equal)

  advanced-suc :
      (indexer : ChainIndexer P) (disk : Disk) (s : SyncState) (start n : ℕ)
      → let u = advanced indexer disk s start n in
        let block = start + suc n in
        record {
          progress = upsert u.progress (progress_row indexer.chain_id block none (disk.now block));
          total_indexed = (u.total_indexed + 1) % 2 ^ 64;
        }
        ≡ advanced indexer disk s start (suc n)
  unfolding advanced progress_row
  advanced-suc indexer disk s start zero = refl
  advanced-suc indexer disk s start (suc n) =
      record_of (upsert-upsert s.progress _ _ refl) (omega arith)

  loop_ends :
      (indexer : ChainIndexer P) (disk : Disk) (fuel current last : ℕ) (u : SyncState)
      → leb current last ≡ false
      → sync_blocks P (suc fuel) indexer disk current last u ≡ some (ok tt, u)
  unfolding sync_blocks
  loop_ends indexer disk fuel current last u past = ground arith

  loop_goes_on :
      (indexer : ChainIndexer P) (disk : Disk) (fuel current last : ℕ) (u : SyncState)
      → leb current last ≡ true
      → sync_blocks P (suc fuel) indexer disk current last u
        ≡ after_block P
            (sync_block P indexer disk current u)
            u
            (λ t. sync_blocks P fuel indexer disk ((current + 1) % 2 ^ 64) last t)
  unfolding sync_blocks
  loop_goes_on indexer disk fuel current last u more = ground arith

  pub sync_blocks_lem :
      (indexer : ChainIndexer P) (disk : Disk) (s : SyncState) (start last : ℕ)
      → last + 1 < 2 ^ 64
      → (fuel n current : ℕ) (u : SyncState) → current ≡ start + suc n
      → u ≡ advanced indexer disk s start n
      → start + n ≤ last
      → last < start + n + fuel
      → ((block : ℕ)
          → start < block
          → block ≤ start + n
          → Passes indexer block × (disk.writable block ≡ true))
      → (result : Result TuppiraError (Unit {0})) × (t : SyncState) × (sync_blocks P fuel indexer
            disk current last u
          ≡ some (result, t))
        × Synced indexer disk s start last result t
  unfolding sync_blocks after_block
  sync_blocks_lem indexer disk s start last small zero n current u at same below enough checked =
      absurd (omega arith)
  sync_blocks_lem indexer disk s start last small (suc fuel) n current u at same below enough
        checked =
      elim (Bool-cases (leb current last)) [
        | inr past ↦ (
          ok tt,
          u,
          loop_ends indexer disk fuel current last u past,
          record {
            blocks = n;
            within = below;
            state = same;
            checked = checked;
            outcome = inl (refl, ground arith);
          },
        )
        | inl more ↦ elim (sync_block_lem indexer disk current u) [
          | inr (error, failed, stops) ↦ (
            err error,
            u,
            rw (loop_goes_on indexer disk fuel current last u more, failed) refl,
            record {
              blocks = n;
              within = below;
              state = same;
              checked = checked;
              outcome =
                  inr (error, refl, ground arith, subst (λ k. Stops indexer disk k error) at stops);
            },
          )
          | inl (done, passes, written) ↦
              let (result, t, run, synced) =
                sync_blocks_lem indexer disk s start last small fuel (suc n)
                  ((current + 1) % 2 ^ 64)
                  (record {
                    progress =
                        upsert u.progress
                          (progress_row indexer.chain_id current none (disk.now current));
                    total_indexed = (u.total_indexed + 1) % 2 ^ 64;
                  })
                  (ground arith) (cc (same, at, advanced-suc indexer disk s start n)) (ground arith)
                  (omega (arith, enough))
                  (λ block above upto. elim (Bool-cases (leb block (start + n))) [
                    | inl old ↦ checked block above (ground arith)
                    | inr new ↦
                        subst (λ k. Passes indexer k × (disk.writable k ≡ true)) (ground arith)
                          (passes, written)
                  ]) in
              (result, t, rw (loop_goes_on indexer disk fuel current last u more, done) run, synced)
        ]
      ]
