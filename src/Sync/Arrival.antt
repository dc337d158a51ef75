-- ===== src/Sync/Arrival.antt =====
-- indexer/src/sync.rs: the runs of a chain's task while the chain and the database answer.
use tuppira.Base.{
  ℕ, suc, ◌+◌, ◌*◌, ◌^◌, ◌≤◌, ◌<◌, min, Text, List, [], ◌∷◌, some, true, Result, ok, length, All,
  ◌≡◌, inl, inr, refl, ◌∙◌, sym, subst, arith,
}
use native.Mathlib.Nat.{suc-mul}
use tuppira.WalletFeed.Protocol.{Protocol}
use tuppira.Sync.Errors.{TuppiraError}
use tuppira.Sync.Chain.{SyncState, SyncContext, ChainIndexer, sync_chain}
use tuppira.Sync.Progress.{Disk}
use tuppira.WalletFeed.Event.{TuppiraEventDto, validate}
use Prim.Native.String.{String}
use tuppira.Sync.Runs.{Refused, Passes, Stops}
use tuppira.Sync.Start.{position, last_block, Ran, sync_chain-Ran, Ran-Synced, tip_of}
use tuppira.Sync.History.{Turn, runs, position-Synced}

module _ (P : Protocol) where
  -- The chain answers up to the tip with valid events, and the database takes the progress.
  pub record IsHealthy (chain : Text) (tip : ℕ) (turn : Turn P) : Type 0 where
    pub about : turn.0.chain_id ≡ chain
    pub answers : turn.0.get_chain_tip ≡ ok tip
    pub readable : turn.1.readable ≡ true
    pub passes : (block : ℕ) → block ≤ tip → Passes P turn.0 block
    pub writable : (block : ℕ) → block ≤ tip → turn.1.writable block ≡ true

  no-Refused :
      (events : List (TuppiraEventDto P)) (message : String)
      → All (λ event. validate P event ≡ ok tt) events
      → Refused P events message
      → ⊥
  no-Refused _ _ valid (Refused.here event events message bad) = cc (valid.0, bad)
  no-Refused _ _ valid (Refused.later event events message good rest) =
      no-Refused events message valid.1 rest

  events_of :
      {xs ys : List (TuppiraEventDto P)}
      → ◌≡◌ {A = Result TuppiraError (List (TuppiraEventDto P))} (ok xs) (ok ys)
      → xs ≡ ys
  events_of same = cc (same)

  no-Stops :
      (indexer : ChainIndexer P) (disk : Disk) (block : ℕ) (error : TuppiraError)
      → Passes P indexer block
      → disk.writable block ≡ true
      → Stops P indexer disk block error
      → ⊥
  no-Stops indexer disk block _ (events, read, valid) written (Stops.unread error h) = cc (read, h)
  no-Stops indexer disk block _ (events, read, valid) written (Stops.unwritten _ full) =
      cc (written, full)
  no-Stops indexer disk block _ (events, read, valid) written (Stops.refused others message h bad) =
      no-Refused others message
        (subst (All (λ event. validate P event ≡ ok tt)) (events_of (sym read ∙ h)) valid) bad

  -- A healthy run reaches its last block.
  arrives :
      (indexer : ChainIndexer P) (ctx : SyncContext) (disk : Disk) (s t : SyncState) (tip : ℕ)
      (result : Result TuppiraError (Unit {0}))
      → position indexer.chain_id ctx s ≤ tip
      → tip < 2 ^ 64
      → IsHealthy indexer.chain_id tip (indexer, disk)
      → Ran P indexer ctx disk s result t
      → position indexer.chain_id ctx t
        ≡ last_block (position indexer.chain_id ctx s) ctx.batch_size tip
  arrives indexer ctx disk s t tip result low small h ran =
      let d = Ran-Synced P indexer ctx disk s t tip result h.readable h.answers ran in
      let at =
        position-Synced P indexer ctx disk s t
          (last_block (position indexer.chain_id ctx s) ctx.batch_size tip) result
          (omega (arith, low, small)) d in
      elim d.outcome [
        | inl (_, end) ↦ omega (arith, at, end)
        | inr (error, _, short, stops) ↦
            let within : position indexer.chain_id ctx s + suc d.blocks ≤ tip =
              omega (arith, short, low) in
            absurd (no-Stops indexer disk _ error (h.passes _ within) (h.writable _ within) stops)
      ]

  turn_lem :
      (chain : Text) (ctx : SyncContext) (tip : ℕ) (turn : Turn P) (s : SyncState)
      → IsHealthy chain tip turn
      → position chain ctx s ≤ tip
      → tip + 1 + ctx.batch_size < 2 ^ 64
      → (result : Result TuppiraError (Unit {0})) × (t : SyncState) × (sync_chain P
            (suc ctx.batch_size)
            turn.0
            ctx
            turn.1
            s
          ≡ some (result, t))
        × (position chain ctx t ≡ last_block (position chain ctx s) ctx.batch_size tip)
  turn_lem chain ctx tip (indexer, disk) s h low small =
      let here = subst (λ k. position k ctx s ≤ tip) (sym h.about) low in
      let (result, t, run, ran) =
        sync_chain-Ran P indexer ctx disk s (suc ctx.batch_size) (omega arith)
          (omega (arith, here, small))
          (λ found answered. omega (arith, tip_of P (sym h.answers ∙ answered), small)) in
      (
        result,
        t,
        run,
        subst (λ k. position k ctx t ≡ last_block (position k ctx s) ctx.batch_size tip) h.about
            (arrives indexer ctx disk s t tip result here (omega arith)
              (subst (λ k. IsHealthy k tip (indexer, disk)) (sym h.about) h) ran),
      )

  -- While all is well, each turn brings the chain on by a batch, until the tip is reached.
  pub runs-IsHealthy :
      (chain : Text) (ctx : SyncContext) (tip : ℕ) (turns : List (Turn P)) (s : SyncState)
      → All (IsHealthy chain tip) turns
      → position chain ctx s ≤ tip
      → tip + 1 + ctx.batch_size < 2 ^ 64
      → (t : SyncState) × (runs P ctx turns s ≡ some t)
        × (position chain ctx t ≡ min (position chain ctx s + length turns * ctx.batch_size) tip)
  unfolding runs
  runs-IsHealthy chain ctx tip [] s healthy low small = (s, refl, omega arith)
  runs-IsHealthy chain ctx tip (turn ∷ turns) s healthy low small =
      let (result, t, run, at) = turn_lem chain ctx tip turn s healthy.0 low small in
      let (u, rest, after) =
        runs-IsHealthy chain ctx tip turns t healthy.1 (omega (arith, at, low)) small in
      (u, rw run rest, omega (arith, at, after, low, suc-mul (length turns) ctx.batch_size))
