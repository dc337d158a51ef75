-- ===== src/Sync/Progress.antt =====
-- storage/src/repositories/sync.rs: the table sync_progress, with one row for each chain. What the
-- database does with a statement is part of `Disk`.
use tuppira.Base.{
  ℕ, ◌+◌, ◌^◌, ◌%◌, ◌<◌, Text, text_eq, text_eq_iff, List, [], ◌∷◌, Option, none, some, Bool,
  Result, ok, err, if◌then◌else◌, filter, not, ◌≡◌, refl, arith,
}
use tuppira.WalletFeed.Hub.{as_i64}
use tuppira.Sync.Errors.{TuppiraError, database}

pub record SyncProgressRow : Type 0 where
  pub chain : Text
  pub latest_block : ℕ
  pub latest_slot : Option ℕ
  pub last_synced_at : Option ℕ

-- What the database and the clock do while a chain is synced: whether the progress is read,
-- whether that of a block is written and when, whether it is deleted, and the text of a failure.
pub record Disk : Type 0 where
  pub readable : Bool
  pub writable : ℕ → Bool
  pub now : ℕ → ℕ
  pub deletable : Bool
  pub failure : Text

-- `v as u64` of an i64 that is counted from i64::MIN
unfoldable pub as_u64 : ℕ → ℕ
as_u64 v = (v + 2 ^ 63) % 2 ^ 64

pub as_u64-as_i64 : (n : ℕ) → n < 2 ^ 64 → as_u64 (as_i64 n) ≡ n
unfolding as_u64 as_i64
as_u64-as_i64 n h = omega arith

unfoldable pub map_i64 : Option ℕ → Option ℕ
map_i64 none = none
map_i64 (some v) = some (as_i64 v)

unfoldable pub map_u64 : Option ℕ → Option ℕ
map_u64 none = none
map_u64 (some v) = some (as_u64 v)

-- SELECT … WHERE chain = $1
unfoldable pub row_of_chain : List SyncProgressRow → Text → Option SyncProgressRow
row_of_chain [] chain = none
row_of_chain (r ∷ rows) chain = if text_eq r.chain chain then some r else row_of_chain rows chain

unfoldable pub block_of : Option SyncProgressRow → Option ℕ
block_of none = none
block_of (some r) = some (as_u64 r.latest_block)

unfoldable pub slot_of : Option SyncProgressRow → Option ℕ
slot_of none = none
slot_of (some r) = map_u64 r.latest_slot

unfoldable pub get_latest_block : List SyncProgressRow → Text → Option ℕ
get_latest_block rows chain = block_of (row_of_chain rows chain)

unfoldable pub get_latest_slot : List SyncProgressRow → Text → Option ℕ
get_latest_slot rows chain = slot_of (row_of_chain rows chain)

-- INSERT … ON CONFLICT(chain) DO UPDATE
unfoldable pub upsert : List SyncProgressRow → SyncProgressRow → List SyncProgressRow
upsert [] row = row ∷ []
upsert (r ∷ rows) row =
    let rest = upsert rows row in if text_eq r.chain row.chain then row ∷ rows else r ∷ rest

unfoldable pub progress_row : Text → ℕ → Option ℕ → ℕ → SyncProgressRow
progress_row chain block slot now = record {
  chain = chain;
  latest_block = as_i64 block;
  latest_slot = map_i64 slot;
  last_synced_at = some now;
}

unfoldable pub update_progress :
    Disk → List SyncProgressRow → Text → ℕ → Option ℕ → Result TuppiraError (List SyncProgressRow)
update_progress disk rows chain block slot =
    if disk.writable block
    then ok (upsert rows (progress_row chain block slot (disk.now block)))
    else err (database disk.failure)

-- DELETE FROM sync_progress WHERE chain = $1
unfoldable pub reset : List SyncProgressRow → Text → List SyncProgressRow
reset rows chain = filter (λ r. not (text_eq r.chain chain)) rows

unfoldable pub reset_all : List SyncProgressRow → List SyncProgressRow
reset_all rows = []

-- The row that was written is the one that is read, and those of other chains stay.
pub row_of_chain-upsert :
    (rows : List SyncProgressRow) (row : SyncProgressRow) (chain : Text)
    → row_of_chain (upsert rows row) chain
      ≡ (if text_eq row.chain chain then some row else row_of_chain rows chain)
unfolding row_of_chain upsert
row_of_chain-upsert [] row chain = refl
row_of_chain-upsert (r ∷ rows) row chain = ground (
  arith,
  row_of_chain-upsert rows row chain,
  text_eq_iff r.chain row.chain,
  text_eq_iff row.chain chain,
  text_eq_iff r.chain chain,
)

pub upsert-upsert :
    (rows : List SyncProgressRow) (row new : SyncProgressRow)
    → row.chain ≡ new.chain
    → upsert (upsert rows row) new ≡ upsert rows new
unfolding upsert
upsert-upsert [] row new h = ground (arith, text_eq_iff row.chain new.chain)
upsert-upsert (r ∷ rows) row new h =
    ground (arith, upsert-upsert rows row new h, text_eq_iff row.chain new.chain)

pub row_of_chain-reset :
    (rows : List SyncProgressRow) (chain : Text) → row_of_chain (reset rows chain) chain ≡ none
unfolding row_of_chain reset
row_of_chain-reset [] chain = refl
row_of_chain-reset (r ∷ rows) chain = ground (arith, row_of_chain-reset rows chain)
