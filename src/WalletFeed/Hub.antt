-- ===== src/WalletFeed/Hub.antt =====
-- api/src/feed.rs: `WalletFeedHub`, with the table `wallet_feed_events` of
-- storage/migrations/0002_wallet_feed.sql. The broadcast channel is the list of what was sent.
-- JSON and the database are parameters: `Codec`, and whether a statement reaches the disk.
pub mod Durable
pub mod Publish
use tuppira.Base.{
  ℕ, ◌+◌, ◌%◌, ◌^◌, Text, String, Bool, true, false, ◌||◌, Option, none, some, List, [], ◌∷◌, ◌++◌,
  Result, ok, err, ◌>>=◌, ok_or, map_err, text_eq, ◌≡◌, if◌then◌else◌,
}
use tuppira.Base.Maps.{get_at, insert_at}
use tuppira.WalletFeed.Protocol.{Protocol}
use tuppira.WalletFeed.Envelope.{WalletFeedEnvelope}
use tuppira.WalletFeed.Projection
use tuppira.WalletFeed.Projection.{WalletFeedProjection, apply}

-- serde_json on envelopes: what was written is read back.
pub record Codec (P : Protocol) : Type 0 where
  pub to_json : WalletFeedEnvelope P → Option Text
  pub from_json : Text → Option (WalletFeedEnvelope P)
  pub round_trip : (e : WalletFeedEnvelope P) (t : Text) → to_json e ≡ some t → from_json t ≡ some e

-- Which step failed; the texts of the libraries' errors are left out.
pub data HubError : Type 0 where
  rejected : String → HubError
  not_serialized not_persisted stored_invalid : HubError
  stored_disorder : String → HubError

-- The columns observation_id and envelope_json.
pub record Row : Type 0 where
  pub observation_id : Text
  pub envelope_json : Text

-- The rows in the order of their primary key.
abbrev pub Table : Type 0
Table = List (ℕ × Row)

-- `sequence as i64`, counted from i64::MIN, so that the order is that of the signed values.
unfoldable pub as_i64 : ℕ → ℕ
as_i64 sequence = (sequence + 2 ^ 63) % 2 ^ 64

unfoldable pub has_observation : Table → Text → Bool
has_observation [] id = false
has_observation ((k, r) ∷ rows) id = text_eq r.observation_id id || has_observation rows id

unfoldable pub taken : Option Row → Bool
taken none = false
taken (some r) = true

-- INSERT INTO wallet_feed_events: the primary key and the unique column refuse a second row.
unfoldable pub insert_row : Table → ℕ → Row → Bool → Option Table
insert_row rows sequence r reached =
    if taken (get_at rows (as_i64 sequence)) || has_observation rows r.observation_id
    then none
    else if reached
    then some (insert_at rows (as_i64 sequence) r)
    else none

module _ (P : Protocol) (C : Codec P) where
  open C use {to_json, from_json}

  pub record WalletFeedHub : Type 0 where
    pub projection : WalletFeedProjection P
    pub published : List (WalletFeedEnvelope P)
    pub pool : Option Table

  -- WalletFeedHub::new()
  abbrev pub new : WalletFeedHub
  new = record { projection = Projection.empty P; published = []; pool = none }

  -- The loop of `from_pool` over the rows in the order of their sequences.
  unfoldable pub load : WalletFeedProjection P → Table → Result HubError (WalletFeedProjection P)
  load p [] = ok p
  load p ((k, r) ∷ rows) = do
    e ← ok_or (from_json r.envelope_json) stored_invalid
    next ← map_err stored_disorder (apply P p e)
    load next.1 rows

  unfoldable pub from_pool : Table → Result HubError WalletFeedHub
  from_pool rows = do
    p ← load (Projection.empty P) rows
    ok (record { projection = p; published = []; pool = some rows })

  -- The write to the table; a hub with no pool has nothing to write.
  unfoldable pub persist :
      Option Table → WalletFeedEnvelope P → Bool → Result HubError (Option Table)
  persist none e reached = ok none
  persist (some rows) e reached = do
    json ← ok_or (to_json e) not_serialized
    rows' ←
        ok_or
          (insert_row rows e.sequence
            (record { observation_id = e.observation_id; envelope_json = json }) reached)
          not_persisted
    ok (some rows')

  unfoldable pub finish :
      WalletFeedHub
      → WalletFeedEnvelope P
      → WalletFeedProjection P
      → Result HubError (Option Table)
      → Result HubError (Unit {0}) × WalletFeedHub
  finish h e candidate (err problem) = (err problem, h)
  finish h e candidate (ok pool) =
      (ok tt, record { projection = candidate; published = h.published ++ e ∷ []; pool = pool })

  unfoldable pub publish_applied :
      WalletFeedHub
      → WalletFeedEnvelope P
      → Bool
      → Result String (Bool × WalletFeedProjection P)
      → Result HubError (Unit {0}) × WalletFeedHub
  publish_applied h e reached (err message) = (err (rejected message), h)
  publish_applied h e reached (ok (false, candidate)) = (ok tt, h)
  publish_applied h e reached (ok (true, candidate)) =
      finish h e candidate (persist h.pool e reached)

  -- The candidate replaces the projection only after the row is stored.
  unfoldable pub publish :
      WalletFeedHub → WalletFeedEnvelope P → Bool → Result HubError (Unit {0}) × WalletFeedHub
  publish h e reached = publish_applied h e reached (apply P h.projection e)
