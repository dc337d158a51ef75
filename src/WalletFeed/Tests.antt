-- ===== src/WalletFeed/Tests.antt =====
-- Runs of the wallet feed, after the tests of shared/src/types.rs and api/src/feed.rs.
use native.Mathlib.Decide.{ℕ_discrete}
use tuppira.Base.{
  ℕ, ◌+◌, ◌<◌, Text, codes, [], ◌∷◌, Option, none, some, true, false, ok, err, ◌≡◌, refl, sym, ap,
  arith, ◌≤◌, text_eq, text_eq_iff,
}
use tuppira.WalletFeed.Protocol.{Protocol}
use tuppira.WalletFeed.Event
use tuppira.WalletFeed.Event.{
  matches, network_eq, finality_rank, Network, TuppiraFinality, TuppiraEventType,
  TuppiraEventPayload,
}
use tuppira.WalletFeed.Envelope
use tuppira.WalletFeed.Envelope.{block_eq, finality_eq, WalletFeedEnvelope, IndexerFreshnessStatus}
use tuppira.WalletFeed.Projection.{
  WalletFeedProjection, empty, event_key, check_reorg, regresses, record_envelope, admit,
  replay_or_admit, apply, since,
}
use tuppira.WalletFeed.Projection.History.{Indexes, Indexes-empty}
use tuppira.WalletFeed.Projection.Step.{apply-Indexes, apply_all, apply-apply}
use tuppira.WalletFeed.Projection.Reads.{since_lem, apply-finality_rank, apply-reorg}
use tuppira.WalletFeed.Hub.{
  Codec, Table, not_persisted, as_i64, has_observation, taken, insert_row, from_pool, persist,
  finish, publish_applied, publish,
}
use tuppira.WalletFeed.Hub.Publish.{
  publish-err, Published, publish-Published, publish-admitted, publish_all, fresh, fresh-IsDurable,
  from_pool-publish_all,
}
use tuppira.WalletFeed.Hub.Durable.{IsDurable}
use tuppira.Base.Maps.{get, insert, get_at, insert_at}
use tuppira.Base.Words.{saturating_add}
use tuppira.Base.Decimal.{decimal}

abbrev protocol : Protocol
protocol = record {
  ChainId = Text;
  as_str = λ c. c;
  chain_eq = text_eq;
  chain_eq_iff = text_eq_iff;
  protocol_version = codes "1";
  DateTime = ℕ;
}

abbrev envelope : ℕ → TuppiraFinality → WalletFeedEnvelope protocol
envelope n f = record {
  schema_version = 1;
  protocol_version = codes "1";
  observation_id = (b'0' + n) ∷ [];
  sequence = n;
  chain_id = codes "eth";
  network = Network.testnet;
  observed_block = record { height = 9; hash = codes "b" };
  freshness = record {
    indexed_at = 0;
    tip = record { height = 9; hash = codes "t" };
    lag_blocks = 0;
    status = IndexerFreshnessStatus.fresh;
  };
  finality = f;
  provenance = record {
    producer = codes "indexer";
    source_cursor = codes "c";
    cryptographically_verified = false;
  };
  event = record {
    schema_version = 1;
    chain_id = codes "eth";
    network = Network.testnet;
    contract = codes "x";
    event_type = TuppiraEventType.seal_consumed;
    block_height = 9;
    block_hash = codes "b";
    transaction_id = codes "y";
    log_index = 1;
    finality = f;
    payload = TuppiraEventPayload.consumed (codes "s") (codes "n");
  };
  reorg_replacement = none;
}

envelope-discrete : Discrete (WalletFeedEnvelope protocol)
envelope-discrete = hlevel ℕ_discrete

abbrev first : WalletFeedEnvelope protocol
first = envelope 1 TuppiraFinality.observed

abbrev second : WalletFeedEnvelope protocol
second = envelope 2 TuppiraFinality.finalized

-- The first block is replaced by one above the common ancestor.
abbrev replacement : WalletFeedEnvelope protocol
replacement = record second {
  reorg_replacement = some (record {
    replaced_observation_id = codes "1";
    common_ancestor = record { height = 8; hash = codes "a" };
    replacement_block = record { height = 9; hash = codes "b" };
  });
}

abbrev one : WalletFeedProjection protocol
one = record_envelope protocol (empty protocol) first

-- A codec that writes the first envelope alone.
write : {e : WalletFeedEnvelope protocol} → Dec (e ≡ first) → Option Text
write (yes p) = some []
write (no p) = none

write-read :
    (e : WalletFeedEnvelope protocol) (t : Text) (d : Dec (e ≡ first))
    → write d ≡ some t
    → ◌≡◌ {A = Option (WalletFeedEnvelope protocol)} (some first) (some e)
unfolding write
write-read e t (yes p) h = ap some (sym p)
write-read e t (no p) h = cc

write-first : (d : Dec (first ≡ first)) → write d ≡ some []
unfolding write
write-first (yes p) = refl
write-first (no p) = absurd (p refl)

abbrev codec : Codec protocol
codec = record {
  to_json = λ e. write (envelope-discrete e first);
  from_json = λ t. some first;
  round_trip = λ e t h. write-read e t (envelope-discrete e first) h;
}

first_applies : apply protocol (empty protocol) first ≡ ok (true, one)
unfolding apply replay_or_admit admit check_reorg regresses record_envelope event_key decimal
    saturating_add get text_eq Envelope.validate Event.validate Envelope.validate_reorg block_eq
    finality_eq finality_rank network_eq
first_applies = refl

second_applies : apply protocol one second ≡ ok (true, record_envelope protocol one second)
unfolding apply replay_or_admit admit check_reorg regresses record_envelope event_key decimal
    saturating_add get insert get_at insert_at text_eq Envelope.validate Event.validate
    Envelope.validate_reorg block_eq finality_eq finality_rank network_eq
second_applies = refl

replacement_applies :
    apply protocol one replacement ≡ ok (true, record_envelope protocol one replacement)
unfolding apply replay_or_admit admit check_reorg regresses record_envelope event_key decimal
    saturating_add get insert get_at insert_at text_eq Envelope.validate Event.validate
    Envelope.validate_reorg block_eq finality_eq finality_rank network_eq
replacement_applies = refl

-- A sequence that leaves a gap is refused.
apply_gap : apply protocol (empty protocol) second ≡ err "wallet feed sequence is not contiguous"
unfolding apply replay_or_admit admit saturating_add get text_eq Envelope.validate Event.validate
    Envelope.validate_reorg finality_eq finality_rank network_eq
apply_gap = refl

one-Indexes : Indexes protocol one (first ∷ [])
one-Indexes =
    apply-Indexes protocol (empty protocol) [] first (Indexes-empty protocol) (omega arith)
      first_applies

apply-Indexes_example : Indexes protocol (record_envelope protocol one second) (first ∷ second ∷ [])
apply-Indexes_example =
    apply-Indexes protocol one (first ∷ []) second one-Indexes (omega arith) second_applies

apply-apply_example :
    apply protocol (apply_all protocol one (second ∷ first ∷ [])) first
    ≡ ok (false, apply_all protocol one (second ∷ first ∷ []))
apply-apply_example =
    apply-apply protocol first (empty protocol) (second ∷ first ∷ []) first_applies

since_lem_example : since protocol one 0 ≡ first ∷ []
since_lem_example = since_lem protocol one (first ∷ []) 0 one-Indexes (omega arith)

finality_key : get one.finality (codes "eth:y:1") ≡ some TuppiraFinality.observed
unfolding get insert record_envelope event_key decimal text_eq
finality_key = refl

apply-finality_rank_example :
    (g : TuppiraFinality) × (get (record_envelope protocol one second).finality (codes "eth:y:1")
      ≡ some g)
    × (finality_rank TuppiraFinality.observed ≤ finality_rank g)
apply-finality_rank_example =
    apply-finality_rank protocol one second (codes "eth:y:1") TuppiraFinality.observed
      second_applies refl finality_key

apply-reorg_example :
    (k : ℕ) × (d : WalletFeedEnvelope protocol) × (get_at one.envelopes k ≡ some d)
    × (d.observation_id ≡ codes "1")
    × (d.chain_id ≡ codes "eth")
    × (d.network ≡ Network.testnet)
    × (8 < d.observed_block.height)
apply-reorg_example =
    apply-reorg protocol one replacement (first ∷ [])
      (record {
        replaced_observation_id = codes "1";
        common_ancestor = record { height = 8; hash = codes "a" };
        replacement_block = record { height = 9; hash = codes "b" };
      })
      one-Indexes refl replacement_applies

publish_without_disk :
    (publish protocol codec (fresh protocol codec) first false).0 ≡ err not_persisted
unfolding publish publish_applied finish persist insert_row taken has_observation as_i64 get_at
publish_without_disk = rw (first_applies, write-first (envelope-discrete first first))

publish-err_example :
    (publish protocol codec (fresh protocol codec) first false).1 ≡ fresh protocol codec
publish-err_example =
    publish-err protocol codec (fresh protocol codec) first false publish_without_disk

publish-Published_example :
    Published protocol codec
      (fresh protocol codec)
      []
      first
      (publish protocol codec (fresh protocol codec) first true)
publish-Published_example =
    publish-Published protocol codec (fresh protocol codec) [] first
      (fresh-IsDurable protocol codec) (omega arith) true

publish-admitted_example :
    ((publish protocol codec (fresh protocol codec) first true).0 ≡ ok tt)
    × IsDurable protocol codec
        (publish protocol codec (fresh protocol codec) first true).1
        (first ∷ [])
    × ((publish protocol codec (fresh protocol codec) first true).1.published ≡ first ∷ [])
publish-admitted_example =
    publish-admitted protocol codec (fresh protocol codec) [] first (fresh-IsDurable protocol codec)
      (omega arith) [] first_applies (write-first (envelope-discrete first first))

from_pool-publish_all_example :
    (rows : Table) × ((publish_all protocol codec
        (fresh protocol codec)
        ((first, true) ∷ (second, false) ∷ [])).pool
      ≡ some rows)
    × (from_pool protocol codec rows
        ≡ ok (record {
          projection =
              (publish_all protocol codec
                (fresh protocol codec)
                ((first, true) ∷ (second, false) ∷ [])).projection;
          published = [];
          pool = some rows;
        }))
    × (since protocol
          (publish_all protocol codec
            (fresh protocol codec)
            ((first, true) ∷ (second, false) ∷ [])).projection
          0
        ≡ (publish_all protocol codec
            (fresh protocol codec)
            ((first, true) ∷ (second, false) ∷ [])).published)
from_pool-publish_all_example =
    from_pool-publish_all protocol codec ((first, true) ∷ (second, false) ∷ []) (omega arith)
