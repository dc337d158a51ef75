-- ===== src/WalletFeed/Projection.antt =====
-- shared/src/types.rs: `WalletFeedProjection`, the idempotent, ordered projection of the feed.
pub mod History
pub mod Step
pub mod Reads
use tuppira.Base.{
  ℕ, ◌+◌, Text, String, codes, Bool, true, false, ◌||◌, Option, none, some, List, [], ◌∷◌, ◌++◌,
  Result, ok, err, ◌>>=◌, ◌>>◌, refuse_if, ok_or, ◌==◌, ltb, leb, not, if◌then◌else◌,
}
use tuppira.Base.Words.{saturating_add}
use tuppira.Base.Decimal.{decimal}
use tuppira.Base.Maps.{get, insert, get_at, insert_at, values_from}
use tuppira.WalletFeed.Protocol.{Protocol}
use tuppira.WalletFeed.Event.{network_eq, TuppiraFinality, finality_rank}
use tuppira.WalletFeed.Envelope
use tuppira.WalletFeed.Envelope.{ReorgReplacement, WalletFeedEnvelope}

module _ (P : Protocol) where
  open P use {as_str, chain_eq}

  pub record WalletFeedProjection : Type 0 where
    pub last_sequence : ℕ
    pub envelopes : List (ℕ × WalletFeedEnvelope P)
    pub observation_sequences : List (Text × ℕ)
    pub finality : List (Text × TuppiraFinality)

  -- WalletFeedProjection::default()
  abbrev pub empty : WalletFeedProjection
  empty = record { last_sequence = 0; envelopes = []; observation_sequences = []; finality = [] }

  unfoldable pub event_key : WalletFeedEnvelope P → Text
  event_key e =
      as_str e.chain_id
      ++ codes ":"
      ++ e.event.transaction_id
      ++ codes ":"
      ++ decimal e.event.log_index

  -- The envelope that a reorg replaces must be known, of the same chain, and above the ancestor.
  unfoldable pub check_reorg :
      WalletFeedProjection
      → WalletFeedEnvelope P
      → Option ReorgReplacement
      → Result String (Unit {0})
  check_reorg p e none = ok tt
  check_reorg p e (some reorg) = do
    replaced_sequence ←
        ok_or (get p.observation_sequences reorg.replaced_observation_id)
          "reorg replacement references an unknown observation"
    replaced ←
        ok_or (get_at p.envelopes replaced_sequence) "reorg replacement observation is unavailable"
    refuse_if
        (not (chain_eq replaced.chain_id e.chain_id)
          || not (network_eq replaced.network e.network)
          || leb replaced.observed_block.height reorg.common_ancestor.height)
        "reorg replacement does not match the replaced observation"

  -- Without a reorg, the finality on record may not be lowered.
  unfoldable pub regresses :
      Option ReorgReplacement → TuppiraFinality → Option TuppiraFinality → Bool
  regresses (some reorg) next previous = false
  regresses none next none = false
  regresses none next (some previous) = ltb (finality_rank next) (finality_rank previous)

  unfoldable pub record_envelope :
      WalletFeedProjection → WalletFeedEnvelope P → WalletFeedProjection
  record_envelope p e = record {
    last_sequence = e.sequence;
    observation_sequences = insert p.observation_sequences e.observation_id e.sequence;
    finality = insert p.finality (event_key e) e.finality;
    envelopes = insert_at p.envelopes e.sequence e;
  }

  unfoldable pub admit :
      WalletFeedProjection → WalletFeedEnvelope P → Result String (Bool × WalletFeedProjection)
  admit p e = do
    refuse_if (not (e.sequence == saturating_add p.last_sequence 1))
        "wallet feed sequence is not contiguous"
    check_reorg p e e.reorg_replacement
    refuse_if (regresses e.reorg_replacement e.finality (get p.finality (event_key e)))
        "finality may not regress without an explicit reorg replacement"
    ok (true, record_envelope p e)

  -- The replay of an observation id that is on record.
  unfoldable pub replay_or_admit :
      WalletFeedProjection
      → WalletFeedEnvelope P
      → Option ℕ
      → Result String (Bool × WalletFeedProjection)
  replay_or_admit p e (some sequence) =
      if sequence == e.sequence
      then ok (false, p)
      else err "observation id was reused with a different sequence"
  replay_or_admit p e none = admit p e

  -- The projection is written only when the envelope is admitted.
  unfoldable pub apply :
      WalletFeedProjection → WalletFeedEnvelope P → Result String (Bool × WalletFeedProjection)
  apply p e = do
    Envelope.validate P e
    replay_or_admit p e (get p.observation_sequences e.observation_id)

  unfoldable pub since : WalletFeedProjection → ℕ → List (WalletFeedEnvelope P)
  since p sequence = values_from p.envelopes (saturating_add sequence 1)
