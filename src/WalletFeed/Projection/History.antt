-- ===== src/WalletFeed/Projection/History.antt =====
-- shared/src/types.rs: the projection as the index of a log of envelopes, in the order of delivery.
use tuppira.Base.{
  ℕ, suc, ◌+◌, ◌≤◌, Text, Option, none, some, List, [], ◌∷◌, ◌++◌, length, ◌≡◌, refl, arith,
  text_eq, if◌then◌else◌,
}
use tuppira.Base.Words.{u64_max}
use tuppira.Base.Maps.{get, KeysBelow, KeysBelow-mono}
use tuppira.WalletFeed.Protocol.{Protocol}
use tuppira.WalletFeed.Event.{TuppiraFinality}
use tuppira.WalletFeed.Envelope.{WalletFeedEnvelope}
use tuppira.WalletFeed.Projection.{WalletFeedProjection, empty, event_key}

module _ (P : Protocol) where
  -- A log of envelopes, numbered from `n`.
  abbrev pub numbered : ℕ → List (WalletFeedEnvelope P) → List (ℕ × WalletFeedEnvelope P)
  numbered n [] = []
  numbered n (e ∷ log) = (n, e) ∷ numbered (suc n) log

  -- Each envelope carries its own number.
  abbrev pub Consecutive : ℕ → List (WalletFeedEnvelope P) → Type 0
  Consecutive n [] = Unit
  Consecutive n (e ∷ log) = (e.sequence ≡ n) × Consecutive (suc n) log

  -- The number under which a log numbered from `n` last has an observation id.
  abbrev pub number_of : ℕ → List (WalletFeedEnvelope P) → Text → Option ℕ
  number_of n [] id = none
  number_of n (e ∷ log) id = elim (number_of (suc n) log id) [
    | some k ↦ some k
    | none ↦ if text_eq e.observation_id id then some n else none
  ]

  -- The finality that the last envelope for an event reported.
  abbrev pub finality_of : List (WalletFeedEnvelope P) → Text → Option TuppiraFinality
  finality_of [] key = none
  finality_of (e ∷ log) key = elim (finality_of log key) [
    | some f ↦ some f
    | none ↦ if text_eq (event_key P e) key then some e.finality else none
  ]

  -- The projection holds this log and nothing else, each envelope under its own sequence.
  pub record Indexes (p : WalletFeedProjection P) (log : List (WalletFeedEnvelope P)) : Type 0 where
    pub last : p.last_sequence ≡ length log
    pub numbers : Consecutive 1 log
    pub order : p.envelopes ≡ numbered 1 log
    pub ids : (id : Text) → get p.observation_sequences id ≡ number_of 1 log id
    pub finalities : (key : Text) → get p.finality key ≡ finality_of log key
    pub fits : length log ≤ u64_max

  pub numbered-append :
      (n : ℕ) (log : List (WalletFeedEnvelope P)) (e : WalletFeedEnvelope P)
      → numbered n (log ++ e ∷ []) ≡ numbered n log ++ (n + length log, e) ∷ []
  numbered-append n [] e = ground arith
  numbered-append n (d ∷ log) e = ground (arith, numbered-append (suc n) log e)

  pub number_of-append :
      (n : ℕ) (log : List (WalletFeedEnvelope P)) (e : WalletFeedEnvelope P) (id : Text)
      → number_of n (log ++ e ∷ []) id
        ≡ (if text_eq e.observation_id id then some (n + length log) else number_of n log id)
  number_of-append n [] e id = ground arith
  number_of-append n (d ∷ log) e id = ground (arith, number_of-append (suc n) log e id)

  pub finality_of-append :
      (log : List (WalletFeedEnvelope P)) (e : WalletFeedEnvelope P) (key : Text)
      → finality_of (log ++ e ∷ []) key
        ≡ (if text_eq (event_key P e) key then some e.finality else finality_of log key)
  finality_of-append [] e key = refl
  finality_of-append (d ∷ log) e key = ground (arith, finality_of-append log e key)

  pub numbered-KeysBelow :
      (n : ℕ) (log : List (WalletFeedEnvelope P)) → KeysBelow (n + length log) (numbered n log)
  numbered-KeysBelow n [] = tt
  numbered-KeysBelow n (e ∷ log) = (
    omega arith,
    KeysBelow-mono (numbered (suc n) log) _ _ (omega arith) (numbered-KeysBelow (suc n) log),
  )

  pub Consecutive-append :
      (n : ℕ) (log : List (WalletFeedEnvelope P)) (e : WalletFeedEnvelope P)
      → Consecutive n log
      → e.sequence ≡ n + length log
      → Consecutive n (log ++ e ∷ [])
  Consecutive-append n [] e c h = (omega (arith, h), tt)
  Consecutive-append n (d ∷ log) e c h =
      (c.0, Consecutive-append (suc n) log e c.1 (omega (arith, h)))

  pub Indexes-empty : Indexes (empty P) []
  unfolding get
  Indexes-empty = record {
    last = refl;
    numbers = tt;
    order = refl;
    ids = λ id. refl;
    finalities = λ key. refl;
    fits = omega arith;
  }
