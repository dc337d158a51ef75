-- ===== src/WalletFeed/Projection/Reads.antt =====
-- shared/src/types.rs: `since`, reorg replacements and finality over the log.
use tuppira.Base.{
  ℕ, zero, suc, ◌+◌, ◌≤◌, ◌<◌, Text, Bool, true, false, none, some, List, [], ◌∷◌, ok, ok_or,
  >>=-eq-ok, refuse_if_iff, ok_or_iff, leb, leb→lt, drop, ◌≡◌, refl, sym, ap, subst, ◌∙◌, arith,
  text_eq, text_eq_iff, not, Option-cases, Bool-cases, inl, inr, ◌||◌,
}
use tuppira.Base.Words.{saturating_add_one, u64_max}
use tuppira.Base.Maps.{get, get-insert, get_at, values_from}
use tuppira.WalletFeed.Protocol.{Protocol}
use tuppira.WalletFeed.Event.{network_eq, Network, TuppiraFinality, finality_rank}
use tuppira.WalletFeed.Envelope.{WalletFeedEnvelope, ReorgReplacement}
use tuppira.WalletFeed.Projection.{
  WalletFeedProjection, event_key, check_reorg, regresses, record_envelope, apply, since,
}
use tuppira.WalletFeed.Projection.History.{Indexes, numbered, number_of}
use tuppira.WalletFeed.Projection.Step.{apply-cases}

module _ (P : Protocol) where
  values_from-below :
      (n k : ℕ) (log : List (WalletFeedEnvelope P)) → k ≤ n → values_from (numbered P n log) k ≡ log
  unfolding values_from
  values_from-below n k [] h = refl
  values_from-below n k (e ∷ log) h = ground (arith, values_from-below (suc n) k log)

  values_from-numbered :
      (n k m : ℕ) (log : List (WalletFeedEnvelope P))
      → k ≡ n + m
      → values_from (numbered P n log) k ≡ drop m log
  unfolding values_from
  values_from-numbered n k zero log h = values_from-below n k log (omega (arith, h))
  values_from-numbered n k (suc m) [] h = refl
  values_from-numbered n k (suc m) (e ∷ log) h =
      ground (arith, values_from-numbered (suc n) k m log)

  number_of-get_at :
      (n k : ℕ) (log : List (WalletFeedEnvelope P)) (id : Text)
      → number_of P n log id ≡ some k
      → (d : WalletFeedEnvelope P) × (get_at (numbered P n log) k ≡ some d)
        × (d.observation_id ≡ id)
        × (n ≤ k)
  unfolding get_at
  number_of-get_at n k [] id h = cc
  number_of-get_at n k (e ∷ log) id h = elim (Option-cases (number_of P (suc n) log id)) [
    | inl here ↦ (e, ground arith, ground (arith, text_eq_iff e.observation_id id), ground arith)
    | inr (j, there) ↦
        let (d, found, same, above) = number_of-get_at (suc n) k log id (ground arith) in
        (d, ground arith, same, omega (arith, above))
  ]

module _ (P : Protocol) (p : WalletFeedProjection P) (log : List (WalletFeedEnvelope P)) where
  -- A client that has the first `n` envelopes of the log resumes with exactly the rest, in order:
  -- nothing is skipped and nothing is delivered twice.
  pub since_lem : (n : ℕ) → Indexes P p log → n < u64_max → since P p n ≡ drop n log
  unfolding since
  since_lem n x room =
      rw (x.order, saturating_add_one n room) (values_from-numbered P 1 (suc n) n log (omega arith))

module _ (P : Protocol) (p : WalletFeedProjection P) (e : WalletFeedEnvelope P) where
  network_eq_sound : (a b : Network) → network_eq a b ≡ true → a ≡ b
  unfolding network_eq
  network_eq_sound a b h = ground arith

  three_guards :
      (a b c : Bool) → (not a || not b || c) ≡ false → (a ≡ true) × (b ≡ true) × (c ≡ false)
  three_guards a b c h = ground arith

  check_reorg_sound :
      (reorg : ReorgReplacement)
      → check_reorg P p e (some reorg) ≡ ok tt
      → (k : ℕ) × (d : WalletFeedEnvelope P) × (get p.observation_sequences
            reorg.replaced_observation_id
          ≡ some k)
        × (get_at p.envelopes k ≡ some d)
        × (d.chain_id ≡ e.chain_id)
        × (d.network ≡ e.network)
        × (reorg.common_ancestor.height < d.observed_block.height)
  unfolding check_reorg
  check_reorg_sound reorg h =
      let (k, known, h₁) =
        >>=-eq-ok (ok_or (get p.observation_sequences reorg.replaced_observation_id) _) _ h in
      let (d, there, h₂) = >>=-eq-ok (ok_or (get_at p.envelopes k) _) _ h₁ in
      let (chain, network, height) =
        three_guards (P.chain_eq d.chain_id e.chain_id) (network_eq d.network e.network)
          (leb d.observed_block.height reorg.common_ancestor.height) ((refuse_if_iff _ _).0 h₂) in
      (
        k,
        d,
        (ok_or_iff _ _).0 known,
        (ok_or_iff _ _).0 there,
        (P.chain_eq_iff _ _).0 chain,
        network_eq_sound _ _ network,
        leb→lt _ _ height,
      )

  -- The envelope that the index finds for an id carries that id.
  stored_id :
      (log : List (WalletFeedEnvelope P)) (k : ℕ) (d : WalletFeedEnvelope P) (id : Text)
      → Indexes P p log
      → get p.observation_sequences id ≡ some k
      → get_at p.envelopes k ≡ some d
      → d.observation_id ≡ id
  stored_id log k d id x found stored =
      let (c, stored', same, _) = number_of-get_at P 1 k log id (sym (x.ids id) ∙ found) in
      let one : c ≡ d = cc (ap (λ m. get_at m k) x.order) in
      ap (λ (b : WalletFeedEnvelope P). b.observation_id) (sym one) ∙ same

  -- An admitted reorg replaces an envelope on record, of its own chain and network, that lies
  -- above the common ancestor.
  pub apply-reorg :
      (log : List (WalletFeedEnvelope P)) (reorg : ReorgReplacement) {p' : WalletFeedProjection P}
      → Indexes P p log
      → e.reorg_replacement ≡ some reorg
      → apply P p e ≡ ok (true, p')
      → (k : ℕ) × (d : WalletFeedEnvelope P) × (get_at p.envelopes k ≡ some d)
        × (d.observation_id ≡ reorg.replaced_observation_id)
        × (d.chain_id ≡ e.chain_id)
        × (d.network ≡ e.network)
        × (reorg.common_ancestor.height < d.observed_block.height)
  apply-reorg log reorg x r h = elim (apply-cases P p e h) [
    | inr (replayed, _, _) ↦ cc
    | inl (fresh, a) ↦
        let (k, d, found, stored, chain, network, height) =
          check_reorg_sound reorg (subst (λ o. check_reorg P p e o ≡ ok tt) r a.reorg) in
        (k, d, stored, stored_id log k d _ x found stored, chain, network, height)
  ]

  known_here :
      (key : Text) (f : TuppiraFinality)
      → text_eq (event_key P e) key ≡ true
      → get p.finality key ≡ some f
      → get p.finality (event_key P e) ≡ some f
  known_here key f same known = rw ((text_eq_iff (event_key P e) key).0 same) known

  kept :
      (f : TuppiraFinality)
      → regresses P none e.finality (get p.finality (event_key P e)) ≡ false
      → get p.finality (event_key P e) ≡ some f
      → finality_rank f ≤ finality_rank e.finality
  unfolding regresses
  kept f keeps known = ground (arith)

  -- Without a reorg no finality on record is ever lowered.
  pub apply-finality_rank :
      {b : Bool} {p' : WalletFeedProjection P} (key : Text) (f : TuppiraFinality)
      → apply P p e ≡ ok (b, p')
      → e.reorg_replacement ≡ none
      → get p.finality key ≡ some f
      → (g : TuppiraFinality) × (get p'.finality key ≡ some g) × (finality_rank f ≤ finality_rank g)
  unfolding record_envelope
  apply-finality_rank key f h r known = elim (apply-cases P p e h) [
    | inl (fresh, a) ↦ elim (Bool-cases (text_eq (event_key P e) key)) [
      | inl here ↦ (
        e.finality,
        rw (a.result, get-insert, here),
        kept f
            (subst (λ o. regresses P o e.finality (get p.finality (event_key P e)) ≡ false) r
              a.keeps)
            (known_here key f here known),
      )
      | inr elsewhere ↦ (f, rw (a.result, get-insert, elsewhere) known, omega arith)
    ]
    | inr (replayed, same, _) ↦ (f, ground arith, omega arith)
  ]
