-- ===== src/WalletFeed/Projection/Step.antt =====
-- shared/src/types.rs: `WalletFeedProjection::apply` against the log of the envelopes it has admitted.
use tuppira.Base.{
  ℕ, suc, ◌+◌, ◌<◌, Bool, true, false, none, some, List, [], ◌∷◌, ◌++◌, ok, refuse_if, >>_iff,
  refuse_if_iff, ◌==◌, ==_refl, length, length-append, ◌≡◌, arith, text_eq_refl, not, if◌then◌else◌,
  Option-cases, inl, inr, ◌⊎◌, text_eq, text_eq_iff, Bool-cases, Result, err, Result-cases, refl,
  sym, ap, subst,
}
use Prim.Native.String.{String}
use tuppira.Base.Words.{saturating_add, saturating_add_one, u64_max}
use tuppira.Base.Maps.{get, get-insert, KeysBelow-mono, insert_at-KeysBelow}
use tuppira.WalletFeed.Protocol.{Protocol}
use tuppira.WalletFeed.Envelope
use tuppira.WalletFeed.Envelope.{WalletFeedEnvelope}
use tuppira.WalletFeed.Projection.{
  WalletFeedProjection, event_key, check_reorg, regresses, record_envelope, admit, replay_or_admit,
  apply,
}
use tuppira.WalletFeed.Projection.History.{
  Indexes, numbered, numbered-append, number_of-append, finality_of-append, numbered-KeysBelow,
  Consecutive-append,
}

module _ (P : Protocol) (p : WalletFeedProjection P) (e : WalletFeedEnvelope P) where
  -- What an admission has checked.
  pub record Admitted (p' : WalletFeedProjection P) : Type 0 where
    pub valid : Envelope.validate P e ≡ ok tt
    pub new : get p.observation_sequences e.observation_id ≡ none
    pub next : e.sequence ≡ saturating_add p.last_sequence 1
    pub reorg : check_reorg P p e e.reorg_replacement ≡ ok tt
    pub keeps : regresses P e.reorg_replacement e.finality (get p.finality (event_key P e)) ≡ false
    pub result : p' ≡ record_envelope P p e

  admit-Admitted :
      {b : Bool} {p' : WalletFeedProjection P}
      → Envelope.validate P e ≡ ok tt
      → get p.observation_sequences e.observation_id ≡ none
      → admit P p e ≡ ok (b, p')
      → (b ≡ true) × Admitted p'
  unfolding admit
  admit-Admitted v n h =
      let (next, h₁) =
        (>>_iff (refuse_if (not (e.sequence == saturating_add p.last_sequence 1)) _) _).0 h in
      let (reorg, h₂) = (>>_iff (check_reorg P p e e.reorg_replacement) _).0 h₁ in
      let (keeps, h₃) = (>>_iff (refuse_if (regresses P _ _ _) _) _).0 h₂ in
      (
        cc (h₃),
        record {
          valid = v;
          new = n;
          next = ground (arith, (refuse_if_iff _ _).0 next);
          reorg = reorg;
          keeps = (refuse_if_iff _ _).0 keeps;
          result = cc (h₃);
        },
      )

  -- An envelope is admitted after every check, or it is a replay that changes nothing.
  pub apply-cases :
      {b : Bool} {p' : WalletFeedProjection P}
      → apply P p e ≡ ok (b, p')
      → ((b ≡ true) × Admitted p')
        ⊎ ((b ≡ false)
            × (p' ≡ p)
            × (get p.observation_sequences e.observation_id ≡ some e.sequence))
  unfolding apply replay_or_admit
  apply-cases h =
      let (v, h₁) = (>>_iff (Envelope.validate P e) _).0 h in
      elim (Option-cases (get p.observation_sequences e.observation_id)) [
        | inl new ↦ inl (admit-Admitted v new (rw new at h₁))
        | inr (n, known) ↦ inr (ground arith)
      ]

one_add : (n : ℕ) → 1 + n ≡ suc n
one_add n = omega arith

module _ (P : Protocol) (p : WalletFeedProjection P) (log : List (WalletFeedEnvelope P)) where
  record_envelope-Indexes :
      (e : WalletFeedEnvelope P)
      → Indexes P p log
      → length log < u64_max
      → e.sequence ≡ suc (length log)
      → Indexes P (record_envelope P p e) (log ++ e ∷ [])
  unfolding record_envelope
  record_envelope-Indexes e x room next = record {
    last = omega (arith, next, length-append log (e ∷ []));
    numbers = Consecutive-append P 1 log e x.numbers (omega (arith, next));
    order =
        let above =
          KeysBelow-mono (numbered P 1 log) (1 + length log) (suc (length log)) (omega arith)
            (numbered-KeysBelow P 1 log) in
        cc (
          insert_at-KeysBelow (numbered P 1 log) (suc (length log)) e above,
          numbered-append P 1 log e,
          one_add (length log),
        );
    ids = λ id. rw (get-insert, number_of-append) (ground (arith, x.ids id, next));
    finalities = λ key. rw (get-insert, finality_of-append) (ground (arith, x.finalities key));
    fits = omega (arith, length-append log (e ∷ []));
  }

  -- An admitted envelope is appended to the log; a replay leaves projection and log alone.
  pub apply-Indexes :
      (e : WalletFeedEnvelope P) {b : Bool} {p' : WalletFeedProjection P}
      → Indexes P p log
      → length log < u64_max
      → apply P p e ≡ ok (b, p')
      → Indexes P p' (if b then log ++ e ∷ [] else log)
  apply-Indexes e {p' = p'} x room h = elim (apply-cases P p e h) [
    | inl (fresh, a) ↦
        rw (fresh, a.result)
          (record_envelope-Indexes e x room (
            omega
              (arith, a.next, x.last, saturating_add_one p.last_sequence (omega (arith, x.last)))))
    | inr (replayed, same, known) ↦ rw (replayed, same) x
  ]

-- The projection that an attempt to apply leaves: an error changes nothing.
unfoldable pub left :
    {P : Protocol}
    → WalletFeedProjection P
    → Result String (Bool × WalletFeedProjection P)
    → WalletFeedProjection P
left p (ok (b, q)) = q
left p (err message) = p

-- The projection after attempts to apply each of a list of envelopes, in turn.
unfoldable pub apply_all :
    (P : Protocol) → WalletFeedProjection P → List (WalletFeedEnvelope P) → WalletFeedProjection P
apply_all P p [] = p
apply_all P p (d ∷ ds) = apply_all P (left p (apply P p d)) ds

module _ (P : Protocol) (e : WalletFeedEnvelope P) where
  -- The projection has the envelope's id with its sequence.
  abbrev Has : WalletFeedProjection P → Type 0
  Has p = get p.observation_sequences e.observation_id ≡ some e.sequence

  record_envelope-Has : (p : WalletFeedProjection P) → Has (record_envelope P p e)
  unfolding record_envelope
  record_envelope-Has p = rw (get-insert, text_eq_refl e.observation_id) refl

  -- An envelope that is admitted later has an id that was not there.
  record_envelope-Has_other :
      (p : WalletFeedProjection P) (d : WalletFeedEnvelope P)
      → get p.observation_sequences d.observation_id ≡ none
      → Has p
      → Has (record_envelope P p d)
  unfolding record_envelope
  record_envelope-Has_other p d new has =
      elim (Bool-cases (text_eq d.observation_id e.observation_id)) [
        | inl same ↦
            let at = (text_eq_iff d.observation_id e.observation_id).0 same in
            cc (ap (get p.observation_sequences) at, new, has)
        | inr apart ↦ rw (get-insert, apart) has
      ]

  left-Has :
      (p : WalletFeedProjection P) (d : WalletFeedEnvelope P) → Has p → Has (left p (apply P p d))
  unfolding left
  left-Has p d has = elim (Result-cases (apply P p d)) [
    | inr (message, refused) ↦ rw refused has
    | inl ((b, q), applied) ↦ elim (apply-cases P p d applied) [
      | inl (fresh, a) ↦ rw (applied, a.result) (record_envelope-Has_other p d a.new has)
      | inr (replayed, same, known) ↦ rw (applied, same) has
    ]
  ]

  apply_all-Has :
      (p : WalletFeedProjection P) (ds : List (WalletFeedEnvelope P))
      → Has p
      → Has (apply_all P p ds)
  unfolding apply_all
  apply_all-Has p [] has = has
  apply_all-Has p (d ∷ ds) has = apply_all-Has (left p (apply P p d)) ds (left-Has p d has)

  replay :
      (p : WalletFeedProjection P)
      → Envelope.validate P e ≡ ok tt
      → Has p
      → apply P p e ≡ ok (false, p)
  unfolding apply replay_or_admit
  replay p v has = rw (v, has) (ground (arith, ==_refl e.sequence))

  -- An envelope that was admitted once is a replay ever after: whatever is applied to the projection
  -- in between, with success or not, another delivery of it returns false and changes nothing.
  pub apply-apply :
      (p : WalletFeedProjection P) {p' : WalletFeedProjection P}
      (later : List (WalletFeedEnvelope P))
      → apply P p e ≡ ok (true, p')
      → apply P (apply_all P p' later) e ≡ ok (false, apply_all P p' later)
  apply-apply p {p' = p'} later h = elim (apply-cases P p e h) [
    | inl (fresh, a) ↦
        replay (apply_all P p' later) a.valid
          (apply_all-Has p' later (subst Has (sym a.result) (record_envelope-Has p)))
    | inr (replayed, _, _) ↦ cc
  ]
