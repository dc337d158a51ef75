-- ===== src/WalletFeed/Hub/Durable.antt =====
-- api/src/feed.rs: what it means that a restart from the table would rebuild a hub's projection.
use tuppira.Base.{
  ℕ, suc, ◌+◌, ◌^◌, ◌<◌, Text, Bool, true, false, none, some, List, [], ◌∷◌, ◌++◌, ok, err, ok_or,
  map_err, length, ◌≡◌, refl, sym, ap, subst, arith, if◌then◌else◌, Option-cases, >>=-eq-ok, inl,
  inr, ◌∙◌,
}
use tuppira.Base.Words.{saturating_add_one}
use tuppira.Base.Maps.{get_at, KeysBelow, KeysBelow-mono, insert_at-KeysBelow}
use tuppira.WalletFeed.Protocol.{Protocol}
use tuppira.WalletFeed.Envelope.{WalletFeedEnvelope}
use tuppira.WalletFeed.Projection
use tuppira.WalletFeed.Projection.{WalletFeedProjection, apply}
use tuppira.WalletFeed.Projection.History.{Indexes, number_of}
use tuppira.WalletFeed.Projection.Step.{Admitted, apply-Indexes}
use tuppira.WalletFeed.Hub.{
  Codec, Row, Table, not_persisted, stored_invalid, stored_disorder, as_i64, has_observation, taken,
  insert_row, WalletFeedHub, load, persist,
}

-- The sequences that keep their order as signed 64-bit keys.
abbrev pub signed_limit : ℕ
signed_limit = 2 ^ 63

shift : (n m : ℕ) → suc n + m ≡ n + suc m
shift n m = omega arith

module _ (P : Protocol) (C : Codec P) where
  open C use {to_json, from_json}

  -- The rows hold the envelopes of the log, the first under sequence `n`.
  abbrev pub Stores : ℕ → Table → List (WalletFeedEnvelope P) → Type 0
  Stores n [] [] = Unit
  Stores n [] (e ∷ log) = ⊥
  Stores n ((k, r) ∷ rows) [] = ⊥
  Stores n ((k, r) ∷ rows) (e ∷ log) =
      (k ≡ n + 2 ^ 63)
      × (r.observation_id ≡ e.observation_id)
      × (from_json r.envelope_json ≡ some e)
      × Stores (suc n) rows log

  -- A hub over a table, with the log of all that was ever published.
  pub record IsDurable (h : WalletFeedHub P C) (log : List (WalletFeedEnvelope P)) : Type 0 where
    pub rows : Table
    pub pool : h.pool ≡ some rows
    pub indexes : Indexes P h.projection log
    pub stores : Stores 1 rows log
    pub loads : load P C (Projection.empty P) rows ≡ ok h.projection

  load-append :
      (p : WalletFeedProjection P) (rows : Table) (k : ℕ) (r : Row) (e : WalletFeedEnvelope P)
      {q q' : WalletFeedProjection P} {b : Bool}
      → load P C p rows ≡ ok q
      → from_json r.envelope_json ≡ some e
      → apply P q e ≡ ok (b, q')
      → load P C p (rows ++ (k, r) ∷ []) ≡ ok q'
  unfolding load
  load-append p [] k r e h j a = ground arith
  load-append p ((i, s) ∷ rows) k r e h j a =
      let (d, read, h₁) = >>=-eq-ok (ok_or (from_json s.envelope_json) stored_invalid) _ h in
      let (next, applied, h₂) = >>=-eq-ok (map_err stored_disorder (apply P p d)) _ h₁ in
      rw (read, applied) (load-append next.1 rows k r e h₂ j a)

  Stores-append :
      (n : ℕ) (rows : Table) (log : List (WalletFeedEnvelope P)) (r : Row)
      (e : WalletFeedEnvelope P)
      → Stores n rows log
      → r.observation_id ≡ e.observation_id
      → from_json r.envelope_json ≡ some e
      → Stores n (rows ++ (n + length log + 2 ^ 63, r) ∷ []) (log ++ e ∷ [])
  Stores-append n [] [] r e s i j = (omega arith, i, j, tt)
  Stores-append n [] (d ∷ log) r e s i j = absurd s
  Stores-append n ((k, t) ∷ rows) [] r e s i j = absurd s
  Stores-append n ((k, t) ∷ rows) (d ∷ log) r e s i j = (
    s.0,
    s.1,
    s.2,
    subst (λ m. Stores (suc n) (rows ++ (m + 2 ^ 63, r) ∷ []) (log ++ e ∷ []))
        (shift n (length log)) (Stores-append (suc n) rows log r e s.3 i j),
  )

  Stores-KeysBelow :
      (n : ℕ) (rows : Table) (log : List (WalletFeedEnvelope P))
      → Stores n rows log
      → KeysBelow (n + length log + 2 ^ 63) rows
  Stores-KeysBelow n [] log s = tt
  Stores-KeysBelow n ((k, t) ∷ rows) [] s = absurd s
  Stores-KeysBelow n ((k, t) ∷ rows) (d ∷ log) s = (
    omega (arith, s.0),
    KeysBelow-mono rows _ _ (omega arith) (Stores-KeysBelow (suc n) rows log s.3),
  )

  Stores-has_observation :
      (n : ℕ) (rows : Table) (log : List (WalletFeedEnvelope P)) (id : Text)
      → Stores n rows log
      → number_of P n log id ≡ none
      → has_observation rows id ≡ false
  unfolding has_observation
  Stores-has_observation n [] log id s h = refl
  Stores-has_observation n ((k, t) ∷ rows) [] id s h = absurd s
  Stores-has_observation n ((k, t) ∷ rows) (d ∷ log) id s h =
      elim (Option-cases (number_of P (suc n) log id)) [
        | inl none_later ↦
            ground (arith, s.1, Stores-has_observation (suc n) rows log id s.3 none_later)
        | inr (k', later) ↦ ground arith
      ]

  as_i64-next :
      (log : List (WalletFeedEnvelope P)) (s : ℕ)
      → s ≡ suc (length log)
      → suc (length log) < signed_limit
      → as_i64 s ≡ 1 + length log + 2 ^ 63
  unfolding as_i64
  as_i64-next log s e room = omega arith

  KeysBelow-get_at : (rows : Table) (k : ℕ) → KeysBelow k rows → get_at rows k ≡ none
  unfolding get_at
  KeysBelow-get_at [] k b = refl
  KeysBelow-get_at ((i, r) ∷ rows) k b = ground (arith, b.0, KeysBelow-get_at rows k b.1)

  next_sequence :
      (h : WalletFeedHub P C) (log : List (WalletFeedEnvelope P)) (e : WalletFeedEnvelope P)
      {p' : WalletFeedProjection P}
      → Indexes P h.projection log
      → suc (length log) < signed_limit
      → Admitted P h.projection e p'
      → e.sequence ≡ suc (length log)
  next_sequence h log e x room a =
      omega (
        arith,
        a.next,
        x.last,
        saturating_add_one h.projection.last_sequence (omega (arith, x.last)),
      )

  -- The constraints of the table never refuse an envelope that the projection admits.
  insert_row-Admitted :
      (h : WalletFeedHub P C) (log : List (WalletFeedEnvelope P)) (e : WalletFeedEnvelope P)
      (r : Row) (reached : Bool) {p' : WalletFeedProjection P} (d : IsDurable h log)
      → suc (length log) < signed_limit
      → Admitted P h.projection e p'
      → r.observation_id ≡ e.observation_id
      → insert_row d.rows e.sequence r reached
        ≡ (if reached then some (d.rows ++ (1 + length log + 2 ^ 63, r) ∷ []) else none)
  unfolding insert_row taken
  insert_row-Admitted h log e r reached d room a i =
      let key = as_i64-next log e.sequence (next_sequence h log e d.indexes room a) room in
      let below = Stores-KeysBelow 1 d.rows log d.stores in
      let unknown : has_observation d.rows r.observation_id ≡ false =
        Stores-has_observation 1 d.rows log r.observation_id d.stores (
          subst (λ id. number_of P 1 log id ≡ none) (sym i)
            (sym (d.indexes.ids e.observation_id) ∙ a.new)) in
      rw (
        key,
        KeysBelow-get_at d.rows _ below,
        unknown,
        insert_at-KeysBelow d.rows (1 + length log + 2 ^ 63) r below,
      )

  abbrev pub row_of : WalletFeedEnvelope P → Text → Row
  row_of e json = record { observation_id = e.observation_id; envelope_json = json }

  pub persist-Admitted :
      (h : WalletFeedHub P C) (log : List (WalletFeedEnvelope P)) (e : WalletFeedEnvelope P)
      (json : Text) (reached : Bool) {p' : WalletFeedProjection P} (d : IsDurable h log)
      → suc (length log) < signed_limit
      → Admitted P h.projection e p'
      → to_json e ≡ some json
      → persist P C h.pool e reached ≡ (
          if reached
          then ok (some (d.rows ++ (1 + length log + 2 ^ 63, row_of e json) ∷ []))
          else err not_persisted)
  unfolding persist
  persist-Admitted h log e json reached d room a j =
      ap (λ pool. persist P C pool e reached) d.pool
      ∙ rw (j, insert_row-Admitted h log e (row_of e json) reached d room a refl) (ground arith)

  -- The hub after an envelope is stored.
  abbrev pub extended :
      WalletFeedHub P C → WalletFeedEnvelope P → WalletFeedProjection P → Table → WalletFeedHub P C
  extended h e p' rows = record {
    projection = p';
    published = h.published ++ e ∷ [];
    pool = some rows;
  }

  pub extended-IsDurable :
      (h : WalletFeedHub P C) (log : List (WalletFeedEnvelope P)) (e : WalletFeedEnvelope P)
      (json : Text) {p' : WalletFeedProjection P} (d : IsDurable h log)
      → suc (length log) < signed_limit
      → apply P h.projection e ≡ ok (true, p')
      → to_json e ≡ some json
      → IsDurable
          (extended h e p' (d.rows ++ (1 + length log + 2 ^ 63, row_of e json) ∷ []))
          (log ++ e ∷ [])
  extended-IsDurable h log e json d room a j = record {
    rows = d.rows ++ (1 + length log + 2 ^ 63, row_of e json) ∷ [];
    pool = refl;
    indexes = apply-Indexes P h.projection log e d.indexes (omega arith) a;
    stores = Stores-append 1 d.rows log (row_of e json) e d.stores refl (C.round_trip e json j);
    loads = load-append _ d.rows _ (row_of e json) e d.loads (C.round_trip e json j) a;
  }
