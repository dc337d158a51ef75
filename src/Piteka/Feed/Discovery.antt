-- ===== src/Piteka/Feed/Discovery.antt =====
-- indexer/src/piteka_feed.rs: what a batch of `discover` holds, and where the next call goes on.
use tuppira.Base.{
  ℕ, suc, ◌+◌, ◌>>=◌, ◌<◌, ◌≤◌, ◌^◌, List, [], ◌∷◌, Option, some, Bool, true, false, ◌||◌, ok,
  >>=-eq-ok, >>_iff, refuse_if, refuse_if_iff, ok_or, ok_or_iff, ltb, ◌==◌, length, text_eq, not,
  text_eq_iff, All, ◌≡◌, refl, ap, ◌∙◌, subst, arith,
}
use tuppira.Base.Words.{saturating_add, saturating_add_one}
use tuppira.Connector.Contract.{ConnectorResult, ConnectorCursor, RawSourceEvent, RawSourceBatch}
use tuppira.Connector.Checks.{validate_limit, validate_batch}
use tuppira.Connector.Sound.{IsBatch, validate_batch_iff}
use tuppira.Piteka.Export.{feed_schema_version, SignedPitekaExport, encode_cursor, decode_cursor}
use tuppira.Piteka.Export.Ids.{decode_cursor-encode_cursor}
use tuppira.Piteka.Externals.{Externals}
use tuppira.Piteka.Feed.{
  PitekaFeedPage, PitekaFeedConfig, PitekaEvidenceFeedConnector, raw_event, read_exports, discover,
}

-- The sequences go on from `after` without a gap.
abbrev pub Consecutive : ℕ → List SignedPitekaExport → Type 0
Consecutive after [] = Unit
Consecutive after (e ∷ rest) = (e.sequence ≡ suc after) × Consecutive (suc after) rest

-- A chain whose first step is known goes on with its result.
go_on :
    (m : ConnectorResult ℕ) (f : ℕ → ConnectorResult RawSourceBatch) {n : ℕ} {b : RawSourceBatch}
    → m ≡ ok n
    → (m >>= f) ≡ ok b
    → f n ≡ ok b
go_on m f {n} {b} start h = subst (λ k. (k >>= f) ≡ ok b) start h

both :
    {xs ys : List RawSourceEvent} {m n : ℕ}
    → ◌≡◌ {A = ConnectorResult (List RawSourceEvent × ℕ)} (ok (xs, m)) (ok (ys, n))
    → (xs ≡ ys) × (m ≡ n)
both h = (cc (h), cc (h))

batch_of : {b d : RawSourceBatch} → ◌≡◌ {A = ConnectorResult RawSourceBatch} (ok b) (ok d) → b ≡ d
batch_of h = cc (h)

next_guard : (n m : ℕ) (b : Bool) → (not (n == m) || not b) ≡ false → (n ≡ m) × (b ≡ true)
next_guard n m b h = (ground arith, ground arith)

page_guard : (v w limit n : ℕ) → (not (v == w) || ltb limit n) ≡ false → n ≤ limit
page_guard v w limit n h = ground arith

module _ (X : Externals) where
  open X use {to_vec}

  -- One event for each export, in order, with the export's bytes.
  abbrev pub AreEventsOf : PitekaFeedConfig → List SignedPitekaExport → List RawSourceEvent → Type 0
  AreEventsOf config [] [] = Unit
  AreEventsOf config (e ∷ es) (r ∷ rs) =
      ((bytes : List ℕ) × (to_vec e ≡ some bytes) × (r ≡ raw_event X config e bytes))
      × AreEventsOf config es rs
  AreEventsOf config _ _ = ⊥

  record AreRead (config : PitekaFeedConfig) (after : ℕ) (es : List SignedPitekaExport)
      (events : List RawSourceEvent) (last : ℕ) : Type 0 where
    ordered : Consecutive after es
    owned : All (λ e. e.tenant_id ≡ config.tenant_id) es
    events_of : AreEventsOf config es events
    reached : last ≡ after + length es
    count : length events ≡ length es

  -- What a batch that was discovered holds.
  pub record IsDiscovered (c : PitekaEvidenceFeedConnector X) (after limit : ℕ)
      (batch : RawSourceBatch) : Type 0 where
    pub page : PitekaFeedPage
    pub fetched : c.fetch after limit ≡ ok page
    pub ordered : Consecutive after page.exports
    pub owned : All (λ e. e.tenant_id ≡ c.config.tenant_id) page.exports
    pub events : AreEventsOf c.config page.exports batch.events
    pub count : length batch.events ≡ length page.exports
    pub bounded : IsBatch batch limit
    pub resumes :
        decode_cursor (some batch.proposed_cursor) c.config.source_id
        ≡ ok (after + length batch.events)

  read_exports-AreRead :
      (config : PitekaFeedConfig) (after : ℕ) (es : List SignedPitekaExport)
      (events : List RawSourceEvent) (last : ℕ)
      → after + length es < 2 ^ 64
      → read_exports X config after es ≡ ok (events, last)
      → AreRead config after es events last
  unfolding read_exports
  read_exports-AreRead config after [] events last small h =
      let (none_left, here) = both h in
      subst (λ k. AreRead config after [] k last) none_left
        (record {
          ordered = tt;
          owned = tt;
          events_of = tt;
          reached = omega (arith, here);
          count = refl;
        })
  read_exports-AreRead config after (e ∷ es) events last small h =
      let (next, h₁) =
        (>>_iff
            (refuse_if
              (not (e.sequence == saturating_add after 1)
                || not (text_eq e.tenant_id config.tenant_id))
              _)
            _).0
          h in
      let (bytes, encoded, h₂) = >>=-eq-ok (ok_or (to_vec e) _) _ h₁ in
      let (later, read, h₃) = >>=-eq-ok (read_exports X config e.sequence es) _ h₂ in
      let (first, owner) =
        next_guard e.sequence (saturating_add after 1) (text_eq e.tenant_id config.tenant_id)
          ((refuse_if_iff _ _).0 next) in
      let number : e.sequence ≡ suc after =
        first ∙ saturating_add_one after (omega (arith, small)) in
      let (same, here) = both h₃ in
      let rest =
        read_exports-AreRead config (suc after) es later.0 later.1 (omega (arith, small))
          (subst (λ n. read_exports X config n es ≡ ok later) number read) in
      subst (λ k. AreRead config after (e ∷ es) k last) same
        (record {
          ordered = (number, rest.ordered);
          owned = ((text_eq_iff _ _).0 owner, rest.owned);
          events_of = ((bytes, (ok_or_iff _ _).0 encoded, refl), rest.events_of);
          reached = omega (arith, here, rest.reached);
          count = ap suc rest.count;
        })

  -- While its sequences fit 64 bits, a batch follows the cursor without a gap: its events are the exports of the page that was
  -- fetched, in order, of the configured tenant and with consecutive sequences, at most as many
  -- as asked for; and the cursor that it proposes makes the next call go on exactly behind them.
  pub discover-IsDiscovered :
      (c : PitekaEvidenceFeedConnector X) (cursor : Option ConnectorCursor) (after limit : ℕ)
      (batch : RawSourceBatch)
      → decode_cursor cursor c.config.source_id ≡ ok after
      → after + limit < 2 ^ 64
      → discover X c cursor limit ≡ ok batch
      → IsDiscovered c after limit batch
  unfolding discover
  discover-IsDiscovered c cursor after limit batch start small h =
      let (_, h₁) = (>>_iff (validate_limit limit) _).0 h in
      let h₂ = go_on (decode_cursor cursor c.config.source_id) _ start h₁ in
      let (page, fetched, h₃) = >>=-eq-ok (c.fetch after limit) _ h₂ in
      let (fits, h₄) =
        (>>_iff
            (refuse_if
              (not (page.schema_version == feed_schema_version) || ltb limit (length page.exports))
              _)
            _).0
          h₃ in
      let (found, read, h₅) = >>=-eq-ok (read_exports X c.config after page.exports) _ h₄ in
      let (_, h₆) = (>>_iff (refuse_if (not (page.next_sequence == found.1)) _) _).0 h₅ in
      let made : RawSourceBatch = record {
        source_id = c.config.source_id;
        events = found.0;
        proposed_cursor = encode_cursor c.config.source_id found.1;
      } in
      let (valid, result) = (>>_iff (validate_batch made limit) _).0 h₆ in
      let few =
        page_guard page.schema_version feed_schema_version limit (length page.exports)
          ((refuse_if_iff _ _).0 fits) in
      let all =
        read_exports-AreRead c.config after page.exports found.0 found.1 (omega (arith, few, small))
          read in
      let bounded = (validate_batch_iff made limit).0 valid in
      let resumes =
        decode_cursor-encode_cursor c.config.source_id found.1 bounded.source
          (omega (arith, all.reached, few, small)) in
      let total : found.1 ≡ after + length found.0 = omega (arith, all.reached, all.count) in
      subst (IsDiscovered c after limit) (batch_of result) (record {
        page = page;
        fetched = fetched;
        ordered = all.ordered;
        owned = all.owned;
        events = all.events_of;
        count = all.count;
        bounded = bounded;
        resumes = resumes ∙ ap ok total;
      })
